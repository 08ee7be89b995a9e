-- ===== src/Sys/Signal/Deliver.antt =====
-- Which signal `proc_check_signals` of src/kernel/sys/signal.c delivers.
use alcor2os.Base.{
  ℕ, zero, suc, ◌+◌, ◌≤◌, ◌<◌, ◌≡◌, refl, sym, ap, ◌∙◌, subst, ◌≢◌, ◌⊎◌, inl, inr, Bool, true,
  false, not, ◌&&◌, ◌||◌, some, arith, ◌==◌, ==_iff, eq→==, ne→==, Bool-cases,
}
use native.Mathlib.Decide.{ℕ_discrete}
use alcor2os.Base.Word.{test_bit, clear_bit, and_not64, test_bit-and_not}
use alcor2os.Sys.Signal.{Proc, Frame, Memory, action_at, sigkill, sigstop}
use alcor2os.Sys.Signal.Check.{
  sig_dfl, sig_ign, sig_default_ignore, find_signal, Outcome, exits, returns, dispose,
  proc_check_signals,
}

-- The signal is pending and not masked.
abbrev pub Deliverable : Proc → ℕ → Type 0
Deliverable p j = (test_bit p.sig_pending j ≡ true) × (test_bit p.sig_mask j ≡ false)

-- The lowest set bit of `d` among the `n` from `i` on, or 0 for none.
abbrev pub Lowest : ℕ → ℕ → ℕ → ℕ → Type 0
Lowest n i d s =
    ((s ≡ 0) × ((j : ℕ) → i ≤ j → j < i + n → test_bit d j ≡ false))
    ⊎ ((i ≤ s)
        × (s < i + n)
        × (test_bit d s ≡ true)
        × ((j : ℕ) → i ≤ j → j < s → test_bit d j ≡ false))

find_signal-Lowest : (n i d : ℕ) → Lowest n i d (find_signal n i d)
unfolding find_signal
find_signal-Lowest zero i d = inl (refl, λ j h k. absurd (omega arith))
find_signal-Lowest (suc n) i d = elim (Bool-cases (test_bit d i)) [
  | inl e ↦ rw e (inr (omega arith, omega arith, e, λ j h k. absurd (omega arith)))
  | inr e ↦ rw e (elim (find_signal-Lowest n (suc i) d) [
    | inl a ↦ inl (a.0, λ j h k. split j h e (λ l. a.1 j l (omega arith)))
    | inr b ↦
        inr (omega (arith, b.0), omega (arith, b.1), b.2, λ j h k. split j h e (λ l. b.3 j l k))
  ])
]
  where
    split :
        (j : ℕ)
        → i ≤ j
        → test_bit d i ≡ false
        → (suc i ≤ j → test_bit d j ≡ false)
        → test_bit d j ≡ false
    split j h e f = elim (ℕ_discrete i j) [
      | yes x ↦ subst (λ z. test_bit d z ≡ false) x e
      | no x ↦ f (omega arith)
    ]

test_bit-zero : (b : ℕ) → test_bit 0 b ≡ false
unfolding test_bit
test_bit-zero zero = refl
test_bit-zero (suc b) = test_bit-zero b

both : (a b : Bool) → (a && not b) ≡ true → (a ≡ true) × (b ≡ false)
both true true e = absurd cc
both true false e = (refl, refl)
both false b e = absurd cc

not_both : (a b : Bool) → (a && not b) ≡ false → (a ≡ true) × (b ≡ false) → ⊥
not_both true true e h = absurd (let z : true ≡ false = h.1 in cc)
not_both true false e h = cc
not_both false b e h = absurd (let z : false ≡ true = h.0 in cc)

not-Deliverable :
    (p : Proc) (j : ℕ)
    → j < 64
    → test_bit (and_not64 p.sig_pending p.sig_mask) j ≡ false
    → ¬ Deliverable p j
not-Deliverable p j h e =
    not_both (test_bit p.sig_pending j) (test_bit p.sig_mask j)
      (sym (test_bit-and_not 64 p.sig_pending p.sig_mask j h) ∙ e)

-- `proc_check_signals` either finds nothing to deliver and changes nothing, or goes on with the lowest
-- signal that is pending and not masked, no longer pending.
abbrev pub Chooses : Proc → Frame → Memory → Outcome → Type 0
Chooses p f m o =
    (((j : ℕ) → 0 < j → j < 64 → ¬ Deliverable p j) × (o ≡ returns (some p) f m))
    ⊎ ((s : ℕ) × (0 < s)
        × (s < 64)
        × Deliverable p s
        × ((j : ℕ) → 0 < j → j < s → ¬ Deliverable p j)
        × (o ≡ dispose (record p { sig_pending = clear_bit p.sig_pending s }) f m s))

-- proc_check_signals changes nothing when no signal from 1 to 63 is both pending and unmasked, and
-- otherwise clears the lowest such signal from the pending ones and disposes of it.
pub proc_check_signals-Chooses :
    (p : Proc) (f : Frame) (m : Memory) → Chooses p f m (proc_check_signals (some p) f m)
unfolding proc_check_signals
proc_check_signals-Chooses p f m =
    let d : ℕ = and_not64 p.sig_pending p.sig_mask in
    elim (Bool-cases (and_not64 p.sig_pending p.sig_mask == 0)) [
      | inl e ↦ rw e (
          inl (
            λ j h k.
                not-Deliverable p j k (ap (λ z. test_bit z j) ((==_iff d 0).0 e) ∙ test_bit-zero j),
            refl,
          ))
      | inr e ↦ elim (find_signal-Lowest 63 1 d) [
        | inl a ↦
            rw (e, eq→== (find_signal 63 1 d) 0 a.0)
              (inl (λ j h k. not-Deliverable p j k (a.1 j h (omega arith)), refl))
        | inr b ↦
            rw (e, ne→== (find_signal 63 1 d) 0 (λ z. omega (arith, b.0)))
              (inr (
                find_signal 63 1 d,
                omega (arith, b.0),
                omega (arith, b.1),
                both _ _ (
                    sym (
                      test_bit-and_not 64 p.sig_pending p.sig_mask (find_signal 63 1 d)
                        (omega (arith, b.1)))
                    ∙ b.2),
                λ j h k. not-Deliverable p j (omega (arith, b.1)) (b.3 j h k),
                refl,
              ))
      ]
    ]

-- SIGKILL and SIGSTOP, once chosen for delivery, end the process whatever handler is set, unless
-- their action is SIG_IGN.
pub dispose-exits :
    (p : Proc) (f : Frame) (m : Memory) (s : ℕ)
    → (s ≡ sigkill) ⊎ (s ≡ sigstop)
    → (action_at p s).sa_handler ≢ sig_ign
    → dispose p f m s ≡ exits p s
unfolding dispose sig_default_ignore
dispose-exits p f m s h n =
    rw (ne→== (action_at p s).sa_handler sig_ign n)
      (elim (Bool-cases ((action_at p s).sa_handler == sig_dfl)) [
        | inl e ↦
            rw
              (
                e,
                ne→== s 17 (λ z. omega arith),
                ne→== s 23 (λ z. omega arith),
                ne→== s 28 (λ z. omega arith),
                ne→== s 18 (λ z. omega arith),
              )
              refl
        | inr e ↦ rw (e, fatal s h) refl
      ])
  where
    fatal : (s : ℕ) → (s ≡ sigkill) ⊎ (s ≡ sigstop) → (s == sigkill || s == sigstop) ≡ true
    fatal s (inl e) = rw (eq→== s sigkill e) refl
    fatal s (inr e) = rw (eq→== s sigstop e, ne→== s sigkill (λ z. omega arith)) refl
