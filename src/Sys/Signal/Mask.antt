-- ===== src/Sys/Signal/Mask.antt =====
-- What the signal mask and the table of actions hold after `sys_rt_sigprocmask` and
-- `sys_rt_sigaction` of src/kernel/sys/signal.c.
use alcor2os.Base.{
  ℕ, zero, suc, ◌%◌, ◌^◌, ◌<◌, ◌≡◌, refl, sym, ap, ◌∙◌, ◌≢◌, ◌⊎◌, inl, inr, Bool, true, false, not,
  ◌&&◌, ◌||◌, Option, none, some, arith, leb, ◌==◌, eq→==, ne→==, Bool-cases, get_or-set_ne,
}
use alcor2os.Base.Word.{
  test_bit, clear_bit, test_bit-clear_self, test_bit-clear_ne, test_bit-or, test_bit-and_not,
}
use alcor2os.Base.Errno.{ok}
use alcor2os.Sys.Signal.{
  Proc, Memory, store, store_words, vmm_is_user_range, no_action, action_at, action_words, sigkill,
  sigstop, nsig, set_action, get_set_action, sys_rt_sigaction, change_mask, set_mask, get_set_mask,
  sys_rt_sigprocmask, load_action,
}

-- A mask that blocks neither SIGKILL nor SIGSTOP.
abbrev pub Killable : ℕ → Type 0
Killable mask = (test_bit mask sigkill ≡ false) × (test_bit mask sigstop ≡ false)

abbrev pub AllKillable : Option Proc → Type 0
AllKillable none = Unit {0}
AllKillable (some p) = Killable p.sig_mask

clear_both : (w : ℕ) → Killable (clear_bit (clear_bit w sigkill) sigstop)
clear_both w = (
  test_bit-clear_ne (clear_bit w sigkill) sigstop sigkill (λ e. omega arith)
      ∙ test_bit-clear_self w sigkill,
  test_bit-clear_self (clear_bit w sigkill) sigstop,
)

or_false : (a b : Bool) → a ≡ false → b ≡ false → (a || b) ≡ false
or_false true b e f = e
or_false false b e f = f

and_false : (a b : Bool) → a ≡ false → (a && b) ≡ false
and_false true b e = absurd cc
and_false false b e = refl

change_mask-Killable :
    (p : Proc) (how mask : ℕ)
    → Killable p.sig_mask
    → Killable mask
    → Killable (change_mask p how mask).0.sig_mask
unfolding change_mask
change_mask-Killable p how mask h k = elim (Bool-cases (how == 0)) [
  | inl e ↦ rw e (
    test_bit-or 64 p.sig_mask mask sigkill (omega arith) ∙ or_false _ _ h.0 k.0,
    test_bit-or 64 p.sig_mask mask sigstop (omega arith) ∙ or_false _ _ h.1 k.1,
  )
  | inr e ↦ elim (Bool-cases (how == 1)) [
    | inl e1 ↦
        rw (e, e1)
          (
            test_bit-and_not 64 p.sig_mask mask sigkill (omega arith) ∙ and_false _ _ h.0,
            test_bit-and_not 64 p.sig_mask mask sigstop (omega arith) ∙ and_false _ _ h.1,
          )
    | inr e1 ↦ elim (Bool-cases (how == 2)) [
      | inl e2 ↦ rw (e, e1, e2) k
      | inr e2 ↦ rw (e, e1, e2) h
    ]
  ]
]

set_mask-Killable :
    (p : Proc) (m : Memory) (how set_ptr : ℕ)
    → Killable p.sig_mask
    → Killable (set_mask p m how set_ptr).0.sig_mask
unfolding set_mask
set_mask-Killable p m how set_ptr h = elim (Bool-cases (set_ptr == 0)) [
  | inl e ↦ rw e h
  | inr e ↦ elim (Bool-cases (vmm_is_user_range set_ptr 8)) [
    | inl r ↦ rw (e, r) (change_mask-Killable p (how % 2 ^ 32) _ h (clear_both (m set_ptr)))
    | inr r ↦ rw (e, r) h
  ]
]

-- Whatever a process passes to sys_rt_sigprocmask, valid or not, a mask that blocks neither SIGKILL
-- nor SIGSTOP is followed by one that blocks neither.
pub sys_rt_sigprocmask-Killable :
    (current : Option Proc) (m : Memory) (how set_ptr oldset sigsetsize : ℕ)
    → AllKillable current
    → AllKillable (sys_rt_sigprocmask current m how set_ptr oldset sigsetsize).0
unfolding sys_rt_sigprocmask get_set_mask
sys_rt_sigprocmask-Killable none m how set_ptr oldset size h = elim (Bool-cases (size == 8)) [
  | inl e ↦ rw e tt
  | inr e ↦ rw e tt
]
sys_rt_sigprocmask-Killable (some p) m how set_ptr oldset size h = elim (Bool-cases (size == 8)) [
  | inr e ↦ rw e h
  | inl e ↦ elim (Bool-cases (oldset == 0)) [
    | inl o ↦ rw (e, o) (set_mask-Killable p m how set_ptr h)
    | inr o ↦ elim (Bool-cases (vmm_is_user_range oldset 8)) [
      | inl r ↦ rw (e, o, r) (set_mask-Killable p (store m oldset p.sig_mask) how set_ptr h)
      | inr r ↦ rw (e, o, r) h
    ]
  ]
]

-- The bit of the mask behind a change `how` (SIG_BLOCK, SIG_UNBLOCK, SIG_SETMASK) by `change`.
abbrev pub changed : ℕ → Bool → Bool → Bool
changed zero old change = old || change
changed (suc zero) old change = old && not change
changed (suc (suc n)) old change = change

-- For a known how and a set at an address in user space, the part of sys_rt_sigprocmask that
-- changes the mask succeeds, and each bit from 0 to 63 but SIGKILL's and SIGSTOP's becomes set,
-- cleared or assigned as how says.
pub set_mask-changed :
    (p : Proc) (m : Memory) (how set_ptr i : ℕ)
    → how < 3
    → set_ptr ≢ 0
    → vmm_is_user_range set_ptr 8 ≡ true
    → i < 64
    → i ≢ sigkill
    → i ≢ sigstop
    → ((set_mask p m how set_ptr).1 ≡ ok 0)
      × (test_bit (set_mask p m how set_ptr).0.sig_mask i
          ≡ changed how (test_bit p.sig_mask i) (test_bit (m set_ptr) i))
unfolding set_mask change_mask
set_mask-changed p m how set_ptr i h nz r hi nk ns = bits how h
  where
    new_bit :
        test_bit (clear_bit (clear_bit (m set_ptr) sigkill) sigstop) i ≡ test_bit (m set_ptr) i
    new_bit =
        test_bit-clear_ne (clear_bit (m set_ptr) sigkill) sigstop i (λ e. ns (sym e))
        ∙ test_bit-clear_ne (m set_ptr) sigkill i (λ e. nk (sym e))

    bits :
        (how : ℕ)
        → how < 3
        → ((set_mask p m how set_ptr).1 ≡ ok 0)
          × (test_bit (set_mask p m how set_ptr).0.sig_mask i
              ≡ changed how (test_bit p.sig_mask i) (test_bit (m set_ptr) i))
    bits zero h =
        rw (ne→== set_ptr 0 nz, r)
          (refl, test_bit-or 64 p.sig_mask _ i hi ∙ ap (λ b. test_bit p.sig_mask i || b) new_bit)
    bits (suc zero) h =
        rw (ne→== set_ptr 0 nz, r)
          (
            refl,
            test_bit-and_not 64 p.sig_mask _ i hi
                ∙ ap (λ b. test_bit p.sig_mask i && not b) new_bit,
          )
    bits (suc (suc zero)) h = rw (ne→== set_ptr 0 nz, r) (refl, new_bit)
    bits (suc (suc (suc n))) h = absurd (omega arith)

-- What `sys_rt_sigaction` may do to the process: only the action of the signal changes, and never that
-- of SIGKILL or SIGSTOP.
abbrev pub KeepsActions : ℕ → Option Proc → Option Proc → Type 0
KeepsActions signum none q = q ≡ none
KeepsActions signum (some p) none = ⊥
KeepsActions signum (some p) (some q) =
    ((j : ℕ) → (j ≢ signum) ⊎ (j ≡ sigkill) ⊎ (j ≡ sigstop) → action_at q j ≡ action_at p j)
    × (q.sig_mask ≡ p.sig_mask)
    × (q.sig_pending ≡ p.sig_pending)

set_action-Keeps :
    (p : Proc) (m : Memory) (signum act : ℕ)
    → signum ≢ sigkill
    → signum ≢ sigstop
    → KeepsActions signum (some p) (some (set_action p m signum act).0)
unfolding set_action
set_action-Keeps p m signum act nk ns = elim (Bool-cases (act == 0)) [
  | inl e ↦ rw e (λ j h. refl, refl, refl)
  | inr e ↦ elim (Bool-cases (vmm_is_user_range act 32)) [
    | inl r ↦
        rw (e, r)
          (
            λ j h. get_or-set_ne p.sig_actions signum j (load_action m act) no_action (other j h),
            refl,
            refl,
          )
    | inr r ↦ rw (e, r) (λ j h. refl, refl, refl)
  ]
]
  where
    other : (j : ℕ) → (j ≢ signum) ⊎ (j ≡ sigkill) ⊎ (j ≡ sigstop) → signum ≢ j
    other j (inl n) = λ e. n (sym e)
    other j (inr (inl k)) = λ e. nk (e ∙ k)
    other j (inr (inr s)) = λ e. ns (e ∙ s)

sigaction_numbers :
    (signum : ℕ)
    → (signum == sigkill || signum == sigstop) ≡ false
    → (signum ≢ sigkill) × (signum ≢ sigstop)
sigaction_numbers signum e = (
  λ k. (neither (signum == sigkill) (signum == sigstop) e).0 (eq→== signum sigkill k),
  λ k. (neither (signum == sigkill) (signum == sigstop) e).1 (eq→== signum sigstop k),
)
  where
    neither : (a b : Bool) → (a || b) ≡ false → (a ≢ true) × (b ≢ true)
    neither true b h = absurd cc
    neither false b h = (λ z. cc, λ z. cc)

get_set_action-Keeps :
    (current : Option Proc) (m : Memory) (signum act oldact : ℕ)
    → signum ≢ sigkill
    → signum ≢ sigstop
    → KeepsActions signum current (get_set_action current m signum act oldact).0
unfolding get_set_action
get_set_action-Keeps none m signum act oldact nk ns = refl
get_set_action-Keeps (some p) m signum act oldact nk ns = elim (Bool-cases (oldact == 0)) [
  | inl o ↦ rw o (set_action-Keeps p m signum act nk ns)
  | inr o ↦ elim (Bool-cases (vmm_is_user_range oldact 32)) [
    | inl r ↦
        rw (o, r)
          (set_action-Keeps p (store_words m oldact (action_words (action_at p signum))) signum act
            nk ns)
    | inr r ↦ rw (o, r) (λ j h. refl, refl, refl)
  ]
]

keeps_self : (signum : ℕ) (current : Option Proc) → KeepsActions signum current current
keeps_self signum none = refl
keeps_self signum (some p) = (λ j h. refl, refl, refl)

-- Whatever is passed to sys_rt_sigaction, the actions of all other signals and those of SIGKILL and
-- SIGSTOP stay, and so do the mask and the pending signals.
pub sys_rt_sigaction-KeepsActions :
    (current : Option Proc) (m : Memory) (signum act oldact sigsetsize : ℕ)
    → KeepsActions signum current (sys_rt_sigaction current m signum act oldact sigsetsize).0
unfolding sys_rt_sigaction
sys_rt_sigaction-KeepsActions current m signum act oldact size = elim (Bool-cases (size == 8)) [
  | inr e ↦ rw e (keeps_self signum current)
  | inl e ↦ elim (Bool-cases (signum == 0 || leb nsig signum)) [
    | inl z ↦ rw (e, z) (keeps_self signum current)
    | inr z ↦ elim (Bool-cases (signum == sigkill || signum == sigstop)) [
      | inl k ↦ rw (e, z, k) (keeps_self signum current)
      | inr k ↦
          rw (e, z, k)
            (get_set_action-Keeps current m signum act oldact (sigaction_numbers signum k).0
              (sigaction_numbers signum k).1)
    ]
  ]
]
