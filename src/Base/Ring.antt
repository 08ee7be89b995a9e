-- ===== src/Base/Ring.antt =====
-- The bytes of a ring buffer in order: `n` of them from index `h` on, going round at `cap`.
use alcor2os.Base.{
  ℕ, zero, suc, ◌+◌, ◌-◌, ◌%◌, ◌≤◌, ◌<◌, ◌≡◌, refl, sym, ap, ◌≢◌, ◌⊎◌, inl, inr, List, [], ◌∷◌,
  ◌++◌, arith, length, get_or, set, length-append, get_or-set_self, get_or-set_ne,
}
use native.Mathlib.Nat.{mod-eq_of_lt, mod-eq-sub-mod, mod-add-mod}
use native.Mathlib.Decide.{dec_lt}

-- The index after `n` steps from `h`, for `h < cap` and `n ≤ cap`.
step_mod :
    (cap h n : ℕ) → h < cap → n ≤ cap → ((h + n) % cap ≡ h + n) ⊎ ((h + n) % cap + cap ≡ h + n)
step_mod cap h n l m = elim (dec_lt (h + n) cap) [
  | yes f ↦ inl (mod-eq_of_lt f)
  | no f ↦ inr (
      omega (
        arith,
        mod-eq-sub-mod {n = h + n} {m = cap} (omega arith),
        mod-eq_of_lt {n = h + n - cap} {m = cap} (omega arith),
      ))
]

pub index_apart : (cap h k n : ℕ) → h < cap → k < n → n < cap → (h + k) % cap ≢ (h + n) % cap
index_apart cap h k n l m o e =
    omega (arith, e, step_mod cap h k l (omega arith), step_mod cap h n l (omega arith))

pub index_next : (cap h k : ℕ) → h < cap → k < cap → ((h + 1) % cap + k) % cap ≡ (h + (k + 1)) % cap
index_next cap h k l m = rw mod-add-mod (ap (λ z. z % cap) (omega arith))

pub index_lt : (cap n : ℕ) → 0 < cap → n % cap < cap
index_lt cap n h = omega arith

unfoldable pub window : List ℕ → ℕ → ℕ → ℕ → List ℕ
window buf cap h zero = []
window buf cap h (suc n) = window buf cap h n ++ get_or buf ((h + n) % cap) 0 ∷ []

pub length-window : (buf : List ℕ) (cap h n : ℕ) → length (window buf cap h n) ≡ n
unfolding window
length-window buf cap h zero = refl
length-window buf cap h (suc n) = omega (
  arith,
  length-append (window buf cap h n) (get_or buf ((h + n) % cap) 0 ∷ []),
  length-window buf cap h n,
)

-- A write at the index behind the window leaves the window as it is.
window-set :
    (buf : List ℕ) (cap h n k x : ℕ)
    → h < cap
    → n < cap
    → k ≤ n
    → window (set buf ((h + n) % cap) x) cap h k ≡ window buf cap h k
unfolding window
window-set buf cap h n zero x l m o = refl
window-set buf cap h n (suc k) x l m o = rw (
  window-set buf cap h n k x l m (omega arith),
  get_or-set_ne buf ((h + n) % cap) ((h + k) % cap) x 0
      (λ e. index_apart cap h k n l (omega arith) m (sym e)),
)

-- It appends the byte.
pub window-push :
    (buf : List ℕ) (cap h n x : ℕ)
    → cap ≤ length buf
    → h < cap
    → n < cap
    → window (set buf ((h + n) % cap) x) cap h (suc n) ≡ window buf cap h n ++ x ∷ []
unfolding window
window-push buf cap h n x s l m = rw (
  window-set buf cap h n n x l m (omega arith),
  get_or-set_self buf ((h + n) % cap) x 0 (omega (arith, index_lt cap (h + n))),
)

-- The byte at `h` is the first.
pub window-pop :
    (buf : List ℕ) (cap h n : ℕ)
    → h < cap
    → n < cap
    → window buf cap h (suc n) ≡ get_or buf h 0 ∷ window buf cap ((h + 1) % cap) n
unfolding window
window-pop buf cap h zero l m =
    let e : (h + 0) % cap ≡ h = omega (arith, step_mod cap h 0 l) in rw e
window-pop buf cap h (suc n) l m =
    rw (window-pop buf cap h n l (omega arith), index_next cap h n l (omega arith))
      (ap (λ z. get_or buf h 0 ∷ (window buf cap ((h + 1) % cap) n ++ get_or buf (z % cap) 0 ∷ []))
        (omega arith))
