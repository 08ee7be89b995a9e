-- ===== src/Mm/Pmm/Bitmap.antt =====
-- The bitmap of src/mm/pmm.c as a set of pages: what a set and a clear change, what is in bounds.
use alcor2os.Base.{
  ℕ, zero, suc, ◌*◌, ◌/◌, ◌%◌, ◌^◌, ◌<◌, ◌≡◌, ◌≢◌, true, false, List, [], ◌∷◌, arith, get_or, set,
  length, length-set, get_or-set_self, get_or-set_ne,
}
use native.Mathlib.Decide.{ℕ_discrete}
use alcor2os.Base.Word.{
  set_bit, clear_bit, test_bit-set_self, test_bit-set_ne, test_bit-clear_self, test_bit-clear_ne,
  set_bit-lt, clear_bit-le,
}
use alcor2os.Mm.Pmm.{bitmap_set, bitmap_clear, bitmap_test}

pub length-bitmap_set : (m : List ℕ) (p : ℕ) → length (bitmap_set m p) ≡ length m
unfolding bitmap_set
length-bitmap_set m p = length-set m _ _

pub length-bitmap_clear : (m : List ℕ) (p : ℕ) → length (bitmap_clear m p) ≡ length m
unfolding bitmap_clear
length-bitmap_clear m p = length-set m _ _

-- Two pages of the same word are two bits of it.
other_bit : (p q : ℕ) → p ≢ q → p / 64 ≡ q / 64 → p % 64 ≢ q % 64
other_bit p q h e f = h (omega arith)

pub test-set_self : (m : List ℕ) (p : ℕ) → p < length m * 64 → bitmap_test (bitmap_set m p) p ≡ true
unfolding bitmap_test bitmap_set
test-set_self m p h =
    rw (get_or-set_self m (p / 64) (set_bit (get_or m (p / 64) 0) (p % 64)) 0 (omega arith))
      (test_bit-set_self (get_or m (p / 64) 0) (p % 64))

pub test-set_ne :
    (m : List ℕ) (p q : ℕ)
    → p ≢ q
    → p < length m * 64
    → bitmap_test (bitmap_set m p) q ≡ bitmap_test m q
unfolding bitmap_test bitmap_set
test-set_ne m p q ne h = elim (ℕ_discrete (p / 64) (q / 64)) [
  | yes e ↦
      rw (← e, get_or-set_self m (p / 64) (set_bit (get_or m (p / 64) 0) (p % 64)) 0 (omega arith))
        (test_bit-set_ne (get_or m (p / 64) 0) (p % 64) (q % 64) (other_bit p q ne e))
  | no f ↦ rw (get_or-set_ne m (p / 64) (q / 64) (set_bit (get_or m (p / 64) 0) (p % 64)) 0 f)
]

pub test-clear_self :
    (m : List ℕ) (p : ℕ) → p < length m * 64 → bitmap_test (bitmap_clear m p) p ≡ false
unfolding bitmap_test bitmap_clear
test-clear_self m p h =
    rw (get_or-set_self m (p / 64) (clear_bit (get_or m (p / 64) 0) (p % 64)) 0 (omega arith))
      (test_bit-clear_self (get_or m (p / 64) 0) (p % 64))

pub test-clear_ne :
    (m : List ℕ) (p q : ℕ)
    → p ≢ q
    → p < length m * 64
    → bitmap_test (bitmap_clear m p) q ≡ bitmap_test m q
unfolding bitmap_test bitmap_clear
test-clear_ne m p q ne h = elim (ℕ_discrete (p / 64) (q / 64)) [
  | yes e ↦
      rw
        (← e, get_or-set_self m (p / 64) (clear_bit (get_or m (p / 64) 0) (p % 64)) 0 (omega arith))
        (test_bit-clear_ne (get_or m (p / 64) 0) (p % 64) (q % 64) (other_bit p q ne e))
  | no f ↦ rw (get_or-set_ne m (p / 64) (q / 64) (clear_bit (get_or m (p / 64) 0) (p % 64)) 0 f)
]

-- Each word of the bitmap fits a u64.
abbrev pub Fits : List ℕ → Type 0
Fits m = (i : ℕ) → get_or m i 0 < 2 ^ 64

set-Fits : (m : List ℕ) (j v : ℕ) → v < 2 ^ 64 → Fits m → Fits (set m j v)
set-Fits [] j v h f i = f i
set-Fits (x ∷ m) zero v h f zero = h
set-Fits (x ∷ m) zero v h f (suc i) = f (suc i)
set-Fits (x ∷ m) (suc j) v h f zero = f zero
set-Fits (x ∷ m) (suc j) v h f (suc i) = set-Fits m j v h (λ k. f (suc k)) i

pub bitmap_set-Fits : (m : List ℕ) (p : ℕ) → Fits m → Fits (bitmap_set m p)
unfolding bitmap_set
bitmap_set-Fits m p f = set-Fits m _ _ (set_bit-lt 64 _ (p % 64) (f (p / 64)) (omega arith)) f

pub bitmap_clear-Fits : (m : List ℕ) (p : ℕ) → Fits m → Fits (bitmap_clear m p)
unfolding bitmap_clear
bitmap_clear-Fits m p f =
    set-Fits m _ _ (omega (arith, clear_bit-le (get_or m (p / 64) 0) (p % 64), f (p / 64))) f
