-- ===== src/Base/Count.antt =====
-- How many of the first numbers pass a test, and sums over the first numbers.
use Prim.Native.Nat.{ℕ, zero, suc, ◌+◌, ◌*◌, ◌<◌, ◌≤◌}
use mathlib.Core.Path.{◌≡◌, refl, ap}
use mathlib.Core.Logic.{◌≢◌}
use mathlib.Core.Bool.{Bool, true, false}
use native.Mathlib.Decide.{ℕ_discrete}
use native.Mathlib.Omega.{arith}
use alcor2os.Base.Tests.{if◌then◌else◌}

abbrev pub bit : Bool → ℕ
bit b = if b then 1 else 0

unfoldable pub count_below : (ℕ → Bool) → ℕ → ℕ
count_below p zero = 0
count_below p (suc n) = bit (p n) + count_below p n

pub count_below-le : (p : ℕ → Bool) (n : ℕ) → count_below p n ≤ n
unfolding count_below
count_below-le p zero = omega arith
count_below-le p (suc n) = ground (arith, count_below-le p n)

pub count_below-eq :
    (p q : ℕ → Bool) (n : ℕ) → ((i : ℕ) → i < n → p i ≡ q i) → count_below p n ≡ count_below q n
unfolding count_below
count_below-eq p q zero h = refl
count_below-eq p q (suc n) h =
    ground (arith, h n (omega arith), count_below-eq p q n (λ i l. h i (omega arith)))

-- One value changed.
pub count_below-change_lt :
    (p q : ℕ → Bool) (n k : ℕ)
    → k < n
    → ((i : ℕ) → i < n → i ≢ k → p i ≡ q i)
    → count_below p n + bit (q k) ≡ count_below q n + bit (p k)
unfolding count_below
count_below-change_lt p q zero k l h = elim l [ ]
count_below-change_lt p q (suc n) k l h = elim (ℕ_discrete n k) [
  | yes e ↦ omega (
    arith,
    ap (λ i. bit (p i)) e,
    ap (λ i. bit (q i)) e,
    count_below-eq p q n (λ i m. h i (omega arith) (λ f. omega arith)),
  )
  | no ne ↦ omega (
    arith,
    ap bit (h n (omega arith) ne),
    count_below-change_lt p q n k (omega arith) (λ i m. h i (omega arith)),
  )
]

pub count_below-change :
    (p q : ℕ → Bool) (n k : ℕ)
    → k < n
    → ((i : ℕ) → i ≢ k → p i ≡ q i)
    → count_below p n + bit (q k) ≡ count_below q n + bit (p k)
count_below-change p q n k l h = count_below-change_lt p q n k l (λ i m. h i)

-- Some number passes the test unless the count is zero.
pub count_below-pos : (p : ℕ → Bool) (n k : ℕ) → k < n → p k ≡ true → 0 < count_below p n
unfolding count_below
count_below-pos p zero k l h = elim l [ ]
count_below-pos p (suc n) k l h = elim (ℕ_discrete n k) [
  | yes e ↦ omega (arith, ap (λ i. bit (p i)) e, ap bit h)
  | no ne ↦ omega (arith, count_below-pos p n k (omega arith) h)
]

pub count_below-zero :
    (p : ℕ → Bool) (n : ℕ) → ((i : ℕ) → i < n → p i ≡ false) → count_below p n ≡ 0
unfolding count_below
count_below-zero p zero h = refl
count_below-zero p (suc n) h =
    omega (arith, ap bit (h n (omega arith)), count_below-zero p n (λ i l. h i (omega arith)))

unfoldable pub sum_below : (ℕ → ℕ) → ℕ → ℕ
sum_below p zero = 0
sum_below p (suc n) = p n + sum_below p n

pub sum_below-eq :
    (p q : ℕ → ℕ) (n : ℕ) → ((i : ℕ) → i < n → p i ≡ q i) → sum_below p n ≡ sum_below q n
unfolding sum_below
sum_below-eq p q zero h = refl
sum_below-eq p q (suc n) h =
    omega (arith, h n (omega arith), sum_below-eq p q n (λ i l. h i (omega arith)))

pub sum_below-change :
    (p q : ℕ → ℕ) (n k : ℕ)
    → k < n
    → ((i : ℕ) → i ≢ k → p i ≡ q i)
    → sum_below p n + q k ≡ sum_below q n + p k
unfolding sum_below
sum_below-change p q zero k l h = elim l [ ]
sum_below-change p q (suc n) k l h = elim (ℕ_discrete n k) [
  | yes e ↦ omega (arith, ap p e, ap q e, sum_below-eq p q n (λ i m. h i (λ f. omega arith)))
  | no ne ↦ omega (arith, h n ne, sum_below-change p q n k (omega arith) h)
]

pub sum_below-le : (p : ℕ → ℕ) (n m : ℕ) → ((i : ℕ) → i < n → p i ≤ m) → sum_below p n ≤ n * m
unfolding sum_below
sum_below-le p zero m h = omega arith
sum_below-le p (suc n) m h =
    omega (arith, h n (omega arith), sum_below-le p n m (λ i l. h i (omega arith)))
