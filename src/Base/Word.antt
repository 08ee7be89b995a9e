-- ===== src/Base/Word.antt =====
-- 64-bit words as bit masks. The bit operations of C are written by recursion on the bit's place,
-- lowest first, which makes them executable and gives their laws by induction.
use Prim.Native.Nat.{ℕ, zero, suc, ◌+◌, ◌-◌, ◌*◌, ◌/◌, ◌%◌, ◌^◌, ◌<◌, ◌≤◌, max}
use mathlib.Core.Path.{◌≡◌, refl, ap}
use mathlib.Core.Logic.{◌≢◌}
use mathlib.Core.Bool.{Bool, true, false, not, ◌&&◌, ◌||◌}
use native.Mathlib.Nat.{pow-suc}
use native.Mathlib.Omega.{arith}
use alcor2os.Base.Tests.{◌==◌, ==_iff}

abbrev pub u64_mod : ℕ
u64_mod = 2 ^ 64

-- u64 `a - b` and `a + b`, which wrap.
abbrev pub sub64 : ℕ → ℕ → ℕ
sub64 a b = (a + u64_mod - b) % u64_mod

abbrev pub add64 : ℕ → ℕ → ℕ
add64 a b = (a + b) % u64_mod

-- `w & (1 << b)` as a test
unfoldable pub test_bit : ℕ → ℕ → Bool
test_bit w zero = w % 2 == 1
test_bit w (suc b) = test_bit (w / 2) b

-- `w | (1 << b)`
unfoldable pub set_bit : ℕ → ℕ → ℕ
set_bit w zero = w / 2 * 2 + 1
set_bit w (suc b) = set_bit (w / 2) b * 2 + w % 2

-- `w & ~(1 << b)`
unfoldable pub clear_bit : ℕ → ℕ → ℕ
clear_bit w zero = w / 2 * 2
clear_bit w (suc b) = clear_bit (w / 2) b * 2 + w % 2

-- `a | b` and `a & ~b` on the lowest `k` bits
unfoldable pub or_bits : ℕ → ℕ → ℕ → ℕ
or_bits zero a b = 0
or_bits (suc k) a b = or_bits k (a / 2) (b / 2) * 2 + max (a % 2) (b % 2)

unfoldable pub and_not_bits : ℕ → ℕ → ℕ → ℕ
and_not_bits zero a b = 0
and_not_bits (suc k) a b = and_not_bits k (a / 2) (b / 2) * 2 + (a % 2 - b % 2)

abbrev pub or64 : ℕ → ℕ → ℕ
or64 a b = or_bits 64 a b

abbrev pub and_not64 : ℕ → ℕ → ℕ
and_not64 a b = and_not_bits 64 a b

pub test_bit-set_self : (w b : ℕ) → test_bit (set_bit w b) b ≡ true
unfolding test_bit set_bit
test_bit-set_self w zero = ground arith
test_bit-set_self w (suc b) =
    let e : (set_bit (w / 2) b * 2 + w % 2) / 2 ≡ set_bit (w / 2) b = omega arith in
    rw e (test_bit-set_self (w / 2) b)

pub test_bit-set_ne : (w b c : ℕ) → b ≢ c → test_bit (set_bit w b) c ≡ test_bit w c
unfolding test_bit set_bit
test_bit-set_ne w zero zero h = absurd (h refl)
test_bit-set_ne w zero (suc c) h = ap (λ x. test_bit x c) (omega arith)
test_bit-set_ne w (suc b) zero h = ground arith
test_bit-set_ne w (suc b) (suc c) h =
    let e : (set_bit (w / 2) b * 2 + w % 2) / 2 ≡ set_bit (w / 2) b = omega arith in
    rw e (test_bit-set_ne (w / 2) b c (λ f. h (ap suc f)))

pub test_bit-clear_self : (w b : ℕ) → test_bit (clear_bit w b) b ≡ false
unfolding test_bit clear_bit
test_bit-clear_self w zero = ground arith
test_bit-clear_self w (suc b) =
    let e : (clear_bit (w / 2) b * 2 + w % 2) / 2 ≡ clear_bit (w / 2) b = omega arith in
    rw e (test_bit-clear_self (w / 2) b)

pub test_bit-clear_ne : (w b c : ℕ) → b ≢ c → test_bit (clear_bit w b) c ≡ test_bit w c
unfolding test_bit clear_bit
test_bit-clear_ne w zero zero h = absurd (h refl)
test_bit-clear_ne w zero (suc c) h = ap (λ x. test_bit x c) (omega arith)
test_bit-clear_ne w (suc b) zero h = ground arith
test_bit-clear_ne w (suc b) (suc c) h =
    let e : (clear_bit (w / 2) b * 2 + w % 2) / 2 ≡ clear_bit (w / 2) b = omega arith in
    rw e (test_bit-clear_ne (w / 2) b c (λ f. h (ap suc f)))

pub test_bit-or :
    (k a b i : ℕ) → i < k → test_bit (or_bits k a b) i ≡ (test_bit a i || test_bit b i)
unfolding test_bit or_bits
test_bit-or zero a b i h = elim h [ ]
test_bit-or (suc k) a b zero h = ground arith
test_bit-or (suc k) a b (suc i) h =
    let e : (or_bits k (a / 2) (b / 2) * 2 + max (a % 2) (b % 2)) / 2 ≡ or_bits k (a / 2) (b / 2) =
      omega arith in
    rw e (test_bit-or k (a / 2) (b / 2) i (omega arith))

pub test_bit-and_not :
    (k a b i : ℕ) → i < k → test_bit (and_not_bits k a b) i ≡ (test_bit a i && not (test_bit b i))
unfolding test_bit and_not_bits
test_bit-and_not zero a b i h = elim h [ ]
test_bit-and_not (suc k) a b zero h = ground arith
test_bit-and_not (suc k) a b (suc i) h =
    let e : (and_not_bits k (a / 2) (b / 2) * 2 + (a % 2 - b % 2)) / 2
        ≡ and_not_bits k (a / 2) (b / 2) =
      omega arith in
    rw e (test_bit-and_not k (a / 2) (b / 2) i (omega arith))

-- The word with its lowest `k` bits set is the largest of its width; any smaller one has a clear bit.
pub all_ones : (k w : ℕ) → w < 2 ^ k → ((i : ℕ) → i < k → test_bit w i ≡ true) → w + 1 ≡ 2 ^ k
unfolding test_bit
all_ones zero w l h = omega arith
all_ones (suc k) w l h = omega (
  arith,
  pow-suc 2 k,
  (==_iff (w % 2) 1).0 (h 0 (omega arith)),
  all_ones k (w / 2) (omega (arith, pow-suc 2 k)) (λ i m. h (suc i) (omega arith)),
)

pub set_bit-lt : (k w b : ℕ) → w < 2 ^ k → b < k → set_bit w b < 2 ^ k
unfolding set_bit
set_bit-lt zero w b l h = elim h [ ]
set_bit-lt (suc k) w zero l h = omega (arith, pow-suc 2 k)
set_bit-lt (suc k) w (suc b) l h =
    omega (arith, pow-suc 2 k, set_bit-lt k (w / 2) b (omega (arith, pow-suc 2 k)) (omega arith))

pub clear_bit-le : (w b : ℕ) → clear_bit w b ≤ w
unfolding clear_bit
clear_bit-le w zero = omega arith
clear_bit-le w (suc b) = omega (arith, clear_bit-le (w / 2) b)

-- Two words of one width with the same bits are the same word.
pub eq_of_bits :
    (k v w : ℕ) → v < 2 ^ k → w < 2 ^ k → ((i : ℕ) → i < k → test_bit v i ≡ test_bit w i) → v ≡ w
unfolding test_bit
eq_of_bits zero v w lv lw h = omega arith
eq_of_bits (suc k) v w lv lw h = ground (
  arith,
  pow-suc 2 k,
  h 0 (omega arith),
  eq_of_bits k (v / 2) (w / 2) (omega (arith, pow-suc 2 k)) (omega (arith, pow-suc 2 k))
      (λ i m. h (suc i) (omega arith)),
)

-- The bits of the word with its lowest `k` bits set.
pub ones_bit : (k i : ℕ) → i < k → test_bit (2 ^ k - 1) i ≡ true
unfolding test_bit
ones_bit zero i h = elim h [ ]
ones_bit (suc k) zero h = ground (arith, pow-suc 2 k, pow_pos k)
  where
    pow_pos : (n : ℕ) → 0 < 2 ^ n
    pow_pos zero = omega arith
    pow_pos (suc n) = omega (arith, pow-suc 2 n, pow_pos n)
ones_bit (suc k) (suc i) h =
    let e : (2 ^ suc k - 1) / 2 ≡ 2 ^ k - 1 = omega (arith, pow-suc 2 k) in
    rw e (ones_bit k i (omega arith))
