-- ===== src/Fs/Ext2/Bitmap.antt =====
-- The bitmaps of src/fs/ext2.c as sets: what a set and a clear change, and what the search finds.
use alcor2os.Base.{
  ℕ, zero, suc, ◌+◌, ◌*◌, ◌/◌, ◌%◌, ◌≤◌, ◌<◌, ◌≡◌, refl, ap, ◌∙◌, ◌≢◌, inl, inr, true, false,
  Option, none, some, ◌==◌, ==_iff, eq→==, ne→==, Bool-cases, ltb, ltb→lt, ltb→le, Option-cases,
  arith,
}
use native.Mathlib.Decide.{ℕ_discrete, dec_lt}
use alcor2os.Base.Word.{
  test_bit, set_bit, clear_bit, test_bit-set_self, test_bit-set_ne, test_bit-clear_self,
  test_bit-clear_ne, ones_bit,
}
use alcor2os.Fs.Ext2.{
  Bytes, u32_mod, put_byte, bitmap_set, bitmap_clear, bitmap_test, find_clear_bit, find_clear_byte,
  bitmap_find_clear,
}

put_byte_self : (m : Bytes) (k v : ℕ) → put_byte m k v k ≡ v
put_byte_self m k v = rw (eq→== k k refl)

put_byte_ne : (m : Bytes) (k v i : ℕ) → i ≢ k → put_byte m k v i ≡ m i
put_byte_ne m k v i h = rw (ne→== i k h)

pub test-set_self : (m : Bytes) (p : ℕ) → bitmap_test (bitmap_set m p) p ≡ true
unfolding bitmap_test bitmap_set
test-set_self m p =
    rw (put_byte_self m (p / 8) (set_bit (m (p / 8)) (p % 8)))
      (test_bit-set_self (m (p / 8)) (p % 8))

pub test-clear_self : (m : Bytes) (p : ℕ) → bitmap_test (bitmap_clear m p) p ≡ false
unfolding bitmap_test bitmap_clear
test-clear_self m p =
    rw (put_byte_self m (p / 8) (clear_bit (m (p / 8)) (p % 8)))
      (test_bit-clear_self (m (p / 8)) (p % 8))

-- Two places of the same byte are two bits of it.
other_bit : (p q : ℕ) → p ≢ q → q / 8 ≡ p / 8 → p % 8 ≢ q % 8
other_bit p q h e f = h (omega arith)

pub test-set_ne : (m : Bytes) (p q : ℕ) → p ≢ q → bitmap_test (bitmap_set m p) q ≡ bitmap_test m q
unfolding bitmap_test bitmap_set
test-set_ne m p q ne = elim (ℕ_discrete (q / 8) (p / 8)) [
  | yes e ↦
      rw (e, put_byte_self m (p / 8) (set_bit (m (p / 8)) (p % 8)))
        (test_bit-set_ne (m (p / 8)) (p % 8) (q % 8) (other_bit p q ne e))
  | no f ↦ rw (put_byte_ne m (p / 8) (set_bit (m (p / 8)) (p % 8)) (q / 8) f)
]

pub test-clear_ne :
    (m : Bytes) (p q : ℕ) → p ≢ q → bitmap_test (bitmap_clear m p) q ≡ bitmap_test m q
unfolding bitmap_test bitmap_clear
test-clear_ne m p q ne = elim (ℕ_discrete (q / 8) (p / 8)) [
  | yes e ↦
      rw (e, put_byte_self m (p / 8) (clear_bit (m (p / 8)) (p % 8)))
        (test_bit-clear_ne (m (p / 8)) (p % 8) (q % 8) (other_bit p q ne e))
  | no f ↦ rw (put_byte_ne m (p / 8) (clear_bit (m (p / 8)) (p % 8)) (q / 8) f)
]

-- The test at bit `p` reads the byte `p / 8` only.
pub test_of_bytes :
    (m n : Bytes) (p : ℕ) → m (p / 8) ≡ n (p / 8) → bitmap_test m p ≡ bitmap_test n p
unfolding bitmap_test
test_of_bytes m n p e = ap (λ b. test_bit b (p % 8)) e

-- All bits from `lo` on and below `hi` are set.
abbrev pub Full : Bytes → ℕ → ℕ → Type 0
Full m lo hi = (q : ℕ) → lo ≤ q → q < hi → bitmap_test m q ≡ true

-- What the search over the bits from `lo` on, below `hi`, answers.
pub data FirstClear (m : Bytes) (lo hi : ℕ) : Option ℕ → Type 0 where
  found :
      (p : ℕ)
      → lo ≤ p
      → p < hi
      → bitmap_test m p ≡ false
      → Full m lo p
      → FirstClear m lo hi (some p)
  full : Full m lo hi → FirstClear m lo hi none

Full-append : (m : Bytes) (lo mid hi : ℕ) → Full m lo mid → Full m mid hi → Full m lo hi
Full-append m lo mid hi a b q l h = elim (dec_lt q mid) [
  | yes f ↦ a q l f
  | no f ↦ b q (omega arith) h
]

FirstClear-append :
    {o : Option ℕ} (m : Bytes) (lo mid hi : ℕ)
    → lo ≤ mid
    → Full m lo mid
    → FirstClear m mid hi o
    → FirstClear m lo hi o
FirstClear-append m lo mid hi le t (found p l h e before) =
    found p (omega arith) h e (Full-append m lo mid p t before)
FirstClear-append m lo mid hi le t (full all) = full (Full-append m lo mid hi t all)

-- The search within one byte stops at its end or at the size.
abbrev pub InByte : Bytes → ℕ → ℕ → ℕ → Option ℕ → Type 0
InByte m lo hi size none = (q : ℕ) → lo ≤ q → q < hi → q < size → bitmap_test m q ≡ true
InByte m lo hi size (some p) =
    (lo ≤ p) × (p < hi) × (p < size) × (bitmap_test m p ≡ false) × Full m lo p

bit_of : (m : Bytes) (byte b : ℕ) → b < 8 → bitmap_test m (byte * 8 + b) ≡ test_bit (m byte) b
unfolding bitmap_test
bit_of m byte b h =
    let e : (byte * 8 + b) / 8 ≡ byte = omega arith in
    let f : (byte * 8 + b) % 8 ≡ b = omega arith in rw (e, f)

InByte-suc :
    (m : Bytes) (lo hi size : ℕ) (o : Option ℕ)
    → bitmap_test m lo ≡ true
    → InByte m (lo + 1) hi size o
    → InByte m lo hi size o
InByte-suc m lo hi size none e h =
    λ q l u v. elim (ℕ_discrete q lo) [ yes f ↦ rw f e | no f ↦ h q (omega arith) u v ]
InByte-suc m lo hi size (some p) e h = (
  omega (arith, h.0),
  h.1,
  h.2,
  h.3,
  λ q l u. elim (ℕ_discrete q lo) [ yes f ↦ rw f e | no f ↦ h.4 q (omega arith) u ],
)

find_clear_bit-InByte :
    (r : ℕ) (m : Bytes) (size byte b : ℕ)
    → b + r ≡ 8
    → InByte m (byte * 8 + b) (byte * 8 + 8) size (find_clear_bit r m size byte b)
unfolding find_clear_bit
find_clear_bit-InByte zero m size byte b e = λ q l u v. absurd (omega arith)
find_clear_bit-InByte (suc r) m size byte b e = elim (Bool-cases (ltb (byte * 8 + b) size)) [
  | inr n ↦ rw n (λ q l u v. absurd (omega (arith, ltb→le (byte * 8 + b) size n)))
  | inl y ↦ rw y (elim (Bool-cases (test_bit (m byte) b)) [
    | inl t ↦ rw t (
        InByte-suc m (byte * 8 + b) (byte * 8 + 8) size (find_clear_bit r m size byte (b + 1))
          (bit_of m byte b (omega arith) ∙ t)
          (let g : byte * 8 + b + 1 ≡ byte * 8 + (b + 1) = omega arith in
            rw g (find_clear_bit-InByte r m size byte (b + 1) (omega arith))))
    | inr u ↦ rw u (
      omega arith,
      omega arith,
      ltb→lt (byte * 8 + b) size y,
      bit_of m byte b (omega arith) ∙ u,
      λ q l h. absurd (omega arith),
    )
  ])
]

byte-Full : (m : Bytes) (byte : ℕ) → m byte ≡ 255 → Full m (byte * 8) (byte * 8 + 8)
unfolding bitmap_test
byte-Full m byte e q l h =
    let f : q / 8 ≡ byte = omega arith in rw (f, e) (ones_bit 8 (q % 8) (omega arith))

byte-InByte :
    (m : Bytes) (size byte : ℕ)
    → InByte m (byte * 8) (byte * 8 + 8) size (find_clear_bit 8 m size byte 0)
byte-InByte m size byte =
    let e : byte * 8 + 0 ≡ byte * 8 = omega arith in
    rw e at (find_clear_bit-InByte 8 m size byte 0 refl)

-- Behind a byte whose bits below the size are set.
FirstClear-byte :
    {o : Option ℕ} (m : Bytes) (size byte : ℕ)
    → InByte m (byte * 8) (byte * 8 + 8) size none
    → FirstClear m ((byte + 1) * 8) size o
    → FirstClear m (byte * 8) size o
FirstClear-byte m size byte t (found p l h e before) = found p (omega arith) h e (
    Full-append m (byte * 8) ((byte + 1) * 8) p (λ q a b. t q a (omega arith) (omega arith)) before)
FirstClear-byte m size byte t (full all) = full (λ q l h. elim (dec_lt q ((byte + 1) * 8)) [
  | yes lt ↦ t q l (omega arith) h
  | no ge ↦ all q (omega arith) h
])

find_clear_byte-FirstClear :
    (r : ℕ) (m : Bytes) (size byte : ℕ)
    → size ≤ (byte + r) * 8
    → FirstClear m (byte * 8) size (find_clear_byte r m size byte)
unfolding find_clear_byte
find_clear_byte-FirstClear zero m size byte le = full (λ q l h. absurd (omega arith))
find_clear_byte-FirstClear (suc r) m size byte le =
    let rest = find_clear_byte-FirstClear r m size (byte + 1) (omega arith) in
    elim (Bool-cases (m byte == 255)) [
      | inl t ↦ rw t (
          FirstClear-byte m size byte
            (λ q l h u. byte-Full m byte ((==_iff (m byte) 255).0 t) q l h) rest)
      | inr f ↦ rw f (elim (Option-cases (find_clear_bit 8 m size byte 0)) [
        | inl n ↦ rw n (FirstClear-byte m size byte (rw n at (byte-InByte m size byte)) rest)
        | inr (p, s) ↦ rw s (
            let g : InByte m (byte * 8) (byte * 8 + 8) size (some p) =
              rw s at (byte-InByte m size byte) in
            found p g.0 g.2 g.3 g.4)
      ])
    ]

-- The search answers the lowest clear bit, or that there is none.
pub bitmap_find_clear-FirstClear :
    (m : Bytes) (size : ℕ) → size + 7 < u32_mod → FirstClear m 0 size (bitmap_find_clear m size)
unfolding bitmap_find_clear
bitmap_find_clear-FirstClear m size h =
    find_clear_byte-FirstClear ((size + 7) % u32_mod / 8) m size 0 (omega arith)
