-- ===== src/Kstdlib/Compare.antt =====
-- What the comparisons and copies of src/lib/kstdlib.c decide and leave.
use alcor2os.Base.{
  ℕ, zero, suc, ◌-◌, ◌<◌, max, ◌≡◌, refl, sym, ap, ◌↔◌, inl, inr, true, false, List, [], ◌∷◌, ◌++◌,
  arith, leb, ◌==◌, leb→le, ==_iff, eq→==, ne→==, ==→ne, Bool-cases, length, take, length-append,
  length-take,
}
use alcor2os.Base.Int.{ℤ, pos, negsuc, sub_ℕ_zero}
use mathlib.Core.Path.{ap₂}
use alcor2os.Kstdlib.{
  is_zero, kstrlen, copy_bytes, kstrncpy, kstrcmp, kstreq, strncmp_from, kstrncmp, kstrlcat,
}

-- No byte of a C string is NUL.
abbrev pub IsCString : List ℕ → Type 0
IsCString [] = Unit {0}
IsCString (c ∷ s) = (0 < c) × IsCString s

pub kstrlen_length : (s : List ℕ) → kstrlen s ≡ length s
unfolding kstrlen
kstrlen_length [] = refl
kstrlen_length (c ∷ s) = ap suc (kstrlen_length s)

pub copy_bytes-take : (n : ℕ) (s : List ℕ) → copy_bytes n s ≡ take n s
unfolding copy_bytes
copy_bytes-take zero s = refl
copy_bytes-take (suc n) [] = refl
copy_bytes-take (suc n) (c ∷ s) = ap (◌∷◌ c) (copy_bytes-take n s)

kstrcmp_eq : (a b : List ℕ) → IsCString a → IsCString b → kstrcmp a b ≡ pos 0 → a ≡ b
unfolding kstrcmp
kstrcmp_eq [] [] ha hb h = refl
kstrcmp_eq [] (y ∷ b) ha hb h = absurd (omega (arith, (sub_ℕ_zero 0 y).0 h))
kstrcmp_eq (x ∷ a) [] ha hb h = absurd (omega (arith, (sub_ℕ_zero x 0).0 h))
kstrcmp_eq (x ∷ a) (y ∷ b) ha hb h = elim (Bool-cases (x == y)) [
  | inl e ↦ ap₂ ◌∷◌ ((==_iff x y).0 e) (kstrcmp_eq a b ha.1 hb.1 (rw e at h))
  | inr n ↦ absurd (==→ne x y n ((sub_ℕ_zero x y).0 (rw n at h)))
]

kstrcmp_refl : (a : List ℕ) → kstrcmp a a ≡ pos 0
unfolding kstrcmp
kstrcmp_refl [] = refl
kstrcmp_refl (x ∷ a) = rw (eq→== x x refl) (kstrcmp_refl a)

-- For strings without a NUL byte, kstreq is true exactly when they are equal.
pub kstreq_iff : (a b : List ℕ) → IsCString a → IsCString b → (kstreq a b ≡ true) ↔ (a ≡ b)
unfolding kstreq
kstreq_iff a b ha hb =
    (λ h. kstrcmp_eq a b ha hb (zero_of (kstrcmp a b) h), λ e. rw (e, kstrcmp_refl b))
  where
    zero_of : (z : ℤ) → is_zero z ≡ true → z ≡ pos 0
    zero_of (pos n) h = ap pos ((==_iff n 0).0 h)
    zero_of (negsuc n) h = cc

cons_injective : (x y : ℕ) (a b : List ℕ) → x ∷ a ≡ y ∷ b → (x ≡ y) × (a ≡ b)
cons_injective x y a b e = (cc, cc)

strncmp_from_iff :
    (a b : List ℕ) (n : ℕ)
    → IsCString a
    → IsCString b
    → (strncmp_from a b (suc n) ≡ pos 0) ↔ (take (suc n) a ≡ take (suc n) b)
unfolding strncmp_from
strncmp_from_iff [] [] n ha hb = (λ e. refl, λ e. refl)
strncmp_from_iff [] (y ∷ b) n ha hb = (λ e. absurd (omega (arith, (sub_ℕ_zero 0 y).0 e)), λ e. cc)
strncmp_from_iff (x ∷ a) [] n ha hb =
    let ne : (x == 0) ≡ false = ne→== x 0 (λ e. omega arith) in
    rw ne (λ e. absurd (omega (arith, (sub_ℕ_zero x 0).0 e)), λ e. cc)
strncmp_from_iff (x ∷ a) (y ∷ b) zero ha hb = elim (Bool-cases (x == y)) [
  | inl e ↦ rw e (λ h. ap (λ z. z ∷ []) ((==_iff x y).0 e), λ h. refl)
  | inr ne ↦ rw ne (
    λ h. absurd (==→ne x y ne ((sub_ℕ_zero x y).0 h)),
    λ h. absurd (==→ne x y ne (cons_injective x y [] [] h).0),
  )
]
strncmp_from_iff (x ∷ a) (y ∷ b) (suc n) ha hb =
    let ih : (strncmp_from a b (suc n) ≡ pos 0) ↔ (take (suc n) a ≡ take (suc n) b) =
      strncmp_from_iff a b n ha.1 hb.1 in
    let k : suc (suc n) - 1 ≡ suc n = omega arith in
    elim (Bool-cases (x == y)) [
      | inl e ↦
          rw (e, k, ne→== (suc n) 0 (λ z. omega arith))
            (λ h. ap₂ ◌∷◌ ((==_iff x y).0 e) (ih.0 h), λ h. ih.1 (cons_injective x y _ _ h).1)
      | inr ne ↦ rw ne (
        λ h. absurd (==→ne x y ne ((sub_ℕ_zero x y).0 h)),
        λ h. absurd (==→ne x y ne (cons_injective x y _ _ h).0),
      )
    ]

-- For strings without a NUL byte, kstrncmp is 0 exactly when their first n bytes, or all where
-- there are fewer, are the same.
pub kstrncmp_iff :
    (a b : List ℕ) (n : ℕ)
    → IsCString a
    → IsCString b
    → (kstrncmp a b n ≡ pos 0) ↔ (take n a ≡ take n b)
unfolding kstrncmp
kstrncmp_iff a b zero ha hb = (λ e. refl, λ e. refl)
kstrncmp_iff a b (suc n) ha hb =
    rw (ne→== (suc n) 0 (λ z. omega arith)) (strncmp_from_iff a b n ha hb)

-- For a buffer of at least one byte, kstrncpy leaves the first max - 1 bytes of the source, or all
-- where there are fewer, which fit the buffer with their NUL.
pub kstrncpy_lem :
    (s : List ℕ) (max : ℕ)
    → 0 < max
    → (kstrncpy s max ≡ take (max - 1) s) × (length (kstrncpy s max) < max)
unfolding kstrncpy
kstrncpy_lem s max h =
    rw (ne→== max 0 (λ e. omega arith), copy_bytes-take (max - 1) s)
      (refl, omega (arith, length-take (max - 1) s))

not_leb : (a b : ℕ) → b < a → leb a b ≡ false
not_leb a b h = elim (Bool-cases (leb a b)) [
  | inl e ↦ absurd (omega (arith, leb→le a b e))
  | inr e ↦ e
]

appended :
    (dst src : List ℕ) (size : ℕ)
    → length dst < size
    → dst ++ take (size - length dst - 1) src ≡ take (size - 1) (dst ++ src)
appended [] src size h = ap (λ z. take (z - 1) src) {x = size - 0} {y = size} (omega arith)
appended (x ∷ dst) src zero h = absurd (omega arith)
appended (x ∷ dst) src (suc n) h =
    let k : length (x ∷ dst) ≡ suc (length dst) = refl in
    let e : suc n - suc (length dst) - 1 ≡ n - length dst - 1 = omega arith in
    let f : suc n - 1 ≡ suc (n - 1) = omega (arith, k) in
    rw (f, e) (ap (λ z. x ∷ z) (appended dst src n (omega (arith, k))))

-- Where the destination string with its NUL fits its buffer, kstrlcat leaves the longest beginning
-- of the two strings together that fits with its NUL, and returns the length of both together.
pub kstrlcat_lem :
    (dst src : List ℕ) (size : ℕ)
    → length dst < size
    → ((kstrlcat dst src size).0 ≡ take (size - 1) (dst ++ src))
      × (length (kstrlcat dst src size).0 < size)
      × ((kstrlcat dst src size).1 ≡ length (dst ++ src))
unfolding kstrlcat
kstrlcat_lem dst src size h =
    let t0 : (size == 0) ≡ false = ne→== size 0 (λ e. omega arith) in
    let t1 : leb size (length dst) ≡ false = not_leb size (length dst) h in
    rw
      (
        t0,
        t1,
        copy_bytes-take (size - length dst - 1) src,
        kstrlen_length src,
        appended dst src size h,
      )
      (refl, omega (arith, length-take (size - 1) (dst ++ src)), sym (length-append dst src))
