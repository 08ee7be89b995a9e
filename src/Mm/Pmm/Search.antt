-- ===== src/Mm/Pmm/Search.antt =====
-- The searches of src/mm/pmm.c: the first clear bit, and the first run of clear bits.
use alcor2os.Base.{
  ℕ, zero, suc, ◌+◌, ◌*◌, ◌/◌, ◌%◌, ◌≤◌, ◌<◌, ◌≡◌, refl, ◌≢◌, inl, inr, true, false, Option, none,
  some, List, arith, ◌==◌, if◌then◌else◌, ==_iff, ==→ne, ne→==, Bool-cases, Option-cases, get_or,
}
use native.Mathlib.Decide.{ℕ_discrete}
use alcor2os.Base.Word.{ones_bit}
use native.Mathlib.Decide.{dec_lt}
use alcor2os.Mm.Pmm.{bitmap_test, all_bits_set, find_bit, find_page, find_run}

-- No page from `lo` on and below `hi` is free.
abbrev pub Taken : List ℕ → ℕ → ℕ → Type 0
Taken m lo hi = (q : ℕ) → lo ≤ q → q < hi → bitmap_test m q ≡ true

-- All of them are.
abbrev pub Free : List ℕ → ℕ → ℕ → Type 0
Free m lo hi = (q : ℕ) → lo ≤ q → q < hi → bitmap_test m q ≡ false

-- What a search over the pages from `lo` to `hi` answers: the first free one, or that there is none.
pub data First (m : List ℕ) (lo hi : ℕ) : Option ℕ → Type 0 where
  found :
      (p : ℕ) → lo ≤ p → p < hi → bitmap_test m p ≡ false → Taken m lo p → First m lo hi (some p)
  missing : Taken m lo hi → First m lo hi none

Taken-append : (m : List ℕ) (lo mid hi : ℕ) → Taken m lo mid → Taken m mid hi → Taken m lo hi
Taken-append m lo mid hi a b q l h = elim (dec_lt q mid) [
  | yes f ↦ a q l f
  | no f ↦ b q (omega arith) h
]

Taken-one : (m : List ℕ) (lo hi : ℕ) → hi ≡ lo + 1 → bitmap_test m lo ≡ true → Taken m lo hi
Taken-one m lo hi e t q l h = let f : q ≡ lo = omega arith in rw f t

First-append :
    {o : Option ℕ} (m : List ℕ) (lo mid hi : ℕ)
    → lo ≤ mid
    → Taken m lo mid
    → First m mid hi o
    → First m lo hi o
First-append m lo mid hi le t (found p l h e before) =
    found p (omega arith) h e (Taken-append m lo mid p t before)
First-append m lo mid hi le t (missing all) = missing (Taken-append m lo mid hi t all)

First-widen :
    {p : ℕ} (m : List ℕ) (lo mid hi : ℕ)
    → mid ≤ hi
    → First m lo mid (some p)
    → First m lo hi (some p)
First-widen m lo mid hi le (found p l h e before) = found p l (omega arith) e before

First-Taken : (m : List ℕ) (lo hi : ℕ) → First m lo hi none → Taken m lo hi
First-Taken m lo hi (missing all) = all

find_bit-First :
    (r : ℕ) (m : List ℕ) (i b hi : ℕ)
    → hi ≡ i * 64 + b + r
    → First m (i * 64 + b) hi (find_bit r m i b)
unfolding find_bit
find_bit-First zero m i b hi e = missing (λ q l h. absurd (omega arith))
find_bit-First (suc r) m i b hi e = elim (Bool-cases (bitmap_test m (i * 64 + b))) [
  | inl t ↦ rw t (
      First-append m (i * 64 + b) (i * 64 + (b + 1)) hi (omega arith)
        (Taken-one m (i * 64 + b) _ (omega arith) t)
        (find_bit-First r m i (b + 1) hi (omega arith)))
  | inr f ↦ rw f (found (i * 64 + b) (omega arith) (omega arith) f (λ q l h. absurd (omega arith)))
]

-- A word equal to ALL_BITS_SET has no free page.
pub full_word-Taken :
    (m : List ℕ) (i : ℕ) → get_or m i 0 ≡ all_bits_set → Taken m (i * 64) ((i + 1) * 64)
unfolding bitmap_test
full_word-Taken m i e q l h =
    let f : q / 64 ≡ i = omega arith in rw (f, e) (ones_bit 64 (q % 64) (omega arith))

word-First : (m : List ℕ) (i : ℕ) → First m (i * 64) ((i + 1) * 64) (find_bit 64 m i 0)
word-First m i =
    let e : i * 64 + 0 ≡ i * 64 = omega arith in
    rw e at (find_bit-First 64 m i 0 ((i + 1) * 64) (omega arith))

pub find_page-First :
    (r : ℕ) (m : List ℕ) (i hi : ℕ) → hi ≡ (i + r) * 64 → First m (i * 64) hi (find_page r m i)
unfolding find_page
find_page-First zero m i hi e = missing (λ q l h. absurd (omega arith))
find_page-First (suc r) m i hi e =
    let later : Taken m (i * 64) ((i + 1) * 64) → First m (i * 64) hi (find_page r m (i + 1)) = λ t.
      First-append m (i * 64) ((i + 1) * 64) hi (omega arith) t
        (find_page-First r m (i + 1) hi (omega arith)) in
    elim (Bool-cases (get_or m i 0 == all_bits_set)) [
      | inl t ↦ rw t (later (full_word-Taken m i ((==_iff (get_or m i 0) all_bits_set).0 t)))
      | inr f ↦ rw f (elim (Option-cases (find_bit 64 m i 0)) [
        | inl n ↦ rw n (later (First-Taken m (i * 64) ((i + 1) * 64) (rw n at (word-First m i))))
        | inr (p, s) ↦
            rw s (First-widen m (i * 64) ((i + 1) * 64) hi (omega arith) (rw s at (word-First m i)))
      ])
    ]

-- Every run of `count` pages that starts before `n` has a page in use.
abbrev pub Blocked : List ℕ → ℕ → ℕ → Type 0
Blocked m count n = (t : ℕ) → t < n → (q : ℕ) × (t ≤ q) × (q < t + count) × (bitmap_test m q ≡ true)

-- What the search for a run answers: the lowest run, or that there is none below `hi`.
pub data FirstRun (m : List ℕ) (count hi : ℕ) : Option ℕ → Type 0 where
  run_at :
      (s : ℕ)
      → s + count ≤ hi
      → Free m s (s + count)
      → Blocked m count s
      → FirstRun m count hi (some s)
  no_run :
      ((t : ℕ) → t + count ≤ hi → (q : ℕ) × (t ≤ q) × (q < t + count) × (bitmap_test m q ≡ true))
      → FirstRun m count hi none

Free-snoc : (m : List ℕ) (lo p : ℕ) → Free m lo p → bitmap_test m p ≡ false → Free m lo (p + 1)
Free-snoc m lo p f e q l h = elim (ℕ_discrete q p) [ yes g ↦ rw g e | no g ↦ f q l (omega arith) ]

-- Past a page in use no earlier start is left.
Blocked-past :
    (m : List ℕ) (count c s p : ℕ)
    → c < count
    → s + c ≡ p
    → Blocked m count s
    → bitmap_test m p ≡ true
    → Blocked m count (p + 1)
Blocked-past m count c s p lt sum b e t h = elim (dec_lt t s) [
  | yes f ↦ b t f
  | no f ↦ (p, omega arith, omega arith, e)
]

-- The loop at page `p` with `c` free pages behind it, which start at `s`.
pub find_run-FirstRun :
    (r : ℕ) (m : List ℕ) (count p c start s hi : ℕ)
    → hi ≡ p + r
    → c < count
    → s + c ≡ p
    → (if c == 0 then p else start) ≡ s
    → Free m s p
    → Blocked m count s
    → FirstRun m count hi (find_run r m count p c start)
unfolding find_run
find_run-FirstRun zero m count p c start s hi e lt sum st f b = no_run (λ t h. b t (omega arith))
find_run-FirstRun (suc r) m count p c start s hi e lt sum st f b =
    elim (Bool-cases (bitmap_test m p)) [
      | inl t ↦ rw t (
          find_run-FirstRun r m count (p + 1) 0 start (p + 1) hi (omega arith) (omega arith)
            (omega arith) refl (λ q l h. absurd (omega arith))
            (Blocked-past m count c s p lt sum b t))
      | inr u ↦
          let free : Free m s (p + 1) = Free-snoc m s p f u in
          let keep : (if c + 1 == 0 then p + 1 else (if c == 0 then p else start)) ≡ s =
            rw (ne→== (c + 1) 0 (λ z. omega arith)) st in
          rw u (elim (Bool-cases (c + 1 == count)) [
            | inl done ↦
                let n : c + 1 ≡ count = (==_iff (c + 1) count).0 done in
                rw (done, st) (run_at s (omega arith) (λ q l h. free q l (omega arith)) b)
            | inr more ↦
                let n : c + 1 ≢ count = ==→ne (c + 1) count more in
                rw more (
                  find_run-FirstRun r m count (p + 1) (c + 1) (if c == 0 then p else start) s hi
                    (omega arith) (omega arith) (omega arith) keep free b)
          ])
    ]
