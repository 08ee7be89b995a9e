-- ===== src/Mm/Pmm/Invariant.antt =====
-- The invariant of the page allocator of src/mm/pmm.c: `free_pages` is the number of clear bits.
use alcor2os.Base.{
  ℕ, ◌+◌, ◌*◌, ◌^◌, ◌≤◌, ◌<◌, ◌≡◌, sym, ap, ◌∙◌, Bool, true, false, not, List, arith, length, bit,
  count_below, count_below-le, count_below-change,
}
use native.Mathlib.Decide.{ℕ_discrete}
use alcor2os.Base.Word.{sub64, add64}
use alcor2os.Mm.Pmm.{Pmm, bitmap_set, bitmap_clear, bitmap_test}
use alcor2os.Mm.Pmm.Bitmap.{
  Fits, length-bitmap_set, length-bitmap_clear, bitmap_set-Fits, bitmap_clear-Fits, test-set_self,
  test-set_ne, test-clear_self, test-clear_ne,
}

abbrev pub is_free : List ℕ → ℕ → Bool
is_free m p = not (bitmap_test m p)

abbrev pub pages_of : Pmm → ℕ
pages_of s = length s.bitmap * 64

-- `sized`, `covers`, `small` and `fits` are of the sizes; the bits past the last page are set, so that a
-- search for a clear bit stops before them.
pub record IsValid (s : Pmm) : Type 0 where
  pub sized : s.bitmap_size ≡ length s.bitmap * 8
  pub covers : s.total_pages ≤ pages_of s
  pub small : pages_of s ≤ 2 ^ 52
  pub fits : Fits s.bitmap
  pub tail : (p : ℕ) → s.total_pages ≤ p → p < pages_of s → bitmap_test s.bitmap p ≡ true
  pub counted : s.free_pages ≡ count_below (is_free s.bitmap) (pages_of s)

-- Taking one free page of the bitmap lowers the count by one, and giving one back raises it.
pub count-bitmap_set :
    (m : List ℕ) (p n : ℕ)
    → p < length m * 64
    → p < n
    → bitmap_test m p ≡ false
    → count_below (is_free m) n ≡ count_below (is_free (bitmap_set m p)) n + 1
count-bitmap_set m p n h hn e = omega (
  arith,
  ap (λ b. bit (not b)) e,
  ap (λ b. bit (not b)) (test-set_self m p h),
  count_below-change (is_free m) (is_free (bitmap_set m p)) n p hn
      (λ i ne. ap not (sym (test-set_ne m p i (λ f. ne (sym f)) h))),
)

pub count-bitmap_clear :
    (m : List ℕ) (p n : ℕ)
    → p < length m * 64
    → p < n
    → bitmap_test m p ≡ true
    → count_below (is_free (bitmap_clear m p)) n ≡ count_below (is_free m) n + 1
count-bitmap_clear m p n h hn e = omega (
  arith,
  ap (λ b. bit (not b)) e,
  ap (λ b. bit (not b)) (test-clear_self m p h),
  count_below-change (is_free m) (is_free (bitmap_clear m p)) n p hn
      (λ i ne. ap not (sym (test-clear_ne m p i (λ f. ne (sym f)) h))),
)

pub take-IsValid :
    (s : Pmm) (p : ℕ)
    → IsValid s
    → p < pages_of s
    → bitmap_test s.bitmap p ≡ false
    → IsValid (record s { bitmap = bitmap_set s.bitmap p; free_pages = sub64 s.free_pages 1 })
take-IsValid s p v h e = record {
  sized = omega (arith, v.sized, length-bitmap_set s.bitmap p);
  covers = omega (arith, v.covers, length-bitmap_set s.bitmap p);
  small = omega (arith, v.small, length-bitmap_set s.bitmap p);
  fits = bitmap_set-Fits s.bitmap p v.fits;
  tail = λ q lo hi. keep q (v.tail q lo (omega (arith, length-bitmap_set s.bitmap p, hi)));
  counted = counted';
}
  where
    keep : (q : ℕ) → bitmap_test s.bitmap q ≡ true → bitmap_test (bitmap_set s.bitmap p) q ≡ true
    keep q t = elim (ℕ_discrete p q) [
      | yes f ↦ rw (← f) (test-set_self s.bitmap p h)
      | no f ↦ test-set_ne s.bitmap p q f h ∙ t
    ]

    counted' :
        sub64 s.free_pages 1
        ≡ count_below (is_free (bitmap_set s.bitmap p)) (length (bitmap_set s.bitmap p) * 64)
    counted' = rw (length-bitmap_set s.bitmap p) (
        omega (
          arith,
          v.counted,
          v.small,
          count-bitmap_set s.bitmap p (pages_of s) h h e,
          count_below-le (is_free s.bitmap) (pages_of s),
        ))

pub give-IsValid :
    (s : Pmm) (p : ℕ)
    → IsValid s
    → p < s.total_pages
    → bitmap_test s.bitmap p ≡ true
    → IsValid (record s { bitmap = bitmap_clear s.bitmap p; free_pages = add64 s.free_pages 1 })
give-IsValid s p v h e = record {
  sized = omega (arith, v.sized, length-bitmap_clear s.bitmap p);
  covers = omega (arith, v.covers, length-bitmap_clear s.bitmap p);
  small = omega (arith, v.small, length-bitmap_clear s.bitmap p);
  fits = bitmap_clear-Fits s.bitmap p v.fits;
  tail = λ q lo hi.
      test-clear_ne s.bitmap p q (λ f. omega (arith, f, lo, h)) inside
      ∙ v.tail q lo (omega (arith, length-bitmap_clear s.bitmap p, hi));
  counted = counted';
}
  where
    inside : p < pages_of s
    inside = omega (arith, v.covers, h)

    counted' :
        add64 s.free_pages 1
        ≡ count_below (is_free (bitmap_clear s.bitmap p)) (length (bitmap_clear s.bitmap p) * 64)
    counted' = rw (length-bitmap_clear s.bitmap p) (
        omega (
          arith,
          v.counted,
          v.small,
          count-bitmap_clear s.bitmap p (pages_of s) inside inside e,
          count_below-le (is_free s.bitmap) (pages_of s),
        ))
