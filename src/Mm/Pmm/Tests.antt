-- ===== src/Mm/Pmm/Tests.antt =====
-- Runs of the page allocator of src/mm/pmm.c.
use alcor2os.Base.{ℕ, zero, suc, ◌^◌, ◌<◌, ◌≡◌, refl, List, [], ◌∷◌, arith, count_below}
use alcor2os.Base.Word.{test_bit}
use alcor2os.Mm.Pmm.{Pmm, Entry, bitmap_test, pmm_alloc, find_run, pmm_alloc_pages, pmm_free_pages}
use alcor2os.Mm.Pmm.Bitmap.{Fits}
use alcor2os.Mm.Pmm.Invariant.{IsValid}
use alcor2os.Mm.Pmm.Alloc.{AllocsOne, AllocsRun, pmm_alloc-AllocsOne, pmm_alloc_pages-AllocsRun}
use alcor2os.Mm.Pmm.Free.{Gave, pmm_free_pages-Gave}

-- 64 pages, of which the first and the third are in use.
abbrev two_used : Pmm
two_used = record { bitmap = 5 ∷ []; bitmap_size = 8; total_pages = 64; free_pages = 62; hhdm = 0 }

one_word-Fits : (w : ℕ) → w < 2 ^ 64 → Fits (w ∷ [])
one_word-Fits w h zero = h
one_word-Fits w h (suc i) = omega arith

two_used-IsValid : IsValid two_used
unfolding count_below bitmap_test test_bit
two_used-IsValid = record {
  sized = refl;
  covers = omega arith;
  small = omega arith;
  fits = one_word-Fits 5 (omega arith);
  tail = λ p l h. absurd (omega arith);
  counted = refl;
}

alloc_run : (pmm_alloc_pages two_used 2).0 ≡ 12288
unfolding pmm_alloc_pages find_run bitmap_test test_bit
alloc_run = refl

pmm_alloc-AllocsOne_example : AllocsOne two_used (pmm_alloc two_used)
pmm_alloc-AllocsOne_example = pmm_alloc-AllocsOne two_used two_used-IsValid

pmm_alloc_pages-AllocsRun_example : AllocsRun two_used 2 (pmm_alloc_pages two_used 2)
pmm_alloc_pages-AllocsRun_example =
    pmm_alloc_pages-AllocsRun two_used 2 two_used-IsValid (omega arith)

pmm_free_pages-Gave_example : Gave two_used (pmm_free_pages two_used 4096 3) 1 3
pmm_free_pages-Gave_example = pmm_free_pages-Gave two_used 4096 3 two_used-IsValid (omega arith)

-- Four usable pages from page 2 on, the first of which holds the bitmap.
abbrev four_pages : List Entry
four_pages = record { base = 8192; length = 16384; kind = 0 } ∷ []

abbrev three_left : Pmm
three_left = record {
  bitmap = 18446744073709551559 ∷ [];
  bitmap_size = 8;
  total_pages = 6;
  free_pages = 3;
  hhdm = 0;
}
