-- ===== src/Mm/Pmm/Init.antt =====
-- `pmm_init` of src/mm/pmm.c: the bitmap that it builds from the boot loader's memory map.
use alcor2os.Base.{ℕ, ◌*◌, ◌/◌, ◌<◌, ◌≡◌, true, false, some, List, replicate}
use alcor2os.Mm.Pmm.{Pmm, Entry, page_size, all_bits_set, bitmap_test, highest, place, fill, fill}
use alcor2os.Mm.Pmm.Invariant.{IsValid, pages_of}
use alcor2os.Mm.Pmm.Release.{Covers}

-- The state before the loop that frees: every page is in use.
abbrev full : ℕ → ℕ → ℕ → Pmm
full words total hhdm = record {
  bitmap = replicate words all_bits_set;
  bitmap_size = words * 8;
  total_pages = total;
  free_pages = 0;
  hhdm = hhdm;
}

-- What `pmm_init` leaves: a valid bitmap in which the free pages are those of the usable entries, less
-- the bytes at `at` that the bitmap itself takes.
pub record Built (memmap : List Entry) (s : Pmm) : Type 0 where
  pub at : ℕ
  pub entries : List Entry
  pub placed : place s.bitmap_size memmap ≡ some (at, entries)
  pub valid : IsValid s
  pub total : s.total_pages ≡ highest memmap 0 / page_size
  pub free : (q : ℕ) → Covers entries q → bitmap_test s.bitmap q ≡ false
  pub used : (q : ℕ) → q < pages_of s → ¬ Covers entries q → bitmap_test s.bitmap q ≡ true
  pub usable : (q : ℕ) → Covers entries q → Covers memmap q
