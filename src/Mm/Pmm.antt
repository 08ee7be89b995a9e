-- ===== src/Mm/Pmm.antt =====
-- src/mm/pmm.c, the physical page allocator. The file's static variables are the record `Pmm`; a
-- function that changes them returns the new record. Addresses are numbers, and NULL is 0.
pub mod Bitmap
pub mod Invariant
pub mod Search
pub mod Alloc
pub mod Free
pub mod Release
pub mod Place
pub mod Init
mod Tests
use alcor2os.Base.{
  ℕ, zero, suc, ◌+◌, ◌-◌, ◌*◌, ◌/◌, ◌%◌, ◌^◌, Bool, true, false, not, ◌&&◌, Option, none, some,
  List, [], ◌∷◌, ltb, leb, ◌==◌, if◌then◌else◌, get_or, set, replicate,
}
use alcor2os.Base.Word.{u64_mod, add64, sub64, test_bit, set_bit, clear_bit}

abbrev pub page_size : ℕ
page_size = 4096

abbrev pub bits_per_entry : ℕ
bits_per_entry = 64

abbrev pub all_bits_set : ℕ
all_bits_set = 2 ^ 64 - 1

-- The words of the bitmap, `bitmap_size` in bytes, and the counters. A set bit is a page in use.
pub record Pmm : Type 0 where
  pub bitmap : List ℕ
  pub bitmap_size : ℕ
  pub total_pages : ℕ
  pub free_pages : ℕ
  pub hhdm : ℕ

unfoldable pub bitmap_set : List ℕ → ℕ → List ℕ
bitmap_set m page =
    set m (page / bits_per_entry)
      (set_bit (get_or m (page / bits_per_entry) 0) (page % bits_per_entry))

pub bitmap_clear : List ℕ → ℕ → List ℕ
bitmap_clear m page =
    set m (page / bits_per_entry)
      (clear_bit (get_or m (page / bits_per_entry) 0) (page % bits_per_entry))

unfoldable pub bitmap_test : List ℕ → ℕ → Bool
bitmap_test m page = test_bit (get_or m (page / bits_per_entry) 0) (page % bits_per_entry)

-- The loop over the bits `b` of word `i`; the first number is the rounds left.
pub find_bit : ℕ → List ℕ → ℕ → ℕ → Option ℕ
find_bit zero m i b = none
find_bit (suc r) m i b =
    let rest = find_bit r m i (b + 1) in
    if not (bitmap_test m (i * bits_per_entry + b)) then some (i * bits_per_entry + b) else rest

-- The loop over the words from `i` on.
pub find_page : ℕ → List ℕ → ℕ → Option ℕ
find_page zero m i = none
find_page (suc r) m i =
    let rest = find_page r m (i + 1) in
    if not (get_or m i 0 == all_bits_set)
    then elim (find_bit bits_per_entry m i 0) [ some p ↦ some p | none ↦ rest ]
    else rest

pub pmm_alloc : Pmm → ℕ × Pmm
pmm_alloc s = elim (find_page (s.bitmap_size / 8) s.bitmap 0) [
  | some page ↦ (
    page * page_size % u64_mod,
    record s { bitmap = bitmap_set s.bitmap page; free_pages = sub64 s.free_pages 1 },
  )
  | none ↦ (0, s)
]

-- The loop over the pages from `p` on that looks for `count` free pages in a row.
unfoldable pub find_run : ℕ → List ℕ → ℕ → ℕ → ℕ → ℕ → Option ℕ
find_run zero m count p consecutive start = none
find_run (suc r) m count p consecutive start =
    let start' = if consecutive == 0 then p else start in
    let more = find_run r m count (p + 1) (consecutive + 1) start' in
    let afresh = find_run r m count (p + 1) 0 start in
    if not (bitmap_test m p) then if consecutive + 1 == count then some start' else more else afresh

-- `for(i = start; i < start + count; i++) bitmap_set(i);`
unfoldable pub set_run : ℕ → List ℕ → ℕ → List ℕ
set_run zero m i = m
set_run (suc r) m i = set_run r (bitmap_set m i) (i + 1)

unfoldable pub pmm_alloc_pages : Pmm → ℕ → ℕ × Pmm
pmm_alloc_pages s count = elim (find_run s.total_pages s.bitmap count 0 0 0) [
  | some start ↦ (
    start * page_size % u64_mod,
    record s { bitmap = set_run count s.bitmap start; free_pages = sub64 s.free_pages count },
  )
  | none ↦ (0, s)
]

-- The body that `pmm_free` and the loop of `pmm_free_pages` share.
pub free_page : Pmm → ℕ → Pmm
free_page s page =
    if bitmap_test s.bitmap page
    then record s { bitmap = bitmap_clear s.bitmap page; free_pages = add64 s.free_pages 1 }
    else s

pub pmm_free : Pmm → ℕ → Pmm
pmm_free s addr = free_page s (addr / page_size)

pub free_run : ℕ → Pmm → ℕ → Pmm
free_run zero s page = s
free_run (suc r) s page = free_run r (free_page s page) (page + 1)

pub pmm_free_pages : Pmm → ℕ → ℕ → Pmm
pmm_free_pages s addr count = free_run count s (addr / page_size)

-- A `limine_memmap_entry`.
pub record Entry : Type 0 where
  pub base : ℕ
  pub length : ℕ
  pub kind : ℕ

-- LIMINE_MEMMAP_USABLE
abbrev pub memmap_usable : ℕ
memmap_usable = 0

pub highest : List Entry → ℕ → ℕ
highest [] h = h
highest (e ∷ es) h =
    highest es (
      if e.kind == memmap_usable && ltb h (add64 e.base e.length) then add64 e.base e.length else h)

-- The loop that puts the bitmap at the start of the first usable entry that holds it: that entry's
-- place, and the map with the entry cut. Without one `bitmap` stays NULL, which the later loops
-- write through.
pub place : ℕ → List Entry → Option (ℕ × List Entry)
place size [] = none
place size (e ∷ es) =
    if e.kind == memmap_usable && leb size e.length
    then some (e.base, record e { base = add64 e.base size; length = sub64 e.length size } ∷ es)
    else elim (place size es) [ some (at, es') ↦ some (at, e ∷ es') | none ↦ none ]

-- `for(p = start; p < end; p++) { bitmap_clear(p); free_pages++; }`
pub clear_run : ℕ → Pmm → ℕ → Pmm
clear_run zero s p = s
clear_run (suc r) s p =
    clear_run r (record s { bitmap = bitmap_clear s.bitmap p; free_pages = add64 s.free_pages 1 })
      (p + 1)

abbrev pub start_page : Entry → ℕ
start_page e = add64 e.base (page_size - 1) / page_size

abbrev pub end_page : Entry → ℕ
end_page e = add64 e.base e.length / page_size

pub release : List Entry → Pmm → Pmm
release [] s = s
release (e ∷ es) s =
    release es (
      if e.kind == memmap_usable then clear_run (end_page e - start_page e) s (start_page e) else s)

-- The two loops after the bitmap's place is known; `none` is the write through the NULL bitmap.
pub fill : ℕ → ℕ → ℕ → Option (ℕ × List Entry) → Option Pmm
fill words total hhdm_offset none = none
fill words total hhdm_offset (some (at, entries)) = some (
    release entries (record {
      bitmap = replicate words all_bits_set;
      bitmap_size = words * 8;
      total_pages = total;
      free_pages = 0;
      hhdm = hhdm_offset;
    }))

pub pmm_init : List Entry → ℕ → Option Pmm
unfolding fill
pmm_init memmap hhdm_offset =
    let total = highest memmap 0 / page_size in
    let words = (total + bits_per_entry - 1) / bits_per_entry in
    fill words total hhdm_offset (place (words * 8) memmap)

pub pmm_get_total : Pmm → ℕ
pmm_get_total s = s.total_pages * page_size % u64_mod

pub pmm_get_free : Pmm → ℕ
pmm_get_free s = s.free_pages * page_size % u64_mod
