-- ===== src/Mm/Heap/Tests.antt =====
-- Runs of the kernel heap of src/mm/heap.c.
use alcor2os.Base.{
  ℕ, zero, suc, ◌+◌, ◌-◌, ◌^◌, ◌<◌, ◌≡◌, refl, true, false, [], ◌∷◌, arith, ◌==◌, if◌then◌else◌,
  count_below,
}
use alcor2os.Base.Word.{test_bit, set_bit, u64_mod}
use alcor2os.Mm.Pmm.{Pmm, bitmap_test, bitmap_set, find_run, set_run, pmm_alloc_pages}
use alcor2os.Mm.Pmm.Bitmap.{Fits}
use alcor2os.Mm.Pmm.Invariant.{IsValid}
use alcor2os.Mm.Heap.{
  Heap, heap_block_magic, heap_expand, link_block, find_free, find_free_block, split_block, absorb,
  absorb_free, coalesce, request, pages_for, map_pages, kmalloc, kfree, kernel_heap_base,
}
use alcor2os.Mm.Heap.Chain.{Block}
use alcor2os.Mm.Heap.Layout.{Models, block}
use alcor2os.Mm.Heap.Malloc.{kmalloc_wraps}
use alcor2os.Mm.Heap.Free.{Frees, kfree-Frees}
use alcor2os.Mm.Heap.Apart.{Apart, boot}

-- 64 pages, of which the first is in use.
abbrev one_used : Pmm
one_used = record { bitmap = 1 ∷ []; bitmap_size = 8; total_pages = 64; free_pages = 63; hhdm = 0 }

one_word-Fits : (w : ℕ) → w < 2 ^ 64 → Fits (w ∷ [])
one_word-Fits w h zero = h
one_word-Fits w h (suc i) = omega arith

one_used-IsValid : IsValid one_used
unfolding count_below bitmap_test test_bit
one_used-IsValid = record {
  sized = refl;
  covers = omega arith;
  small = omega arith;
  fits = one_word-Fits 1 (omega arith);
  tail = λ p l h. absurd (omega arith);
  counted = refl;
}

-- A heap of one page with a block of 64 bytes in use and a free one behind it.
abbrev two : Heap
two = record {
  memory = λ a.
      if a == kernel_heap_base
      then record {
        magic = heap_block_magic;
        size = 64;
        free = false;
        next = kernel_heap_base + 96;
        prev = 0;
      }
      else record {
        magic = heap_block_magic;
        size = 3968;
        free = true;
        next = 0;
        prev = kernel_heap_base;
      };
  bytes = λ a. 7;
  mapped = [];
  start = kernel_heap_base;
  last = kernel_heap_base + 96;
  size = 4096;
  used = 64;
  next_va = kernel_heap_base + 4096;
  pmm = one_used;
}

abbrev used_block : Block
used_block = block kernel_heap_base 64 false

abbrev free_block : Block
free_block = block (kernel_heap_base + 96) 3968 true

two-Models : Models two (used_block ∷ free_block ∷ [])
two-Models = record {
  chain = (
    refl,
    record { magic = refl; size = refl; free = refl; prev = refl },
    (refl, record { magic = refl; size = refl; free = refl; prev = refl }, refl),
  );
  ending = refl;
  tiles = (refl, refl, (refl, refl, refl));
  sized = refl;
  counted = refl;
  room = omega arith;
  frames = one_used-IsValid;
}

-- A block, a second one behind it, and the first again when it is free: the first fit.
reuses :
    (let (p, s) = kmalloc (boot one_used) 100 in
      let (q, t) = kmalloc s 200 in (kmalloc (kfree t p) 50).0)
    ≡ kernel_heap_base + 32
unfolding kmalloc kfree coalesce absorb_free absorb find_free_block find_free split_block request
    pages_for heap_expand link_block map_pages pmm_alloc_pages find_run set_run bitmap_set
    bitmap_test test_bit set_bit
reuses = refl

kfree-Frees_example : Frees two [] (kfree two (kernel_heap_base + 32))
kfree-Frees_example =
    kfree-Frees two (used_block ∷ free_block ∷ []) [] used_block [] two-Models refl

kmalloc_wraps_example : kmalloc two (u64_mod - 1) ≡ kmalloc two 32
kmalloc_wraps_example = kmalloc_wraps two (u64_mod - 1) (omega arith) (omega arith)
