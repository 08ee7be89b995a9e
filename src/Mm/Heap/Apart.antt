-- ===== src/Mm/Heap/Apart.antt =====
-- The blocks that src/mm/heap.c hands out: where they lie, and the heap at its start.
use alcor2os.Base.{ℕ, ◌+◌, ◌*◌, ◌%◌, ◌≤◌, ◌<◌, ◌≡◌, refl, List, [], ◌∷◌, arith, false}
use alcor2os.Base.Word.{u64_mod}
use alcor2os.Mm.Pmm.{Pmm, page_size}
use alcor2os.Mm.Pmm.Invariant.{IsValid}
use alcor2os.Mm.Heap.{Heap, kernel_heap_base}
use alcor2os.Mm.Heap.Chain.{Block, block_end}
use alcor2os.Mm.Heap.Layout.{Models}

-- The blocks lie one behind the other from `lo` to `hi`, with room for a header before each, at
-- multiples of 16.
abbrev pub Apart : ℕ → List Block → ℕ → Type 0
Apart lo [] hi = lo ≤ hi
Apart lo (b ∷ bs) hi = (lo ≤ b.addr) × (b.addr % 16 ≡ 0) × Apart (block_end b) bs hi

-- The static variables at the start, with the page allocator `p`.
abbrev pub boot : Pmm → Heap
boot p = record {
  memory = λ a. record { magic = 0; size = 0; free = false; next = 0; prev = 0 };
  bytes = λ a. 0;
  mapped = [];
  start = 0;
  last = 0;
  size = 0;
  used = 0;
  next_va = kernel_heap_base;
  pmm = p;
}

pub boot-Models :
    (p : Pmm)
    → IsValid p
    → kernel_heap_base + p.free_pages * page_size < u64_mod
    → Models (boot p) []
boot-Models p v room = record {
  chain = refl;
  ending = refl;
  tiles = refl;
  sized = omega arith;
  counted = refl;
  room = room;
  frames = v;
}
