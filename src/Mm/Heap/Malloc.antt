-- ===== src/Mm/Heap/Malloc.antt =====
-- `kmalloc` of src/mm/heap.c on the blocks that are handed out.
use alcor2os.Base.{ℕ, ◌+◌, ◌≤◌, ◌<◌, ◌≡◌, ap, ◌≢◌, ◌⊎◌, List, arith, ne→==}
use alcor2os.Base.Word.{u64_mod}
use alcor2os.Mm.Pmm.Alloc.{Took}
use alcor2os.Mm.Heap.{Heap, take_block, request, pages_for, alloc, kmalloc}
use alcor2os.Mm.Heap.Chain.{Block}
use alcor2os.Mm.Heap.Layout.{Models}
use alcor2os.Mm.Heap.Fit.{NoFit}
use alcor2os.Mm.Heap.Take.{Gives}
use alcor2os.Mm.Heap.Expand.{NoRun}

-- What a search for a free block leads to.
data Found (s : Heap) (bs : List Block) (want r : ℕ) : Type 0 where
  hit : r ≢ 0 → Gives s bs want (take_block s r want).0 (take_block s r want).1 → Found s bs want r
  miss : r ≡ 0 → NoFit want bs → Found s bs want r

-- What `kmalloc` answers: a block with room, or NULL, where no free block has room for the request
-- and the page allocator has no run of pages for one, or one that begins with page 0.
pub data Kmallocs (s : Heap) (bs : List Block) (size : ℕ) : ℕ × Heap → Type 0 where
  gives : (ptr : ℕ) (t : Heap) → Gives s bs size ptr t → Kmallocs s bs size (ptr, t)
  fails :
      (t : Heap)
      → Models t bs
      → t ≡ record s { pmm = t.pmm }
      → NoFit (request size) bs
      → NoRun s.pmm (pages_for (request size)) ⊎ Took s.pmm t.pmm 0 (pages_for (request size))
      → Kmallocs s bs size (0, t)

request_wraps : (size : ℕ) → u64_mod ≤ size + 15 → size < u64_mod → request size ≡ 32
unfolding request
request_wraps size lo hi = ground arith

-- kmalloc of a size less than 2^64 that is at most 15 below it does what kmalloc of 32 does.
pub kmalloc_wraps :
    (s : Heap) (size : ℕ) → u64_mod ≤ size + 15 → size < u64_mod → kmalloc s size ≡ kmalloc s 32
unfolding kmalloc request
kmalloc_wraps s size lo hi =
    rw (ne→== size 0 (omega arith)) (ap (alloc s) (request_wraps size lo hi))
