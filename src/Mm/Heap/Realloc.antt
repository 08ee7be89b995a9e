-- ===== src/Mm/Heap/Realloc.antt =====
-- `krealloc` and `kzalloc` of src/mm/heap.c: what becomes of the bytes.
use alcor2os.Base.{ℕ, ◌+◌, ◌≤◌, ◌<◌, ◌≡◌, ◌≢◌, List, ◌∷◌, ◌++◌, arith}
use alcor2os.Mm.Heap.{Heap, heap_header_size, kzalloc}
use alcor2os.Mm.Heap.Chain.{Block}
use alcor2os.Mm.Heap.Layout.{Models, allocated}

-- A block is replaced by a larger one with the same bytes: in `inserted`, the new block `fresh` is
-- among those handed out and the old one still there.
pub record Moves (s : Heap) (bs : List Block) (b : Block) (size to : ℕ) (t : Heap) : Type 0 where
  pub blocks : List Block
  pub valid : Models t blocks
  pub fresh : Block
  pub at : to ≡ fresh.addr + heap_header_size
  pub enough : size ≤ fresh.size
  pub before : List Block
  pub after : List Block
  pub was : allocated bs ≡ before ++ after
  pub left : List Block
  pub right : List Block
  pub inserted : before ++ fresh ∷ after ≡ left ++ b ∷ right
  pub now : allocated blocks ≡ left ++ right
  pub copied : (i : ℕ) → i < b.size → t.bytes (to + i) ≡ s.bytes (b.addr + heap_header_size + i)

pub data Reallocs (s : Heap) (bs : List Block) (b : Block) (size : ℕ) : ℕ × Heap → Type 0 where
  stays : size ≤ b.size → Reallocs s bs b size (b.addr + heap_header_size, s)
  moves : (to : ℕ) (t : Heap) → Moves s bs b size to t → Reallocs s bs b size (to, t)
  refuses : (t : Heap) → Models t bs → t ≡ record s { pmm = t.pmm } → Reallocs s bs b size (0, t)

-- What `kzalloc` answers: as `kmalloc`, with the bytes asked for at 0.
pub kzalloc-zero :
    (s : Heap) (size i : ℕ)
    → (kzalloc s size).0 ≢ 0
    → i < size
    → (kzalloc s size).1.bytes ((kzalloc s size).0 + i) ≡ 0
unfolding kzalloc
kzalloc-zero s size i ne lt = ground arith
