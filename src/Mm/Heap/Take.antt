-- ===== src/Mm/Heap/Take.antt =====
-- How `kmalloc` of src/mm/heap.c takes a free block: the rest is split off, and the block marked.
use alcor2os.Base.{
  ℕ, ◌+◌, ◌-◌, ◌*◌, ◌%◌, ◌≤◌, ◌<◌, ◌≡◌, refl, sym, ap, ◌∙◌, subst, inl, inr, true, false, List, ◌∷◌,
  ◌++◌, arith, leb, if◌then◌else◌, Bool-cases,
}
use alcor2os.Base.Word.{u64_mod, add64}
use alcor2os.Mm.Pmm.{page_size}
use alcor2os.Mm.Pmm.Invariant.{IsValid}
use alcor2os.Mm.Heap.Fit.{has_room}
use alcor2os.Mm.Heap.{Heap, put, kernel_heap_base, heap_header_size, split_block, take_block}
use alcor2os.Mm.Heap.Chain.{Block, Seg, Tiles, last_addr, last_addr-append}
use alcor2os.Mm.Heap.Layout.{
  Models, Layout, block, allocated, used_bytes, Layout-open, Layout-chain, Layout-Tiles, end-le,
  allocated-append, used_bytes-append,
}
use alcor2os.Mm.Heap.Split.{split_block-Layout, split_block-last}
use alcor2os.Mm.Heap.Coalesce.{Relinked}
use alcor2os.Mm.Heap.Mark.{marked, mark-Layout, used_bytes-le}

-- Block `b` after `split_block`, with those behind it.
record Cut (s : Heap) (xs : List Block) (b : Block) (ys : List Block) (e want : ℕ) (t : Heap)
    : Type 0 where
  size : ℕ
  rest : List Block
  layout : Layout t.memory s.start xs (block b.addr size b.free) rest e
  last : t.last ≡ last_addr b.addr rest
  enough : want ≤ size
  kept : allocated rest ≡ allocated ys
  counted : used_bytes rest ≡ used_bytes ys
  relinked : Relinked s t

split_block_whole :
    (s : Heap) (b size : ℕ)
    → size ≤ (s.memory b).size
    → (s.memory b).size < u64_mod
    → (s.memory b).size ≤ size + 64
    → split_block s b size ≡ s
unfolding split_block
split_block_whole s b size lo lt h = ground arith

split_block-Relinked : (s : Heap) (b size : ℕ) → Relinked s (split_block s b size)
unfolding split_block
split_block-Relinked s b size = ground arith

split_block-Cut :
    (s : Heap) (xs : List Block) (b : Block) (ys : List Block) (e size : ℕ)
    → Layout s.memory s.start xs b ys e
    → s.last ≡ last_addr b.addr ys
    → e < u64_mod
    → size ≤ b.size
    → size % 16 ≡ 0
    → Cut s xs b ys e size (split_block s b.addr size)
split_block-Cut s xs b ys e size l la bound le al = elim (Bool-cases (leb b.size (size + 64))) [
  | inl f ↦
      rw
        (split_block_whole s b.addr size (omega (arith, l.here.size))
          (omega (arith, l.here.size, end-le l)) (ground (arith, l.here.size)))
        (record {
          size = b.size;
          rest = ys;
          layout = l;
          last = la;
          enough = le;
          kept = refl;
          counted = refl;
          relinked = refl;
        })
  | inr f ↦ record {
    size = size;
    rest = block (b.addr + (32 + size)) (b.size - size - 32) true ∷ ys;
    layout = split_block-Layout s l size (ground arith) al bound;
    last = split_block-last s l size (ground arith) al bound la;
    enough = omega arith;
    kept = refl;
    counted = omega arith;
    relinked = split_block-Relinked s b.addr size;
  }
]

-- One more block is handed out: at `ptr`, of at least `want` bytes; all others stay as they are.
pub record Gives (s : Heap) (bs : List Block) (want ptr : ℕ) (t : Heap) : Type 0 where
  pub blocks : List Block
  pub valid : Models t blocks
  pub addr : ℕ
  pub size : ℕ
  pub before : List Block
  pub after : List Block
  pub at : ptr ≡ addr + heap_header_size
  pub enough : want ≤ size
  pub was : allocated bs ≡ before ++ after
  pub now : allocated blocks ≡ before ++ block addr size false ∷ after
  pub bytes : t.bytes ≡ s.bytes

-- The heap in which block `b` of a cut heap is marked and counted.
take_cut : Heap → ℕ → Heap
take_cut t b = record t {
  memory = put t.memory b (record (t.memory b) { free = false });
  used = add64 t.used (t.memory b).size;
}

take_block-cut :
    (s : Heap) (b size : ℕ)
    → take_block s b size ≡ (add64 b heap_header_size, take_cut (split_block s b size) b)
unfolding take_block take_cut
take_block-cut s b size = refl

take_cut-bytes : (t : Heap) (b : ℕ) → (take_cut t b).bytes ≡ t.bytes
unfolding take_cut
take_cut-bytes t b = refl

take_cut-Models :
    (s : Heap) (xs : List Block) (b : Block) (ys : List Block) (want : ℕ) (t : Heap)
    → Models s (xs ++ b ∷ ys)
    → b.free ≡ true
    → (c : Cut s xs b ys s.next_va want t)
    → Models (take_cut t b.addr) (xs ++ block b.addr c.size false ∷ c.rest)
unfolding take_cut
take_cut-Models s xs b ys want t v f c =
    let b' = block b.addr c.size false in
    let l : Layout (marked t.memory b.addr false) s.start xs b' c.rest s.next_va =
      mark-Layout false c.layout in
    let start : t.start ≡ s.start = ap (λ z. z.start) c.relinked in
    let va : t.next_va ≡ s.next_va = ap (λ z. z.next_va) c.relinked in
    let bytes : used_bytes (xs ++ b' ∷ c.rest) ≡ s.used + c.size =
      used_bytes-append xs (b' ∷ c.rest)
      ∙ omega (
        arith,
        c.counted,
        v.counted,
        used_bytes-append xs (b ∷ ys),
        ap (λ z. if z then 0 else b.size) f,
      ) in
    record {
      chain =
          subst (λ z. Seg (marked t.memory b.addr false) 0 z (xs ++ b' ∷ c.rest) 0) (sym start)
            (Layout-chain l);
      ending = c.last ∙ sym (last_addr-append 0 xs b' c.rest);
      tiles = subst (Tiles kernel_heap_base (xs ++ b' ∷ c.rest)) (sym va) (Layout-Tiles l);
      sized = va ∙ v.sized ∙ ap (λ z. kernel_heap_base + z.size) (sym c.relinked);
      counted = omega (
        arith,
        bytes,
        c.layout.here.size,
        ap (λ z. z.used) c.relinked,
        used_bytes-le kernel_heap_base (xs ++ b' ∷ c.rest) s.next_va (Layout-Tiles l),
        v.room,
      );
      room =
          rw va (
            subst (λ z. s.next_va + z.pmm.free_pages * page_size < u64_mod) (sym c.relinked)
              v.room);
      frames = subst (λ z. IsValid z.pmm) (sym c.relinked) v.frames;
    }

take_block-at :
    (s : Heap) (xs : List Block) (b : Block) (ys : List Block) (want : ℕ)
    → Models s (xs ++ b ∷ ys)
    → b.free ≡ true
    → want ≤ b.size
    → want % 16 ≡ 0
    → Gives s (xs ++ b ∷ ys) want (take_block s b.addr want).0 (take_block s b.addr want).1
take_block-at s xs b ys want v f le al =
    let l : Layout s.memory s.start xs b ys s.next_va = Layout-open xs b ys v.chain v.tiles in
    let t = split_block s b.addr want in
    let c : Cut s xs b ys s.next_va want t =
      split_block-Cut s xs b ys s.next_va want l (v.ending ∙ last_addr-append 0 xs b ys)
        (omega (arith, v.room)) le al in
    let b' = block b.addr c.size false in
    rw (take_block-cut s b.addr want) (record {
      blocks = xs ++ b' ∷ c.rest;
      valid = take_cut-Models s xs b ys want t v f c;
      addr = b.addr;
      size = c.size;
      before = allocated xs;
      after = allocated ys;
      at = omega (arith, end-le l, v.room);
      enough = c.enough;
      was = allocated-append xs (b ∷ ys) ∙ rw f;
      now = allocated-append xs (b' ∷ c.rest) ∙ ap (λ z. allocated xs ++ b' ∷ z) c.kept;
      bytes = take_cut-bytes t b.addr ∙ ap (λ z. z.bytes) c.relinked;
    })

pub take_block-Gives :
    (s : Heap) (bs xs : List Block) (b : Block) (ys : List Block) (want : ℕ)
    → Models s bs
    → bs ≡ xs ++ b ∷ ys
    → has_room want b ≡ true
    → want % 16 ≡ 0
    → Gives s bs want (take_block s b.addr want).0 (take_block s b.addr want).1
take_block-Gives s bs xs b ys want v e room al =
    subst (λ z. Gives s z want (take_block s b.addr want).0 (take_block s b.addr want).1) (sym e)
      (take_block-at s xs b ys want (subst (Models s) e v) (ground arith) (ground arith) al)
