-- ===== src/Mm/Heap/Free.antt =====
-- `kfree` of src/mm/heap.c on the blocks that are handed out.
use mathlib.Core.Path.{subst₂}
use alcor2os.Base.{
  ℕ, ◌+◌, ◌-◌, ◌*◌, ◌%◌, ◌<◌, ◌≡◌, refl, sym, ap, ◌∙◌, subst, ◌≢◌, ◌⊎◌, inl, inr, true, false, List,
  [], ◌∷◌, ◌++◌, arith, if◌then◌else◌, Bool-cases, ne→==,
}
use alcor2os.Base.Word.{u64_mod, sub64}
use alcor2os.Mm.Pmm.{page_size}
use alcor2os.Mm.Pmm.Invariant.{IsValid}
use alcor2os.Mm.Heap.{
  Heap, kernel_heap_base, heap_header_size, heap_block_magic, coalesce, kfree, put,
}
use alcor2os.Mm.Heap.Chain.{Block, Seg, Tiles, Tiles-le, last_addr-append}
use alcor2os.Mm.Heap.Layout.{
  Models, Layout, block, allocated, Layout-open, base-le, end-le, used_bytes-append,
}
use alcor2os.Mm.Heap.Mark.{mark-Layout, used_bytes-le}
use alcor2os.Mm.Heap.Coalesce.{Coalesced, coalesce-Coalesced}

-- The heap in which the block at `b` is marked free and no longer counted.
freed : Heap → ℕ → Heap
freed s b = record s {
  memory = put s.memory b (record (s.memory b) { free = true });
  used = sub64 s.used (s.memory b).size;
}

kfree-coalesce :
    (s : Heap) (b : ℕ)
    → 0 < b
    → b + 32 < u64_mod
    → (s.memory b).magic ≡ heap_block_magic
    → (s.memory b).free ≡ false
    → kfree s (b + heap_header_size) ≡ coalesce (freed s b) b
unfolding kfree freed
kfree-coalesce s b pos hi m f =
    let at : (b + 32 + u64_mod - 32) % u64_mod ≡ b = omega arith in
    rw (ne→== (b + 32) 0 (omega arith), at, m, f)

-- `kfree` of a block that is free already, or of memory without a header, changes nothing.
pub kfree_refused :
    (s : Heap) (ptr : ℕ)
    → let h = s.memory (sub64 ptr heap_header_size) in
      (h.magic ≢ heap_block_magic) ⊎ (h.free ≡ true) → kfree s ptr ≡ s
unfolding kfree
kfree_refused s ptr h = ground arith

-- One block less is handed out, and no other is touched.
pub record Frees (s : Heap) (left : List Block) (t : Heap) : Type 0 where
  pub blocks : List Block
  pub valid : Models t blocks
  pub now : allocated blocks ≡ left
  pub bytes : t.bytes ≡ s.bytes

Coalesced-Frees :
    (s : Heap) (xs : List Block) (b : Block) (ys : List Block) (t : Heap)
    → Models s (xs ++ b ∷ ys)
    → b.free ≡ false
    → (s.memory b.addr).size ≡ b.size
    → Coalesced (freed s b.addr) xs ys s.next_va t
    → Frees s (allocated xs ++ allocated ys) t
unfolding freed
Coalesced-Frees s xs b ys t v f e c =
    let start : t.start ≡ s.start = ap (λ z. z.start) c.relinked in
    let va : t.next_va ≡ s.next_va = ap (λ z. z.next_va) c.relinked in
    record {
      blocks = c.blocks;
      valid = record {
        chain = subst (λ z. Seg t.memory 0 z c.blocks 0) (sym start) c.chain;
        ending = c.last;
        tiles = subst (Tiles kernel_heap_base c.blocks) (sym va) c.tiles;
        sized = va ∙ v.sized ∙ ap (λ z. kernel_heap_base + z.size) (sym c.relinked);
        counted = omega (
          arith,
          ap (λ z. z.used) c.relinked,
          e,
          v.counted,
          c.counted,
          used_bytes-append xs (b ∷ ys),
          ap (λ z. if z then 0 else b.size) f,
          used_bytes-le kernel_heap_base (xs ++ b ∷ ys) s.next_va v.tiles,
          v.room,
        );
        room = rw va (
            subst (λ z. s.next_va + z.pmm.free_pages * page_size < u64_mod) (sym c.relinked)
              v.room);
        frames = subst (λ z. IsValid z.pmm) (sym c.relinked) v.frames;
      };
      now = c.kept;
      bytes = ap (λ z. z.bytes) c.relinked;
    }

freed-Coalesced :
    (s : Heap) (xs : List Block) (b : Block) (ys : List Block)
    → Models s (xs ++ b ∷ ys)
    → Coalesced (freed s b.addr) xs ys s.next_va (coalesce (freed s b.addr) b.addr)
unfolding freed
freed-Coalesced s xs b ys v =
    let l : Layout s.memory s.start xs b ys s.next_va = Layout-open xs b ys v.chain v.tiles in
    coalesce-Coalesced (freed s b.addr) xs (block b.addr b.size true) ys s.next_va refl
      (omega (arith, v.room))
      (omega (arith, Tiles-le (b.addr + (32 + b.size)) ys s.next_va l.high, base-le l, v.sized))
      (mark-Layout true l) (v.ending ∙ last_addr-append 0 xs b ys)

kfree-at :
    (s : Heap) (xs : List Block) (b : Block) (ys : List Block)
    → Models s (xs ++ b ∷ ys)
    → b.free ≡ false
    → Frees s (allocated xs ++ allocated ys) (kfree s (b.addr + heap_header_size))
kfree-at s xs b ys v f =
    let l : Layout s.memory s.start xs b ys s.next_va = Layout-open xs b ys v.chain v.tiles in
    rw
      (kfree-coalesce s b.addr (omega (arith, base-le l)) (omega (arith, end-le l, v.room))
        l.here.magic (l.here.free ∙ f))
      (Coalesced-Frees s xs b ys _ v f l.here.size (freed-Coalesced s xs b ys v))

-- Block `b` of the heap, where the blocks handed out before and after it are `us` and `vs`.
abbrev pub Placed : List Block → List Block → Block → List Block → Type 0
Placed bs us b vs =
    (xs : List Block) × (ys : List Block) × (bs ≡ xs ++ b ∷ ys)
    × (allocated xs ≡ us)
    × (allocated ys ≡ vs)
    × (b.free ≡ false)

pub allocated_used :
    (x : Block) (bs : List Block) → x.free ≡ false → allocated (x ∷ bs) ≡ x ∷ allocated bs
allocated_used x bs f = rw f

pub allocated_free :
    (x : Block) (bs : List Block) → x.free ≡ true → allocated (x ∷ bs) ≡ allocated bs
allocated_free x bs f = rw f

Placed-free :
    (x : Block) {bs us : List Block} {b : Block} {vs : List Block}
    → x.free ≡ true
    → Placed bs us b vs
    → Placed (x ∷ bs) us b vs
Placed-free x f (xs, ys, p, q, r, g) = (x ∷ xs, ys, ap (◌∷◌ x) p, rw f q, r, g)

Placed-used :
    (x : Block) {bs us : List Block} {b : Block} {vs : List Block}
    → x.free ≡ false
    → Placed bs us b vs
    → Placed (x ∷ bs) (x ∷ us) b vs
Placed-used x f (xs, ys, p, q, r, g) =
    (x ∷ xs, ys, ap (◌∷◌ x) p, allocated_used x xs f ∙ ap (◌∷◌ x) q, r, g)

-- A block among those handed out is one of the heap's.
pub allocated-Placed :
    (bs us : List Block) (b : Block) (vs : List Block)
    → allocated bs ≡ us ++ b ∷ vs
    → Placed bs us b vs
allocated-Placed [] [] b vs e = cc
allocated-Placed [] (u ∷ us) b vs e = cc
allocated-Placed (x ∷ bs) us b vs e = elim (Bool-cases x.free) [
  | inl f ↦ Placed-free x f (allocated-Placed bs us b vs (sym (allocated_free x bs f) ∙ e))
  | inr f ↦ used us (sym (allocated_used x bs f) ∙ e) f (allocated-Placed bs)
]
  where
    used :
        (ws : List Block)
        → x ∷ allocated bs ≡ ws ++ b ∷ vs
        → x.free ≡ false
        → ((ws : List Block) (c : Block) (vs : List Block)
            → allocated bs ≡ ws ++ c ∷ vs
            → Placed bs ws c vs)
        → Placed (x ∷ bs) ws b vs
    used [] h f ih =
        let same : b ≡ x = cc in
        let rest : allocated bs ≡ vs = cc in
        ([], bs, ap (λ z. z ∷ bs) (sym same), refl, rest, ap (λ z. z.free) same ∙ f)
    used (w ∷ ws) h f ih =
        let same : x ≡ w = cc in
        let rest : allocated bs ≡ ws ++ b ∷ vs = cc in
        subst (λ z. Placed (x ∷ bs) (z ∷ ws) b vs) same (Placed-used x f (ih ws b vs rest))

-- On a heap whose headers form a list of blocks that fills its addresses, kfree of a block that is
-- handed out takes this one back, leaves every other block that is handed out and all bytes as they
-- are, and keeps the heap so, however its neighbours are merged.
pub kfree-Frees :
    (s : Heap) (bs us : List Block) (b : Block) (vs : List Block)
    → Models s bs
    → allocated bs ≡ us ++ b ∷ vs
    → Frees s (us ++ vs) (kfree s (b.addr + heap_header_size))
kfree-Frees s bs us b vs v e =
    let (xs, ys, p, q, r, f) = allocated-Placed bs us b vs e in
    let h : Frees s (allocated xs ++ allocated ys) (kfree s (b.addr + heap_header_size)) =
      kfree-at s xs b ys (subst (Models s) p v) f in
    subst₂ (λ l m. Frees s (l ++ m) (kfree s (b.addr + heap_header_size))) q r h
