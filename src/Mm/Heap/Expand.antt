-- ===== src/Mm/Heap/Expand.antt =====
-- `heap_expand` of src/mm/heap.c on the list of blocks, with the pages that it takes.
use alcor2os.Base.{
  ℕ, zero, suc, ◌+◌, ◌-◌, ◌*◌, ◌%◌, ◌^◌, ◌≤◌, ◌<◌, ◌≡◌, refl, sym, ap, ◌∙◌, subst, ◌≢◌, ◌⊎◌, inl,
  inr, Bool, true, false, List, [], ◌∷◌, ◌++◌, arith, ◌==◌, ne→==,
}
use alcor2os.Base.Word.{u64_mod}
use alcor2os.Mm.Pmm.{Pmm, page_size, pmm_alloc_pages, bitmap_test}
use alcor2os.Mm.Pmm.Alloc.{AllocsRun, Took, pmm_alloc_pages-AllocsRun}
use alcor2os.Mm.Pmm.Invariant.{IsValid}
use alcor2os.Mm.Heap.{Heap, kernel_heap_base, link_block, heap_expand, expand, map_pages}
use alcor2os.Mm.Heap.Chain.{Block, Tiles, last_addr-append}
use alcor2os.Mm.Heap.Layout.{Models, block, used_bytes-append}
use alcor2os.Mm.Heap.Link.{Linked, link_block-Linked}

-- The block that an expansion by `n` pages adds.
abbrev pub new_block : Heap → ℕ → Block
new_block s n = block s.next_va (n * page_size - 32) true

-- No `n` pages in a row are free.
abbrev pub NoRun : Pmm → ℕ → Type 0
NoRun p n =
    (a : ℕ)
    → a + n ≤ p.total_pages
    → (q : ℕ) × (a ≤ q) × (q < a + n) × (bitmap_test p.bitmap q ≡ true)

-- What `heap_expand` does for a count above 0: a free block of so many pages behind the others, its
-- addresses mapped to the pages in order, or nothing, where no such run of pages is free or the
-- first begins with page 0, whose address is NULL.
pub data Expanded (s : Heap) (bs : List Block) (n : ℕ) : Bool × Heap → Type 0 where
  grown :
      (t : Heap)
      → Models t (bs ++ new_block s n ∷ [])
      → (p : ℕ) → Took s.pmm t.pmm p n
      → t.mapped ≡ map_pages n s.next_va (p * page_size) 0 s.mapped
      → t.bytes ≡ s.bytes
      → Expanded s bs n (true, t)
  refused :
      (t : Heap)
      → Models t bs
      → t ≡ record s { pmm = t.pmm }
      → NoRun s.pmm n ⊎ Took s.pmm t.pmm 0 n
      → Expanded s bs n (false, t)

-- `Linked` says nothing of the heap before.
Linked-same :
    {s s' : Heap} {bs : List Block} {virt size : ℕ} {t : Heap}
    → Linked s bs virt size t
    → Linked s' bs virt size t
Linked-same l = record { chain = l.chain; tiles = l.tiles; last = l.last }

-- The heap that takes the pages from `p` on and links the block in.
grow : Heap → ℕ → ℕ → Pmm → Heap
grow s n p q =
    link_block
      (record s {
        pmm = q;
        mapped = map_pages n s.next_va (p * page_size) 0 s.mapped;
        next_va = s.next_va + n * page_size;
      })
      s.next_va (n * page_size)

grow-Linked :
    (s : Heap) (bs : List Block) (n p : ℕ) (q : Pmm)
    → Models s bs
    → 32 ≤ n * page_size
    → n * page_size < 2 ^ 32
    → Linked s bs s.next_va (n * page_size) (grow s n p q)
unfolding grow
grow-Linked s bs n p q v lo hi = Linked-same (
    link_block-Linked
      (record s {
        pmm = q;
        mapped = map_pages n s.next_va (p * page_size) 0 s.mapped;
        next_va = s.next_va + n * page_size;
      })
      bs s.next_va (n * page_size) v.chain v.ending v.tiles lo hi (omega arith))

-- What the link leaves alone.
grow-fields :
    (s : Heap) (n p : ℕ) (q : Pmm)
    → let t = grow s n p q in
      (t.used ≡ s.used)
      × (t.next_va ≡ s.next_va + n * page_size)
      × (t.pmm ≡ q)
      × (t.size ≡ (s.size + n * page_size) % u64_mod)
      × (t.mapped ≡ map_pages n s.next_va (p * page_size) 0 s.mapped)
      × (t.bytes ≡ s.bytes)
unfolding grow link_block
grow-fields s n p q = (refl, refl, refl, refl, refl, refl)

grow-Models :
    (s : Heap) (bs : List Block) (n p : ℕ) (q : Pmm)
    → Models s bs
    → 0 < n
    → Took s.pmm q p n
    → Models (grow s n p q) (bs ++ new_block s n ∷ [])
grow-Models s bs n p q v pos k =
    let t = grow s n p q in
    let (used, va, pmm, size, _, _) = grow-fields s n p q in
    let h : Linked s bs s.next_va (n * page_size) t =
      grow-Linked s bs n p q v (omega arith) (omega (arith, k.left, v.room, v.sized)) in
    record {
      chain = h.chain;
      ending = h.last ∙ sym (last_addr-append 0 bs (new_block s n) []);
      tiles = subst (Tiles kernel_heap_base (bs ++ new_block s n ∷ [])) (sym va) h.tiles;
      sized = omega (arith, va, size, v.sized, v.room, k.left);
      counted = used ∙ v.counted ∙ omega (arith, used_bytes-append bs (new_block s n ∷ []));
      room = rw pmm (omega (arith, va, k.left, v.room));
      frames = subst IsValid (sym pmm) k.valid;
    }

expand-grow :
    (s : Heap) (n p : ℕ) (q : Pmm)
    → p ≢ 0
    → s.next_va + n * page_size < u64_mod
    → expand s n (p * page_size, q) ≡ (true, grow s n p q)
unfolding expand grow
expand-grow s n p q ne room =
    let nonzero : ((p * page_size) == 0) ≡ false = ne→== (p * page_size) 0 (omega arith) in
    let small : n * page_size % u64_mod ≡ n * page_size = omega arith in
    let va : (s.next_va + n * page_size) % u64_mod ≡ s.next_va + n * page_size = omega arith in
    rw (nonzero, small, va)

expand_null : (s : Heap) (n : ℕ) (q : Pmm) → expand s n (0, q) ≡ (false, record s { pmm = q })
unfolding expand
expand_null s n q = refl

refused-Models :
    {s : Heap} {bs : List Block} (q : Pmm)
    → Models s bs
    → IsValid q
    → q.free_pages ≤ s.pmm.free_pages
    → Models (record s { pmm = q }) bs
refused-Models q v f le = record {
  chain = v.chain;
  ending = v.ending;
  tiles = v.tiles;
  sized = v.sized;
  counted = v.counted;
  room = omega (arith, v.room);
  frames = f;
}

expand-Expanded :
    (s : Heap) (bs : List Block) (n addr : ℕ) (q : Pmm)
    → Models s bs
    → 0 < n
    → AllocsRun s.pmm n (addr, q)
    → Expanded s bs n (expand s n (addr, q))
unfolding AllocsRun
expand-Expanded s bs n addr q v pos (inl (null, same, none_free)) =
    rw (null, expand_null)
      (refused _
        (refused-Models q v (subst IsValid (sym same) v.frames)
          (omega (arith, ap (λ z. z.free_pages) same)))
        refl (inl none_free))
expand-Expanded s bs n addr q v pos (inr (zero, at, k, _)) =
    rw (at, expand_null)
      (refused _ (refused-Models q v k.valid (omega (arith, k.left))) refl (inr k))
expand-Expanded s bs n addr q v pos (inr (suc p, at, k, _)) =
    let (_, _, pmm, _, mapped, bytes) = grow-fields s n (suc p) q in
    rw (at, expand-grow s n (suc p) q (λ z. cc) (omega (arith, k.left, v.room)))
      (grown _ (grow-Models s bs n (suc p) q v pos k) (suc p)
        (subst (λ z. Took s.pmm z (suc p) n) (sym pmm) k) mapped bytes)

pub heap_expand-Expanded :
    (s : Heap) (bs : List Block) (n : ℕ) → Models s bs → 0 < n → Expanded s bs n (heap_expand s n)
unfolding heap_expand
heap_expand-Expanded s bs n v pos = rw (ne→== n 0 (omega arith)) (
    expand-Expanded s bs n (pmm_alloc_pages s.pmm n).0 (pmm_alloc_pages s.pmm n).1 v pos
      (pmm_alloc_pages-AllocsRun s.pmm n v.frames pos))
