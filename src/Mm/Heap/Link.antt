-- ===== src/Mm/Heap/Link.antt =====
-- The new block that `heap_expand` of src/mm/heap.c links in behind the last one.
use mathlib.Core.List.{append_assoc}
use mathlib.Core.Path.{subst₂}
use alcor2os.Base.{
  ℕ, ◌+◌, ◌-◌, ◌%◌, ◌^◌, ◌≤◌, ◌<◌, ◌≡◌, refl, sym, ap, ◌∙◌, subst, ◌≢◌, inl, inr, true, List, [],
  ◌∷◌, ◌++◌, arith,
}
use alcor2os.Mm.Heap.{Heap, Header, kernel_heap_base, link_block}
use alcor2os.Mm.Heap.Chain.{
  Block, Holds, Seg, Tiles, last_addr, Seg-frame, Seg-start, last_addr-append,
}
use alcor2os.Mm.Heap.Layout.{
  Layout, block, Layout-open, Layout-chain, Layout-Tiles, base-le, end-le,
}
use alcor2os.Mm.Heap.Coalesce.{snoc-cases}

-- The blocks after the one of `size` bytes, header included, was linked in at `virt`.
pub record Linked (s : Heap) (bs : List Block) (virt size : ℕ) (t : Heap) : Type 0 where
  pub chain : Seg t.memory 0 t.start (bs ++ block virt (size - 32) true ∷ []) 0
  pub tiles : Tiles kernel_heap_base (bs ++ block virt (size - 32) true ∷ []) (virt + size)
  pub last : t.last ≡ virt

-- The memory after the link, where there is a last block.
record Links (s : Heap) (virt size : ℕ) (m : ℕ → Header) : Type 0 where
  others : (x : ℕ) → x ≢ virt → x ≢ s.last → m x ≡ s.memory x
  first : m s.last ≡ record (s.memory s.last) { next = virt }
  second : Holds (m virt) s.last (block virt (size - 32) true)
  stop : (m virt).next ≡ 0

link_block-Links :
    (s : Heap) (virt size : ℕ)
    → s.last ≢ 0
    → s.last < virt
    → 32 ≤ size
    → size < 2 ^ 32
    → Links s virt size (link_block s virt size).memory
unfolding link_block
link_block-Links s virt size ne lt lo hi = record {
  others = λ x p q. ground arith;
  first = ground arith;
  second = record {
    magic = ground arith;
    size = ground arith;
    free = ground arith;
    prev = ground arith;
  };
  stop = ground arith;
}

link_block_empty :
    (s : Heap) (size : ℕ)
    → s.start ≡ 0
    → s.last ≡ 0
    → 32 ≤ size
    → size < 2 ^ 32
    → size % 16 ≡ 0
    → Linked s [] kernel_heap_base size (link_block s kernel_heap_base size)
unfolding link_block
link_block_empty s size st la lo hi al = record {
  chain = (
    ground arith,
    record { magic = ground arith; size = ground arith; free = ground arith; prev = ground arith },
    ground arith,
  );
  tiles = (refl, omega arith, omega arith);
  last = refl;
}

link_block-last : (s : Heap) (virt size : ℕ) → (link_block s virt size).last ≡ virt
unfolding link_block
link_block-last s virt size = refl

link_block-start :
    (s : Heap) (virt size : ℕ) → s.start ≢ 0 → (link_block s virt size).start ≡ s.start
unfolding link_block
link_block-start s virt size h = ground arith

Layout-start :
    (m : ℕ → Header) (start : ℕ) {ws : List Block} {w : Block} {ys : List Block} {e : ℕ}
    → Layout m start ws w ys e
    → start ≢ 0
Layout-start m start {ws} {w} {ys} {e} l =
    elim (Seg-start m 0 start kernel_heap_base (ws ++ w ∷ ys) e (omega arith) (Layout-Tiles l)
      (Layout-chain l)) [
        | inl (_, nil, eq) ↦ absurd (omega (arith, base-le l, end-le l))
        | inr (at, _, _) ↦ omega arith
      ]

link_block_behind :
    (s : Heap) (ws : List Block) (w : Block) (virt size : ℕ)
    → Layout s.memory s.start ws w [] virt
    → s.last ≡ w.addr
    → 32 ≤ size
    → size < 2 ^ 32
    → size % 16 ≡ 0
    → Linked s (ws ++ w ∷ []) virt size (link_block s virt size)
link_block_behind s ws w virt size l la lo hi al =
    let m = (link_block s virt size).memory in
    let k : Links s virt size m =
      link_block-Links s virt size (omega (arith, base-le l)) (omega (arith, l.high)) lo hi in
    let first : m w.addr ≡ record (s.memory w.addr) { next = virt } =
      subst (λ z. m z ≡ record (s.memory z) { next = virt }) la k.first in
    let to_virt : (m w.addr).next ≡ virt = ap (λ h. h.next) first in
    let fresh = block virt (size - 32) true in
    let l' : Layout m s.start ws w (fresh ∷ []) (virt + size) = record {
      before =
          Seg-frame s.memory m 0 s.start w.addr kernel_heap_base ws w.addr l.low
            (λ x a b. k.others x (omega (arith, l.high)) (omega arith)) l.before;
      here =
          subst (λ h. Holds h (last_addr 0 ws) w) (sym first)
            (record {
              magic = l.here.magic;
              size = l.here.size;
              free = l.here.free;
              prev = l.here.prev;
            });
      after = (
        sym to_virt,
        subst₂ (λ z p. Holds (m z) p fresh) (sym to_virt) la k.second,
        ap (λ z. (m z).next) to_virt ∙ k.stop,
      );
      low = l.low;
      aligned = l.aligned;
      high = (sym l.high, omega arith, omega (arith, l.high));
    } in
    record {
      chain =
          subst₂ (λ a bs. Seg m 0 a bs 0)
            (sym (link_block-start s virt size (Layout-start s.memory s.start l)))
            (sym (append_assoc ws (w ∷ []) (fresh ∷ []))) (Layout-chain l');
      tiles =
          subst (λ bs. Tiles kernel_heap_base bs (virt + size))
            (sym (append_assoc ws (w ∷ []) (fresh ∷ []))) (Layout-Tiles l');
      last = link_block-last s virt size;
    }

pub link_block-Linked :
    (s : Heap) (bs : List Block) (virt size : ℕ)
    → Seg s.memory 0 s.start bs 0
    → s.last ≡ last_addr 0 bs
    → Tiles kernel_heap_base bs virt
    → 32 ≤ size
    → size < 2 ^ 32
    → size % 16 ≡ 0
    → Linked s bs virt size (link_block s virt size)
link_block-Linked s bs virt size ch la t lo hi al = elim (snoc-cases bs) [
  | inl e ↦
      subst (λ z. Linked s z virt size (link_block s virt size)) (sym e)
        (subst (λ v. Linked s [] v size (link_block s v size))
          (subst (λ z. Tiles kernel_heap_base z virt) e t)
          (link_block_empty s size (subst (λ z. Seg s.memory 0 s.start z 0) e ch)
            (la ∙ ap (last_addr 0) e) lo hi al))
  | inr (ws, w, e) ↦
      subst (λ z. Linked s z virt size (link_block s virt size)) (sym e)
        (link_block_behind s ws w virt size
          (Layout-open ws w [] (subst (λ z. Seg s.memory 0 s.start z 0) e ch)
            (subst (λ z. Tiles kernel_heap_base z virt) e t))
          (la ∙ ap (last_addr 0) e ∙ last_addr-append 0 ws w []) lo hi al)
]
