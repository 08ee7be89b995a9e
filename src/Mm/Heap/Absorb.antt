-- ===== src/Mm/Heap/Absorb.antt =====
-- `absorb`, the merge of two neighbours in `coalesce` of src/mm/heap.c, on the list of blocks.
use alcor2os.Base.{
  ℕ, ◌+◌, ◌≤◌, ◌<◌, ◌≡◌, refl, sym, ap, subst, ◌≢◌, ◌⊎◌, inl, inr, List, [], ◌∷◌, arith,
}
use alcor2os.Base.Word.{u64_mod}
use alcor2os.Mm.Heap.{Header, Heap, kernel_heap_base, absorb}
use alcor2os.Mm.Heap.Chain.{
  Block, Holds, Seg, Tiles, last_addr, Tiles-le, Seg-frame, Seg-relink, Seg-start, last_addr-Tiles,
}
use alcor2os.Mm.Heap.Layout.{Layout, block, base-le}

-- The memory after a merge, address by address.
record Merges (s : Heap) (b y : Block) (n : ℕ) (m : ℕ → Header) : Type 0 where
  others : (x : ℕ) → x ≢ b.addr → x ≢ n → m x ≡ s.memory x
  first : m b.addr ≡ record (s.memory b.addr) { size = b.size + (32 + y.size); next = n }
  second : n ≢ 0 → m n ≡ record (s.memory n) { prev = b.addr }

absorb-Merges :
    (s : Heap) (b y : Block) (n : ℕ)
    → (s.memory b.addr).size ≡ b.size
    → (s.memory y.addr).size ≡ y.size
    → (s.memory y.addr).next ≡ n
    → y.addr ≡ b.addr + (32 + b.size)
    → (n ≡ 0) ⊎ (n ≡ y.addr + (32 + y.size))
    → kernel_heap_base ≤ b.addr
    → y.addr + (32 + y.size) < u64_mod
    → Merges s b y n (absorb s b.addr y.addr).memory
unfolding absorb
absorb-Merges s b y n e f g at h lo hi = record {
  others = λ x p q. ground arith;
  first = ground arith;
  second = λ z. ground arith;
}

module _ (s : Heap) {start : ℕ} {xs : List Block} {b y : Block} {ys : List Block} {e : ℕ}
    (l : Layout s.memory start xs b (y ∷ ys) e) (bound : e < u64_mod) where
  linked : y.addr ≡ (s.memory b.addr).next
  linked = l.after.0

  holds : Holds (s.memory y.addr) b.addr y
  holds = subst (λ z. Holds (s.memory z) b.addr y) (sym linked) l.after.1

  rest : Seg s.memory y.addr (s.memory y.addr).next ys 0
  rest = subst (λ z. Seg s.memory z (s.memory z).next ys 0) (sym linked) l.after.2

  tiled : Tiles (y.addr + (32 + y.size)) ys e
  tiled = subst (λ z. Tiles (z + (32 + y.size)) ys e) (sym l.high.0) l.high.2

  next_of : ((s.memory y.addr).next ≡ 0) ⊎ ((s.memory y.addr).next ≡ y.addr + (32 + y.size))
  next_of =
      elim (Seg-start s.memory y.addr (s.memory y.addr).next (y.addr + (32 + y.size)) ys e
        (omega arith) tiled rest) [ inl (z, _, _) ↦ inl z | inr (z, _, _) ↦ inr z ]

  y_end-le : y.addr + (32 + y.size) ≤ e
  y_end-le = omega (arith, Tiles-le (y.addr + (32 + y.size)) ys e tiled)

  pub absorb-Layout :
      Layout
        (absorb s b.addr y.addr).memory
        start
        xs
        (block b.addr (b.size + (32 + y.size)) b.free)
        ys
        e
  absorb-Layout =
      let t : Merges s b y (s.memory y.addr).next (absorb s b.addr y.addr).memory =
        absorb-Merges s b y (s.memory y.addr).next l.here.size holds.size refl l.high.0 next_of
          (base-le l) (omega (arith, y_end-le)) in
      let m = (absorb s b.addr y.addr).memory in
      let n = (s.memory y.addr).next in
      let big = b.size + (32 + y.size) in
      record {
        before =
            Seg-frame s.memory m 0 start b.addr kernel_heap_base xs b.addr l.low
              (λ x lo hi. t.others x (omega arith) (omega (arith, next_of, l.high.0))) l.before;
        here =
            subst (λ h. Holds h (last_addr 0 xs) (block b.addr big b.free)) (sym t.first)
              (record {
                magic = l.here.magic;
                size = refl;
                free = l.here.free;
                prev = l.here.prev;
              });
        after =
            subst (λ z. Seg m b.addr z ys 0) (ap (λ h. h.next) (sym t.first))
              (Seg-relink s.memory m y.addr b.addr n (y.addr + (32 + y.size)) ys e (omega arith)
                tiled rest (λ x lo hi ne. t.others x (omega (arith, l.high.0)) ne) t.second);
        low = l.low;
        aligned = omega (arith, l.aligned, l.high.1);
        high = subst (λ z. Tiles z ys e) (omega (arith, l.high.0)) tiled;
      }

  pub absorb-last :
      s.last ≡ last_addr y.addr ys → (absorb s b.addr y.addr).last ≡ last_addr b.addr ys
  unfolding absorb
  absorb-last h = go ys h tiled
    where
      go :
          (zs : List Block)
          → s.last ≡ last_addr y.addr zs
          → Tiles (y.addr + (32 + y.size)) zs e
          → (absorb s b.addr y.addr).last ≡ last_addr b.addr zs
      go [] h' t = ground arith
      go (z ∷ zs) h' t = ground (arith, last_addr-Tiles y.addr (y.addr + (32 + y.size)) z zs e t)
