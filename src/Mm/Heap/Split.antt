-- ===== src/Mm/Heap/Split.antt =====
-- `split_block` of src/mm/heap.c on the list of blocks.
use alcor2os.Base.{
  ℕ, ◌+◌, ◌-◌, ◌%◌, ◌≤◌, ◌<◌, ◌≡◌, refl, sym, ap, subst, ◌≢◌, ◌⊎◌, true, List, [], ◌∷◌, arith,
}
use mathlib.Core.Path.{◌∙◌, subst₂}
use alcor2os.Base.Word.{u64_mod}
use alcor2os.Mm.Heap.{Header, Heap, kernel_heap_base, heap_block_magic, split_block}
use alcor2os.Mm.Heap.Chain.{
  Block, Holds, Seg, Tiles, last_addr, Seg-frame, Seg-relink, last_addr-Tiles,
}
use alcor2os.Mm.Heap.Layout.{Layout, block, next_after, base-le, end-le}

-- The memory after a split, address by address.
pub record Splits (s : Heap) (b : Block) (size : ℕ) (m : ℕ → Header) : Type 0 where
  pub others :
      (x : ℕ)
      → x ≢ b.addr
      → x ≢ b.addr + (32 + size)
      → x ≢ (s.memory b.addr).next
      → m x ≡ s.memory x
  pub first : m b.addr ≡ record (s.memory b.addr) { size = size; next = b.addr + (32 + size) }
  pub second : m (b.addr + (32 + size)) ≡ record {
    magic = heap_block_magic;
    size = b.size - size - 32;
    free = true;
    next = (s.memory b.addr).next;
    prev = b.addr;
  }
  pub third :
      (s.memory b.addr).next ≢ 0
      → m (s.memory b.addr).next
        ≡ record (s.memory (s.memory b.addr).next) { prev = b.addr + (32 + size) }

split_block-Splits :
    (s : Heap) (b : Block) (size n : ℕ)
    → (s.memory b.addr).size ≡ b.size
    → (s.memory b.addr).next ≡ n
    → (n ≡ 0) ⊎ (n ≡ b.addr + (32 + b.size))
    → size + 64 < b.size
    → kernel_heap_base ≤ b.addr
    → b.addr + (32 + b.size) < u64_mod
    → Splits s b size (split_block s b.addr size).memory
unfolding split_block
split_block-Splits s b size n e f g h lo hi = record {
  others = λ x p q r. ground arith;
  first = ground arith;
  second = ground arith;
  third = λ z. ground arith;
}

module _ (s : Heap) {start : ℕ} {xs : List Block} {b : Block} {ys : List Block} {e : ℕ}
    (l : Layout s.memory start xs b ys e) (size : ℕ) (fits : size + 64 < b.size)
    (aligned : size % 16 ≡ 0) (bound : e < u64_mod) where
  pub splits : Splits s b size (split_block s b.addr size).memory
  splits =
      split_block-Splits s b size (s.memory b.addr).next l.here.size refl (next_after l) fits
        (base-le l) (omega (arith, end-le l))

  pub split_block-Layout :
      Layout
        (split_block s b.addr size).memory
        start
        xs
        (block b.addr size b.free)
        (block (b.addr + (32 + size)) (b.size - size - 32) true ∷ ys)
        e
  split_block-Layout =
      let t = splits in
      let m = (split_block s b.addr size).memory in
      let n = (s.memory b.addr).next in
      let fresh = b.addr + (32 + size) in
      let to_fresh : (m b.addr).next ≡ fresh = ap (λ h. h.next) t.first in
      let second : m (m b.addr).next ≡ record {
        magic = heap_block_magic;
        size = b.size - size - 32;
        free = true;
        next = n;
        prev = b.addr;
      } =
        ap m to_fresh ∙ t.second in
      record {
        before =
            Seg-frame s.memory m 0 start b.addr kernel_heap_base xs b.addr l.low
              (λ x lo hi. t.others x (omega arith) (omega arith) (omega (arith, next_after l)))
              l.before;
        here =
            subst (λ h. Holds h (last_addr 0 xs) (block b.addr size b.free)) (sym t.first)
              (record {
                magic = l.here.magic;
                size = refl;
                free = l.here.free;
                prev = l.here.prev;
              });
        after = (
          sym to_fresh,
          subst (λ h. Holds h b.addr (block fresh (b.size - size - 32) true)) (sym second)
              (record { magic = refl; size = refl; free = refl; prev = refl }),
          subst₂ (λ p c. Seg m p c ys 0) (sym to_fresh) (ap (λ h. h.next) (sym second))
              (Seg-relink s.memory m b.addr fresh n (b.addr + (32 + b.size)) ys e (omega arith)
                l.high l.after (λ x lo hi ne. t.others x (omega arith) (omega arith) ne) t.third),
        );
        low = l.low;
        aligned = aligned;
        high = (refl, omega (arith, l.aligned), subst (λ z. Tiles z ys e) (omega arith) l.high);
      }

  pub split_block-last :
      s.last ≡ last_addr b.addr ys
      → (split_block s b.addr size).last ≡ last_addr (b.addr + (32 + size)) ys
  unfolding split_block
  split_block-last h = go ys h l.high
    where
      go :
          (zs : List Block)
          → s.last ≡ last_addr b.addr zs
          → Tiles (b.addr + (32 + b.size)) zs e
          → (split_block s b.addr size).last ≡ last_addr (b.addr + (32 + size)) zs
      go [] h' t = ground (arith, l.here.size, base-le l, end-le l)
      go (z ∷ zs) h' t = ground (
        arith,
        l.here.size,
        base-le l,
        end-le l,
        last_addr-Tiles b.addr (b.addr + (32 + b.size)) z zs e t,
      )
