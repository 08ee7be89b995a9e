-- ===== src/Mm/Heap/Mark.antt =====
-- The write of a block's `free` in src/mm/heap.c, on the list of blocks.
use alcor2os.Base.{
  ℕ, ◌+◌, ◌≤◌, ◌≡◌, refl, sym, ap, subst, ◌≢◌, Bool, List, [], ◌∷◌, arith, eq→==, ne→==,
}
use alcor2os.Mm.Heap.{Header, put, kernel_heap_base}
use alcor2os.Mm.Heap.Chain.{Block, Holds, Seg, Tiles, last_addr, Seg-frame}
use alcor2os.Mm.Heap.Layout.{Layout, block, used_bytes}

abbrev pub marked : (ℕ → Header) → ℕ → Bool → ℕ → Header
marked m a f = put m a (record (m a) { free = f })

marked_self : (m : ℕ → Header) (a : ℕ) (f : Bool) → marked m a f a ≡ record (m a) { free = f }
marked_self m a f = rw (eq→== a a refl)

marked_ne : (m : ℕ → Header) (a : ℕ) (f : Bool) (x : ℕ) → x ≢ a → marked m a f x ≡ m x
marked_ne m a f x h = rw (ne→== x a h)

pub mark-Layout :
    {m : ℕ → Header} {start : ℕ} {xs : List Block} {b : Block} {ys : List Block} {e : ℕ} (f : Bool)
    → Layout m start xs b ys e
    → Layout (marked m b.addr f) start xs (block b.addr b.size f) ys e
mark-Layout {m} {start} {xs} {b} {ys} {e} f l = record {
  before =
      Seg-frame m (marked m b.addr f) 0 start b.addr kernel_heap_base xs b.addr l.low
        (λ x lo hi. marked_ne m b.addr f x (omega arith)) l.before;
  here =
      subst (λ h. Holds h (last_addr 0 xs) (block b.addr b.size f)) (sym (marked_self m b.addr f))
        (record { magic = l.here.magic; size = l.here.size; free = refl; prev = l.here.prev });
  after =
      subst (λ z. Seg (marked m b.addr f) b.addr z ys 0)
        (ap (λ h. h.next) (sym (marked_self m b.addr f)))
        (Seg-frame m (marked m b.addr f) b.addr (m b.addr).next 0 (b.addr + (32 + b.size)) ys e
          l.high (λ x lo hi. marked_ne m b.addr f x (omega arith)) l.after);
  low = l.low;
  aligned = l.aligned;
  high = l.high;
}

pub used_bytes-le : (a : ℕ) (bs : List Block) (e : ℕ) → Tiles a bs e → a + used_bytes bs ≤ e
used_bytes-le a [] e t = omega arith
used_bytes-le a (b ∷ bs) e t = ground (arith, used_bytes-le (a + (32 + b.size)) bs e t.2)
