-- ===== src/Mm/Heap/Layout.antt =====
-- The invariant of the heap of src/mm/heap.c, and the list of its blocks taken apart at one of them.
use alcor2os.Base.{
  ℕ, ◌+◌, ◌*◌, ◌%◌, ◌≤◌, ◌<◌, ◌≡◌, refl, sym, subst, ◌⊎◌, inl, inr, Bool, List, [], ◌∷◌, ◌++◌,
  arith, if◌then◌else◌,
}
use alcor2os.Base.Word.{u64_mod}
use alcor2os.Mm.Pmm.{page_size}
use alcor2os.Mm.Pmm.Invariant
use alcor2os.Mm.Heap.{Header, Heap, heap_header_size, kernel_heap_base}
use alcor2os.Mm.Heap.Chain.{
  Block, Holds, Seg, Tiles, last_addr, Tiles-le, Seg-start, Tiles-append, Tiles-split, Seg-append,
  Seg-split,
}

abbrev pub block : ℕ → ℕ → Bool → Block
block a n f = record { addr = a; size = n; free = f }

-- The blocks that are handed out, and their bytes.
abbrev pub allocated : List Block → List Block
allocated [] = []
allocated (b ∷ bs) = let rest = allocated bs in if b.free then rest else b ∷ rest

abbrev pub used_bytes : List Block → ℕ
used_bytes [] = 0
used_bytes (b ∷ bs) = (if b.free then 0 else b.size) + used_bytes bs

-- The headers form the list `bs`, which fills the heap's addresses; there is room above the heap for
-- all free pages.
pub record Models (s : Heap) (bs : List Block) : Type 0 where
  pub chain : Seg s.memory 0 s.start bs 0
  pub ending : s.last ≡ last_addr 0 bs
  pub tiles : Tiles kernel_heap_base bs s.next_va
  pub sized : s.next_va ≡ kernel_heap_base + s.size
  pub counted : s.used ≡ used_bytes bs
  pub room : s.next_va + s.pmm.free_pages * page_size < u64_mod
  pub frames : Invariant.IsValid s.pmm

-- The chain of the blocks `xs ++ b ∷ ys`, taken apart at `b`.
pub record Layout (m : ℕ → Header) (start : ℕ) (xs : List Block) (b : Block) (ys : List Block)
    (e : ℕ) : Type 0 where
  pub before : Seg m 0 start xs b.addr
  pub here : Holds (m b.addr) (last_addr 0 xs) b
  pub after : Seg m b.addr (m b.addr).next ys 0
  pub low : Tiles kernel_heap_base xs b.addr
  pub aligned : b.size % 16 ≡ 0
  pub high : Tiles (b.addr + (heap_header_size + b.size)) ys e

pub Layout-open :
    {m : ℕ → Header} {start e : ℕ} (xs : List Block) (b : Block) (ys : List Block)
    → Seg m 0 start (xs ++ b ∷ ys) 0
    → Tiles kernel_heap_base (xs ++ b ∷ ys) e
    → Layout m start xs b ys e
Layout-open {m} {start} {e} xs b ys s t =
    let (mid, sx, (eq, h, sy)) = Seg-split m 0 start xs (b ∷ ys) 0 s in
    let (at, tx, (eq', al, ty)) = Tiles-split kernel_heap_base xs (b ∷ ys) e t in
    record {
      before = subst (λ z. Seg m 0 start xs z) (sym eq) sx;
      here = subst (λ z. Holds (m z) (last_addr 0 xs) b) (sym eq) h;
      after = subst (λ z. Seg m z (m z).next ys 0) (sym eq) sy;
      low = subst (λ z. Tiles kernel_heap_base xs z) (sym eq') tx;
      aligned = al;
      high = subst (λ z. Tiles (z + (heap_header_size + b.size)) ys e) (sym eq') ty;
    }

module _ {m : ℕ → Header} {start e : ℕ} {xs : List Block} {b : Block} {ys : List Block}
    (l : Layout m start xs b ys e) where
  pub Layout-chain : Seg m 0 start (xs ++ b ∷ ys) 0
  Layout-chain = Seg-append m 0 start xs (b ∷ ys) b.addr 0 l.before (refl, l.here, l.after)

  pub Layout-Tiles : Tiles kernel_heap_base (xs ++ b ∷ ys) e
  Layout-Tiles = Tiles-append kernel_heap_base xs (b ∷ ys) b.addr e l.low (refl, l.aligned, l.high)

  -- The next link of a block is NULL or leads to where it ends.
  pub next_after : ((m b.addr).next ≡ 0) ⊎ ((m b.addr).next ≡ b.addr + (32 + b.size))
  next_after =
      elim (Seg-start m b.addr (m b.addr).next (b.addr + (32 + b.size)) ys e (omega arith) l.high
        l.after) [ inl (z, _, _) ↦ inl z | inr (z, _, _) ↦ inr z ]

  pub base-le : kernel_heap_base ≤ b.addr
  base-le = omega (arith, Tiles-le kernel_heap_base xs b.addr l.low)

  pub end-le : b.addr + (32 + b.size) ≤ e
  end-le = omega (arith, Tiles-le (b.addr + (32 + b.size)) ys e l.high)

pub allocated-append : (xs ys : List Block) → allocated (xs ++ ys) ≡ allocated xs ++ allocated ys
allocated-append [] ys = refl
allocated-append (b ∷ xs) ys = ground (arith, allocated-append xs ys)

pub used_bytes-append : (xs ys : List Block) → used_bytes (xs ++ ys) ≡ used_bytes xs + used_bytes ys
used_bytes-append [] ys = omega arith
used_bytes-append (b ∷ xs) ys = omega (arith, used_bytes-append xs ys)
