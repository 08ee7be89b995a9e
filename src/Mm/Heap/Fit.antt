-- ===== src/Mm/Heap/Fit.antt =====
-- `find_free_block` of src/mm/heap.c on the list of blocks: the first fit.
use alcor2os.Base.{
  ℕ, zero, suc, ◌+◌, ◌<◌, ◌≡◌, refl, sym, ap, inl, inr, Bool, true, false, ◌&&◌, List, [], ◌∷◌,
  ◌++◌, arith, leb, eq→==, ne→==, Bool-cases, length,
}
use alcor2os.Mm.Heap.{Header, Heap, kernel_heap_base, find_free, find_free_block}
use alcor2os.Mm.Heap.Chain.{Block, Seg, Tiles, Tiles-le}
use alcor2os.Mm.Heap.Layout.{Models}

-- A block that can hold so many bytes.
abbrev pub has_room : ℕ → Block → Bool
has_room size b = b.free && leb size b.size

abbrev pub NoFit : ℕ → List Block → Type 0
NoFit size [] = Unit {0}
NoFit size (b ∷ bs) = (has_room size b ≡ false) × NoFit size bs

-- What the search answers: the first block with room, or NULL.
pub data FirstFit (bs : List Block) (size r : ℕ) : Type 0 where
  fits :
      (xs : List Block) (b : Block) (ys : List Block)
      → bs ≡ xs ++ b ∷ ys
      → r ≡ b.addr
      → has_room size b ≡ true
      → NoFit size xs
      → FirstFit bs size r
  none_fits : r ≡ 0 → NoFit size bs → FirstFit bs size r

FirstFit-cons :
    {size r : ℕ} {bs : List Block} (b : Block)
    → has_room size b ≡ false
    → FirstFit bs size r
    → FirstFit (b ∷ bs) size r
FirstFit-cons b f (fits xs b' ys e at room unfit) =
    fits (b ∷ xs) b' ys (ap (◌∷◌ b) e) at room (f, unfit)
FirstFit-cons b f (none_fits null unfit) = none_fits null (f, unfit)

pub find_free-FirstFit :
    (k : ℕ) (m : ℕ → Header) (p c a : ℕ) (bs : List Block) (e size : ℕ)
    → length bs < k
    → 0 < a
    → Tiles a bs e
    → Seg m p c bs 0
    → FirstFit bs size (find_free k m c size)
unfolding find_free
find_free-FirstFit zero m p c a bs e size enough pos t s = elim enough [ ]
find_free-FirstFit (suc k) m p c a [] e size enough pos t s = none_fits (rw (eq→== c 0 s)) tt
find_free-FirstFit (suc k) m p c a (b ∷ bs) e size enough pos t s =
    rw (ne→== c 0 (omega (arith, s.0, t.0)), s.1.free, s.1.size)
      (elim (Bool-cases (has_room size b)) [
        | inl f ↦ rw f (fits [] b bs refl (sym s.0) f tt)
        | inr f ↦ rw f (
            FirstFit-cons b f (
              find_free-FirstFit k m c (m c).next (a + (32 + b.size)) bs e size (omega arith)
                (omega arith) t.2 s.2))
      ])

pub find_free_block-FirstFit :
    (s : Heap) (bs : List Block) (size : ℕ)
    → Models s bs
    → FirstFit bs size (find_free_block s size)
unfolding find_free_block
find_free_block-FirstFit s bs size v =
    find_free-FirstFit (suc s.size) s.memory 0 s.start kernel_heap_base bs s.next_va size
      (omega (arith, Tiles-le kernel_heap_base bs s.next_va v.tiles, v.sized)) (omega arith) v.tiles
      v.chain

pub NoFit-append : (size : ℕ) (xs ys : List Block) → NoFit size (xs ++ ys) → NoFit size ys
NoFit-append size [] ys h = h
NoFit-append size (x ∷ xs) ys h = NoFit-append size xs ys h.1
