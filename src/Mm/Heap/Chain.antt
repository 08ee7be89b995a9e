-- ===== src/Mm/Heap/Chain.antt =====
-- The list of blocks that the headers of src/mm/heap.c form: linked both ways, and laid out one
-- behind the other without a gap.
use alcor2os.Base.{
  ℕ, ◌+◌, ◌*◌, ◌%◌, ◌≤◌, ◌<◌, ◌≡◌, refl, sym, ap, subst, ◌≢◌, ◌⊎◌, inl, inr, Bool, List, [], ◌∷◌,
  ◌++◌, arith, length,
}
use alcor2os.Mm.Heap.{Header, heap_header_size, heap_block_magic}

pub record Block : Type 0 where
  pub addr : ℕ
  pub size : ℕ
  pub free : Bool

abbrev pub block_end : Block → ℕ
block_end b = b.addr + heap_header_size + b.size

-- The header of block `b`, with the block at `p` before it.
pub record Holds (h : Header) (p : ℕ) (b : Block) : Type 0 where
  pub magic : h.magic ≡ heap_block_magic
  pub size : h.size ≡ b.size
  pub free : h.free ≡ b.free
  pub prev : h.prev ≡ p

-- From address `c`, with block `p` before it, the links lead through the blocks to address `n`.
abbrev pub Seg : (ℕ → Header) → ℕ → ℕ → List Block → ℕ → Type 0
Seg m p c [] n = c ≡ n
Seg m p c (b ∷ bs) n = (b.addr ≡ c) × Holds (m c) p b × Seg m c (m c).next bs n

-- The blocks fill the addresses from `a` to `e`, in order.
abbrev pub Tiles : ℕ → List Block → ℕ → Type 0
Tiles a [] e = a ≡ e
Tiles a (b ∷ bs) e = (b.addr ≡ a) × (b.size % 16 ≡ 0) × Tiles (a + (heap_header_size + b.size)) bs e

abbrev pub last_addr : ℕ → List Block → ℕ
last_addr p [] = p
last_addr p (b ∷ bs) = last_addr b.addr bs

pub Tiles-le : (a : ℕ) (bs : List Block) (e : ℕ) → Tiles a bs e → a + length bs * 32 ≤ e
Tiles-le a [] e t = omega arith
Tiles-le a (b ∷ bs) e t = omega (arith, Tiles-le (a + (32 + b.size)) bs e t.2)

pub Tiles-append :
    (a : ℕ) (xs ys : List Block) (mid e : ℕ)
    → Tiles a xs mid
    → Tiles mid ys e
    → Tiles a (xs ++ ys) e
Tiles-append a [] ys mid e t u = subst (λ z. Tiles z ys e) (sym t) u
Tiles-append a (x ∷ xs) ys mid e t u =
    (t.0, t.1, Tiles-append (a + (32 + x.size)) xs ys mid e t.2 u)

pub Tiles-split :
    (a : ℕ) (xs ys : List Block) (e : ℕ)
    → Tiles a (xs ++ ys) e
    → (mid : ℕ) × Tiles a xs mid × Tiles mid ys e
Tiles-split a [] ys e t = (a, refl, t)
Tiles-split a (x ∷ xs) ys e t =
    let r = Tiles-split (a + (32 + x.size)) xs ys e t.2 in (r.0, (t.0, t.1, r.1), r.2)

-- Memories that agree on the addresses of a segment hold the same one.
pub Seg-frame :
    (m m' : ℕ → Header) (p c n a : ℕ) (bs : List Block) (e : ℕ)
    → Tiles a bs e
    → ((x : ℕ) → a ≤ x → x < e → m' x ≡ m x)
    → Seg m p c bs n
    → Seg m' p c bs n
Seg-frame m m' p c n a [] e t same s = s
Seg-frame m m' p c n a (b ∷ bs) e t same s =
    let here : m' c ≡ m c =
      same c (omega (arith, t.0, s.0))
        (omega (arith, t.0, s.0, Tiles-le (a + (32 + b.size)) bs e t.2)) in
    (
      s.0,
      subst (λ h. Holds h p b) (sym here) s.1,
      subst (λ z. Seg m' c z bs n) (ap (λ h. h.next) (sym here))
          (Seg-frame m m' c (m c).next n (a + (32 + b.size)) bs e t.2
            (λ x l h. same x (omega arith) h) s.2),
    )

pub Seg-append :
    (m : ℕ → Header) (p c : ℕ) (xs ys : List Block) (mid n : ℕ)
    → Seg m p c xs mid
    → Seg m (last_addr p xs) mid ys n
    → Seg m p c (xs ++ ys) n
Seg-append m p c [] ys mid n s t = subst (λ z. Seg m p z ys n) (sym s) t
Seg-append m p c (x ∷ xs) ys mid n s t = (
  s.0,
  s.1,
  Seg-append m c (m c).next xs ys mid n s.2 (subst (λ z. Seg m (last_addr z xs) mid ys n) s.0 t),
)

pub Seg-split :
    (m : ℕ → Header) (p c : ℕ) (xs ys : List Block) (n : ℕ)
    → Seg m p c (xs ++ ys) n
    → (mid : ℕ) × Seg m p c xs mid × Seg m (last_addr p xs) mid ys n
Seg-split m p c [] ys n s = (c, refl, s)
Seg-split m p c (x ∷ xs) ys n s =
    let r = Seg-split m c (m c).next xs ys n s.2 in
    (r.0, (s.0, s.1, r.1), subst (λ z. Seg m (last_addr z xs) r.0 ys n) (sym s.0) r.2)

-- The first block of a segment gets another block before it.
pub Seg-relink :
    (m m' : ℕ → Header) (p p' c a : ℕ) (bs : List Block) (e : ℕ)
    → 0 < a
    → Tiles a bs e
    → Seg m p c bs 0
    → ((x : ℕ) → a ≤ x → x < e → x ≢ c → m' x ≡ m x)
    → (c ≢ 0 → m' c ≡ record (m c) { prev = p' })
    → Seg m' p' c bs 0
Seg-relink m m' p p' c a [] e pos t s same first = s
Seg-relink m m' p p' c a (b ∷ bs) e pos t s same first =
    let at : a ≡ c = omega (arith, t.0, s.0) in
    let here : m' c ≡ record (m c) { prev = p' } = first (omega arith) in
    (
      s.0,
      subst (λ h. Holds h p' b) (sym here)
          (record { magic = s.1.magic; size = s.1.size; free = s.1.free; prev = refl }),
      subst (λ z. Seg m' c z bs 0) (ap (λ h. h.next) (sym here))
          (Seg-frame m m' c (m c).next 0 (a + (32 + b.size)) bs e t.2
            (λ x l h. same x (omega arith) h (omega arith)) s.2),
    )

-- Only an empty segment ends where it begins.
pub Seg-start :
    (m : ℕ → Header) (p c a : ℕ) (bs : List Block) (e : ℕ)
    → 0 < a
    → Tiles a bs e
    → Seg m p c bs 0
    → (c ≡ 0) × (bs ≡ []) × (a ≡ e) ⊎ (c ≡ a) × (a < e) × (bs ≢ [])
Seg-start m p c a [] e pos t s = inl (s, refl, t)
Seg-start m p c a (b ∷ bs) e pos t s =
    inr (omega (arith, s.0, t.0), omega (arith, Tiles-le (a + (32 + b.size)) bs e t.2), λ z. cc)

pub last_addr-append :
    (p : ℕ) (xs : List Block) (b : Block) (ys : List Block)
    → last_addr p (xs ++ b ∷ ys) ≡ last_addr b.addr ys
last_addr-append p [] b ys = refl
last_addr-append p (x ∷ xs) b ys = last_addr-append x.addr xs b ys

-- The last of some blocks lies among them.
pub last_addr-Tiles :
    (p a : ℕ) (b : Block) (bs : List Block) (e : ℕ)
    → Tiles a (b ∷ bs) e
    → (a ≤ last_addr p (b ∷ bs)) × (last_addr p (b ∷ bs) < e)
last_addr-Tiles p a b [] e t = omega arith
last_addr-Tiles p a b (c ∷ bs) e t =
    omega (arith, last_addr-Tiles b.addr (a + (32 + b.size)) c bs e t.2)
