-- ===== src/Mm/Heap/Coalesce.antt =====
-- `coalesce` of src/mm/heap.c on the list of blocks.
use mathlib.Core.List.{append_assoc, append-nil}
use alcor2os.Base.{
  ℕ, zero, suc, ◌+◌, ◌≤◌, ◌<◌, ◌≡◌, refl, sym, ap, ◌∙◌, subst, ◌≢◌, ◌⊎◌, inl, inr, true, false,
  List, [], ◌∷◌, ◌++◌, arith, ne→==, Bool-cases, length,
}
use alcor2os.Base.Word.{u64_mod}
use alcor2os.Mm.Heap.{Heap, absorb, absorb_free, coalesce, kernel_heap_base}
use alcor2os.Mm.Heap.Chain.{Block, Seg, Tiles, last_addr, last_addr-append}
use alcor2os.Mm.Heap.Layout.{
  Layout, block, allocated, used_bytes, Layout-open, Layout-chain, Layout-Tiles, base-le,
  allocated-append, used_bytes-append,
}
use alcor2os.Mm.Heap.Absorb.{absorb-Layout, absorb-last}

-- A merge touches no more than the headers and the last link.
abbrev pub Relinked : Heap → Heap → Type 0
Relinked s t = t ≡ record s { memory = t.memory; last = t.last }

abbrev pub Settled : List Block → Type 0
Settled [] = Unit {0}
Settled (z ∷ zs) = z.free ≡ false

-- What became of block `b` and those behind it, `ys`, when the free ones that follow were merged.
pub record Absorbed (s : Heap) (xs : List Block) (b : Block) (ys : List Block) (e : ℕ) (t : Heap)
    : Type 0 where
  pub size : ℕ
  pub rest : List Block
  pub layout : Layout t.memory s.start xs (block b.addr size b.free) rest e
  pub last : t.last ≡ last_addr b.addr rest
  pub grown : b.size ≤ size
  pub kept : allocated rest ≡ allocated ys
  pub counted : used_bytes rest ≡ used_bytes ys
  pub settled : Settled rest
  pub relinked : Relinked s t

absorb-Relinked : (s : Heap) (b n : ℕ) → Relinked s (absorb s b n)
unfolding absorb
absorb-Relinked s b n = refl

absorb-Layout-start :
    (s : Heap) {xs : List Block} {b y : Block} {ys : List Block} {e : ℕ}
    → Layout s.memory s.start xs b (y ∷ ys) e
    → e < u64_mod
    → Layout
        (absorb s b.addr y.addr).memory
        (absorb s b.addr y.addr).start
        xs
        (block b.addr (b.size + (32 + y.size)) b.free)
        ys
        e
unfolding absorb
absorb-Layout-start s l bound = absorb-Layout s l bound

absorb_free_stop :
    (k : ℕ) (s : Heap) (b : ℕ)
    → ((s.memory b).next ≡ 0) ⊎ ((s.memory (s.memory b).next).free ≡ false)
    → absorb_free k s b ≡ s
unfolding absorb_free
absorb_free_stop zero s b h = refl
absorb_free_stop (suc k) s b h = ground arith

absorb_free_step :
    (k : ℕ) (s : Heap) (b n : ℕ)
    → (s.memory b).next ≡ n
    → n ≢ 0
    → (s.memory n).free ≡ true
    → absorb_free (suc k) s b ≡ absorb_free k (absorb s b n) b
unfolding absorb_free
absorb_free_step k s b n e ne f = rw (e, ne→== n 0 ne, f)

Absorbed-refl :
    (s : Heap) {xs : List Block} {b : Block} {ys : List Block} {e : ℕ}
    → Layout s.memory s.start xs b ys e
    → s.last ≡ last_addr b.addr ys
    → Settled ys
    → Absorbed s xs b ys e s
Absorbed-refl s {b = b} {ys = ys} l la st = record {
  size = b.size;
  rest = ys;
  layout = l;
  last = la;
  grown = omega arith;
  kept = refl;
  counted = refl;
  settled = st;
  relinked = refl;
}

Absorbed-step :
    (s : Heap) {xs : List Block} {b y : Block} {ys : List Block} {e : ℕ} {t : Heap}
    → y.free ≡ true
    → Absorbed (absorb s b.addr y.addr) xs (block b.addr (b.size + (32 + y.size)) b.free) ys e t
    → Absorbed s xs b (y ∷ ys) e t
unfolding absorb
Absorbed-step s {b = b} f a = record {
  size = a.size;
  rest = a.rest;
  layout = a.layout;
  last = a.last;
  grown = omega (arith, a.grown);
  kept = a.kept ∙ rw f;
  counted = a.counted ∙ rw f (omega arith);
  settled = a.settled;
  relinked = a.relinked;
}

pub absorb_free-Absorbed :
    (k : ℕ) (s : Heap) (xs : List Block) (b : Block) (ys : List Block) (e : ℕ)
    → length ys ≤ k
    → e < u64_mod
    → Layout s.memory s.start xs b ys e
    → s.last ≡ last_addr b.addr ys
    → Absorbed s xs b ys e (absorb_free k s b.addr)
absorb_free-Absorbed k s xs b [] e enough bound l la =
    rw (absorb_free_stop k s b.addr (inl l.after)) (Absorbed-refl s l la tt)
absorb_free-Absorbed zero s xs b (y ∷ ys) e enough bound l la = absurd (omega arith)
absorb_free-Absorbed (suc k) s xs b (y ∷ ys) e enough bound l la = elim (Bool-cases y.free) [
  | inl f ↦
      rw
        (absorb_free_step k s b.addr y.addr (sym l.after.0) (omega (arith, l.high.0))
          (rw (l.after.0) (l.after.1.free ∙ f)))
        (Absorbed-step s f (
          absorb_free-Absorbed k (absorb s b.addr y.addr) xs
            (block b.addr (b.size + (32 + y.size)) b.free) ys e (omega arith) bound
            (absorb-Layout-start s l bound) (absorb-last s l bound la)))
  | inr f ↦
      rw (absorb_free_stop (suc k) s b.addr (inr (l.after.1.free ∙ f))) (Absorbed-refl s l la f)
]

-- What became of the heap when free block `b` was merged with its free neighbours.
pub record Coalesced (s : Heap) (xs ys : List Block) (e : ℕ) (t : Heap) : Type 0 where
  pub blocks : List Block
  pub chain : Seg t.memory 0 s.start blocks 0
  pub tiles : Tiles kernel_heap_base blocks e
  pub last : t.last ≡ last_addr 0 blocks
  pub kept : allocated blocks ≡ allocated xs ++ allocated ys
  pub counted : used_bytes blocks ≡ used_bytes xs + used_bytes ys
  pub relinked : Relinked s t

coalesce_stop :
    (s : Heap) (b : ℕ)
    → let t = absorb_free s.size s b in
      ((t.memory b).prev ≡ 0) ⊎ ((t.memory (t.memory b).prev).free ≡ false) → coalesce s b ≡ t
unfolding coalesce
coalesce_stop s b h = ground arith

coalesce_merge :
    (s : Heap) (b p : ℕ)
    → let t = absorb_free s.size s b in
      (t.memory b).prev ≡ p → p ≢ 0 → (t.memory p).free ≡ true → coalesce s b ≡ absorb t p b
unfolding coalesce
coalesce_merge s b p e ne f = rw (e, ne→== p 0 ne, f)

-- Where the block before is not merged.
Coalesced-stop :
    {s : Heap} {xs : List Block} {b : Block} {ys : List Block} {e : ℕ} {t : Heap}
    → b.free ≡ true
    → Absorbed s xs b ys e t
    → Coalesced s xs ys e t
Coalesced-stop {xs = xs} {b = b} f a =
    let b' = block b.addr a.size b.free in
    record {
      blocks = xs ++ b' ∷ a.rest;
      chain = Layout-chain a.layout;
      tiles = Layout-Tiles a.layout;
      last = a.last ∙ sym (last_addr-append 0 xs b' a.rest);
      kept = allocated-append xs (b' ∷ a.rest) ∙ rw f (ap (λ z. allocated xs ++ z) a.kept);
      counted = used_bytes-append xs (b' ∷ a.rest) ∙ rw f (omega (arith, a.counted));
      relinked = a.relinked;
    }

-- Where it is.
Coalesced-merge :
    (s : Heap) (ws : List Block) (w b : Block) (ys : List Block) (e : ℕ) (t : Heap)
    → b.free ≡ true
    → w.free ≡ true
    → e < u64_mod
    → (a : Absorbed s (ws ++ w ∷ []) b ys e t)
    → Layout t.memory s.start ws w (block b.addr a.size b.free ∷ a.rest) e
    → Coalesced s (ws ++ w ∷ []) ys e (absorb t w.addr b.addr)
Coalesced-merge s ws w b ys e t f g bound a l =
    let big = block w.addr (w.size + (32 + a.size)) w.free in
    let l' : Layout (absorb t w.addr b.addr).memory s.start ws big a.rest e =
      absorb-Layout t l bound in
    record {
      blocks = ws ++ big ∷ a.rest;
      chain = Layout-chain l';
      tiles = Layout-Tiles l';
      last = absorb-last t l bound a.last ∙ sym (last_addr-append 0 ws big a.rest);
      kept =
          allocated-append ws (big ∷ a.rest)
          ∙ rw (allocated-append ws (w ∷ []), g, append-nil) (ap (λ z. allocated ws ++ z) a.kept);
      counted =
          used_bytes-append ws (big ∷ a.rest)
          ∙ rw (used_bytes-append ws (w ∷ []), g) (omega (arith, a.counted));
      relinked =
          absorb-Relinked t w.addr b.addr
          ∙ ap {A = Heap}
              (λ z. record z {
                memory = (absorb t w.addr b.addr).memory;
                last = (absorb t w.addr b.addr).last;
              })
              a.relinked;
    }

pub snoc-cases :
    (xs : List Block) → (xs ≡ []) ⊎ ((ws : List Block) × (w : Block) × (xs ≡ ws ++ w ∷ []))
snoc-cases [] = inl refl
snoc-cases (x ∷ xs) = elim (snoc-cases xs) [
  | inl e ↦ inr ([], x, ap (◌∷◌ x) e)
  | inr (ws, w, e) ↦ inr (x ∷ ws, w, ap (◌∷◌ x) e)
]

coalesce_behind :
    (s : Heap) (ws : List Block) (w b : Block) (ys : List Block) (e : ℕ)
    → b.free ≡ true
    → e < u64_mod
    → Absorbed s (ws ++ w ∷ []) b ys e (absorb_free s.size s b.addr)
    → Coalesced s (ws ++ w ∷ []) ys e (coalesce s b.addr)
coalesce_behind s ws w b ys e f bound a =
    let t = absorb_free s.size s b.addr in
    let b' = block b.addr a.size b.free in
    let l : Layout t.memory s.start ws w (b' ∷ a.rest) e =
      Layout-open ws w (b' ∷ a.rest)
        (subst (λ z. Seg t.memory 0 s.start z 0) (append_assoc ws (w ∷ []) (b' ∷ a.rest))
          (Layout-chain a.layout))
        (subst (λ z. Tiles kernel_heap_base z e) (append_assoc ws (w ∷ []) (b' ∷ a.rest))
          (Layout-Tiles a.layout)) in
    let prev : (t.memory b.addr).prev ≡ w.addr = a.layout.here.prev ∙ last_addr-append 0 ws w [] in
    elim (Bool-cases w.free) [
      | inl g ↦
          rw (coalesce_merge s b.addr w.addr prev (omega (arith, base-le l)) (l.here.free ∙ g))
            (Coalesced-merge s ws w b ys e t f g bound a l)
      | inr g ↦
          rw (coalesce_stop s b.addr (inr (ap (λ z. (t.memory z).free) prev ∙ l.here.free ∙ g)))
            (Coalesced-stop f a)
    ]

pub coalesce-Coalesced :
    (s : Heap) (xs : List Block) (b : Block) (ys : List Block) (e : ℕ)
    → b.free ≡ true
    → e < u64_mod
    → length ys ≤ s.size
    → Layout s.memory s.start xs b ys e
    → s.last ≡ last_addr b.addr ys
    → Coalesced s xs ys e (coalesce s b.addr)
coalesce-Coalesced s xs b ys e f bound enough l la =
    let a : Absorbed s xs b ys e (absorb_free s.size s b.addr) =
      absorb_free-Absorbed s.size s xs b ys e enough bound l la in
    elim (snoc-cases xs) [
      | inl nil ↦
          rw (coalesce_stop s b.addr (inl (a.layout.here.prev ∙ ap (last_addr 0) nil)))
            (Coalesced-stop f a)
      | inr (ws, w, eq) ↦
          subst (λ z. Coalesced s z ys e (coalesce s b.addr)) (sym eq)
            (coalesce_behind s ws w b ys e f bound
              (subst (λ z. Absorbed s z b ys e (absorb_free s.size s b.addr)) eq a))
    ]
