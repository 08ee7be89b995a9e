-- ===== src/Mm/Pmm/Place.antt =====
-- Where `pmm_init` of src/mm/pmm.c puts the bitmap, and the highest address that it finds.
use alcor2os.Base.{
  ℕ, ◌+◌, ◌≤◌, ◌<◌, ◌≡◌, inl, inr, ◌&&◌, Option, none, some, List, [], ◌∷◌, arith, ltb, leb, ◌==◌,
  if◌then◌else◌, leb→le, ==_iff, Bool-cases,
}
use alcor2os.Base.Word.{u64_mod, sub64, add64}
use alcor2os.Mm.Pmm.{Entry, memmap_usable, highest, place}
use alcor2os.Mm.Pmm.Release.{Below, Covers, Disjoint, Holds}

-- The loop for the highest address: every usable entry ends at most there.
pub highest-Below :
    (es : List Entry) (h top : ℕ)
    → top < u64_mod
    → h ≤ top
    → Below top es
    → (highest es h ≤ top) × (h ≤ highest es h) × Below (highest es h) es
unfolding highest
highest-Below [] h top w le b = (le, omega arith, tt)
highest-Below (e ∷ es) h top w le b =
    let h' : ℕ =
      if e.kind == memmap_usable && ltb h (add64 e.base e.length)
      then add64 e.base e.length
      else h in
    let bound : (h' ≤ top) × (h ≤ h') = ground (arith, b.0) in
    let over : e.kind ≡ memmap_usable → e.base + e.length ≤ h' = λ u. ground (arith, b.0 u) in
    let rest : (highest es h' ≤ top) × (h' ≤ highest es h') × Below (highest es h') es =
      highest-Below es h' top w bound.0 b.1 in
    (rest.0, omega (arith, rest.1, bound.1), ((λ u. omega (arith, over u, rest.1)), rest.2))

-- Cutting the bitmap's entry: the entries hold no page that they did not hold.
pub record Placed (top : ℕ) (es es' : List Entry) : Type 0 where
  pub covers : (q : ℕ) → Covers es' q → Covers es q
  pub below : Below top es'
  pub disjoint : Disjoint es'

abbrev pub PlacedBy : ℕ → List Entry → Option (ℕ × List Entry) → Type 0
PlacedBy top es none = Unit {0}
PlacedBy top es (some (at, es')) = Placed top es es'

cut_entry : ℕ → Entry → Entry
cut_entry size e = record e { base = add64 e.base size; length = sub64 e.length size }

cut_entry-Holds :
    (size top : ℕ) (e : Entry) (q : ℕ)
    → top < u64_mod
    → e.base + e.length ≤ top
    → size ≤ e.length
    → Holds (cut_entry size e) q
    → Holds e q
unfolding cut_entry
cut_entry-Holds size top e q w b l h = record {
  usable = h.usable;
  from = omega (arith, h.from);
  to = omega (arith, h.to);
}

place_rest :
    (top : ℕ) (e : Entry) (es : List Entry) (o : Option (ℕ × List Entry))
    → (e.kind ≡ memmap_usable → e.base + e.length ≤ top)
    → ((q : ℕ) → Holds e q → ¬ Covers es q)
    → PlacedBy top es o
    → PlacedBy top (e ∷ es) (elim o [ some (at, es') ↦ some (at, e ∷ es') | none ↦ none ])
place_rest top e es none b d p = tt
place_rest top e es (some (at, es')) b d p = record {
  covers = λ q c. elim c [ inl h ↦ inl h | inr y ↦ inr (p.covers q y) ];
  below = (b, p.below);
  disjoint = ((λ q h c. d q h (p.covers q c)), p.disjoint);
}

pub place-PlacedBy :
    (es : List Entry) (size top : ℕ)
    → top < u64_mod
    → Below top es
    → Disjoint es
    → PlacedBy top es (place size es)
unfolding place cut_entry
place-PlacedBy [] size top w b d = tt
place-PlacedBy (e ∷ es) size top w b d = elim (Bool-cases (e.kind == memmap_usable)) [
  | inr n ↦
      rw n (place_rest top e es (place size es) b.0 d.0 (place-PlacedBy es size top w b.1 d.1))
  | inl u ↦ rw u (elim (Bool-cases (leb size e.length)) [
    | inr n ↦
        rw n (place_rest top e es (place size es) b.0 d.0 (place-PlacedBy es size top w b.1 d.1))
    | inl l ↦
        let f : e.base + e.length ≤ top = b.0 ((==_iff e.kind memmap_usable).0 u) in
        let holds : (q : ℕ) → Holds (cut_entry size e) q → Holds e q =
          λ q h. cut_entry-Holds size top e q w f (leb→le size e.length l) h in
        rw l (record {
          covers = λ q c. elim c [ inl h ↦ inl (holds q h) | inr y ↦ inr y ];
          below = ((λ k. omega (arith, leb→le size e.length l)), b.1);
          disjoint = ((λ q h c. d.0 q (holds q h) c), d.1);
        })
  ])
]
