-- ===== src/Vega/Fntab/Lookup.antt =====
-- What `fntab_get` of user/sdk/vega/fntab.c finds after `fntab_set`.
use alcor2os.Base.{
  ℕ, suc, ◌+◌, ◌≤◌, ◌≡◌, refl, sym, ap, ◌∙◌, ◌≢◌, ◌⊎◌, inl, inr, Bool, true, false, Option, none,
  some, List, [], ◌∷◌, ◌++◌, arith, leb, ◌==◌, if◌then◌else◌, leb→le, ==_iff, eq→==, Bool-cases,
  length, get_elem?, get_or, set,
}
use mathlib.Core.Path.{ap₂}
use alcor2os.Vega.Fntab.{
  FnEntry, Fntab, max_functions, same_string, find_slot, set_slot, fntab_set, entry_of, fntab_get,
}

same_string_eq : (a b : List ℕ) → same_string a b ≡ true → a ≡ b
unfolding same_string
same_string_eq [] [] h = refl
same_string_eq [] (y ∷ b) h = absurd cc
same_string_eq (x ∷ a) [] h = absurd cc
same_string_eq (x ∷ a) (y ∷ b) h = elim (Bool-cases (x == y)) [
  | inl e ↦ ap₂ ◌∷◌ ((==_iff x y).0 e) (same_string_eq a b (rw e at h))
  | inr e ↦ absurd (let z : false ≡ true = rw e at h in cc)
]

same_string_refl : (a : List ℕ) → same_string a a ≡ true
unfolding same_string
same_string_refl [] = refl
same_string_refl (x ∷ a) = rw (eq→== x x refl) (same_string_refl a)

same_string-true : (a b : List ℕ) → a ≡ b → same_string a b ≡ true
same_string-true a b e = ap (same_string a) (sym e) ∙ same_string_refl a

same_string-false : (a b : List ℕ) → a ≢ b → same_string a b ≡ false
same_string-false a b n = elim (Bool-cases (same_string a b)) [
  | inl e ↦ absurd (n (same_string_eq a b e))
  | inr e ↦ e
]

module _ {B : Type 0} where
  lookup : List (FnEntry B) → List ℕ → Option (FnEntry B)
  lookup [] n = none
  lookup (e ∷ es) n = if same_string e.name n then some e else lookup es n

  -- The slot found is the first of the name, and storing there changes that name's entry only.
  Slot : List (FnEntry B) → ℕ → List ℕ → Option ℕ → Type 0
  Slot es i n o =
      ((o ≡ none) × (lookup es n ≡ none))
      ⊎ ((k : ℕ) × (o ≡ some (i + k))
          × (get_elem? es k ≡ lookup es n)
          × ((e : FnEntry B) → e.name ≡ n → lookup (set es k e) n ≡ some e)
          × ((e : FnEntry B) (m : List ℕ)
              → e.name ≡ n
              → n ≢ m
              → lookup (set es k e) m ≡ lookup es m))

  find_slot-Slot : (es : List (FnEntry B)) (i : ℕ) (n : List ℕ) → Slot es i n (find_slot es i n)
  unfolding find_slot lookup Slot
  find_slot-Slot [] i n = inl (refl, refl)
  find_slot-Slot (x ∷ es) i n = elim (Bool-cases (same_string x.name n)) [
    | inl t ↦ rw t (
        inr (
          0,
          ap some {x = i} {y = i + 0} (omega arith),
          refl,
          λ e w. rw (same_string-true e.name n w) refl,
          λ e m w d.
              rw
                (
                  same_string-false e.name m (λ z. d (sym w ∙ z)),
                  same_string-false x.name m (λ z. d (sym (same_string_eq x.name n t) ∙ z)),
                )
                refl,
        ))
    | inr f ↦ rw f (elim (find_slot-Slot es (suc i) n) [
      | inl a ↦ inl (a.0, a.1)
      | inr (k, a, g, own, others) ↦ inr (
        suc k,
        a ∙ ap some {x = suc i + k} {y = i + suc k} (omega arith),
        g,
        λ e w. rw f (own e w),
        λ e m w d. elim (Bool-cases (same_string x.name m)) [
          | inl t ↦ rw t refl
          | inr t ↦ rw t (others e m w d)
        ],
      )
    ])
  ]

  lookup-append :
      (es : List (FnEntry B)) (e : FnEntry B)
      → lookup es e.name ≡ none
      → lookup (es ++ e ∷ []) e.name ≡ some e
  unfolding lookup
  lookup-append [] e h = rw (same_string_refl e.name) refl
  lookup-append (x ∷ es) e h = elim (Bool-cases (same_string x.name e.name)) [
    | inl t ↦ absurd (let z : some x ≡ none = rw t at h in cc)
    | inr t ↦ rw t (lookup-append es e (rw t at h))
  ]

  lookup-append_other :
      (es : List (FnEntry B)) (e : FnEntry B) (m : List ℕ)
      → e.name ≢ m
      → lookup (es ++ e ∷ []) m ≡ lookup es m
  unfolding lookup
  lookup-append_other [] e m d = rw (same_string-false e.name m d) refl
  lookup-append_other (x ∷ es) e m d = elim (Bool-cases (same_string x.name m)) [
    | inl t ↦ rw t refl
    | inr t ↦ rw t (lookup-append_other es e m d)
  ]

  fntab_get-lookup : (t : Fntab B) (n : List ℕ) → fntab_get t n ≡ lookup t.table n
  unfolding fntab_get entry_of Slot
  fntab_get-lookup t n = elim (find_slot-Slot t.table 0 n) [
    | inl a ↦ rw a.0 (sym a.1)
    | inr (k, a, g, own, others) ↦
        rw a (ap (get_elem? t.table) {x = 0 + k} {y = k} (omega arith) ∙ g)
  ]

  -- The table holds the function under its name, and every other name has what it had.
  abbrev pub Stores : Fntab B → FnEntry B → Fntab B → Type 0
  Stores t e u =
      (fntab_get u e.name ≡ some e) × ((m : List ℕ) → e.name ≢ m → fntab_get u m ≡ fntab_get t m)

  abbrev pub SetResult : Fntab B → FnEntry B → Bool × Fntab B → Type 0
  SetResult t e r =
      ((r.0 ≡ true) × Stores t e r.1)
      ⊎ ((r.0 ≡ false) × (r.1 ≡ t) × (fntab_get t e.name ≡ none) × (max_functions ≤ length t.table))

  looked_up :
      (t u : Fntab B) (e : FnEntry B)
      → lookup u.table e.name ≡ some e
      → ((m : List ℕ) → e.name ≢ m → lookup u.table m ≡ lookup t.table m)
      → Stores t e u
  looked_up t u e a b = (
    fntab_get-lookup u e.name ∙ a,
    λ m d. fntab_get-lookup u m ∙ b m d ∙ sym (fntab_get-lookup t m),
  )

-- Storing a function either succeeds, and then its name finds it and every other name finds what it
-- found, or fails and changes nothing, and then the name was not in the table and the table holds
-- at least 16 functions.
pub fntab_set-SetResult : {B : Type 0} (t : Fntab B) (e : FnEntry B) → SetResult t e (fntab_set t e)
unfolding fntab_set set_slot Slot
fntab_set-SetResult t e = elim (find_slot-Slot t.table 0 e.name) [
  | inr (k, a, g, own, others) ↦
      let z : find_slot t.table 0 e.name ≡ some k = a ∙ ap some {x = 0 + k} {y = k} (omega arith) in
      rw z (
        inl (
          refl,
          looked_up t
              (record { table = set t.table k e; freed = t.freed ++ get_or t.table k e ∷ [] }) e
              (own e refl) (λ m d. others e m refl d),
        ))
  | inl a ↦ elim (Bool-cases (leb 16 (length t.table))) [
    | inl f ↦
        rw (a.0, f)
          (inr (refl, refl, fntab_get-lookup t e.name ∙ a.1, leb→le 16 (length t.table) f))
    | inr f ↦
        rw (a.0, f)
          (inl (
            refl,
            looked_up t (record t { table = t.table ++ e ∷ [] }) e (lookup-append t.table e a.1)
                (λ m d. lookup-append_other t.table e m d),
          ))
  ]
]
