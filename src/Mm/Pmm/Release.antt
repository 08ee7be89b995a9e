-- ===== src/Mm/Pmm/Release.antt =====
-- What the last loop of `pmm_init` in src/mm/pmm.c frees.
use alcor2os.Base.{
  ℕ, zero, suc, ◌+◌, ◌-◌, ◌*◌, ◌≤◌, ◌<◌, ◌≡◌, refl, ◌∙◌, ◌⊎◌, inl, inr, true, false, List, [], ◌∷◌,
  arith, ◌==◌, if◌then◌else◌, ==_iff, ==→ne, Bool-cases,
}
use alcor2os.Base.Word.{u64_mod, add64}
use native.Mathlib.Decide.{dec_lt}
use alcor2os.Mm.Pmm.{
  Pmm, Entry, page_size, memmap_usable, bitmap_clear, bitmap_test, free_page, free_run, clear_run,
  start_page, end_page, release,
}
use alcor2os.Mm.Pmm.Bitmap.{test-clear_ne, length-bitmap_clear}
use alcor2os.Mm.Pmm.Invariant.{IsValid, pages_of}
use alcor2os.Mm.Pmm.Search.{Taken}
use alcor2os.Mm.Pmm.Free.{Gave, free_run-Gave}

-- The page lies wholly in the entry, which is usable.
pub record Holds (e : Entry) (q : ℕ) : Type 0 where
  pub usable : e.kind ≡ memmap_usable
  pub from : e.base ≤ q * page_size
  pub to : (q + 1) * page_size ≤ e.base + e.length

abbrev pub Covers : List Entry → ℕ → Type 0
Covers [] q = ⊥
Covers (e ∷ es) q = Holds e q ⊎ Covers es q

-- No page lies in two usable entries.
abbrev pub Disjoint : List Entry → Type 0
Disjoint [] = Unit {0}
Disjoint (e ∷ es) = ((q : ℕ) → Holds e q → ¬ Covers es q) × Disjoint es

-- Each usable entry ends at most at the address `top`.
abbrev pub Below : ℕ → List Entry → Type 0
Below top [] = Unit {0}
Below top (e ∷ es) = (e.kind ≡ memmap_usable → e.base + e.length ≤ top) × Below top es

clear_run-free_run :
    (n : ℕ) (s : Pmm) (p : ℕ)
    → p + n ≤ pages_of s
    → Taken s.bitmap p (p + n)
    → clear_run n s p ≡ free_run n s p
unfolding clear_run free_run free_page
clear_run-free_run zero s p h t = refl
clear_run-free_run (suc n) s p h t = rw (t p (omega arith) (omega arith)) (
    clear_run-free_run n
      (record s { bitmap = bitmap_clear s.bitmap p; free_pages = add64 s.free_pages 1 }) (p + 1)
      (omega (arith, length-bitmap_clear s.bitmap p))
      (λ q l m.
        test-clear_ne s.bitmap p q (λ f. omega arith) (omega arith)
        ∙ t q (omega arith) (omega arith)))

-- From `s` to `t` exactly the pages that an entry holds were freed.
pub record Released (es : List Entry) (s t : Pmm) : Type 0 where
  pub freed : (q : ℕ) → Covers es q → bitmap_test t.bitmap q ≡ false
  pub others : (q : ℕ) → ¬ Covers es q → bitmap_test t.bitmap q ≡ bitmap_test s.bitmap q
  pub same : t.total_pages ≡ s.total_pages
  pub valid : IsValid t

abbrev release_entry : Entry → Pmm → Pmm
release_entry e s =
    if e.kind == memmap_usable then clear_run (end_page e - start_page e) s (start_page e) else s

module _ (e : Entry) (s : Pmm) (v : IsValid s)
    (small : s.total_pages * page_size + 2 * page_size ≤ u64_mod)
    (top : e.kind ≡ memmap_usable → e.base + e.length ≤ s.total_pages * page_size + (page_size - 1))
    (t : (q : ℕ) → Holds e q → bitmap_test s.bitmap q ≡ true) where
  cleared :
      e.kind ≡ memmap_usable
      → start_page e < end_page e
      → Gave s
          (clear_run (end_page e - start_page e) s (start_page e))
          (start_page e)
          (end_page e - start_page e)
  cleared u lt =
      let k : e.base + e.length ≤ s.total_pages * page_size + (page_size - 1) = top u in
      rw
        (clear_run-free_run (end_page e - start_page e) s (start_page e) (omega (arith, v.covers))
          (λ q l m. t q (record { usable = u; from = omega arith; to = omega arith })))
        (free_run-Gave (end_page e - start_page e) s (start_page e) v (omega arith))

  release_entry-Released : Released (e ∷ []) s (release_entry e s)
  unfolding clear_run
  release_entry-Released = elim (Bool-cases (e.kind == memmap_usable)) [
    | inl b ↦
        let u : e.kind ≡ memmap_usable = (==_iff e.kind memmap_usable).0 b in
        let k : e.base + e.length ≤ s.total_pages * page_size + (page_size - 1) = top u in
        rw b (elim (dec_lt (start_page e) (end_page e)) [
          | yes lt ↦
              let g : Gave s (clear_run (end_page e - start_page e) s (start_page e)) (start_page e)
                  (end_page e - start_page e) =
                cleared u lt in
              record {
                freed = λ q c. elim c [
                  | inl h ↦ g.after q (omega (arith, h.from)) (omega (arith, h.to))
                  | inr z ↦ absurd z
                ];
                others = λ q n. g.others q (elim (dec_lt q (start_page e)) [
                  | yes f ↦ inl f
                  | no f ↦ elim (dec_lt q (end_page e)) [
                    | yes g ↦
                        absurd
                          (n (inl (record { usable = u; from = omega arith; to = omega arith })))
                    | no g ↦ inr (omega arith)
                  ]
                ]);
                same = g.same;
                valid = g.valid;
              }
          | no ge ↦
              let z : end_page e - start_page e ≡ 0 = omega arith in
              rw (z, clear_run)
                (record {
                  freed = λ q c. elim c [
                    | inl h ↦ absurd (omega (arith, h.from, h.to))
                    | inr y ↦ absurd y
                  ];
                  others = λ q n. refl;
                  same = refl;
                  valid = v;
                })
        ])
    | inr b ↦ rw b (record {
      freed = λ q c. elim c [
        | inl h ↦ absurd (==→ne e.kind memmap_usable b h.usable)
        | inr z ↦ absurd z
      ];
      others = λ q n. refl;
      same = refl;
      valid = v;
    })
  ]

Released-append :
    {s t u : Pmm} (e : Entry) (es : List Entry)
    → ((q : ℕ) → Holds e q → ¬ Covers es q)
    → Released (e ∷ []) s t
    → Released es t u
    → Released (e ∷ es) s u
Released-append e es d a b = record {
  freed = λ q c. elim c [ inl h ↦ b.others q (d q h) ∙ a.freed q (inl h) | inr h ↦ b.freed q h ];
  others = λ q n.
      b.others q (λ c. n (inr c))
      ∙ a.others q (λ c. elim c [ inl h ↦ n (inl h) | inr z ↦ absurd z ]);
  same = b.same ∙ a.same;
  valid = b.valid;
}

pub release-Released :
    (es : List Entry) (s : Pmm) (total : ℕ)
    → s.total_pages ≡ total
    → IsValid s
    → total * page_size + 2 * page_size ≤ u64_mod
    → Below (total * page_size + (page_size - 1)) es
    → Disjoint es
    → ((q : ℕ) → Covers es q → bitmap_test s.bitmap q ≡ true)
    → Released es s (release es s)
unfolding release
release-Released [] s total eq v small b d t = record {
  freed = λ q c. absurd c;
  others = λ q c. refl;
  same = refl;
  valid = v;
}
release-Released (e ∷ es) s total eq v small b d t =
    let a : Released (e ∷ []) s (release_entry e s) =
      release_entry-Released e s v (omega arith) (λ u. omega (arith, b.0 u)) (λ q h. t q (inl h)) in
    Released-append e es d.0 a (
      release-Released es (release_entry e s) total (a.same ∙ eq) a.valid small b.1 d.1
        (λ q c. a.others q (λ z. elim z [ inl h ↦ d.0 q h c | inr y ↦ absurd y ]) ∙ t q (inr c)))
