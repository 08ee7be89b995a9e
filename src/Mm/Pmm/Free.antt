-- ===== src/Mm/Pmm/Free.antt =====
-- What `pmm_free` and `pmm_free_pages` of src/mm/pmm.c do.
use alcor2os.Base.{
  ℕ, zero, suc, ◌+◌, ◌/◌, ◌≤◌, ◌<◌, ◌≡◌, refl, ap, ◌∙◌, ◌≢◌, ◌⊎◌, inl, inr, List, arith, Bool-cases,
  bit, count_below-le,
}
use native.Mathlib.Decide.{dec_lt}
use alcor2os.Mm.Pmm.{Pmm, page_size, bitmap_test, free_page, pmm_free, free_run, pmm_free_pages}
use alcor2os.Mm.Pmm.Bitmap.{test-clear_self, test-clear_ne}
use alcor2os.Mm.Pmm.Invariant.{IsValid, pages_of, is_free, give-IsValid}
use alcor2os.Mm.Pmm.Search.{Free}

-- How many of the `n` pages from `p` on are in use.
pub in_use : List ℕ → ℕ → ℕ → ℕ
in_use m p zero = 0
in_use m p (suc n) = bit (bitmap_test m p) + in_use m (p + 1) n

in_use-eq :
    (m m' : List ℕ) (p n : ℕ)
    → ((q : ℕ) → p ≤ q → bitmap_test m q ≡ bitmap_test m' q)
    → in_use m p n ≡ in_use m' p n
unfolding in_use
in_use-eq m m' p zero h = refl
in_use-eq m m' p (suc n) h =
    omega (arith, ap bit (h p (omega arith)), in_use-eq m m' (p + 1) n (λ q l. h q (omega arith)))

-- From `s` to `t` exactly the pages in use among the `count` from `p` on were freed.
pub record Gave (s t : Pmm) (p count : ℕ) : Type 0 where
  pub after : Free t.bitmap p (p + count)
  pub others : (q : ℕ) → (q < p) ⊎ (p + count ≤ q) → bitmap_test t.bitmap q ≡ bitmap_test s.bitmap q
  pub gained : t.free_pages ≡ s.free_pages + in_use s.bitmap p count
  pub same : t.total_pages ≡ s.total_pages
  pub valid : IsValid t

free_page-Gave : (s : Pmm) (p : ℕ) → IsValid s → p < s.total_pages → Gave s (free_page s p) p 1
unfolding free_page in_use
free_page-Gave s p v h = elim (Bool-cases (bitmap_test s.bitmap p)) [
  | inl t ↦ rw t (record {
    after = λ q l m. let f : q ≡ p = omega arith in rw f (test-clear_self s.bitmap p inside);
    others = λ q d. test-clear_ne s.bitmap p q (apart q d) inside;
    gained =
        omega (arith, ap bit t, v.counted, v.small, count_below-le (is_free s.bitmap) (pages_of s));
    same = refl;
    valid = give-IsValid s p v h t;
  })
  | inr f ↦ rw f (record {
    after = λ q l m. let g : q ≡ p = omega arith in rw g f;
    others = λ q d. refl;
    gained = omega (arith, ap bit f);
    same = refl;
    valid = v;
  })
]
  where
    inside : p < pages_of s
    inside = omega (arith, v.covers)

    apart : (q : ℕ) → (q < p) ⊎ (p + 1 ≤ q) → p ≢ q
    apart q d f = omega arith

Gave-append : {s t u : Pmm} (p n : ℕ) → Gave s t p 1 → Gave t u (p + 1) n → Gave s u p (suc n)
unfolding in_use
Gave-append {s} {t} {u} p n a b = record {
  after = λ q l m. elim (dec_lt q (p + 1)) [
    | yes f ↦ b.others q (inl f) ∙ a.after q l f
    | no f ↦ b.after q (omega arith) (omega arith)
  ];
  others = λ q d. b.others q (omega arith) ∙ a.others q (omega arith);
  gained = omega (
    arith,
    a.gained,
    b.gained,
    in_use-eq t.bitmap s.bitmap (p + 1) n (λ q l. a.others q (inr l)),
  );
  same = b.same ∙ a.same;
  valid = b.valid;
}

pub free_run-Gave :
    (n : ℕ) (s : Pmm) (p : ℕ) → IsValid s → p + n ≤ s.total_pages → Gave s (free_run n s p) p n
unfolding free_run in_use
free_run-Gave zero s p v h = record {
  after = λ q l m. absurd (omega arith);
  others = λ q d. refl;
  gained = omega arith;
  same = refl;
  valid = v;
}
free_run-Gave (suc n) s p v h =
    let a : Gave s (free_page s p) p 1 = free_page-Gave s p v (omega arith) in
    Gave-append p n a (free_run-Gave n (free_page s p) (p + 1) a.valid (omega (arith, a.same)))

-- On a valid allocator, pmm_free_pages of pages that all exist frees those in use, adds exactly
-- their number to the free ones, so that a page freed twice counts once, changes no other page and
-- keeps the allocator valid.
pub pmm_free_pages-Gave :
    (s : Pmm) (addr count : ℕ)
    → IsValid s
    → addr / page_size + count ≤ s.total_pages
    → Gave s (pmm_free_pages s addr count) (addr / page_size) count
unfolding pmm_free_pages
pmm_free_pages-Gave s addr count v h = free_run-Gave count s (addr / page_size) v h

-- On a valid allocator, pmm_free of an address in an existing page frees that page, counts it only
-- if it was in use, changes no other page and keeps the allocator valid.
pub pmm_free-Gave :
    (s : Pmm) (addr : ℕ)
    → IsValid s
    → addr / page_size < s.total_pages
    → Gave s (pmm_free s addr) (addr / page_size) 1
unfolding pmm_free
pmm_free-Gave s addr v h = free_page-Gave s (addr / page_size) v h
