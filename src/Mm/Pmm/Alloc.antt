-- ===== src/Mm/Pmm/Alloc.antt =====
-- What `pmm_alloc` and `pmm_alloc_pages` of src/mm/pmm.c do.
use alcor2os.Base.{
  ℕ, zero, suc, ◌+◌, ◌*◌, ◌/◌, ◌≤◌, ◌<◌, ◌≡◌, refl, sym, ap, ◌∙◌, subst, ◌≢◌, ◌⊎◌, inl, inr, true,
  false, not, Option, none, some, arith, count_below-le, count_below-pos,
}
use alcor2os.Base.Word.{sub64}
use native.Mathlib.Decide.{dec_lt}
use alcor2os.Mm.Pmm.{
  Pmm, page_size, bitmap_set, bitmap_test, find_page, find_run, set_run, pmm_alloc, pmm_alloc_pages,
}
use alcor2os.Mm.Pmm.Bitmap.{length-bitmap_set, test-set_self, test-set_ne}
use alcor2os.Mm.Pmm.Invariant.{IsValid, pages_of, is_free, take-IsValid}
use alcor2os.Mm.Pmm.Search.{
  Taken, Free, First, found, missing, FirstRun, run_at, no_run, Blocked, find_page-First,
  find_run-FirstRun,
}

-- From `s` to `t` exactly the `count` pages from `p` on went from free to in use.
pub record Took (s t : Pmm) (p count : ℕ) : Type 0 where
  pub within : p + count ≤ s.total_pages
  pub before : Free s.bitmap p (p + count)
  pub after : Taken t.bitmap p (p + count)
  pub others : (q : ℕ) → (q < p) ⊎ (p + count ≤ q) → bitmap_test t.bitmap q ≡ bitmap_test s.bitmap q
  pub left : t.free_pages + count ≡ s.free_pages
  pub same : t.total_pages ≡ s.total_pages
  pub valid : IsValid t

abbrev take_one : Pmm → ℕ → Pmm
take_one s p = record s { bitmap = bitmap_set s.bitmap p; free_pages = sub64 s.free_pages 1 }

-- A free page of a valid bitmap is one of the machine's pages.
free-within :
    {s : Pmm} (p : ℕ)
    → IsValid s
    → p < pages_of s
    → bitmap_test s.bitmap p ≡ false
    → p < s.total_pages
free-within {s} p v h e = elim (dec_lt p s.total_pages) [
  | yes f ↦ f
  | no f ↦ absurd (true≢false (sym (v.tail p (omega arith) h) ∙ e))
]
  where
    true≢false : true ≡ false → ⊥
    true≢false x = cc

free-counted :
    {s : Pmm} (p : ℕ)
    → IsValid s
    → p < pages_of s
    → bitmap_test s.bitmap p ≡ false
    → 0 < s.free_pages
free-counted {s} p v h e =
    omega (arith, v.counted, count_below-pos (is_free s.bitmap) (pages_of s) p h (ap not e))

take_one-Took :
    {s : Pmm} (p : ℕ)
    → IsValid s
    → p < pages_of s
    → bitmap_test s.bitmap p ≡ false
    → Took s (take_one s p) p 1
take_one-Took {s} p v h e = record {
  within = omega (arith, free-within p v h e);
  before = λ q l m. let f : q ≡ p = omega arith in rw f e;
  after = λ q l m. let f : q ≡ p = omega arith in rw f (test-set_self s.bitmap p h);
  others = λ q d. test-set_ne s.bitmap p q (apart q d) h;
  left = omega (
    arith,
    free-counted p v h e,
    v.counted,
    v.small,
    count_below-le (is_free s.bitmap) (pages_of s),
  );
  same = refl;
  valid = take-IsValid s p v h e;
}
  where
    apart : (q : ℕ) → (q < p) ⊎ (p + 1 ≤ q) → p ≢ q
    apart q d f = omega arith

Took-append : {s t u : Pmm} (p n : ℕ) → Took s t p 1 → Took t u (p + 1) n → Took s u p (suc n)
Took-append {s} {t} {u} p n a b = record {
  within = omega (arith, b.within, a.same);
  before = λ q l m. elim (dec_lt q (p + 1)) [
    | yes f ↦ a.before q l f
    | no f ↦ sym (a.others q (inr (omega arith))) ∙ b.before q (omega arith) (omega arith)
  ];
  after = λ q l m. elim (dec_lt q (p + 1)) [
    | yes f ↦ b.others q (inl f) ∙ a.after q l f
    | no f ↦ b.after q (omega arith) (omega arith)
  ];
  others = λ q d. b.others q (omega arith) ∙ a.others q (omega arith);
  left = omega (arith, a.left, b.left);
  same = b.same ∙ a.same;
  valid = b.valid;
}

abbrev take_run : Pmm → ℕ → ℕ → Pmm
take_run s p n = record s { bitmap = set_run n s.bitmap p; free_pages = sub64 s.free_pages n }

take_run-Took :
    (n : ℕ) {s : Pmm} (p : ℕ)
    → IsValid s
    → p + suc n ≤ pages_of s
    → Free s.bitmap p (p + suc n)
    → Took s (take_run s p (suc n)) p (suc n)
unfolding set_run
take_run-Took zero p v h f = take_one-Took p v (omega arith) (f p (omega arith) (omega arith))
take_run-Took (suc n) {s} p v h f =
    let a : Took s (take_one s p) p 1 =
      take_one-Took p v (omega arith) (f p (omega arith) (omega arith)) in
    let rest : Took (take_one s p) (take_run (take_one s p) (p + 1) (suc n)) (p + 1) (suc n) =
      take_run-Took n (p + 1) a.valid (omega (arith, length-bitmap_set s.bitmap p))
        (λ q l m. a.others q (inr l) ∙ f q (omega arith) (omega arith)) in
    let total : Took s
        (record s {
          bitmap = set_run (suc n) (bitmap_set s.bitmap p) (p + 1);
          free_pages = sub64 (sub64 s.free_pages 1) (suc n);
        })
        p (suc (suc n)) =
      Took-append p (suc n) a rest in
    subst
      (λ z.
        Took s
          (record s { bitmap = set_run (suc n) (bitmap_set s.bitmap p) (p + 1); free_pages = z }) p
          (suc (suc n)))
      (omega (
        arith,
        a.left,
        rest.left,
        v.counted,
        v.small,
        count_below-le (is_free s.bitmap) (pages_of s),
      ))
      total

-- What `pmm_alloc` answers: the lowest free page, or that every page is in use.
pub AllocsOne : Pmm → ℕ × Pmm → Type 0
AllocsOne s (addr, t) =
    ((addr ≡ 0) × (t ≡ s) × Taken s.bitmap 0 s.total_pages)
    ⊎ ((p : ℕ) × (addr ≡ p * page_size) × Took s t p 1 × Taken s.bitmap 0 p)

-- What `pmm_alloc_pages` answers: the lowest run of free pages, or that each run has a page in use.
unfoldable pub AllocsRun : Pmm → ℕ → ℕ × Pmm → Type 0
AllocsRun s count (addr, t) =
    ((addr ≡ 0)
      × (t ≡ s)
      × ((p : ℕ)
          → p + count ≤ s.total_pages
          → (q : ℕ) × (p ≤ q) × (q < p + count) × (bitmap_test s.bitmap q ≡ true)))
    ⊎ ((p : ℕ) × (addr ≡ p * page_size) × Took s t p count × Blocked s.bitmap count p)

-- On a valid allocator, pmm_alloc takes the lowest free page, returns its address, leaves every
-- other page alone, counts it and keeps the allocator valid, or every page is in use, nothing
-- changes and the result is NULL.
pub pmm_alloc-AllocsOne : (s : Pmm) → IsValid s → AllocsOne s (pmm_alloc s)
unfolding pmm_alloc AllocsOne
pmm_alloc-AllocsOne s v =
    go (find_page (s.bitmap_size / 8) s.bitmap 0) refl
      (find_page-First (s.bitmap_size / 8) s.bitmap 0 (pages_of s) (omega arith))
  where
    go :
        (o : Option ℕ)
        → find_page (s.bitmap_size / 8) s.bitmap 0 ≡ o
        → First s.bitmap 0 (pages_of s) o
        → AllocsOne s (pmm_alloc s)
    go none e (missing all) = rw (e, pmm_alloc) (inl (refl, refl, λ q l h. all q l (omega arith)))
    go (some p) e (found _ l h f t) =
        rw (e, pmm_alloc) (inr (p, omega arith, take_one-Took p v h f, t))

-- On a valid allocator and for a count above 0, pmm_alloc_pages takes the lowest run of that many
-- free pages, returns its address, leaves every other page alone, counts the pages and keeps the
-- allocator valid, or there is no such run, nothing changes and the result is NULL.
pub pmm_alloc_pages-AllocsRun :
    (s : Pmm) (count : ℕ) → IsValid s → 0 < count → AllocsRun s count (pmm_alloc_pages s count)
unfolding pmm_alloc_pages AllocsRun
pmm_alloc_pages-AllocsRun s zero v pos = elim pos [ ]
pmm_alloc_pages-AllocsRun s (suc n) v pos =
    go (find_run s.total_pages s.bitmap (suc n) 0 0 0) refl (
      find_run-FirstRun s.total_pages s.bitmap (suc n) 0 0 0 0 s.total_pages (omega arith) pos
        (omega arith) refl (λ q l h. absurd (omega arith)) (λ t h. absurd (omega arith)))
  where
    go :
        (o : Option ℕ)
        → find_run s.total_pages s.bitmap (suc n) 0 0 0 ≡ o
        → FirstRun s.bitmap (suc n) s.total_pages o
        → AllocsRun s (suc n) (pmm_alloc_pages s (suc n))
    go none e (no_run all) = rw (e, pmm_alloc_pages) (inl (refl, refl, all))
    go (some p) e (run_at _ h f b) =
        rw (e, pmm_alloc_pages) (inr (p, omega arith, take_run-Took n p v (omega arith) f, b))
