-- ===== src/Fs/Paths/Prefix.antt =====
-- When `vfs_path_starts_with` of src/fs/vfs.c finds a prefix.
use alcor2os.Base.{
  ℕ, ◌≡◌, refl, sym, ap, ◌∙◌, subst, ◌↔◌, ◌⊎◌, inl, inr, true, false, ◌||◌, List, [], ◌∷◌, ◌++◌,
  arith, ◌==◌, if◌then◌else◌, ==_iff, eq→==, ne→==, Bool-cases, length, get_or, take, drop,
  take-append-drop, take-append_left, take_all,
}
use alcor2os.Kstdlib.{kstrncmp, is_zero}
use alcor2os.Kstdlib.Compare.{IsCString, kstrlen_length, kstrncmp_iff}
use alcor2os.Base.Int.{ℤ, pos, negsuc}
use alcor2os.Fs.Paths.{slash, is_root, vfs_path_starts_with}

-- The rest of the path is empty or starts with a slash.
abbrev pub EndsComponent : List ℕ → Type 0
EndsComponent rest = (get_or rest 0 0 ≡ 0) ⊎ (get_or rest 0 0 ≡ slash)

is_zero_eq : (z : ℤ) → is_zero z ≡ true → z ≡ pos 0
is_zero_eq (pos n) h = ap pos ((==_iff n 0).0 h)
is_zero_eq (negsuc n) h = absurd cc

get_or-append : (xs ys : List ℕ) (d : ℕ) → get_or (xs ++ ys) (length xs) d ≡ get_or ys 0 d
get_or-append [] ys d = refl
get_or-append (x ∷ xs) ys d = get_or-append xs ys d

ends_test : (c : ℕ) → ((c == 0 || c == slash) ≡ true) ↔ ((c ≡ 0) ⊎ (c ≡ slash))
ends_test c = (
  λ h. elim (Bool-cases (c == 0)) [
    | inl e ↦ inl ((==_iff c 0).0 e)
    | inr e ↦ inr ((==_iff c slash).0 (rw e at h))
  ],
  back,
)
  where
    back : (c ≡ 0) ⊎ (c ≡ slash) → (c == 0 || c == slash) ≡ true
    back (inl e) = rw (eq→== c 0 e) refl
    back (inr e) = rw (ne→== c 0 (λ z. omega arith), eq→== c slash e) refl

-- For a path and a prefix without NUL bytes, the prefix not the root, vfs_path_starts_with is true
-- exactly if the path is the prefix followed by nothing or by a rest that starts with a slash.
pub vfs_path_starts_with_iff :
    (path prefix : List ℕ)
    → IsCString path
    → IsCString prefix
    → is_root prefix ≡ false
    → (vfs_path_starts_with path prefix ≡ true)
      ↔ ((rest : List ℕ) × (path ≡ prefix ++ rest) × EndsComponent rest)
unfolding vfs_path_starts_with
vfs_path_starts_with_iff path prefix hp hq root = rw (root, kstrlen_length prefix) (forth, back)
  where
    n : ℕ
    n = length prefix

    whole : take n prefix ≡ prefix
    whole = take_all n prefix (omega arith)

    rest : List ℕ
    rest = drop n path

    forth :
        (if is_zero (kstrncmp path prefix n)
            then (get_or path n 0 == 0 || get_or path n 0 == slash)
            else false)
          ≡ true
        → (rest : List ℕ) × (path ≡ prefix ++ rest) × EndsComponent rest
    forth h = elim (Bool-cases (is_zero (kstrncmp path prefix n))) [
      | inr e ↦ absurd (let z : false ≡ true = rw e at h in cc)
      | inl e ↦
          let same : take n path ≡ prefix =
            (kstrncmp_iff path prefix n hp hq).0 (is_zero_eq (kstrncmp path prefix n) e) ∙ whole in
          let split : path ≡ prefix ++ rest =
            sym (take-append-drop n path) ∙ ap (λ z. z ++ rest) same in
          (
            rest,
            split,
            subst (λ z. (z ≡ 0) ⊎ (z ≡ slash))
                (ap (λ z. get_or z n 0) split ∙ get_or-append prefix rest 0)
                ((ends_test (get_or path n 0)).0 (rw e at h)),
          )
    ]

    back :
        (rest : List ℕ) × (path ≡ prefix ++ rest) × EndsComponent rest
        → (if is_zero (kstrncmp path prefix n)
            then (get_or path n 0 == 0 || get_or path n 0 == slash)
            else false)
          ≡ true
    back (r, e, t) =
        let z : kstrncmp path prefix n ≡ pos 0 =
          (kstrncmp_iff path prefix n hp hq).1
            (ap (take n) e ∙ take-append_left n prefix r refl ∙ sym whole) in
        let g : get_or path n 0 ≡ get_or r 0 0 =
          ap (λ p. get_or p n 0) e ∙ get_or-append prefix r 0 in
        rw z ((ends_test (get_or path n 0)).1 (subst (λ z. (z ≡ 0) ⊎ (z ≡ slash)) (sym g) t))
