-- ===== src/Fs/Files/Counted.antt =====
-- The invariant of the open files of src/fs/vfs.c: the count of an entry is the number of descriptors,
-- in all processes, that refer to it. `x` counts the references that no descriptor holds yet.
use alcor2os.Base.{
  ℕ, zero, suc, ◌+◌, ◌-◌, ◌≤◌, ◌<◌, ◌≡◌, refl, sym, ap, ◌∙◌, subst, ◌≢◌, ◌⊎◌, inl, inr, Bool, true,
  false, Option, none, some, List, [], ◌∷◌, arith, ltb, leb, ◌==◌, ltb→lt, lt→ltb, eq→==, ne→==,
  ltb→le, Bool-cases, length, get_or, set, get_or-set_self, get_or-set_ne, get_or-out, bit,
}
use native.Mathlib.Decide.{ℕ_discrete, dec_lt}
use alcor2os.Fs.Files.{
  Entry, Table, Files, zero_entry, empty_table, entry_at, put_entry, table_at, get_fd, put_fd,
  put_cloexec, vfs_oft_retain, vfs_oft_release,
}

abbrev sum_of {ℓ} : {A : Type ℓ} → (A → ℕ) → List A → ℕ
sum_of f [] = 0
sum_of f (x ∷ xs) = f x + sum_of f xs

sum_of-set {ℓ} :
    {A : Type ℓ} (f : A → ℕ) (xs : List A) (k : ℕ) (v d : A)
    → k < length xs
    → sum_of f (set xs k v) + f (get_or xs k d) ≡ sum_of f xs + f v
sum_of-set f [] k v d h = absurd (omega arith)
sum_of-set f (x ∷ xs) zero v d h = omega arith
sum_of-set f (x ∷ xs) (suc k) v d h = omega (arith, sum_of-set f xs k v d (omega arith))

abbrev pub refers : ℕ → Option ℕ → ℕ
refers i none = 0
refers i (some j) = bit (j == i)

-- The slots of a table, and of all tables, that refer to the entry.
abbrev pub table_holds : ℕ → Table → ℕ
table_holds i t = sum_of (refers i) t.fds

unfoldable pub holds : Files → ℕ → ℕ
holds s i = sum_of (table_holds i) s.tables

abbrev pub IsSlot : Files → ℕ → ℕ → Type 0
IsSlot s p fd = (p < length s.tables) × (fd < length (table_at s p).fds)

pub holds-put_fd :
    (s : Files) (p fd i : ℕ) (v : Option ℕ)
    → IsSlot s p fd
    → holds (put_fd s p fd v) i + refers i (get_fd s p fd) ≡ holds s i + refers i v
unfolding holds
holds-put_fd s p fd i v h =
    let t : Table = table_at s p in
    omega (
      arith,
      sum_of-set (table_holds i) s.tables p (record t { fds = set t.fds fd v }) empty_table h.0,
      sum_of-set (refers i) t.fds fd v none h.1,
    )

pub holds-put_cloexec :
    (s : Files) (p fd i : ℕ) (b : Bool)
    → p < length s.tables
    → holds (put_cloexec s p fd b) i ≡ holds s i
unfolding holds
holds-put_cloexec s p fd i b h =
    let t : Table = table_at s p in
    omega (
      arith,
      sum_of-set (table_holds i) s.tables p (record t { fd_cloexec = set t.fd_cloexec fd b })
          empty_table h,
    )

sum_of-some {ℓ} :
    {A : Type ℓ} (f : A → ℕ) (xs : List A) (k : ℕ) (d : A)
    → k < length xs
    → f (get_or xs k d) ≤ sum_of f xs
sum_of-some f [] k d h = absurd (omega arith)
sum_of-some f (x ∷ xs) zero d h = omega arith
sum_of-some f (x ∷ xs) (suc k) d h = omega (arith, sum_of-some f xs k d (omega arith))

-- A slot that refers to an entry is one of its holders.
pub holds-some : (s : Files) (p fd i : ℕ) → IsSlot s p fd → get_fd s p fd ≡ some i → 0 < holds s i
unfolding holds
holds-some s p fd i h e = omega (
  arith,
  sum_of-some (table_holds i) s.tables p empty_table h.0,
  sum_of-some (refers i) (table_at s p).fds fd none h.1,
  ap (refers i) e,
  ap bit (eq→== i i refl),
)

-- An entry in use has as many references as it counts, at least one; one not in use has none.
abbrev pub Agrees : Entry → ℕ → Type 0
Agrees e n = ((e.in_use ≡ true) × (e.refcount ≡ n) × (0 < n)) ⊎ ((e.in_use ≡ false) × (n ≡ 0))

abbrev pub Counts : Files → (ℕ → ℕ) → Type 0
Counts s x = (i : ℕ) → Agrees (entry_at s i) (holds s i + x i)

abbrev pub more : (ℕ → ℕ) → ℕ → ℕ → ℕ
more x i j = x j + bit (i == j)

-- The sizes of the tables.
pub record IsSized (s : Files) : Type 0 where
  pub entries : length s.oft ≡ 256
  pub slots : (p : ℕ) → p < length s.tables → length (table_at s p).fds ≡ 256

pub Agrees-put :
    (s : Files) (i j n m : ℕ) (e : Entry)
    → i < length s.oft
    → (i ≡ j → Agrees e m)
    → (i ≢ j → n ≡ m)
    → Agrees (entry_at s j) n
    → Agrees (entry_at (put_entry s i e) j) m
Agrees-put s i j n m e h new old a = elim (ℕ_discrete i j) [
  | yes x ↦
      subst (λ z. Agrees (get_or (set s.oft i e) z zero_entry) m) x
        (rw (get_or-set_self s.oft i e zero_entry h) (new x))
  | no x ↦
      rw (get_or-set_ne s.oft i j e zero_entry x) (subst (λ z. Agrees (entry_at s j) z) (old x) a)
]

pub bit_ne : (i j : ℕ) → i ≢ j → bit (i == j) ≡ 0
bit_ne i j h = ap bit (ne→== i j h)

pub bit_eq : (i j : ℕ) → i ≡ j → bit (i == j) ≡ 1
bit_eq i j h = ap bit (eq→== i j h)

-- What is referred to is in use and has a place in the table.
pub Counts-used :
    (s : Files) (x : ℕ → ℕ) (i : ℕ)
    → IsSized s
    → Counts s x
    → 0 < holds s i + x i
    → ((entry_at s i).in_use ≡ true) × (i < 256) × ((entry_at s i).refcount ≡ holds s i + x i)
Counts-used s x i z c h = elim (c i) [
  | inl a ↦ (a.0, inside a.0, a.1)
  | inr b ↦ absurd (omega (arith, b.1))
]
  where
    inside : (entry_at s i).in_use ≡ true → i < 256
    inside u = elim (dec_lt i 256) [
      | yes l ↦ l
      | no n ↦ absurd (
          false_true (
            sym (
              ap (λ (e : Entry). e.in_use)
                (get_or-out s.oft i zero_entry (omega (arith, z.entries))))
            ∙ u))
    ]
      where
        false_true : false ≡ true → ⊥
        false_true e = cc

-- A retained entry has one reference more.
pub retain-Counts :
    (s : Files) (x : ℕ → ℕ) (i : ℕ)
    → IsSized s
    → Counts s x
    → 0 < holds s i + x i
    → Counts (vfs_oft_retain s i) (more x i)
unfolding vfs_oft_retain holds
retain-Counts s x i z c h j =
    let u = Counts-used s x i z c h in
    rw (lt→ltb i 256 u.1, u.0)
      (Agrees-put s i j (holds s j + x j) (holds s j + more x i j)
        (record (entry_at s i) { refcount = (entry_at s i).refcount + 1; in_use = true })
        (omega (arith, z.entries, u.1))
        (λ e. inl (
          refl,
          subst (λ k. (entry_at s i).refcount + 1 ≡ holds s k + (x k + bit (i == k))) e
              (omega (arith, u.2, bit_eq i i refl)),
          omega (arith, bit_eq i j e),
        ))
        (λ n. omega (arith, bit_ne i j n)) (c j))

lt→leb : (a b : ℕ) → a < b → leb b a ≡ false
lt→leb a b h = ground arith

-- A released entry has one reference less, and is no longer in use when it had only one.
pub release-Counts :
    (s : Files) (x : ℕ → ℕ) (i : ℕ)
    → IsSized s
    → Counts s (more x i)
    → Counts (vfs_oft_release s i) x
unfolding vfs_oft_release holds
release-Counts s x i z c =
    let u = Counts-used s (more x i) i z c (omega (arith, bit_eq i i refl)) in
    let n : (entry_at s i).refcount ≡ holds s i + x i + 1 = omega (arith, u.2, bit_eq i i refl) in
    let inside : leb 256 i ≡ false = lt→leb i 256 u.1 in
    elim (Bool-cases (ltb 0 ((entry_at s i).refcount - 1))) [
      | inl f ↦
          rw (inside, u.0, f)
            (λ j.
              Agrees-put s i j (holds s j + more x i j) (holds s j + x j)
                (record (entry_at s i) { refcount = (entry_at s i).refcount - 1; in_use = true })
                (omega (arith, z.entries, u.1))
                (λ e. inl (
                  refl,
                  subst (λ k. (entry_at s i).refcount - 1 ≡ holds s k + x k) e (omega (arith, n)),
                  subst (λ k. 0 < holds s k + x k) e
                      (omega (arith, n, ltb→lt 0 ((entry_at s i).refcount - 1) f)),
                ))
                (λ e. omega (arith, bit_ne i j e)) (c j))
      | inr f ↦
          rw (inside, u.0, f)
            (λ j.
              Agrees-put s i j (holds s j + more x i j) (holds s j + x j)
                (record (entry_at s i) { refcount = (entry_at s i).refcount - 1; in_use = false })
                (omega (arith, z.entries, u.1))
                (λ e. inr (
                  refl,
                  subst (λ k. holds s k + x k ≡ 0) e
                      (omega (arith, n, ltb→le 0 ((entry_at s i).refcount - 1) f)),
                ))
                (λ e. omega (arith, bit_ne i j e)) (c j))
    ]
