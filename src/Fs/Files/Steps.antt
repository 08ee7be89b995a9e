-- ===== src/Fs/Files/Steps.antt =====
-- The counts of the open files of src/fs/vfs.c when a slot is filled, dropped or closed.
use alcor2os.Base.{
  ℕ, ◌+◌, ◌-◌, ◌<◌, ◌≡◌, refl, sym, ap, ◌∙◌, subst, inl, inr, Bool, false, not, ◌&&◌, ◌||◌, Option,
  none, some, List, arith, ltb, leb, Bool-cases, length, get_or, set, length-set, get_or-set_self,
  get_or-set_ne, get_or-out,
}
use native.Mathlib.Decide.{ℕ_discrete, dec_lt}
use alcor2os.Fs.Files.{
  Table, Files, empty_table, entry_at, table_at, get_fd, put_fd, put_cloexec, vfs_oft_retain,
  vfs_oft_release, drop_fd, close_slot, vfs_close,
}
use alcor2os.Fs.Files.Counted.{
  holds, IsSlot, IsSized, Agrees, Counts, more, refers, holds-put_fd, holds-put_cloexec,
  retain-Counts, release-Counts,
}

pub release-tables : (s : Files) (i : ℕ) → (vfs_oft_release s i).tables ≡ s.tables
unfolding vfs_oft_release
release-tables s i = elim (Bool-cases (leb 256 i || not (entry_at s i).in_use)) [
  | inl e ↦ rw e refl
  | inr e ↦ elim (Bool-cases (ltb 0 ((entry_at s i).refcount - 1))) [
    | inl f ↦ rw (e, f) refl
    | inr f ↦ rw (e, f) refl
  ]
]

pub retain-tables : (s : Files) (i : ℕ) → (vfs_oft_retain s i).tables ≡ s.tables
unfolding vfs_oft_retain
retain-tables s i = elim (Bool-cases (ltb i 256 && (entry_at s i).in_use)) [
  | inl e ↦ rw e refl
  | inr e ↦ rw e refl
]

-- Filling a closed slot takes up a reference, and clearing a slot gives its reference back.
pub fill-Counts :
    (s : Files) (x : ℕ → ℕ) (p fd i : ℕ)
    → IsSlot s p fd
    → get_fd s p fd ≡ none
    → Counts s (more x i)
    → Counts (put_fd s p fd (some i)) x
fill-Counts s x p fd i h e c j =
    subst (Agrees (entry_at s j)) (omega (arith, holds-put_fd s p fd j (some i) h, ap (refers j) e))
      (c j)

pub clear-Counts :
    (s : Files) (x : ℕ → ℕ) (p fd i : ℕ)
    → IsSlot s p fd
    → get_fd s p fd ≡ some i
    → Counts s x
    → Counts (put_fd s p fd none) (more x i)
clear-Counts s x p fd i h e c j =
    subst (Agrees (entry_at s j)) (omega (arith, holds-put_fd s p fd j none h, ap (refers j) e))
      (c j)

table-put_fd :
    (s : Files) (p fd q : ℕ) (v : Option ℕ)
    → p < length s.tables
    → length (table_at (put_fd s p fd v) q).fds ≡ length (table_at s q).fds
table-put_fd s p fd q v h = elim (ℕ_discrete p q) [
  | yes e ↦
      subst (λ z. length (table_at (put_fd s p fd v) z).fds ≡ length (table_at s z).fds) e
        (rw
          (get_or-set_self s.tables p (record (table_at s p) { fds = set (table_at s p).fds fd v })
            empty_table h)
          (length-set (table_at s p).fds fd v))
  | no n ↦
      rw
        (get_or-set_ne s.tables p q (record (table_at s p) { fds = set (table_at s p).fds fd v })
          empty_table n)
        refl
]

pub put_fd-IsSized :
    (s : Files) (p fd : ℕ) (v : Option ℕ)
    → p < length s.tables
    → IsSized s
    → IsSized (put_fd s p fd v)
put_fd-IsSized s p fd v h z = record {
  entries = z.entries;
  slots = λ q l.
      table-put_fd s p fd q v h
      ∙ z.slots q (
          omega (
            arith,
            l,
            length-set s.tables p (record (table_at s p) { fds = set (table_at s p).fds fd v }),
          ));
}

pub table-put_cloexec :
    (s : Files) (p fd q : ℕ) (b : Bool)
    → p < length s.tables
    → (table_at (put_cloexec s p fd b) q).fds ≡ (table_at s q).fds
table-put_cloexec s p fd q b h = elim (ℕ_discrete p q) [
  | yes e ↦
      subst (λ z. (table_at (put_cloexec s p fd b) z).fds ≡ (table_at s z).fds) e
        (rw
          (get_or-set_self s.tables p
            (record (table_at s p) { fd_cloexec = set (table_at s p).fd_cloexec fd b }) empty_table
            h)
          refl)
  | no n ↦
      rw
        (get_or-set_ne s.tables p q
          (record (table_at s p) { fd_cloexec = set (table_at s p).fd_cloexec fd b }) empty_table n)
        refl
]

-- A state of the descriptors: its sizes, and its counts with no reference left over.
pub record IsCounted (s : Files) : Type 0 where
  pub sized : IsSized s
  pub counts : Counts s (λ i. 0)

pub release-IsSized : (s : Files) (i : ℕ) → IsSized s → IsSized (vfs_oft_release s i)
unfolding vfs_oft_release
release-IsSized s i z = elim (Bool-cases (leb 256 i || not (entry_at s i).in_use)) [
  | inl e ↦ rw e z
  | inr e ↦ elim (Bool-cases (ltb 0 ((entry_at s i).refcount - 1))) [
    | inl f ↦ rw (e, f) (record { entries = length-set s.oft i _ ∙ z.entries; slots = z.slots })
    | inr f ↦ rw (e, f) (record { entries = length-set s.oft i _ ∙ z.entries; slots = z.slots })
  ]
]

pub retain-IsSized : (s : Files) (i : ℕ) → IsSized s → IsSized (vfs_oft_retain s i)
unfolding vfs_oft_retain
retain-IsSized s i z = elim (Bool-cases (ltb i 256 && (entry_at s i).in_use)) [
  | inl e ↦ rw e (record { entries = length-set s.oft i _ ∙ z.entries; slots = z.slots })
  | inr e ↦ rw e z
]

-- The slot and the entry are apart, so that either may be changed first.
drop-order : (s : Files) (p fd i : ℕ) → drop_fd s p fd i ≡ vfs_oft_release (put_fd s p fd none) i
unfolding drop_fd vfs_oft_release
drop-order s p fd i = elim (Bool-cases (leb 256 i || not (entry_at s i).in_use)) [
  | inl e ↦ rw e refl
  | inr e ↦ elim (Bool-cases (ltb 0 ((entry_at s i).refcount - 1))) [
    | inl f ↦ rw (e, f) refl
    | inr f ↦ rw (e, f) refl
  ]
]

retain-order :
    (s : Files) (p fd i : ℕ) (v : Option ℕ)
    → vfs_oft_retain (put_fd s p fd v) i ≡ put_fd (vfs_oft_retain s i) p fd v
unfolding vfs_oft_retain
retain-order s p fd i v = elim (Bool-cases (ltb i 256 && (entry_at s i).in_use)) [
  | inl e ↦ rw e refl
  | inr e ↦ rw e refl
]

-- A slot is dropped with its reference.
pub drop_fd-Counts :
    (s : Files) (x : ℕ → ℕ) (p fd i : ℕ)
    → IsSized s
    → IsSlot s p fd
    → get_fd s p fd ≡ some i
    → Counts s x
    → IsSized (drop_fd s p fd i) × Counts (drop_fd s p fd i) x
drop_fd-Counts s x p fd i z h e c = rw (drop-order s p fd i) (
  release-IsSized (put_fd s p fd none) i (put_fd-IsSized s p fd none h.0 z),
  release-Counts (put_fd s p fd none) x i (put_fd-IsSized s p fd none h.0 z)
      (clear-Counts s x p fd i h e c),
)

-- A slot is filled and the entry retained.
pub share_fd-Counts :
    (s : Files) (x : ℕ → ℕ) (p fd i : ℕ)
    → IsSized s
    → IsSlot s p fd
    → get_fd s p fd ≡ none
    → 0 < holds s i + x i
    → Counts s x
    → IsSized (vfs_oft_retain (put_fd s p fd (some i)) i)
      × Counts (vfs_oft_retain (put_fd s p fd (some i)) i) x
share_fd-Counts s x p fd i z h e n c = rw (retain-order s p fd i (some i)) (
  put_fd-IsSized (vfs_oft_retain s i) p fd (some i)
      (omega (arith, h.0, ap length (retain-tables s i))) (retain-IsSized s i z),
  fill-Counts (vfs_oft_retain s i) x p fd i
      (subst (λ (t : List Table). (p < length t) × (fd < length (get_or t p empty_table).fds))
        (sym (retain-tables s i)) h)
      (ap (λ (t : List Table). get_or (get_or t p empty_table).fds fd none) (retain-tables s i) ∙ e)
      (retain-Counts s x i z c n),
)

pub slot-in : (s : Files) (p fd : ℕ) → fd < length (table_at s p).fds → p < length s.tables
slot-in s p fd h = elim (dec_lt p (length s.tables)) [
  | yes l ↦ l
  | no n ↦ absurd (
      omega
        (arith, ap (λ (t : Table). length t.fds) (get_or-out s.tables p empty_table (omega arith))))
]

pub open-IsSlot : (s : Files) (p fd i : ℕ) → get_fd s p fd ≡ some i → IsSlot s p fd
open-IsSlot s p fd i e = elim (dec_lt fd (length (table_at s p).fds)) [
  | yes l ↦ (slot-in s p fd l, l)
  | no n ↦ absurd (none_some (sym (get_or-out (table_at s p).fds fd none (omega arith)) ∙ e))
]
  where
    none_some : {i : ℕ} → none ≡ some i → ⊥
    none_some e = cc

pub cloexec-Counts :
    (s : Files) (x : ℕ → ℕ) (p fd : ℕ) (b : Bool)
    → p < length s.tables
    → IsSized s
    → Counts s x
    → IsSized (put_cloexec s p fd b) × Counts (put_cloexec s p fd b) x
cloexec-Counts s x p fd b h z c = (
  record {
    entries = z.entries;
    slots = λ q l.
        ap length (table-put_cloexec s p fd q b h)
        ∙ z.slots q (
            omega (
              arith,
              l,
              length-set s.tables p
                  (record (table_at s p) { fd_cloexec = set (table_at s p).fd_cloexec fd b }),
            ));
  },
  λ j. subst (Agrees (entry_at s j)) (omega (arith, holds-put_cloexec s p fd j b h)) (c j),
)

pub dropped-length :
    (s : Files) (p fd i : ℕ) → p < length s.tables → p < length (drop_fd s p fd i).tables
unfolding drop_fd
dropped-length s p fd i h = omega (
  arith,
  h,
  ap length (release-tables s i),
  length-set (vfs_oft_release s i).tables p (record (table_at (vfs_oft_release s i) p) {
    fds = set (table_at (vfs_oft_release s i) p).fds fd none;
  }),
)

close_slot-Counts :
    (s : Files) (x : ℕ → ℕ) (p fd : ℕ) (o : Option ℕ)
    → IsSized s
    → get_fd s p fd ≡ o
    → Counts s x
    → IsSized (close_slot s p fd o).1 × Counts (close_slot s p fd o).1 x
unfolding close_slot
close_slot-Counts s x p fd none z e c = (z, c)
close_slot-Counts s x p fd (some i) z e c =
    let slot : IsSlot s p fd = open-IsSlot s p fd i e in
    let d = drop_fd-Counts s x p fd i z slot e c in
    cloexec-Counts (drop_fd s p fd i) x p fd false (dropped-length s p fd i slot.0) d.0 d.1

-- vfs_close of any number in any process keeps the number of references that each open file entry
-- counts equal to the number of descriptors of all processes that refer to it, with an entry in use
-- exactly if there is one.
pub vfs_close-IsCounted :
    (s : Files) (me : Option ℕ) (fd : ℕ) → IsCounted s → IsCounted (vfs_close s me fd).1
unfolding vfs_close
vfs_close-IsCounted s none fd v = v
vfs_close-IsCounted s (some p) fd v = elim (Bool-cases (leb 256 fd)) [
  | inl e ↦ rw e v
  | inr e ↦ rw e (
      let c = close_slot-Counts s (λ i. 0) p fd (get_fd s p fd) v.sized refl v.counts in
      record { sized = c.0; counts = c.1 })
]
