-- ===== src/Fs/Files/Dup.antt =====
-- The counts of the open files of src/fs/vfs.c when descriptors are duplicated.
use alcor2os.Base.{
  ℕ, zero, suc, ◌+◌, ◌≤◌, ◌<◌, ◌≡◌, refl, sym, ap, ◌∙◌, subst, ◌≢◌, inl, inr, false, not, ◌||◌,
  Option, none, some, List, [], ◌∷◌, arith, leb, ◌==◌, ==→ne, Bool-cases, Option-cases, length,
  get_or, set, drop, length-drop, length-set, get_or-set_self, get_or-set_ne,
}
use mathlib.Core.Option.{some-injective}
use alcor2os.Fs.Files.{
  Table, Files, empty_table, entry_at, table_at, get_fd, put_fd, put_cloexec, vfs_oft_retain,
  vfs_oft_release, drop_fd, free_fd, install_at, vfs_install_fd, close_slot, vfs_close, valid_entry,
  fd_to_oft, retain_if_ok, dup_entry, vfs_dup, make_room, dup_onto, vfs_dup2,
}
use alcor2os.Fs.Files.Counted.{holds, holds-some, IsSlot}
use alcor2os.Fs.Files.Steps.{
  IsCounted, share_fd-Counts, slot-in, open-IsSlot, release-tables, table-put_cloexec,
  vfs_close-IsCounted,
}

get_or-drop {ℓ} :
    {A : Type ℓ} (n : ℕ) (xs : List A) (k : ℕ) (d : A)
    → get_or (drop n xs) k d ≡ get_or xs (n + k) d
get_or-drop zero xs k d = ap (λ z. get_or xs z d) {x = k} {y = 0 + k} (omega arith)
get_or-drop (suc n) [] k d = refl
get_or-drop (suc n) (x ∷ xs) k d =
    get_or-drop n xs k d
    ∙ ap (λ z. get_or (x ∷ xs) z d) {x = suc (n + k)} {y = suc n + k} (omega arith)

free_fd-closed :
    (fds : List (Option ℕ)) (n fd : ℕ)
    → free_fd fds n ≡ some fd
    → (k : ℕ) × (fd ≡ n + k) × (k < length fds) × (get_or fds k none ≡ none)
unfolding free_fd
free_fd-closed [] n fd e = absurd cc
free_fd-closed (some i ∷ fds) n fd e =
    let (k, a, b, c) = free_fd-closed fds (suc n) fd e in
    (suc k, omega (arith, a), omega (arith, b), c)
free_fd-closed (none ∷ fds) n fd e = (0, omega (arith, some-injective n fd e), omega arith, refl)

-- The number that `vfs_install_fd` picks is 3 or more, and closed.
pub free-IsSlot :
    (s : Files) (p fd : ℕ)
    → free_fd (drop 3 (table_at s p).fds) 3 ≡ some fd
    → (3 ≤ fd) × IsSlot s p fd × (get_fd s p fd ≡ none)
free-IsSlot s p fd e =
    let (k, a, b, c) = free_fd-closed (drop 3 (table_at s p).fds) 3 fd e in
    let l : fd < length (table_at s p).fds =
      omega (arith, a, b, length-drop 3 (table_at s p).fds) in
    (
      omega (arith, a),
      (slot-in s p fd l, l),
      ap (λ z. get_or (table_at s p).fds z none) a
          ∙ sym (get_or-drop 3 (table_at s p).fds k none)
          ∙ c,
    )

valid_entry-same : (s : Files) (i : ℕ) (o : Option ℕ) → valid_entry s o ≡ some i → o ≡ some i
unfolding valid_entry
valid_entry-same s i none h = absurd cc
valid_entry-same s i (some j) h = elim (Bool-cases (leb 256 j || not (entry_at s j).in_use)) [
  | inl f ↦ absurd (let z : none ≡ some i = rw f at h in cc)
  | inr f ↦ rw f at h
]

pub below_256 : (n : ℕ) → leb 256 n ≡ false → n < 256
below_256 n h = ground arith

-- A descriptor that `fd_to_oft` accepts holds a reference to its entry.
pub fd_to_oft-holds :
    (s : Files) (p fd i : ℕ)
    → fd_to_oft s (some p) fd ≡ some i
    → (get_fd s p fd ≡ some i) × (fd < 256)
unfolding fd_to_oft
fd_to_oft-holds s p fd i e = elim (Bool-cases (leb 256 fd)) [
  | inl f ↦ absurd (let z : none ≡ some i = rw f at e in cc)
  | inr f ↦ (valid_entry-same s i (get_fd s p fd) (rw f at e), below_256 fd f)
]

dup_entry-IsCounted :
    (s : Files) (p i : ℕ)
    → IsCounted s
    → 0 < holds s i
    → IsCounted (dup_entry s (some p) (some i)).1
unfolding dup_entry vfs_install_fd install_at retain_if_ok
dup_entry-IsCounted s p i v h = elim (Option-cases (free_fd (drop 3 (table_at s p).fds) 3)) [
  | inl e ↦ rw e v
  | inr (fd, e) ↦ rw e (
      let slot = free-IsSlot s p fd e in
      let c = share_fd-Counts s (λ j. 0) p fd i v.sized slot.1 slot.2 (omega arith) v.counts in
      record { sized = c.0; counts = c.1 })
]

-- vfs_dup of any number in any process keeps the number of references that each open file entry
-- counts equal to the number of descriptors of all processes that refer to it, with an entry in use
-- exactly if there is one.
pub vfs_dup-IsCounted :
    (s : Files) (me : Option ℕ) (oldfd : ℕ) → IsCounted s → IsCounted (vfs_dup s me oldfd).1
unfolding vfs_dup
vfs_dup-IsCounted s none oldfd v = unfold fd_to_oft dup_entry in v
vfs_dup-IsCounted s (some p) oldfd v = elim (Option-cases (fd_to_oft s (some p) oldfd)) [
  | inl e ↦ rw e (unfold dup_entry in v)
  | inr (i, e) ↦ rw e (
      dup_entry-IsCounted s p i v (
        let g = (fd_to_oft-holds s p oldfd i e).0 in
        holds-some s p oldfd i (open-IsSlot s p oldfd i g) g))
]

pub get_fd-put_self :
    (s : Files) (p fd : ℕ) (v : Option ℕ) → IsSlot s p fd → get_fd (put_fd s p fd v) p fd ≡ v
get_fd-put_self s p fd v h =
    rw
      (get_or-set_self s.tables p (record (table_at s p) { fds = set (table_at s p).fds fd v })
        empty_table h.0)
      (get_or-set_self (table_at s p).fds fd v none h.1)

-- A slot is still one when it is filled.
pub filled-IsSlot :
    (s : Files) (p fd : ℕ) (v : Option ℕ) → IsSlot s p fd → IsSlot (put_fd s p fd v) p fd
filled-IsSlot s p fd v h =
    let t : Table = record (table_at s p) { fds = set (table_at s p).fds fd v } in
    (
      omega (arith, h.0, length-set s.tables p t),
      rw (get_or-set_self s.tables p t empty_table h.0)
          (omega (arith, h.1, length-set (table_at s p).fds fd v)),
    )

pub get_fd-put_ne :
    (s : Files) (p fd other : ℕ) (v : Option ℕ)
    → p < length s.tables
    → fd ≢ other
    → get_fd (put_fd s p fd v) p other ≡ get_fd s p other
get_fd-put_ne s p fd other v h n =
    rw
      (get_or-set_self s.tables p (record (table_at s p) { fds = set (table_at s p).fds fd v })
        empty_table h)
      (get_or-set_ne (table_at s p).fds fd other v none n)

abbrev slot_of : List Table → ℕ → ℕ → Option ℕ
slot_of t p fd = get_or (get_or t p empty_table).fds fd none

-- What closing one slot leaves of the process's slots.
pub closed_slot :
    (s : Files) (p fd k : ℕ)
    → IsSlot s p fd
    → let t = put_cloexec (drop_fd s p fd k) p fd false in
      (get_fd t p fd ≡ none) × ((other : ℕ) → fd ≢ other → get_fd t p other ≡ get_fd s p other)
unfolding drop_fd
closed_slot s p fd k h =
    let r : Files = vfs_oft_release s k in
    let slot : IsSlot r p fd =
      subst (λ (t : List Table). (p < length t) × (fd < length (get_or t p empty_table).fds))
        (sym (release-tables s k)) h in
    let inside : p < length (put_fd r p fd none).tables = omega (
      arith,
      slot.0,
      length-set r.tables p (record (table_at r p) { fds = set (table_at r p).fds fd none }),
    ) in
    let same : (n : ℕ)
        → get_fd (put_cloexec (put_fd r p fd none) p fd false) p n
          ≡ get_fd (put_fd r p fd none) p n =
      λ n.
        ap (λ (fds : List (Option ℕ)). get_or fds n none)
          (table-put_cloexec (put_fd r p fd none) p fd p false inside) in
    (
      same fd ∙ get_fd-put_self r p fd none slot,
      λ other n.
          same other
          ∙ get_fd-put_ne r p fd other none slot.0 n
          ∙ ap (λ t. slot_of t p other) (release-tables s k),
    )

-- The descriptors before `vfs_dup2` fills the new slot.
record Ready (s : Files) (p oldfd newfd i : ℕ) : Type 0 where
  counted : IsCounted s
  old : get_fd s p oldfd ≡ some i
  new : get_fd s p newfd ≡ none

Ready-share :
    (s : Files) (p oldfd newfd i : ℕ)
    → newfd < 256
    → Ready s p oldfd newfd i
    → IsCounted (vfs_oft_retain (put_fd s p newfd (some i)) i)
Ready-share s p oldfd newfd i l r =
    let slot : IsSlot s p oldfd = open-IsSlot s p oldfd i r.old in
    let fits : IsSlot s p newfd = (slot.0, omega (arith, l, r.counted.sized.slots p slot.0)) in
    let c =
      share_fd-Counts s (λ j. 0) p newfd i r.counted.sized fits r.new
        (omega (arith, holds-some s p oldfd i slot r.old)) r.counted.counts in
    record { sized = c.0; counts = c.1 }

close-Ready :
    (s : Files) (p oldfd newfd i k : ℕ)
    → IsCounted s
    → oldfd ≢ newfd
    → newfd < 256
    → get_fd s p oldfd ≡ some i
    → get_fd s p newfd ≡ some k
    → Ready (vfs_close s (some p) newfd).1 p oldfd newfd i
unfolding vfs_close close_slot
close-Ready s p oldfd newfd i k v n l old new =
    let slot : IsSlot s p newfd = open-IsSlot s p newfd k new in
    let c = closed_slot s p newfd k slot in
    let whole : IsCounted (vfs_close s (some p) newfd).1 = vfs_close-IsCounted s (some p) newfd v in
    let t : leb 256 newfd ≡ false = leb_below newfd l in
    record {
      counted = whole;
      old = rw (t, new) (c.1 oldfd (λ e. n (sym e)) ∙ old);
      new = rw (t, new) c.0;
    }
  where
    leb_below : (a : ℕ) → a < 256 → leb 256 a ≡ false
    leb_below a h = ground arith

make_room-Ready :
    (s : Files) (p oldfd newfd i : ℕ)
    → IsCounted s
    → oldfd ≢ newfd
    → newfd < 256
    → get_fd s p oldfd ≡ some i
    → Ready (make_room s p newfd) p oldfd newfd i
unfolding make_room
make_room-Ready s p oldfd newfd i v n l old = elim (Option-cases (get_fd s p newfd)) [
  | inl o ↦ rw o (record { counted = v; old = old; new = o })
  | inr (k, o) ↦ rw o (close-Ready s p oldfd newfd i k v n l old o)
]

dup_onto-IsCounted :
    (s : Files) (p oldfd newfd i : ℕ)
    → IsCounted s
    → oldfd ≢ newfd
    → get_fd s p oldfd ≡ some i
    → IsCounted (dup_onto s (some p) newfd (some i)).1
unfolding dup_onto
dup_onto-IsCounted s p oldfd newfd i v n old = elim (Bool-cases (leb 256 newfd)) [
  | inl e ↦ rw e v
  | inr e ↦ rw e (
      Ready-share (make_room s p newfd) p oldfd newfd i (below_256 newfd e)
        (make_room-Ready s p oldfd newfd i v n (below_256 newfd e) old))
]

-- vfs_dup2 of any numbers in any process keeps the number of references that each open file entry
-- counts equal to the number of descriptors of all processes that refer to it, with an entry in use
-- exactly if there is one, also where the new number is open and refers to the same entry.
pub vfs_dup2-IsCounted :
    (s : Files) (me : Option ℕ) (oldfd newfd : ℕ)
    → IsCounted s
    → IsCounted (vfs_dup2 s me oldfd newfd).1
unfolding vfs_dup2
vfs_dup2-IsCounted s me oldfd newfd v = elim (Bool-cases (oldfd == newfd)) [
  | inl e ↦ rw e v
  | inr e ↦ rw e (onto me (==→ne oldfd newfd e))
]
  where
    onto :
        (me : Option ℕ) → oldfd ≢ newfd → IsCounted (dup_onto s me newfd (fd_to_oft s me oldfd)).1
    onto none n = unfold fd_to_oft dup_onto in v
    onto (some p) n = elim (Option-cases (fd_to_oft s (some p) oldfd)) [
      | inl o ↦ rw o (unfold dup_onto in v)
      | inr (i, o) ↦
          rw o (dup_onto-IsCounted s p oldfd newfd i v n (fd_to_oft-holds s p oldfd i o).0)
    ]
