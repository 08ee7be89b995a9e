-- ===== src/Fs/Files/Owners.antt =====
-- The counts of the open files of src/fs/vfs.c at fork, exec and exit.
use alcor2os.Base.{
  ℕ, zero, suc, ◌+◌, ◌≤◌, ◌<◌, ◌≡◌, refl, ap, ◌∙◌, subst, ◌≢◌, inl, inr, Bool, true, false, ◌&&◌,
  Option, none, some, List, arith, ltb, Bool-cases, length, get_or, set, length-set,
}
use alcor2os.Fs.Files.{
  Table, Files, empty_table, entry_at, table_at, get_fd, put_fd, put_cloexec, vfs_oft_retain,
  drop_fd,
}
use alcor2os.Fs.Files.Counted.{holds-some, holds-put_fd, IsSlot, Agrees, refers}
use alcor2os.Fs.Files.Steps.{
  IsCounted, share_fd-Counts, drop_fd-Counts, put_fd-IsSized, open-IsSlot, retain-tables,
  table-put_cloexec, cloexec-Counts, dropped-length,
}
use alcor2os.Fs.Files.Dup.{get_fd-put_ne}
use alcor2os.Fs.Files.Lifetime.{
  get_cloexec, retain_slot, inherit_slot, inherit_from, vfs_proc_inherit_fds, release_slot,
  release_from, vfs_proc_release_fds, exec_slot, exec_from, vfs_proc_close_cloexec_fds,
}

release_slot-IsCounted :
    (s : Files) (p fd : ℕ) (o : Option ℕ)
    → get_fd s p fd ≡ o
    → IsCounted s
    → IsCounted (release_slot s p fd o)
unfolding release_slot
release_slot-IsCounted s p fd none e v = v
release_slot-IsCounted s p fd (some i) e v =
    let c = drop_fd-Counts s (λ j. 0) p fd i v.sized (open-IsSlot s p fd i e) e v.counts in
    record { sized = c.0; counts = c.1 }

release_from-IsCounted :
    (n : ℕ) (s : Files) (p fd : ℕ) → IsCounted s → IsCounted (release_from n s p fd)
unfolding release_from
release_from-IsCounted zero s p fd v = v
release_from-IsCounted (suc n) s p fd v =
    release_from-IsCounted n (release_slot s p fd (get_fd s p fd)) p (suc fd)
      (release_slot-IsCounted s p fd (get_fd s p fd) refl v)

-- The release of a process's descriptors at its exit keeps the number of references that each open
-- file entry counts equal to the number of descriptors of all processes that refer to it, with an
-- entry in use exactly if there is one.
pub vfs_proc_release_fds-IsCounted :
    (s : Files) (p : ℕ) → IsCounted s → IsCounted (vfs_proc_release_fds s p)
unfolding vfs_proc_release_fds
vfs_proc_release_fds-IsCounted s p v = release_from-IsCounted 256 s p 0 v

exec_slot-IsCounted :
    (s : Files) (p fd : ℕ) (b : Bool) (o : Option ℕ)
    → get_fd s p fd ≡ o
    → IsCounted s
    → IsCounted (exec_slot s p fd b o)
unfolding exec_slot
exec_slot-IsCounted s p fd b none e v = v
exec_slot-IsCounted s p fd false (some i) e v = v
exec_slot-IsCounted s p fd true (some i) e v =
    let slot : IsSlot s p fd = open-IsSlot s p fd i e in
    let c = drop_fd-Counts s (λ j. 0) p fd i v.sized slot e v.counts in
    let d =
      cloexec-Counts (drop_fd s p fd i) (λ j. 0) p fd false (dropped-length s p fd i slot.0) c.0
        c.1 in
    record { sized = d.0; counts = d.1 }

exec_from-IsCounted : (n : ℕ) (s : Files) (p fd : ℕ) → IsCounted s → IsCounted (exec_from n s p fd)
unfolding exec_from
exec_from-IsCounted zero s p fd v = v
exec_from-IsCounted (suc n) s p fd v =
    exec_from-IsCounted n (exec_slot s p fd (get_cloexec s p fd) (get_fd s p fd)) p (suc fd)
      (exec_slot-IsCounted s p fd (get_cloexec s p fd) (get_fd s p fd) refl v)

-- The closing at exec of the descriptors marked so keeps the number of references that each open
-- file entry counts equal to the number of descriptors of all processes that refer to it, with an
-- entry in use exactly if there is one.
pub vfs_proc_close_cloexec_fds-IsCounted :
    (s : Files) (me : Option ℕ) → IsCounted s → IsCounted (vfs_proc_close_cloexec_fds s me)
unfolding vfs_proc_close_cloexec_fds
vfs_proc_close_cloexec_fds-IsCounted s none v = v
vfs_proc_close_cloexec_fds-IsCounted s (some p) v = exec_from-IsCounted 256 s p 0 v

-- A closed slot set to closed again changes no count.
none_fd-Counts :
    (s : Files) (p fd : ℕ)
    → IsSlot s p fd
    → get_fd s p fd ≡ none
    → IsCounted s
    → IsCounted (put_fd s p fd none)
none_fd-Counts s p fd h e v = record {
  sized = put_fd-IsSized s p fd none h.0 v.sized;
  counts = λ j.
      subst (Agrees (entry_at s j)) (omega (arith, holds-put_fd s p fd j none h, ap (refers j) e))
        (v.counts j);
}

-- The flag and the entry are apart.
flag-order :
    (s : Files) (p fd i : ℕ) (b : Bool)
    → vfs_oft_retain (put_cloexec s p fd b) i ≡ put_cloexec (vfs_oft_retain s i) p fd b
unfolding vfs_oft_retain
flag-order s p fd i b = elim (Bool-cases (ltb i 256 && (entry_at s i).in_use)) [
  | inl e ↦ rw e refl
  | inr e ↦ rw e refl
]

put_fd-length :
    (s : Files) (p fd : ℕ) (v : Option ℕ) → length (put_fd s p fd v).tables ≡ length s.tables
put_fd-length s p fd v =
    length-set s.tables p (record (table_at s p) { fds = set (table_at s p).fds fd v })

inherit_slot-IsCounted :
    (s : Files) (parent child fd : ℕ) (v : Option ℕ) (b : Bool)
    → IsSlot s child fd
    → get_fd s child fd ≡ none
    → get_fd s parent fd ≡ v
    → IsCounted s
    → IsCounted (inherit_slot s parent child fd v b)
unfolding inherit_slot retain_slot
inherit_slot-IsCounted s parent child fd none b h e g v =
    let w : IsCounted (put_fd s child fd none) = none_fd-Counts s child fd h e v in
    let c =
      cloexec-Counts (put_fd s child fd none) (λ j. 0) child fd b
        (omega (arith, h.0, put_fd-length s child fd none)) w.sized w.counts in
    record { sized = c.0; counts = c.1 }
inherit_slot-IsCounted s parent child fd (some i) b h e g v =
    let c =
      share_fd-Counts s (λ j. 0) child fd i v.sized h e
        (omega (arith, holds-some s parent fd i (open-IsSlot s parent fd i g) g)) v.counts in
    let l : child < length (vfs_oft_retain (put_fd s child fd (some i)) i).tables = omega (
      arith,
      h.0,
      put_fd-length s child fd (some i),
      ap length (retain-tables (put_fd s child fd (some i)) i),
    ) in
    let d =
      cloexec-Counts (vfs_oft_retain (put_fd s child fd (some i)) i) (λ j. 0) child fd b l c.0
        c.1 in
    rw (flag-order (put_fd s child fd (some i)) child fd i b) (record { sized = d.0; counts = d.1 })

retain_slot-tables : (s : Files) (v : Option ℕ) → (retain_slot s v).tables ≡ s.tables
unfolding retain_slot
retain_slot-tables s none = refl
retain_slot-tables s (some i) = retain-tables s i

-- A round of the loop of fork leaves the child's other slots alone.
inherit_slot-other :
    (s : Files) (parent child fd other : ℕ) (v : Option ℕ) (b : Bool)
    → child < length s.tables
    → fd ≢ other
    → get_fd (inherit_slot s parent child fd v b) child other ≡ get_fd s child other
unfolding inherit_slot
inherit_slot-other s parent child fd other v b h n =
    ap (λ (t : List Table). get_or (get_or t child empty_table).fds other none)
      (retain_slot-tables (put_cloexec (put_fd s child fd v) child fd b) v)
    ∙ ap (λ (fds : List (Option ℕ)). get_or fds other none)
        (table-put_cloexec (put_fd s child fd v) child fd child b
          (omega (arith, h, put_fd-length s child fd v)))
    ∙ get_fd-put_ne s child fd other v h n

inherit_slot-length :
    (s : Files) (parent child fd : ℕ) (v : Option ℕ) (b : Bool)
    → length (inherit_slot s parent child fd v b).tables ≡ length s.tables
unfolding inherit_slot
inherit_slot-length s parent child fd v b =
    ap length (retain_slot-tables (put_cloexec (put_fd s child fd v) child fd b) v)
    ∙ length-set (put_fd s child fd v).tables child (record (table_at (put_fd s child fd v) child) {
      fd_cloexec = set (table_at (put_fd s child fd v) child).fd_cloexec fd b;
    })
    ∙ put_fd-length s child fd v

inherit_from-IsCounted :
    (n : ℕ) (s : Files) (parent child fd : ℕ)
    → child < length s.tables
    → fd + n ≡ 256
    → ((j : ℕ) → fd ≤ j → get_fd s child j ≡ none)
    → IsCounted s
    → IsCounted (inherit_from n s parent child fd)
unfolding inherit_from
inherit_from-IsCounted zero s parent child fd h e free v = v
inherit_from-IsCounted (suc n) s parent child fd h e free v =
    let o : Option ℕ = get_fd s parent fd in
    let b : Bool = get_cloexec s parent fd in
    let slot : IsSlot s child fd = (h, omega (arith, v.sized.slots child h)) in
    inherit_from-IsCounted n (inherit_slot s parent child fd o b) parent child (suc fd)
      (omega (arith, h, inherit_slot-length s parent child fd o b)) (omega arith)
      (λ j l.
        inherit_slot-other s parent child fd j o b h (λ z. omega arith) ∙ free j (omega arith))
      (inherit_slot-IsCounted s parent child fd o b slot (free fd (omega arith)) refl v)

-- The copy of a parent's descriptors at fork into a table of which all slots are closed keeps the
-- number of references that each open file entry counts equal to the number of descriptors of all
-- processes that refer to it, with an entry in use exactly if there is one.
pub vfs_proc_inherit_fds-IsCounted :
    (s : Files) (parent child : ℕ)
    → child < length s.tables
    → ((j : ℕ) → get_fd s child j ≡ none)
    → IsCounted s
    → IsCounted (vfs_proc_inherit_fds s parent child)
unfolding vfs_proc_inherit_fds
vfs_proc_inherit_fds-IsCounted s parent child h free v =
    inherit_from-IsCounted 256 s parent child 0 h (omega arith) (λ j l. free j) v
