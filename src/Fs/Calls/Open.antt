-- ===== src/Fs/Calls/Open.antt =====
-- The counts of the open files on each path of `vfs_open` in src/fs/vfs.c.
use alcor2os.Base.{
  ℕ, suc, ◌+◌, ◌<◌, ◌≡◌, refl, ◌∙◌, subst, inl, inr, Bool, true, false, not, Option, none, some,
  List, [], ◌∷◌, arith, ◌==◌, Bool-cases, Option-cases, length, get_or, set, drop, length-set, bit,
}
use alcor2os.Base.Word.{test_bit}
use alcor2os.Base.Errno.{enfile, ok, err}
use alcor2os.Fs.Files.{
  Entry, Files, FsOps, file, zero_entry, entry_at, put_entry, table_at, put_fd, one_later,
  free_entry, oft_alloc, free_fd, install_at, vfs_install_fd,
}
use alcor2os.Fs.Files.Counted.{
  holds, IsSized, Agrees, Counts, more, Agrees-put, bit_ne, bit_eq, release-Counts,
}
use alcor2os.Fs.Files.Steps.{
  IsCounted, fill-Counts, put_fd-IsSized, release-IsSized, cloexec-Counts,
}
use alcor2os.Fs.Files.Dup.{free-IsSlot}
use alcor2os.Fs.Paths.{Mount}
use alcor2os.Fs.Calls.{
  Driver, resolve, finish_open, describe, open_handle, open_at, vfs_open, o_cloexec,
}

pub free_entry-unused :
    (es : List Entry) (i : ℕ)
    → free_entry es ≡ some i
    → (i < length es) × ((get_or es i zero_entry).in_use ≡ false)
unfolding free_entry
free_entry-unused [] i h = absurd cc
free_entry-unused (e ∷ es) i h = elim (Bool-cases (not e.in_use)) [
  | inl u ↦ first (some_inj (rw u at h)) u
  | inr u ↦ later (free_entry es) (λ k x. free_entry-unused es k x) (rw u at h)
]
  where
    some_inj : some 0 ≡ some i → 0 ≡ i
    some_inj e = cc

    first :
        0 ≡ i
        → not e.in_use ≡ true
        → (i < length (e ∷ es)) × ((get_or (e ∷ es) i zero_entry).in_use ≡ false)
    first z u =
        subst (λ k. (k < length (e ∷ es)) × ((get_or (e ∷ es) k zero_entry).in_use ≡ false)) z
          (omega arith, not_true e.in_use u)
      where
        not_true : (b : Bool) → not b ≡ true → b ≡ false
        not_true true h = absurd cc
        not_true false h = refl

    later :
        (o : Option ℕ)
        → ((k : ℕ) → o ≡ some k → (k < length es) × ((get_or es k zero_entry).in_use ≡ false))
        → one_later o ≡ some i
        → (i < length (e ∷ es)) × ((get_or (e ∷ es) i zero_entry).in_use ≡ false)
    later none ih b = absurd cc
    later (some k) ih b =
        let n : suc k ≡ i = cc in
        subst (λ j. (j < length (e ∷ es)) × ((get_or (e ∷ es) j zero_entry).in_use ≡ false)) n
          (omega (arith, (ih k refl).0), (ih k refl).1)

-- A new entry counts one reference that no descriptor holds yet.
pub alloc-Counts :
    (s : Files) (x : ℕ → ℕ) (i : ℕ)
    → IsSized s
    → Counts s x
    → free_entry s.oft ≡ some i
    → let t = put_entry s i (record zero_entry { in_use = true; refcount = 1 }) in
      IsSized t × Counts t (more x i)
unfolding holds
alloc-Counts s x i z c e =
    let f = free_entry-unused s.oft i e in
    let none_held : holds s i + x i ≡ 0 = unused (c i) f.1 in
    (
      record { entries = length-set s.oft i _ ∙ z.entries; slots = z.slots },
      λ j.
          Agrees-put s i j (holds s j + x j) (holds s j + more x i j)
            (record zero_entry { in_use = true; refcount = 1 }) f.0
            (λ w. inl (
              refl,
              subst (λ k. 1 ≡ holds s k + (x k + bit (i == k))) w
                  (omega (arith, none_held, bit_eq i i refl)),
              omega (arith, bit_eq i j w),
            ))
            (λ n. omega (arith, bit_ne i j n)) (c j),
    )
  where
    unused : {n : ℕ} → Agrees (entry_at s i) n → (entry_at s i).in_use ≡ false → n ≡ 0
    unused (inl a) u = absurd (clash (entry_at s i).in_use a.0 u)
      where
        clash : (b : Bool) → b ≡ true → b ≡ false → ⊥
        clash true h k = cc
        clash false h k = cc
    unused (inr b) u = b.1

-- What the entry stands for has no part in the counts.
describe-Counts :
    (s : Files) (x : ℕ → ℕ) (i fh flags : ℕ) (ops : FsOps)
    → i < length s.oft
    → IsSized s
    → Counts s x
    → IsSized (describe s i fh ops flags) × Counts (describe s i fh ops flags) x
unfolding holds
describe-Counts s x i fh flags ops h z c = (
  record { entries = length-set s.oft i _ ∙ z.entries; slots = z.slots },
  λ j.
      Agrees-put s i j (holds s j + x j) (holds s j + x j)
        (record (entry_at s i) {
          handle = fh;
          ops = some ops;
          flags = flags;
          kind = file;
          offset = 0;
        })
        h (λ w. subst (λ k. Agrees (entry_at s i) (holds s k + x k)) w (c i)) (λ n. refl) (c j),
)

finish-IsCounted :
    (s : Files) (me : Option ℕ) (i flags : ℕ)
    → IsSized s
    → Counts s (more (λ j. 0) i)
    → IsCounted (finish_open me i flags (vfs_install_fd s me i)).1
unfolding finish_open vfs_install_fd install_at
finish-IsCounted s none i flags z c = record {
  sized = release-IsSized s i z;
  counts = release-Counts s (λ j. 0) i z c;
}
finish-IsCounted s (some p) i flags z c =
    elim (Option-cases (free_fd (drop 3 (table_at s p).fds) 3)) [
      | inl e ↦
          rw e (record { sized = release-IsSized s i z; counts = release-Counts s (λ j. 0) i z c })
      | inr (fd, e) ↦ rw e (
          let slot = free-IsSlot s p fd e in
          let filled : Counts (put_fd s p fd (some i)) (λ j. 0) =
            fill-Counts s (λ j. 0) p fd i slot.1 slot.2 c in
          let sized : IsSized (put_fd s p fd (some i)) =
            put_fd-IsSized s p fd (some i) slot.1.0 z in
          let inside : p < length (put_fd s p fd (some i)).tables = omega (
            arith,
            slot.1.0,
            length-set s.tables p
                (record (table_at s p) { fds = set (table_at s p).fds fd (some i) }),
          ) in
          let d =
            cloexec-Counts (put_fd s p fd (some i)) (λ j. 0) p fd (test_bit flags o_cloexec) inside
              sized filled in
          record { sized = d.0; counts = d.1 })
    ]

pub alloc_none : (s : Files) → free_entry s.oft ≡ none → oft_alloc s ≡ (err enfile, s)
unfolding oft_alloc
alloc_none s e = rw (e, oft_alloc) refl

pub alloc_some :
    (s : Files) (i : ℕ)
    → free_entry s.oft ≡ some i
    → oft_alloc s ≡ (ok i, put_entry s i (record zero_entry { in_use = true; refcount = 1 }))
unfolding oft_alloc
alloc_some s i e = rw (e, oft_alloc) refl

open_handle-IsCounted :
    (s : Files) (me : Option ℕ) (fh flags : ℕ) (ops : FsOps)
    → IsCounted s
    → IsCounted (open_handle me fh ops flags (oft_alloc s)).1
unfolding open_handle holds
open_handle-IsCounted s me fh flags ops v = elim (Option-cases (free_entry s.oft)) [
  | inl e ↦ rw (alloc_none s e) (record {
    sized = record { entries = v.sized.entries; slots = v.sized.slots };
    counts = v.counts;
  })
  | inr (i, e) ↦ rw (alloc_some s i e) (
      let a = alloc-Counts s (λ j. 0) i v.sized v.counts e in
      let t : Files = put_entry s i (record zero_entry { in_use = true; refcount = 1 }) in
      let l : i < length t.oft = omega (
        arith,
        (free_entry-unused s.oft i e).0,
        length-set s.oft i (record zero_entry { in_use = true; refcount = 1 }),
      ) in
      let b = describe-Counts t (more (λ j. 0) i) i fh flags ops l a.0 a.1 in
      finish-IsCounted (describe t i fh ops flags) me i flags b.0 b.1)
]

open_at-IsCounted :
    {D : Type 0} (drv : Driver D) (s : Files) (d : D) (me : Option ℕ) (flags : ℕ)
    (o : Option (ℕ × List ℕ))
    → IsCounted s
    → IsCounted (open_at drv s d me flags o).1
unfolding open_at
open_at-IsCounted drv s d me flags none v = v
open_at-IsCounted drv s d me flags (some (volume, rel)) v =
    elim (Bool-cases ((drv.open_file d volume rel flags).0 == 0)) [
      | inl e ↦ rw e v
      | inr e ↦ rw e (
          open_handle-IsCounted s me (drv.open_file d volume rel flags).0 flags (drv.ops_of volume)
            v)
    ]

-- vfs_open of any path in any process, whatever the driver answers and on each of its error paths,
-- keeps the number of references that each open file entry counts equal to the number of
-- descriptors of all processes that refer to it, with an entry in use exactly if there is one.
pub vfs_open-IsCounted :
    {D : Type 0} (drv : Driver D) (ms : List Mount) (s : Files) (d : D) (me : Option ℕ)
    (cwd : Option (List ℕ)) (path : List ℕ) (flags : ℕ)
    → IsCounted s
    → IsCounted (vfs_open drv ms s d me cwd path flags).1
unfolding vfs_open
vfs_open-IsCounted drv ms s d me cwd path flags v =
    open_at-IsCounted drv s d me flags (resolve ms path cwd) v
