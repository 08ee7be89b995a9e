-- ===== src/Fs/Calls.antt =====
-- src/fs/vfs.c, the calls that reach a driver. A driver is the record `Driver` of its callbacks on a state
-- `D` of its own, each with the number of its volume; a handle or a result 0 is NULL, and a negative
-- result is an error. A close is recorded with the closes of the open files.
pub mod Open
pub mod Registry
mod Tests
use alcor2os.Base.{
  ℕ, zero, suc, ◌+◌, ◌-◌, ◌*◌, ◌/◌, ◌%◌, ◌^◌, ◌≤◌, ◌<◌, min, max, ◌≡◌, refl, sym, ap, ◌∙◌, subst,
  ◌≢◌, ◌↔◌, ◌⊎◌, inl, inr, Bool, true, false, not, ◌&&◌, ◌||◌, Option, none, some, List, [], ◌∷◌,
  ◌++◌, map, arith, ltb, leb, ◌==◌, if◌then◌else◌, ltb→lt, lt→ltb, leb→le, le→ltb, ==_iff, eq→==,
  ne→==, ==→ne, ltb→le, tests, Bool-cases, Option-cases, length, get_elem?, get_or, set, take, drop,
  replicate, length-append, take-append-drop, length-take, length-drop, length-replicate,
  length-set, get_or-set_self, get_or-set_ne, get_or-out, set-out, get_or-replicate, bit,
  count_below, count_below-le, count_below-eq, count_below-change, count_below-pos,
  count_below-zero, take-append_left, take_all, take-drop, drop-drop, get_or-replicate_lt,
}
use native.Mathlib.Decide.{ℕ_discrete, dec_lt}
use alcor2os.Base.Word.{add64, test_bit}
use alcor2os.Base.Errno.{
  Errno, enoent, einval, ebadf, enfile, emfile, espipe, enodev, enotdir, enomem, Result, ok, err,
}
use alcor2os.Kstdlib.{kstrncpy}
use alcor2os.Fs.Files.{
  Entry, Files, FsOps, Kind, file, pipe_rd, pipe_wr, Closed, closes_file, zero_entry, entry_at,
  put_entry, put_cloexec, oft_alloc, vfs_install_fd, vfs_oft_release, fd_to_oft,
}
use alcor2os.Fs.Paths.{Mount, vfs_make_absolute, vfs_find_mount, vfs_normalize, vfs_path_max}

-- `vfs_stat_t`: the size, and whether it is a directory.
pub record Stat : Type 0 where
  pub size : ℕ
  pub is_directory : Bool

pub record Driver (D : Type 0) : Type 0 where
  pub ops_of : ℕ → FsOps
  pub open_file : D → ℕ → List ℕ → ℕ → ℕ × D
  pub read_file : D → ℕ → ℕ → ℕ → Result (List ℕ) × D
  pub write_file : D → ℕ → List ℕ → ℕ → Result ℕ × D
  pub stat_path : D → ℕ → List ℕ → Result Stat
  pub fstat_file : D → ℕ → Result Stat
  pub make_directory : D → ℕ → List ℕ → Result ℕ × D
  pub unlink_file : D → ℕ → List ℕ → Result ℕ × D
  pub remove_directory : D → ℕ → List ℕ → Result ℕ × D
  pub truncate_file : D → ℕ → ℕ → Result ℕ × D

abbrev pub no_mount : Mount
no_mount = record { target = []; volume = 0; active = false }

-- O_APPEND and O_CLOEXEC as bits of the flags.
abbrev pub o_append : ℕ
o_append = 10

abbrev pub o_cloexec : ℕ
o_cloexec = 19

-- The volume and the driver's path for an absolute path.
abbrev pub resolved : List Mount → Option ℕ × List ℕ → Option (ℕ × List ℕ)
resolved ms (none, rel) = none
resolved ms (some k, rel) = some ((get_or ms k no_mount).volume, rel)

unfoldable pub resolve : List Mount → List ℕ → Option (List ℕ) → Option (ℕ × List ℕ)
resolve ms path cwd = resolved ms (vfs_find_mount ms (vfs_make_absolute path cwd))

-- The descriptor is installed: `vfs_open` from `vfs_install_fd` on.
unfoldable pub finish_open : Option ℕ → ℕ → ℕ → Result ℕ × Files → Result ℕ × Files
finish_open me i flags (err e, s) = (err e, vfs_oft_release s i)
finish_open none i flags (ok fd, s) = (ok fd, s)
finish_open (some p) i flags (ok fd, s) = (ok fd, put_cloexec s p fd (test_bit flags o_cloexec))

-- What `vfs_open` stores in the new entry.
abbrev pub describe : Files → ℕ → ℕ → FsOps → ℕ → Files
describe s i fh ops flags =
    put_entry s i (record (entry_at s i) {
      handle = fh;
      ops = some ops;
      flags = flags;
      kind = file;
      offset = 0;
    })

unfoldable pub open_handle : Option ℕ → ℕ → FsOps → ℕ → Result ℕ × Files → Result ℕ × Files
open_handle me fh ops flags (err e, s) =
    (err e, record s { closed = s.closed ++ closes_file fh ∷ [] })
open_handle me fh ops flags (ok i, s) =
    finish_open me i flags (vfs_install_fd (describe s i fh ops flags) me i)

module _ {D : Type 0} (drv : Driver D) where
  unfoldable pub open_at : Files → D → Option ℕ → ℕ → Option (ℕ × List ℕ) → Result ℕ × Files × D
  open_at s d me flags none = (err enoent, s, d)
  open_at s d me flags (some (volume, rel)) =
      let (fh, d1) = drv.open_file d volume rel flags in
      if fh == 0
      then (err enoent, s, d1)
      else (let r = open_handle me fh (drv.ops_of volume) flags (oft_alloc s) in (r.0, r.1, d1))

  unfoldable pub vfs_open :
      List Mount → Files → D → Option ℕ → Option (List ℕ) → List ℕ → ℕ → Result ℕ × Files × D
  vfs_open ms s d me cwd path flags = open_at s d me flags (resolve ms path cwd)

  abbrev pub advance : Files → ℕ → ℕ → Files
  advance s i n = put_entry s i (record (entry_at s i) { offset = add64 (entry_at s i).offset n })

  -- A call on an open file: its result, or the pipe that takes the call over.
  pub data Io : Type 0 where
    done : Result (List ℕ) → Files → D → Io
    wrote : Result ℕ → Files → D → Io
    to_pipe : ℕ → Io

  -- The offset moves by what was read, if anything.
  unfoldable pub after_read : Files → ℕ → Result (List ℕ) × D → Io
  after_read s i (ok bytes, d) = done (ok bytes) (advance s i (length bytes)) d
  after_read s i (err e, d) = done (err e) s d

  unfoldable pub read_entry : Files → D → ℕ → ℕ → Kind → Io
  read_entry s d i count pipe_rd = to_pipe (entry_at s i).pipe
  read_entry s d i count pipe_wr = done (err ebadf) s d
  read_entry s d i count file =
      after_read s i (drv.read_file d (entry_at s i).handle count (entry_at s i).offset)

  unfoldable pub vfs_read : Files → D → Option ℕ → ℕ → ℕ → Io
  vfs_read s d me fd count = elim (fd_to_oft s me fd) [
    | none ↦ done (err ebadf) s d
    | some i ↦ read_entry s d i count (entry_at s i).kind
  ]

  -- With O_APPEND the offset is set to the size first, unless that cannot be had.
  unfoldable pub to_end : Files → D → ℕ → Files
  to_end s d i =
      if test_bit (entry_at s i).flags o_append
      then elim (drv.fstat_file d (entry_at s i).handle) [
        | ok st ↦ put_entry s i (record (entry_at s i) { offset = st.size })
        | err e ↦ s
      ]
      else s

  unfoldable pub after_write : Files → ℕ → Result ℕ × D → Io
  after_write s i (ok n, d) = wrote (ok n) (advance s i n) d
  after_write s i (err e, d) = wrote (err e) s d

  unfoldable pub write_entry : Files → D → ℕ → List ℕ → Kind → Io
  write_entry s d i src pipe_wr = to_pipe (entry_at s i).pipe
  write_entry s d i src pipe_rd = wrote (err ebadf) s d
  write_entry s d i src file =
      let s1 = to_end s d i in
      after_write s1 i (drv.write_file d (entry_at s1 i).handle src (entry_at s1 i).offset)

  unfoldable pub vfs_write : Files → D → Option ℕ → ℕ → List ℕ → Io
  vfs_write s d me fd src = elim (fd_to_oft s me fd) [
    | none ↦ wrote (err ebadf) s d
    | some i ↦ write_entry s d i src (entry_at s i).kind
  ]

  -- SEEK_SET, SEEK_CUR, SEEK_END and the base that each gives.
  unfoldable pub seek_base : Files → D → ℕ → ℕ → Option ℕ
  seek_base s d i whence =
      if whence == 0
      then some 0
      else if whence == 1
      then some (entry_at s i).offset
      else if whence == 2
      then elim (drv.fstat_file d (entry_at s i).handle) [ ok st ↦ some st.size | err e ↦ none ]
      else none

  -- The new offset is a 64-bit word, refused when its sign bit is set.
  unfoldable pub seek_to : Files → ℕ → ℕ → Option ℕ → Result ℕ × Files
  seek_to s i offset none = (err einval, s)
  seek_to s i offset (some base) =
      let target = add64 base offset in
      if leb (2 ^ 63) target
      then (err einval, s)
      else (ok target, put_entry s i (record (entry_at s i) { offset = target }))

  unfoldable pub vfs_seek : Files → D → Option ℕ → ℕ → ℕ → ℕ → Result ℕ × Files
  vfs_seek s d me fd offset whence = elim (fd_to_oft s me fd) [
    | none ↦ (err ebadf, s)
    | some i ↦
        if not ((entry_at s i).pipe == 0)
        then (err espipe, s)
        else seek_to s i offset (seek_base s d i whence)
  ]

  unfoldable pub vfs_stat : List Mount → D → Option (List ℕ) → List ℕ → Result Stat
  vfs_stat ms d cwd path = elim (resolve ms path cwd) [
    | none ↦ err enoent
    | some (volume, rel) ↦ drv.stat_path d volume rel
  ]

  unfoldable pub vfs_mkdir : List Mount → D → Option (List ℕ) → List ℕ → Result ℕ × D
  vfs_mkdir ms d cwd path = elim (resolve ms path cwd) [
    | none ↦ (err enoent, d)
    | some (volume, rel) ↦ drv.make_directory d volume rel
  ]

  unfoldable pub vfs_unlink : List Mount → D → Option (List ℕ) → List ℕ → Result ℕ × D
  vfs_unlink ms d cwd path = elim (resolve ms path cwd) [
    | none ↦ (err enoent, d)
    | some (volume, rel) ↦ drv.unlink_file d volume rel
  ]

  unfoldable pub vfs_rmdir : List Mount → D → Option (List ℕ) → List ℕ → Result ℕ × D
  vfs_rmdir ms d cwd path = elim (resolve ms path cwd) [
    | none ↦ (err enoent, d)
    | some (volume, rel) ↦ drv.remove_directory d volume rel
  ]

  -- The result, and the current directory if it changes.
  unfoldable pub vfs_chdir : List Mount → D → Option (List ℕ) → List ℕ → Result ℕ × Option (List ℕ)
  vfs_chdir ms d cwd path = elim (vfs_stat ms d cwd (vfs_make_absolute path cwd)) [
    | err e ↦ (err enotdir, none)
    | ok st ↦
        if st.is_directory
        then (ok 0, some (kstrncpy (vfs_make_absolute path cwd) vfs_path_max))
        else (err enotdir, none)
  ]

  unfoldable pub vfs_ftruncate : Files → D → Option ℕ → ℕ → ℕ → Result ℕ × D
  vfs_ftruncate s d me fd size = elim (fd_to_oft s me fd) [
    | none ↦ (err ebadf, d)
    | some i ↦
        if not ((entry_at s i).pipe == 0)
        then (err einval, d)
        else drv.truncate_file d (entry_at s i).handle size
  ]

  -- A pipe is reported with size 0.
  unfoldable pub vfs_fstat : Files → D → Option ℕ → ℕ → Result Stat
  vfs_fstat s d me fd = elim (fd_to_oft s me fd) [
    | none ↦ err ebadf
    | some i ↦
        if not ((entry_at s i).pipe == 0)
        then ok (record { size = 0; is_directory = false })
        else drv.fstat_file d (entry_at s i).handle
  ]
