-- ===== src/Fs/Files/Lifetime.antt =====
-- src/fs/vfs.c, the descriptors of a process at its start, at fork, at exec and at exit, and the other
-- operations on a descriptor that need no driver.
use alcor2os.Base.{
  ℕ, zero, suc, Bool, true, false, Option, none, some, List, if◌then◌else◌, get_or, replicate,
}
use alcor2os.Base.Errno.{ebadf, Result, ok, err}
use alcor2os.Fs.Files.{
  Files, Kind, file, pipe_rd, pipe_wr, entry_at, put_entry, table_at, get_fd, put_fd, put_cloexec,
  vfs_max_fd, oft_alloc, vfs_oft_retain, drop_fd, fd_to_oft,
}

pub vfs_proc_init_fds : List (Option ℕ)
vfs_proc_init_fds = replicate vfs_max_fd none

abbrev pub get_cloexec : Files → ℕ → ℕ → Bool
get_cloexec s p fd = get_or (table_at s p).fd_cloexec fd false

unfoldable pub retain_slot : Files → Option ℕ → Files
retain_slot s none = s
retain_slot s (some i) = vfs_oft_retain s i

-- One round of the loop of fork, at number `fd`.
unfoldable pub inherit_slot : Files → ℕ → ℕ → ℕ → Option ℕ → Bool → Files
inherit_slot s parent child fd v b = retain_slot (put_cloexec (put_fd s child fd v) child fd b) v

unfoldable pub inherit_from : ℕ → Files → ℕ → ℕ → ℕ → Files
inherit_from zero s parent child fd = s
inherit_from (suc n) s parent child fd =
    inherit_from n (inherit_slot s parent child fd (get_fd s parent fd) (get_cloexec s parent fd))
      parent child (suc fd)

unfoldable pub vfs_proc_inherit_fds : Files → ℕ → ℕ → Files
vfs_proc_inherit_fds s parent child = inherit_from vfs_max_fd s parent child 0

-- One round of the loop of exit.
unfoldable pub release_slot : Files → ℕ → ℕ → Option ℕ → Files
release_slot s p fd none = s
release_slot s p fd (some i) = drop_fd s p fd i

unfoldable pub release_from : ℕ → Files → ℕ → ℕ → Files
release_from zero s p fd = s
release_from (suc n) s p fd = release_from n (release_slot s p fd (get_fd s p fd)) p (suc fd)

unfoldable pub vfs_proc_release_fds : Files → ℕ → Files
vfs_proc_release_fds s p = release_from vfs_max_fd s p 0

-- One round of the loop of exec.
unfoldable pub exec_slot : Files → ℕ → ℕ → Bool → Option ℕ → Files
exec_slot s p fd b none = s
exec_slot s p fd b (some i) = if b then put_cloexec (drop_fd s p fd i) p fd false else s

unfoldable pub exec_from : ℕ → Files → ℕ → ℕ → Files
exec_from zero s p fd = s
exec_from (suc n) s p fd =
    exec_from n (exec_slot s p fd (get_cloexec s p fd) (get_fd s p fd)) p (suc fd)

unfoldable pub vfs_proc_close_cloexec_fds : Files → Option ℕ → Files
vfs_proc_close_cloexec_fds s none = s
vfs_proc_close_cloexec_fds s (some p) = exec_from vfs_max_fd s p 0

unfoldable pub mark_pipe : Result ℕ × Files → Kind → ℕ → Result ℕ × Files
mark_pipe (err e, s) kind pipe = (err e, s)
mark_pipe (ok i, s) kind pipe =
    (ok i, put_entry s i (record (entry_at s i) { kind = kind; pipe = pipe }))

unfoldable pub vfs_oft_alloc_pipe : Files → Kind → ℕ → Result ℕ × Files
vfs_oft_alloc_pipe s kind pipe = mark_pipe (oft_alloc s) kind pipe

unfoldable pub flags_of : Files → Option ℕ → Result ℕ
flags_of s none = err ebadf
flags_of s (some i) = ok (entry_at s i).flags

unfoldable pub vfs_get_flags : Files → Option ℕ → ℕ → Result ℕ
vfs_get_flags s me fd = flags_of s (fd_to_oft s me fd)

unfoldable pub store_flags : Files → Option ℕ → ℕ → Result ℕ × Files
store_flags s none flags = (err ebadf, s)
store_flags s (some i) flags = (ok 0, put_entry s i (record (entry_at s i) { flags = flags }))

unfoldable pub vfs_set_flags : Files → Option ℕ → ℕ → ℕ → Result ℕ × Files
vfs_set_flags s me fd flags = store_flags s (fd_to_oft s me fd) flags

abbrev pub is_pipe_kind : Kind → Bool
is_pipe_kind file = false
is_pipe_kind pipe_rd = true
is_pipe_kind pipe_wr = true

unfoldable pub is_pipe_at : Files → Option ℕ → Bool
is_pipe_at s none = false
is_pipe_at s (some i) = is_pipe_kind (entry_at s i).kind

unfoldable pub vfs_fd_is_pipe : Files → Option ℕ → ℕ → Bool
vfs_fd_is_pipe s me fd = is_pipe_at s (fd_to_oft s me fd)

unfoldable pub vfs_fd_is_valid : Files → Option ℕ → ℕ → Bool
vfs_fd_is_valid s me fd = elim (fd_to_oft s me fd) [ some i ↦ true | none ↦ false ]
