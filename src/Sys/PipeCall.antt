-- ===== src/Sys/PipeCall.antt =====
-- src/kernel/sys/pipe.c, the calls `sys_pipe` and `sys_pipe2`, which join a pipe with two descriptors. The
-- pointer to the pipe in slot `k` of the table is the number `k + 1`.
pub mod Counted
mod Tests
use alcor2os.Base.{
  ℕ, zero, suc, ◌+◌, ◌-◌, ◌*◌, ◌/◌, ◌%◌, ◌^◌, ◌≤◌, ◌<◌, min, max, ◌≡◌, refl, sym, ap, ◌∙◌, subst,
  ◌≢◌, ◌↔◌, ◌⊎◌, inl, inr, Bool, true, false, not, ◌&&◌, ◌||◌, Option, none, some, List, [], ◌∷◌,
  ◌++◌, map, arith, ltb, leb, ◌==◌, if◌then◌else◌, ltb→lt, lt→ltb, leb→le, le→ltb, ==_iff, eq→==,
  ne→==, ==→ne, ltb→le, tests, Bool-cases, Option-cases, length, get_elem?, get_or, set, take, drop,
  replicate, length-append, take-append-drop, length-take, length-drop, length-replicate,
  length-set, get_or-set_self, get_or-set_ne, get_or-out, set-out, get_or-replicate, bit,
  count_below, count_below-le, count_below-eq, count_below-change, count_below-pos,
  count_below-zero, take-append_left, take_all, take-drop, drop-drop, get_or-replicate_lt,
}
use native.Mathlib.Decide.{ℕ_discrete, dec_lt}
use alcor2os.Base.Word.{test_bit}
use alcor2os.Base.Errno.{Errno, einval, ebadf, efault, enomem, enfile, Result, ok, err}
use alcor2os.Process.{States}
use alcor2os.Fs.Files.{
  Files, Kind, file, pipe_rd, pipe_wr, Closed, closes_pipe, closes_file, put_fd, put_cloexec,
  entry_at, fd_to_oft, vfs_oft_release, vfs_install_fd,
}
use alcor2os.Fs.Files.Lifetime.{vfs_oft_alloc_pipe}
use alcor2os.Sys.Pipe.{
  Pipe, World, End, read_end, write_end, no_end, fresh_pipe, alloc_pipe, pipe_oft_release,
  pipe_poll_read_ready, pipe_poll_write_ready,
}
use alcor2os.Sys.Signal.{vmm_is_user_range}

pub record Kernel : Type 0 where
  pub files : Files
  pub pipes : List Pipe
  pub states : States

abbrev pub end_of : Kind → End
end_of pipe_rd = read_end
end_of pipe_wr = write_end
end_of file = no_end

-- What the release of an entry closes, done on the pipes.
unfoldable pub close_in : List Pipe → States → List Closed → List Pipe × States
close_in pipes states [] = (pipes, states)
close_in pipes states (closes_file fh ∷ cs) = close_in pipes states cs
close_in pipes states (closes_pipe kind ptr ∷ cs) =
    let w =
      pipe_oft_release (record { pipe = get_or pipes (ptr - 1) fresh_pipe; states = states })
        (end_of kind) in
    close_in (set pipes (ptr - 1) w.pipe) w.states cs

unfoldable pub release_in : Kernel → ℕ → Kernel
release_in k i =
    let files = vfs_oft_release k.files i in
    let (pipes, states) = close_in k.pipes k.states (drop (length k.files.closed) files.closed) in
    record { files = files; pipes = pipes; states = states }

-- Behind the installation of the write end.
unfoldable pub write_installed : Kernel → ℕ → ℕ → ℕ → ℕ → Result ℕ × Files → Result (ℕ × ℕ) × Kernel
write_installed k p read_oft write_oft read_fd (ok fd, s) =
    (ok (read_fd, fd), record k { files = s })
write_installed k p read_oft write_oft read_fd (err e, s) =
    let k1 = release_in (record k { files = s }) write_oft in
    (err e, release_in (record k1 { files = put_fd k1.files p read_fd none }) read_oft)

unfoldable pub read_installed : Kernel → ℕ → ℕ → ℕ → Result ℕ × Files → Result (ℕ × ℕ) × Kernel
read_installed k p read_oft write_oft (err e, s) =
    (err e, release_in (release_in (record k { files = s }) read_oft) write_oft)
read_installed k p read_oft write_oft (ok fd, s) =
    write_installed k p read_oft write_oft fd (vfs_install_fd s (some p) write_oft)

-- Behind the entry of the write end.
unfoldable pub write_opened : Kernel → ℕ → ℕ → Result ℕ × Files → Result (ℕ × ℕ) × Kernel
write_opened k p read_oft (err e, s) = (err enfile, release_in (record k { files = s }) read_oft)
write_opened k p read_oft (ok write_oft, s) =
    read_installed k p read_oft write_oft (vfs_install_fd s (some p) read_oft)

-- Behind the entry of the read end of the pipe in slot `j`.
unfoldable pub read_opened : Kernel → ℕ → ℕ → Result ℕ × Files → Result (ℕ × ℕ) × Kernel
read_opened k p j (err e, s) = (
  err enfile,
  record k {
    files = s;
    pipes = set k.pipes j (record (get_or k.pipes j fresh_pipe) { allocated = false });
  },
)
read_opened k p j (ok read_oft, s) =
    write_opened k p read_oft (vfs_oft_alloc_pipe s pipe_wr (j + 1))

unfoldable pub pipe_allocated : Kernel → ℕ → Option (ℕ × List Pipe) → Result (ℕ × ℕ) × Kernel
pipe_allocated k p none = (err enomem, k)
pipe_allocated k p (some (j, pipes)) =
    read_opened (record k { pipes = pipes }) p j (vfs_oft_alloc_pipe k.files pipe_rd (j + 1))

-- The two numbers are what the call stores at `pipefd`.
unfoldable pub sys_pipe : Kernel → Option ℕ → ℕ → Result (ℕ × ℕ) × Kernel
sys_pipe k none pipefd =
    if pipefd == 0 || not (vmm_is_user_range pipefd 8) then (err efault, k) else (err einval, k)
sys_pipe k (some p) pipefd =
    if pipefd == 0 || not (vmm_is_user_range pipefd 8)
    then (err efault, k)
    else pipe_allocated k p (alloc_pipe k.pipes 0)

unfoldable pub with_cloexec : ℕ → Bool → Result (ℕ × ℕ) × Kernel → Result (ℕ × ℕ) × Kernel
with_cloexec p cloexec (err e, k) = (err e, k)
with_cloexec p cloexec (ok (a, b), k) =
    if cloexec
    then (ok (a, b), record k { files = put_cloexec (put_cloexec k.files p a true) p b true })
    else (ok (a, b), k)

-- O_CLOEXEC is bit 19 of the flags.
unfoldable pub sys_pipe2 : Kernel → Option ℕ → ℕ → ℕ → Result (ℕ × ℕ) × Kernel
sys_pipe2 k none pipefd flags = sys_pipe k none pipefd
sys_pipe2 k (some p) pipefd flags = with_cloexec p (test_bit flags 19) (sys_pipe k (some p) pipefd)

-- What the two tests of `vfs_select` in src/fs/vfs.c answer for an entry.
abbrev pub pipe_of : Kernel → ℕ → Pipe
pipe_of k i = get_or k.pipes ((entry_at k.files i).pipe - 1) fresh_pipe

unfoldable pub read_ready : Kernel → ℕ → Kind → Result ℕ
read_ready k i pipe_wr = err ebadf
read_ready k i pipe_rd = ok (if pipe_poll_read_ready (pipe_of k i) then 1 else 0)
read_ready k i file = ok 1

unfoldable pub vfs_select_read_ready : Kernel → Option ℕ → ℕ → Result ℕ
vfs_select_read_ready k me fd = elim (fd_to_oft k.files me fd) [
  | none ↦ err ebadf
  | some i ↦ read_ready k i (entry_at k.files i).kind
]

unfoldable pub write_ready : Kernel → ℕ → Kind → Result ℕ
write_ready k i pipe_rd = err ebadf
write_ready k i pipe_wr = ok (if pipe_poll_write_ready (pipe_of k i) then 1 else 0)
write_ready k i file = ok 1

unfoldable pub vfs_select_write_ready : Kernel → Option ℕ → ℕ → Result ℕ
vfs_select_write_ready k me fd = elim (fd_to_oft k.files me fd) [
  | none ↦ err ebadf
  | some i ↦ write_ready k i (entry_at k.files i).kind
]
