-- ===== src/Fs/Files.antt =====
-- src/fs/vfs.c, the table of open files and the descriptors of the processes. Both stand in one record,
-- with what the release of entries has closed so far. A descriptor number is the 64-bit word that the
-- call gets: a negative one is far above VFS_MAX_FD. A slot of a process's table is `none` where the
-- source has -1; a process is its place in the process table.
pub mod Counted
pub mod Steps
pub mod Dup
pub mod Lifetime
pub mod Owners
pub mod Teardown
mod Tests
use alcor2os.Base.{
  ℕ, zero, suc, ◌+◌, ◌-◌, ◌*◌, ◌/◌, ◌%◌, ◌^◌, ◌≤◌, ◌<◌, min, max, ◌≡◌, refl, sym, ap, ◌∙◌, subst,
  ◌≢◌, ◌↔◌, ◌⊎◌, inl, inr, Bool, true, false, not, ◌&&◌, ◌||◌, Option, none, some, List, [], ◌∷◌,
  ◌++◌, map, arith, ltb, leb, ◌==◌, if◌then◌else◌, ltb→lt, lt→ltb, leb→le, le→ltb, ==_iff, eq→==,
  ne→==, ==→ne, ltb→le, tests, Bool-cases, Option-cases, length, get_elem?, get_or, set, take, drop,
  replicate, length-append, take-append-drop, length-take, length-drop, length-replicate,
  length-set, get_or-set_self, get_or-set_ne, get_or-out, set-out, get_or-replicate, bit,
  count_below, count_below-le, count_below-eq, count_below-change, count_below-pos,
  count_below-zero, take-append_left, take_all, take-drop, drop-drop, get_or-replicate_lt,
}
use native.Mathlib.Decide.{ℕ_discrete, dec_lt}
use alcor2os.Base.Errno.{Errno, einval, ebadf, enfile, emfile, espipe, Result, ok, err}

abbrev pub vfs_max_fd : ℕ
vfs_max_fd = 256

abbrev pub vfs_max_oft : ℕ
vfs_max_oft = 256

pub data Kind : Type 0 where
  file pipe_rd pipe_wr : Kind

-- The `close` callback of a driver: set or NULL.
pub record FsOps : Type 0 where
  pub has_close : Bool

-- `vfs_oft_entry_t`; the number 0 is the NULL pointer.
pub record Entry : Type 0 where
  pub handle : ℕ
  pub ops : Option FsOps
  pub pipe : ℕ
  pub offset : ℕ
  pub flags : ℕ
  pub kind : Kind
  pub refcount : ℕ
  pub in_use : Bool

-- A call of `pipe_oft_release` or of a driver's `close`.
pub data Closed : Type 0 where
  closes_pipe : Kind → ℕ → Closed
  closes_file : ℕ → Closed

pub record Table : Type 0 where
  pub fds : List (Option ℕ)
  pub fd_cloexec : List Bool

pub record Files : Type 0 where
  pub oft : List Entry
  pub tables : List Table
  pub closed : List Closed

abbrev pub zero_entry : Entry
zero_entry = record {
  handle = 0;
  ops = none;
  pipe = 0;
  offset = 0;
  flags = 0;
  kind = file;
  refcount = 0;
  in_use = false;
}

abbrev pub empty_table : Table
empty_table = record { fds = []; fd_cloexec = [] }

abbrev pub entry_at : Files → ℕ → Entry
entry_at s i = get_or s.oft i zero_entry

abbrev pub put_entry : Files → ℕ → Entry → Files
put_entry s i e = record s { oft = set s.oft i e }

abbrev pub table_at : Files → ℕ → Table
table_at s p = get_or s.tables p empty_table

abbrev pub get_fd : Files → ℕ → ℕ → Option ℕ
get_fd s p fd = get_or (table_at s p).fds fd none

abbrev pub put_fd : Files → ℕ → ℕ → Option ℕ → Files
put_fd s p fd v = record s {
  tables = set s.tables p (record (table_at s p) { fds = set (table_at s p).fds fd v });
}

abbrev pub put_cloexec : Files → ℕ → ℕ → Bool → Files
put_cloexec s p fd b = record s {
  tables =
      set s.tables p (record (table_at s p) { fd_cloexec = set (table_at s p).fd_cloexec fd b });
}

abbrev pub one_later : Option ℕ → Option ℕ
one_later none = none
one_later (some i) = some (suc i)

-- The first entry not in use.
unfoldable pub free_entry : List Entry → Option ℕ
free_entry [] = none
free_entry (e ∷ es) = let rest = one_later (free_entry es) in if not e.in_use then some 0 else rest

unfoldable pub oft_alloc : Files → Result ℕ × Files
unfolding free_entry
oft_alloc s = elim (free_entry s.oft) [
  | some i ↦ (ok i, put_entry s i (record zero_entry { in_use = true; refcount = 1 }))
  | none ↦ (err enfile, s)
]

unfoldable pub valid_entry : Files → Option ℕ → Option ℕ
valid_entry s none = none
valid_entry s (some i) = if leb vfs_max_oft i || not (entry_at s i).in_use then none else some i

unfoldable pub fd_to_oft : Files → Option ℕ → ℕ → Option ℕ
unfolding valid_entry
fd_to_oft s none fd = none
fd_to_oft s (some p) fd = if leb vfs_max_fd fd then none else valid_entry s (get_fd s p fd)

unfoldable pub vfs_oft_retain : Files → ℕ → Files
vfs_oft_retain s i =
    let e = entry_at s i in
    if ltb i vfs_max_oft && e.in_use
    then put_entry s i (record e { refcount = e.refcount + 1 })
    else s

-- What the last release of an entry closes.
unfoldable pub closes : Entry → List Closed
closes e = (if not (e.pipe == 0) then closes_pipe e.kind e.pipe ∷ [] else []) ++ (elim e.ops [
  | some ops ↦ if not (e.handle == 0) && ops.has_close then closes_file e.handle ∷ [] else []
  | none ↦ []
])

unfoldable pub vfs_oft_release : Files → ℕ → Files
unfolding closes
vfs_oft_release s i =
    let e = entry_at s i in
    let fewer = record e { refcount = e.refcount - 1 } in
    if leb vfs_max_oft i || not e.in_use
    then s
    else if ltb 0 (e.refcount - 1)
    then put_entry s i fewer
    else record (put_entry s i (record fewer { in_use = false })) { closed = s.closed ++ closes e }

-- The first closed slot, from number `fd` on.
unfoldable pub free_fd : List (Option ℕ) → ℕ → Option ℕ
free_fd [] fd = none
free_fd (some i ∷ fds) fd = free_fd fds (suc fd)
free_fd (none ∷ fds) fd = some fd

unfoldable pub install_at : Files → ℕ → ℕ → Option ℕ → Result ℕ × Files
install_at s p i none = (err emfile, s)
install_at s p i (some fd) = (ok fd, put_fd s p fd (some i))

unfoldable pub vfs_install_fd : Files → Option ℕ → ℕ → Result ℕ × Files
unfolding install_at free_fd
vfs_install_fd s none i = (err einval, s)
vfs_install_fd s (some p) i = install_at s p i (free_fd (drop 3 (table_at s p).fds) 3)

-- The release of one slot, which `vfs_close` and the loops of exit share.
unfoldable pub drop_fd : Files → ℕ → ℕ → ℕ → Files
unfolding vfs_oft_release
drop_fd s p fd i = put_fd (vfs_oft_release s i) p fd none

unfoldable pub close_slot : Files → ℕ → ℕ → Option ℕ → Result ℕ × Files
unfolding drop_fd
close_slot s p fd none = (err ebadf, s)
close_slot s p fd (some i) = (ok 0, put_cloexec (drop_fd s p fd i) p fd false)

unfoldable pub vfs_close : Files → Option ℕ → ℕ → Result ℕ × Files
unfolding close_slot
vfs_close s none fd = (err ebadf, s)
vfs_close s (some p) fd =
    if leb vfs_max_fd fd then (err ebadf, s) else close_slot s p fd (get_fd s p fd)

unfoldable pub retain_if_ok : Result ℕ × Files → ℕ → Result ℕ × Files
unfolding vfs_oft_retain
retain_if_ok (ok fd, s) i = (ok fd, vfs_oft_retain s i)
retain_if_ok (err e, s) i = (err e, s)

unfoldable pub dup_entry : Files → Option ℕ → Option ℕ → Result ℕ × Files
unfolding retain_if_ok vfs_install_fd
dup_entry s me none = (err ebadf, s)
dup_entry s me (some i) = retain_if_ok (vfs_install_fd s me i) i

unfoldable pub vfs_dup : Files → Option ℕ → ℕ → Result ℕ × Files
unfolding dup_entry fd_to_oft
vfs_dup s me oldfd = dup_entry s me (fd_to_oft s me oldfd)

abbrev pub is_open_fd : Option ℕ → Bool
is_open_fd none = false
is_open_fd (some i) = true

-- `if(p->fds[newfd] >= 0) vfs_close(newfd);`
unfoldable pub make_room : Files → ℕ → ℕ → Files
make_room s p newfd = if is_open_fd (get_fd s p newfd) then (vfs_close s (some p) newfd).1 else s

unfoldable pub dup_onto : Files → Option ℕ → ℕ → Option ℕ → Result ℕ × Files
dup_onto s me newfd none = (err ebadf, s)
dup_onto s none newfd (some i) = (err ebadf, s)
dup_onto s (some p) newfd (some i) =
    if leb vfs_max_fd newfd
    then (err ebadf, s)
    else (ok newfd, vfs_oft_retain (put_fd (make_room s p newfd) p newfd (some i)) i)

unfoldable pub vfs_dup2 : Files → Option ℕ → ℕ → ℕ → Result ℕ × Files
unfolding dup_onto fd_to_oft
vfs_dup2 s me oldfd newfd =
    if oldfd == newfd then (ok newfd, s) else dup_onto s me newfd (fd_to_oft s me oldfd)
