-- ===== src/Fs/Files/Tests.antt =====
-- Runs of the descriptors of src/fs/vfs.c.
use alcor2os.Base.{
  ℕ, zero, suc, ◌<◌, ◌≡◌, refl, inl, inr, true, false, Option, none, some, [], ◌∷◌, arith, ne→==,
  length, replicate, length-replicate, get_or-replicate,
}
use alcor2os.Base.Errno.{ebadf, err}
use alcor2os.Fs.Files.{
  Entry, Table, Files, file, zero_entry, table_at, get_fd, vfs_close, vfs_dup2, close_slot, drop_fd,
  vfs_oft_release, closes,
}
use alcor2os.Fs.Files.Counted.{holds, IsSized, Counts}
use alcor2os.Fs.Files.Steps.{IsCounted}
use alcor2os.Fs.Files.Dup.{vfs_dup2-IsCounted}
use alcor2os.Fs.Files.Lifetime.{vfs_proc_inherit_fds}
use alcor2os.Fs.Files.Owners.{vfs_proc_inherit_fds-IsCounted}

-- A file that slots 3 and 4 of the first process share, and a second process with nothing open.
abbrev shared_file : Entry
shared_file = record {
  handle = 9;
  ops = some (record { has_close = true });
  pipe = 0;
  offset = 0;
  flags = 0;
  kind = file;
  refcount = 2;
  in_use = true;
}

abbrev parent_table : Table
parent_table = record {
  fds = none ∷ none ∷ none ∷ some 0 ∷ some 0 ∷ replicate 251 none;
  fd_cloexec = replicate 256 false;
}

abbrev child_table : Table
child_table = record { fds = replicate 256 none; fd_cloexec = replicate 256 false }

abbrev two_open : Files
two_open = record {
  oft = shared_file ∷ replicate 255 zero_entry;
  tables = parent_table ∷ child_table ∷ [];
  closed = [];
}

two_slots : (p : ℕ) → p < 2 → length (table_at two_open p).fds ≡ 256
two_slots zero h = omega (arith, length-replicate {A = Option ℕ} 251 none)
two_slots (suc zero) h = length-replicate {A = Option ℕ} 256 none
two_slots (suc (suc p)) h = absurd (omega arith)

two_open-IsSized : IsSized two_open
two_open-IsSized = record {
  entries = omega (arith, length-replicate {A = Entry} 255 zero_entry);
  slots = two_slots;
}

two_open-Counts : Counts two_open (λ i. 0)
unfolding holds
two_open-Counts zero = inl (refl, refl, omega arith)
two_open-Counts (suc i) =
    rw (get_or-replicate 255 i zero_entry)
      (inr (refl, rw (ne→== 0 (suc i) (λ e. omega arith)) refl))

two_open-IsCounted : IsCounted two_open
two_open-IsCounted = record { sized = two_open-IsSized; counts = two_open-Counts }

closed_twice : (vfs_close (vfs_close two_open (some 0) 3).1 (some 0) 3).0 ≡ err ebadf
unfolding vfs_close close_slot drop_fd vfs_oft_release closes
closed_twice = refl

vfs_dup2-IsCounted_example : IsCounted (vfs_dup2 two_open (some 0) 3 4).1
vfs_dup2-IsCounted_example = vfs_dup2-IsCounted two_open (some 0) 3 4 two_open-IsCounted

child_free : (j : ℕ) → get_fd two_open 1 j ≡ none
child_free j = get_or-replicate {A = Option ℕ} 256 j none

vfs_proc_inherit_fds-IsCounted_example : IsCounted (vfs_proc_inherit_fds two_open 0 1)
vfs_proc_inherit_fds-IsCounted_example =
    vfs_proc_inherit_fds-IsCounted two_open 0 1 (omega arith) child_free two_open-IsCounted
