-- ===== src/Fs/Calls/Tests.antt =====
-- Runs of the calls of src/fs/vfs.c that reach a driver.
use alcor2os.Base.{
  ℕ, zero, suc, ◌+◌, ◌-◌, ◌<◌, min, ◌≡◌, refl, inr, true, false, Option, none, some, List, [], ◌∷◌,
  arith, length, get_or, replicate, length-replicate, get_or-replicate,
}
use alcor2os.Base.Errno.{einval, ok, err}
use alcor2os.Fs.Files.{Entry, Table, Files, zero_entry}
use alcor2os.Fs.Files.Counted.{holds}
use alcor2os.Fs.Files.Steps.{IsCounted}
use alcor2os.Fs.Paths.{Mount}
use alcor2os.Fs.Calls.{Driver, vfs_open}
use alcor2os.Fs.Calls.Open.{vfs_open-IsCounted}

-- A driver whose state counts the files opened; it opens every path, and each file holds 10 bytes.
abbrev ten_bytes : Driver ℕ
ten_bytes = record {
  ops_of = λ volume. record { has_close = true };
  open_file = λ d volume rel flags. (d + 1, d + 1);
  read_file = λ d fh count offset. (ok (replicate (min count (10 - offset)) 7), d);
  write_file = λ d fh src offset. (ok (length src), d);
  stat_path = λ d volume rel. ok (record { size = 10; is_directory = false });
  fstat_file = λ d fh. ok (record { size = 10; is_directory = false });
  make_directory = λ d volume rel. (err einval, d);
  unlink_file = λ d volume rel. (ok 0, d);
  remove_directory = λ d volume rel. (err einval, d);
  truncate_file = λ d fh size. (ok 0, d);
}

abbrev idle_table : Table
idle_table = record { fds = replicate 256 none; fd_cloexec = replicate 256 false }

abbrev nothing_open : Files
nothing_open = record { oft = replicate 256 zero_entry; tables = idle_table ∷ []; closed = [] }

nothing_open-IsCounted : IsCounted nothing_open
unfolding holds
nothing_open-IsCounted = record {
  sized = record { entries = length-replicate {A = Entry} 256 zero_entry; slots = slots };
  counts = λ i. rw (get_or-replicate 256 i zero_entry) (inr (refl, refl));
}
  where
    slots :
        (p : ℕ)
        → p < 1
        → length (get_or nothing_open.tables p (record { fds = []; fd_cloexec = [] })).fds ≡ 256
    slots zero h = length-replicate {A = Option ℕ} 256 none
    slots (suc p) h = absurd (omega arith)

abbrev root_mount : List Mount
root_mount = record { target = 47 ∷ []; volume = 1; active = true } ∷ []

vfs_open-IsCounted_example :
    IsCounted (vfs_open ten_bytes root_mount nothing_open 0 (some 0) none (47 ∷ 97 ∷ []) 0).1
vfs_open-IsCounted_example =
    vfs_open-IsCounted ten_bytes root_mount nothing_open 0 (some 0) none (47 ∷ 97 ∷ []) 0
      nothing_open-IsCounted
