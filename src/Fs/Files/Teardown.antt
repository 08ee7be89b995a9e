-- ===== src/Fs/Files/Teardown.antt =====
-- When src/fs/vfs.c closes what an entry stands for.
use alcor2os.Base.{ℕ, ◌≡◌, ◌≢◌, none, ◌++◌, ◌==◌, if◌then◌else◌}
use alcor2os.Fs.Files.{Files, entry_at, get_fd, closes}
use alcor2os.Fs.Files.Counted.{holds}

-- What `vfs_close` of an open descriptor does: the slot is closed, the others of the process stay, and
-- the entry is torn down when this slot was the only one, in any process, that referred to it.
pub record Closes (s t : Files) (p fd i : ℕ) : Type 0 where
  pub slot : get_fd t p fd ≡ none
  pub others : (other : ℕ) → fd ≢ other → get_fd t p other ≡ get_fd s p other
  pub torn_down :
      t.closed ≡ (if holds s i == 1 then s.closed ++ closes (entry_at s i) else s.closed)
