-- ===== src/Fs/Paths/Mounts.antt =====
-- Which mount `vfs_find_mount` of src/fs/vfs.c chooses.
use alcor2os.Base.{
  ℕ, ◌+◌, ◌≤◌, ◌<◌, ◌≡◌, ◌⊎◌, true, false, Option, none, some, List, [], get_or, drop,
}
use alcor2os.Kstdlib.{kstrlen}
use alcor2os.Fs.Paths.{vfs_path_starts_with, Mount, rel_of}

abbrev no_mount : Mount
no_mount = record { target = []; volume = 0; active = false }

-- The mount numbered `k` is active and its target a prefix of the path.
abbrev pub Serves : List Mount → List ℕ → ℕ → Type 0
Serves ms path k =
    ((get_or ms k no_mount).active ≡ true)
    × (vfs_path_starts_with path (get_or ms k no_mount).target ≡ true)

abbrev pub target_length : List Mount → ℕ → ℕ
target_length ms k = kstrlen (get_or ms k no_mount).target

-- What the loop finds among `ms`, of which the first is mount `i`: the best so far if none of `ms`
-- serves with at least its length, or the longest, the last one of those.
abbrev pub Best : List Mount → ℕ → List ℕ → Option ℕ → ℕ → Option ℕ × ℕ → Type 0
Best ms i path best len r =
    ((r ≡ (best, len)) × ((k : ℕ) → Serves ms path k → target_length ms k < len))
    ⊎ ((k : ℕ) × (r ≡ (some (i + k), target_length ms k))
        × Serves ms path k
        × (len ≤ target_length ms k)
        × ((j : ℕ)
            → Serves ms path j
            → (target_length ms j ≤ target_length ms k)
              × (k < j → target_length ms j < target_length ms k)))

-- The other mounts are no better than mount `k`, and the later ones are shorter.
abbrev NoBetter : List Mount → List ℕ → ℕ → ℕ → Type 0
NoBetter ms path k len =
    (j : ℕ) → Serves ms path j → (target_length ms j ≤ len) × (k < j → target_length ms j < len)

-- What `vfs_find_mount` answers: no mount serves the path, or the number of the longest that does, the
-- last of those, and what follows its target in the path, `/` for nothing.
abbrev pub Found : List Mount → List ℕ → Option ℕ × List ℕ → Type 0
Found ms path (best, rel) =
    ((best ≡ none) × ((k : ℕ) → ¬ Serves ms path k))
    ⊎ ((k : ℕ) × (best ≡ some k)
        × (rel ≡ rel_of (drop (target_length ms k) path))
        × Serves ms path k
        × ((j : ℕ)
            → Serves ms path j
            → (target_length ms j ≤ target_length ms k)
              × (k < j → target_length ms j < target_length ms k)))
