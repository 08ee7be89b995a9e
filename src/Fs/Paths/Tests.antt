-- ===== src/Fs/Paths/Tests.antt =====
-- Runs of the paths and mounts of src/fs/vfs.c.
use alcor2os.Base.{ℕ, ◌≡◌, refl, true, List, [], ◌∷◌, arith}
use alcor2os.Kstdlib.{kstrncpy, copy_bytes}
use alcor2os.Fs.Paths.{
  skip_slashes, segment, back_up, leave_segment, add_segment, next_segment, normalize_loop,
  vfs_normalize, Mount,
}
use alcor2os.Fs.Paths.Parent.{next_segment_parent}

-- `a//./b/`, behind the first slash of a path
abbrev messy : List ℕ
messy = 97 ∷ 47 ∷ 47 ∷ 46 ∷ 47 ∷ 98 ∷ 47 ∷ []

-- `/a/b/../c` becomes `/a//c`.
keeps_a_slash :
    vfs_normalize (47 ∷ 97 ∷ 47 ∷ 98 ∷ 47 ∷ 46 ∷ 46 ∷ 47 ∷ 99 ∷ []) ≡ 47 ∷ 97 ∷ 47 ∷ 47 ∷ 99 ∷ []
unfolding vfs_normalize normalize_loop next_segment leave_segment back_up add_segment segment
    skip_slashes kstrncpy copy_bytes
keeps_a_slash = refl

next_segment_parent_example :
    next_segment (add_segment (97 ∷ 47 ∷ []) (98 ∷ [])) (46 ∷ 46 ∷ []) ≡ 47 ∷ 97 ∷ 47 ∷ []
next_segment_parent_example =
    next_segment_parent (97 ∷ 47 ∷ []) (98 ∷ []) (omega arith) refl (λ e. omega arith, tt)

-- The root and `/a` are mounted.
abbrev two_mounts : List Mount
two_mounts =
    record { target = 47 ∷ []; volume = 1; active = true }
    ∷ record { target = 47 ∷ 97 ∷ []; volume = 2; active = true }
    ∷ []
