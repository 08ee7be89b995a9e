-- ===== src/Fs/Calls/Registry.antt =====
-- src/fs/vfs.c, the registered types of file systems and the table of mounts.
use alcor2os.Base.{
  ℕ, suc, Bool, true, false, not, Option, none, some, List, [], ◌∷◌, ◌++◌, leb, ◌==◌, if◌then◌else◌,
  length, set, replicate,
}
use alcor2os.Base.Errno.{einval, enodev, enomem, eexist, Result, ok, err}
use alcor2os.Kstdlib.{kstreq, kstrncpy}
use alcor2os.Fs.Paths.{Mount, vfs_normalize, vfs_path_max}

-- `fs_type_t`; `mount_volume` is its `mount` callback, which gets the source and returns the volume, 0
-- for NULL.
pub record FsType : Type 0 where
  pub name : List ℕ
  pub mount_volume : List ℕ → ℕ

abbrev pub registry_size : ℕ
registry_size = 8

unfoldable pub find_type : List FsType → List ℕ → Option FsType
find_type [] name = none
find_type (t ∷ ts) name =
    let rest = find_type ts name in if kstreq t.name name then some t else rest

abbrev pub is_found : Option FsType → Bool
is_found none = false
is_found (some t) = true

unfoldable pub vfs_register_fs : List FsType → FsType → Result ℕ × List FsType
vfs_register_fs ts t =
    if leb registry_size (length ts)
    then (err enomem, ts)
    else if is_found (find_type ts t.name)
    then (err eexist, ts)
    else (ok 0, ts ++ t ∷ [])

abbrev pub next_slot : Option ℕ → Option ℕ
next_slot none = none
next_slot (some i) = some (suc i)

-- The first slot that holds no mount.
unfoldable pub free_slot : List Mount → Option ℕ
free_slot [] = none
free_slot (m ∷ ms) = let rest = next_slot (free_slot ms) in if not m.active then some 0 else rest

unfoldable pub mount_at : List Mount → List ℕ → ℕ → ℕ → Result ℕ × List Mount
mount_at ms target slot volume = if volume == 0 then (err einval, ms) else (
  ok 0,
  set ms slot (record {
    target = vfs_normalize (kstrncpy target vfs_path_max);
    volume = volume;
    active = true;
  }),
)

unfoldable pub vfs_mount :
    List FsType → List Mount → List ℕ → List ℕ → List ℕ → Result ℕ × List Mount
vfs_mount ts ms source target fstype = elim (find_type ts fstype) [
  | none ↦ (err enodev, ms)
  | some t ↦ elim (free_slot ms) [
    | none ↦ (err enomem, ms)
    | some slot ↦ mount_at ms target slot (t.mount_volume source)
  ]
]

-- The mounts after `vfs_init`.
pub vfs_init : List Mount
vfs_init = replicate 16 (record { target = []; volume = 0; active = false })

pub vfs_getcwd : Option (List ℕ) → List ℕ
vfs_getcwd none = 47 ∷ []
vfs_getcwd (some cwd) = cwd
