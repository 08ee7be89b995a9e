-- ===== src/Fs/Paths.antt =====
-- src/fs/vfs.c, absolute paths and the choice of a mount. A path is the list of its bytes before the NUL.
-- The buffer `res` of `vfs_normalize` is held last byte first, from which `out` takes and gives bytes.
pub mod Canonical
pub mod Mounts
pub mod Prefix
pub mod Parent
mod Tests
use alcor2os.Base.{
  ℕ, zero, suc, ◌+◌, ◌-◌, ◌*◌, ◌/◌, ◌%◌, ◌^◌, ◌≤◌, ◌<◌, min, max, ◌≡◌, refl, sym, ap, ◌∙◌, subst,
  ◌≢◌, ◌↔◌, ◌⊎◌, inl, inr, Bool, true, false, not, ◌&&◌, ◌||◌, Option, none, some, List, [], ◌∷◌,
  ◌++◌, map, arith, ltb, leb, ◌==◌, if◌then◌else◌, ltb→lt, lt→ltb, leb→le, le→ltb, ==_iff, eq→==,
  ne→==, ==→ne, ltb→le, tests, Bool-cases, Option-cases, length, get_elem?, get_or, set, take, drop,
  replicate, length-append, take-append-drop, length-take, length-drop, length-replicate,
  length-set, get_or-set_self, get_or-set_ne, get_or-out, set-out, get_or-replicate, bit,
  count_below, count_below-le, count_below-eq, count_below-change, count_below-pos,
  count_below-zero, take-append_left, take_all, take-drop, drop-drop, get_or-replicate_lt,
}
use native.Mathlib.Decide.{ℕ_discrete, dec_lt}
use alcor2os.Kstdlib.{kstrlen, kstrncpy, kstrncmp, kstrlcat, is_zero}

abbrev pub vfs_path_max : ℕ
vfs_path_max = 256

-- '/' and '.'
abbrev pub slash : ℕ
slash = 47

abbrev pub dot : ℕ
dot = 46

pub skip_slashes : List ℕ → List ℕ
skip_slashes [] = []
skip_slashes (c ∷ s) = if c == slash then skip_slashes s else c ∷ s

-- The bytes up to the next slash, and the rest.
pub segment : List ℕ → List ℕ × List ℕ
segment [] = ([], [])
segment (c ∷ s) = let (seg, rest) = segment s in if c == slash then ([], c ∷ s) else (c ∷ seg, rest)

abbrev pub is_dot : List ℕ → Bool
is_dot (c ∷ []) = c == dot
is_dot s = false

abbrev pub is_dot_dot : List ℕ → Bool
is_dot_dot (c ∷ d ∷ []) = c == dot && d == dot
is_dot_dot s = false

-- `while(out > res + 1 && *(out - 1) != '/') out--;`
pub back_up : List ℕ → List ℕ
back_up [] = []
back_up (c ∷ []) = c ∷ []
back_up (c ∷ d ∷ out) = if c == slash then c ∷ d ∷ out else back_up (d ∷ out)

-- What `..` does to the buffer.
pub leave_segment : List ℕ → List ℕ
leave_segment [] = []
leave_segment (c ∷ []) = c ∷ []
leave_segment (c ∷ d ∷ out) = back_up (d ∷ out)

abbrev pub put_bytes : List ℕ → List ℕ → List ℕ
put_bytes [] out = out
put_bytes (c ∷ s) out = put_bytes s (c ∷ out)

pub add_segment : List ℕ → List ℕ → List ℕ
add_segment out seg = put_bytes seg (if ltb 1 (length out) then slash ∷ out else out)

pub next_segment : List ℕ → List ℕ → List ℕ
next_segment out seg =
    if is_dot seg then out else if is_dot_dot seg then leave_segment out else add_segment out seg

abbrev pub is_nil : List ℕ → Bool
is_nil [] = true
is_nil (c ∷ s) = false

-- `while(*curr)`, with more rounds than bytes left.
pub normalize_loop : ℕ → List ℕ → List ℕ → List ℕ
normalize_loop zero s out = out
normalize_loop (suc n) s out =
    let (seg, rest) = segment (skip_slashes s) in
    let more = normalize_loop n rest (next_segment out seg) in if is_nil seg then out else more

pub vfs_normalize : List ℕ → List ℕ
vfs_normalize [] = []
vfs_normalize (c ∷ path) =
    if not (c == slash)
    then c ∷ path
    else kstrncpy (put_bytes (normalize_loop (suc (length path)) path (slash ∷ [])) []) vfs_path_max

-- The directory that relative paths start from; `cwd` is that of the process, if there is one.
abbrev pub base_directory : Option (List ℕ) → List ℕ
base_directory none = slash ∷ []
base_directory (some []) = slash ∷ []
base_directory (some (c ∷ cwd)) = c ∷ cwd

pub with_slash : List ℕ → List ℕ
with_slash out = if get_or out (length out - 1) 0 == slash then out else out ++ slash ∷ []

pub vfs_make_absolute : List ℕ → Option (List ℕ) → List ℕ
vfs_make_absolute path cwd =
    if get_or path 0 0 == slash
    then vfs_normalize (kstrncpy path vfs_path_max)
    else vfs_normalize
        (kstrlcat (with_slash (kstrncpy (base_directory cwd) vfs_path_max)) path vfs_path_max).0

abbrev pub is_root : List ℕ → Bool
is_root (c ∷ []) = c == slash
is_root s = false

pub vfs_path_starts_with : List ℕ → List ℕ → Bool
vfs_path_starts_with path prefix =
    let next = get_or path (kstrlen prefix) 0 in
    if is_root prefix
    then get_or path 0 0 == slash
    else if is_zero (kstrncmp path prefix (kstrlen prefix))
    then next == 0 || next == slash
    else false

-- `vfs_mount_t`; `volume` stands for the driver and its data.
pub record Mount : Type 0 where
  pub target : List ℕ
  pub volume : ℕ
  pub active : Bool

abbrev pub matches : List ℕ → ℕ → Mount → Bool
matches path best_len m =
    m.active && (vfs_path_starts_with path m.target && leb best_len (kstrlen m.target))

-- The loop over the mounts from number `i` on: the best one so far, and its length.
pub find_from : List Mount → ℕ → List ℕ → Option ℕ → ℕ → Option ℕ × ℕ
find_from [] i path best best_len = (best, best_len)
find_from (m ∷ ms) i path best best_len =
    let taken = find_from ms (suc i) path (some i) (kstrlen m.target) in
    let left = find_from ms (suc i) path best best_len in
    if matches path best_len m then taken else left

abbrev pub rel_of : List ℕ → List ℕ
rel_of [] = slash ∷ []
rel_of (c ∷ s) = c ∷ s

-- The mount, and the path that its driver gets.
pub vfs_find_mount : List Mount → List ℕ → Option ℕ × List ℕ
vfs_find_mount mounts path =
    let (best, best_len) = find_from mounts 0 path none 0 in (best, rel_of (drop best_len path))
