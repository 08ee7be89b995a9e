-- ===== src/Fs/Paths/Canonical.antt =====
-- What `vfs_normalize` of src/fs/vfs.c makes of a path.
use alcor2os.Base.{ℕ, ◌≡◌, false, List, [], ◌∷◌, ◌++◌, ◌==◌, if◌then◌else◌}
use alcor2os.Fs.Paths.{slash, is_dot, is_dot_dot, add_segment, is_nil}

abbrev emit : List ℕ → List (List ℕ)
emit [] = []
emit (c ∷ s) = (c ∷ s) ∷ []

-- The components of a path: the bytes between its slashes, less the empty ones; `acc` is the one begun.
unfoldable pub components : List ℕ → List ℕ → List (List ℕ)
components [] acc = emit acc
components (c ∷ s) acc =
    if c == slash then emit acc ++ components s [] else components s (acc ++ c ∷ [])

-- The components less the single dots.
abbrev pub plain : List (List ℕ) → List (List ℕ)
plain [] = []
plain (a ∷ cs) = if is_dot a then plain cs else a ∷ plain cs

abbrev pub NoDotDot : List (List ℕ) → Type 0
NoDotDot [] = Unit {0}
NoDotDot (a ∷ cs) = (is_dot_dot a ≡ false) × NoDotDot cs

-- The components with one slash before each.
abbrev pub joined : List (List ℕ) → List ℕ
joined [] = []
joined (a ∷ cs) = slash ∷ a ++ joined cs

-- The root is one slash.
abbrev pub path_of : List (List ℕ) → List ℕ
path_of [] = slash ∷ []
path_of (a ∷ cs) = joined (a ∷ cs)

abbrev add_all : List (List ℕ) → List ℕ → List ℕ
add_all [] out = out
add_all (a ∷ cs) out = add_all cs (add_segment out a)

abbrev Segments : List (List ℕ) → Type 0
Segments [] = Unit {0}
Segments (a ∷ cs) = (is_nil a ≡ false) × Segments cs
