-- ===== src/Kstdlib/Tests.antt =====
-- Runs of the string functions of src/lib/kstdlib.c.
use alcor2os.Base.{ℕ, ◌≡◌, refl, some, List, [], ◌∷◌}
use alcor2os.Kstdlib.{kstrrchr, strrchr_from}

-- `"ab"` and `"abc"`
abbrev ab : List ℕ
ab = 97 ∷ 98 ∷ []

abbrev abc : List ℕ
abc = 97 ∷ 98 ∷ 99 ∷ []

last_b : kstrrchr abc 98 ≡ some (98 ∷ 99 ∷ [])
unfolding kstrrchr strrchr_from
last_b = refl
