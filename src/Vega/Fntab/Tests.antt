-- ===== src/Vega/Fntab/Tests.antt =====
-- Runs of the table of functions of user/sdk/vega/fntab.c.
use alcor2os.Base.{ℕ, [], ◌∷◌}
use alcor2os.Vega.Fntab.{FnEntry, Fntab, fntab_set}
use alcor2os.Vega.Fntab.Lookup.{SetResult, fntab_set-SetResult}

-- Two functions, `f` and `g`, whose bodies are numbers.
abbrev two_functions : Fntab ℕ
two_functions = record {
  table =
      record { name = 102 ∷ []; arg_names = []; body = 1 }
      ∷ record { name = 103 ∷ []; arg_names = []; body = 2 }
      ∷ [];
  freed = [];
}

-- Another `g`.
abbrev new_g : FnEntry ℕ
new_g = record { name = 103 ∷ []; arg_names = (97 ∷ []) ∷ []; body = 3 }

fntab_set-SetResult_example : SetResult two_functions new_g (fntab_set two_functions new_g)
fntab_set-SetResult_example = fntab_set-SetResult two_functions new_g
