-- ===== src/Vega/Fntab.antt =====
-- user/sdk/vega/fntab.c, the table of the shell's functions. The body of a function is of any type. What
-- is given to `free` is recorded.
pub mod Lookup
mod Tests
use alcor2os.Base.{
  ℕ, zero, suc, ◌+◌, ◌-◌, ◌*◌, ◌/◌, ◌%◌, ◌^◌, ◌≤◌, ◌<◌, min, max, ◌≡◌, refl, sym, ap, ◌∙◌, subst,
  ◌≢◌, ◌↔◌, ◌⊎◌, inl, inr, Bool, true, false, not, ◌&&◌, ◌||◌, Option, none, some, List, [], ◌∷◌,
  ◌++◌, map, arith, ltb, leb, ◌==◌, if◌then◌else◌, ltb→lt, lt→ltb, leb→le, le→ltb, ==_iff, eq→==,
  ne→==, ==→ne, ltb→le, tests, Bool-cases, Option-cases, length, get_elem?, get_or, set, take, drop,
  replicate, length-append, take-append-drop, length-take, length-drop, length-replicate,
  length-set, get_or-set_self, get_or-set_ne, get_or-out, set-out, get_or-replicate, bit,
  count_below, count_below-le, count_below-eq, count_below-change, count_below-pos,
  count_below-zero, take-append_left, take_all, take-drop, drop-drop, get_or-replicate_lt,
}
use native.Mathlib.Decide.{ℕ_discrete, dec_lt}

abbrev pub max_functions : ℕ
max_functions = 16

-- `fn_entry_t`
pub record FnEntry (B : Type 0) : Type 0 where
  pub name : List ℕ
  pub arg_names : List (List ℕ)
  pub body : B

pub record Fntab (B : Type 0) : Type 0 where
  pub table : List (FnEntry B)
  pub freed : List (FnEntry B)

-- `strcmp(a, b) == 0`
pub same_string : List ℕ → List ℕ → Bool
same_string [] [] = true
same_string [] (y ∷ b) = false
same_string (x ∷ a) [] = false
same_string (x ∷ a) (y ∷ b) = x == y && same_string a b

module _ {B : Type 0} where
  -- The first slot of the name.
  pub find_slot : List (FnEntry B) → ℕ → List ℕ → Option ℕ
  find_slot [] i name = none
  find_slot (e ∷ es) i name =
      let rest = find_slot es (suc i) name in if same_string e.name name then some i else rest

  -- A slot of the name is freed and taken over; else the table grows, unless it is full.
  pub set_slot : Fntab B → FnEntry B → Option ℕ → Bool × Fntab B
  set_slot t e (some i) =
      (true, record { table = set t.table i e; freed = t.freed ++ get_or t.table i e ∷ [] })
  set_slot t e none =
      if leb max_functions (length t.table)
      then (false, t)
      else (true, record t { table = t.table ++ e ∷ [] })

  -- Whether the function was stored: 0 or -1 in the source.
  pub fntab_set : Fntab B → FnEntry B → Bool × Fntab B
  fntab_set t e = set_slot t e (find_slot t.table 0 e.name)

  pub entry_of : List (FnEntry B) → Option ℕ → Option (FnEntry B)
  entry_of es none = none
  entry_of es (some i) = get_elem? es i

  pub fntab_get : Fntab B → List ℕ → Option (FnEntry B)
  fntab_get t name = entry_of t.table (find_slot t.table 0 name)
