-- ===== src/Kstdlib.antt =====
-- src/lib/kstdlib.c, the string functions of the kernel. A C string is the list of its bytes before the
-- NUL; the byte behind the last one is read as 0. A pointer into a string is the rest of it.
pub mod Compare
mod Tests
use alcor2os.Base.{
  ℕ, zero, suc, ◌+◌, ◌-◌, ◌*◌, ◌/◌, ◌%◌, ◌^◌, ◌≤◌, ◌<◌, min, max, ◌≡◌, refl, sym, ap, ◌∙◌, subst,
  ◌≢◌, ◌↔◌, ◌⊎◌, inl, inr, Bool, true, false, not, ◌&&◌, ◌||◌, Option, none, some, List, [], ◌∷◌,
  ◌++◌, map, arith, ltb, leb, ◌==◌, if◌then◌else◌, ltb→lt, lt→ltb, leb→le, le→ltb, ==_iff, eq→==,
  ne→==, ==→ne, ltb→le, tests, Bool-cases, Option-cases, length, get_elem?, get_or, set, take, drop,
  replicate, length-append, take-append-drop, length-take, length-drop, length-replicate,
  length-set, get_or-set_self, get_or-set_ne, get_or-out, set-out, get_or-replicate, bit,
  count_below, count_below-le, count_below-eq, count_below-change, count_below-pos,
  count_below-zero, take-append_left, take_all, take-drop, drop-drop, get_or-replicate_lt,
}
use native.Mathlib.Decide.{ℕ_discrete}
use alcor2os.Base.Int.{ℤ, pos, negsuc, sub_ℕ}
use alcor2os.Base.Word.{
  u64_mod, sub64, add64, test_bit, set_bit, clear_bit, or_bits, and_not_bits, or64, and_not64,
  test_bit-set_self, test_bit-set_ne, test_bit-clear_self, test_bit-clear_ne, test_bit-or,
  test_bit-and_not, all_ones, set_bit-lt, clear_bit-le, eq_of_bits,
}

-- `*s`
abbrev pub first_byte : List ℕ → ℕ
first_byte [] = 0
first_byte (c ∷ s) = c

pub kstrlen : List ℕ → ℕ
kstrlen [] = 0
kstrlen (c ∷ s) = suc (kstrlen s)

-- The loop that copies while `i < bound && src[i]`.
unfoldable pub copy_bytes : ℕ → List ℕ → List ℕ
copy_bytes zero src = []
copy_bytes (suc n) [] = []
copy_bytes (suc n) (c ∷ src) = c ∷ copy_bytes n src

-- The string that `dst` holds afterwards. `max - 1` wraps at 0, and then the bound is never met.
unfoldable pub kstrncpy : List ℕ → ℕ → List ℕ
kstrncpy src max = if max == 0 then src else copy_bytes (max - 1) src

pub kstrcmp : List ℕ → List ℕ → ℤ
kstrcmp [] b = sub_ℕ 0 (first_byte b)
kstrcmp (x ∷ a) [] = sub_ℕ x 0
kstrcmp (x ∷ a) (y ∷ b) = if x == y then kstrcmp a b else sub_ℕ x y

abbrev pub is_zero : ℤ → Bool
is_zero (pos n) = n == 0
is_zero (negsuc n) = false

pub kstreq : List ℕ → List ℕ → Bool
unfolding kstrcmp
kstreq a b = is_zero (kstrcmp a b)

-- The pointer to the last occurrence of the byte; `last` is the one found so far.
pub strrchr_from : List ℕ → ℕ → Option (List ℕ) → Option (List ℕ)
strrchr_from [] c last = last
strrchr_from (x ∷ s) c last = strrchr_from s c (if x == c then some (x ∷ s) else last)

pub kstrrchr : List ℕ → ℕ → Option (List ℕ)
unfolding strrchr_from
kstrrchr s c = if c == 0 then some [] else strrchr_from s (c % 256) none

-- The loop of `kstrncmp`, entered with `n` at least 1.
pub strncmp_from : List ℕ → List ℕ → ℕ → ℤ
strncmp_from [] b n = sub_ℕ 0 (first_byte b)
strncmp_from (x ∷ a) b n =
    let rest = strncmp_from a (drop 1 b) (n - 1) in
    if x == first_byte b then if n - 1 == 0 then pos 0 else rest else sub_ℕ x (first_byte b)

pub kstrncmp : List ℕ → List ℕ → ℕ → ℤ
unfolding strncmp_from
kstrncmp a b n = if n == 0 then pos 0 else strncmp_from a b n

-- The string that `dst` holds afterwards, and the result.
pub kstrlcat : List ℕ → List ℕ → ℕ → List ℕ × ℕ
unfolding kstrlen copy_bytes
kstrlcat dst src dst_cap =
    if dst_cap == 0
    then (dst, kstrlen src)
    else if leb dst_cap (length dst)
    then (dst, dst_cap + kstrlen src)
    else (dst ++ copy_bytes (dst_cap - length dst - 1) src, length dst + kstrlen src)

-- Byte memory, and the string instructions, which go upwards byte by byte.
abbrev pub put_byte : (ℕ → ℕ) → ℕ → ℕ → ℕ → ℕ
put_byte m a v b = if b == a then v else m b

pub kmemcpy : (ℕ → ℕ) → ℕ → ℕ → ℕ → ℕ → ℕ
kmemcpy m dst src zero = m
kmemcpy m dst src (suc n) = kmemcpy (put_byte m dst (m src)) (dst + 1) (src + 1) n

pub kmemset : (ℕ → ℕ) → ℕ → ℕ → ℕ → ℕ → ℕ
kmemset m dst val zero = m
kmemset m dst val (suc n) = kmemset (put_byte m dst (val % 256)) (dst + 1) val n

pub kzero : (ℕ → ℕ) → ℕ → ℕ → ℕ → ℕ
kzero m dst n = kmemset m dst 0 n
