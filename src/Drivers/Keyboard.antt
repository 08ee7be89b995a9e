-- ===== src/Drivers/Keyboard.antt =====
-- src/drivers/keyboard/keyboard.c, the ring of raw scancodes between the interrupt handler and the
-- reader. The byte that `inb` delivers is the argument of `keyboard_irq`; masking interrupts round a
-- pop makes each function one step.
pub mod Queue
mod Tests
use alcor2os.Base.{
  ℕ, zero, suc, ◌+◌, ◌-◌, ◌*◌, ◌/◌, ◌%◌, ◌^◌, ◌≤◌, ◌<◌, min, max, ◌≡◌, refl, sym, ap, ◌∙◌, subst,
  ◌≢◌, ◌↔◌, ◌⊎◌, inl, inr, Bool, true, false, not, ◌&&◌, ◌||◌, Option, none, some, List, [], ◌∷◌,
  ◌++◌, map, arith, ltb, leb, ◌==◌, if◌then◌else◌, ltb→lt, lt→ltb, leb→le, le→ltb, ==_iff, eq→==,
  ne→==, ==→ne, ltb→le, tests, Bool-cases, Option-cases, length, get_elem?, get_or, set, take, drop,
  replicate, length-append, take-append-drop, length-take, length-drop, length-replicate,
  length-set, get_or-set_self, get_or-set_ne, get_or-out, set-out, get_or-replicate, bit,
  count_below, count_below-le, count_below-eq, count_below-change, count_below-pos,
  count_below-zero, get_or-replicate_lt,
}
use native.Mathlib.Decide.{ℕ_discrete}

abbrev pub kb_buffer_size : ℕ
kb_buffer_size = 256

pub record Keyboard : Type 0 where
  pub kb_buffer : List ℕ
  pub kb_read_pos : ℕ
  pub kb_write_pos : ℕ
  pub kb_drop_count : ℕ

pub kb_push : Keyboard → ℕ → Keyboard
kb_push k b =
    let next = (k.kb_write_pos + 1) % kb_buffer_size in
    if not (next == k.kb_read_pos)
    then record k { kb_buffer = set k.kb_buffer k.kb_write_pos b; kb_write_pos = next }
    else record k { kb_drop_count = (k.kb_drop_count + 1) % 2 ^ 32 }

pub keyboard_irq : Keyboard → ℕ → Keyboard
unfolding kb_push
keyboard_irq k scancode = kb_push k scancode

pub keyboard_raw_drop_count : Keyboard → ℕ
keyboard_raw_drop_count k = k.kb_drop_count

pub keyboard_raw_available : Keyboard → Bool
keyboard_raw_available k = not (k.kb_read_pos == k.kb_write_pos)

pub keyboard_raw_pop : Keyboard → ℕ × Keyboard
keyboard_raw_pop k = (
  get_or k.kb_buffer k.kb_read_pos 0,
  record k { kb_read_pos = (k.kb_read_pos + 1) % kb_buffer_size },
)

-- The copy loop, with the rounds left: what it writes to `dst` from index `i` on.
pub peek_from : ℕ → Keyboard → ℕ → List ℕ
peek_from zero k i = []
peek_from (suc r) k i =
    get_or k.kb_buffer ((k.kb_read_pos + i) % kb_buffer_size) 0 ∷ peek_from r k (i + 1)

-- The bytes written to `dst`; their number is the result. The Boolean says that `dst` is not null.
pub keyboard_raw_peek : Keyboard → Bool → ℕ → List ℕ
unfolding peek_from
keyboard_raw_peek k has_dst cap =
    if not has_dst || cap == 0
    then []
    else (let n = (k.kb_write_pos + kb_buffer_size - k.kb_read_pos) % kb_buffer_size in
        peek_from (if ltb cap n then cap else n) k 0)
