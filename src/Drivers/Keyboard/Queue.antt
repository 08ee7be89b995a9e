-- ===== src/Drivers/Keyboard/Queue.antt =====
-- The scancode ring of src/drivers/keyboard/keyboard.c is a queue of at most 255 bytes.
use alcor2os.Base.{
  ℕ, zero, suc, ◌+◌, ◌-◌, ◌%◌, ◌^◌, ◌<◌, ◌≡◌, refl, sym, ap, ◌∙◌, ◌≢◌, inl, inr, true, List, [],
  ◌∷◌, ◌++◌, arith, ltb, ◌==◌, if◌then◌else◌, ltb→lt, ==_iff, eq→==, ne→==, ==→ne, ltb→le,
  Bool-cases, length, set, take, length-set, take-append_left, take_all,
}
use native.Mathlib.Numerals.{add-one}
use native.Mathlib.Nat.{add-zero, zero-add}
use mathlib.Core.List.{append-nil, append_assoc}
use alcor2os.Base.Ring.{window, length-window, window-push, window-pop}
use alcor2os.Drivers.Keyboard.{
  Keyboard, kb_buffer_size, keyboard_irq, keyboard_raw_available, keyboard_raw_pop, peek_from,
  keyboard_raw_peek,
}

pub record IsValid (k : Keyboard) : Type 0 where
  pub sized : length k.kb_buffer ≡ kb_buffer_size
  pub read_in : k.kb_read_pos < kb_buffer_size
  pub write_in : k.kb_write_pos < kb_buffer_size
  pub drop_in : k.kb_drop_count < 2 ^ 32

-- How many bytes are unread, and which, oldest first.
abbrev pub pending : Keyboard → ℕ
pending k = (k.kb_write_pos + kb_buffer_size - k.kb_read_pos) % kb_buffer_size

pub scancodes : Keyboard → List ℕ
scancodes k = window k.kb_buffer kb_buffer_size k.kb_read_pos (pending k)

-- A byte stored at the write index is behind the unread ones.
store-scancodes :
    (k : Keyboard) (b : ℕ)
    → IsValid k
    → (k.kb_write_pos + 1) % 256 ≢ k.kb_read_pos
    → window
        (set k.kb_buffer k.kb_write_pos b)
        256
        k.kb_read_pos
        (((k.kb_write_pos + 1) % 256 + 256 - k.kb_read_pos) % 256)
      ≡ scancodes k ++ b ∷ []
unfolding scancodes
store-scancodes k b v ne =
    let w : k.kb_write_pos ≡ (k.kb_read_pos + pending k) % 256 = omega arith in
    let n : ((k.kb_write_pos + 1) % 256 + 256 - k.kb_read_pos) % 256 ≡ suc (pending k) =
      omega arith in
    rw n (
      ap (λ z. window (set k.kb_buffer z b) 256 k.kb_read_pos (suc (pending k))) w
      ∙ window-push k.kb_buffer 256 k.kb_read_pos (pending k) b (omega arith) v.read_in
          (omega arith))

-- On a valid ring the interrupt handler appends the byte to the unread ones, or drops it and counts
-- the drop, modulo 2^32, exactly when 255 bytes are unread; the ring stays valid.
pub keyboard_irq-scancodes :
    (k : Keyboard) (b : ℕ)
    → IsValid k
    → let k' = keyboard_irq k b in
      let full = length (scancodes k) == 255 in
      IsValid k'
      × (scancodes k' ≡ (if full then scancodes k else scancodes k ++ b ∷ []))
      × (k'.kb_drop_count ≡ (if full then (k.kb_drop_count + 1) % 2 ^ 32 else k.kb_drop_count))
unfolding keyboard_irq scancodes
keyboard_irq-scancodes k b v = elim (Bool-cases ((k.kb_write_pos + 1) % 256 == k.kb_read_pos)) [
  | inl f ↦
      let e : pending k ≡ 255 = ground arith in
      rw (f, length-window k.kb_buffer 256 k.kb_read_pos (pending k), eq→== (pending k) 255 e)
        (
          record {
            sized = v.sized;
            read_in = v.read_in;
            write_in = v.write_in;
            drop_in = omega arith;
          },
          refl,
          refl,
        )
  | inr f ↦
      let ne : (k.kb_write_pos + 1) % 256 ≢ k.kb_read_pos = ==→ne _ _ f in
      rw
        (
          f,
          length-window k.kb_buffer 256 k.kb_read_pos (pending k),
          ne→== (pending k) 255 (λ e. omega arith),
        )
        (
          record {
            sized = omega (arith, length-set k.kb_buffer k.kb_write_pos b);
            read_in = v.read_in;
            write_in = omega arith;
            drop_in = v.drop_in;
          },
          store-scancodes k b v ne,
          refl,
        )
]

-- On a valid ring keyboard_raw_available says whether a byte is unread; if so keyboard_raw_pop
-- returns the oldest and leaves the others, and the ring stays valid in either case.
pub keyboard_raw_pop-scancodes :
    (k : Keyboard)
    → IsValid k
    → let (b, k') = keyboard_raw_pop k in
      IsValid k'
      × (if keyboard_raw_available k then scancodes k ≡ b ∷ scancodes k' else scancodes k ≡ [])
unfolding keyboard_raw_pop keyboard_raw_available scancodes window
keyboard_raw_pop-scancodes k v = elim (Bool-cases (k.kb_read_pos == k.kb_write_pos)) [
  | inl f ↦
      let e : pending k ≡ 0 = ground arith in
      rw (f, e)
        (
          record {
            sized = v.sized;
            read_in = omega arith;
            write_in = v.write_in;
            drop_in = v.drop_in;
          },
          refl,
        )
  | inr f ↦
      let ne : k.kb_read_pos ≢ k.kb_write_pos = ==→ne _ _ f in
      let n : pending k ≡ suc ((k.kb_write_pos + 256 - (k.kb_read_pos + 1) % 256) % 256) =
        omega arith in
      rw (f, n)
        (
          record {
            sized = v.sized;
            read_in = omega arith;
            write_in = v.write_in;
            drop_in = v.drop_in;
          },
          window-pop k.kb_buffer 256 k.kb_read_pos
              ((k.kb_write_pos + 256 - (k.kb_read_pos + 1) % 256) % 256) v.read_in (omega arith),
        )
]

-- The copy loop writes the bytes of the window from `i` on.
window-peek_from :
    (r i : ℕ) (k : Keyboard)
    → window k.kb_buffer 256 k.kb_read_pos (i + r)
      ≡ window k.kb_buffer 256 k.kb_read_pos i ++ peek_from r k i
unfolding peek_from window
window-peek_from zero i k = simp (add-zero, append-nil)
window-peek_from (suc r) i k =
    let e : i + suc r ≡ i + 1 + r = omega arith in
    let one : window k.kb_buffer 256 k.kb_read_pos (i + 1)
        ≡ window k.kb_buffer 256 k.kb_read_pos (suc i) =
      ap (window k.kb_buffer 256 k.kb_read_pos) (add-one i) in
    ap (window k.kb_buffer 256 k.kb_read_pos) e
    ∙ window-peek_from r (i + 1) k
    ∙ ap (λ xs. xs ++ peek_from r k (i + 1)) one
    ∙ append_assoc (window k.kb_buffer 256 k.kb_read_pos i) _ _

-- On a valid ring a peek into a buffer of a given capacity copies the oldest unread bytes, as many
-- as fit.
pub keyboard_raw_peek-scancodes :
    (k : Keyboard) (cap : ℕ) → IsValid k → keyboard_raw_peek k true cap ≡ take cap (scancodes k)
unfolding keyboard_raw_peek scancodes window
keyboard_raw_peek-scancodes k cap v = elim (Bool-cases (cap == 0)) [
  | inl z ↦ rw z (ap (λ n. take n (scancodes k)) (sym ((==_iff cap 0).0 z)))
  | inr z ↦ rw z (elim (Bool-cases (ltb cap (pending k))) [
    | inl l ↦
        let lt : cap < pending k = ltb→lt cap (pending k) l in
        let split : pending k ≡ cap + (pending k - cap) = omega arith in
        let whole : window k.kb_buffer 256 k.kb_read_pos (pending k)
            ≡ peek_from cap k 0 ++ peek_from (pending k - cap) k cap =
          ap (window k.kb_buffer 256 k.kb_read_pos) split
          ∙ window-peek_from (pending k - cap) cap k
          ∙ ap (λ xs. xs ++ peek_from (pending k - cap) k cap) (first cap) in
        rw (l, whole)
          (sym (
            take-append_left cap (peek_from cap k 0) (peek_from (pending k - cap) k cap)
              (ap length (sym (first cap)) ∙ length-window k.kb_buffer 256 k.kb_read_pos cap)))
    | inr g ↦
        rw (g, ← first (pending k))
          (sym (
            take_all cap (window k.kb_buffer 256 k.kb_read_pos (pending k)) (
              omega (
                arith,
                ltb→le cap (pending k) g,
                length-window k.kb_buffer 256 k.kb_read_pos (pending k),
              ))))
  ])
]
  where
    first : (n : ℕ) → window k.kb_buffer 256 k.kb_read_pos n ≡ peek_from n k 0
    first n = ap (window k.kb_buffer 256 k.kb_read_pos) (sym (zero-add n)) ∙ window-peek_from n 0 k
