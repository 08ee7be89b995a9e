-- ===== src/Sys/Pipe/Written.antt =====
-- What a write to a pipe of src/kernel/sys/pipe.c appends.
use alcor2os.Base.{
  ℕ, zero, suc, ◌+◌, ◌-◌, ◌%◌, ◌≤◌, ◌<◌, ◌≡◌, refl, sym, ap, ◌∙◌, ◌⊎◌, inl, inr, false, not, ◌&&◌,
  Option, none, some, List, [], ◌∷◌, ◌++◌, arith, ltb, leb, ltb→lt, ltb→le, Bool-cases, length, set,
  take, drop, length-take, length-drop, length-set, take-drop, drop-drop,
}
use mathlib.Core.List.{append-nil, append_assoc}
use alcor2os.Base.Errno.{ok, err, ebadf, epipe}
use alcor2os.Base.Ring.{window, window-push}
use alcor2os.Sys.Pipe.{
  World, Write, copy_in, write_size, write_bytes, note_writer, write_loop, cleared_writer,
  pipe_write_resume, pipe_write_obj, is_open, fuel_for,
}
use alcor2os.Sys.Pipe.Fifo.{IsValid, contents}

-- The copy from `src` puts the bytes behind the window.
record CopiedIn (src buf : List ℕ) (c h : ℕ) (out : List ℕ × ℕ) : Type 0 where
  bytes : window out.0 4096 h (c + length src) ≡ window buf 4096 h c ++ src
  sized : length out.0 ≡ length buf
  index : out.1 ≡ (h + (c + length src)) % 4096

copy_in-CopiedIn :
    (src buf : List ℕ) (c h pos : ℕ)
    → length buf ≡ 4096
    → h < 4096
    → c + length src ≤ 4096
    → pos ≡ (h + c) % 4096
    → CopiedIn src buf c h (copy_in src buf pos)
unfolding copy_in
copy_in-CopiedIn [] buf c h pos s l m e = record {
  bytes = rw append-nil (ap (window buf 4096 h) (omega arith));
  sized = refl;
  index = omega arith;
}
copy_in-CopiedIn (x ∷ xs) buf c h pos s l m e =
    let r : CopiedIn xs (set buf pos x) (suc c) h (copy_in xs (set buf pos x) ((pos + 1) % 4096)) =
      copy_in-CopiedIn xs (set buf pos x) (suc c) h ((pos + 1) % 4096)
        (omega (arith, length-set buf pos x)) l (omega arith) (omega arith) in
    let n : c + suc (length xs) ≡ suc c + length xs = omega arith in
    let pushed : window (set buf pos x) 4096 h (suc c) ≡ window buf 4096 h c ++ x ∷ [] =
      rw e (window-push buf 4096 h c x (omega arith) l (omega arith)) in
    record {
      bytes =
          rw n
            (r.bytes ∙ ap (λ ys. ys ++ xs) pushed ∙ append_assoc (window buf 4096 h c) (x ∷ []) xs);
      sized = omega (arith, r.sized, length-set buf pos x);
      index = rw n r.index;
    }

-- What a write of `src` from byte `written` on does: it appends a part of it, and returns what was
-- written when all of it is or no reader is left, or waits for a reader at a full pipe.
unfoldable pub Writes : World → List ℕ → ℕ → Write → Type 0
Writes w src written (Write.returns r w') =
    (k : ℕ) × IsValid w'.pipe
    × (contents w'.pipe ≡ contents w.pipe ++ take k (drop written src))
    × (((r ≡ ok (written + k)) × ((written + k ≡ length src) ⊎ (w.read_open ≡ 0)))
        ⊎ (((r ≡ err epipe) × (w.read_open ≡ 0) × (written + k ≡ 0))
            ⊎ ((r ≡ err ebadf) × (written + k ≡ 0) × ((w.allocated ≡ false) ⊎ (w.write_open ≡ 0)))))
Writes w src written (Write.waits w' m) =
    IsValid w'.pipe
    × (contents w'.pipe ≡ contents w.pipe ++ take (m - written) (drop written src))
    × (written ≤ m)
    × (m < length src)
    × (w'.count ≡ 4096)
    × (0 < w.read_open)
Writes w src written Write.spins = ⊥

-- One round: at least a byte is copied.
record Round (w : World) (src : List ℕ) (written : ℕ) (w' : World) (n : ℕ) : Type 0 where
  valid : IsValid w'.pipe
  bytes : contents w'.pipe ≡ contents w.pipe ++ take n (drop written src)
  some_bytes : 0 < n
  fits : written + n ≤ length src
  reader : w'.read_open ≡ w.read_open

write_bytes-Round :
    (w : World) (src : List ℕ) (written : ℕ)
    → IsValid w.pipe
    → written < length src
    → w.count < 4096
    → Round w src written (write_bytes w src written) (write_size w src written)
unfolding write_bytes write_size contents
write_bytes-Round w src written v h s =
    let n : ℕ = write_size w src written in
    let f : (0 < n) × (written + n ≤ length src) × (w.count + n ≤ 4096) = ground arith in
    let piece : List ℕ = take n (drop written src) in
    let len : length piece ≡ n =
      omega (arith, length-take n (drop written src), length-drop written src) in
    let r : CopiedIn piece w.buffer w.count w.read_pos (copy_in piece w.buffer w.write_pos) =
      copy_in-CopiedIn piece w.buffer w.count w.read_pos w.write_pos v.sized v.read_in (omega arith)
        v.write_at in
    record {
      valid = record {
        sized = r.sized ∙ v.sized;
        read_in = v.read_in;
        write_at = r.index ∙ ap (λ z. (w.read_pos + (w.count + z)) % 4096) len;
        bounded = f.2;
      };
      bytes =
          ap (λ z. window (copy_in piece w.buffer w.write_pos).0 4096 w.read_pos (w.count + z))
            (sym len)
          ∙ r.bytes;
      some_bytes = f.0;
      fits = f.1;
      reader = refl;
    }

slice_append :
    (xs src : List ℕ) (written n k : ℕ)
    → (xs ++ take n (drop written src)) ++ take k (drop (written + n) src)
      ≡ xs ++ take (n + k) (drop written src)
slice_append xs src written n k =
    append_assoc xs (take n (drop written src)) (take k (drop (written + n) src))
    ∙ ap (◌++◌ xs) (
        ap (λ z. take n (drop written src) ++ take k z) (sym (drop-drop written n src))
        ∙ take-drop n k (drop written src))

-- The rounds that follow continue the write.
Round-append :
    (w w' : World) (src : List ℕ) (written n : ℕ) (res : Write)
    → Round w src written w' n
    → Writes w' src (written + n) res
    → Writes w src written res
unfolding Writes
Round-append w w' src written n (Write.returns r u) a (k, valid, bytes, what) = (
  n + k,
  valid,
  bytes
      ∙ ap (λ xs. xs ++ take k (drop (written + n) src)) a.bytes
      ∙ slice_append (contents w.pipe) src written n k,
  elim what [
    | inl (e, d) ↦ inl (
      e ∙ ap ok (omega arith),
      elim d [ inl f ↦ inl (omega arith) | inr f ↦ inr (omega (arith, a.reader)) ],
    )
    | inr (inl (e, f, g)) ↦ absurd (omega (arith, a.some_bytes))
    | inr (inr (e, f, g)) ↦ absurd (omega (arith, a.some_bytes))
  ],
)
Round-append w w' src written n (Write.waits u m) a (valid, bytes, le, lt, full, reader) =
    let split : m - written ≡ n + (m - (written + n)) = omega arith in
    (
      valid,
      bytes
          ∙ ap (λ xs. xs ++ take (m - (written + n)) (drop (written + n) src)) a.bytes
          ∙ slice_append (contents w.pipe) src written n (m - (written + n))
          ∙ ap (λ z. contents w.pipe ++ take z (drop written src)) (sym split),
      omega arith,
      lt,
      full,
      omega (arith, a.reader),
    )
Round-append w w' src written n Write.spins a b = b

take_none : (xs src : List ℕ) (n written : ℕ) → n ≡ 0 → xs ≡ xs ++ take n (drop written src)
take_none xs src n written e = rw (e, append-nil)

note_writer-Writes :
    (w : World) (me : Option ℕ) (src : List ℕ) (written : ℕ)
    → IsValid w.pipe
    → written < length src
    → w.count ≡ 4096
    → 0 < w.read_open
    → Writes w src written (Write.waits (note_writer w me) written)
unfolding note_writer Writes contents
note_writer-Writes w none src written v h e o = (
  v,
  take_none (contents w.pipe) src (written - written) written (omega arith),
  omega arith,
  h,
  e,
  o,
)
note_writer-Writes w (some q) src written v h e o = (
  record { sized = v.sized; read_in = v.read_in; write_at = v.write_at; bounded = v.bounded },
  take_none (contents w.pipe) src (written - written) written (omega arith),
  omega arith,
  h,
  e,
  o,
)

write_loop-Writes :
    (f : ℕ) (w : World) (me : Option ℕ) (src : List ℕ) (written : ℕ)
    → IsValid w.pipe
    → written ≤ length src
    → length src - written < f
    → Writes w src written (write_loop f w me src written)
unfolding write_loop Writes
write_loop-Writes zero w me src written v le h = elim h [ ]
write_loop-Writes (suc f) w me src written v le h = elim (Bool-cases (ltb written (length src))) [
  | inr d ↦ rw d (
    0,
    v,
    take_none (contents w.pipe) src 0 written refl,
    inl (ap ok (omega arith), inl (omega (arith, ltb→le written (length src) d))),
  )
  | inl d ↦
      let more : written < length src = ltb→lt written (length src) d in
      rw d (elim (Bool-cases (leb 4096 w.count && is_open w.read_open)) [
        | inl b ↦
            rw b (
              note_writer-Writes w me src written v more (ground (arith, v.bounded)) (ground arith))
        | inr b ↦ rw b (elim (Bool-cases (is_open w.read_open)) [
          | inr o ↦ rw o (elim (Bool-cases (ltb 0 written)) [
            | inl p ↦ rw p (
              0,
              v,
              take_none (contents w.pipe) src 0 written refl,
              inl (ap ok (omega arith), inr (ground arith)),
            )
            | inr z ↦ rw z (
              0,
              v,
              take_none (contents w.pipe) src 0 written refl,
              inr (inl (refl, ground arith, omega (arith, ltb→le 0 written z))),
            )
          ])
          | inl o ↦
              let a : Round w src written (write_bytes w src written) (write_size w src written) =
                write_bytes-Round w src written v more (ground arith) in
              rw o (
                Round-append w (write_bytes w src written) src written (write_size w src written) _
                  a
                  (write_loop-Writes f (write_bytes w src written) me src
                    (written + write_size w src written) a.valid a.fits
                    (omega (arith, a.some_bytes))))
        ])
      ])
]

-- A write to a well-formed pipe appends a first part of its bytes and keeps the pipe well formed:
-- it returns when all are written or no reader is left, with their number or EPIPE or EBADF, or
-- waits at a full pipe that has a reader, and its loop ends.
pub pipe_write_obj-Writes :
    (w : World) (me : Option ℕ) (src : List ℕ)
    → IsValid w.pipe
    → Writes w src 0 (pipe_write_obj w me src)
unfolding pipe_write_obj Writes
pipe_write_obj-Writes w me src v = elim (Bool-cases (not w.allocated)) [
  | inl a ↦
      rw a (0, v, sym (append-nil (contents w.pipe)), inr (inr (refl, refl, inl (ground arith))))
  | inr a ↦ rw a (elim (Bool-cases (not (is_open w.write_open))) [
    | inl o ↦
        rw o (0, v, sym (append-nil (contents w.pipe)), inr (inr (refl, refl, inr (ground arith))))
    | inr o ↦ rw o (elim (Bool-cases (not (is_open w.read_open))) [
      | inl r ↦
          rw r (0, v, sym (append-nil (contents w.pipe)), inr (inl (refl, ground arith, refl)))
      | inr r ↦ rw r (write_loop-Writes (fuel_for src 0) w me src 0 v (omega arith) (omega arith))
    ])
  ])
]

-- So does one that goes on after a wait.
pub pipe_write_resume-Writes :
    (w : World) (me : Option ℕ) (src : List ℕ) (written : ℕ)
    → IsValid w.pipe
    → written ≤ length src
    → Writes w src written (pipe_write_resume w me src written)
unfolding pipe_write_resume Writes contents
pipe_write_resume-Writes w none src written v h =
    write_loop-Writes (fuel_for src written) w none src written v h (omega arith)
pipe_write_resume-Writes w (some q) src written v h =
    write_loop-Writes (fuel_for src written) (cleared_writer w (some q)) (some q) src written
      (record { sized = v.sized; read_in = v.read_in; write_at = v.write_at; bounded = v.bounded })
      h (omega arith)
