-- ===== src/Sys/Pipe/Wakeup.antt =====
-- The processes that src/kernel/sys/pipe.c has noted as waiting, and why they are blocked.
use alcor2os.Base.{
  ℕ, zero, suc, ◌+◌, ◌-◌, ◌≤◌, ◌<◌, ◌≡◌, refl, sym, ◌∙◌, ◌≢◌, ◌⊎◌, inl, inr, Bool, true, false, not,
  ◌&&◌, Option, none, some, List, arith, ltb, leb, ◌==◌, if◌then◌else◌, eq→==, ==→ne, Bool-cases,
  length,
}
use mathlib.Core.Bool.{false≢true}
use alcor2os.Process.{
  ProcState, free, ready, running, blocked, zombie, States, set_state, unblock, is_blocked_state,
}
use alcor2os.Sys.Pipe.{
  World, Read, Write, End, read_end, write_end, no_end, close_end, pipe_oft_release, read_bytes,
  read_block, read_wait, cleared_reader, pipe_read_obj, pipe_read_resume, write_size, write_bytes,
  note_writer, write_loop, cleared_writer, pipe_write_obj, pipe_write_resume, is_open, is_blocked,
  wake, fuel_for,
}

-- A blocked reader waits at an empty pipe that can still be written; a blocked writer at a full pipe
-- that can still be read.
pub record NoLostWake (w : World) : Type 0 where
  pub reader : is_blocked w.states w.waiting_reader ≡ true → (w.count ≡ 0) × (0 < w.write_open)
  pub writer : is_blocked w.states w.waiting_writer ≡ true → (4096 ≤ w.count) × (0 < w.read_open)

-- The world that a call leaves, at its end or where it waits.
unfoldable pub after_read : Read → World
after_read (Read.returns r bytes w) = w
after_read (Read.waits w) = w

unfoldable pub after_write : World → Write → World
after_write w (Write.returns r u) = u
after_write w (Write.waits u m) = u
after_write w Write.spins = w

unblock_lem : (s : ProcState) → is_blocked_state (unblock s) ≡ false
unblock_lem free = refl
unblock_lem ready = refl
unblock_lem running = refl
unblock_lem blocked = refl
unblock_lem zombie = refl

-- No process but `q` gets blocked by noting `q`.
pub blocked_set :
    (f : States) (q : ℕ) (o : Option ℕ)
    → is_blocked (set_state f q blocked) o ≡ true
    → (o ≡ some q) ⊎ (is_blocked f o ≡ true)
unfolding is_blocked
blocked_set f q none h = inr h
blocked_set f q (some p) h = ground arith

-- A woken process is blocked no more, and no other process becomes blocked.
blocked_wake :
    (f : States) (o p : Option ℕ) → is_blocked (wake f o) p ≡ true → is_blocked f p ≡ true
unfolding is_blocked wake
blocked_wake f none p h = h
blocked_wake f (some q) none h = h
blocked_wake f (some q) (some p) h = elim (Bool-cases (q == p)) [
  | inl e ↦ absurd (false≢true (sym (unblock_lem (f q)) ∙ (rw e at h)))
  | inr n ↦ rw n at h
]

not_blocked_wake : (f : States) (o : Option ℕ) → is_blocked (wake f o) o ≡ true → ⊥
unfolding is_blocked wake
not_blocked_wake f none h = false≢true h
not_blocked_wake f (some q) h = false≢true (sym (unblock_lem (f q)) ∙ (rw (eq→== q q refl) at h))

-- What the code does to a waiting field and the states: it clears the field and wakes the process, if
-- that is blocked.
blocked_woken :
    (f : States) (o : Option ℕ)
    → is_blocked (if is_blocked f o then wake f o else f) (if is_blocked f o then none else o)
      ≡ true
    → ⊥
unfolding is_blocked
blocked_woken f o h = elim (Bool-cases (is_blocked f o)) [
  | inl b ↦ false≢true (rw b at h)
  | inr n ↦ false≢true (sym n ∙ (rw n at h))
]

blocked_other :
    (f : States) (o p : Option ℕ)
    → is_blocked (if is_blocked f o then wake f o else f) p ≡ true
    → is_blocked f p ≡ true
blocked_other f o p h = elim (Bool-cases (is_blocked f o)) [
  | inl b ↦ blocked_wake f o p (rw b at h)
  | inr n ↦ rw n at h
]

-- The caller of a read is not noted as waiting to write, nor that of a write as waiting to read.
abbrev pub Apart : Option ℕ → Option ℕ → Type 0
Apart o none = Unit {0}
Apart o (some q) = o ≢ some q

read_bytes-NoLostWake :
    (w : World) (n : ℕ) → NoLostWake w → NoLostWake (after_read (read_bytes w n))
unfolding read_bytes after_read
read_bytes-NoLostWake w n v = elim (Bool-cases (w.count == 0)) [
  | inl z ↦ rw z v
  | inr z ↦ rw z (record {
    reader = λ b. absurd (
        ==→ne w.count 0 z
          (v.reader (blocked_other w.states w.waiting_writer w.waiting_reader b)).0);
    writer = λ b. absurd (blocked_woken w.states w.waiting_writer b);
  })
]

read_block-NoLostWake :
    (w : World) (me : Option ℕ)
    → w.count ≡ 0
    → 0 < w.write_open
    → Apart w.waiting_writer me
    → NoLostWake w
    → NoLostWake (after_read (read_block w me))
unfolding read_block after_read
read_block-NoLostWake w none e o a v = v
read_block-NoLostWake w (some q) e o a v = record {
  reader = λ b. (e, o);
  writer = λ b. elim (blocked_set w.states q w.waiting_writer b) [
    | inl s ↦ absurd (a s)
    | inr c ↦ v.writer c
  ];
}

read_wait-NoLostWake :
    (w : World) (me : Option ℕ) (n : ℕ)
    → Apart w.waiting_writer me
    → NoLostWake w
    → NoLostWake (after_read (read_wait w me n))
unfolding read_wait
read_wait-NoLostWake w me n a v = elim (Bool-cases (w.count == 0 && is_open w.write_open)) [
  | inl t ↦ rw t (read_block-NoLostWake w me (ground arith) (ground arith) a v)
  | inr t ↦ rw t (read_bytes-NoLostWake w n v)
]

-- A read by a process that is not noted as the waiting writer keeps this: the process noted as the
-- waiting reader is blocked only while the pipe is empty and has a writer, and the one noted as the
-- waiting writer only while it is full and has a reader.
pub pipe_read_obj-NoLostWake :
    (w : World) (me : Option ℕ) (n : ℕ)
    → Apart w.waiting_writer me
    → NoLostWake w
    → NoLostWake (after_read (pipe_read_obj w me n))
unfolding pipe_read_obj after_read
pipe_read_obj-NoLostWake w me n a v = elim (Bool-cases (not w.allocated)) [
  | inl p ↦ rw p v
  | inr p ↦ rw p (elim (Bool-cases (not (is_open w.read_open))) [
    | inl o ↦ rw o v
    | inr o ↦ rw o (elim (Bool-cases (w.count == 0 && not (is_open w.write_open))) [
      | inl z ↦ rw z v
      | inr z ↦ rw z (read_wait-NoLostWake w me n a v)
    ])
  ])
]

write_bytes-NoLostWake :
    (w : World) (src : List ℕ) (written : ℕ)
    → w.count < 4096
    → NoLostWake w
    → NoLostWake (write_bytes w src written)
unfolding write_bytes
write_bytes-NoLostWake w src written c v = record {
  reader = λ b. absurd (blocked_woken w.states w.waiting_reader b);
  writer = λ b.
      absurd
        (omega (arith, (v.writer (blocked_other w.states w.waiting_reader w.waiting_writer b)).0));
}

Apart-none : (o me : Option ℕ) (b : Bool) → Apart o me → Apart (if b then none else o) me
Apart-none o none b a = tt
Apart-none o (some q) true a = λ e. cc
Apart-none o (some q) false a = a

note_writer-NoLostWake :
    (w : World) (me : Option ℕ)
    → 4096 ≤ w.count
    → 0 < w.read_open
    → Apart w.waiting_reader me
    → NoLostWake w
    → NoLostWake (note_writer w me)
unfolding note_writer
note_writer-NoLostWake w none c o a v = v
note_writer-NoLostWake w (some q) c o a v = record {
  reader = λ b. elim (blocked_set w.states q w.waiting_reader b) [
    | inl s ↦ absurd (a s)
    | inr e ↦ v.reader e
  ];
  writer = λ b. (c, o);
}

write_loop-NoLostWake :
    (f : ℕ) (w0 w : World) (me : Option ℕ) (src : List ℕ) (written : ℕ)
    → Apart w.waiting_reader me
    → NoLostWake w0
    → NoLostWake w
    → NoLostWake (after_write w0 (write_loop f w me src written))
unfolding write_loop after_write
write_loop-NoLostWake zero w0 w me src written a v0 v = v0
write_loop-NoLostWake (suc f) w0 w me src written a v0 v =
    elim (Bool-cases (ltb written (length src))) [
      | inr d ↦ rw d v
      | inl d ↦ rw d (elim (Bool-cases (leb 4096 w.count && is_open w.read_open)) [
        | inl b ↦ rw b (note_writer-NoLostWake w me (ground arith) (ground arith) a v)
        | inr b ↦ rw b (elim (Bool-cases (is_open w.read_open)) [
          | inr o ↦ rw o v
          | inl o ↦ rw o (
              write_loop-NoLostWake f w0 (write_bytes w src written) me src
                (written + write_size w src written) (kept me a) v0
                (write_bytes-NoLostWake w src written (ground arith) v))
        ])
      ])
    ]
  where
    kept :
        (o : Option ℕ)
        → Apart w.waiting_reader o
        → Apart (write_bytes w src written).waiting_reader o
    kept o a' =
        unfold write_bytes in
        Apart-none w.waiting_reader o (is_blocked w.states w.waiting_reader) a'

-- A write by a process that is not noted as the waiting reader keeps this: the process noted as the
-- waiting reader is blocked only while the pipe is empty and has a writer, and the one noted as the
-- waiting writer only while it is full and has a reader.
pub pipe_write_obj-NoLostWake :
    (w : World) (me : Option ℕ) (src : List ℕ)
    → Apart w.waiting_reader me
    → NoLostWake w
    → NoLostWake (after_write w (pipe_write_obj w me src))
unfolding pipe_write_obj after_write
pipe_write_obj-NoLostWake w me src a v = elim (Bool-cases (not w.allocated)) [
  | inl p ↦ rw p v
  | inr p ↦ rw p (elim (Bool-cases (not (is_open w.write_open))) [
    | inl o ↦ rw o v
    | inr o ↦ rw o (elim (Bool-cases (not (is_open w.read_open))) [
      | inl z ↦ rw z v
      | inr z ↦ rw z (write_loop-NoLostWake (fuel_for src 0) w w me src 0 a v v)
    ])
  ])
]

-- So do the parts of a read and of a write behind a wait.
pub pipe_read_resume-NoLostWake :
    (w : World) (me : Option ℕ) (n : ℕ)
    → Apart w.waiting_writer me
    → NoLostWake w
    → NoLostWake (after_read (pipe_read_resume w me n))
unfolding pipe_read_resume is_blocked
pipe_read_resume-NoLostWake w none n a v = read_wait-NoLostWake w none n a v
pipe_read_resume-NoLostWake w (some q) n a v =
    read_wait-NoLostWake (cleared_reader w (some q)) (some q) n a
      (record { reader = λ b. absurd (false≢true b); writer = v.writer })

pub pipe_write_resume-NoLostWake :
    (w : World) (me : Option ℕ) (src : List ℕ) (written : ℕ)
    → Apart w.waiting_reader me
    → NoLostWake w
    → NoLostWake (after_write w (pipe_write_resume w me src written))
unfolding pipe_write_resume is_blocked
pipe_write_resume-NoLostWake w none src written a v =
    write_loop-NoLostWake (fuel_for src written) w w none src written a v v
pipe_write_resume-NoLostWake w (some q) src written a v =
    write_loop-NoLostWake (fuel_for src written) w (cleared_writer w (some q)) (some q) src written
      a v (record { reader = v.reader; writer = λ b. absurd (false≢true b) })

-- Closing an end keeps it too: who waits for that end is woken.
close_end-NoLostWake : (w : World) (kind : End) → NoLostWake w → NoLostWake (close_end w kind)
unfolding close_end
close_end-NoLostWake w no_end v = v
close_end-NoLostWake w read_end v = elim (Bool-cases (is_open (w.read_open - 1))) [
  | inl o ↦ rw o (record { reader = v.reader; writer = λ b. ((v.writer b).0, ground arith) })
  | inr o ↦ rw o (record {
    reader = λ b. v.reader (blocked_wake w.states w.waiting_writer w.waiting_reader b);
    writer = λ b. absurd (not_blocked_wake w.states w.waiting_writer b);
  })
]
close_end-NoLostWake w write_end v = elim (Bool-cases (is_open (w.write_open - 1))) [
  | inl o ↦ rw o (record { reader = λ b. ((v.reader b).0, ground arith); writer = v.writer })
  | inr o ↦ rw o (record {
    reader = λ b. absurd (blocked_woken w.states w.waiting_reader b);
    writer = λ b. v.writer (blocked_other w.states w.waiting_reader w.waiting_writer b);
  })
]

-- Closing an end of a pipe keeps this: the process noted as the waiting reader is blocked only
-- while the pipe is empty and has a writer, and the one noted as the waiting writer only while it
-- is full and has a reader.
pub pipe_oft_release-NoLostWake :
    (w : World) (kind : End) → NoLostWake w → NoLostWake (pipe_oft_release w kind)
unfolding pipe_oft_release
pipe_oft_release-NoLostWake w kind v =
    elim (Bool-cases
      (not (is_open (close_end w kind).read_open) && not (is_open (close_end w kind).write_open))) [
        | inl c ↦ rw c (record {
          reader = (close_end-NoLostWake w kind v).reader;
          writer = (close_end-NoLostWake w kind v).writer;
        })
        | inr c ↦ rw c (close_end-NoLostWake w kind v)
      ]
