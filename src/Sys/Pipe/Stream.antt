-- ===== src/Sys/Pipe/Stream.antt =====
-- A whole history of calls on one pipe of src/kernel/sys/pipe.c, by any processes in any order.
use alcor2os.Base.{
  ℕ, ◌-◌, ◌≤◌, ◌≡◌, refl, sym, ap, ◌∙◌, subst, inl, inr, Option, List, [], ◌++◌, arith, length,
  take, drop, length-replicate,
}
use mathlib.Core.List.{append_assoc}
use alcor2os.Base.Errno.{Result, ok, err}
use alcor2os.Base.Ring.{window}
use alcor2os.Process.{States}
use alcor2os.Sys.Pipe.{
  World, fresh_pipe, Read, Write, End, read_end, write_end, no_end, close_end, pipe_oft_release,
  pipe_read_obj, pipe_read_resume, pipe_write_obj, pipe_write_resume,
}
use alcor2os.Sys.Pipe.Fifo.{IsValid, contents, Reads, pipe_read_obj-Reads, pipe_read_resume-Reads}
use alcor2os.Sys.Pipe.Written.{Writes, pipe_write_obj-Writes, pipe_write_resume-Writes}

-- The pipe, the processes, and the bytes that all writes took and all reads returned so far.
pub record History : Type 0 where
  pub world : World
  pub sent : List ℕ
  pub received : List ℕ

abbrev pub after_read : History → Read → History
after_read s (Read.returns r bytes w) = record s { world = w; received = s.received ++ bytes }
after_read s (Read.waits w) = record s { world = w }

-- The bytes that a write behind byte `written` took.
abbrev pub accepted : Result ℕ → ℕ → ℕ
accepted (ok m) written = m - written
accepted (err e) written = 0

abbrev pub after_write : History → List ℕ → ℕ → Write → History
after_write s src written (Write.returns r w) = record s {
  world = w;
  sent = s.sent ++ take (accepted r written) (drop written src);
}
after_write s src written (Write.waits w m) = record s {
  world = w;
  sent = s.sent ++ take (m - written) (drop written src);
}
after_write s src written Write.spins = s

-- One call, or the part of one between two waits. `others` is what else changes the processes' states.
pub data Step (s : History) : History → Type 0 where
  reads : (me : Option ℕ) (n : ℕ) → Step s (after_read s (pipe_read_obj s.world me n))
  read_resumes : (me : Option ℕ) (n : ℕ) → Step s (after_read s (pipe_read_resume s.world me n))
  writes :
      (me : Option ℕ) (src : List ℕ) → Step s (after_write s src 0 (pipe_write_obj s.world me src))
  write_resumes :
      (me : Option ℕ) (src : List ℕ) (written : ℕ)
      → written ≤ length src
      → Step s (after_write s src written (pipe_write_resume s.world me src written))
  releases : (kind : End) → Step s (record s { world = pipe_oft_release s.world kind })
  others : (f : States) → Step s (record s { world = record (s.world) { states = f } })

pub data Reach (s : History) : History → Type 0 where
  here : Reach s s
  next : {t u : History} → Reach s t → Step t u → Reach s u

-- A pipe as `alloc_pipe` leaves it, with no call yet.
abbrev pub begin : States → History
begin f = record { world = record { pipe = fresh_pipe; states = f }; sent = []; received = [] }

-- The bytes received are the first of those sent, and the rest lies in the pipe.
pub record IsStream (s : History) : Type 0 where
  pub valid : IsValid s.world.pipe
  pub stream : s.sent ≡ s.received ++ contents s.world.pipe

after_read-IsStream :
    (s : History) (n : ℕ) (r : Read) → Reads s.world n r → IsStream s → IsStream (after_read s r)
unfolding Reads
after_read-IsStream s n (Read.returns r bytes w) (valid, split, what) i = record {
  valid = valid;
  stream =
      i.stream ∙ ap (◌++◌ s.received) split ∙ sym (append_assoc s.received bytes (contents w.pipe));
}
after_read-IsStream s n (Read.waits w) (valid, same, empty, open_end) i = record {
  valid = valid;
  stream = i.stream ∙ ap (◌++◌ s.received) (sym same);
}

grow :
    (s : History) (w : World) (piece : List ℕ)
    → IsStream s
    → IsValid w.pipe
    → contents w.pipe ≡ contents s.world.pipe ++ piece
    → IsStream (record s { world = w; sent = s.sent ++ piece })
grow s w piece i valid bytes = record {
  valid = valid;
  stream =
      ap (λ xs. xs ++ piece) i.stream
      ∙ append_assoc s.received (contents s.world.pipe) piece
      ∙ ap (◌++◌ s.received) (sym bytes);
}

after_write-IsStream :
    (s : History) (src : List ℕ) (written : ℕ) (r : Write)
    → Writes s.world src written r
    → IsStream s
    → IsStream (after_write s src written r)
unfolding Writes
after_write-IsStream s src written (Write.returns r w) (k, valid, bytes, what) i =
    subst (λ n. IsStream (record s { world = w; sent = s.sent ++ take n (drop written src) }))
      (elim what [
        | inl (e, d) ↦ rw e (omega arith)
        | inr (inl (e, f, g)) ↦ rw e (omega arith)
        | inr (inr (e, f, g)) ↦ rw e (omega arith)
      ])
      (grow s w (take k (drop written src)) i valid bytes)
after_write-IsStream s src written (Write.waits w m) (valid, bytes, le, lt, full, open_end) i =
    grow s w (take (m - written) (drop written src)) i valid bytes
after_write-IsStream s src written Write.spins b i = i

same-IsStream :
    (s : History) (w : World)
    → IsStream s
    → (w.buffer ≡ s.world.buffer)
      × (w.read_pos ≡ s.world.read_pos)
      × (w.write_pos ≡ s.world.write_pos)
      × (w.count ≡ s.world.count)
    → IsStream (record s { world = w })
unfolding contents
same-IsStream s w i (b, r, p, c) = record {
  valid = record {
    sized = ap length b ∙ i.valid.sized;
    read_in = omega (arith, i.valid.read_in);
    write_at = omega (arith, i.valid.write_at);
    bounded = omega (arith, i.valid.bounded);
  };
  stream = rw (b, r, c) i.stream;
}

-- Closing an end changes no byte.
release_same :
    (w : World) (kind : End)
    → let w' = pipe_oft_release w kind in
      (w'.buffer ≡ w.buffer)
      × (w'.read_pos ≡ w.read_pos)
      × (w'.write_pos ≡ w.write_pos)
      × (w'.count ≡ w.count)
unfolding pipe_oft_release close_end
release_same w read_end = ground arith
release_same w write_end = ground arith
release_same w no_end = ground arith

pub Step-IsStream : {s t : History} → Step s t → IsStream s → IsStream t
Step-IsStream {s} (reads me n) i =
    after_read-IsStream s n (pipe_read_obj s.world me n) (pipe_read_obj-Reads s.world me n i.valid)
      i
Step-IsStream {s} (read_resumes me n) i =
    after_read-IsStream s n (pipe_read_resume s.world me n)
      (pipe_read_resume-Reads s.world me n i.valid) i
Step-IsStream {s} (writes me src) i =
    after_write-IsStream s src 0 (pipe_write_obj s.world me src)
      (pipe_write_obj-Writes s.world me src i.valid) i
Step-IsStream {s} (write_resumes me src written h) i =
    after_write-IsStream s src written (pipe_write_resume s.world me src written)
      (pipe_write_resume-Writes s.world me src written i.valid h) i
Step-IsStream {s} (releases kind) i =
    same-IsStream s (pipe_oft_release s.world kind) i (release_same s.world kind)
Step-IsStream {s} (others f) i =
    same-IsStream s (record (s.world) { states = f }) i (refl, refl, refl, refl)

begin-IsStream : (f : States) → IsStream (begin f)
unfolding contents fresh_pipe window
begin-IsStream f = record {
  valid = record {
    sized = length-replicate {A = ℕ} 4096 0;
    read_in = omega arith;
    write_at = omega arith;
    bounded = omega arith;
  };
  stream = refl;
}

-- From a fresh pipe, after any calls of any processes in any order, each cut where it waits, the
-- bytes that the writes took are the bytes that the reads returned followed by those that lie in
-- the pipe, in order, and the pipe is well formed, with at most 4096 bytes in it.
pub Reach-IsStream : (f : States) {s : History} → Reach (begin f) s → IsStream s
Reach-IsStream f here = begin-IsStream f
Reach-IsStream f (next r st) = Step-IsStream st (Reach-IsStream f r)
