-- ===== src/Sys/Pipe.antt =====
-- src/kernel/sys/pipe.c, one pipe: a ring of 4096 bytes with two ends. A pipe and the states of the
-- processes are the record `World`. A read or a write that blocks stops at `waits`, after it has noted
-- the caller and marked it blocked; what runs in `proc_schedule` are steps of other processes, and
-- `pipe_read_resume` and `pipe_write_resume` go on behind the call.
pub mod Fifo
pub mod Written
pub mod Stream
pub mod Wakeup
pub mod Stranded
mod Tests
use alcor2os.Base.{
  ℕ, zero, suc, ◌+◌, ◌-◌, ◌*◌, ◌/◌, ◌%◌, ◌^◌, ◌≤◌, ◌<◌, min, max, ◌≡◌, refl, sym, ap, ◌∙◌, subst,
  ◌≢◌, ◌↔◌, ◌⊎◌, inl, inr, Bool, true, false, not, ◌&&◌, ◌||◌, Option, none, some, List, [], ◌∷◌,
  ◌++◌, map, arith, ltb, leb, ◌==◌, if◌then◌else◌, ltb→lt, lt→ltb, leb→le, le→ltb, ==_iff, eq→==,
  ne→==, ==→ne, ltb→le, tests, Bool-cases, Option-cases, length, get_elem?, get_or, set, take, drop,
  replicate, length-append, take-append-drop, length-take, length-drop, length-replicate,
  length-set, get_or-set_self, get_or-set_ne, get_or-out, set-out, get_or-replicate, bit,
  count_below, count_below-le, count_below-eq, count_below-change, count_below-pos,
  count_below-zero, take-append_left, take_all, get_or-replicate_lt,
}
use native.Mathlib.Decide.{ℕ_discrete}
use alcor2os.Base.Errno.{Errno, Result, ok, err, ebadf, epipe}
use alcor2os.Process.{ProcState, blocked, States, set_state, unblock, is_blocked_state}

abbrev pub pipe_buf_size : ℕ
pipe_buf_size = 4096

abbrev pub max_pipes : ℕ
max_pipes = 16

-- `read_open` and `write_open` count the open ends. A process is its place in the process table.
pub record Pipe : Type 0 where
  pub buffer : List ℕ
  pub read_pos : ℕ
  pub write_pos : ℕ
  pub count : ℕ
  pub read_open : ℕ
  pub write_open : ℕ
  pub allocated : Bool
  pub waiting_reader : Option ℕ
  pub waiting_writer : Option ℕ

pub record World : Type 0 where
  pub pipe : Pipe
  pub open pipe use *
  pub states : States

-- What `kzero` and the three stores leave in a slot.
pub fresh_pipe : Pipe
fresh_pipe = record {
  buffer = replicate pipe_buf_size 0;
  read_pos = 0;
  write_pos = 0;
  count = 0;
  read_open = 1;
  write_open = 1;
  allocated = true;
  waiting_reader = none;
  waiting_writer = none;
}

-- The first free slot of the table `pipes`, from index `i` on.
pub alloc_pipe : List Pipe → ℕ → Option (ℕ × List Pipe)
alloc_pipe [] i = none
alloc_pipe (p ∷ ps) i =
    if not p.allocated
    then some (i, fresh_pipe ∷ ps)
    else elim (alloc_pipe ps (i + 1)) [ some (j, ps') ↦ some (j, p ∷ ps') | none ↦ none ]

abbrev pub is_open : ℕ → Bool
is_open n = not (n == 0)

pub pipe_poll_read_ready : Pipe → Bool
pipe_poll_read_ready p =
    if not p.allocated || not (is_open p.read_open)
    then false
    else if ltb 0 p.count
    then true
    else not (is_open p.write_open)

pub pipe_poll_write_ready : Pipe → Bool
pipe_poll_write_ready p =
    if not p.allocated || not (is_open p.write_open)
    then false
    else if not (is_open p.read_open)
    then true
    else ltb p.count pipe_buf_size

-- The process of a waiting field becomes ready if it is blocked.
pub wake : States → Option ℕ → States
wake f none = f
wake f (some q) = set_state f q (unblock (f q))

-- The test `p->waiting_... && p->waiting_...->state == PROC_STATE_BLOCKED`.
unfoldable pub is_blocked : States → Option ℕ → Bool
is_blocked f none = false
is_blocked f (some q) = is_blocked_state (f q)

-- VFS_KIND_PIPE_RD and VFS_KIND_PIPE_WR; any other kind closes no end.
pub data End : Type 0 where
  read_end write_end no_end : End

pub close_end : World → End → World
close_end w read_end =
    let n = w.read_open - 1 in
    record w {
      pipe = record (w.pipe) { read_open = n };
      states = if not (is_open n) then wake w.states w.waiting_writer else w.states;
    }
close_end w write_end =
    let n = w.write_open - 1 in
    let woken = not (is_open n) && is_blocked w.states w.waiting_reader in
    record w {
      pipe = record (w.pipe) {
        write_open = n;
        waiting_reader = if woken then none else w.waiting_reader;
      };
      states = if woken then wake w.states w.waiting_reader else w.states;
    }
close_end w no_end = w

pub pipe_oft_release : World → End → World
unfolding close_end
pipe_oft_release w kind =
    let w' = close_end w kind in
    if not (is_open w'.read_open) && not (is_open w'.write_open)
    then record w' { pipe = record (w'.pipe) { allocated = false } }
    else w'

-- The result and the bytes stored at `buf`, or the place where the call waits.
pub data Read : Type 0 where
  returns : Result ℕ → List ℕ → World → Read
  waits : World → Read

-- `for(i = 0; i < to_read; i++) { dst[i] = buffer[read_pos]; read_pos = ...; }`
pub copy_out : ℕ → List ℕ → ℕ → List ℕ × ℕ
copy_out zero buf pos = ([], pos)
copy_out (suc r) buf pos =
    let (bytes, pos') = copy_out r buf ((pos + 1) % pipe_buf_size) in
    (get_or buf pos 0 ∷ bytes, pos')

-- Behind the loop that waits.
pub read_bytes : World → ℕ → Read
read_bytes w n =
    if w.count == 0
    then returns (ok 0) [] w
    else (let to_read = if ltb w.count n then w.count else n in
        let (bytes, pos) = copy_out to_read w.buffer w.read_pos in
        let woken = is_blocked w.states w.waiting_writer in
        returns (ok to_read) bytes (record w {
          pipe = record (w.pipe) {
            read_pos = pos;
            count = w.count - to_read;
            waiting_writer = if woken then none else w.waiting_writer;
          };
          states = if woken then wake w.states w.waiting_writer else w.states;
        }))

-- The body of the loop that waits; `me` is the caller, if there is one.
pub read_block : World → Option ℕ → Read
read_block w none = waits w
read_block w (some q) = waits (record w {
  pipe = record (w.pipe) { waiting_reader = some q };
  states = set_state w.states q blocked;
})

-- The test of the loop.
pub read_wait : World → Option ℕ → ℕ → Read
unfolding read_block
read_wait w me n = if w.count == 0 && is_open w.write_open then read_block w me else read_bytes w n

-- After `proc_schedule` has come back: `if(me) p->waiting_reader = NULL;`, and the loop's test again.
abbrev pub cleared_reader : World → Option ℕ → World
cleared_reader w none = w
cleared_reader w (some q) = record w { pipe = record (w.pipe) { waiting_reader = none } }

pub pipe_read_resume : World → Option ℕ → ℕ → Read
pipe_read_resume w me n = read_wait (cleared_reader w me) me n

pub pipe_read_obj : World → Option ℕ → ℕ → Read
pipe_read_obj w me n =
    if not w.allocated
    then returns (err ebadf) [] w
    else if not (is_open w.read_open)
    then returns (err ebadf) [] w
    else if w.count == 0 && not (is_open w.write_open)
    then returns (ok 0) [] w
    else read_wait w me n

-- The result, or the place where the call waits, with the bytes written before. `spins` is a loop that
-- the fuel does not end.
pub data Write : Type 0 where
  returns : Result ℕ → World → Write
  waits : World → ℕ → Write
  spins : Write

-- `for(...) { buffer[write_pos] = src[written + i]; write_pos = ...; }`
pub copy_in : List ℕ → List ℕ → ℕ → List ℕ × ℕ
copy_in [] buf pos = (buf, pos)
copy_in (x ∷ xs) buf pos = copy_in xs (set buf pos x) ((pos + 1) % pipe_buf_size)

pub write_size : World → List ℕ → ℕ → ℕ
write_size w src written =
    let space = pipe_buf_size - w.count in
    let to_write = length src - written in if ltb space to_write then space else to_write

-- One round's copy.
pub write_bytes : World → List ℕ → ℕ → World
write_bytes w src written =
    let n = write_size w src written in
    let (buf, pos) = copy_in (take n (drop written src)) w.buffer w.write_pos in
    let woken = is_blocked w.states w.waiting_reader in
    record w {
      pipe = record (w.pipe) {
        buffer = buf;
        write_pos = pos;
        count = w.count + n;
        waiting_reader = if woken then none else w.waiting_reader;
      };
      states = if woken then wake w.states w.waiting_reader else w.states;
    }

pub note_writer : World → Option ℕ → World
note_writer w none = w
note_writer w (some q) = record w {
  pipe = record (w.pipe) { waiting_writer = some q };
  states = set_state w.states q blocked;
}

-- `while(written < count)`, from its test on.
pub write_loop : ℕ → World → Option ℕ → List ℕ → ℕ → Write
write_loop zero w me src written = spins
write_loop (suc f) w me src written =
    let rest =
      write_loop f (write_bytes w src written) me src (written + write_size w src written) in
    if not (ltb written (length src))
    then returns (ok written) w
    else if leb pipe_buf_size w.count && is_open w.read_open
    then waits (note_writer w me) written
    else if not (is_open w.read_open)
    then returns (if ltb 0 written then ok written else err epipe) w
    else rest

abbrev pub cleared_writer : World → Option ℕ → World
cleared_writer w none = w
cleared_writer w (some q) = record w { pipe = record (w.pipe) { waiting_writer = none } }

-- A round copies at least one byte, so the bytes left bound the rounds.
abbrev pub fuel_for : List ℕ → ℕ → ℕ
fuel_for src written = suc (length src - written)

pub pipe_write_resume : World → Option ℕ → List ℕ → ℕ → Write
pipe_write_resume w me src written =
    write_loop (fuel_for src written) (cleared_writer w me) me src written

pub pipe_write_obj : World → Option ℕ → List ℕ → Write
pipe_write_obj w me src =
    if not w.allocated
    then returns (err ebadf) w
    else if not (is_open w.write_open)
    then returns (err ebadf) w
    else if not (is_open w.read_open)
    then returns (err epipe) w
    else write_loop (fuel_for src 0) w me src 0
