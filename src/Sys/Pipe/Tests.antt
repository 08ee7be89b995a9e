-- ===== src/Sys/Pipe/Tests.antt =====
-- Runs of a pipe of src/kernel/sys/pipe.c.
use alcor2os.Base.{ℕ, refl, true, none, some, [], ◌∷◌, arith, replicate, length-replicate}
use alcor2os.Process.{running, blocked, States, set_state}
use alcor2os.Sys.Pipe.{Pipe, World, pipe_read_obj, pipe_write_obj, is_blocked}
use alcor2os.Sys.Pipe.Fifo.{IsValid, Reads, pipe_read_obj-Reads}
use alcor2os.Sys.Pipe.Written.{Writes, pipe_write_obj-Writes}
use alcor2os.Sys.Pipe.Stream
use alcor2os.Sys.Pipe.Stream.{IsStream, History, begin, here, next, reads, writes, Reach-IsStream}
use alcor2os.Sys.Pipe.Wakeup.{
  NoLostWake, after_read, after_write, pipe_read_obj-NoLostWake, pipe_write_obj-NoLostWake,
}

abbrev all_run : States
all_run p = running

-- Two bytes behind the end of the ring and its start.
abbrev two_bytes : World
two_bytes = record {
  pipe = record {
    buffer = replicate 4096 65;
    read_pos = 4095;
    write_pos = 1;
    count = 2;
    read_open = 1;
    write_open = 1;
    allocated = true;
    waiting_reader = none;
    waiting_writer = none;
  };
  states = all_run;
}

two_bytes-IsValid : IsValid two_bytes.pipe
two_bytes-IsValid = record {
  sized = length-replicate {A = ℕ} 4096 65;
  read_in = omega arith;
  write_at = refl;
  bounded = omega arith;
}

no_one : NoLostWake two_bytes
unfolding is_blocked
no_one = record { reader = λ b. absurd (cc); writer = λ b. absurd (cc) }

pipe_read_obj-Reads_example : Reads two_bytes 3 (pipe_read_obj two_bytes (some 4) 3)
pipe_read_obj-Reads_example = pipe_read_obj-Reads two_bytes (some 4) 3 two_bytes-IsValid

pipe_write_obj-Writes_example :
    Writes two_bytes (66 ∷ 67 ∷ []) 0 (pipe_write_obj two_bytes (some 4) (66 ∷ 67 ∷ []))
pipe_write_obj-Writes_example =
    pipe_write_obj-Writes two_bytes (some 4) (66 ∷ 67 ∷ []) two_bytes-IsValid

pipe_read_obj-NoLostWake_example : NoLostWake (after_read (pipe_read_obj two_bytes (some 4) 1))
pipe_read_obj-NoLostWake_example = pipe_read_obj-NoLostWake two_bytes (some 4) 1 (λ e. cc) no_one

pipe_write_obj-NoLostWake_example :
    NoLostWake (after_write two_bytes (pipe_write_obj two_bytes (some 4) (66 ∷ [])))
pipe_write_obj-NoLostWake_example =
    pipe_write_obj-NoLostWake two_bytes (some 4) (66 ∷ []) (λ e. cc) no_one

-- A write of two bytes and a read of one.
abbrev written : History
written =
    Stream.after_write (begin all_run) (65 ∷ 66 ∷ []) 0
      (pipe_write_obj (begin all_run).world (some 1) (65 ∷ 66 ∷ []))

Reach-IsStream_example :
    IsStream (Stream.after_read written (pipe_read_obj written.world (some 2) 1))
Reach-IsStream_example =
    Reach-IsStream all_run (next (next here (writes (some 1) (65 ∷ 66 ∷ []))) (reads (some 2) 1))

abbrev fresh_waiting : Pipe
fresh_waiting = record {
  buffer = replicate 4096 0;
  read_pos = 0;
  write_pos = 0;
  count = 0;
  read_open = 1;
  write_open = 1;
  allocated = true;
  waiting_reader = some 5;
  waiting_writer = none;
}

-- Process 5 waits at an empty pipe.
abbrev one_waits : World
one_waits = record { pipe = fresh_waiting; states = set_state all_run 5 blocked }
