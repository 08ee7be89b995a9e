-- ===== src/Sys/PipeCall/Tests.antt =====
-- A run of `sys_pipe` of src/kernel/sys/pipe.c.
use alcor2os.Base.{
  ℕ, zero, suc, ◌<◌, ◌≡◌, refl, inr, false, Option, none, some, [], ◌∷◌, arith, length, get_or,
  replicate, length-replicate, get_or-replicate,
}
use alcor2os.Base.Errno.{efault, err}
use alcor2os.Process.{running}
use alcor2os.Fs.Files.{Entry, Table, zero_entry}
use alcor2os.Fs.Files.Counted.{holds}
use alcor2os.Fs.Files.Steps.{IsCounted}
use alcor2os.Sys.Pipe.{Pipe}
use alcor2os.Sys.Signal.{vmm_is_user_range}
use alcor2os.Sys.PipeCall.{Kernel, sys_pipe}
use alcor2os.Sys.PipeCall.Counted.{sys_pipe-IsCounted}

abbrev idle_table : Table
idle_table = record { fds = replicate 256 none; fd_cloexec = replicate 256 false }

abbrev unused : Pipe
unused = record {
  buffer = replicate 4096 0;
  read_pos = 0;
  write_pos = 0;
  count = 0;
  read_open = 0;
  write_open = 0;
  allocated = false;
  waiting_reader = none;
  waiting_writer = none;
}

-- One process with nothing open, and two free pipes.
abbrev two_pipes : Kernel
two_pipes = record {
  files = record { oft = replicate 256 zero_entry; tables = idle_table ∷ []; closed = [] };
  pipes = unused ∷ unused ∷ [];
  states = λ p. running;
}

null_pointer : (sys_pipe two_pipes (some 0) 0).0 ≡ err efault
unfolding sys_pipe vmm_is_user_range
null_pointer = refl

two_pipes-IsCounted : IsCounted two_pipes.files
unfolding holds
two_pipes-IsCounted = record {
  sized = record { entries = length-replicate {A = Entry} 256 zero_entry; slots = slots };
  counts = λ i. rw (get_or-replicate 256 i zero_entry) (inr (refl, refl));
}
  where
    slots :
        (p : ℕ)
        → p < 1
        → length (get_or two_pipes.files.tables p (record { fds = []; fd_cloexec = [] })).fds ≡ 256
    slots zero h = length-replicate {A = Option ℕ} 256 none
    slots (suc p) h = absurd (omega arith)

sys_pipe-IsCounted_example : IsCounted (sys_pipe two_pipes (some 0) 4096).1.files
sys_pipe-IsCounted_example = sys_pipe-IsCounted two_pipes (some 0) 4096 two_pipes-IsCounted
