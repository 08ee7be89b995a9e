-- ===== src/Process.antt =====
-- src/kernel/process and include/alcor2/proc/proc.h: what the other parts use of a process.
pub mod Sched
pub mod Wait
pub mod Fair
pub mod Children
pub mod Tell
pub mod Exit
mod Tests
use alcor2os.Base.{ℕ, Bool, true, false, ◌==◌, if◌then◌else◌}

-- `proc_state_t`
pub data ProcState : Type 0 where
  free ready running blocked zombie : ProcState

-- The states of the processes, by their place in the process table.
abbrev pub States : Type 0
States = ℕ → ProcState

abbrev pub set_state : States → ℕ → ProcState → States
set_state f p s q = if p == q then s else f q

-- `if(p->state == PROC_STATE_BLOCKED) p->state = PROC_STATE_READY;`
abbrev pub unblock : ProcState → ProcState
unblock blocked = ready
unblock s = s

abbrev pub is_blocked_state : ProcState → Bool
is_blocked_state blocked = true
is_blocked_state s = false
