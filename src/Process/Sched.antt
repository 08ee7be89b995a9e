-- ===== src/Process/Sched.antt =====
-- src/kernel/process/proc.c, the scheduler. A process is named by its place in the process table, and
-- `running` is the place of `current_proc`. The switch of stacks and address spaces is the assembly's;
-- what is kept here is the table, who runs, and the base of %fs that goes with it.
use alcor2os.Base.{
  ℕ, zero, suc, ◌+◌, ◌%◌, Bool, true, false, Option, none, some, List, ◌==◌, if◌then◌else◌, get_or,
  set,
}
use alcor2os.Process.{ProcState, ready, running}
use alcor2os.Sys.Signal.{Proc}
use alcor2os.Sys.Signal.Send.{no_proc}
use alcor2os.Fs.Files.{Files}

abbrev pub proc_max : ℕ
proc_max = 64

-- A `proc_t`: what signals use of it, and the fields of its life. `exit_code` is the 64-bit pattern.
pub record Task : Type 0 where
  pub proc : Proc
  pub parent_pid : ℕ
  pub exit_code : ℕ
  pub waiting_for_pid : ℕ
  pub vfork_waiting_for : ℕ
  pub kernel_stack : ℕ
  pub cr3 : ℕ
  pub fs_base : ℕ

-- The static variables of proc.c, the open files, the %fs base of the processor, and the kernel stacks
-- and address spaces given back so far.
pub record Kernel : Type 0 where
  pub table : List Task
  pub current : Option ℕ
  pub need_resched : Bool
  pub files : Files
  pub cpu_fs_base : ℕ
  pub stacks_freed : List ℕ
  pub spaces_freed : List ℕ

abbrev pub no_task : Task
no_task = record {
  proc = no_proc;
  parent_pid = 0;
  exit_code = 0;
  waiting_for_pid = 0;
  vfork_waiting_for = 0;
  kernel_stack = 0;
  cr3 = 0;
  fs_base = 0;
}

abbrev pub task_at : Kernel → ℕ → Task
task_at k i = get_or k.table i no_task

abbrev pub state_at : Kernel → ℕ → ProcState
state_at k i = (task_at k i).proc.state

abbrev pub put_task : Kernel → ℕ → Task → Kernel
put_task k i t = record k { table = set k.table i t }

abbrev pub put_state : Kernel → ℕ → ProcState → Kernel
put_state k i s =
    put_task k i (record (task_at k i) { proc = record (task_at k i).proc { state = s } })

abbrev pub is_ready : ProcState → Bool
is_ready ready = true
is_ready s = false

abbrev pub is_running : ProcState → Bool
is_running running = true
is_running s = false

-- The loop of the round robin from place `start`, with `r` rounds left, at its `i`.
unfoldable pub next_ready : ℕ → Kernel → ℕ → ℕ → Option ℕ
next_ready zero k start i = none
next_ready (suc r) k start i =
    let rest = next_ready r k start (suc i) in
    let idx = (start + i) % proc_max in if is_ready (state_at k idx) then some idx else rest

-- `proc_switch` when `next` is not the current process.
unfoldable pub switch_from : Kernel → Option ℕ → ℕ → Kernel
switch_from k none next =
    let k' = put_state k next running in
    record k' { current = some next; cpu_fs_base = (task_at k' next).fs_base }
switch_from k (some prev) next =
    let saved = put_task k prev (record (task_at k prev) { fs_base = k.cpu_fs_base }) in
    let yielded = if is_running (state_at saved prev) then put_state saved prev ready else saved in
    let k' = put_state yielded next running in
    record k' { current = some next; cpu_fs_base = (task_at k' next).fs_base }

abbrev pub is_current : Option ℕ → ℕ → Bool
is_current none i = false
is_current (some c) i = i == c

unfoldable pub proc_switch : Kernel → ℕ → Kernel
proc_switch k next =
    let switched = switch_from k k.current next in if is_current k.current next then k else switched

-- How `proc_schedule` goes on: another process runs, the current one goes on, or the processor halts
-- until an interrupt.
pub data Scheduled : Type 0 where
  switches : Kernel → Scheduled
  goes_on : Kernel → Scheduled
  halts : Kernel → Scheduled

abbrev pub current_runs : Kernel → Option ℕ → Bool
current_runs k none = false
current_runs k (some c) = is_running (state_at k c)

abbrev pub start_of : Option ℕ → ℕ
start_of none = 0
start_of (some c) = c

unfoldable pub dispatch : Kernel → Option ℕ → Scheduled
dispatch k (some next) = switches (proc_switch k next)
dispatch k none = if current_runs k k.current then goes_on k else halts k

unfoldable pub proc_schedule : Kernel → Scheduled
proc_schedule k = dispatch k (next_ready proc_max k (start_of k.current) 1)

-- The scan from the first place after an interrupt has ended the halt.
unfoldable pub first_ready : ℕ → Kernel → ℕ → Option ℕ
first_ready zero k i = none
first_ready (suc r) k i =
    let rest = first_ready r k (suc i) in if is_ready (state_at k i) then some i else rest

unfoldable pub after_interrupt : Kernel → Scheduled
after_interrupt k = elim (first_ready proc_max k 0) [
  | some next ↦ switches (proc_switch k next)
  | none ↦ halts k
]

unfoldable pub proc_tick : Kernel → Kernel
proc_tick k = record k { need_resched = true }

unfoldable pub proc_check_resched : Kernel → Scheduled
proc_check_resched k =
    let scheduled = proc_schedule (record k { need_resched = false }) in
    if k.need_resched then scheduled else goes_on k
