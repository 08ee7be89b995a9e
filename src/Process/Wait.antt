-- ===== src/Process/Wait.antt =====
-- src/kernel/process/proc.c, the end of a process and the wait for it. A call that blocks ends at the
-- scheduler; `..._resume` is what runs behind it when the process goes on.
use alcor2os.Base.{
  ℕ, zero, suc, ◌*◌, ◌%◌, Bool, true, false, not, ◌&&◌, ◌||◌, Option, none, some, List, [], ◌∷◌,
  ◌==◌, if◌then◌else◌,
}
use alcor2os.Base.Errno.{Errno, echild, einval}
use alcor2os.Base.Int.{ℤ, pos, negsuc}
use alcor2os.Process.{ProcState, free, ready, blocked, zombie, unblock, is_blocked_state}
use alcor2os.Process.Sched.{
  Task, Kernel, task_at, state_at, put_task, put_state, proc_max, Scheduled, halts, proc_schedule,
}
use alcor2os.Sys.Signal.{Proc}
use alcor2os.Sys.Signal.Send.{proc_get, proc_signal, is_free}
use alcor2os.Fs.Files.Lifetime.{vfs_proc_release_fds}

abbrev pub sigchld : ℕ
sigchld = 17

abbrev pub procs_of : List Task → List Proc
procs_of [] = []
procs_of (t ∷ ts) = t.proc ∷ procs_of ts

abbrev pub with_procs : List Task → List Proc → List Task
with_procs [] ps = []
with_procs (t ∷ ts) [] = t ∷ ts
with_procs (t ∷ ts) (p ∷ ps) = record t { proc = p } ∷ with_procs ts ps

abbrev pub find : Kernel → ℕ → Option ℕ
find k pid = proc_get (procs_of k.table) pid

abbrev pub send : Kernel → ℕ → ℕ → Kernel
send k pid signum = record k {
  table = with_procs k.table (proc_signal (procs_of k.table) pid signum);
}

-- The end of a vfork wait of the process at `j`, if it is for `pid`.
unfoldable pub end_vfork : Kernel → ℕ → Option ℕ → Kernel
end_vfork k pid none = k
end_vfork k pid (some j) =
    let p = task_at k j in
    if p.vfork_waiting_for == pid
    then put_task k j
        (record p { vfork_waiting_for = 0; proc = record p.proc { state = unblock p.proc.state } })
    else k

unfoldable pub proc_vfork_wake_parent : Kernel → ℕ → Kernel
proc_vfork_wake_parent k child =
    let c = task_at k child in end_vfork k c.proc.pid (find k c.parent_pid)

unfoldable pub proc_notify_exec : Kernel → ℕ → Kernel
proc_notify_exec k me = proc_vfork_wake_parent k me

-- SIGCHLD to the parent at `j`, and its wakeup if it waits for this child or for any.
unfoldable pub tell_parent : Kernel → ℕ → Option ℕ → Kernel
tell_parent k me none = k
tell_parent k me (some j) =
    let c = task_at k me in
    let k' = send k c.parent_pid sigchld in
    let p = task_at k' j in
    if is_blocked_state p.proc.state
      && ((p.waiting_for_pid == c.proc.pid) || (p.waiting_for_pid == 0))
    then put_state k' j ready
    else k'

unfoldable pub exit_as : Kernel → ℕ → ℕ → Kernel
exit_as k me code =
    let k' = proc_vfork_wake_parent k me in
    let t = task_at k' me in
    let ended =
      put_task k' me (record t { exit_code = code; proc = record t.proc { state = zombie } }) in
    record ended { files = vfs_proc_release_fds ended.files me }

unfoldable pub end_process : Kernel → ℕ → ℕ → Kernel
end_process k me code =
    let k' = exit_as k me code in tell_parent k' me (find k' (task_at k' me).parent_pid)

-- Without a current process the C function halts for ever.
unfoldable pub exit_current : Kernel → ℕ → Option ℕ → Scheduled
exit_current k code none = halts k
exit_current k code (some me) = proc_schedule (end_process k me code)

unfoldable pub proc_exit : Kernel → ℕ → Scheduled
proc_exit k code = exit_current k code k.current

-- The slot of a child is free again, and its stack and address space are given back.
abbrev pub reap : Kernel → ℕ → Kernel
reap k i =
    let c = task_at k i in
    record (put_state k i free) {
      stacks_freed = c.kernel_stack ∷ k.stacks_freed;
      spaces_freed = c.cr3 ∷ k.spaces_freed;
    }

abbrev pub is_zombie : ProcState → Bool
is_zombie zombie = true
is_zombie s = false

-- The process `me` waits for `pid`; 0 stands for any child.
abbrev pub block : Kernel → ℕ → ℕ → Kernel
block k me pid =
    let k' = put_state k me blocked in
    put_task k' me (record (task_at k' me) { waiting_for_pid = pid })

-- What `proc_wait` returns: an exit code, -1, or nothing yet.
pub data Waited : Type 0 where
  exited : ℕ → Kernel → Waited
  fails : Kernel → Waited
  waits : Scheduled → Waited

unfoldable pub wait_at : Kernel → ℕ → ℕ → Option ℕ → Waited
wait_at k me pid none = fails k
wait_at k me pid (some i) =
    if is_zombie (state_at k i)
    then exited (task_at k i).exit_code (reap k i)
    else waits (proc_schedule (block k me pid))

unfoldable pub proc_wait : Kernel → ℕ → ℕ → Waited
proc_wait k me pid = wait_at k me pid (find k pid)

unfoldable pub proc_wait_resume : Kernel → ℕ → Waited
proc_wait_resume k pid = elim (find k pid) [
  | none ↦ fails k
  | some i ↦ if is_zombie (state_at k i) then exited (task_at k i).exit_code (reap k i) else fails k
]

-- What `proc_waitpid` returns: a child's pid with its status, 0, an error, or nothing yet.
pub data Waitpid : Type 0 where
  collected : ℕ → ℕ → Kernel → Waitpid
  none_yet : Kernel → Waitpid
  refuses : Errno → Kernel → Waitpid
  blocks : Kernel → Waitpid

abbrev pub collect : Kernel → ℕ → Waitpid
collect k i = let c = task_at k i in collected c.proc.pid (c.exit_code % 256 * 256) (reap k i)

abbrev pub is_child : Kernel → ℕ → ℕ → Bool
is_child k me i =
    (task_at k i).parent_pid == (task_at k me).proc.pid && not (is_free (state_at k i))

unfoldable pub zombie_child : ℕ → Kernel → ℕ → ℕ → Option ℕ
zombie_child zero k me i = none
zombie_child (suc r) k me i =
    let rest = zombie_child r k me (suc i) in
    if is_child k me i && is_zombie (state_at k i) then some i else rest

unfoldable pub has_children : ℕ → Kernel → ℕ → ℕ → Bool
has_children zero k me i = false
has_children (suc r) k me i =
    let rest = has_children r k me (suc i) in if is_child k me i then true else rest

unfoldable pub waitpid_any : Kernel → ℕ → Bool → Option ℕ → Waitpid
waitpid_any k me nohang (some i) = collect k i
waitpid_any k me nohang none =
    if not (has_children proc_max k me 0)
    then refuses echild k
    else if nohang
    then none_yet k
    else blocks (block k me 0)

unfoldable pub waitpid_one : Kernel → ℕ → ℕ → Bool → Option ℕ → Waitpid
waitpid_one k me pid nohang none = refuses echild k
waitpid_one k me pid nohang (some i) =
    if not ((task_at k i).parent_pid == (task_at k me).proc.pid)
    then refuses echild k
    else if is_zombie (state_at k i)
    then collect k i
    else if nohang
    then none_yet k
    else blocks (block k me pid)

unfoldable pub proc_waitpid : Kernel → ℕ → ℤ → Bool → Waitpid
proc_waitpid k me (negsuc zero) nohang = waitpid_any k me nohang (zombie_child proc_max k me 0)
proc_waitpid k me (negsuc (suc n)) nohang = refuses einval k
proc_waitpid k me (pos zero) nohang = refuses einval k
proc_waitpid k me (pos (suc n)) nohang = waitpid_one k me (suc n) nohang (find k (suc n))

-- Behind the wait: the loops look again, and block again where no child has ended.
unfoldable pub proc_waitpid_resume : Kernel → ℕ → ℤ → Waitpid
proc_waitpid_resume k me (pos pid) = waitpid_one k me pid false (find k pid)
proc_waitpid_resume k me (negsuc n) = elim (zombie_child proc_max k me 0) [
  | some i ↦ collect k i
  | none ↦ blocks (block k me 0)
]
