-- ===== src/Sys/Signal/Send.antt =====
-- src/kernel/sys/signal.c, the sending of signals, with `proc_get` and `proc_signal_broadcast` of
-- src/kernel/process/proc.c. A process is named by its place in the process table.
use alcor2os.Base.{
  ℕ, zero, suc, ◌-◌, Bool, true, false, not, ◌&&◌, ◌||◌, Option, none, some, List, [], ◌∷◌, leb,
  ◌==◌, if◌then◌else◌, length, get_or, set,
}
use alcor2os.Base.Word.{u64_mod, set_bit}
use alcor2os.Base.Errno.{einval, esrch, Result, ok, err}
use alcor2os.Process.{ProcState, free, zombie, unblock}
use alcor2os.Sys.Signal.{Proc, nsig}

abbrev pub is_free : ProcState → Bool
is_free free = true
is_free s = false

abbrev pub is_gone : ProcState → Bool
is_gone free = true
is_gone zombie = true
is_gone s = false

abbrev pub next_place : Option ℕ → Option ℕ
next_place none = none
next_place (some i) = some (suc i)

-- The first place whose process has the pid and is not free.
unfoldable pub proc_get : List Proc → ℕ → Option ℕ
proc_get [] pid = none
proc_get (p ∷ procs) pid =
    let rest = next_place (proc_get procs pid) in
    if p.pid == pid && not (is_free p.state) then some 0 else rest

abbrev pub no_proc : Proc
no_proc = record { pid = 0; state = free; sig_pending = 0; sig_mask = 0; sig_actions = [] }

unfoldable pub mark_pending : ℕ → Proc → Proc
unfolding set_bit
mark_pending signum p = record p {
  sig_pending = set_bit p.sig_pending signum;
  state = unblock p.state;
}

unfoldable pub signal_at : List Proc → ℕ → Option ℕ → List Proc
unfolding mark_pending
signal_at procs signum none = procs
signal_at procs signum (some i) =
    let p = get_or procs i no_proc in
    if is_gone p.state then procs else set procs i (mark_pending signum p)

unfoldable pub proc_signal : List Proc → ℕ → ℕ → List Proc
unfolding proc_get signal_at
proc_signal procs pid signum =
    if signum == 0 || leb nsig signum then procs else signal_at procs signum (proc_get procs pid)

-- The loop of `proc_signal_broadcast`, `i` the place and `n` what is left of the table.
unfoldable pub broadcast_from : ℕ → ℕ → List Proc → ℕ → List Proc
unfolding proc_signal
broadcast_from zero i procs signum = procs
broadcast_from (suc n) i procs signum =
    let p = get_or procs i no_proc in
    broadcast_from n (suc i) (if is_gone p.state then procs else proc_signal procs p.pid signum)
      signum

unfoldable pub proc_signal_broadcast : List Proc → ℕ → List Proc
unfolding broadcast_from
proc_signal_broadcast procs signum = broadcast_from (length procs) 0 procs signum

-- `sys_kill` behind `proc_get`; signal 0 only asks whether the process exists.
unfoldable pub kill_at : List Proc → ℕ → ℕ → Option ℕ → List Proc × Result ℕ
unfolding proc_signal
kill_at procs pid sig none = (procs, err esrch)
kill_at procs pid sig (some i) =
    if sig == 0 then (procs, ok 0) else (proc_signal procs pid sig, ok 0)

unfoldable pub sys_kill : List Proc → ℕ → ℕ → List Proc × Result ℕ
unfolding kill_at proc_get
sys_kill procs pid sig =
    if leb nsig sig
    then (procs, err einval)
    else if pid == u64_mod - 1
    then (procs, ok 0)
    else kill_at procs pid sig (proc_get procs pid)

unfoldable pub sys_tkill : List Proc → ℕ → ℕ → List Proc × Result ℕ
unfolding sys_kill
sys_tkill procs tid sig = sys_kill procs tid sig

unfoldable pub sys_tgkill : List Proc → ℕ → ℕ → ℕ → List Proc × Result ℕ
unfolding sys_kill
sys_tgkill procs tgid tid sig = sys_kill procs tgid sig
