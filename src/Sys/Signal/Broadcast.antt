-- ===== src/Sys/Signal/Broadcast.antt =====
-- Whom `proc_signal` and `proc_signal_broadcast` of src/kernel/sys/signal.c and
-- src/kernel/process/proc.c reach.
use alcor2os.Base.{
  ℕ, ◌≤◌, ◌<◌, ◌≡◌, false, not, ◌&&◌, some, List, [], ◌∷◌, ◌==◌, if◌then◌else◌, length, get_or,
}
use alcor2os.Sys.Signal.{Proc}
use alcor2os.Sys.Signal.Send.{is_free, is_gone, proc_get, no_proc, mark_pending}

-- A process that is neither free nor a zombie gets the signal, and wakes if it is blocked.
abbrev pub mark_alive : ℕ → Proc → Proc
mark_alive signum p = if is_gone p.state then p else mark_pending signum p

-- The table in which the first process of the pid that is not free has got the signal.
pub signalled : List Proc → ℕ → ℕ → List Proc
signalled [] pid signum = []
signalled (p ∷ procs) pid signum =
    let rest = signalled procs pid signum in
    if p.pid == pid && not (is_free p.state) then mark_alive signum p ∷ procs else p ∷ rest

abbrev pub InUse : List Proc → ℕ → Type 0
InUse procs i = (i < length procs) × (is_free (get_or procs i no_proc).state ≡ false)

-- No two processes in use have the same pid.
abbrev pub DistinctPids : List Proc → Type 0
DistinctPids procs =
    (i j : ℕ)
    → InUse procs i
    → InUse procs j
    → (get_or procs i no_proc).pid ≡ (get_or procs j no_proc).pid
    → i ≡ j

abbrev pub Found : List Proc → ℕ → ℕ → Type 0
Found procs pid k =
    (proc_get procs pid ≡ some k) × InUse procs k × ((get_or procs k no_proc).pid ≡ pid)

-- The tables have the same pids, and the same places are free.
abbrev pub SamePids : List Proc → List Proc → Type 0
SamePids t u =
    (length u ≡ length t)
    × ((j : ℕ)
        → ((get_or u j no_proc).pid ≡ (get_or t j no_proc).pid)
          × (is_free (get_or u j no_proc).state ≡ is_free (get_or t j no_proc).state))

-- The places from `i` on have got the signal where they are alive, and those before stay.
abbrev pub Reached : List Proc → ℕ → ℕ → List Proc → Type 0
Reached t i signum u =
    (length u ≡ length t)
    × ((j : ℕ) → j < i → get_or u j no_proc ≡ get_or t j no_proc)
    × ((j : ℕ) → i ≤ j → j < length t → get_or u j no_proc ≡ mark_alive signum (get_or t j no_proc))
