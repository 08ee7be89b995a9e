-- ===== src/Process/Tell.antt =====
-- A signal to a process of the table of src/kernel/process/proc.c, and how `proc_exit` tells the parent.
use alcor2os.Base.{
  ℕ, zero, suc, ◌<◌, ◌≡◌, refl, sym, ap, ◌∙◌, ◌≢◌, inl, inr, Bool, true, false, some, List, [], ◌∷◌,
  arith, if◌then◌else◌, Bool-cases, get_or, set, get_or-set_ne, get_or-set_self, length,
}
use alcor2os.Base.Word.{test_bit, test_bit-set_self}
use alcor2os.Process.{ProcState, is_blocked_state}
use alcor2os.Process.Sched.{Task, Kernel, no_task, task_at, state_at, put_task}
use alcor2os.Process.Wait.{procs_of, with_procs, find, send, sigchld, tell_parent}
use alcor2os.Sys.Signal.{Proc}
use alcor2os.Sys.Signal.Send.{
  proc_get, proc_signal, signal_at, mark_pending, is_free, is_gone, no_proc,
}

with_procs-same : (ts : List Task) → with_procs ts (procs_of ts) ≡ ts
with_procs-same [] = refl
with_procs-same (t ∷ ts) = ap (◌∷◌ t) (with_procs-same ts)

with_procs-set :
    (ts : List Task) (i : ℕ) (p : Proc)
    → with_procs ts (set (procs_of ts) i p) ≡ set ts i (record (get_or ts i no_task) { proc = p })
with_procs-set [] i p = refl
with_procs-set (t ∷ ts) zero p = ap (λ l. record t { proc = p } ∷ l) (with_procs-same ts)
with_procs-set (t ∷ ts) (suc i) p = ap (◌∷◌ t) (with_procs-set ts i p)

procs_of-get :
    (ts : List Task) (i : ℕ) → get_or (procs_of ts) i no_proc ≡ (get_or ts i no_task).proc
procs_of-get [] i = refl
procs_of-get (t ∷ ts) zero = refl
procs_of-get (t ∷ ts) (suc i) = procs_of-get ts i

marked_awake : (signum : ℕ) (p : Proc) → is_blocked_state (mark_pending signum p).state ≡ false
unfolding mark_pending
marked_awake signum p = ground arith

marked_pending :
    (signum : ℕ) (p : Proc) → test_bit (mark_pending signum p).sig_pending signum ≡ true
unfolding mark_pending
marked_pending signum p = test_bit-set_self p.sig_pending signum

-- A signal to the process at `j`.
abbrev pub signal_task : Kernel → ℕ → ℕ → Kernel
signal_task k j signum =
    let t = task_at k j in
    if is_gone t.proc.state
    then k
    else put_task k j (record t { proc = mark_pending signum t.proc })

signal_at-procs :
    (ts : List Task) (signum j : ℕ)
    → with_procs ts (signal_at (procs_of ts) signum (some j)) ≡ (
        let t = get_or ts j no_task in
        if is_gone t.proc.state
        then ts
        else set ts j (record t { proc = mark_pending signum t.proc }))
unfolding signal_at
signal_at-procs ts signum j =
    rw (procs_of-get ts j) (elim (Bool-cases (is_gone (get_or ts j no_task).proc.state)) [
      | inl f ↦ rw f (with_procs-same ts)
      | inr f ↦ rw f (with_procs-set ts j (mark_pending signum (get_or ts j no_task).proc))
    ])

if_table :
    (b : Bool) (k : Kernel) (ts : List Task)
    → ◌≡◌ {A = Kernel}
        (record k { table = if b then k.table else ts })
        (if b then k else record k { table = ts })
if_table true k ts = refl
if_table false k ts = refl

send-signal_task :
    (k : Kernel) (pid j : ℕ) → find k pid ≡ some j → send k pid sigchld ≡ signal_task k j sigchld
unfolding proc_signal
send-signal_task k pid j e =
    ap (λ ts. record k { table = ts })
      (ap (λ o. with_procs k.table (signal_at (procs_of k.table) sigchld o)) e
        ∙ signal_at-procs k.table sigchld j)
    ∙ if_table (is_gone (task_at k j).proc.state) k
        (set k.table j (record (task_at k j) { proc = mark_pending sigchld (task_at k j).proc }))

-- After a signal the process is not blocked, and if it can be told, the signal is pending.
pub signal_task-at :
    (k : Kernel) (j signum : ℕ)
    → j < length k.table
    → is_gone (state_at k j) ≡ false
    → task_at (signal_task k j signum) j
      ≡ record (task_at k j) { proc = mark_pending signum (task_at k j).proc }
signal_task-at k j signum h f = rw f (
    get_or-set_self k.table j
      (record (task_at k j) { proc = mark_pending signum (task_at k j).proc }) no_task h)

pub signal_task-awake :
    (k : Kernel) (j signum : ℕ)
    → j < length k.table
    → is_blocked_state (state_at (signal_task k j signum) j) ≡ false
signal_task-awake k j signum h = elim (Bool-cases (is_gone (task_at k j).proc.state)) [
  | inl f ↦ rw f (gone (task_at k j).proc.state f)
  | inr f ↦
      ap (λ t. is_blocked_state t.proc.state) (signal_task-at k j signum h f)
      ∙ marked_awake signum (task_at k j).proc
]
  where
    gone : (s : ProcState) → is_gone s ≡ true → is_blocked_state s ≡ false
    gone s f = ground arith

pub signal_task-pending :
    (k : Kernel) (j signum : ℕ)
    → j < length k.table
    → is_gone (state_at k j) ≡ false
    → test_bit (task_at (signal_task k j signum) j).proc.sig_pending signum ≡ true
signal_task-pending k j signum h f =
    ap (λ t. test_bit t.proc.sig_pending signum) (signal_task-at k j signum h f)
    ∙ marked_pending signum (task_at k j).proc

pub signal_task-other :
    (k : Kernel) (j signum q : ℕ) → q ≢ j → task_at (signal_task k j signum) q ≡ task_at k q
signal_task-other k j signum q h = elim (Bool-cases (is_gone (task_at k j).proc.state)) [
  | inl f ↦ rw f
  | inr f ↦ rw f (
      get_or-set_ne k.table j q
        (record (task_at k j) { proc = mark_pending signum (task_at k j).proc }) no_task
        (λ e. h (sym e)))
]

-- The second test of the parent in `proc_exit` never passes: the signal has woken it.
pub tell_parent-signal_task :
    (k : Kernel) (me j : ℕ)
    → j < length k.table
    → find k (task_at k me).parent_pid ≡ some j
    → tell_parent k me (some j) ≡ signal_task k j sigchld
unfolding tell_parent
tell_parent-signal_task k me j h e =
    let same : send k (task_at k me).parent_pid sigchld ≡ signal_task k j sigchld =
      send-signal_task k (task_at k me).parent_pid j e in
    rw (ap (λ z. is_blocked_state (state_at z j)) same ∙ signal_task-awake k j sigchld h) same

pub get_or-set_field {ℓ} :
    {A : Type ℓ} (f : Task → A) (ts : List Task) (i : ℕ) (t : Task) (q : ℕ)
    → f t ≡ f (get_or ts i no_task)
    → f (get_or (set ts i t) q no_task) ≡ f (get_or ts q no_task)
get_or-set_field f [] i t q e = refl
get_or-set_field f (x ∷ ts) zero t zero e = e
get_or-set_field f (x ∷ ts) zero t (suc q) e = refl
get_or-set_field f (x ∷ ts) (suc i) t zero e = refl
get_or-set_field f (x ∷ ts) (suc i) t (suc q) e = get_or-set_field f ts i t q e

procs_of-set :
    (ts : List Task) (i : ℕ) (t : Task) → procs_of (set ts i t) ≡ set (procs_of ts) i t.proc
procs_of-set [] i t = refl
procs_of-set (x ∷ ts) zero t = refl
procs_of-set (x ∷ ts) (suc i) t = ap (◌∷◌ x.proc) (procs_of-set ts i t)

proc_get-set :
    (ps : List Proc) (i : ℕ) (p : Proc) (pid : ℕ)
    → p.pid ≡ (get_or ps i no_proc).pid
    → is_free p.state ≡ is_free (get_or ps i no_proc).state
    → proc_get (set ps i p) pid ≡ proc_get ps pid
unfolding proc_get
proc_get-set [] i p pid e f = refl
proc_get-set (x ∷ ps) zero p pid e f = rw (e, f)
proc_get-set (x ∷ ps) (suc i) p pid e f = rw (proc_get-set ps i p pid e f)

-- What keeps a process's pid, and whether it is free, keeps who is found by a pid.
pub find-put_task :
    (k : Kernel) (i : ℕ) (t : Task) (pid : ℕ)
    → t.proc.pid ≡ (task_at k i).proc.pid
    → is_free t.proc.state ≡ is_free (state_at k i)
    → find (put_task k i t) pid ≡ find k pid
find-put_task k i t pid e f =
    ap (λ ps. proc_get ps pid) (procs_of-set k.table i t)
    ∙ proc_get-set (procs_of k.table) i t.proc pid
        (e ∙ ap (λ p. p.pid) (sym (procs_of-get k.table i)))
        (f ∙ ap (λ p. is_free p.state) (sym (procs_of-get k.table i)))
