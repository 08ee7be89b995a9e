-- ===== src/Process/Exit.antt =====
-- `proc_exit` of src/kernel/process/proc.c.
use alcor2os.Base.{
  ℕ, ◌<◌, ◌≡◌, refl, sym, ap, ◌∙◌, subst, ◌≢◌, inl, inr, true, false, Option, none, some, arith,
  ◌==◌, Bool-cases, get_or, set, get_or-set_ne, get_or-set_self, length, length-set,
}
use alcor2os.Base.Word.{test_bit}
use alcor2os.Process.{ProcState, zombie, unblock, is_blocked_state}
use alcor2os.Process.Sched.{Task, Kernel, no_task, task_at, state_at}
use alcor2os.Process.Wait.{
  find, sigchld, tell_parent, exit_as, end_process, end_vfork, proc_vfork_wake_parent,
}
use alcor2os.Process.Tell.{
  signal_task, signal_task-awake, signal_task-pending, signal_task-other, tell_parent-signal_task,
  get_or-set_field, find-put_task,
}
use alcor2os.Sys.Signal.Send.{is_free, is_gone}

-- What ends a vfork wait changes of the table.
record Wakes (k k' : Kernel) : Type 0 where
  size : length k'.table ≡ length k.table
  found : (pid : ℕ) → find k' pid ≡ find k pid
  parents : (q : ℕ) → (task_at k' q).parent_pid ≡ (task_at k q).parent_pid
  frees : (q : ℕ) → is_free (state_at k' q) ≡ is_free (state_at k q)
  gone : (q : ℕ) → is_gone (state_at k' q) ≡ is_gone (state_at k q)

unblock-gone : (s : ProcState) → is_gone (unblock s) ≡ is_gone s
unblock-gone s = ground arith

unblock-free : (s : ProcState) → is_free (unblock s) ≡ is_free s
unblock-free s = ground arith

end_vfork-Wakes : (k : Kernel) (pid : ℕ) (o : Option ℕ) → Wakes k (end_vfork k pid o)
unfolding end_vfork
end_vfork-Wakes k pid none = record {
  size = refl;
  found = λ p. refl;
  parents = λ q. refl;
  frees = λ q. refl;
  gone = λ q. refl;
}
end_vfork-Wakes k pid (some j) =
    let p = task_at k j in
    let t : Task = record p {
      vfork_waiting_for = 0;
      proc = record p.proc { state = unblock p.proc.state };
    } in
    elim (Bool-cases (p.vfork_waiting_for == pid)) [
      | inl f ↦ rw f (record {
        size = length-set k.table j t;
        found = λ q. find-put_task k j t q refl (unblock-free p.proc.state);
        parents = λ q. get_or-set_field (λ z. z.parent_pid) k.table j t q refl;
        frees = λ q.
            get_or-set_field (λ z. is_free z.proc.state) k.table j t q (unblock-free p.proc.state);
        gone = λ q.
            get_or-set_field (λ z. is_gone z.proc.state) k.table j t q (unblock-gone p.proc.state);
      })
      | inr f ↦ rw f (record {
        size = refl;
        found = λ p. refl;
        parents = λ q. refl;
        frees = λ q. refl;
        gone = λ q. refl;
      })
    ]

-- What the end of `me` changes for the others.
record Leaves (k : Kernel) (me : ℕ) (k' : Kernel) : Type 0 where
  size : length k'.table ≡ length k.table
  found : (pid : ℕ) → find k' pid ≡ find k pid
  parents : (q : ℕ) → (task_at k' q).parent_pid ≡ (task_at k q).parent_pid
  gone : (q : ℕ) → q ≢ me → is_gone (state_at k' q) ≡ is_gone (state_at k q)

exit_as-Leaves :
    (k : Kernel) (me code : ℕ) → is_free (state_at k me) ≡ false → Leaves k me (exit_as k me code)
unfolding exit_as proc_vfork_wake_parent
exit_as-Leaves k me code used =
    let k' = proc_vfork_wake_parent k me in
    let t = task_at k' me in
    let ended : Task = record t { exit_code = code; proc = record t.proc { state = zombie } } in
    let w : Wakes k k' =
      end_vfork-Wakes k (task_at k me).proc.pid (find k (task_at k me).parent_pid) in
    record {
      size = length-set k'.table me ended ∙ w.size;
      found = λ q. find-put_task k' me ended q refl (sym (w.frees me ∙ used)) ∙ w.found q;
      parents = λ q. get_or-set_field (λ z. z.parent_pid) k'.table me ended q refl ∙ w.parents q;
      gone = λ q ne.
          ap (λ z. is_gone z.proc.state)
            (get_or-set_ne k'.table me q ended no_task (λ e. ne (sym e)))
          ∙ w.gone q;
    }

exit_as-me :
    (k : Kernel) (me code : ℕ)
    → me < length k.table
    → (state_at (exit_as k me code) me ≡ zombie)
      × ((task_at (exit_as k me code) me).exit_code ≡ code)
unfolding exit_as proc_vfork_wake_parent
exit_as-me k me code h =
    let k' = proc_vfork_wake_parent k me in
    let t = task_at k' me in
    let ended : Task = record t { exit_code = code; proc = record t.proc { state = zombie } } in
    let w : Wakes k k' =
      end_vfork-Wakes k (task_at k me).proc.pid (find k (task_at k me).parent_pid) in
    let at : get_or (set k'.table me ended) me no_task ≡ ended =
      get_or-set_self k'.table me ended no_task (omega (arith, w.size)) in
    (ap (λ z. z.proc.state) at, ap (λ z. z.exit_code) at)

-- The process `me` has ended with the code, and its parent at `j` knows.
pub record Ended (k : Kernel) (me code j : ℕ) (after : Kernel) : Type 0 where
  pub ended : state_at after me ≡ zombie
  pub kept : (task_at after me).exit_code ≡ code
  pub awake : is_blocked_state (state_at after j) ≡ false
  pub told :
      is_gone (state_at k j) ≡ false → test_bit (task_at after j).proc.sig_pending sigchld ≡ true

-- Where the parent of a process in use is found at another place, the end of the process makes it a
-- zombie with its exit code, and leaves the parent not blocked, and with SIGCHLD pending if the
-- parent was neither free nor a zombie.
pub end_process-Ended :
    (k : Kernel) (me code j : ℕ)
    → me < length k.table
    → j < length k.table
    → me ≢ j
    → is_free (state_at k me) ≡ false
    → find k (task_at k me).parent_pid ≡ some j
    → Ended k me code j (end_process k me code)
unfolding end_process
end_process-Ended k me code j h hj ne used e =
    let k' = exit_as k me code in
    let w : Leaves k me k' = exit_as-Leaves k me code used in
    let e' : find k' (task_at k' me).parent_pid ≡ some j =
      ap (find k') (w.parents me) ∙ w.found (task_at k me).parent_pid ∙ e in
    let hj' : j < length k'.table = omega (arith, w.size) in
    let told : tell_parent k' me (find k' (task_at k' me).parent_pid) ≡ signal_task k' j sigchld =
      ap (tell_parent k' me) e' ∙ tell_parent-signal_task k' me j hj' e' in
    subst (Ended k me code j) (sym told) (record {
      ended =
          ap (λ z. z.proc.state) (signal_task-other k' j sigchld me ne)
          ∙ (exit_as-me k me code h).0;
      kept =
          ap (λ z. z.exit_code) (signal_task-other k' j sigchld me ne) ∙ (exit_as-me k me code h).1;
      awake = signal_task-awake k' j sigchld hj';
      told = λ f. signal_task-pending k' j sigchld hj' (w.gone j (λ z. ne (sym z)) ∙ f);
    })
