-- ===== src/Process/Tests.antt =====
-- Runs of the scheduler and of the end of processes of src/kernel/process/proc.c.
use alcor2os.Base.{ℕ, ◌<◌, ◌≡◌, refl, true, false, some, [], ◌∷◌, arith, replicate}
use alcor2os.Base.Int.{negsuc}
use alcor2os.Process.{ProcState, ready, running, blocked, zombie}
use alcor2os.Process.Sched.{
  Task, Kernel, no_task, proc_max, next_ready, switch_from, proc_switch, switches, dispatch,
  proc_schedule,
}
use alcor2os.Process.Wait.{end_process, proc_waitpid}
use alcor2os.Sys.Signal.Send.{proc_get}
use alcor2os.Process.Fair.{yields, proc_schedule-Fair}
use alcor2os.Process.Children.{AnyResult, proc_waitpid-AnyResult}
use alcor2os.Process.Exit.{Ended, end_process-Ended}

task : ℕ → ℕ → ProcState → Task
task pid parent s = record no_task {
  proc = record { pid = pid; state = s; sig_pending = 0; sig_mask = 0; sig_actions = [] };
  parent_pid = parent;
}

-- A shell that waits, a child that runs, one that is ready and one that has ended.
abbrev four : Kernel
four = record {
  table =
      task 1 0 blocked ∷ task 2 1 running ∷ task 3 1 ready ∷ task 4 1 zombie ∷ replicate 60 no_task;
  current = some 1;
  need_resched = false;
  files = record { oft = []; tables = []; closed = [] };
  cpu_fs_base = 5;
  stacks_freed = [];
  spaces_freed = [];
}

turn : proc_schedule four ≡ switches (switch_from four (some 1) 2)
unfolding proc_schedule dispatch proc_switch next_ready task
turn = refl

proc_schedule-Fair_example : (n : ℕ) × (n < proc_max) × ((yields n four).current ≡ some 2)
unfolding task
proc_schedule-Fair_example =
    proc_schedule-Fair four 1 2 refl (omega arith) (omega arith) (omega arith) refl

proc_waitpid-AnyResult_example : AnyResult four 0 true (proc_waitpid four 0 (negsuc 0) true)
proc_waitpid-AnyResult_example = proc_waitpid-AnyResult four 0 true refl

end_process-Ended_example : Ended four 1 7 0 (end_process four 1 7)
unfolding task proc_get
end_process-Ended_example =
    end_process-Ended four 1 7 0 (omega arith) (omega arith) (omega arith) refl refl
