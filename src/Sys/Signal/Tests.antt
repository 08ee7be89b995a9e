-- ===== src/Sys/Signal/Tests.antt =====
-- Runs of the signal calls of src/kernel/sys/signal.c.
use alcor2os.Base.{◌-◌, ◌^◌, ◌≡◌, refl, true, some, List, [], ◌∷◌, ◌++◌}
use alcor2os.Base.Word.{sub64, test_bit, set_bit, or_bits}
use alcor2os.Base.Errno.{esrch, err}
use alcor2os.Process.{running, blocked}
use alcor2os.Sys.Signal.{
  Action, Proc, Frame, Memory, vmm_is_user_range, no_action, store, store_words, sys_rt_sigprocmask,
}
use alcor2os.Sys.Signal.Send.{sys_kill, kill_at, proc_get}
use alcor2os.Sys.Signal.Check.{
  returns, context_at, handler_mask, after_reset, call_handler, proc_check_signals, frame_words,
}
use alcor2os.Sys.Signal.Mask.{AllKillable, sys_rt_sigprocmask-Killable}
use alcor2os.Sys.Signal.Deliver.{Chooses, proc_check_signals-Chooses}
use alcor2os.Sys.Signal.Handler.{Restores, call_handler-Restores}

-- A process with SIGINT pending and a handler for it, which is reset and blocks SIGTERM.
abbrev on_sigint : Action
on_sigint = record {
  sa_handler = 4198400;
  sa_flags = 2 ^ 31;
  sa_restorer = 4198500;
  sa_mask = 2 ^ 15;
}

abbrev shell : Proc
shell = record {
  pid = 3;
  state = running;
  sig_pending = 4;
  sig_mask = 0;
  sig_actions = no_action ∷ no_action ∷ on_sigint ∷ [];
}

abbrev zeroed : Frame
zeroed = record {
  r15 = 0;
  r14 = 0;
  r13 = 0;
  r12 = 0;
  r11 = 0;
  r10 = 0;
  r9 = 0;
  r8 = 0;
  rbp = 0;
  rdi = 0;
  rsi = 0;
  rdx = 0;
  rcx = 0;
  rbx = 0;
  rax = 7;
  rip = 4196000;
  rflags = 514;
  rsp = 1048576;
}

abbrev empty : Memory
empty a = 0

sys_rt_sigprocmask-Killable_example :
    AllKillable (sys_rt_sigprocmask (some shell) (λ a. 2 ^ 64 - 1) 2 4096 0 8).0
unfolding test_bit
sys_rt_sigprocmask-Killable_example =
    sys_rt_sigprocmask-Killable (some shell) (λ a. 2 ^ 64 - 1) 2 4096 0 8 (refl, refl)

in_user_space : vmm_is_user_range 4096 8 ≡ true
unfolding vmm_is_user_range
in_user_space = refl

-- Two processes, the second of which waits.
abbrev two_procs : List Proc
two_procs = shell ∷ record shell { pid = 4; state = blocked } ∷ []

no_such : sys_kill two_procs 9 15 ≡ (two_procs, err esrch)
unfolding sys_kill kill_at proc_get
no_such = refl

proc_check_signals-Chooses_example :
    Chooses shell zeroed empty (proc_check_signals (some shell) zeroed empty)
proc_check_signals-Chooses_example = proc_check_signals-Chooses shell zeroed empty

has_room : vmm_is_user_range (sub64 (context_at zeroed.rsp) 8) 168 ≡ true
unfolding vmm_is_user_range
has_room = refl

-- The process, the frame and the memory with which the handler starts.
abbrev handling : Proc
handling = record shell {
  sig_mask = 32772;
  sig_actions = no_action ∷ no_action ∷ record on_sigint { sa_handler = 0 } ∷ [];
}

abbrev entered : Frame
entered = record zeroed { rip = 0; rdi = 2; rsi = 0; rdx = 1048288; rsp = 1048280; rflags = 514 }

abbrev stacked : Memory
stacked = store (store_words empty 1048288 (frame_words zeroed ++ 0 ∷ 2 ∷ [])) 1048280 4198500

starts : call_handler shell zeroed empty 2 ≡ returns (some handling) entered stacked
unfolding call_handler vmm_is_user_range handler_mask after_reset test_bit set_bit or_bits
starts = refl

-- The frame of the call of `rt_sigreturn`.
abbrev returning : Frame
returning = record entered { rsp = 1048288 }

call_handler-Restores_example : Restores shell zeroed handling stacked returning
call_handler-Restores_example =
    call_handler-Restores shell zeroed empty 2 handling entered stacked handling returning stacked
      has_room starts refl (λ k h. refl)

reset_flag : test_bit (2 ^ 31) 31 ≡ true
unfolding test_bit
reset_flag = refl
