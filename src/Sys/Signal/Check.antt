-- ===== src/Sys/Signal/Check.antt =====
-- src/kernel/sys/signal.c, the delivery of a signal on the way back to user space
-- (`proc_check_signals`) and the return from a handler (`sys_rt_sigreturn`).
use alcor2os.Base.{
  ℕ, zero, suc, ◌+◌, ◌-◌, ◌%◌, Bool, ◌||◌, Option, none, some, List, [], ◌∷◌, ◌++◌, ◌==◌,
  if◌then◌else◌, set,
}
use alcor2os.Base.Word.{sub64, test_bit, set_bit, clear_bit, or64, and_not64}
use alcor2os.Base.Errno.{einval, efault, Result, ok, err}
use alcor2os.Sys.Signal.{
  Action, Proc, Frame, Memory, store, store_words, vmm_is_user_range, action_at, sigkill, sigstop,
}

abbrev pub sig_dfl : ℕ
sig_dfl = 0

abbrev pub sig_ign : ℕ
sig_ign = 1

unfoldable pub sig_default_ignore : ℕ → Bool
sig_default_ignore signum = signum == 17 || (signum == 23 || (signum == 28 || signum == 18))

-- The registers in the order of `sig_ucontext_t`, behind which the mask and the signal stand.
abbrev pub frame_words : Frame → List ℕ
frame_words f =
    f.r15 ∷ f.r14 ∷ f.r13 ∷ f.r12 ∷ f.r11 ∷ f.r10 ∷ f.r9 ∷ f.r8 ∷ f.rbp ∷ f.rdi ∷ f.rsi ∷ f.rdx
    ∷ f.rcx ∷ f.rbx ∷ f.rax ∷ f.rip ∷ f.rflags ∷ f.rsp ∷ []

abbrev pub load_frame : Memory → ℕ → Frame
load_frame m a = record {
  r15 = m a;
  r14 = m (a + 8);
  r13 = m (a + 16);
  r12 = m (a + 24);
  r11 = m (a + 32);
  r10 = m (a + 40);
  r9 = m (a + 48);
  r8 = m (a + 56);
  rbp = m (a + 64);
  rdi = m (a + 72);
  rsi = m (a + 80);
  rdx = m (a + 88);
  rcx = m (a + 96);
  rbx = m (a + 104);
  rax = m (a + 112);
  rip = m (a + 120);
  rflags = m (a + 128);
  rsp = m (a + 136);
}

abbrev pub with_mask : ℕ → Option Proc → Option Proc
with_mask mask none = none
with_mask mask (some p) = some (record p { sig_mask = mask })

abbrev pub sizeof_ucontext : ℕ
sizeof_ucontext = 160

-- The current process, its frame, and the result, which the dispatcher stores in `rax`.
unfoldable pub sys_rt_sigreturn :
    Option Proc → Memory → Option Frame → Option Proc × Option Frame × Result ℕ
unfolding vmm_is_user_range
sys_rt_sigreturn current m none = (current, none, err einval)
sys_rt_sigreturn current m (some f) =
    if vmm_is_user_range f.rsp sizeof_ucontext
    then (with_mask (m (f.rsp + 144)) current, some (load_frame m f.rsp), ok (m (f.rsp + 112)))
    else (current, some f, err efault)

-- The search for the lowest signal from `i` on, `n` numbers long; 0 when there is none.
unfoldable pub find_signal : ℕ → ℕ → ℕ → ℕ
unfolding test_bit
find_signal zero i deliverable = 0
find_signal (suc n) i deliverable =
    let rest = find_signal n (suc i) deliverable in if test_bit deliverable i then i else rest

-- How `proc_check_signals` ends: the process exits and there is no return, or it returns.
pub data Outcome : Type 0 where
  exits : Proc → ℕ → Outcome
  returns : Option Proc → Frame → Memory → Outcome

-- Where the context goes: below the red zone, its address a multiple of 16.
abbrev pub context_at : ℕ → ℕ
context_at user_rsp = let below = sub64 (sub64 user_rsp 128) sizeof_ucontext in below - below % 16

-- The bits SA_NODEFER and SA_RESETHAND of `sa_flags`.
abbrev pub sa_nodefer : ℕ
sa_nodefer = 30

abbrev pub sa_resethand : ℕ
sa_resethand = 31

unfoldable pub handler_mask : Proc → ℕ → Action → ℕ
unfolding test_bit set_bit
handler_mask p signum act =
    or64 (if test_bit act.sa_flags sa_nodefer then p.sig_mask else set_bit p.sig_mask signum)
      act.sa_mask

unfoldable pub after_reset : Action → Action
unfolding test_bit
after_reset act =
    if test_bit act.sa_flags sa_resethand then record act { sa_handler = sig_dfl } else act

-- The part of `proc_check_signals` that calls a handler. The handler's address is read behind the
-- reset of SA_RESETHAND, as the code does.
unfoldable pub call_handler : Proc → Frame → Memory → ℕ → Outcome
unfolding vmm_is_user_range store_words store handler_mask after_reset
call_handler p f m signum =
    let act = action_at p signum in
    let ctx = context_at f.rsp in
    if vmm_is_user_range (sub64 ctx 8) 168
    then returns
        (some (record p {
          sig_mask = handler_mask p signum act;
          sig_actions = set p.sig_actions signum (after_reset act);
        }))
        (record f {
          rip = (after_reset act).sa_handler;
          rdi = signum;
          rsi = 0;
          rdx = ctx;
          rsp = sub64 ctx 8;
          rflags = 514;
        })
        (store (store_words m ctx (frame_words f ++ (p.sig_mask ∷ signum ∷ []))) (sub64 ctx 8)
          act.sa_restorer)
    else returns (some p) f m

-- `proc_check_signals` with the signal chosen and no longer pending.
unfoldable pub dispose : Proc → Frame → Memory → ℕ → Outcome
unfolding call_handler sig_default_ignore
dispose p f m signum =
    let act = action_at p signum in
    if act.sa_handler == sig_ign
    then returns (some p) f m
    else if act.sa_handler == sig_dfl
    then (if sig_default_ignore signum then returns (some p) f m else exits p signum)
    else if signum == sigkill || signum == sigstop
    then exits p signum
    else call_handler p f m signum

unfoldable pub proc_check_signals : Option Proc → Frame → Memory → Outcome
unfolding find_signal dispose clear_bit
proc_check_signals none f m = returns none f m
proc_check_signals (some p) f m =
    let deliverable = and_not64 p.sig_pending p.sig_mask in
    let signum = find_signal 63 1 deliverable in
    if deliverable == 0
    then returns (some p) f m
    else if signum == 0
    then returns (some p) f m
    else dispose (record p { sig_pending = clear_bit p.sig_pending signum }) f m signum
