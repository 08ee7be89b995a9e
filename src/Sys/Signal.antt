-- ===== src/Sys/Signal.antt =====
-- src/kernel/sys/signal.c, the state of signals and the system calls on it. User memory is the 8-byte
-- word at each address, with `vmm_is_user_range` of src/mm/vmm.c before each access; the accesses of
-- this file are to whole words, and those of one struct lie 8 bytes apart.
pub mod Send
pub mod Check
pub mod Mask
pub mod Broadcast
pub mod Deliver
pub mod Handler
mod Tests
use alcor2os.Base.{
  ℕ, zero, suc, ◌+◌, ◌-◌, ◌*◌, ◌/◌, ◌%◌, ◌^◌, ◌≤◌, ◌<◌, min, max, ◌≡◌, refl, sym, ap, ◌∙◌, subst,
  ◌≢◌, ◌↔◌, ◌⊎◌, inl, inr, Bool, true, false, not, ◌&&◌, ◌||◌, Option, none, some, List, [], ◌∷◌,
  ◌++◌, map, arith, ltb, leb, ◌==◌, if◌then◌else◌, ltb→lt, lt→ltb, leb→le, le→ltb, ==_iff, eq→==,
  ne→==, ==→ne, ltb→le, tests, Bool-cases, Option-cases, length, get_elem?, get_or, set, take, drop,
  replicate, length-append, take-append-drop, length-take, length-drop, length-replicate,
  length-set, get_or-set_self, get_or-set_ne, get_or-out, set-out, get_or-replicate, bit,
  count_below, count_below-le, count_below-eq, count_below-change, count_below-pos,
  count_below-zero, take-append_left, take_all, take-drop, drop-drop, get_or-replicate_lt,
}
use native.Mathlib.Decide.{ℕ_discrete, dec_lt}
use alcor2os.Base.Word.{
  u64_mod, sub64, add64, test_bit, set_bit, clear_bit, or_bits, and_not_bits, or64, and_not64,
  test_bit-set_self, test_bit-set_ne, test_bit-clear_self, test_bit-clear_ne, test_bit-or,
  test_bit-and_not, all_ones, set_bit-lt, clear_bit-le, eq_of_bits,
}
use alcor2os.Base.Errno.{Errno, einval, esrch, efault, Result, ok, err}
use alcor2os.Process.{ProcState}

abbrev pub sigkill : ℕ
sigkill = 9

abbrev pub sigstop : ℕ
sigstop = 19

abbrev pub nsig : ℕ
nsig = 64

abbrev pub user_space_end : ℕ
user_space_end = 140737488351232

-- `k_sigaction_t`
pub record Action : Type 0 where
  pub sa_handler : ℕ
  pub sa_flags : ℕ
  pub sa_restorer : ℕ
  pub sa_mask : ℕ

-- The fields of `proc_t` that signals use.
pub record Proc : Type 0 where
  pub pid : ℕ
  pub state : ProcState
  pub sig_pending : ℕ
  pub sig_mask : ℕ
  pub sig_actions : List Action

-- `syscall_frame_t`
pub record Frame : Type 0 where
  pub r15 : ℕ
  pub r14 : ℕ
  pub r13 : ℕ
  pub r12 : ℕ
  pub r11 : ℕ
  pub r10 : ℕ
  pub r9 : ℕ
  pub r8 : ℕ
  pub rbp : ℕ
  pub rdi : ℕ
  pub rsi : ℕ
  pub rdx : ℕ
  pub rcx : ℕ
  pub rbx : ℕ
  pub rax : ℕ
  pub rip : ℕ
  pub rflags : ℕ
  pub rsp : ℕ

abbrev pub Memory : Type 0
Memory = ℕ → ℕ

unfoldable pub store : Memory → ℕ → ℕ → Memory
store m a v b = if b == a then v else m b

-- The words `vs` at `a` and behind it, as the fields of a struct are laid out.
unfoldable pub store_words : Memory → ℕ → List ℕ → Memory
unfolding store
store_words m a [] = m
store_words m a (v ∷ vs) = store_words (store m a v) (a + 8) vs

unfoldable pub vmm_is_user_range : ℕ → ℕ → Bool
vmm_is_user_range start size =
    let end = add64 start size in if ltb end start then false else leb end user_space_end

abbrev pub no_action : Action
no_action = record { sa_handler = 0; sa_flags = 0; sa_restorer = 0; sa_mask = 0 }

abbrev pub action_at : Proc → ℕ → Action
action_at p signum = get_or p.sig_actions signum no_action

abbrev pub action_words : Action → List ℕ
action_words a = a.sa_handler ∷ a.sa_flags ∷ a.sa_restorer ∷ a.sa_mask ∷ []

abbrev pub load_action : Memory → ℕ → Action
load_action m a = record {
  sa_handler = m a;
  sa_flags = m (a + 8);
  sa_restorer = m (a + 16);
  sa_mask = m (a + 24);
}

-- The second half of `sys_rt_sigaction`, which stores the new action.
unfoldable pub set_action : Proc → Memory → ℕ → ℕ → Proc × Result ℕ
unfolding vmm_is_user_range
set_action p m signum act =
    if act == 0
    then (p, ok 0)
    else if vmm_is_user_range act 32
    then (record p { sig_actions = set p.sig_actions signum (load_action m act) }, ok 0)
    else (p, err efault)

-- `sys_rt_sigaction` behind the checks of its numbers.
unfoldable pub get_set_action : Option Proc → Memory → ℕ → ℕ → ℕ → Option Proc × Memory × Result ℕ
unfolding set_action store_words vmm_is_user_range
get_set_action none m signum act oldact = (none, m, err esrch)
get_set_action (some p) m signum act oldact =
    let m1 = store_words m oldact (action_words (action_at p signum)) in
    if oldact == 0
    then (let r = set_action p m signum act in (some r.0, m, r.1))
    else if vmm_is_user_range oldact 32
    then (let r = set_action p m1 signum act in (some r.0, m1, r.1))
    else (some p, m, err efault)

unfoldable pub sys_rt_sigaction :
    Option Proc → Memory → ℕ → ℕ → ℕ → ℕ → Option Proc × Memory × Result ℕ
unfolding get_set_action
sys_rt_sigaction current m signum act oldact sigsetsize =
    if not (sigsetsize == 8)
    then (current, m, err einval)
    else if signum == 0 || leb nsig signum
    then (current, m, err einval)
    else if signum == sigkill || signum == sigstop
    then (current, m, err einval)
    else get_set_action current m signum act oldact

-- The switch of `sys_rt_sigprocmask` on `(int)how`, on the mask without SIGKILL and SIGSTOP.
unfoldable pub change_mask : Proc → ℕ → ℕ → Proc × Result ℕ
change_mask p how new_mask =
    if how == 0
    then (record p { sig_mask = or64 p.sig_mask new_mask }, ok 0)
    else if how == 1
    then (record p { sig_mask = and_not64 p.sig_mask new_mask }, ok 0)
    else if how == 2
    then (record p { sig_mask = new_mask }, ok 0)
    else (p, err einval)

-- `sys_rt_sigprocmask` from `if(set)` on.
unfoldable pub set_mask : Proc → Memory → ℕ → ℕ → Proc × Result ℕ
unfolding change_mask vmm_is_user_range clear_bit
set_mask p m how set_ptr =
    if set_ptr == 0
    then (p, ok 0)
    else if vmm_is_user_range set_ptr 8
    then change_mask p (how % 2 ^ 32) (clear_bit (clear_bit (m set_ptr) sigkill) sigstop)
    else (p, err efault)

unfoldable pub get_set_mask : Option Proc → Memory → ℕ → ℕ → ℕ → Option Proc × Memory × Result ℕ
unfolding set_mask store vmm_is_user_range
get_set_mask none m how set_ptr oldset = (none, m, err esrch)
get_set_mask (some p) m how set_ptr oldset =
    let m1 = store m oldset p.sig_mask in
    if oldset == 0
    then (let r = set_mask p m how set_ptr in (some r.0, m, r.1))
    else if vmm_is_user_range oldset 8
    then (let r = set_mask p m1 how set_ptr in (some r.0, m1, r.1))
    else (some p, m, err efault)

unfoldable pub sys_rt_sigprocmask :
    Option Proc → Memory → ℕ → ℕ → ℕ → ℕ → Option Proc × Memory × Result ℕ
unfolding get_set_mask
sys_rt_sigprocmask current m how set_ptr oldset sigsetsize =
    if not (sigsetsize == 8)
    then (current, m, err einval)
    else get_set_mask current m how set_ptr oldset

-- `stack_t` is three words; the flag SS_DISABLE is 2.
pub sys_sigaltstack : Memory → ℕ → Memory × Result ℕ
unfolding store
sys_sigaltstack m old_ss =
    if old_ss == 0
    then (m, ok 0)
    else (store (store (store m old_ss 0) (old_ss + 8) 2) (old_ss + 16) 0, ok 0)
