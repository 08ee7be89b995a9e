-- ===== src/Sys/Signal/Handler.antt =====
-- The frame that `proc_check_signals` of src/kernel/sys/signal.c builds for a handler, and the return
-- from it by `sys_rt_sigreturn`.
use alcor2os.Base.{
  ℕ, zero, suc, ◌+◌, ◌-◌, ◌*◌, ◌%◌, ◌≤◌, ◌<◌, ◌≡◌, refl, sym, ap, ◌∙◌, inl, inr, Bool, true, false,
  not, ◌&&◌, ◌||◌, Option, some, List, [], ◌∷◌, ◌++◌, arith, ltb, leb, ◌==◌, if◌then◌else◌, leb→le,
  le→ltb, eq→==, ne→==, ltb→le, Bool-cases, length, get_or,
}
use native.Mathlib.Decide.{ℕ_discrete}
use alcor2os.Base.Word.{
  u64_mod, sub64, add64, test_bit, set_bit, test_bit-set_self, test_bit-set_ne, test_bit-or,
}
use alcor2os.Base.Errno.{Result, ok}
use alcor2os.Sys.Signal.{
  Action, Proc, Frame, Memory, store, store_words, vmm_is_user_range, action_at, user_space_end,
}
use alcor2os.Sys.Signal.Check.{
  frame_words, load_frame, sys_rt_sigreturn, returns, context_at, sa_nodefer, sa_resethand,
  handler_mask, after_reset, call_handler,
}

store_words-below : (vs : List ℕ) (m : Memory) (a b : ℕ) → b < a → store_words m a vs b ≡ m b
unfolding store_words store
store_words-below [] m a b h = refl
store_words-below (v ∷ vs) m a b h =
    store_words-below vs (store m a v) (a + 8) b (omega arith)
    ∙ rw (ne→== b a (λ e. omega arith)) refl

store_words-at :
    (vs : List ℕ) (m : Memory) (a k : ℕ)
    → k < length vs
    → store_words m a vs (a + 8 * k) ≡ get_or vs k 0
unfolding store_words store
store_words-at [] m a k h = absurd (omega arith)
store_words-at (v ∷ vs) m a zero h =
    store_words-below vs (store m a v) (a + 8) (a + 8 * 0) (omega arith)
    ∙ rw (eq→== (a + 8 * 0) a (omega arith)) refl
store_words-at (v ∷ vs) m a (suc k) h =
    ap (store_words (store m a v) (a + 8) vs) {x = a + 8 * suc k} {y = a + 8 + 8 * k} (omega arith)
    ∙ store_words-at vs (store m a v) (a + 8) k (omega arith)

-- There is room for the context and the return address below the red zone.
abbrev pub HasRoom : Frame → Type 0
HasRoom f = vmm_is_user_range (sub64 (context_at f.rsp) 8) 168 ≡ true

user_range :
    (start size : ℕ)
    → vmm_is_user_range start size ≡ true
    → (start ≤ add64 start size) × (add64 start size ≤ user_space_end)
unfolding vmm_is_user_range
user_range start size h = elim (Bool-cases (ltb (add64 start size) start)) [
  | inl e ↦ absurd (let z : false ≡ true = rw e at h in cc)
  | inr e ↦ (
    omega (arith, ltb→le (add64 start size) start e),
    leb→le (add64 start size) user_space_end (rw e at h),
  )
]

aligned-room :
    (below : ℕ)
    → below < u64_mod
    → let c = below - below % 16 in
      vmm_is_user_range (sub64 c 8) 168 ≡ true
      → (8 ≤ c) × (c + 160 ≤ user_space_end) × (sub64 c 8 + 8 ≡ c)
aligned-room below l h =
    let r : (sub64 (below - below % 16) 8 ≤ add64 (sub64 (below - below % 16) 8) 168)
        × (add64 (sub64 (below - below % 16) 8) 168 ≤ user_space_end) =
      user_range _ _ h in
    (omega (arith, r.0, r.1), omega (arith, r.0, r.1), omega (arith, r.0, r.1))

-- The context stands 8 bytes above the new stack pointer, both in user space.
context-room :
    (f : Frame)
    → HasRoom f
    → (8 ≤ context_at f.rsp)
      × (context_at f.rsp + 160 ≤ user_space_end)
      × (sub64 (context_at f.rsp) 8 + 8 ≡ context_at f.rsp)
context-room f h = aligned-room (sub64 (sub64 f.rsp 128) 160) (omega arith) h

-- The words of the context, in memory that still holds what the delivery stored.
abbrev pub context_words : Proc → Frame → ℕ → List ℕ
context_words p f signum = frame_words f ++ (p.sig_mask ∷ signum ∷ [])

-- `r` is the frame, the process and the memory with which a handler starts.
abbrev pub Starts : Proc → Frame → Memory → ℕ → Proc → Frame → Memory → Type 0
Starts p f m signum q g n = call_handler p f m signum ≡ returns (some q) g n

returns_injective :
    (p q : Proc) (f g : Frame) (m n : Memory)
    → returns (some p) f m ≡ returns (some q) g n
    → (p ≡ q) × (f ≡ g) × (m ≡ n)
returns_injective p q f g m n e = (cc, cc, cc)

-- The memory behind a delivery holds the context, and below it the address of the restorer.
start-memory :
    (p : Proc) (f : Frame) (m : Memory) (signum : ℕ) (q : Proc) (g : Frame) (n : Memory)
    → HasRoom f
    → Starts p f m signum q g n
    → (g.rsp + 8 ≡ context_at f.rsp)
      × (n g.rsp ≡ (action_at p signum).sa_restorer)
      × ((k : ℕ) → k < 20 → n (g.rsp + 8 + 8 * k) ≡ get_or (context_words p f signum) k 0)
unfolding call_handler store
start-memory p f m signum q g n h e =
    let ctx : ℕ = context_at f.rsp in
    let i = returns_injective _ q _ g _ n (rw h at e) in
    let room : (8 ≤ ctx) × (ctx + 160 ≤ user_space_end) × (sub64 ctx 8 + 8 ≡ ctx) =
      context-room f h in
    let r : sub64 ctx 8 ≡ g.rsp = ap (λ (z : Frame). z.rsp) i.1 in
    let w : store (store_words m ctx (context_words p f signum)) (sub64 ctx 8)
          (action_at p signum).sa_restorer
        ≡ n =
      i.2 in
    (
      omega (arith, r, room.2),
      ap (λ (z : Memory). z g.rsp) (sym w) ∙ rw (eq→== g.rsp (sub64 ctx 8) (sym r)) refl,
      λ k l.
          ap (λ (z : Memory). z (g.rsp + 8 + 8 * k)) (sym w)
          ∙ rw (ne→== (g.rsp + 8 + 8 * k) (sub64 ctx 8) (λ z. omega (arith, r))) (
              ap (store_words m ctx (context_words p f signum)) {x = g.rsp + 8 + 8 * k}
                {y = ctx + 8 * k} (omega (arith, r, room.2))
              ∙ store_words-at (context_words p f signum) m ctx k l),
    )

-- What `sys_rt_sigreturn` leaves for a context that holds this mask and these registers.
abbrev pub resumed : Proc → ℕ → Frame → ℕ → Option Proc × Option Frame × Result ℕ
resumed q mask f rax = (some (record q { sig_mask = mask }), some f, ok rax)

-- `sys_rt_sigreturn` gives `q` the mask and the registers from before the delivery to `p`.
abbrev pub Restores : Proc → Frame → Proc → Memory → Frame → Type 0
Restores p f q m g = sys_rt_sigreturn (some q) m (some g) ≡ resumed q p.sig_mask f f.rax

fits_range : (start size : ℕ) → start + size ≤ user_space_end → vmm_is_user_range start size ≡ true
unfolding vmm_is_user_range
fits_range start size h =
    let e : add64 start size ≡ start + size = omega arith in
    rw (e, le→ltb (start + size) start (omega arith)) (le→leb (start + size) user_space_end h)
  where
    le→leb : (a b : ℕ) → a ≤ b → leb a b ≡ true
    le→leb a b h = ground arith

load_frame-words :
    (p : Proc) (f : Frame) (n : Memory) (a signum : ℕ)
    → ((k : ℕ) → k < 20 → n (a + 8 * k) ≡ get_or (context_words p f signum) k 0)
    → load_frame n a ≡ f
load_frame-words p f n a signum w =
    let w0 : n a ≡ f.r15 = ap n {x = a} {y = a + 8 * 0} (omega arith) ∙ w 0 (omega arith) in
    let w1 : n (a + 8) ≡ f.r14 = w 1 (omega arith) in
    let w2 : n (a + 16) ≡ f.r13 = w 2 (omega arith) in
    let w3 : n (a + 24) ≡ f.r12 = w 3 (omega arith) in
    let w4 : n (a + 32) ≡ f.r11 = w 4 (omega arith) in
    let w5 : n (a + 40) ≡ f.r10 = w 5 (omega arith) in
    let w6 : n (a + 48) ≡ f.r9 = w 6 (omega arith) in
    let w7 : n (a + 56) ≡ f.r8 = w 7 (omega arith) in
    let w8 : n (a + 64) ≡ f.rbp = w 8 (omega arith) in
    let w9 : n (a + 72) ≡ f.rdi = w 9 (omega arith) in
    let w10 : n (a + 80) ≡ f.rsi = w 10 (omega arith) in
    let w11 : n (a + 88) ≡ f.rdx = w 11 (omega arith) in
    let w12 : n (a + 96) ≡ f.rcx = w 12 (omega arith) in
    let w13 : n (a + 104) ≡ f.rbx = w 13 (omega arith) in
    let w14 : n (a + 112) ≡ f.rax = w 14 (omega arith) in
    let w15 : n (a + 120) ≡ f.rip = w 15 (omega arith) in
    let w16 : n (a + 128) ≡ f.rflags = w 16 (omega arith) in
    let w17 : n (a + 136) ≡ f.rsp = w 17 (omega arith) in
    λ i. record {
      r15 = w0 i;
      r14 = w1 i;
      r13 = w2 i;
      r12 = w3 i;
      r11 = w4 i;
      r10 = w5 i;
      r9 = w6 i;
      r8 = w7 i;
      rbp = w8 i;
      rdi = w9 i;
      rsi = w10 i;
      rdx = w11 i;
      rcx = w12 i;
      rbx = w13 i;
      rax = w14 i;
      rip = w15 i;
      rflags = w16 i;
      rsp = w17 i;
    }

restored :
    (p : Proc) (f : Frame) (q : Proc) (n : Memory) (g : Frame) (signum : ℕ)
    → ((k : ℕ) → k < 20 → n (g.rsp + 8 * k) ≡ get_or (context_words p f signum) k 0)
    → resumed q (n (g.rsp + 144)) (load_frame n g.rsp) (n (g.rsp + 112))
      ≡ resumed q p.sig_mask f f.rax
restored p f q n g signum w =
    let frame : load_frame n g.rsp ≡ f = load_frame-words p f n g.rsp signum w in
    let mask : n (g.rsp + 144) ≡ p.sig_mask = w 18 (omega arith) in
    let rax : n (g.rsp + 112) ≡ f.rax = w 14 (omega arith) in
    λ i. resumed q (mask i) (frame i) (rax i)

-- Where the user stack has room for the context, a handler that returns to the restorer with the
-- stack pointer 8 above its start and has not written over the context makes sys_rt_sigreturn
-- restore every register and the signal mask from before the delivery, with the old rax as its
-- result.
pub call_handler-Restores :
    (p : Proc) (f : Frame) (m : Memory) (signum : ℕ) (q : Proc) (g : Frame) (n : Memory) (q1 : Proc)
    (g1 : Frame) (n1 : Memory)
    → HasRoom f
    → Starts p f m signum q g n
    → g1.rsp ≡ g.rsp + 8
    → ((k : ℕ) → k < 20 → n1 (g.rsp + 8 + 8 * k) ≡ n (g.rsp + 8 + 8 * k))
    → Restores p f q1 n1 g1
unfolding sys_rt_sigreturn
call_handler-Restores p f m signum q g n q1 g1 n1 h s e same =
    let (top, ret, words) = start-memory p f m signum q g n h s in
    let room : (8 ≤ context_at f.rsp)
        × (context_at f.rsp + 160 ≤ user_space_end)
        × (sub64 (context_at f.rsp) 8 + 8 ≡ context_at f.rsp) =
      context-room f h in
    let ok_range : vmm_is_user_range g1.rsp 160 ≡ true =
      fits_range g1.rsp 160 (omega (arith, top, room.1, e)) in
    rw ok_range
      (restored p f q1 n1 g1 signum (λ k l. ap (λ z. n1 (z + 8 * k)) e ∙ same k l ∙ words k l))

-- Where the user stack has room, the delivery to a handler that has SA_RESETHAND set lets the
-- process go on at address 0 and not at the handler.
pub call_handler-resethand :
    (p : Proc) (f : Frame) (m : Memory) (signum : ℕ) (q : Proc) (g : Frame) (n : Memory)
    → HasRoom f
    → test_bit (action_at p signum).sa_flags sa_resethand ≡ true
    → Starts p f m signum q g n
    → g.rip ≡ 0
unfolding call_handler after_reset
call_handler-resethand p f m signum q g n h t e =
    let i = returns_injective _ q _ g _ n (rw h at e) in
    let r : (after_reset (action_at p signum)).sa_handler ≡ g.rip = ap (λ (z : Frame). z.rip) i.1 in
    sym r ∙ rw t refl

or_assoc : (a b c : Bool) → ((a || b) || c) ≡ (a || (b || c))
or_assoc true b c = refl
or_assoc false b c = refl

or_neutral : (a b : Bool) → (a || (b && not true)) ≡ a
or_neutral true b = refl
or_neutral false true = refl
or_neutral false false = refl

own :
    (p : Proc) (signum : ℕ) (act : Action) (j : ℕ)
    → test_bit
        (if test_bit act.sa_flags sa_nodefer then p.sig_mask else set_bit p.sig_mask signum)
        j
      ≡ (test_bit p.sig_mask j || (j == signum && not (test_bit act.sa_flags sa_nodefer)))
own p signum act j = elim (Bool-cases (test_bit act.sa_flags sa_nodefer)) [
  | inl e ↦ rw e (sym (or_neutral (test_bit p.sig_mask j) (j == signum)))
  | inr e ↦ rw e (elim (ℕ_discrete signum j) [
    | yes x ↦ rw (eq→== j signum (sym x)) (
        ap (test_bit (set_bit p.sig_mask signum)) (sym x)
        ∙ test_bit-set_self p.sig_mask signum
        ∙ or_true (test_bit p.sig_mask j))
    | no x ↦
        rw (ne→== j signum (λ z. x (sym z)))
          (test_bit-set_ne p.sig_mask signum j x ∙ or_false (test_bit p.sig_mask j))
  ])
]
  where
    or_true : (b : Bool) → true ≡ (b || true)
    or_true true = refl
    or_true false = refl

    or_false : (b : Bool) → b ≡ (b || false)
    or_false true = refl
    or_false false = refl

-- Where the user stack has room, a handler runs with each signal from 0 to 63 blocked exactly if it
-- was blocked before, or is the one delivered and SA_NODEFER is not set, or is in the sa_mask of
-- the action.
pub call_handler-mask :
    (p : Proc) (f : Frame) (m : Memory) (signum : ℕ) (q : Proc) (g : Frame) (n : Memory) (j : ℕ)
    → HasRoom f
    → j < 64
    → Starts p f m signum q g n
    → test_bit q.sig_mask j ≡ (
        test_bit p.sig_mask j
        || ((j == signum && not (test_bit (action_at p signum).sa_flags sa_nodefer))
            || test_bit (action_at p signum).sa_mask j))
unfolding call_handler handler_mask
call_handler-mask p f m signum q g n j h l e =
    let i = returns_injective _ q _ g _ n (rw h at e) in
    let r : handler_mask p signum (action_at p signum) ≡ q.sig_mask =
      ap (λ (z : Proc). z.sig_mask) i.0 in
    let act : Action = action_at p signum in
    ap (λ z. test_bit z j) (sym r)
    ∙ test_bit-or 64
        (if test_bit act.sa_flags sa_nodefer then p.sig_mask else set_bit p.sig_mask signum)
        act.sa_mask j l
    ∙ ap (λ z. z || test_bit act.sa_mask j) (own p signum act j)
    ∙ or_assoc (test_bit p.sig_mask j) (j == signum && not (test_bit act.sa_flags sa_nodefer))
        (test_bit act.sa_mask j)
