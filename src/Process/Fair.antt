-- ===== src/Process/Fair.antt =====
-- The round robin of `proc_schedule` in src/kernel/process/proc.c is fair.
use alcor2os.Base.{
  ℕ, zero, suc, ◌+◌, ◌-◌, ◌%◌, ◌≤◌, ◌<◌, ◌≡◌, refl, sym, ap, ◌∙◌, subst, ◌≢◌, ◌⊎◌, inl, inr, false,
  some, arith, Bool-cases, get_or-set_ne, ne→==,
}
use native.Mathlib.Decide.{dec_lt}
use alcor2os.Process.{ProcState, ready, running}
use alcor2os.Process.Sched.{
  Task, Kernel, no_task, task_at, state_at, put_task, put_state, proc_max, is_ready, next_ready,
  switch_from, proc_switch, Scheduled, switches, goes_on, halts, proc_schedule, dispatch, start_of,
  is_running,
}

-- How many places the round robin goes from `a` on until `b`.
abbrev pub distance : ℕ → ℕ → ℕ
distance a b = (b + proc_max - a) % proc_max

-- What the search finds where place `start + d` is ready: a ready place, no later than that.
next_ready-First :
    (r : ℕ) (k : Kernel) (start i d : ℕ)
    → i ≤ d
    → d < i + r
    → state_at k ((start + d) % proc_max) ≡ ready
    → (j : ℕ) × (i ≤ j)
      × (j ≤ d)
      × (next_ready r k start i ≡ some ((start + j) % proc_max))
      × (state_at k ((start + j) % proc_max) ≡ ready)
unfolding next_ready
next_ready-First zero k start i d lo hi h = absurd (omega arith)
next_ready-First (suc r) k start i d lo hi h =
    elim (ready-cases (state_at k ((start + i) % proc_max))) [
      | inl f ↦ (i, omega arith, lo, rw f, f)
      | inr f ↦
          let later : i ≢ d =
            λ e. absurd (f (subst (λ z. state_at k ((start + z) % proc_max) ≡ ready) (sym e) h)) in
          let (j, a, b, c, g) =
            next_ready-First r k start (suc i) d (omega arith) (omega arith) h in
          (j, omega arith, b, rw (not_ready (state_at k ((start + i) % proc_max)) f) c, g)
    ]
  where
    ready-cases : (s : ProcState) → (s ≡ ready) ⊎ (s ≢ ready)
    ready-cases s = ground arith

    not_ready : (s : ProcState) → s ≢ ready → is_ready s ≡ false
    not_ready s h = ground arith

put_task-other :
    (k : Kernel) (i : ℕ) (t : Task) (q : ℕ) → q ≢ i → task_at (put_task k i t) q ≡ task_at k q
put_task-other k i t q h = get_or-set_ne k.table i q t no_task (λ e. h (sym e))

put_state-other :
    (k : Kernel) (i : ℕ) (s : ProcState) (q : ℕ)
    → q ≢ i
    → state_at (put_state k i s) q ≡ state_at k q
put_state-other k i s q h =
    ap (λ t. t.proc.state)
      (put_task-other k i (record (task_at k i) { proc = record (task_at k i).proc { state = s } })
        q h)

-- A switch changes no process but the one that ran and the one that runs.
pub switch_from-other :
    (k : Kernel) (c next q : ℕ)
    → q ≢ c
    → q ≢ next
    → state_at (switch_from k (some c) next) q ≡ state_at k q
unfolding switch_from
switch_from-other k c next q h n =
    let t : Task = record (task_at k c) { fs_base = k.cpu_fs_base } in
    let saved = put_task k c t in
    let first : state_at saved q ≡ state_at k q =
      ap (λ t. t.proc.state) (put_task-other k c t q h) in
    elim (Bool-cases (is_running (state_at saved c))) [
      | inl f ↦ rw f (
          put_state-other (put_state saved c ready) next running q n
          ∙ put_state-other saved c ready q h
          ∙ first)
      | inr f ↦ rw f (put_state-other saved next running q n ∙ first)
    ]

switch_from-current : (k : Kernel) (c next : ℕ) → (switch_from k (some c) next).current ≡ some next
unfolding switch_from
switch_from-current k c next = refl

-- The ready process `q` is nearer to its turn: it runs, or fewer places lie before it.
pub record Nearer (k : Kernel) (c q : ℕ) (k' : Kernel) : Type 0 where
  pub next : ℕ
  pub small : next < proc_max
  pub runs : k'.current ≡ some next
  pub nearer :
      (next ≡ q) ⊎ ((distance next q < distance c q) × (q ≢ next) × (state_at k' q ≡ ready))

pub data Advances (k : Kernel) (c q : ℕ) : Scheduled → Type 0 where
  advances : (k' : Kernel) → Nearer k c q k' → Advances k c q (switches k')

proc_switch_lem :
    (k : Kernel) (c next : ℕ)
    → k.current ≡ some c
    → next ≢ c
    → proc_switch k next ≡ switch_from k (some c) next
unfolding proc_switch
proc_switch_lem k c next e h = rw (e, ne→== next c h)

proc_schedule_to :
    (k : Kernel) (c next : ℕ)
    → k.current ≡ some c
    → next_ready proc_max k c 1 ≡ some next
    → next ≢ c
    → proc_schedule k ≡ switches (switch_from k (some c) next)
unfolding proc_schedule dispatch
proc_schedule_to k c next cur e ne =
    ap (dispatch k) (ap (λ o. next_ready proc_max k (start_of o) 1) cur ∙ e)
    ∙ ap switches (proc_switch_lem k c next cur ne)

-- The places that a turn of the search leaves before `q`.
closer :
    (c q j : ℕ)
    → c < proc_max
    → q < proc_max
    → 1 ≤ j
    → j ≤ distance c q
    → ((c + j) % proc_max ≡ q)
      ⊎ ((distance ((c + j) % proc_max) q < distance c q) × ((c + j) % proc_max ≢ q))
closer c q j hc hq lo hi = elim (dec_lt j (distance c q)) [
  | yes f ↦ inr (omega arith, omega arith)
  | no f ↦ inl (omega arith)
]

moves_on :
    (c q j : ℕ)
    → c < proc_max
    → q < proc_max
    → q ≢ c
    → 1 ≤ j
    → j ≤ distance c q
    → (c + j) % proc_max ≢ c
moves_on c q j hc hq ne lo hi = omega arith

Nearer-switch :
    (k : Kernel) (c q next : ℕ)
    → next < proc_max
    → q ≢ c
    → state_at k q ≡ ready
    → (next ≡ q) ⊎ ((distance next q < distance c q) × (next ≢ q))
    → Nearer k c q (switch_from k (some c) next)
Nearer-switch k c q next small ne h near = record {
  next = next;
  small = small;
  runs = switch_from-current k c next;
  nearer = elim near [
    | inl z ↦ inl z
    | inr (z, w) ↦ inr (z, λ v. w (sym v), switch_from-other k c next q ne (λ v. w (sym v)) ∙ h)
  ];
}

pub proc_schedule-Advances :
    (k : Kernel) (c q : ℕ)
    → k.current ≡ some c
    → c < proc_max
    → q < proc_max
    → q ≢ c
    → state_at k q ≡ ready
    → Advances k c q (proc_schedule k)
proc_schedule-Advances k c q cur hc hq ne h = go (
    next_ready-First proc_max k c 1 (distance c q) (omega arith) (omega arith)
      (subst (λ z. state_at k z ≡ ready) (turn c q hc hq) h))
  where
    turn : (c q : ℕ) → c < proc_max → q < proc_max → q ≡ (c + distance c q) % proc_max
    turn c q hc hq = omega arith

    go :
        (j : ℕ) × (1 ≤ j)
          × (j ≤ distance c q)
          × (next_ready proc_max k c 1 ≡ some ((c + j) % proc_max))
          × (state_at k ((c + j) % proc_max) ≡ ready)
        → Advances k c q (proc_schedule k)
    go (j, lo, hi, e, f) =
        subst (Advances k c q)
          (sym (proc_schedule_to k c ((c + j) % proc_max) cur e (moves_on c q j hc hq ne lo hi)))
          (advances _ (
            Nearer-switch k c q ((c + j) % proc_max) (omega arith) ne h (closer c q j hc hq lo hi)))

-- The processes only yield: the scheduler is called `n` times.
pub yields : ℕ → Kernel → Kernel
yields zero k = k
yields (suc n) k = elim (proc_schedule k) [
  | switches k' ↦ yields n k'
  | goes_on k' ↦ k'
  | halts k' ↦ k'
]

turn_comes :
    (d : ℕ) (k : Kernel) (c q : ℕ)
    → k.current ≡ some c
    → c < proc_max
    → q < proc_max
    → q ≢ c
    → state_at k q ≡ ready
    → distance c q ≤ d
    → (n : ℕ) × (n ≤ d) × ((yields n k).current ≡ some q)
unfolding yields
turn_comes zero k c q cur hc hq ne h le = absurd (ne (omega arith))
turn_comes (suc d) k c q cur hc hq ne h le =
    go (proc_schedule k) refl (proc_schedule-Advances k c q cur hc hq ne h) (turn_comes d)
  where
    go :
        (r : Scheduled)
        → proc_schedule k ≡ r
        → Advances k c q r
        → ((k' : Kernel) (c' q' : ℕ)
            → k'.current ≡ some c'
            → c' < proc_max
            → q' < proc_max
            → q' ≢ c'
            → state_at k' q' ≡ ready
            → distance c' q' ≤ d
            → (n : ℕ) × (n ≤ d) × ((yields n k').current ≡ some q'))
        → (n : ℕ) × (n ≤ suc d) × ((yields n k).current ≡ some q)
    go r e (advances k' a) ih = elim a.nearer [
      | inl f ↦ (1, omega arith, rw (e, yields) (a.runs ∙ ap some f))
      | inr (f, g, w) ↦
          let (n, b, z) = ih k' a.next q a.runs a.small hq g w (omega arith) in
          (suc n, omega arith, rw (e, yields) z)
    ]

-- A ready process other than the current one, both among the 64 of the table, runs after fewer than
-- 64 calls of the scheduler when the processes do nothing but yield.
pub proc_schedule-Fair :
    (k : Kernel) (c q : ℕ)
    → k.current ≡ some c
    → c < proc_max
    → q < proc_max
    → q ≢ c
    → state_at k q ≡ ready
    → (n : ℕ) × (n < proc_max) × ((yields n k).current ≡ some q)
proc_schedule-Fair k c q cur hc hq ne h =
    let (n, b, z) = turn_comes (distance c q) k c q cur hc hq ne h (omega arith) in
    (n, omega arith, z)
