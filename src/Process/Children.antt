-- ===== src/Process/Children.antt =====
-- `proc_waitpid` of src/kernel/process/proc.c: which child is collected.
use alcor2os.Base.{
  ℕ, zero, suc, ◌+◌, ◌*◌, ◌%◌, ◌≤◌, ◌<◌, ◌≡◌, refl, sym, ap, subst, ◌≢◌, ◌⊎◌, inl, inr, Bool, true,
  false, ◌&&◌, none, some, ◌∷◌, arith, if◌then◌else◌, Bool-cases, get_or-set_ne, get_or-set_self,
  length,
}
use native.Mathlib.Decide.{ℕ_discrete}
use alcor2os.Base.Errno.{echild}
use alcor2os.Base.Int.{negsuc}
use alcor2os.Process.{ProcState, free, zombie}
use alcor2os.Process.Sched.{Kernel, no_task, task_at, state_at, proc_max}
use alcor2os.Process.Wait.{
  Waitpid, collected, none_yet, refuses, blocks, reap, block, is_child, is_zombie, zombie_child,
  has_children, waitpid_any, proc_waitpid,
}

-- The slot at `i` is free, its stack and address space are given back, and no other process is touched.
pub record Reaped (k : Kernel) (i : ℕ) (k' : Kernel) : Type 0 where
  pub freed : state_at k' i ≡ free
  pub others : (j : ℕ) → j ≢ i → task_at k' j ≡ task_at k j
  pub stacks : k'.stacks_freed ≡ (task_at k i).kernel_stack ∷ k.stacks_freed
  pub spaces : k'.spaces_freed ≡ (task_at k i).cr3 ∷ k.spaces_freed

reap-Reaped : (k : Kernel) (i : ℕ) → i < length k.table → Reaped k i (reap k i)
reap-Reaped k i h = record {
  freed = ap (λ t. t.proc.state) (get_or-set_self k.table i _ no_task h);
  others = λ j ne. get_or-set_ne k.table i j _ no_task (λ e. ne (sym e));
  stacks = refl;
  spaces = refl;
}

abbrev pub NoZombie : Kernel → ℕ → Type 0
NoZombie k me = (i : ℕ) → i < proc_max → is_child k me i ≡ true → state_at k i ≢ zombie

-- What the wait for any child answers, on every branch.
pub data AnyResult (k : Kernel) (me : ℕ) (nohang : Bool) : Waitpid → Type 0 where
  reaps :
      (i : ℕ) (k' : Kernel)
      → i < proc_max
      → is_child k me i ≡ true
      → state_at k i ≡ zombie
      → Reaped k i k'
      → AnyResult k me nohang
          (collected (task_at k i).proc.pid ((task_at k i).exit_code % 256 * 256) k')
  childless :
      ((i : ℕ) → i < proc_max → is_child k me i ≡ false) → AnyResult k me nohang (refuses echild k)
  pending :
      (i : ℕ)
      → nohang ≡ true
      → is_child k me i ≡ true
      → NoZombie k me
      → AnyResult k me nohang (none_yet k)
  sleeps :
      (i : ℕ)
      → nohang ≡ false
      → is_child k me i ≡ true
      → NoZombie k me
      → AnyResult k me nohang (blocks (block k me 0))

zombie_child-found :
    (r : ℕ) (k : Kernel) (me i : ℕ)
    → ((j : ℕ) × (i ≤ j)
        × (j < i + r)
        × (is_child k me j ≡ true)
        × (state_at k j ≡ zombie)
        × (zombie_child r k me i ≡ some j))
      ⊎ (((j : ℕ) → i ≤ j → j < i + r → is_child k me j ≡ true → state_at k j ≢ zombie)
          × (zombie_child r k me i ≡ none))
unfolding zombie_child
zombie_child-found zero k me i = inr (λ j a b. absurd (omega arith), refl)
zombie_child-found (suc r) k me i =
    elim (Bool-cases (is_child k me i && is_zombie (state_at k i))) [
      | inl f ↦ inl (
        i,
        omega arith,
        omega arith,
        both (is_child k me i) (state_at k i) f,
        is (is_child k me i) (state_at k i) f,
        rw f,
      )
      | inr f ↦ elim (zombie_child-found r k me (suc i)) [
        | inl (j, a, b, c, d, e) ↦ inl (j, omega arith, omega arith, c, d, rw f e)
        | inr (all, e) ↦ inr (
          λ j a b. elim (ℕ_discrete i j) [
            | yes p ↦
                subst (λ z. is_child k me z ≡ true → state_at k z ≢ zombie) p
                  (unlike (is_child k me i) (state_at k i) f)
            | no p ↦ all j (omega arith) (omega arith)
          ],
          rw f e,
        )
      ]
    ]
  where
    both : (b : Bool) (s : ProcState) → (b && is_zombie s) ≡ true → b ≡ true
    both b s h = ground arith

    is : (b : Bool) (s : ProcState) → (b && is_zombie s) ≡ true → s ≡ zombie
    is b s h = ground arith

    unlike : (b : Bool) (s : ProcState) → (b && is_zombie s) ≡ false → b ≡ true → s ≢ zombie
    unlike b s h g e = ground arith

has_children-found :
    (r : ℕ) (k : Kernel) (me i : ℕ)
    → ((j : ℕ) × (is_child k me j ≡ true) × (has_children r k me i ≡ true))
      ⊎ (((j : ℕ) → i ≤ j → j < i + r → is_child k me j ≡ false) × (has_children r k me i ≡ false))
unfolding has_children
has_children-found zero k me i = inr (λ j a b. absurd (omega arith), refl)
has_children-found (suc r) k me i = elim (Bool-cases (is_child k me i)) [
  | inl f ↦ inl (i, f, rw f)
  | inr f ↦ elim (has_children-found r k me (suc i)) [
    | inl (j, c, e) ↦ inl (j, c, rw f e)
    | inr (all, e) ↦ inr (
      λ j a b. elim (ℕ_discrete i j) [
        | yes p ↦ subst (λ z. is_child k me z ≡ false) p f
        | no p ↦ all j (omega arith) (omega arith)
      ],
      rw f e,
    )
  ]
]

waitpid_found :
    (k : Kernel) (me : ℕ) (nohang : Bool) (j : ℕ)
    → j < length k.table
    → j < proc_max
    → is_child k me j ≡ true
    → state_at k j ≡ zombie
    → AnyResult k me nohang (waitpid_any k me nohang (some j))
unfolding waitpid_any
waitpid_found k me nohang j h lt c d = reaps j (reap k j) lt c d (reap-Reaped k j h)

none_left :
    (k : Kernel) (me : ℕ)
    → ((j : ℕ) → 0 ≤ j → j < 0 + proc_max → is_child k me j ≡ true → state_at k j ≢ zombie)
    → NoZombie k me
none_left k me h i lt = h i (omega arith) (omega arith)

in_table : (k : Kernel) (i : ℕ) → length k.table ≡ proc_max → i < 0 + proc_max → i < length k.table
in_table k i len h = omega arith

waitpid_none-AnyResult :
    (k : Kernel) (me : ℕ) (nohang : Bool)
    → NoZombie k me
    → AnyResult k me nohang (waitpid_any k me nohang none)
unfolding waitpid_any
waitpid_none-AnyResult k me nohang calm = elim (has_children-found proc_max k me 0) [
  | inl (j, c, e) ↦ rw e (split j c nohang)
  | inr (all, e) ↦ rw e (childless (λ i lt. all i (omega arith) (omega arith)))
]
  where
    split :
        (j : ℕ)
        → is_child k me j ≡ true
        → (h : Bool) → AnyResult k me h (if h then none_yet k else blocks (block k me 0))
    split j c true = pending j refl c calm
    split j c false = sleeps j refl c calm

-- A wait for any child, in a table of 64, either returns the pid and status of an ended child,
-- whose slot becomes free with its stack and address space given back and no other process touched,
-- or fails with ECHILD where the caller has no child, or, where it has children and none has ended,
-- returns 0 if it must not hang and blocks otherwise.
pub proc_waitpid-AnyResult :
    (k : Kernel) (me : ℕ) (nohang : Bool)
    → length k.table ≡ proc_max
    → AnyResult k me nohang (proc_waitpid k me (negsuc 0) nohang)
unfolding proc_waitpid
proc_waitpid-AnyResult k me nohang len = elim (zombie_child-found proc_max k me 0) [
  | inl (j, a, b, c, d, e) ↦ rw e (found j b c d)
  | inr (calm, e) ↦ rw e (waitpid_none-AnyResult k me nohang (none_left k me calm))
]
  where
    found :
        (j : ℕ)
        → j < 0 + proc_max
        → is_child k me j ≡ true
        → state_at k j ≡ zombie
        → AnyResult k me nohang (waitpid_any k me nohang (some j))
    found j b c d = waitpid_found k me nohang j (in_table k j len b) (omega arith) c d
