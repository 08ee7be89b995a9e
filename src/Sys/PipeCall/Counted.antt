-- ===== src/Sys/PipeCall/Counted.antt =====
-- The counts of the open files on each path of `sys_pipe` in src/kernel/sys/pipe.c.
use alcor2os.Base.{
  ℕ, ◌+◌, ◌<◌, ◌≡◌, refl, sym, ap, ◌∙◌, subst, ◌⊎◌, inl, inr, true, not, ◌||◌, Option, none, some,
  List, arith, ◌==◌, Bool-cases, Option-cases, length, get_or, drop, length-set,
}
use alcor2os.Base.Errno.{Errno, enfile, emfile, ok, err}
use alcor2os.Fs.Files.{
  Table, Files, Kind, pipe_rd, pipe_wr, zero_entry, empty_table, entry_at, put_entry, table_at,
  get_fd, put_fd, free_entry, free_fd, install_at, vfs_install_fd, vfs_oft_release,
}
use alcor2os.Fs.Files.Counted.{
  holds, IsSlot, IsSized, Agrees, Counts, more, Agrees-put, release-Counts,
}
use alcor2os.Fs.Files.Steps.{
  IsCounted, fill-Counts, clear-Counts, put_fd-IsSized, release-IsSized, release-tables,
}
use alcor2os.Fs.Files.Dup.{free-IsSlot, get_fd-put_self, filled-IsSlot}
use alcor2os.Fs.Files.Lifetime.{mark_pipe, vfs_oft_alloc_pipe}
use alcor2os.Fs.Calls.Open.{alloc-Counts, free_entry-unused, alloc_none, alloc_some}
use alcor2os.Sys.Pipe.{Pipe, alloc_pipe}
use alcor2os.Sys.Signal.{vmm_is_user_range}
use alcor2os.Sys.PipeCall.{
  Kernel, release_in, write_installed, read_installed, write_opened, read_opened, pipe_allocated,
  sys_pipe,
}

abbrev nothing : ℕ → ℕ
nothing i = 0

-- The files are well formed and `x` references are held by no descriptor.
abbrev Held : Files → (ℕ → ℕ) → Type 0
Held s x = IsSized s × Counts s x

counted : (s : Files) → Held s nothing → IsCounted s
counted s h = record { sized = h.0; counts = h.1 }

Held-same : (s : Files) (x y : ℕ → ℕ) → ((i : ℕ) → x i ≡ y i) → Held s x → Held s y
Held-same s x y e h = (h.0, λ i. subst (λ z. Agrees (entry_at s i) (holds s i + z)) (e i) (h.1 i))

more-swap :
    (s : Files) (x : ℕ → ℕ) (a b : ℕ) → Held s (more (more x a) b) → Held s (more (more x b) a)
more-swap s x a b h = Held-same s (more (more x a) b) (more (more x b) a) (λ i. omega arith) h

release-Held : (s : Files) (x : ℕ → ℕ) (i : ℕ) → Held s (more x i) → Held (vfs_oft_release s i) x
release-Held s x i h = (release-IsSized s i h.0, release-Counts s x i h.0 h.1)

-- A new entry of a pipe, or none.
alloc-Held :
    (s : Files) (x : ℕ → ℕ) (kind : Kind) (ptr : ℕ)
    → Held s x
    → ((vfs_oft_alloc_pipe s kind ptr ≡ (err enfile, s))
        ⊎ ((i : ℕ) × (t : Files) × (vfs_oft_alloc_pipe s kind ptr ≡ (ok i, t)) × Held t (more x i)))
unfolding vfs_oft_alloc_pipe mark_pipe holds
alloc-Held s x kind ptr h = elim (Option-cases (free_entry s.oft)) [
  | inl e ↦ inl (rw (alloc_none s e) refl)
  | inr (i, e) ↦
      let a = alloc-Counts s x i h.0 h.1 e in
      let t : Files = put_entry s i (record zero_entry { in_use = true; refcount = 1 }) in
      let l : i < length t.oft = omega (
        arith,
        (free_entry-unused s.oft i e).0,
        length-set s.oft i (record zero_entry { in_use = true; refcount = 1 }),
      ) in
      inr (
        i,
        put_entry t i (record (entry_at t i) { kind = kind; pipe = ptr }),
        rw (alloc_some s i e) refl,
        (
          record { entries = length-set t.oft i _ ∙ a.0.entries; slots = a.0.slots },
          λ j.
              Agrees-put t i j (holds t j + more x i j) (holds t j + more x i j)
                (record (entry_at t i) { kind = kind; pipe = ptr }) l
                (λ w. subst (λ k. Agrees (entry_at t i) (holds t k + more x i k)) w (a.1 i))
                (λ n. refl) (a.1 j),
        ),
      )
]

-- A new descriptor takes up the reference, or none is free.
install-Held :
    (s : Files) (x : ℕ → ℕ) (p i : ℕ)
    → Held s (more x i)
    → ((e : Errno) × (vfs_install_fd s (some p) i ≡ (err e, s)))
      ⊎ ((fd : ℕ) × (vfs_install_fd s (some p) i ≡ (ok fd, put_fd s p fd (some i)))
          × IsSlot s p fd
          × Held (put_fd s p fd (some i)) x)
unfolding vfs_install_fd install_at
install-Held s x p i h = elim (Option-cases (free_fd (drop 3 (table_at s p).fds) 3)) [
  | inl e ↦ inl (emfile, rw e refl)
  | inr (fd, e) ↦
      let slot = free-IsSlot s p fd e in
      inr (
        fd,
        rw e refl,
        slot.1,
        (put_fd-IsSized s p fd (some i) slot.1.0 h.0, fill-Counts s x p fd i slot.1 slot.2 h.1),
      )
]

release-IsSlot :
    (s : Files) (i p fd r : ℕ)
    → IsSlot s p fd
    → get_fd s p fd ≡ some r
    → IsSlot (vfs_oft_release s i) p fd × (get_fd (vfs_oft_release s i) p fd ≡ some r)
release-IsSlot s i p fd r h e = (
  subst (λ (t : List Table). (p < length t) × (fd < length (get_or t p empty_table).fds))
      (sym (release-tables s i)) h,
  ap (λ (t : List Table). get_or (get_or t p empty_table).fds fd none) (release-tables s i) ∙ e,
)

write_installed-IsCounted :
    (k : Kernel) (s : Files) (p r w fd : ℕ)
    → IsSlot s p fd
    → get_fd s p fd ≡ some r
    → Held s (more nothing w)
    → IsCounted (write_installed k p r w fd (vfs_install_fd s (some p) w)).1.files
unfolding write_installed release_in
write_installed-IsCounted k s p r w fd slot e h = elim (install-Held s nothing p w h) [
  | inl (x, i) ↦ rw i (
      let t : Files = vfs_oft_release s w in
      let released : Held t nothing = release-Held s nothing w h in
      let kept = release-IsSlot s w p fd r slot e in
      let cleared : Held (put_fd t p fd none) (more nothing r) = (
        put_fd-IsSized t p fd none kept.0.0 released.0,
        clear-Counts t nothing p fd r kept.0 kept.1 released.1,
      ) in
      counted (vfs_oft_release (put_fd t p fd none) r)
        (release-Held (put_fd t p fd none) nothing r cleared))
  | inr (n, i, l, g) ↦ rw i (counted (put_fd s p n (some w)) g)
]

read_installed-IsCounted :
    (k : Kernel) (s : Files) (p r w : ℕ)
    → Held s (more (more nothing r) w)
    → IsCounted (read_installed k p r w (vfs_install_fd s (some p) r)).1.files
unfolding read_installed release_in
read_installed-IsCounted k s p r w h =
    elim (install-Held s (more nothing w) p r (more-swap s nothing r w h)) [
      | inl (x, i) ↦ rw i (
          counted (vfs_oft_release (vfs_oft_release s r) w) (
            release-Held (vfs_oft_release s r) nothing w
              (release-Held s (more nothing w) r (more-swap s nothing r w h))))
      | inr (fd, i, l, g) ↦ rw i (
          let inside : IsSlot (put_fd s p fd (some r)) p fd = filled-IsSlot s p fd (some r) l in
          write_installed-IsCounted k (put_fd s p fd (some r)) p r w fd inside
            (get_fd-put_self s p fd (some r) l) g)
    ]

write_opened-IsCounted :
    (k : Kernel) (s : Files) (p r ptr : ℕ)
    → Held s (more nothing r)
    → IsCounted (write_opened k p r (vfs_oft_alloc_pipe s pipe_wr ptr)).1.files
unfolding write_opened release_in
write_opened-IsCounted k s p r ptr h = elim (alloc-Held s (more nothing r) pipe_wr ptr h) [
  | inl e ↦ rw e (counted (vfs_oft_release s r) (release-Held s nothing r h))
  | inr (w, t, e, g) ↦ rw e (read_installed-IsCounted k t p r w g)
]

read_opened-IsCounted :
    (k : Kernel) (s : Files) (p j ptr : ℕ)
    → Held s nothing
    → IsCounted (read_opened k p j (vfs_oft_alloc_pipe s pipe_rd ptr)).1.files
unfolding read_opened
read_opened-IsCounted k s p j ptr h = elim (alloc-Held s nothing pipe_rd ptr h) [
  | inl e ↦ rw e (counted s h)
  | inr (r, t, e, g) ↦ rw e (write_opened-IsCounted k t p r (j + 1) g)
]

pipe_allocated-IsCounted :
    (k : Kernel) (p : ℕ) (o : Option (ℕ × List Pipe))
    → IsCounted k.files
    → IsCounted (pipe_allocated k p o).1.files
unfolding pipe_allocated
pipe_allocated-IsCounted k p none v = v
pipe_allocated-IsCounted k p (some (j, pipes)) v =
    read_opened-IsCounted (record k { pipes = pipes }) k.files p j (j + 1) (v.sized, v.counts)

-- sys_pipe in any process and with any pointer, on each of its error paths, keeps the number of
-- references that each open file entry counts equal to the number of descriptors of all processes
-- that refer to it, with an entry in use exactly if there is one.
pub sys_pipe-IsCounted :
    (k : Kernel) (me : Option ℕ) (pipefd : ℕ)
    → IsCounted k.files
    → IsCounted (sys_pipe k me pipefd).1.files
unfolding sys_pipe
sys_pipe-IsCounted k none pipefd v =
    elim (Bool-cases (pipefd == 0 || not (vmm_is_user_range pipefd 8))) [
      | inl e ↦ rw e v
      | inr e ↦ rw e v
    ]
sys_pipe-IsCounted k (some p) pipefd v =
    elim (Bool-cases (pipefd == 0 || not (vmm_is_user_range pipefd 8))) [
      | inl e ↦ rw e v
      | inr e ↦ rw e (pipe_allocated-IsCounted k p (alloc_pipe k.pipes 0) v)
    ]
