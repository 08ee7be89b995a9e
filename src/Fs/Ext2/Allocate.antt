-- ===== src/Fs/Ext2/Allocate.antt =====
-- The allocation of a block of src/fs/ext2.c over all groups, where no call fails.
use alcor2os.Base.{
  ℕ, zero, suc, ◌+◌, ◌-◌, ◌≤◌, ◌<◌, ◌≡◌, sym, ◌∙◌, ◌≢◌, ◌⊎◌, inl, inr, true, false, ◌==◌,
  if◌then◌else◌, Bool-cases, ==_iff, ne→==, arith,
}
use native.Mathlib.Decide.{ℕ_discrete}
use alcor2os.Fs.Ext2.{
  Bytes, Ext2, Faults, u16_mod, u32_mod, contents, add_free_blocks, alloc_block_in_group,
  alloc_block_from, alloc_block,
}
use alcor2os.Fs.Ext2.Counted.{used, block_number, Counted, with_disk, OthersKept, take-Counted}
use alcor2os.Fs.Ext2.TakeBit.{Fails}
use alcor2os.Fs.Ext2.AllocBlock.{
  AllUsed, GroupAllocates, got, no_room, refused, torn, clear-proper, false_ne_true,
  alloc_block_in_group-GroupAllocates,
}

-- No call from the `n`th on fails.
abbrev pub Works : Faults → ℕ → Type 0
Works f n =
    (k : ℕ) → n ≤ k → (f.no_memory k ≡ false) × (f.read_fails k ≡ false) × (f.write_fails k ≡ false)

-- How an allocation ends: a block that was free is in use now, every other is as it was, and the counts
-- are right; or all blocks of the groups in `Q` are in use, and nothing changed.
pub data Allocates (s : Ext2) (Q : ℕ → Type 0) : ℕ × Ext2 → Type 0 where
  allocated :
      (g i : ℕ) (d : ℕ → Bytes) (c : ℕ)
      → s.calls ≤ c
      → g < s.vol.groups_count
      → i < s.vol.blocks_per_group
      → (block_number s.vol g i ≢ 0) × (block_number s.vol g i < s.vol.blocks_count)
      → used s g i ≡ false
      → used (with_disk s d c) g i ≡ true
      → OthersKept s g i (with_disk s d c)
      → Counted (add_free_blocks (u16_mod - 1) (u32_mod - 1) (with_disk s d c) g)
      → Allocates s Q
          (block_number s.vol g i, add_free_blocks (u16_mod - 1) (u32_mod - 1) (with_disk s d c) g)
  all_used :
      (c : ℕ)
      → s.calls ≤ c
      → ((g : ℕ) → g < s.vol.groups_count → Q g → AllUsed s g)
      → Allocates s Q (0, with_disk s s.disk c)

pub Works-Fails : (f : Faults) (a b : ℕ) → Works f a → Fails f a b → ⊥
Works-Fails f a b w (k, l, h, x) = elim x [
  | inl m ↦ false_ne_true (sym (w k l).0 ∙ m)
  | inr y ↦ elim y [
    | inl m ↦ false_ne_true (sym (w k l).1 ∙ m)
    | inr m ↦ false_ne_true (sym (w k l).2 ∙ m)
  ]
]

in_group-Allocates :
    (f : Faults) (s : Ext2) (g : ℕ) {r : ℕ × Ext2}
    → Counted s
    → Works f s.calls
    → GroupAllocates f s g r
    → Allocates s (λ h. h ≡ g) r
in_group-Allocates f s g v w (got i d c lc l m e e' o) =
    allocated g i d c lc l m (clear-proper s g i v l m e) e e' o
      (take-Counted s d c g i l m v o e e')
in_group-Allocates f s g v w (no_room c lc all) =
    all_used c lc (λ h lh q. let lg : g < s.vol.groups_count = omega arith in rw q (all lg))
in_group-Allocates f s g v w (refused c x) = absurd (Works-Fails f s.calls c w x)
in_group-Allocates f s g v w (torn i d c x e o) = absurd (Works-Fails f s.calls c w x)

-- The volume is the same behind more calls.
later-Counted : (s : Ext2) (c : ℕ) → Counted s → Counted (with_disk s s.disk c)
unfolding contents
later-Counted s c v = record {
  shape = v.shape;
  counts = v.counts;
  total = v.total;
  first = v.first;
  tail = v.tail;
}

later-Allocates :
    (s : Ext2) (c : ℕ) {Q R : ℕ → Type 0} {r : ℕ × Ext2}
    → s.calls ≤ c
    → ((g : ℕ) → g < s.vol.groups_count → Q g → AllUsed s g)
    → Allocates (with_disk s s.disk c) R r
    → Allocates s (λ g. Q g ⊎ R g) r
unfolding contents
later-Allocates s c lc q (allocated g i d c' lc' l m p e e' o v) =
    allocated g i d c' (omega arith) l m p e e' o v
later-Allocates s c lc q (all_used c' lc' all) =
    all_used c' (omega arith) (λ g l x. elim x [ inl y ↦ q g l y | inr z ↦ all g l z ])

-- `if(b) return b;` in front of the search `next`.
or_else-Allocates :
    (s : Ext2) (next : Ext2 → ℕ × Ext2) {Q R : ℕ → Type 0} {r : ℕ × Ext2}
    → ((c : ℕ) → s.calls ≤ c → Allocates (with_disk s s.disk c) R (next (with_disk s s.disk c)))
    → Allocates s Q r
    → Allocates s (λ g. Q g ⊎ R g) (if r.0 == 0 then next r.1 else r)
or_else-Allocates s next n (allocated g i d c lc l m p e e' o v) =
    rw (ne→== (block_number s.vol g i) 0 p.0) (allocated g i d c lc l m p e e' o v)
or_else-Allocates s next n (all_used c lc all) = later-Allocates s c lc all (n c lc)

-- More groups may be named where they are among those.
widen-Allocates :
    (s : Ext2) {Q R : ℕ → Type 0} {r : ℕ × Ext2}
    → ((g : ℕ) → g < s.vol.groups_count → R g → Q g)
    → Allocates s Q r
    → Allocates s R r
widen-Allocates s h (allocated g i d c lc l m p e e' o v) = allocated g i d c lc l m p e e' o v
widen-Allocates s h (all_used c lc all) = all_used c lc (λ g l x. all g l (h g l x))

pub later-Works : (f : Faults) (a c : ℕ) → a ≤ c → Works f a → Works f c
later-Works f a c l w k h = w k (omega arith)

alloc_block_from-Allocates :
    (r : ℕ) (f : Faults) (s : Ext2) (p g : ℕ)
    → Counted s
    → Works f s.calls
    → g + r ≡ s.vol.groups_count
    → Allocates s (λ h. (g ≤ h) × (h ≢ p)) (alloc_block_from r f s p g)
unfolding alloc_block_from
alloc_block_from-Allocates zero f s p g v w e =
    all_used s.calls (omega arith) (λ h l q. absurd (omega (arith, q.0)))
alloc_block_from-Allocates (suc r) f s p g v w e =
    widen-Allocates s
      (λ h l q. elim (ℕ_discrete h g) [
        | yes y ↦ inl (y, q.1)
        | no n ↦ inr (omega (arith, q.0), q.1)
      ])
      (or_else-Allocates s (λ t. alloc_block_from r f t p (g + 1)) {Q = λ h. (h ≡ g) × (h ≢ p)}
        {R = λ h. (g + 1 ≤ h) × (h ≢ p)} {r = if g == p then (0, s) else alloc_block_in_group f s g}
        (λ c lc.
          alloc_block_from-Allocates r f (with_disk s s.disk c) p (g + 1) (later-Counted s c v)
            (later-Works f s.calls c lc w) (omega arith))
        (elim (Bool-cases (g == p)) [
          | inl y ↦
              rw y (all_used s.calls (omega arith) (λ h l q. absurd (q.1 (q.0 ∙ (==_iff g p).0 y))))
          | inr n ↦ rw n (
              widen-Allocates s (λ h l q. q.0)
                (in_group-Allocates f s g v w (alloc_block_in_group-GroupAllocates f s g v)))
        ]))

-- On a volume whose free counts are those of its bitmaps, and where no later call fails,
-- alloc_block either marks a block that was free, which is neither block 0 nor past the last one,
-- leaves every other bit and keeps the counts right, or returns 0 and changes nothing on the volume
-- and the drive, and then every block of every group is in use.
pub alloc_block-Allocates :
    (f : Faults) (s : Ext2) (preferred_group : ℕ)
    → Counted s
    → Works f s.calls
    → Allocates s (λ g. g < s.vol.groups_count) (alloc_block f s preferred_group)
unfolding alloc_block
alloc_block-Allocates f s p v w =
    widen-Allocates s
      (λ h l q. elim (ℕ_discrete h p) [ yes y ↦ inl y | no n ↦ inr (omega arith, n) ])
      (or_else-Allocates s (λ t. alloc_block_from t.vol.groups_count f t p 0) {Q = λ h. h ≡ p}
        {R = λ h. (0 ≤ h) × (h ≢ p)} {r = alloc_block_in_group f s p}
        (λ c lc.
          alloc_block_from-Allocates s.vol.groups_count f (with_disk s s.disk c) p 0
            (later-Counted s c v) (later-Works f s.calls c lc w) (omega arith))
        (in_group-Allocates f s p v w (alloc_block_in_group-GroupAllocates f s p v)))
