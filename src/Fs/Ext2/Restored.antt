-- ===== src/Fs/Ext2/Restored.antt =====
-- A block allocated and freed again in src/fs/ext2.c.
use alcor2os.Base.{
  ℕ, ◌+◌, ◌-◌, ◌*◌, ◌≤◌, ◌<◌, ◌≡◌, refl, sym, ap, ◌∙◌, ◌≢◌, inl, inr, true, false, not, arith,
  count_below-eq,
}
use native.Mathlib.Decide.{ℕ_discrete, dec_lt}
use native.Mathlib.Nat.{mul-le-mul_right}
use alcor2os.Base.Errno.{Result, ok}
use alcor2os.Fs.Ext2.{
  Bytes, Volume, Ext2, Faults, u16_mod, u32_mod, add_free_blocks, alloc_block, free_block,
}
use alcor2os.Fs.Ext2.Counted.{used, block_number, Shape, Counted, with_disk, OthersKept, used_same}
use alcor2os.Fs.Ext2.Allocate.{
  Works, Allocates, allocated, all_used, Works-Fails, later-Works, alloc_block-Allocates,
}
use alcor2os.Fs.Ext2.FreeBlock.{
  group_of, bit_of, InVolume, block-place, FreesBlock, freed, bad_number, no_memory, broken,
  free_block-FreesBlock,
}

-- The release succeeded, and the bits and the groups' counts are those of `s`.
pub record Restored (s : Ext2) (r : Result (Unit {0}) × Ext2) : Type 0 where
  pub done : r.0 ≡ ok tt
  pub valid : Counted r.1
  pub bits :
      (h j : ℕ) → h < s.vol.groups_count → j < s.vol.blocks_per_group → used r.1 h j ≡ used s h j
  pub counts :
      (h : ℕ)
      → h < s.vol.groups_count
      → (r.1.vol.groups h).free_blocks_count ≡ (s.vol.groups h).free_blocks_count

-- Groups do not overlap.
same_group : (n g i h j : ℕ) → i < n → j < n → g * n + i ≡ h * n + j → (g ≡ h) × (i ≡ j)
same_group n g i h j li lj e = elim (ℕ_discrete g h) [
  | yes y ↦ let k : g * n ≡ h * n = ap (λ x. x * n) y in (y, omega arith)
  | no ne ↦ elim (dec_lt g h) [
    | yes l ↦ let k : (g + 1) * n ≤ h * n = mul-le-mul_right n (omega arith) in absurd (omega arith)
    | no nl ↦ let k : (h + 1) * n ≤ g * n = mul-le-mul_right n (omega arith) in absurd (omega arith)
  ]
]

place-number :
    (v : Volume) (g i : ℕ)
    → Shape v
    → i < v.blocks_per_group
    → InVolume v (block_number v g i)
    → (group_of v (block_number v g i) ≡ g) × (bit_of v (block_number v g i) ≡ i)
place-number v g i h m r =
    let p = block-place v (block_number v g i) h r in
    same_group v.blocks_per_group (group_of v (block_number v g i)) (bit_of v (block_number v g i))
      g i p.1 m (omega (arith, p.2))

-- The bit `i` of group `g` set and cleared again.
twice :
    (s : Ext2) (d d' : ℕ → Bytes) (c c' g i : ℕ)
    → used s g i ≡ false
    → OthersKept s g i (with_disk s d c)
    → used (with_disk (add_free_blocks (u16_mod - 1) (u32_mod - 1) (with_disk s d c) g) d' c') g i
      ≡ false
    → OthersKept
        (add_free_blocks (u16_mod - 1) (u32_mod - 1) (with_disk s d c) g)
        g
        i
        (with_disk (add_free_blocks (u16_mod - 1) (u32_mod - 1) (with_disk s d c) g) d' c')
    → (h j : ℕ) → h < s.vol.groups_count
    → j < s.vol.blocks_per_group
    → used
        (add_free_blocks 1 1
          (with_disk (add_free_blocks (u16_mod - 1) (u32_mod - 1) (with_disk s d c) g) d' c')
          g)
        h
        j
      ≡ used s h j
twice s d d' c c' g i e o e' o' h j lh lj =
    let u = add_free_blocks (u16_mod - 1) (u32_mod - 1) (with_disk s d c) g in
    used_same 1 1 (with_disk u d' c') g h j ∙ elim (ℕ_discrete h g) [
      | no ne ↦
          o' h j lh lj (inl ne)
          ∙ used_same (u16_mod - 1) (u32_mod - 1) (with_disk s d c) g h j
          ∙ o h j lh lj (inl ne)
      | yes y ↦ elim (ℕ_discrete j i) [
        | no ne ↦
            o' h j lh lj (inr ne)
            ∙ used_same (u16_mod - 1) (u32_mod - 1) (with_disk s d c) g h j
            ∙ o h j lh lj (inr ne)
        | yes z ↦ rw (y, z) (e' ∙ sym e)
      ]
    ]

module _ (s : Ext2) (v : Counted s) (d d' : ℕ → Bytes) (c c' g i : ℕ) where
  abbrev u : Ext2
  u = add_free_blocks (u16_mod - 1) (u32_mod - 1) (with_disk s d c) g

  -- What the release leaves, at the group and the bit that it computes.
  finish :
      g < s.vol.groups_count
      → i < s.vol.blocks_per_group
      → used s g i ≡ false
      → used (with_disk s d c) g i ≡ true
      → OthersKept s g i (with_disk s d c)
      → (x y : ℕ) → x ≡ g
      → y ≡ i
      → used (with_disk u d' c') x y ≡ false
      → OthersKept u x y (with_disk u d' c')
      → (used u x y ≡ true → Counted (add_free_blocks 1 1 (with_disk u d' c') x))
      → Restored s (ok tt, add_free_blocks 1 1 (with_disk u d' c') x)
  finish l m e e' o x y ex ey f f' k =
      let f2 : used (with_disk u d' c') g i ≡ false = rw (ex, ey) at f in
      let f3 : OthersKept u g i (with_disk u d' c') = rw (ex, ey) at f' in
      let k2 : used u g i ≡ true → Counted (add_free_blocks 1 1 (with_disk u d' c') g) =
        rw (ex, ey) at k in
      let w : Counted (add_free_blocks 1 1 (with_disk u d' c') g) =
        k2 (used_same (u16_mod - 1) (u32_mod - 1) (with_disk s d c) g g i ∙ e') in
      rw ex (record {
        done = refl;
        valid = w;
        bits = twice s d d' c c' g i e o f2 f3;
        counts = λ h lh.
            w.counts h lh
            ∙ count_below-eq _ _ s.vol.blocks_per_group
                (λ j lj. ap not (twice s d d' c c' g i e o f2 f3 h j lh lj))
            ∙ sym (v.counts h lh);
      })

frees-Restored :
    (f : Faults) (s : Ext2) (d : ℕ → Bytes) (c g i : ℕ) {r : Result (Unit {0}) × Ext2}
    → Counted s
    → Works f c
    → g < s.vol.groups_count
    → i < s.vol.blocks_per_group
    → (block_number s.vol g i ≢ 0) × (block_number s.vol g i < s.vol.blocks_count)
    → used s g i ≡ false
    → used (with_disk s d c) g i ≡ true
    → OthersKept s g i (with_disk s d c)
    → FreesBlock f
        (add_free_blocks (u16_mod - 1) (u32_mod - 1) (with_disk s d c) g)
        (block_number s.vol g i)
        r
    → Restored s r
frees-Restored f s d c g i v w l m p e e' o (freed d' c' r x y z) =
    let q = place-number s.vol g i v.shape m (record { low = r.low; high = r.high }) in
    finish s v d d' c c' g i l m e e' o _ _ q.0 q.1 x y (λ t. z t p.0)
frees-Restored f s d c g i v w l m p e e' o (bad_number x) =
    absurd (elim x [ inl y ↦ omega arith | inr y ↦ omega (arith, p.1) ])
frees-Restored f s d c g i v w l m p e e' o (no_memory c' x) = absurd (Works-Fails f c c' w x)
frees-Restored f s d c g i v w l m p e e' o (broken d' c' x y) = absurd (Works-Fails f c c' w x)

allocates-Restored :
    (f : Faults) (s : Ext2) {Q : ℕ → Type 0} {r : ℕ × Ext2}
    → Counted s
    → Works f s.calls
    → Allocates s Q r
    → r.0 ≢ 0
    → Restored s (free_block f r.1 r.0)
allocates-Restored f s v w (allocated g i d c lc l m p e e' o v') nz =
    frees-Restored f s d c g i v (later-Works f s.calls c lc w) l m p e e' o (
      free_block-FreesBlock f (add_free_blocks (u16_mod - 1) (u32_mod - 1) (with_disk s d c) g)
        (block_number s.vol g i) v')
allocates-Restored f s v w (all_used c lc all) nz = absurd (nz refl)

-- On a volume whose free counts are those of its bitmaps, and where no later call fails, a block
-- that alloc_block returned is freed without an error, and then the bits of all groups and their
-- free counts are as they were before, and the counts right.
pub free_block-alloc_block :
    (f : Faults) (s : Ext2) (preferred_group : ℕ)
    → Counted s
    → Works f s.calls
    → (alloc_block f s preferred_group).0 ≢ 0
    → Restored s
        (free_block f (alloc_block f s preferred_group).1 (alloc_block f s preferred_group).0)
free_block-alloc_block f s p v w nz =
    allocates-Restored f s v w (alloc_block-Allocates f s p v w) nz
