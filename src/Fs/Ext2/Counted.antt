-- ===== src/Fs/Ext2/Counted.antt =====
-- The invariant of the block allocation of src/fs/ext2.c: the free counts are those of the bitmaps.
use alcor2os.Base.{
  ℕ, ◌+◌, ◌-◌, ◌*◌, ◌%◌, ◌≤◌, ◌<◌, ◌≡◌, refl, sym, ap, ◌∙◌, ◌≢◌, ◌⊎◌, inl, inr, Bool, true, false,
  not, ◌==◌, ==_iff, eq→==, ne→==, Bool-cases, arith, bit, count_below, count_below-le,
  count_below-eq, count_below-change_lt, sum_below, sum_below-change, sum_below-le,
}
use native.Mathlib.Decide.{ℕ_discrete}
use alcor2os.Fs.Ext2.{
  Bytes, Volume, Ext2, u16_mod, u32_mod, sectors_per_block, contents, bitmap_test, add_free_blocks,
}
use alcor2os.Fs.Ext2.Disk.{Reachable}

-- Whether block `i` of group `g` is marked in the group's bitmap.
abbrev pub used : Ext2 → ℕ → ℕ → Bool
used s g i = bitmap_test (contents s (s.vol.groups g).block_bitmap) i

abbrev pub clear_blocks : Ext2 → ℕ → ℕ
clear_blocks s g = count_below (λ i. not (used s g i)) s.vol.blocks_per_group

abbrev pub block_number : Volume → ℕ → ℕ → ℕ
block_number v g i = g * v.blocks_per_group + i + v.first_data_block

-- The shape of the volume: each bitmap has a block of its own with room for a group's bits, the groups
-- cover the blocks, and the counts and the numbers of blocks fit their words.
pub record Shape (v : Volume) : Type 0 where
  pub sized : v.blocks_per_group ≤ sectors_per_block v * 4096
  pub short : v.blocks_per_group < u16_mod
  pub numbered : v.groups_count * v.blocks_per_group + v.first_data_block < u32_mod
  pub covers : v.blocks_count ≤ v.groups_count * v.blocks_per_group + v.first_data_block
  pub reachable : (g : ℕ) → g < v.groups_count → Reachable v (v.groups g).block_bitmap
  pub apart :
      (g h : ℕ)
      → g < v.groups_count
      → h < v.groups_count
      → g ≢ h
      → (v.groups g).block_bitmap ≢ (v.groups h).block_bitmap

-- Block 0, and the numbers past the last block, are in use.
pub record Counted (s : Ext2) : Type 0 where
  pub shape : Shape s.vol
  pub counts :
      (g : ℕ) → g < s.vol.groups_count → (s.vol.groups g).free_blocks_count ≡ clear_blocks s g
  pub total :
      s.vol.free_blocks ≡ sum_below (λ g. (s.vol.groups g).free_blocks_count) s.vol.groups_count
  pub first : s.vol.first_data_block ≡ 0 → used s 0 0 ≡ true
  pub tail :
      (g i : ℕ)
      → g < s.vol.groups_count
      → i < s.vol.blocks_per_group
      → s.vol.blocks_count ≤ block_number s.vol g i
      → used s g i ≡ true

-- The same volume with another disk behind more calls.
abbrev pub with_disk : Ext2 → (ℕ → Bytes) → ℕ → Ext2
with_disk s d c = record s { disk = d; calls = c }

-- Every other bit is as it was.
abbrev pub OthersKept : Ext2 → ℕ → ℕ → Ext2 → Type 0
OthersKept s g i t =
    (h j : ℕ)
    → h < s.vol.groups_count
    → j < s.vol.blocks_per_group
    → (h ≢ g) ⊎ (j ≢ i)
    → used t h j ≡ used s h j

-- Block 0 and the numbers past the last block stay in use.
abbrev pub ReservedKept : Ext2 → Ext2 → Type 0
ReservedKept s t =
    (h j : ℕ)
    → h < s.vol.groups_count
    → j < s.vol.blocks_per_group
    → (block_number s.vol h j ≡ 0) ⊎ (s.vol.blocks_count ≤ block_number s.vol h j)
    → used s h j ≡ true
    → used t h j ≡ true

module _ (d16 d32 : ℕ) (t : Ext2) (g : ℕ) where
  pub group_same :
      (h : ℕ)
      → ((add_free_blocks d16 d32 t g).vol.groups h).block_bitmap ≡ (t.vol.groups h).block_bitmap
  group_same h = elim (Bool-cases (h == g)) [
    | inl y ↦ rw y (ap (λ k. (t.vol.groups k).block_bitmap) (sym ((==_iff h g).0 y)))
    | inr n ↦ rw n
  ]

  pub used_same : (h i : ℕ) → used (add_free_blocks d16 d32 t g) h i ≡ used t h i
  unfolding contents
  used_same h i = ap (λ b. bitmap_test (contents t b) i) (group_same h)

  pub same-Shape : Shape t.vol → Shape (add_free_blocks d16 d32 t g).vol
  same-Shape v = record {
    sized = v.sized;
    short = v.short;
    numbered = v.numbered;
    covers = v.covers;
    reachable = λ h l. rw (group_same h) (v.reachable h l);
    apart = λ h k l m ne. rw (group_same h, group_same k) (v.apart h k l m ne);
  }

-- One bit of group `g` changed on the disk, and its count by the same number.
module _ (d16 d32 : ℕ) (s : Ext2) (d : ℕ → Bytes) (c g i : ℕ) where
  abbrev t : Ext2
  t = with_disk s d c

  abbrev u : Ext2
  u = add_free_blocks d16 d32 t g

  pub clear_blocks_ne :
      (h : ℕ)
      → h < s.vol.groups_count
      → h ≢ g
      → OthersKept s g i t
      → clear_blocks u h ≡ clear_blocks s h
  clear_blocks_ne h l ne o =
      count_below-eq _ _ s.vol.blocks_per_group
        (λ j m. ap not (used_same d16 d32 t g h j ∙ o h j l m (inl ne)))

  pub clear_blocks_self :
      g < s.vol.groups_count
      → i < s.vol.blocks_per_group
      → OthersKept s g i t
      → clear_blocks u g + bit (not (used s g i)) ≡ clear_blocks s g + bit (not (used t g i))
  clear_blocks_self l m o = rw (← used_same d16 d32 t g g i) (
      count_below-change_lt (λ j. not (used u g j)) (λ j. not (used s g j)) s.vol.blocks_per_group i
        m (λ j n ne. ap not (used_same d16 d32 t g g j ∙ o g j l n (inr ne))))

  group_count_ne :
      (h : ℕ) → h ≢ g → (u.vol.groups h).free_blocks_count ≡ (s.vol.groups h).free_blocks_count
  group_count_ne h ne = rw (ne→== h g ne)

  group_count_self :
      (u.vol.groups g).free_blocks_count ≡ ((s.vol.groups g).free_blocks_count + d16) % u16_mod
  group_count_self = rw (eq→== g g refl)

  step_counts :
      g < s.vol.groups_count
      → Counted s
      → OthersKept s g i t
      → (u.vol.groups g).free_blocks_count ≡ clear_blocks u g
      → (h : ℕ) → h < s.vol.groups_count
      → (u.vol.groups h).free_blocks_count ≡ clear_blocks u h
  step_counts l v o cnt h lh = elim (ℕ_discrete h g) [
    | yes e ↦ rw e cnt
    | no ne ↦ group_count_ne h ne ∙ v.counts h lh ∙ sym (clear_blocks_ne h lh ne o)
  ]

  -- The invariant, where the count of the group and the sum come out right.
  step-Counted :
      g < s.vol.groups_count
      → i < s.vol.blocks_per_group
      → Counted s
      → OthersKept s g i t
      → ReservedKept s t
      → (u.vol.groups g).free_blocks_count ≡ clear_blocks u g
      → u.vol.free_blocks ≡ sum_below (λ h. (u.vol.groups h).free_blocks_count) s.vol.groups_count
      → Counted u
  step-Counted l m v o r cnt tot = record {
    shape = same-Shape d16 d32 t g v.shape;
    counts = step_counts l v o cnt;
    total = tot;
    first = λ e.
        used_same d16 d32 t g 0 0
        ∙ r 0 0 (omega arith) (omega arith) (inl (omega (arith, e))) (v.first e);
    tail = λ h j lh lj le. used_same d16 d32 t g h j ∙ r h j lh lj (inr le) (v.tail h j lh lj le);
  }

  sum_step :
      g < s.vol.groups_count
      → sum_below (λ h. (u.vol.groups h).free_blocks_count) s.vol.groups_count
          + (s.vol.groups g).free_blocks_count
        ≡ sum_below (λ h. (s.vol.groups h).free_blocks_count) s.vol.groups_count
          + (u.vol.groups g).free_blocks_count
  sum_step l =
      sum_below-change (λ h. (u.vol.groups h).free_blocks_count)
        (λ h. (s.vol.groups h).free_blocks_count) s.vol.groups_count g l group_count_ne

pub total-le :
    (s : Ext2)
    → Counted s
    → sum_below (λ h. (s.vol.groups h).free_blocks_count) s.vol.groups_count
      ≤ s.vol.groups_count * s.vol.blocks_per_group
total-le s v =
    sum_below-le (λ h. (s.vol.groups h).free_blocks_count) s.vol.groups_count s.vol.blocks_per_group
      (λ h l. omega (arith, v.counts h l, count_below-le (λ j. not (used s h j)) _))

-- A free block of group `g` taken.
pub take-Counted :
    (s : Ext2) (d : ℕ → Bytes) (c g i : ℕ)
    → g < s.vol.groups_count
    → i < s.vol.blocks_per_group
    → Counted s
    → OthersKept s g i (with_disk s d c)
    → used s g i ≡ false
    → used (with_disk s d c) g i ≡ true
    → Counted (add_free_blocks (u16_mod - 1) (u32_mod - 1) (with_disk s d c) g)
take-Counted s d c g i l m v o e f =
    step-Counted 65535 4294967295 s d c g i l m v o r (omega (arith, a, b, n, k)) (
      omega (
        arith,
        a,
        b,
        n,
        k,
        sum_step 65535 4294967295 s d c g i l,
        v.total,
        total-le s v,
        v.shape.numbered,
      ))
  where
    r : ReservedKept s (with_disk s d c)
    r h j lh lj x y = elim (ℕ_discrete h g) [
      | no ne ↦ o h j lh lj (inl ne) ∙ y
      | yes eh ↦ elim (ℕ_discrete j i) [ no nj ↦ o h j lh lj (inr nj) ∙ y | yes ej ↦ rw (eh, ej) f ]
    ]

    a : (s.vol.groups g).free_blocks_count ≡ clear_blocks s g
    a = v.counts g l

    b : clear_blocks (add_free_blocks 65535 4294967295 (with_disk s d c) g) g + 1 ≡ clear_blocks s g
    b = omega (
      arith,
      clear_blocks_self 65535 4294967295 s d c g i l m o,
      ap (λ z. bit (not z)) e,
      ap (λ z. bit (not z)) f,
    )

    n :
        ((add_free_blocks 65535 4294967295 (with_disk s d c) g).vol.groups g).free_blocks_count
        ≡ ((s.vol.groups g).free_blocks_count + 65535) % u16_mod
    n = group_count_self 65535 4294967295 s d c g i

    k : clear_blocks s g ≤ s.vol.blocks_per_group × s.vol.blocks_per_group < u16_mod
    k = (count_below-le (λ j. not (used s g j)) _, v.shape.short)

-- A used block of group `g`, which is none of the reserved ones, given back.
pub give-Counted :
    (s : Ext2) (d : ℕ → Bytes) (c g i : ℕ)
    → g < s.vol.groups_count
    → i < s.vol.blocks_per_group
    → Counted s
    → OthersKept s g i (with_disk s d c)
    → used s g i ≡ true
    → used (with_disk s d c) g i ≡ false
    → block_number s.vol g i ≢ 0
    → block_number s.vol g i < s.vol.blocks_count
    → Counted (add_free_blocks 1 1 (with_disk s d c) g)
give-Counted s d c g i l m v o e f nz lt =
    step-Counted 1 1 s d c g i l m v o r (omega (arith, a, b, n, k))
      (omega (arith, a, b, n, k, sum_step 1 1 s d c g i l, v.total, above, v.shape.numbered))
  where
    r : ReservedKept s (with_disk s d c)
    r h j lh lj x y = elim (ℕ_discrete h g) [
      | no ne ↦ o h j lh lj (inl ne) ∙ y
      | yes eh ↦ elim (ℕ_discrete j i) [
        | no nj ↦ o h j lh lj (inr nj) ∙ y
        | yes ej ↦ absurd (elim x [
          | inl z ↦ nz (rw (eh, ej) at z)
          | inr w ↦
              let w' : s.vol.blocks_count ≤ block_number s.vol g i = rw (eh, ej) at w in omega arith
        ])
      ]
    ]

    a : (s.vol.groups g).free_blocks_count ≡ clear_blocks s g
    a = v.counts g l

    b : clear_blocks (add_free_blocks 1 1 (with_disk s d c) g) g ≡ clear_blocks s g + 1
    b = omega (
      arith,
      clear_blocks_self 1 1 s d c g i l m o,
      ap (λ z. bit (not z)) e,
      ap (λ z. bit (not z)) f,
    )

    n :
        ((add_free_blocks 1 1 (with_disk s d c) g).vol.groups g).free_blocks_count
        ≡ ((s.vol.groups g).free_blocks_count + 1) % u16_mod
    n = group_count_self 1 1 s d c g i

    k :
        clear_blocks (add_free_blocks 1 1 (with_disk s d c) g) g ≤ s.vol.blocks_per_group
        × s.vol.blocks_per_group < u16_mod
    k = (
      count_below-le (λ j. not (used (add_free_blocks 1 1 (with_disk s d c) g) g j)) _,
      v.shape.short,
    )

    above :
        sum_below
          (λ h. ((add_free_blocks 1 1 (with_disk s d c) g).vol.groups h).free_blocks_count)
          s.vol.groups_count
        ≤ s.vol.groups_count * s.vol.blocks_per_group
    above = sum_below-le _ s.vol.groups_count s.vol.blocks_per_group (λ h lh. omega (
      arith,
      step_counts 1 1 s d c g i l v o (omega (arith, a, b, n, k)) h lh,
      count_below-le (λ j. not (used (add_free_blocks 1 1 (with_disk s d c) g) h j))
          s.vol.blocks_per_group,
    ))
