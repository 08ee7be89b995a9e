-- ===== src/Fs/Ext2/AllocBlock.antt =====
-- The allocation of a block in src/fs/ext2.c, in one group and whatever fails.
use alcor2os.Base.{
  ℕ, ◌+◌, ◌-◌, ◌*◌, ◌%◌, ◌≤◌, ◌<◌, ◌≡◌, sym, ap, ◌∙◌, ◌≢◌, inl, inr, true, false, not, Option, leb,
  ◌==◌, Bool-cases, ==_iff, leb→le, le→leb, arith, count_below-pos,
}
use native.Mathlib.Decide.{ℕ_discrete, dec_lt}
use native.Mathlib.Nat.{mul-le-mul_right}
use alcor2os.Fs.Ext2.{
  Bytes, Volume, Ext2, Faults, u16_mod, u32_mod, contents, add_free_blocks, block_taken,
  alloc_block_in_group,
}
use alcor2os.Fs.Ext2.Counted.{used, block_number, Shape, Counted, with_disk, OthersKept}
use alcor2os.Fs.Ext2.TakeBit.{
  OneBit, Fails, TakesBit, took, all_set, not_read, not_written, take_bit-TakesBit,
}

pub false_ne_true : ¬ (false ≡ true)
false_ne_true e = cc

pub leb-lt : (a b : ℕ) → leb a b ≡ false → b < a
leb-lt a b h = elim (dec_lt b a) [
  | yes l ↦ l
  | no n ↦ absurd (false_ne_true (sym h ∙ le→leb a b (omega arith)))
]

-- Every block of group `g` is in use.
abbrev pub AllUsed : Ext2 → ℕ → Type 0
AllUsed s g = (i : ℕ) → i < s.vol.blocks_per_group → used s g i ≡ true

pub OneBit-OthersKept :
    (s : Ext2) (d : ℕ → Bytes) (c g i : ℕ)
    → Shape s.vol
    → g < s.vol.groups_count
    → OneBit s (s.vol.groups g).block_bitmap i (with_disk s d c)
    → OthersKept s g i (with_disk s d c)
OneBit-OthersKept s d c g i v l o h j lh lj x =
    o (s.vol.groups h).block_bitmap j (v.reachable h lh) (omega (arith, v.sized))
      (elim (ℕ_discrete h g) [
        | no ne ↦ inl (v.apart h g lh l ne)
        | yes f ↦ elim x [ inl ne ↦ absurd (ne f) | inr ne ↦ inr ne ]
      ])

no_free-AllUsed :
    (s : Ext2) (g : ℕ)
    → Counted s
    → g < s.vol.groups_count
    → (s.vol.groups g).free_blocks_count ≡ 0
    → AllUsed s g
no_free-AllUsed s g v l z i m = elim (Bool-cases (used s g i)) [
  | inl y ↦ y
  | inr n ↦ absurd (
      omega (
        arith,
        v.counts g l,
        count_below-pos (λ j. not (used s g j)) s.vol.blocks_per_group i m (ap not n),
      ))
]

pub block_number-lt :
    (v : Volume) (g i : ℕ)
    → Shape v
    → g < v.groups_count
    → i < v.blocks_per_group
    → block_number v g i < u32_mod
block_number-lt v g i h l m =
    let k : (g + 1) * v.blocks_per_group ≤ v.groups_count * v.blocks_per_group =
      mul-le-mul_right v.blocks_per_group (omega arith) in
    omega (arith, k, h.numbered)

-- A clear bit is of a block that is neither block 0 nor past the last.
pub clear-proper :
    (s : Ext2) (g i : ℕ)
    → Counted s
    → g < s.vol.groups_count
    → i < s.vol.blocks_per_group
    → used s g i ≡ false
    → (block_number s.vol g i ≢ 0) × (block_number s.vol g i < s.vol.blocks_count)
clear-proper s g i v l m e = (
  λ z. elim (ℕ_discrete g 0) [
    | yes g0 ↦
        let i0 : i ≡ 0 = omega arith in false_ne_true (sym e ∙ rw (g0, i0) (v.first (omega arith)))
    | no ne ↦
        let k : 1 * s.vol.blocks_per_group ≤ g * s.vol.blocks_per_group =
          mul-le-mul_right s.vol.blocks_per_group (omega arith) in
        absurd (omega arith)
  ],
  elim (dec_lt (block_number s.vol g i) s.vol.blocks_count) [
    | yes lt ↦ lt
    | no ge ↦ absurd (false_ne_true (sym e ∙ v.tail g i l m (omega arith)))
  ],
)

-- How an allocation in group `g` ends, whatever fails: with a block that was free, with none since all
-- are in use, or with none since a call failed, and then the counts are as they were, and the bits but
-- one, which was clear.
pub data GroupAllocates (f : Faults) (s : Ext2) (g : ℕ) : ℕ × Ext2 → Type 0 where
  got :
      (i : ℕ) (d : ℕ → Bytes) (c : ℕ)
      → s.calls ≤ c
      → g < s.vol.groups_count
      → i < s.vol.blocks_per_group
      → used s g i ≡ false
      → used (with_disk s d c) g i ≡ true
      → OthersKept s g i (with_disk s d c)
      → GroupAllocates f s g
          (block_number s.vol g i, add_free_blocks (u16_mod - 1) (u32_mod - 1) (with_disk s d c) g)
  no_room :
      (c : ℕ)
      → s.calls ≤ c
      → (g < s.vol.groups_count → AllUsed s g)
      → GroupAllocates f s g (0, with_disk s s.disk c)
  refused : (c : ℕ) → Fails f s.calls c → GroupAllocates f s g (0, with_disk s s.disk c)
  torn :
      (i : ℕ) (d : ℕ → Bytes) (c : ℕ)
      → Fails f s.calls c
      → used s g i ≡ false
      → OthersKept s g i (with_disk s d c)
      → GroupAllocates f s g (0, with_disk s d c)

block_taken-GroupAllocates :
    {r : Option ℕ × Ext2} (f : Faults) (s : Ext2) (g : ℕ)
    → Counted s
    → g < s.vol.groups_count
    → TakesBit f s (s.vol.groups g).block_bitmap s.vol.blocks_per_group r
    → GroupAllocates f s g (block_taken g r)
unfolding block_taken contents
block_taken-GroupAllocates f s g v l (took i d c lc li e e' o) =
    let k : (g * s.vol.blocks_per_group + i + s.vol.first_data_block) % u32_mod
        ≡ block_number s.vol g i =
      omega (arith, block_number-lt s.vol g i v.shape l li) in
    rw k (got i d c lc l li e e' (OneBit-OthersKept s d c g i v.shape l o))
block_taken-GroupAllocates f s g v l (all_set c lc all) =
    no_room c lc (λ q i m. all i (omega arith) m)
block_taken-GroupAllocates f s g v l (not_read c x) = refused c x
block_taken-GroupAllocates f s g v l (not_written i d c x e o) =
    torn i d c x e (OneBit-OthersKept s d c g i v.shape l o)

-- On a volume whose free counts are those of its bitmaps, alloc_block_in_group, whichever calls
-- fail, either marks a block that was free and returns its number, or returns 0 without a change
-- where the blocks of the group are in use or nothing could be read, or returns 0 since a call
-- failed, with the counts as they were and all bits but one, which was clear.
pub alloc_block_in_group-GroupAllocates :
    (f : Faults) (s : Ext2) (g : ℕ) → Counted s → GroupAllocates f s g (alloc_block_in_group f s g)
unfolding alloc_block_in_group
alloc_block_in_group-GroupAllocates f s g v = elim (Bool-cases (leb s.vol.groups_count g)) [
  | inl y ↦
      rw y
        (no_room s.calls (omega arith) (λ l. absurd (omega (arith, leb→le s.vol.groups_count g y))))
  | inr n ↦ rw n (
      let l : g < s.vol.groups_count = omega (arith, leb-lt s.vol.groups_count g n) in
      elim (Bool-cases ((s.vol.groups g).free_blocks_count == 0)) [
        | inl y ↦ rw y (
            no_room s.calls (omega arith)
              (λ q. no_free-AllUsed s g v l ((==_iff (s.vol.groups g).free_blocks_count 0).0 y)))
        | inr k ↦ rw k (
            block_taken-GroupAllocates f s g v l (
              take_bit-TakesBit f s (s.vol.groups g).block_bitmap s.vol.blocks_per_group
                (v.shape.reachable g l) v.shape.sized (omega (arith, v.shape.short))))
      ])
]
