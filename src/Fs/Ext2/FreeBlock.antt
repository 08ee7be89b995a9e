-- ===== src/Fs/Ext2/FreeBlock.antt =====
-- The release of a block in src/fs/ext2.c, on all its branches.
use alcor2os.Base.{
  ℕ, ◌-◌, ◌*◌, ◌/◌, ◌%◌, ◌≤◌, ◌<◌, ◌≡◌, sym, ◌∙◌, ◌≢◌, ◌⊎◌, inl, inr, true, false, ltb, leb,
  Bool-cases, ltb→lt, leb→le, ltb→le, arith,
}
use native.Mathlib.Nat.{div-add-mod', mod-lt, div-lt_iff_lt-mul}
use native.Mathlib.Decide.{dec_lt}
use alcor2os.Base.Errno.{Result, ok, err, einval, eio, enomem}
use alcor2os.Fs.Ext2.{Bytes, Volume, Ext2, Faults, add_free_blocks, free_block}
use alcor2os.Fs.Ext2.Counted.{
  used, block_number, Shape, Counted, with_disk, OthersKept, give-Counted,
}
use alcor2os.Fs.Ext2.TakeBit.{Fails, DropsBit, dropped, no_buffer, io_error, drop_bit-DropsBit}
use alcor2os.Fs.Ext2.AllocBlock.{OneBit-OthersKept, leb-lt}

-- The group of a block, and its place there.
abbrev pub group_of : Volume → ℕ → ℕ
group_of v block = (block - v.first_data_block) / v.blocks_per_group

abbrev pub bit_of : Volume → ℕ → ℕ
bit_of v block = (block - v.first_data_block) % v.blocks_per_group

pub record InVolume (v : Volume) (block : ℕ) : Type 0 where
  pub low : v.first_data_block ≤ block
  pub high : block < v.blocks_count

group-pos : (v : Volume) (block : ℕ) → Shape v → InVolume v block → 0 < v.blocks_per_group
group-pos v block h r = elim (dec_lt 0 v.blocks_per_group) [
  | yes l ↦ l
  | no n ↦
      let z : v.blocks_per_group ≡ 0 = omega arith in
      let e : v.groups_count * v.blocks_per_group ≡ 0 = rw z (omega arith) in
      absurd (omega (arith, h.covers, r.low, r.high))
]

pub block-place :
    (v : Volume) (block : ℕ)
    → Shape v
    → InVolume v block
    → (group_of v block < v.groups_count)
      × (bit_of v block < v.blocks_per_group)
      × (block_number v (group_of v block) (bit_of v block) ≡ block)
block-place v block h r =
    let p : 0 < v.blocks_per_group = group-pos v block h r in
    (
      (div-lt_iff_lt-mul p).1 (omega (arith, h.covers, r.low, r.high)),
      mod-lt (block - v.first_data_block) p,
      omega (arith, div-add-mod' (block - v.first_data_block) v.blocks_per_group, r.low),
    )

-- How the release of a block ends, whatever fails: the block is free and every other as it was, and the
-- counts are right if it was in use and is not block 0; or its number is not one of the volume; or a call
-- failed, and the counts are as they were, and every other block.
pub data FreesBlock (f : Faults) (s : Ext2) (block : ℕ) : Result (Unit {0}) × Ext2 → Type 0 where
  freed :
      (d : ℕ → Bytes) (c : ℕ)
      → InVolume s.vol block
      → used (with_disk s d c) (group_of s.vol block) (bit_of s.vol block) ≡ false
      → OthersKept s (group_of s.vol block) (bit_of s.vol block) (with_disk s d c)
      → (used s (group_of s.vol block) (bit_of s.vol block) ≡ true
          → block ≢ 0
          → Counted (add_free_blocks 1 1 (with_disk s d c) (group_of s.vol block)))
      → FreesBlock f s block (ok tt, add_free_blocks 1 1 (with_disk s d c) (group_of s.vol block))
  bad_number :
      (block < s.vol.first_data_block) ⊎ (s.vol.blocks_count ≤ block)
      → FreesBlock f s block (err einval, s)
  no_memory : (c : ℕ) → Fails f s.calls c → FreesBlock f s block (err enomem, with_disk s s.disk c)
  broken :
      (d : ℕ → Bytes) (c : ℕ)
      → Fails f s.calls c
      → OthersKept s (group_of s.vol block) (bit_of s.vol block) (with_disk s d c)
      → FreesBlock f s block (err eio, with_disk s d c)

-- What `free_block` does behind the release of the bit.
abbrev counted_free : ℕ → Result (Unit {0}) × Ext2 → Result (Unit {0}) × Ext2
counted_free group d = elim d.0 [
  | ok u ↦ (ok tt, add_free_blocks 1 1 d.1 group)
  | err e ↦ (err e, d.1)
]

counted_free-FreesBlock :
    (f : Faults) (s : Ext2) (block : ℕ) {r : Result (Unit {0}) × Ext2}
    → Counted s
    → InVolume s.vol block
    → DropsBit f s (s.vol.groups (group_of s.vol block)).block_bitmap (bit_of s.vol block) r
    → FreesBlock f s block (counted_free (group_of s.vol block) r)
counted_free-FreesBlock f s block v r (dropped d c l e o) =
    let p = block-place s.vol block v.shape r in
    let k = OneBit-OthersKept s d c (group_of s.vol block) (bit_of s.vol block) v.shape p.0 o in
    freed d c r e k (λ u nz.
      give-Counted s d c (group_of s.vol block) (bit_of s.vol block) p.0 p.1 v k u e
        (λ z. nz (sym p.2 ∙ z)) (omega (arith, p.2, r.high)))
counted_free-FreesBlock f s block v r (no_buffer c x) = no_memory c x
counted_free-FreesBlock f s block v r (io_error d c x o) =
    let p = block-place s.vol block v.shape r in
    broken d c x (OneBit-OthersKept s d c (group_of s.vol block) (bit_of s.vol block) v.shape p.0 o)

-- On a volume whose free counts are those of its bitmaps, free_block, whichever calls fail, either
-- clears the bit of the block and no other, with the counts right behind it if the block was in use
-- and is not block 0, or refuses a number that is not one of the volume, or fails with ENOMEM or
-- EIO since a call failed and leaves the counts and all other bits as they were.
pub free_block-FreesBlock :
    (f : Faults) (s : Ext2) (block : ℕ) → Counted s → FreesBlock f s block (free_block f s block)
unfolding free_block
free_block-FreesBlock f s block v = elim (Bool-cases (ltb block s.vol.first_data_block)) [
  | inl y ↦ rw y (bad_number (inl (ltb→lt block s.vol.first_data_block y)))
  | inr n ↦ rw n (elim (Bool-cases (leb s.vol.blocks_count block)) [
    | inl y ↦ rw y (bad_number (inr (leb→le s.vol.blocks_count block y)))
    | inr k ↦ rw k (
        let r : InVolume s.vol block = record {
          low = ltb→le block s.vol.first_data_block n;
          high = leb-lt s.vol.blocks_count block k;
        } in
        let p = block-place s.vol block v.shape r in
        counted_free-FreesBlock f s block v r (
          drop_bit-DropsBit f s (s.vol.groups (group_of s.vol block)).block_bitmap
            (bit_of s.vol block) (v.shape.reachable (group_of s.vol block) p.0)
            (omega (arith, p.1, v.shape.sized))))
  ])
]
