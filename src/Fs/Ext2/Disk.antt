-- ===== src/Fs/Ext2/Disk.antt =====
-- The blocks of a volume of src/fs/ext2.c on the drive: what a write of one changes.
use alcor2os.Base.{
  ℕ, ◌+◌, ◌-◌, ◌*◌, ◌/◌, ◌%◌, ◌≤◌, ◌<◌, ◌≡◌, refl, ap, ◌≢◌, ◌⊎◌, inl, inr, Bool, false, leb, lt→ltb,
  le→ltb, le→leb, if◌then◌else◌, leb→le, Bool-cases, arith,
}
use native.Mathlib.Decide.{dec_lt}
use native.Mathlib.Nat.{mul-le-mul_right}
use alcor2os.Fs.Ext2.{
  Bytes, Volume, Ext2, Faults, u32_mod, sector_size, sectors_per_block, sector_of, contents,
  vol_write_block, reaches, write_run,
}

-- The block's sectors have numbers of 32 bits.
abbrev pub Reachable : Volume → ℕ → Type 0
Reachable v b = v.partition_lba + (b + 1) * sectors_per_block v ≤ u32_mod

mul_mono : (a b n : ℕ) → a < b → (a + 1) * n ≤ b * n
mul_mono a b n h = mul-le-mul_right n (omega arith)

pub sector_of_block :
    (v : Volume) (b : ℕ)
    → 0 < sectors_per_block v
    → Reachable v b
    → sector_of v b ≡ v.partition_lba + b * sectors_per_block v
sector_of_block v b p h = omega arith

disjoint :
    (v : Volume) (a b : ℕ)
    → 0 < sectors_per_block v
    → Reachable v a
    → Reachable v b
    → a < b
    → sector_of v a + sectors_per_block v ≤ sector_of v b
disjoint v a b p ha hb h = omega (
  arith,
  sector_of_block v a p ha,
  sector_of_block v b p hb,
  mul_mono a b (sectors_per_block v) h,
)

pub lt→leb : (a b : ℕ) → b < a → leb a b ≡ false
lt→leb a b h = elim (Bool-cases (leb a b)) [
  | inl y ↦ absurd (omega (arith, leb→le a b y))
  | inr n ↦ n
]

write_run-inside :
    (disk : ℕ → Bytes) (start n : ℕ) (m : Bytes) (w : ℕ → Bool) (j : ℕ)
    → j < n
    → write_run disk start n m w (start + j)
      ≡ (if w j then (λ i. m (j * sector_size + i)) else disk (start + j))
write_run-inside disk start n m w j h =
    let e : start + j - start ≡ j = omega arith in
    rw (le→leb start (start + j) (omega arith), lt→ltb (start + j) (start + n) (omega arith), e)

write_run-before :
    (disk : ℕ → Bytes) (start n : ℕ) (m : Bytes) (w : ℕ → Bool) (k : ℕ)
    → k < start
    → write_run disk start n m w k ≡ disk k
write_run-before disk start n m w k h = rw (lt→leb start k h)

write_run-behind :
    (disk : ℕ → Bytes) (start n : ℕ) (m : Bytes) (w : ℕ → Bool) (k : ℕ)
    → start + n ≤ k
    → write_run disk start n m w k ≡ disk k
write_run-behind disk start n m w k h = rw (le→leb start k (omega arith), le→ltb k (start + n) h)

module _ (f : Faults) (s : Ext2) (b : ℕ) (m : Bytes) where
  -- A write that succeeds puts the bytes into the block.
  pub contents-write_self :
      (i : ℕ)
      → i / sector_size < sectors_per_block s.vol
      → f.write_fails s.calls ≡ false
      → contents (vol_write_block f s b m).1 b i ≡ m i
  unfolding contents vol_write_block
  contents-write_self i h e =
      let g : i / sector_size * sector_size + i % sector_size ≡ i = omega arith in
      rw (
        write_run-inside s.disk (sector_of s.vol b) (sectors_per_block s.vol) m (reaches f s.calls)
            (i / sector_size) h,
        e,
        g,
      )

  -- One that fails puts some of them there.
  pub contents-write_torn :
      (i : ℕ)
      → i / sector_size < sectors_per_block s.vol
      → (contents (vol_write_block f s b m).1 b i ≡ m i)
        ⊎ (contents (vol_write_block f s b m).1 b i ≡ contents s b i)
  unfolding contents vol_write_block
  contents-write_torn i h =
      let g : i / sector_size * sector_size + i % sector_size ≡ i = omega arith in
      rw
        (write_run-inside s.disk (sector_of s.vol b) (sectors_per_block s.vol) m (reaches f s.calls)
          (i / sector_size) h)
        (elim (Bool-cases (reaches f s.calls (i / sector_size))) [
          | inl y ↦ rw (y, g) (inl refl)
          | inr n ↦ rw n (inr refl)
        ])

  -- No write changes another block.
  pub contents-write_ne :
      (a i : ℕ)
      → a ≢ b
      → Reachable s.vol a
      → Reachable s.vol b
      → i / sector_size < sectors_per_block s.vol
      → contents (vol_write_block f s b m).1 a i ≡ contents s a i
  unfolding contents vol_write_block
  contents-write_ne a i ne ha hb h = elim (dec_lt a b) [
    | yes lt ↦
        ap (λ g. g (i % sector_size))
          (write_run-before s.disk (sector_of s.vol b) (sectors_per_block s.vol) m
            (reaches f s.calls) _ (omega (arith, disjoint s.vol a b (omega arith) ha hb lt)))
    | no ge ↦
        ap (λ g. g (i % sector_size))
          (write_run-behind s.disk (sector_of s.vol b) (sectors_per_block s.vol) m
            (reaches f s.calls) _
            (omega (arith, disjoint s.vol b a (omega arith) hb ha (omega arith))))
  ]
