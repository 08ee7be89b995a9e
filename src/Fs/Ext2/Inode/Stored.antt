-- ===== src/Fs/Ext2/Inode/Stored.antt =====
-- The inodes on the drive of src/fs/ext2.c: their places do not overlap.
use alcor2os.Base.{
  ℕ, ◌+◌, ◌-◌, ◌*◌, ◌/◌, ◌%◌, ◌≤◌, ◌<◌, ◌≡◌, sym, ap, ◌∙◌, ◌≢◌, ◌⊎◌, inl, inr, arith,
}
use native.Mathlib.Decide.{ℕ_discrete, dec_lt}
use native.Mathlib.Nat.{
  mul-le-mul_left, mul-le-mul_right, mod-lt, div-add-mod', div-lt_iff_lt-mul, div-mul-le_self,
  mod-eq_of_lt,
}
use alcor2os.Fs.Ext2.{Volume, Ext2, u32_mod, sectors_per_block, contents}
use alcor2os.Fs.Ext2.Disk.{Reachable}
use alcor2os.Fs.Ext2.Inode.{
  inode_bytes, inodes_per_block, inode_group, inode_index, inode_block, inode_offset,
}

-- The byte `i` of an inode on the drive.
abbrev pub stored : Ext2 → ℕ → ℕ → ℕ
stored s ino i = contents s (inode_block s.vol ino) (inode_offset s.vol ino + i)

-- The shape of the inode tables: blocks are whole sectors, an inode fits its place and a place a block,
-- the groups cover the inodes, and no block is of two tables.
pub record Tables (v : Volume) : Type 0 where
  pub whole : v.block_size ≡ sectors_per_block v * 512
  pub small : v.block_size < u32_mod
  pub roomy : inode_bytes ≤ v.inode_size
  pub some_inodes : 0 < inodes_per_block v
  pub covers : v.inodes_count ≤ v.groups_count * v.inodes_per_group
  pub reachable :
      (g k : ℕ)
      → g < v.groups_count
      → k < v.inodes_per_group
      → Reachable v ((v.groups g).inode_table + k / inodes_per_block v)
  pub apart :
      (g h k l : ℕ)
      → g < v.groups_count
      → h < v.groups_count
      → k < v.inodes_per_group
      → l < v.inodes_per_group
      → g ≢ h
      → (v.groups g).inode_table + k / inodes_per_block v
        ≢ (v.groups h).inode_table + l / inodes_per_block v

pub record IsInode (v : Volume) (ino : ℕ) : Type 0 where
  pub low : 1 ≤ ino
  pub high : ino ≤ v.inodes_count

div_mod_inj : (n x y : ℕ) → x / n ≡ y / n → x % n ≡ y % n → x ≡ y
div_mod_inj n x y d m =
    sym (div-add-mod' x n)
    ∙ ap (λ z. z * n + x % n) d
    ∙ ap (λ z. y / n * n + z) m
    ∙ div-add-mod' y n

module _ (v : Volume) (t : Tables v) where
  per_group-pos : (ino : ℕ) → IsInode v ino → 0 < v.inodes_per_group
  per_group-pos ino h = elim (dec_lt 0 v.inodes_per_group) [
    | yes l ↦ l
    | no n ↦
        let z : v.inodes_per_group ≡ 0 = omega arith in
        let e : v.groups_count * v.inodes_per_group ≡ 0 = rw z (omega arith) in
        absurd (omega (arith, h.low, h.high, t.covers))
  ]

  group-lt : (ino : ℕ) → IsInode v ino → inode_group v ino < v.groups_count
  group-lt ino h =
      (div-lt_iff_lt-mul (per_group-pos ino h)).1 (omega (arith, h.low, h.high, t.covers))

  index-lt : (ino : ℕ) → IsInode v ino → inode_index v ino < v.inodes_per_group
  index-lt ino h = mod-lt (ino - 1) (per_group-pos ino h)

  pub sectors-pos : 0 < sectors_per_block v
  sectors-pos =
      let a : 1 * v.inode_size ≤ inodes_per_block v * v.inode_size =
        mul-le-mul_right v.inode_size t.some_inodes in
      let b : inodes_per_block v * v.inode_size ≤ v.block_size =
        div-mul-le_self v.block_size v.inode_size in
      omega (arith, a, b, t.roomy, t.whole)

  -- The block and the offset do not wrap.
  block_eq :
      (ino : ℕ)
      → IsInode v ino
      → inode_block v ino
        ≡ (v.groups (inode_group v ino)).inode_table + inode_index v ino / inodes_per_block v
  block_eq ino h =
      let b = (v.groups (inode_group v ino)).inode_table + inode_index v ino / inodes_per_block v in
      let r : Reachable v b =
        t.reachable (inode_group v ino) (inode_index v ino) (group-lt ino h) (index-lt ino h) in
      let k : (b + 1) * 1 ≤ (b + 1) * sectors_per_block v = mul-le-mul_left (b + 1) sectors-pos in
      mod-eq_of_lt (omega (arith, r, k))

  pub block-Reachable : (ino : ℕ) → IsInode v ino → Reachable v (inode_block v ino)
  block-Reachable ino h =
      rw (block_eq ino h)
        (t.reachable (inode_group v ino) (inode_index v ino) (group-lt ino h) (index-lt ino h))

  abbrev slot : ℕ → ℕ
  slot ino = inode_index v ino % inodes_per_block v

  slot-le : (ino : ℕ) → (slot ino + 1) * v.inode_size ≤ v.block_size
  slot-le ino =
      let l : slot ino < inodes_per_block v = mod-lt (inode_index v ino) t.some_inodes in
      let a : (slot ino + 1) * v.inode_size ≤ inodes_per_block v * v.inode_size =
        mul-le-mul_right v.inode_size (omega (arith, l)) in
      let b : inodes_per_block v * v.inode_size ≤ v.block_size =
        div-mul-le_self v.block_size v.inode_size in
      omega (arith, a, b)

  offset_eq : (ino : ℕ) → inode_offset v ino ≡ slot ino * v.inode_size
  offset_eq ino = mod-eq_of_lt (omega (arith, slot-le ino, t.roomy, t.small))

  -- An inode's bytes lie in its block.
  pub offset-le : (ino : ℕ) → inode_offset v ino + inode_bytes ≤ v.block_size
  offset-le ino = omega (arith, slot-le ino, offset_eq ino, t.roomy)

  slots_apart : (a b : ℕ) → slot a < slot b → inode_offset v a + inode_bytes ≤ inode_offset v b
  slots_apart a b l =
      let k : (slot a + 1) * v.inode_size ≤ slot b * v.inode_size =
        mul-le-mul_right v.inode_size (omega (arith, l)) in
      omega (arith, k, offset_eq a, offset_eq b, t.roomy)

  -- Two inodes of one block have places that do not overlap.
  pub same_block :
      (a b : ℕ)
      → IsInode v a
      → IsInode v b
      → a ≢ b
      → inode_block v a ≡ inode_block v b
      → (inode_offset v a + inode_bytes ≤ inode_offset v b)
        ⊎ (inode_offset v b + inode_bytes ≤ inode_offset v a)
  same_block a b ha hb ne e = elim (ℕ_discrete (inode_group v a) (inode_group v b)) [
    | no ng ↦ absurd (
        t.apart (inode_group v a) (inode_group v b) (inode_index v a) (inode_index v b)
          (group-lt a ha) (group-lt b hb) (index-lt a ha) (index-lt b hb) ng
          (sym (block_eq a ha) ∙ e ∙ block_eq b hb))
    | yes g ↦
        let q : inode_index v a / inodes_per_block v ≡ inode_index v b / inodes_per_block v =
          omega (arith, block_eq a ha, block_eq b hb, e, ap (λ z. (v.groups z).inode_table) g) in
        elim (dec_lt (slot a) (slot b)) [
          | yes l ↦ inl (slots_apart a b l)
          | no n ↦ elim (dec_lt (slot b) (slot a)) [
            | yes l ↦ inr (slots_apart b a l)
            | no m ↦
                let i : inode_index v a ≡ inode_index v b =
                  div_mod_inj (inodes_per_block v) (inode_index v a) (inode_index v b) q
                    (omega arith) in
                let k : a - 1 ≡ b - 1 = div_mod_inj v.inodes_per_group (a - 1) (b - 1) g i in
                absurd (ne (omega (arith, k, ha.low, hb.low)))
          ]
        ]
  ]
