-- ===== src/Fs/Ext2.antt =====
-- src/fs/ext2.c, the ext2 driver: the volume, the reads and writes of its blocks, the bitmaps, and the
-- allocation of blocks and inodes. Memory and the drive are parameters that may fail at any call.
pub mod Bitmap
pub mod Disk
pub mod Counted
pub mod TakeBit
pub mod AllocBlock
pub mod Allocate
pub mod FreeBlock
pub mod Restored
pub mod BlockMap
pub mod Inode
pub mod InodeBits
mod Tests
use alcor2os.Base.{
  ℕ, zero, suc, ◌+◌, ◌-◌, ◌*◌, ◌/◌, ◌%◌, ◌^◌, Bool, not, ◌&&◌, ◌||◌, Option, none, some, ltb, leb,
  ◌==◌, if◌then◌else◌,
}
use alcor2os.Base.Word.{test_bit, set_bit, clear_bit}
use alcor2os.Base.Errno.{Result, ok, err, einval, eio, enomem}

abbrev pub u16_mod : ℕ
u16_mod = 2 ^ 16

abbrev pub u32_mod : ℕ
u32_mod = 2 ^ 32

-- EXT2_SECTOR_SIZE
abbrev pub sector_size : ℕ
sector_size = 512

-- The bytes of a buffer, by their offset.
abbrev pub Bytes : Type 0
Bytes = ℕ → ℕ

pub record Group : Type 0 where
  pub block_bitmap : ℕ
  pub inode_bitmap : ℕ
  pub inode_table : ℕ
  pub free_blocks_count : ℕ
  pub free_inodes_count : ℕ
  pub used_dirs_count : ℕ

-- `free_blocks` and `free_inodes` are the counts of the cached superblock, `sb`.
pub record Volume : Type 0 where
  pub partition_lba : ℕ
  pub block_size : ℕ
  pub blocks_per_group : ℕ
  pub inodes_per_group : ℕ
  pub inode_size : ℕ
  pub groups_count : ℕ
  pub inodes_count : ℕ
  pub blocks_count : ℕ
  pub first_data_block : ℕ
  pub free_blocks : ℕ
  pub free_inodes : ℕ
  pub groups : ℕ → Group

-- Which calls of kmalloc, ata_read and ata_write fail, by the number of calls before, and which of its
-- sectors a write that fails has written.
pub record Faults : Type 0 where
  pub no_memory : ℕ → Bool
  pub read_fails : ℕ → Bool
  pub write_fails : ℕ → Bool
  pub written : ℕ → ℕ → Bool

-- The volume in memory, the sectors of its drive, and how many calls there have been.
pub record Ext2 : Type 0 where
  pub vol : Volume
  pub disk : ℕ → Bytes
  pub calls : ℕ

abbrev pub tick : Ext2 → Ext2
tick s = record s { calls = s.calls + 1 }

-- The first sector of a block on the drive, and how many a block has.
abbrev pub sectors_per_block : Volume → ℕ
sectors_per_block v = v.block_size / sector_size

abbrev pub sector_of : Volume → ℕ → ℕ
sector_of v block = (v.partition_lba + block * sectors_per_block v % u32_mod) % u32_mod

-- What a read of the block gives.
unfoldable pub contents : Ext2 → ℕ → Bytes
contents s block i = s.disk (sector_of s.vol block + i / sector_size) (i % sector_size)

unfoldable pub vol_read_block : Faults → Ext2 → ℕ → Option Bytes × Ext2
vol_read_block f s block = (if f.read_fails s.calls then none else some (contents s block), tick s)

-- The sectors from `start` on, of which `n` are written from the buffer where `written` holds.
abbrev pub write_run : (ℕ → Bytes) → ℕ → ℕ → Bytes → (ℕ → Bool) → ℕ → Bytes
write_run disk start n m written k =
    if (leb start k && ltb k (start + n)) && written (k - start)
    then (λ i. m ((k - start) * sector_size + i))
    else disk k

-- Whether the `k`th sector of the write at call `t` is written.
abbrev pub reaches : Faults → ℕ → ℕ → Bool
reaches f t k = not (f.write_fails t) || f.written t k

-- Whether the write succeeded, and the state behind it.
unfoldable pub vol_write_block : Faults → Ext2 → ℕ → Bytes → Bool × Ext2
vol_write_block f s block m = (
  not (f.write_fails s.calls),
  record s {
    disk = write_run s.disk (sector_of s.vol block) (sectors_per_block s.vol) m (reaches f s.calls);
    calls = s.calls + 1;
  },
)

abbrev pub put_byte : Bytes → ℕ → ℕ → Bytes
put_byte m k v i = if i == k then v else m i

unfoldable pub bitmap_set : Bytes → ℕ → Bytes
bitmap_set m bit = put_byte m (bit / 8) (set_bit (m (bit / 8)) (bit % 8))

unfoldable pub bitmap_clear : Bytes → ℕ → Bytes
bitmap_clear m bit = put_byte m (bit / 8) (clear_bit (m (bit / 8)) (bit % 8))

unfoldable pub bitmap_test : Bytes → ℕ → Bool
bitmap_test m bit = test_bit (m (bit / 8)) (bit % 8)

-- The loop over the bits of a byte.
unfoldable pub find_clear_bit : ℕ → Bytes → ℕ → ℕ → ℕ → Option ℕ
find_clear_bit zero m size byte bit = none
find_clear_bit (suc r) m size byte bit =
    let rest = find_clear_bit r m size byte (bit + 1) in
    if ltb (byte * 8 + bit) size
    then if not (test_bit (m byte) bit) then some (byte * 8 + bit) else rest
    else none

-- The loop over the bytes.
unfoldable pub find_clear_byte : ℕ → Bytes → ℕ → ℕ → Option ℕ
find_clear_byte zero m size byte = none
find_clear_byte (suc r) m size byte =
    let rest = find_clear_byte r m size (byte + 1) in
    if not (m byte == 255)
    then elim (find_clear_bit 8 m size byte 0) [ some bit ↦ some bit | none ↦ rest ]
    else rest

-- `none` is (u32)-1.
unfoldable pub bitmap_find_clear : Bytes → ℕ → Option ℕ
bitmap_find_clear m size = find_clear_byte ((size + 7) % u32_mod / 8) m size 0

-- The part that the allocations of a block and of an inode share: a buffer, the bitmap in it, the first
-- clear bit, and the bitmap with that bit set back on the drive.
unfoldable pub write_taken : Faults → Ext2 → ℕ → Bytes → Option ℕ → Option ℕ × Ext2
write_taken f s at m none = (none, s)
write_taken f s at m (some bit) =
    let w = vol_write_block f s at (bitmap_set m bit) in (if w.0 then some bit else none, w.1)

unfoldable pub take_bit : Faults → Ext2 → ℕ → ℕ → Option ℕ × Ext2
take_bit f s at size =
    let r = vol_read_block f (tick s) at in
    if f.no_memory s.calls then (none, tick s) else elim r.0 [
      | none ↦ (none, r.1)
      | some m ↦ write_taken f r.1 at m (bitmap_find_clear m size)
    ]

-- The part that the releases share.
unfoldable pub drop_bit : Faults → Ext2 → ℕ → ℕ → Result (Unit {0}) × Ext2
drop_bit f s at bit =
    let r = vol_read_block f (tick s) at in
    if f.no_memory s.calls then (err enomem, tick s) else elim r.0 [
      | none ↦ (err eio, r.1)
      | some m ↦
          let w = vol_write_block f r.1 at (bitmap_clear m bit) in
          (if w.0 then ok tt else err eio, w.1)
    ]

-- `gd` of group `g` changed.
abbrev pub put_group : Volume → ℕ → Group → Volume
put_group v g gd = record v { groups = λ h. if h == g then gd else v.groups h }

abbrev pub add_free_blocks : ℕ → ℕ → Ext2 → ℕ → Ext2
add_free_blocks d16 d32 s g =
    let gd = s.vol.groups g in
    record s {
      vol =
          record (put_group s.vol g
            (record gd { free_blocks_count = (gd.free_blocks_count + d16) % u16_mod })) {
              free_blocks = (s.vol.free_blocks + d32) % u32_mod;
            };
    }

unfoldable pub block_taken : ℕ → Option ℕ × Ext2 → ℕ × Ext2
block_taken group (none, s) = (0, s)
block_taken group (some bit, s) = (
  (group * s.vol.blocks_per_group + bit + s.vol.first_data_block) % u32_mod,
  add_free_blocks (u16_mod - 1) (u32_mod - 1) s group,
)

unfoldable pub alloc_block_in_group : Faults → Ext2 → ℕ → ℕ × Ext2
alloc_block_in_group f s group =
    if leb s.vol.groups_count group
    then (0, s)
    else if (s.vol.groups group).free_blocks_count == 0
    then (0, s)
    else block_taken group (take_bit f s (s.vol.groups group).block_bitmap s.vol.blocks_per_group)

-- The loop over the groups from `g` on; the first number is the rounds left.
unfoldable pub alloc_block_from : ℕ → Faults → Ext2 → ℕ → ℕ → ℕ × Ext2
alloc_block_from zero f s preferred_group g = (0, s)
alloc_block_from (suc r) f s preferred_group g =
    let b = if g == preferred_group then (0, s) else alloc_block_in_group f s g in
    let rest = alloc_block_from r f b.1 preferred_group (g + 1) in if b.0 == 0 then rest else b

unfoldable pub alloc_block : Faults → Ext2 → ℕ → ℕ × Ext2
alloc_block f s preferred_group =
    let b = alloc_block_in_group f s preferred_group in
    let rest = alloc_block_from b.1.vol.groups_count f b.1 preferred_group 0 in
    if b.0 == 0 then rest else b

unfoldable pub free_block : Faults → Ext2 → ℕ → Result (Unit {0}) × Ext2
free_block f s block =
    if ltb block s.vol.first_data_block || leb s.vol.blocks_count block
    then (err einval, s)
    else let group = (block - s.vol.first_data_block) / s.vol.blocks_per_group in
      let bit = (block - s.vol.first_data_block) % s.vol.blocks_per_group in
      let d = drop_bit f s (s.vol.groups group).block_bitmap bit in
      elim d.0 [ ok u ↦ (ok tt, add_free_blocks 1 1 d.1 group) | err e ↦ (err e, d.1) ]
