-- ===== src/Fs/Ext2/InodeBits/Allocate.antt =====
-- The allocation of an inode number in src/fs/ext2.c, where no call fails.
use alcor2os.Base.{ℕ, ◌+◌, ◌-◌, ◌*◌, ◌≤◌, ◌<◌, ◌≡◌, ◌⊎◌, Bool, true, false}
use alcor2os.Fs.Ext2.{Bytes, Volume, Ext2, u16_mod, u32_mod, sectors_per_block, contents}
use alcor2os.Fs.Ext2.Disk.{Reachable}
use alcor2os.Fs.Ext2.Counted.{with_disk}
use alcor2os.Fs.Ext2.Bitmap.{Full}
use alcor2os.Fs.Ext2.TakeBit.{OneBit, disk_bit}
use alcor2os.Fs.Ext2.InodeBits.{add_free_inodes, more_dirs}

-- The bitmaps of inodes have blocks on the drive with room for a group's bits.
pub record InodeBitmaps (v : Volume) : Type 0 where
  pub sized : v.inodes_per_group ≤ sectors_per_block v * 4096
  pub short : v.inodes_per_group + 7 < u32_mod
  pub numbered : v.groups_count * v.inodes_per_group < u32_mod
  pub reachable : (g : ℕ) → g < v.groups_count → Reachable v (v.groups g).inode_bitmap

-- Group `g` has no inode to give: its count says so, or its bitmap.
abbrev pub NoInode : Ext2 → ℕ → Type 0
NoInode s g =
    ((s.vol.groups g).free_inodes_count ≡ 0)
    ⊎ Full (contents s (s.vol.groups g).inode_bitmap) 0 s.vol.inodes_per_group

-- How an allocation ends: with a number whose bit was clear and is set, and no other bit of any block on
-- the drive is changed, and the counts of the group; or the groups in `Q` have no inode to give, and
-- nothing is changed.
pub data AllocatesInode (s : Ext2) (is_dir : Bool) (Q : ℕ → Type 0) : ℕ × Ext2 → Type 0 where
  inode :
      (g i : ℕ) (d : ℕ → Bytes) (c : ℕ)
      → g < s.vol.groups_count
      → i < s.vol.inodes_per_group
      → disk_bit s (s.vol.groups g).inode_bitmap i ≡ false
      → disk_bit (with_disk s d c) (s.vol.groups g).inode_bitmap i ≡ true
      → OneBit s (s.vol.groups g).inode_bitmap i (with_disk s d c)
      → AllocatesInode s is_dir Q (
        g * s.vol.inodes_per_group + i + 1,
        add_free_inodes (u16_mod - 1) (u32_mod - 1) (more_dirs is_dir) (with_disk s d c) g,
      )
  no_inode :
      (c : ℕ)
      → s.calls ≤ c
      → ((g : ℕ) → g < s.vol.groups_count → Q g → NoInode s g)
      → AllocatesInode s is_dir Q (0, with_disk s s.disk c)
