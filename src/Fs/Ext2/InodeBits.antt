-- ===== src/Fs/Ext2/InodeBits.antt =====
-- The bitmaps of inodes of src/fs/ext2.c: allocation and release of an inode number.
pub mod Allocate
use alcor2os.Base.{
  ℕ, zero, suc, ◌+◌, ◌-◌, ◌/◌, ◌*◌, ◌%◌, Bool, ◌&&◌, ◌||◌, Option, none, some, ltb, leb, ◌==◌,
  if◌then◌else◌,
}
use alcor2os.Base.Errno.{Result, ok, err, einval}
use alcor2os.Fs.Ext2.{Group, Volume, Ext2, Faults, u16_mod, u32_mod, put_group, take_bit, drop_bit}

-- The counts of group `g` and of the superblock, changed.
abbrev pub add_free_inodes : ℕ → ℕ → (Group → ℕ) → Ext2 → ℕ → Ext2
add_free_inodes d16 d32 dirs s g =
    let gd = s.vol.groups g in
    record s {
      vol =
          record (put_group s.vol g (record gd {
            free_inodes_count = (gd.free_inodes_count + d16) % u16_mod;
            used_dirs_count = dirs gd;
          })) { free_inodes = (s.vol.free_inodes + d32) % u32_mod };
    }

-- `if(is_dir) gd->bg_used_dirs_count++;`
abbrev pub more_dirs : Bool → Group → ℕ
more_dirs is_dir gd = if is_dir then (gd.used_dirs_count + 1) % u16_mod else gd.used_dirs_count

-- `if(is_dir && gd->bg_used_dirs_count > 0) gd->bg_used_dirs_count--;`
abbrev pub fewer_dirs : Bool → Group → ℕ
fewer_dirs is_dir gd =
    if is_dir && ltb 0 gd.used_dirs_count then gd.used_dirs_count - 1 else gd.used_dirs_count

unfoldable pub inode_taken : ℕ → Bool → Option ℕ × Ext2 → ℕ × Ext2
inode_taken group is_dir (none, s) = (0, s)
inode_taken group is_dir (some bit, s) = (
  (group * s.vol.inodes_per_group + bit + 1) % u32_mod,
  add_free_inodes (u16_mod - 1) (u32_mod - 1) (more_dirs is_dir) s group,
)

unfoldable pub alloc_inode_in_group : Faults → Ext2 → ℕ → Bool → ℕ × Ext2
alloc_inode_in_group f s group is_dir =
    if leb s.vol.groups_count group
    then (0, s)
    else if (s.vol.groups group).free_inodes_count == 0
    then (0, s)
    else inode_taken group is_dir
        (take_bit f s (s.vol.groups group).inode_bitmap s.vol.inodes_per_group)

-- The loop over the groups from `g` on; the first number is the rounds left.
unfoldable pub alloc_inode_from : ℕ → Faults → Ext2 → ℕ → Bool → ℕ → ℕ × Ext2
alloc_inode_from zero f s preferred_group is_dir g = (0, s)
alloc_inode_from (suc r) f s preferred_group is_dir g =
    let b = if g == preferred_group then (0, s) else alloc_inode_in_group f s g is_dir in
    let rest = alloc_inode_from r f b.1 preferred_group is_dir (g + 1) in
    if b.0 == 0 then rest else b

unfoldable pub alloc_inode : Faults → Ext2 → ℕ → Bool → ℕ × Ext2
alloc_inode f s preferred_group is_dir =
    let b = alloc_inode_in_group f s preferred_group is_dir in
    let rest = alloc_inode_from b.1.vol.groups_count f b.1 preferred_group is_dir 0 in
    if b.0 == 0 then rest else b

unfoldable pub free_inode : Faults → Ext2 → ℕ → Bool → Result (Unit {0}) × Ext2
free_inode f s ino is_dir =
    if ltb ino 1 || ltb s.vol.inodes_count ino
    then (err einval, s)
    else let group = (ino - 1) / s.vol.inodes_per_group in
      let bit = (ino - 1) % s.vol.inodes_per_group in
      let d = drop_bit f s (s.vol.groups group).inode_bitmap bit in
      elim d.0 [
        | ok u ↦ (ok tt, add_free_inodes 1 1 (fewer_dirs is_dir) d.1 group)
        | err e ↦ (err e, d.1)
      ]
