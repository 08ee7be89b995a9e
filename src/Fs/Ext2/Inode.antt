-- ===== src/Fs/Ext2/Inode.antt =====
-- The inode tables of src/fs/ext2.c: reading and writing an inode, as the bytes it has on the drive.
pub mod Stored
pub mod Write
use alcor2os.Base.{
  ℕ, ◌+◌, ◌-◌, ◌*◌, ◌/◌, ◌%◌, ◌&&◌, ◌||◌, Option, none, some, ltb, leb, if◌then◌else◌,
}
use alcor2os.Base.Errno.{Result, ok, err, einval, eio, enomem}
use alcor2os.Fs.Ext2.{Bytes, Volume, Ext2, Faults, u32_mod, vol_read_block, vol_write_block, tick}

-- sizeof(ext2_inode_t)
abbrev pub inode_bytes : ℕ
inode_bytes = 128

abbrev pub inodes_per_block : Volume → ℕ
inodes_per_block v = v.block_size / v.inode_size

abbrev pub inode_group : Volume → ℕ → ℕ
inode_group v ino = (ino - 1) / v.inodes_per_group

abbrev pub inode_index : Volume → ℕ → ℕ
inode_index v ino = (ino - 1) % v.inodes_per_group

abbrev pub inode_block : Volume → ℕ → ℕ
inode_block v ino =
    ((v.groups (inode_group v ino)).inode_table + inode_index v ino / inodes_per_block v) % u32_mod

abbrev pub inode_offset : Volume → ℕ → ℕ
inode_offset v ino = inode_index v ino % inodes_per_block v * v.inode_size % u32_mod

unfoldable pub read_inode : Faults → Ext2 → ℕ → Result Bytes × Ext2
read_inode f s ino =
    let r = vol_read_block f (tick s) (inode_block s.vol ino) in
    if ltb ino 1 || ltb s.vol.inodes_count ino
    then (err einval, s)
    else if f.no_memory s.calls
    then (err enomem, tick s)
    else elim r.0 [
      | none ↦ (err eio, r.1)
      | some buf ↦ (ok (λ i. buf (inode_offset s.vol ino + i)), r.1)
    ]

-- `kmemcpy(buf + offset, inode, sizeof(ext2_inode_t))`
abbrev pub copy_into : Bytes → ℕ → Bytes → Bytes
copy_into buf offset inode i =
    if leb offset i && ltb i (offset + inode_bytes) then inode (i - offset) else buf i

unfoldable pub write_inode : Faults → Ext2 → ℕ → Bytes → Result (Unit {0}) × Ext2
write_inode f s ino inode =
    let r = vol_read_block f (tick s) (inode_block s.vol ino) in
    if ltb ino 1 || ltb s.vol.inodes_count ino
    then (err einval, s)
    else if f.no_memory s.calls
    then (err enomem, tick s)
    else elim r.0 [
      | none ↦ (err eio, r.1)
      | some buf ↦
          let w =
            vol_write_block f r.1 (inode_block s.vol ino)
              (copy_into buf (inode_offset s.vol ino) inode) in
          (if w.0 then ok tt else err eio, w.1)
    ]
