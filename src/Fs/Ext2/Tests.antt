-- ===== src/Fs/Ext2/Tests.antt =====
-- A volume of two groups of 16 blocks, with blocks of 1024 bytes, for src/fs/ext2.c.
use alcor2os.Base.{
  ℕ, zero, suc, ◌+◌, ◌/◌, ◌*◌, ◌≤◌, ◌<◌, ◌≡◌, refl, ◌≢◌, true, false, ◌==◌, if◌then◌else◌, arith,
  count_below, sum_below,
}
use alcor2os.Base.Word.{test_bit}
use alcor2os.Fs.Ext2.{
  Group, Faults, Ext2, contents, bitmap_test, alloc_block, alloc_block_in_group, free_block,
  vol_read_block, vol_write_block, take_bit, bitmap_find_clear, write_taken, find_clear_byte,
  find_clear_bit, block_taken,
}
use alcor2os.Fs.Ext2.Counted.{Counted, Shape, clear_blocks, used}
use alcor2os.Fs.Ext2.Disk.{Reachable}
use alcor2os.Fs.Ext2.Allocate.{Works, Allocates, alloc_block-Allocates}
use alcor2os.Fs.Ext2.AllocBlock.{GroupAllocates, alloc_block_in_group-GroupAllocates}
use alcor2os.Fs.Ext2.FreeBlock.{FreesBlock, free_block-FreesBlock}
use alcor2os.Fs.Ext2.BlockMap.{Inode, get_block_num}
use alcor2os.Fs.Ext2.BlockMap.Lookup.{Place, InTree, index, target, Answers, get_block_num-Finds}
use alcor2os.Fs.Ext2.Inode.{write_inode}
use alcor2os.Fs.Ext2.Inode.Stored.{Tables}
use alcor2os.Fs.Ext2.Inode.Write.{ReadsBack, read_inode-write_inode}
use alcor2os.Fs.Ext2.Restored.{Restored, free_block-alloc_block}

abbrev group : ℕ → Group
group g = record {
  block_bitmap = if g == 0 then 3 else 20;
  inode_bitmap = if g == 0 then 4 else 21;
  inode_table = if g == 0 then 5 else 22;
  free_blocks_count = if g == 0 then 11 else 1;
  free_inodes_count = 6;
  used_dirs_count = 1;
}

abbrev two_groups : Ext2
two_groups = record {
  vol = record {
    partition_lba = 0;
    block_size = 1024;
    blocks_per_group = 16;
    inodes_per_group = 8;
    inode_size = 128;
    groups_count = 2;
    inodes_count = 16;
    blocks_count = 33;
    first_data_block = 1;
    free_blocks = 12;
    free_inodes = 12;
    groups = group;
  };
  disk = λ k i.
      if k == 6
      then (if i == 0 then 31 else 0)
      else if k == 40
      then (if i == 0 then 255 else if i == 1 then 127 else 0)
      else 0;
  calls = 0;
}

abbrev sound : Faults
sound = record {
  no_memory = λ k. false;
  read_fails = λ k. false;
  write_fails = λ k. false;
  written = λ t k. false;
}

-- The third call is a write, which fails after its first sector.
abbrev failing : Faults
failing = record sound { write_fails = λ k. k == 2; written = λ t k. k == 0 }

sound-Works : Works sound 0
sound-Works k l = (refl, refl, refl)

below_two : (P : ℕ → Type 0) → P zero → P (suc zero) → (g : ℕ) → g < 2 → P g
below_two P a b zero l = a
below_two P a b (suc zero) l = b
below_two P a b (suc (suc g)) l = absurd (omega arith)

two_groups-Shape : Shape two_groups.vol
two_groups-Shape = record {
  sized = omega arith;
  short = omega arith;
  numbered = omega arith;
  covers = omega arith;
  reachable =
      below_two (λ g. Reachable two_groups.vol (group g).block_bitmap) (omega arith) (omega arith);
  apart = λ g h l m.
      below_two (λ x. x ≢ h → (group x).block_bitmap ≢ (group h).block_bitmap)
        (below_two (λ y. 0 ≢ y → 3 ≢ (group y).block_bitmap) (λ ne e. ne refl)
          (λ ne e. absurd (omega arith)) h m)
        (below_two (λ y. 1 ≢ y → 20 ≢ (group y).block_bitmap) (λ ne e. absurd (omega arith))
          (λ ne e. ne refl) h m)
        g l;
}

two_groups-Counted : Counted two_groups
unfolding count_below contents bitmap_test test_bit sum_below
two_groups-Counted = record {
  shape = two_groups-Shape;
  counts = below_two (λ g. (group g).free_blocks_count ≡ clear_blocks two_groups g) refl refl;
  total = refl;
  first = λ e. absurd (omega (arith, e));
  tail = λ g i l m.
      below_two (λ x. 33 ≤ x * 16 + i + 1 → used two_groups x i ≡ true) (λ n. absurd (omega arith))
        (λ n. absurd (omega arith)) g l;
}

allocates_one : (alloc_block sound two_groups 1).0 ≢ 0
unfolding alloc_block alloc_block_in_group take_bit vol_read_block vol_write_block write_taken
    bitmap_find_clear find_clear_byte find_clear_bit contents test_bit block_taken
allocates_one e = absurd (omega (arith, e))

alloc_block-Allocates_example : Allocates two_groups (λ g. g < 2) (alloc_block sound two_groups 1)
alloc_block-Allocates_example =
    alloc_block-Allocates sound two_groups 1 two_groups-Counted sound-Works

alloc_block_in_group-GroupAllocates_example :
    GroupAllocates failing two_groups 1 (alloc_block_in_group failing two_groups 1)
alloc_block_in_group-GroupAllocates_example =
    alloc_block_in_group-GroupAllocates failing two_groups 1 two_groups-Counted

free_block-FreesBlock_example : FreesBlock sound two_groups 4 (free_block sound two_groups 4)
free_block-FreesBlock_example = free_block-FreesBlock sound two_groups 4 two_groups-Counted

free_block-alloc_block_example :
    Restored two_groups
      (free_block sound (alloc_block sound two_groups 1).1 (alloc_block sound two_groups 1).0)
free_block-alloc_block_example =
    free_block-alloc_block sound two_groups 1 two_groups-Counted sound-Works allocates_one

-- A file with 14 blocks, of which the last two are behind the indirect block 30.
abbrev inode : Inode
inode = record { i_blocks = 30; i_block = λ k. if k == 12 then 30 else k + 8 }

get_block_num-Finds_example :
    (p : Place) × InTree 256 p
    × (index 256 p ≡ 13)
    × Answers sound two_groups (target two_groups inode p) (get_block_num sound two_groups inode 13)
get_block_num-Finds_example =
    get_block_num-Finds sound two_groups inode 13 (omega arith) (omega arith)

two_groups-Tables : Tables two_groups.vol
two_groups-Tables = record {
  whole = refl;
  small = omega arith;
  roomy = omega arith;
  some_inodes = omega arith;
  covers = omega arith;
  reachable = λ g k l.
      below_two (λ x. k < 8 → Reachable two_groups.vol ((group x).inode_table + k / 8))
        (λ m. omega arith) (λ m. omega arith) g l;
  apart = λ g h k l m n p q.
      below_two (λ x. x ≢ h → (group x).inode_table + k / 8 ≢ (group h).inode_table + l / 8)
        (below_two (λ y. 0 ≢ y → 5 + k / 8 ≢ (group y).inode_table + l / 8) (λ ne e. ne refl)
          (λ ne e. omega arith) h n)
        (below_two (λ y. 1 ≢ y → 22 + k / 8 ≢ (group y).inode_table + l / 8) (λ ne e. omega arith)
          (λ ne e. ne refl) h n)
        g m;
}

read_inode-write_inode_example :
    ReadsBack sound two_groups 11 (λ i. i) (write_inode sound two_groups 11 (λ i. i))
read_inode-write_inode_example =
    read_inode-write_inode sound two_groups 11 (λ i. i) two_groups-Tables sound-Works
      (record { low = omega arith; high = omega arith })
