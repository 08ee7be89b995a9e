-- ===== src/Fs/Ext2/BlockMap.antt =====
-- The block map of an inode in src/fs/ext2.c: direct pointers and one, two or three levels of blocks of
-- pointers.
pub mod Lookup
use alcor2os.Base.{ℕ, ◌+◌, ◌-◌, ◌*◌, ◌/◌, ◌%◌, Bool, Option, none, some, ltb, ◌==◌, if◌then◌else◌}
use alcor2os.Fs.Ext2.{Bytes, Volume, Ext2, Faults, u32_mod, vol_read_block, tick}

-- The fields of an `ext2_inode_t` that the map uses.
pub record Inode : Type 0 where
  pub i_blocks : ℕ
  pub i_block : ℕ → ℕ

-- EXT2_NDIR_BLOCKS, EXT2_IND_BLOCK, EXT2_DIND_BLOCK, EXT2_TIND_BLOCK
abbrev pub ndir_blocks : ℕ
ndir_blocks = 12

abbrev pub ind_block : ℕ
ind_block = 12

abbrev pub dind_block : ℕ
dind_block = 13

abbrev pub tind_block : ℕ
tind_block = 14

abbrev pub ptrs_per_block : Volume → ℕ
ptrs_per_block v = v.block_size / 4

-- The `k`th u32 of a buffer, lowest byte first.
unfoldable pub u32_at : Bytes → ℕ → ℕ
u32_at m k = m (4 * k) + m (4 * k + 1) * 256 + m (4 * k + 2) * 65536 + m (4 * k + 3) * 16777216

-- A step down: 0 if there is no block of pointers, and also if a call fails.
unfoldable pub load : Faults → Ext2 → ℕ → ℕ → ℕ × Ext2
load f s block k =
    let r = vol_read_block f (tick s) block in
    if block == 0
    then (0, s)
    else if f.no_memory s.calls
    then (0, tick s)
    else elim r.0 [ none ↦ (0, r.1) | some m ↦ (u32_at m k, r.1) ]

-- `n` and `m` are ptrs_per_block and its square, a u32.
unfoldable pub get_double : Faults → Ext2 → Inode → ℕ → ℕ → ℕ × Ext2
get_double f s inode n file_block =
    let ind = load f s (inode.i_block dind_block) (file_block / n) in
    load f ind.1 ind.0 (file_block % n)

unfoldable pub get_triple : Faults → Ext2 → Inode → ℕ → ℕ → ℕ → ℕ × Ext2
get_triple f s inode n m file_block =
    let dind = load f s (inode.i_block tind_block) (file_block / m) in
    let ind = load f dind.1 dind.0 (file_block % m / n) in load f ind.1 ind.0 (file_block % m % n)

unfoldable pub get_block_num : Faults → Ext2 → Inode → ℕ → ℕ × Ext2
get_block_num f s inode file_block =
    let n = ptrs_per_block s.vol in
    let m = n * n % u32_mod in
    if ltb file_block ndir_blocks
    then (inode.i_block file_block, s)
    else if ltb (file_block - ndir_blocks) n
    then load f s (inode.i_block ind_block) (file_block - ndir_blocks)
    else if ltb (file_block - ndir_blocks - n) m
    then get_double f s inode n (file_block - ndir_blocks - n)
    else get_triple f s inode n m (file_block - ndir_blocks - n - m)
