-- ===== src/Fs.antt =====
-- src/fs, the virtual file system.
pub mod Files
pub mod Paths
pub mod Calls
pub mod Ext2
