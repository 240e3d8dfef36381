-- ===== src/Ext2.antt =====
-- kernel/src/fs/vfs_v2/drivers/ext2/mod.rs: the cache of inodes.
pub mod InodeCache
