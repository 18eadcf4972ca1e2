-- ===== src/Inode.antt =====
-- The traced operations on directories, of fs/trfs/inode.c. They return the error that the VFS gets.
pub mod Files
pub mod Directories
pub mod Attributes
pub mod Xattr
