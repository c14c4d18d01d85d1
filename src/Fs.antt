-- ===== src/Fs.antt =====
-- kernel/fs.c: blocks, inodes, files, directories and paths above the log and the buffer cache.
pub mod Types
pub mod Bitmap
pub mod Inode
pub mod Content
pub mod Dir
pub mod Path
mod Tests
