-- ===== src/Kernel/Fs.antt =====
-- kernel/fs.c: blocks, inodes and the content of files.
pub mod Blocks
pub mod Words
pub mod Super
pub mod Inode
pub mod Content
pub mod Table
pub mod Dir
mod Tests
