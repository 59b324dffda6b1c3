-- ===== src/Kernel.antt =====
-- The kernel.
pub mod Fs
pub mod Copy
pub mod FileWrite
pub mod Path
pub mod Bio
pub mod Proc
pub mod Spinlock
pub mod Panic
pub mod Disk
pub mod Strings
pub mod Printf
pub mod Log
pub mod Kalloc
pub mod Pipe
pub mod Vm
pub mod File
pub mod Mmap
