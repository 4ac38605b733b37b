-- ===== src/Naive.antt =====
-- The modular file system of naive/: naivefs.h, naivefs_super.c, naivefs_inode.c, naivefs_dir.c.
pub mod Layout
pub mod Kernel
pub mod Super
pub mod Files
pub mod Mkfs
pub mod Table
pub mod Entries
pub mod Namespace
pub mod Session
pub mod Volume
mod Tests
pub mod Alloc
