-- ===== src/Early.antt =====
-- The mounts of the early stages: naive/naivefs-4, naive/naivefs-5, naive/naivefs-6 and
-- naive/naivefs_simple.c. The structures of the kernel are those of Memory.
pub mod Stage4
pub mod Stage5
pub mod Stage6
pub mod Simple
pub mod Agree
mod Tests
use filesystem_lab.Base.{ℕ, Option}
use filesystem_lab.Memory.{Inode, Kernel, Ops}

-- What a mount sets in the super block of the kernel; `s_maxbytes` is none where it is left alone.
pub record Mounted : Type 0 where
  pub root : Inode
  pub s_magic : ℕ
  pub s_blocksize : ℕ
  pub s_blocksize_bits : ℕ
  pub s_maxbytes : Option ℕ

-- The root directory of each stage, with the owner that the kernel gives a new inode, 0.
abbrev pub root_with : Ops → Kernel → Inode
root_with ops k = record {
  ino = 1;
  mode = 16877;
  uid = 0;
  gid = 0;
  nlink = 2;
  time = k.now;
  ops = ops;
}
