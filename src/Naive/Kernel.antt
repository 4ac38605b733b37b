-- ===== src/Naive/Kernel.antt =====
-- The in-memory inode (`struct inode` inside `struct naive_inode_info`, naive/naivefs.h) and what
-- the kernel's own functions answer during one call of the file system.
use filesystem_lab.Base.{ℕ, ◌/◌, ◌%◌, Bool, true, false, ◌==◌}

-- Which operation tables an inode carries: `naive_dir_iops` with `simple_dir_operations`, or
-- `naive_file_iops` with `naive_file_ops`.
pub data Ops : Type 0 where
  dir_ops file_ops no_ops : Ops

-- `struct timespec64`.
pub record Timespec : Type 0 where
  pub tv_sec : ℕ
  pub tv_nsec : ℕ

abbrev pub no_time : Timespec
no_time = record { tv_sec = 0; tv_nsec = 0 }

pub record Inode : Type 0 where
  pub i_ino : ℕ
  pub i_mode : ℕ
  pub i_size : ℕ
  pub i_uid : ℕ
  pub i_gid : ℕ
  pub i_nlink : ℕ
  pub i_atime : Timespec
  pub i_mtime : Timespec
  pub i_ctime : Timespec
  pub ops : Ops
  pub i_dirty : Bool
  pub block_count : ℕ
  pub block_pointers : ℕ → ℕ

-- `naive_alloc_inode`: the structure with every byte zero.
unfoldable pub blank_inode : Inode
blank_inode = record {
  i_ino = 0;
  i_mode = 0;
  i_size = 0;
  i_uid = 0;
  i_gid = 0;
  i_nlink = 0;
  i_atime = no_time;
  i_mtime = no_time;
  i_ctime = no_time;
  ops = no_ops;
  i_dirty = false;
  block_count = 0;
  block_pointers = λ _. 0;
}

-- `S_ISDIR(mode)`: the four type bits are those of S_IFDIR (0040000).
unfoldable pub is_dir : ℕ → Bool
is_dir mode = mode / 4096 % 16 == 4

-- `mark_inode_dirty`: the inode is to be written back to the inode table.
unfoldable pub mark_inode_dirty : Inode → Inode
mark_inode_dirty ino = record ino { i_dirty = true }

-- What `iget_locked` returns: nothing, an inode of the cache, or a new blank one.
pub data Iget : Type 0 where
  no_memory fresh : Iget
  cached : Inode → Iget

-- What `inode_init_owner` sets in a new inode.
pub record Owner : Type 0 where
  pub mode : ℕ
  pub uid : ℕ
  pub gid : ℕ

-- The answers of the kernel during one call: whether `sb_bread` of a block succeeds, whether the
-- n-th allocation of the call does, what `iget_locked` and `inode_init_owner` give, whether
-- `d_make_root` succeeds, the time, and how many of `n` bytes at an offset of the user's buffer a
-- copy moves: all of them, or fewer at a fault.
pub record Kernel : Type 0 where
  pub readable : ℕ → Bool
  pub allocates : ℕ → Bool
  pub iget_locked : ℕ → Iget
  pub init_owner : Inode → ℕ → Owner
  pub makes_root : Bool
  pub now : Timespec
  pub copied : ℕ → ℕ → ℕ
