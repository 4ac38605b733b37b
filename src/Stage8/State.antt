-- ===== src/Stage8/State.antt =====
-- The structures of naive/naivefs-8/naivefs.c, and what the kernel answers during one call.
use filesystem_lab.Base.{ℕ, ◌*◌, Bool}
use filesystem_lab.Base.Bytes.{Mem}

abbrev pub block_size : ℕ
block_size = 512

abbrev pub magic_number : ℕ
magic_number = 0x990717

abbrev pub direct_blocks : ℕ
direct_blocks = 8

abbrev pub max_filesize : ℕ
max_filesize = 8 * block_size

-- `struct naive_sb_info`; the bitmaps are the bytes of their two buffers, of which
-- `block_bitmap_dirty` and `inode_bitmap_dirty` say that they are to be written back.
pub record SbInfo : Type 0 where
  pub block_bitmap : Mem
  pub inode_bitmap : Mem
  pub block_bitmap_dirty : Bool
  pub inode_bitmap_dirty : Bool
  pub inode_table_start : ℕ
  pub data_blocks_start : ℕ
  pub inodes_count : ℕ
  pub blocks_count : ℕ

-- `struct naive_disk_inode`, less its padding.
pub record DiskInode : Type 0 where
  pub i_mode : ℕ
  pub i_ino : ℕ
  pub i_blocks : ℕ
  pub i_block : ℕ → ℕ
  pub i_size : ℕ
  pub i_uid : ℕ
  pub i_gid : ℕ
  pub i_links_count : ℕ
  pub i_atime : ℕ
  pub i_ctime : ℕ
  pub i_mtime : ℕ

-- The VFS inode with the disk inode that its `naive_inode_info` points to, and whether the buffer
-- of the disk inode is to be written back.
pub record Inode : Type 0 where
  pub ino : ℕ
  pub mode : ℕ
  pub nlink : ℕ
  pub size : ℕ
  pub uid : ℕ
  pub gid : ℕ
  pub atime : ℕ
  pub mtime : ℕ
  pub ctime : ℕ
  pub disk : DiskInode
  pub inode_dirty : Bool

-- What `inode_init_owner` sets.
pub record Owner : Type 0 where
  pub mode : ℕ
  pub uid : ℕ
  pub gid : ℕ

-- The kernel's answers: whether `sb_bread` of a block succeeds, whether the n-th allocation of the
-- call does, how many of `n` bytes at an offset of the user's buffer a copy moves (all of them, or
-- fewer at a fault), the time, and the owner of a new inode, in a
-- directory or as the root.
pub record Kernel : Type 0 where
  pub readable : ℕ → Bool
  pub allocates : ℕ → Bool
  pub copied : ℕ → ℕ → ℕ
  pub now : ℕ
  pub init_owner : Inode → ℕ → Owner
  pub root_owner : ℕ → Owner
