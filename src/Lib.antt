-- ===== src/Lib.antt =====
-- Verification of the small Linux file systems of this repository.
--
-- The program. naive/ holds a file system of 512-byte blocks: block 1 is the super block, blocks 2
-- and 3 are the bitmaps of blocks and inodes, then follow the inode table with one inode for each
-- block, and the data. It exists in two forms. naive/naivefs.h, naivefs_super.c, naivefs_inode.c,
-- naivefs_dir.c and naivefs_file.c form a modular one, whose bitmaps are copied into memory and
-- whose directories are blocks of three records. naive/naivefs-8/naivefs.c (naive/naivefs-9-10 has
-- the same text, and a second modular form) is a single-file one, whose bitmaps are the buffers
-- themselves. naive/naivefs-final/naivefs.c keeps only a list of names in memory, and
-- naive/naivefs-complete/naivefs.c not even that. The other stages are earlier.
-- myext2/ is a renamed copy of parts of ext2.
--
-- Where the parts are:
--   Base         numbers, options, results, bits of bytes, little-endian words, C strings
--   Device       the buffer cache: sb_bread, mark_buffer_dirty, brelse, with reference counts
--   Naive.Layout, Naive.Kernel   the constants and structures of naive/naivefs.h, and the kernel
--   Naive.Alloc        naive_find_free_inode, naive_alloc_block, naive_free_block
--   Naive.Table        naive_write_inode, naive_iget
--   Naive.Entries      naive_add_entry, naive_remove_entry, naive_lookup
--   Naive.Namespace    naive_create, naive_unlink, naive_mkdir, naive_rmdir
--   Naive.Files        naive_file_read, naive_file_write, for one file and beside another
--   Naive.Session      a directory after naive_create and naive_unlink
--   Naive.Volume       one directory with its files: sequences of naive_create, naive_unlink and
--     naive_file_write as calls of an abstract file system (Naive.Volume.Spec)
--   Naive.Super, Naive.Mkfs   naive_fill_super and naive_put_super; format_disk of naive/mkfs.naive.c
--   Stage9             the directories of naive/naivefs-9-10/naivefs_dir.c and the allocators of its
--     naivefs_super.c; in Stage9.Same those whose statements are those of naive/
--   Stage7             naive/naivefs-7/naivefs.c, whose functions are those of Stage8 without the
--     removal of files
--   Stage8.State, Stage8.Bitmap, Stage8.File   the structures of naive/naivefs-8/naivefs.c, its
--     allocators, naive_file_read and naive_file_write
--   Stage8.Namespace, Stage8.Super   the inodes of naive/naivefs-8/naivefs.c, and its mount
--   Memory             naive/naivefs-final/naivefs.c: the list of files, and in Memory.Readdir,
--     Memory.Files and Memory.Session its directory listing, its files and mount, and sequences of
--     calls
--   Complete           the listing, the files, the inodes and the mount of
--     naive/naivefs-complete/naivefs.c
--   Early              the mounts of naive/naivefs-4, naivefs-5, naivefs-6 and naivefs_simple.c
-- A function `naive_f` is the definition `f`; a loop of it that needs a name is a definition above
-- `f`. State is passed on: an operation takes and returns the super block, the inodes that it
-- changes and the device. A count or an error number is a `Result`.
--
-- Bytes and words. A block is a function from offsets to bytes, and the structures on disk are read
-- and written as 32-bit little-endian words of it, cut to 32 bits where they are stored. A bitmap is
-- a function from byte offsets to bytes. Fields of inodes and the variables of loops are natural
-- numbers: the sizes that occur, below the limit of 4096 bytes for a file, fit a C int. A `printk`
-- is left out.
--
-- Blocks and buffers. A device is its blocks of 512 bytes. Only the mounts of stages 4 and 5, of
-- naive/naivefs-complete and naive/naivefs-final set this size; for the others it is taken to be the
-- size that the device has, but in Early, where it is a parameter for stage 6. Buffers that
-- naive/naivefs-8 keeps from call to call, the two bitmaps and the disk inodes, are held in the super
-- block's information and in the inodes and not in the device's blocks. The theorems on its files
-- suppose that the file's blocks lie behind these, so that no block is both; an image that says
-- otherwise can be mounted, and then the code writes file data over its bitmaps.
--
-- The kernel is a parameter, a record with the answers of one call: whether a block can be read,
-- whether an allocation succeeds, what iget_locked returns, what inode_init_owner sets, how many
-- bytes a copy from or to the user moves, the time. A block that can be read stays so during a call.
-- NAIVE_I is taken to give the inode's own naive_inode_info.
--
-- Loops. Loops over pointers, records, bytes and bits recurse on the rounds that are left. The
-- loops of file reads and writes run on fuel, one round for each byte to move: a round moves at
-- least one byte or ends the loop.
--
-- Not modelled: module registration and operation tables, the dentries of the kernel, memory that
-- kfree gives back, myext2/ and the scripts. naive/naivefs-9-10/naivefs.c is a copy of
-- naive/naivefs-8/naivefs.c. naive_fill_super of
-- naive/naivefs-9-10/naivefs_super.c is a sketch that uses a pointer it never sets. Locking is the
-- VFS's, so each call runs alone.
pub mod Base
pub mod Device
pub mod Naive
pub mod Stage7
pub mod Stage8
pub mod Stage9
pub mod Memory
pub mod Complete
pub mod Early
