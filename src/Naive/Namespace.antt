-- ===== src/Naive/Namespace.antt =====
-- The directory operations of naive/: `naive_create` and `naive_unlink` (naive/naivefs_inode.c),
-- `naive_mkdir` and `naive_rmdir` (naive/naivefs_dir.c). Each returns its result, the super block,
-- the inodes that it changes and the device. The two inodes of a call are different objects, as
-- the VFS passes them.
pub mod Free
pub mod Create
pub mod Unlink
pub mod Dots
pub mod Mkdir
pub mod Empty
pub mod Rmdir
pub mod Cycle
use filesystem_lab.Base.{
  ℕ, zero, suc, ◌+◌, ◌-◌, ◌*◌, ◌%◌, Bool, true, false, not, ◌&&◌, ◌||◌, Option, none, some, List,
  [], ◌∷◌, Result, ok, err, eio, enospc, enomem, enotdir, enotempty, if◌then◌else◌, update, ◌==◌,
}
use filesystem_lab.Base.Bytes.{Mem, store32, memset, strncpy, strcmp_eq}
use filesystem_lab.Base.Bits.{set_bit, clear_bit}
use filesystem_lab.Device.{Device, take_buffer, brelse, write_buffer, mark_buffer_dirty}
use filesystem_lab.Naive.Layout.{SbInfo, block_size, max_filename_len, dir_records_per_block}
use filesystem_lab.Naive.Kernel.{
  Inode, Kernel, Owner, Ops, dir_ops, file_ops, blank_inode, is_dir, mark_inode_dirty,
}
use filesystem_lab.Naive.Alloc.{find_free_inode, alloc_block, free_block}
use filesystem_lab.Naive.Entries.{
  Name, record_ino, filename_at, first_record, add_entry, remove_entry,
}

-- `sbi->inode_bitmap[(ino - 1) / 8] |= 1 << ((ino - 1) % 8)`, and the same with `&= ~`.
unfoldable pub mark_inode : SbInfo → ℕ → SbInfo
mark_inode sbi ino = record sbi { inode_bitmap = set_bit sbi.inode_bitmap (ino - 1) }

unfoldable pub unmark_inode : SbInfo → ℕ → SbInfo
unmark_inode sbi ino = record sbi { inode_bitmap = clear_bit sbi.inode_bitmap (ino - 1) }

-- The inode that `naive_create` sets up before it touches the directory.
unfoldable pub new_file_inode : Kernel → Inode → ℕ → ℕ → Inode
unfolding blank_inode
new_file_inode k dir mode ino =
    let o = k.init_owner dir mode in
    record blank_inode {
      i_ino = ino;
      i_mode = o.mode;
      i_uid = o.uid;
      i_gid = o.gid;
      i_nlink = 1;
      i_atime = k.now;
      i_mtime = k.now;
      i_ctime = k.now;
      ops = file_ops;
    }

unfoldable pub create :
    Kernel → Name → ℕ → SbInfo → Inode → Device → Result Inode × SbInfo × Inode × Device
unfolding find_free_inode mark_inode new_file_inode add_entry
create k s mode sbi dir d =
    let ino = find_free_inode sbi in
    if ino == 0
    then (err enospc, sbi, dir, d)
    else if k.allocates 0
    then (let (r, sbi', dir', d') = add_entry k s ino (mark_inode sbi ino) dir d in
        elim r [
          | ok _ ↦ (ok (new_file_inode k dir mode ino), sbi', dir', d')
          | err e ↦ (err e, sbi', dir', d')
        ])
    else (err enomem, sbi, dir, d)

-- The loop that frees the blocks of an inode, with `n` pointers left from pointer `i`.
pub free_pointers : ℕ → ℕ → SbInfo → Inode → SbInfo × Inode
unfolding free_block
free_pointers zero i sbi ino = (sbi, ino)
free_pointers (suc n) i sbi ino =
    let b = ino.block_pointers i in
    free_pointers n (i + 1) (if b == 0 then sbi else free_block sbi b)
      (if b == 0 then ino else record ino { block_pointers = update ino.block_pointers i 0 })

-- What `naive_unlink` and `naive_rmdir` do to an inode whose entry is gone: its blocks and its bit
-- are freed, its link count and its size become 0.
pub drop_inode : SbInfo → Inode → SbInfo × Inode
unfolding free_pointers unmark_inode
drop_inode sbi ino =
    let (sbi1, ino1) = free_pointers ino.block_count 0 sbi ino in
    (unmark_inode sbi1 ino.i_ino, record ino1 { block_count = 0; i_nlink = 0; i_size = 0 })

unfoldable pub unlink :
    Kernel → Name → SbInfo → Inode → Inode → Device → Result (Unit {0}) × SbInfo × Inode × Device
unfolding remove_entry drop_inode
unlink k s sbi dir ino d =
    let (r, d') = remove_entry k s dir d in
    elim r [
      | err e ↦ (err e, sbi, ino, d')
      | ok _ ↦ let (sbi', ino') = drop_inode sbi ino in (ok tt, sbi', ino', d')
    ]

abbrev pub dot : Name
dot = b'.' ∷ []

abbrev pub dotdot : Name
dotdot = b'.' ∷ b'.' ∷ []

-- The block of a new directory: zeros, then the records of `.` and `..`.
unfoldable pub dots_block : Mem → ℕ → ℕ → Mem
unfolding memset strncpy
dots_block m ino parent =
    let m0 = memset m 0 0 block_size in
    let m1 = strncpy (store32 m0 0 ino) (filename_at 0) dot max_filename_len in
    strncpy (store32 m1 33 parent) (filename_at 1) dotdot max_filename_len

-- `S_IFDIR | (mode & 0777)`
abbrev pub directory_mode : ℕ → ℕ
directory_mode mode = 0o40000 + mode % 0o1000

unfoldable pub new_dir_inode : Kernel → Inode → ℕ → ℕ → ℕ → Inode
unfolding blank_inode
new_dir_inode k dir mode ino b =
    let o = k.init_owner dir (directory_mode mode) in
    record blank_inode {
      i_ino = ino;
      i_mode = o.mode;
      i_uid = o.uid;
      i_gid = o.gid;
      i_nlink = 2;
      i_atime = k.now;
      i_mtime = k.now;
      i_ctime = k.now;
      i_size = block_size;
      ops = dir_ops;
      block_count = 1;
      block_pointers = update blank_inode.block_pointers 0 b;
    }

-- From the marking of the inode's bit on: the entry in the parent, and what follows.
pub link_dir :
    Kernel → Name → ℕ → ℕ → ℕ → SbInfo → Inode → Device → Result Inode × SbInfo × Inode × Device
unfolding add_entry mark_inode free_block new_dir_inode mark_inode_dirty
link_dir k s mode ino b sbi dir d =
    let (r, sbi', dir', d') = add_entry k s ino (mark_inode sbi ino) dir d in
    elim r [
      | err e ↦ (err e, free_block sbi' b, dir', d')
      | ok _ ↦ (
        ok (new_dir_inode k dir mode ino b),
        sbi',
        mark_inode_dirty (record dir' { i_nlink = dir'.i_nlink + 1 }),
        d',
      )
    ]

unfoldable pub mkdir :
    Kernel → Name → ℕ → SbInfo → Inode → Device → Result Inode × SbInfo × Inode × Device
unfolding find_free_inode alloc_block free_block dots_block link_dir take_buffer brelse write_buffer
    mark_buffer_dirty
mkdir k s mode sbi dir d =
    let ino = find_free_inode sbi in
    if ino == 0
    then (err enospc, sbi, dir, d)
    else if k.allocates 0
    then (let (r, sbi1) = alloc_block sbi in
        elim r [
          | err _ ↦ (err enospc, sbi1, dir, d)
          | ok b ↦
              if k.readable b
              then link_dir k s mode ino b sbi1 dir (
                  brelse (
                    mark_buffer_dirty b
                      (write_buffer b (dots_block (d.blocks b) ino dir.i_ino) (take_buffer d))))
              else (err eio, free_block sbi1 b, dir, d)
        ])
    else (err enomem, sbi, dir, d)

-- A record in use that is neither `.` nor `..`.
unfoldable pub other_record : Mem → ℕ → Bool
unfolding record_ino strcmp_eq
other_record m j =
    not (record_ino m j == 0)
    && not (strcmp_eq m (filename_at j) dot || strcmp_eq m (filename_at j) dotdot)

-- The test for emptiness in `naive_rmdir`, with `n` pointers left from pointer `i`.
unfoldable pub empty_scan : Kernel → (ℕ → ℕ) → ℕ → ℕ → Device → Result (Unit {0}) × Device
unfolding first_record other_record take_buffer brelse
empty_scan k p zero i d = (ok tt, d)
empty_scan k p (suc n) i d =
    let rest = empty_scan k p n (i + 1) in
    if p i == 0
    then rest d
    else if k.readable (p i)
    then elim (first_record (other_record (d.blocks (p i))) dir_records_per_block 0) [
      | some _ ↦ (err enotempty, brelse (take_buffer d))
      | none ↦ rest (brelse (take_buffer d))
    ]
    else (err eio, d)

-- The removal that follows in `naive_rmdir`.
unfoldable pub remove_dir :
    Kernel
    → Name
    → SbInfo
    → Inode
    → Inode
    → Device
    → Result (Unit {0}) × SbInfo × Inode × Inode × Device
unfolding remove_entry drop_inode mark_inode_dirty
remove_dir k s sbi dir ino d =
    let (r, d') = remove_entry k s dir d in
    elim r [
      | err e ↦ (err e, sbi, dir, ino, d')
      | ok _ ↦
          let (sbi', ino') = drop_inode sbi ino in
          (ok tt, sbi', mark_inode_dirty (record dir { i_nlink = dir.i_nlink - 1 }), ino', d')
    ]

unfoldable pub rmdir :
    Kernel
    → Name
    → SbInfo
    → Inode
    → Inode
    → Device
    → Result (Unit {0}) × SbInfo × Inode × Inode × Device
unfolding empty_scan remove_dir
rmdir k s sbi dir ino d =
    if is_dir ino.i_mode
    then (let (r, d1) = empty_scan k ino.block_pointers ino.block_count 0 d in
        elim r [ err e ↦ (err e, sbi, dir, ino, d1) | ok _ ↦ remove_dir k s sbi dir ino d1 ])
    else (err enotdir, sbi, dir, ino, d)
