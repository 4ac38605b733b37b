-- ===== src/Naive/Super.antt =====
-- Mounting and unmounting in naive/naivefs_super.c: `naive_fill_super` and `naive_put_super`.
use filesystem_lab.Base.{
  ℕ, ◌+◌, ◌≤◌, ◌<◌, ◌≡◌, refl, ap, arith, ◌&&◌, true, false, Result, ok, err, eio, enomem, einval,
  if◌then◌else◌, ◌==◌,
}
use filesystem_lab.Base.Bytes.{Mem, load32, memcpy}
use filesystem_lab.Base.Bits.{IsBytes}
use filesystem_lab.Device.{Device, take_buffer, brelse, Balanced}
use filesystem_lab.Naive.Layout.{SbInfo, IsValid, magic_number, block_size}
use filesystem_lab.Naive.Kernel.{Inode, Kernel, is_dir, dir_ops, blank_inode}

-- The super block's information: the words of the disk super block and the copies of the bitmaps.
-- `heap n` is what the n-th allocation of the call holds at first.
pub load_super : (ℕ → Mem) → Device → SbInfo
unfolding memcpy
load_super heap d = record {
  inode_total = load32 (d.blocks 1) 1;
  block_total = load32 (d.blocks 1) 2;
  inode_table_block_no = load32 (d.blocks 1) 3;
  data_block_no = load32 (d.blocks 1) 4;
  block_bitmap = memcpy (heap 1) 0 (d.blocks 2) block_size;
  inode_bitmap = memcpy (heap 2) 0 (d.blocks 3) block_size;
  block_bitmap_blocks = 1;
  inode_bitmap_blocks = 1;
}

-- The inode of the root directory, which is not read from the inode table.
pub root_inode : Kernel → Inode
unfolding blank_inode
root_inode k = record blank_inode {
  i_ino = 1;
  i_mode = 16877;
  i_nlink = 2;
  i_atime = k.now;
  i_mtime = k.now;
  i_ctime = k.now;
  ops = dir_ops;
}

-- From the label `free_inode_bitmap` on, `bh` is released at `release_bh2` and at `release_bh`; from
-- `free_block_bitmap` on, `bh` is NULL after a failed `sb_bread`, which `brelse` lets pass.
pub make_root : Kernel → (ℕ → Mem) → Device → Result (SbInfo × Inode) × Device
unfolding load_super root_inode brelse
make_root k heap d =
    if k.allocates 3 && k.makes_root
    then (ok (load_super heap d, root_inode k), d)
    else (err enomem, brelse (brelse (brelse d)))

pub load_inode_bitmap : Kernel → (ℕ → Mem) → Device → Result (SbInfo × Inode) × Device
unfolding make_root brelse take_buffer
load_inode_bitmap k heap d =
    if k.readable 3
    then (let d' = take_buffer d in
        if k.allocates 2
        then make_root k heap (brelse d')
        else (err enomem, brelse (brelse (brelse d'))))
    else (err eio, brelse d)

pub load_block_bitmap : Kernel → (ℕ → Mem) → Device → Result (SbInfo × Inode) × Device
unfolding load_inode_bitmap brelse take_buffer
load_block_bitmap k heap d =
    if k.readable 2
    then (let d' = take_buffer d in
        if k.allocates 1
        then load_inode_bitmap k heap (brelse d')
        else (err enomem, brelse (brelse d')))
    else (err eio, brelse d)

-- `naive_fill_super`: the super block and the root directory, or the error. A mounted file system
-- holds the buffer of block 1.
unfoldable pub fill_super : Kernel → (ℕ → Mem) → Device → Result (SbInfo × Inode) × Device
unfolding load_block_bitmap brelse take_buffer
fill_super k heap d =
    if k.allocates 0
    then (if k.readable 1
        then (let d' = take_buffer d in
            if load32 (d.blocks 1) 0 == magic_number
            then load_block_bitmap k heap d'
            else (err einval, brelse d'))
        else (err eio, d))
    else (err enomem, d)

-- `naive_put_super` of a mounted file system.
unfoldable pub put_super : Device → Device
unfolding brelse
put_super d = brelse d

-- What a mount has to find.
pub record Mountable (k : Kernel) (d : Device) : Type 0 where
  pub reads : (b : ℕ) → k.readable b ≡ true
  pub memory : (n : ℕ) → k.allocates n ≡ true
  pub root : k.makes_root ≡ true
  pub magic : load32 (d.blocks 1) 0 ≡ magic_number

-- The super block of the disk, words of block 1, puts bitmaps, inode table and data one behind the
-- other, and one block of bits is enough for the blocks. Memory is of bytes.
pub record LaidOut (heap : ℕ → Mem) (d : Device) : Type 0 where
  pub after_bitmaps : 4 ≤ load32 (d.blocks 1) 3
  pub table_fits : load32 (d.blocks 1) 3 + load32 (d.blocks 1) 1 ≤ load32 (d.blocks 1) 4
  pub data_fits : load32 (d.blocks 1) 4 ≤ load32 (d.blocks 1) 2
  pub few : load32 (d.blocks 1) 2 ≤ 4096
  pub bytes : (b : ℕ) → IsBytes (d.blocks b)
  pub heap_bytes : (n : ℕ) → IsBytes (heap n)

-- The super block's information is that of the words of block 1 and of the bytes of blocks 2 and 3.
pub record Loaded (d : Device) (sbi : SbInfo) : Type 0 where
  pub inodes : sbi.inode_total ≡ load32 (d.blocks 1) 1
  pub blocks : sbi.block_total ≡ load32 (d.blocks 1) 2
  pub table : sbi.inode_table_block_no ≡ load32 (d.blocks 1) 3
  pub first_data : sbi.data_block_no ≡ load32 (d.blocks 1) 4
  pub block_bits : (x : ℕ) → x < 512 → sbi.block_bitmap x ≡ d.blocks 2 x
  pub inode_bits : (x : ℕ) → x < 512 → sbi.inode_bitmap x ≡ d.blocks 3 x

load_super-Loaded : (heap : ℕ → Mem) (d : Device) → Loaded d (load_super heap d)
unfolding memcpy load_super
load_super-Loaded heap d = record {
  inodes = refl;
  blocks = refl;
  table = refl;
  first_data = refl;
  block_bits = λ x lt. ground arith;
  inode_bits = λ x lt. ground arith;
}

load_super-IsValid : (heap : ℕ → Mem) (d : Device) → LaidOut heap d → IsValid (load_super heap d)
unfolding memcpy load_super
load_super-IsValid heap d l = record {
  after_bitmaps = l.after_bitmaps;
  table_fits = l.table_fits;
  data_fits = l.data_fits;
  block_bits = omega (arith, l.few);
  inode_bits = omega (arith, l.few, l.data_fits, l.table_fits);
  block_bytes = λ x. ground (arith, l.bytes 2 x, l.heap_bytes 1 x);
  inode_bytes = λ x. ground (arith, l.bytes 3 x, l.heap_bytes 2 x);
}

-- `naive_fill_super` on a device of 512-byte blocks whose block 1 has the magic number and words that
-- put the parts one behind the other, with at most 4096 blocks, when blocks can be read, memory can be
-- had and the root can be made: it returns 0; each count and bound is that of its word, the two bitmaps
-- have the bytes of blocks 2 and 3, in this order, and the super block is valid, as the other operations
-- need it; the root is inode 1, a directory; afterwards `naive_put_super` leaves no buffer reference
-- behind, and no block has changed.
pub fill_super_mounts :
    (k : Kernel) (heap : ℕ → Mem) (d : Device)
    → Mountable k d
    → LaidOut heap d
    → let (r, e) = fill_super k heap d in
      (sbi : SbInfo) × (root : Inode) × (r ≡ ok (sbi, root))
      × Loaded d sbi
      × IsValid sbi
      × (root.i_ino ≡ 1)
      × (is_dir root.i_mode ≡ true)
      × Balanced d (put_super e)
      × (e.blocks ≡ d.blocks)
unfolding fill_super put_super root_inode is_dir brelse take_buffer
fill_super_mounts k heap d m l = (
  load_super heap d,
  root_inode k,
  ap (λ (x : Result (SbInfo × Inode) × Device). x.0) mounted,
  load_super-Loaded heap d,
  load_super-IsValid heap d l,
  refl,
  refl,
  given_back,
  unchanged,
)
  where
    mounted : fill_super k heap d ≡ (
      ok (load_super heap d, root_inode k),
      record d { got = d.got + 3; released = d.released + 2 },
    )
    mounted = ground (
      arith,
      m.memory 0,
      m.memory 1,
      m.memory 2,
      m.memory 3,
      m.reads 1,
      m.reads 2,
      m.reads 3,
      m.root,
      m.magic,
    )

    given_back : Balanced d (put_super (fill_super k heap d).1)
    given_back = rw mounted (omega arith)

    unchanged : (fill_super k heap d).1.blocks ≡ d.blocks
    unchanged = rw mounted refl

-- When `naive_fill_super` has copied both bitmaps and then fails to make the root inode, it returns
-- -ENOMEM and has dropped two buffer references more than it took.
pub failed_root_releases_twice :
    (k : Kernel) (heap : ℕ → Mem) (d : Device)
    → k.allocates 0 ≡ true
    → k.allocates 1 ≡ true
    → k.allocates 2 ≡ true
    → k.allocates 3 ≡ false
    → ((b : ℕ) → k.readable b ≡ true)
    → load32 (d.blocks 1) 0 ≡ magic_number
    → let (r, e) = fill_super k heap d in
      (r ≡ err enomem) × (e.released + d.got ≡ e.got + d.released + 2)
unfolding fill_super brelse take_buffer
failed_root_releases_twice k heap d a0 a1 a2 a3 r m =
    rw (a0, a1, a2, a3, r 1, r 2, r 3, m) (refl, omega arith)
