-- ===== src/Naive/Table.antt =====
-- The inode table: `naive_write_inode` (naive/naivefs_super.c) and `naive_iget`
-- (naive/naivefs_inode.c).
pub mod Words
pub mod RoundTrip
pub mod Frame
use filesystem_lab.Base.{
  ℕ, zero, suc, ◌+◌, ◌-◌, ◌/◌, Result, ok, err, eio, enomem, if◌then◌else◌, update, false,
}
use filesystem_lab.Base.Bytes.{Mem, load32, store32}
use filesystem_lab.Device.{Device, take_buffer, brelse, write_buffer, mark_buffer_dirty}
use filesystem_lab.Naive.Layout.{SbInfo, dir_record_size}
use filesystem_lab.Naive.Kernel.{
  Inode, Kernel, Iget, no_memory, fresh, cached, Ops, dir_ops, file_ops, is_dir, blank_inode,
}

-- The words of `struct naive_inode`: mode, i_ino, block_count, block[0..7], then these.
abbrev pub size_word : ℕ
size_word = 11

-- The block of the inode table that holds inode `ino`.
abbrev pub table_block : SbInfo → ℕ → ℕ
table_block sbi ino = sbi.inode_table_block_no + (ino - 1)

-- `for (i...; i < nii->block_count; i++) disk_inode->block[i] = ...`, with `n` rounds left.
pub store_pointers : (ℕ → ℕ) → ℕ → ℕ → Mem → Mem
store_pointers p zero i m = m
store_pointers p (suc n) i m = store_pointers p n (i + 1) (store32 m (3 + i) (p i))

-- The assignments of `naive_write_inode` to the disk inode.
pub encode_inode : Inode → Mem → Mem
unfolding store_pointers
encode_inode ino m0 =
    let m1 = store32 (store32 (store32 m0 0 ino.i_mode) 1 ino.i_ino) 2 ino.block_count in
    let m2 = store_pointers ino.block_pointers ino.block_count 0 m1 in
    let size = if is_dir ino.i_mode then ino.i_size / dir_record_size else ino.i_size in
    let m3 = store32 (store32 (store32 m2 size_word size) 12 ino.i_uid) 13 ino.i_gid in
    store32
      (store32 (store32 (store32 m3 14 ino.i_nlink) 15 ino.i_atime.tv_sec) 17 ino.i_mtime.tv_sec) 16
      ino.i_ctime.tv_sec

unfoldable pub write_inode : Kernel → SbInfo → Inode → Device → Result (Unit {0}) × Device
unfolding encode_inode take_buffer brelse write_buffer mark_buffer_dirty
write_inode k sbi ino d =
    let b = table_block sbi ino.i_ino in
    if k.readable b
    then (
      ok tt,
      brelse (mark_buffer_dirty b (write_buffer b (encode_inode ino (d.blocks b)) (take_buffer d))),
    )
    else (err eio, d)

-- `for (i...; i < nii->block_count; i++) nii->block_pointers[i] = ...`, with `n` rounds left.
pub load_pointers : Mem → ℕ → ℕ → (ℕ → ℕ) → ℕ → ℕ
load_pointers m zero i p = p
load_pointers m (suc n) i p = load_pointers m n (i + 1) (update p i (load32 m (3 + i)))

-- What `naive_iget` fills into a new inode from the disk inode.
pub decode_inode : ℕ → Mem → Inode
unfolding load_pointers blank_inode
decode_inode ino m = record {
  i_ino = ino;
  i_mode = load32 m 0;
  i_size = load32 m size_word;
  i_uid = load32 m 12;
  i_gid = load32 m 13;
  i_nlink = load32 m 14;
  i_atime = record { tv_sec = load32 m 15; tv_nsec = 0 };
  i_mtime = record { tv_sec = load32 m 17; tv_nsec = 0 };
  i_ctime = record { tv_sec = load32 m 16; tv_nsec = 0 };
  ops = if is_dir (load32 m 0) then dir_ops else file_ops;
  i_dirty = false;
  block_count = load32 m 2;
  block_pointers = load_pointers m (load32 m 2) 0 (blank_inode.block_pointers);
}

unfoldable pub iget : Kernel → SbInfo → ℕ → Device → Result Inode × Device
unfolding decode_inode take_buffer brelse
iget k sbi ino d = elim (k.iget_locked ino) [
  | no_memory ↦ (err enomem, d)
  | cached i ↦ (ok i, d)
  | fresh ↦
      let b = table_block sbi ino in
      if k.readable b
      then (ok (decode_inode ino (d.blocks b)), brelse (take_buffer d))
      else (err eio, d)
]
