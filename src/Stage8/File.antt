-- ===== src/Stage8/File.antt =====
-- `naive_file_read` and `naive_file_write` of naive/naivefs-8/naivefs.c.
pub mod Blocks
pub mod Write
pub mod Loop
pub mod Read
pub mod RoundTrip
pub mod Frame
pub mod Safe
use filesystem_lab.Base.{
  ℕ, zero, suc, ◌+◌, ◌-◌, ◌/◌, ◌%◌, min, Bool, true, false, Option, none, some, Result, ok, err,
  efbig, efault, if◌then◌else◌, update, ◌==◌, ltb, leb,
}
use filesystem_lab.Base.Bytes.{Mem, memcpy, memset}
use filesystem_lab.Base.Bits.{clear_bit}
use filesystem_lab.Device.{Device, take_buffer, brelse, write_buffer, mark_buffer_dirty}
use filesystem_lab.Stage8.State.{
  SbInfo, DiskInode, Inode, Kernel, block_size, direct_blocks, max_filesize,
}
use filesystem_lab.Stage8.Bitmap.{find_free_block}

-- The variables of the loop in `naive_file_read`, with the user's buffer and the device.
pub record Reading : Type 0 where
  pub pos : ℕ
  pub len : ℕ
  pub bytes_read : ℕ
  pub buf : Mem
  pub dev : Device

-- `bytes_to_copy` of the read loop, and of the write loop.
abbrev pub read_chunk : ℕ → ℕ → ℕ → ℕ
read_chunk len offset left = min (min len (block_size - offset)) left

abbrev pub write_chunk : ℕ → ℕ → ℕ
write_chunk len offset = min len (block_size - offset)

-- One copy to the user, then the next round; a fault ends the loop with -EFAULT.
pub read_step : Kernel → Mem → ℕ → Reading → Result (Unit {0}) × Reading
unfolding memcpy brelse take_buffer
read_step k block left r =
    let offset = r.pos % block_size in
    let n = read_chunk r.len offset left in
    let c = k.copied r.bytes_read n in
    let buf = memcpy r.buf r.bytes_read (λ i. block (offset + i)) c in
    let dev = brelse (take_buffer r.dev) in
    if c == n
    then (
      ok tt,
      record r {
        pos = r.pos + n;
        len = r.len - n;
        bytes_read = r.bytes_read + n;
        buf = buf;
        dev = dev;
      },
    )
    else (err efault, record r { buf = buf; dev = dev })

-- `while (len > 0)` with fuel; a `break` that keeps the count is `ok`.
pub read_loop : Kernel → ℕ → DiskInode → ℕ → Reading → Result (Unit {0}) × Reading
unfolding read_step
read_loop k size disk zero r = (ok tt, r)
read_loop k size disk (suc fuel) r =
    let b = disk.i_block (r.pos / block_size) in
    let (s, r') = read_step k (r.dev.blocks b) (size - r.pos) r in
    let rest = read_loop k size disk fuel r' in
    if r.len == 0
    then (ok tt, r)
    else if leb direct_blocks (r.pos / block_size)
    then (ok tt, r)
    else if b == 0
    then (ok tt, r)
    else if k.readable b
    then elim s [ ok _ ↦ rest | err e ↦ (err e, r') ]
    else (ok tt, r)

-- `naive_file_read`: the count or the error, the new position, the user's buffer, the inode with
-- its access time, and the device. The loop takes at most one round for each byte.
unfoldable pub file_read :
    Kernel → Inode → ℕ → ℕ → Mem → Device → Result ℕ × ℕ × Mem × Inode × Device
unfolding read_loop
file_read k ino len pos buf d =
    let size = ino.disk.i_size in
    if leb size pos
    then (ok 0, pos, buf, ino, d)
    else (let len' = if ltb size (pos + len) then size - pos else len in
        let (s, r) =
          read_loop k size ino.disk len'
            (record { pos = pos; len = len'; bytes_read = 0; buf = buf; dev = d }) in
        let ino' = record ino { atime = k.now } in
        elim s [
          | ok _ ↦ (ok r.bytes_read, r.pos, r.buf, ino', r.dev)
          | err e ↦ (err e, r.pos, r.buf, ino', r.dev)
        ])

-- The variables of the loop in `naive_file_write`, with the inode, the super block and the device.
pub record Writing : Type 0 where
  pub pos : ℕ
  pub len : ℕ
  pub bytes_written : ℕ
  pub file_size : ℕ
  pub size : ℕ
  pub disk : DiskInode
  pub sbi : SbInfo
  pub dev : Device

-- The pointer of block `i` is set, or cleared, and the block counted.
unfoldable pub set_pointer : DiskInode → ℕ → ℕ → DiskInode
set_pointer disk i b = record disk {
  i_block = update disk.i_block i b;
  i_blocks = disk.i_blocks + 1;
}

unfoldable pub drop_pointer : DiskInode → ℕ → DiskInode
drop_pointer disk i = record disk {
  i_block = update disk.i_block i 0;
  i_blocks = disk.i_blocks - 1;
}

-- The block for the position: the one in place, or a new one; `none` when there is no free block.
-- The Boolean is `new_block_needed`.
pub map_block : Writing → Option (Bool × Writing)
unfolding find_free_block set_pointer
map_block w =
    let i = w.pos / block_size in
    if w.disk.i_block i == 0
    then (let (o, sbi') = find_free_block w.sbi in
        elim o [
          | none ↦ none
          | some b ↦ some (true, record w { disk = set_pointer w.disk i b; sbi = sbi' })
        ])
    else some (false, w)

-- A failed `sb_bread`: a block that was just allocated is given back.
pub unmap_block : Bool → Writing → Writing
unfolding drop_pointer clear_bit
unmap_block true w =
    let i = w.pos / block_size in
    record w {
      disk = drop_pointer w.disk i;
      sbi = record w.sbi { block_bitmap = clear_bit w.sbi.block_bitmap (w.disk.i_block i) };
    }
unmap_block false w = w

-- One copy from the user into block `b`, and what follows in the round; a fault ends the loop, and
-- `copy_from_user` fills what it could not copy with zeros.
pub write_step : Kernel → Mem → Writing → Result (Unit {0}) × Writing
unfolding memcpy memset brelse take_buffer write_buffer mark_buffer_dirty
write_step k buf w =
    let b = w.disk.i_block (w.pos / block_size) in
    let offset = w.pos % block_size in
    let n = write_chunk w.len offset in
    let c = k.copied w.bytes_written n in
    let block = memcpy (w.dev.blocks b) offset (λ i. buf (w.bytes_written + i)) c in
    let dev = write_buffer b block (take_buffer w.dev) in
    let grown = ltb w.file_size (w.pos + n) in
    if c == n
    then (
      ok tt,
      record w {
        pos = w.pos + n;
        len = w.len - n;
        bytes_written = w.bytes_written + n;
        file_size = if grown then w.pos + n else w.file_size;
        size = if grown then w.pos + n else w.size;
        disk = record w.disk { i_size = if grown then w.pos + n else w.disk.i_size };
        dev = brelse (mark_buffer_dirty b dev);
      },
    )
    else (
      err efault,
      record w {
        dev = brelse (write_buffer b (memset block (offset + c) 0 (n - c)) (take_buffer w.dev));
      },
    )

-- `while (len > 0)` with fuel; a `break` that keeps the count is `ok`.
pub write_loop : Kernel → Mem → ℕ → Writing → Result (Unit {0}) × Writing
unfolding map_block unmap_block write_step
write_loop k buf zero w = (ok tt, w)
write_loop k buf (suc fuel) w =
    let next = write_loop k buf fuel in
    if w.len == 0
    then (ok tt, w)
    else if leb direct_blocks (w.pos / block_size)
    then (ok tt, w)
    else elim (map_block w) [
      | none ↦ (ok tt, w)
      | some (fresh, w1) ↦
          if k.readable (w1.disk.i_block (w1.pos / block_size))
          then (let (s, w2) = write_step k buf w1 in
              elim s [ ok _ ↦ next w2 | err e ↦ (err e, w2) ])
          else (ok tt, unmap_block fresh w1)
    ]

abbrev pub start_write : Inode → SbInfo → ℕ → ℕ → Device → Writing
start_write ino sbi len pos d = record {
  pos = pos;
  len = len;
  bytes_written = 0;
  file_size = ino.disk.i_size;
  size = ino.size;
  disk = ino.disk;
  sbi = sbi;
  dev = d;
}

-- `naive_file_write`: the count or the error, the new position, the inode, the super block and the
-- device. The loop takes at most one round for each byte.
unfoldable pub file_write :
    Kernel → Inode → SbInfo → ℕ → ℕ → Mem → Device → Result ℕ × ℕ × Inode × SbInfo × Device
unfolding write_loop
file_write k ino sbi len pos buf d =
    if ltb max_filesize (pos + len)
    then (err efbig, pos, ino, sbi, d)
    else (let (s, w) = write_loop k buf len (start_write ino sbi len pos d) in
        let ino' = record ino {
          disk = w.disk;
          size = w.size;
          mtime = k.now;
          ctime = k.now;
          inode_dirty = true;
        } in
        elim s [
          | ok _ ↦ (ok w.bytes_written, w.pos, ino', w.sbi, w.dev)
          | err e ↦ (err e, w.pos, ino', w.sbi, w.dev)
        ])
