-- ===== src/Naive/Files.antt =====
-- `naive_file_read` and `naive_file_write` of naive/naivefs_file.c.
pub mod Reserve
pub mod Owned
pub mod Spread
pub mod Others
pub mod Enough
pub mod Read
pub mod Write
pub mod RoundTrip
use filesystem_lab.Base.{
  ℕ, zero, suc, ◌+◌, ◌-◌, ◌*◌, ◌/◌, ◌%◌, min, Bool, true, false, ◌||◌, Option, Result, ok, err, eio,
  enospc, efbig, efault, if◌then◌else◌, update, ◌==◌, ltb, leb,
}
use filesystem_lab.Base.Bytes.{Mem, memcpy, memset}
use filesystem_lab.Device.{Device, take_buffer, brelse, write_buffer, mark_buffer_dirty}
use filesystem_lab.Naive.Layout.{SbInfo, block_size, block_per_file, max_file_size}
use filesystem_lab.Naive.Kernel.{Inode, Kernel, mark_inode_dirty}
use filesystem_lab.Naive.Alloc.{alloc_block, free_block}

-- The variables of a loop: the position, which is the caller's, the bytes that remain, the count
-- so far, the memory that the copies change, and the device.
pub record Reading : Type 0 where
  pub pos : ℕ
  pub remaining : ℕ
  pub ret : ℕ
  pub buf : Mem
  pub dev : Device

-- `to_copy`
abbrev pub chunk : ℕ → ℕ → ℕ
chunk remaining offset = min remaining (block_size - offset)

-- One copy to the user from block `b`; a fault ends the loop.
pub read_step : Kernel → ℕ → Reading → Result (Unit {0}) × Reading
unfolding memcpy brelse take_buffer
read_step k b r =
    let offset = r.pos % block_size in
    let n = chunk r.remaining offset in
    let c = k.copied r.ret n in
    let buf = memcpy r.buf r.ret (λ i. r.dev.blocks b (offset + i)) c in
    let dev = brelse (take_buffer r.dev) in
    if c == n
    then (
      ok tt,
      record r {
        pos = r.pos + n;
        remaining = r.remaining - n;
        ret = r.ret + n;
        buf = buf;
        dev = dev;
      },
    )
    else (err efault, record r { buf = buf; dev = dev })

-- `while (remaining > 0)` with fuel.
pub read_loop : Kernel → Inode → ℕ → Reading → Result (Unit {0}) × Reading
unfolding read_step
read_loop k ino zero r = (ok tt, r)
read_loop k ino (suc fuel) r =
    let i = r.pos / block_size in
    let b = ino.block_pointers i in
    let (s, r') = read_step k b r in
    let rest = read_loop k ino fuel r' in
    if r.remaining == 0
    then (ok tt, r)
    else if leb ino.block_count i || b == 0
    then (ok tt, r)
    else if k.readable b
    then elim s [ ok _ ↦ rest | err e ↦ (err e, r') ]
    else (err eio, r)

-- `naive_file_read`: the count or the error, the position, the user's buffer and the device.
unfoldable pub file_read : Kernel → Inode → ℕ → ℕ → Mem → Device → Result ℕ × ℕ × Mem × Device
unfolding read_loop
file_read k ino len pos buf d =
    if leb ino.i_size pos
    then (ok 0, pos, buf, d)
    else (let n = min len (ino.i_size - pos) in
        let (s, r) =
          read_loop k ino n (record { pos = pos; remaining = n; ret = 0; buf = buf; dev = d }) in
        elim s [ ok _ ↦ (ok r.ret, r.pos, r.buf, r.dev) | err e ↦ (err e, r.pos, r.buf, r.dev) ])

-- The loop that allocates blocks, with `n` rounds left.
pub reserve : ℕ → SbInfo → Inode → Result (Unit {0}) × SbInfo × Inode
unfolding alloc_block free_block
reserve zero sbi ino = (ok tt, sbi, ino)
reserve (suc n) sbi ino =
    let (r, sbi') = alloc_block sbi in
    elim r [
      | err _ ↦ (err enospc, sbi', ino)
      | ok b ↦
          let rest = reserve n sbi' (record ino {
            block_pointers = update ino.block_pointers ino.block_count b;
            block_count = ino.block_count + 1;
          }) in
          if ltb ino.block_count block_per_file then rest else (err enospc, free_block sbi' b, ino)
    ]

-- `needed_blocks`, when the write goes beyond the end of the file.
abbrev pub needed_blocks : ℕ → ℕ → ℕ
needed_blocks end size = (end + block_size - 1) / block_size - size / block_size

pub reserve_to : ℕ → SbInfo → Inode → Result (Unit {0}) × SbInfo × Inode
unfolding reserve
reserve_to end sbi ino =
    if ltb ino.i_size end then reserve (needed_blocks end ino.i_size) sbi ino else (ok tt, sbi, ino)

-- One copy from the user into block `b`; here `buf` is the user's and stays. At a fault
-- `copy_from_user` fills what it could not copy with zeros.
pub write_step : Kernel → ℕ → Reading → Result (Unit {0}) × Reading
unfolding memcpy memset brelse take_buffer write_buffer mark_buffer_dirty
write_step k b r =
    let offset = r.pos % block_size in
    let n = chunk r.remaining offset in
    let c = k.copied r.ret n in
    let block = memcpy (r.dev.blocks b) offset (λ i. r.buf (r.ret + i)) c in
    let dev = write_buffer b block (take_buffer r.dev) in
    if c == n
    then (
      ok tt,
      record r {
        pos = r.pos + n;
        remaining = r.remaining - n;
        ret = r.ret + n;
        dev = brelse (mark_buffer_dirty b dev);
      },
    )
    else (
      err efault,
      record r {
        dev = brelse (write_buffer b (memset block (offset + c) 0 (n - c)) (take_buffer r.dev));
      },
    )

pub write_loop : Kernel → Inode → ℕ → Reading → Result (Unit {0}) × Reading
unfolding write_step
write_loop k ino zero r = (ok tt, r)
write_loop k ino (suc fuel) r =
    let i = r.pos / block_size in
    let b = ino.block_pointers i in
    let (s, r') = write_step k b r in
    let rest = write_loop k ino fuel r' in
    if r.remaining == 0
    then (ok tt, r)
    else if leb ino.block_count i
    then (err enospc, r)
    else if k.readable b
    then elim s [ ok _ ↦ rest | err e ↦ (err e, r') ]
    else (err eio, r)

-- The size and the times after the loop.
pub finish_write : Kernel → ℕ → Inode → Inode
unfolding mark_inode_dirty
finish_write k pos ino =
    let grown =
      if ltb ino.i_size pos then mark_inode_dirty (record ino { i_size = pos }) else ino in
    record grown { i_mtime = k.now; i_ctime = k.now }

-- `naive_file_write`: the count or the error, the position, the inode, the super block, the device.
unfoldable pub file_write :
    Kernel → Inode → SbInfo → ℕ → ℕ → Mem → Device → Result ℕ × ℕ × Inode × SbInfo × Device
unfolding reserve_to write_loop finish_write
file_write k ino sbi len pos buf d =
    if ltb max_file_size (pos + len)
    then (err efbig, pos, ino, sbi, d)
    else (let (q, sbi', ino') = reserve_to (pos + len) sbi ino in
        let (s, r) =
          write_loop k ino' len
            (record { pos = pos; remaining = len; ret = 0; buf = buf; dev = d }) in
        elim q [
          | err e ↦ (err e, pos, ino', sbi', d)
          | ok _ ↦ elim s [
            | ok _ ↦ (ok r.ret, r.pos, finish_write k r.pos ino', sbi', r.dev)
            | err e ↦ (err e, r.pos, finish_write k r.pos ino', sbi', r.dev)
          ]
        ])
