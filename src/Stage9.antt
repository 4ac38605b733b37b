-- ===== src/Stage9.antt =====
-- `naive_is_empty_dir` and `naive_rmdir` of naive/naivefs-9-10/naivefs_dir.c, on the structures of
-- naive/, which that stage shares.
pub mod Agree
pub mod Same
mod Tests
use filesystem_lab.Base.{
  ℕ, zero, suc, ◌+◌, Bool, true, false, Result, ok, err, eio, enotdir, enotempty, if◌then◌else◌,
  ◌==◌,
}
use filesystem_lab.Base.Bytes.{Mem}
use filesystem_lab.Device.{Device, take_buffer, brelse}
use filesystem_lab.Naive.Layout.{SbInfo, dir_records_per_block}
use filesystem_lab.Naive.Kernel.{Inode, Kernel, is_dir}
use filesystem_lab.Naive.Entries.{Name, record_ino}
use filesystem_lab.Naive.Namespace.{remove_dir}

-- The loop over the records of a block, with `n` left from record `j`: how many are in use.
unfoldable pub count_records : Mem → ℕ → ℕ → ℕ
unfolding record_ino
count_records m zero j = 0
count_records m (suc n) j =
    let rest = count_records m n (j + 1) in if record_ino m j == 0 then rest else 1 + rest

-- The loop over the blocks, with `n` pointers left from pointer `i` and the count so far.
unfoldable pub count_scan : Kernel → (ℕ → ℕ) → ℕ → ℕ → ℕ → Device → Result ℕ × Device
unfolding count_records take_buffer brelse
count_scan k p zero i count d = (ok count, d)
count_scan k p (suc n) i count d =
    let rest = count_scan k p n (i + 1) in
    if p i == 0
    then rest count d
    else if k.readable (p i)
    then rest (count + count_records (d.blocks (p i)) dir_records_per_block 0)
        (brelse (take_buffer d))
    else (err eio, d)

-- `naive_is_empty_dir`: whether two records are in use, or -EIO.
unfoldable pub is_empty_dir : Kernel → Inode → Device → Result Bool × Device
unfolding count_scan
is_empty_dir k dir d =
    let (r, d') = count_scan k dir.block_pointers dir.block_count 0 0 d in
    elim r [ ok count ↦ (ok (count == 2), d') | err e ↦ (err e, d') ]

-- `naive_rmdir`; what follows the removal of the entry is as in naive/naivefs_dir.c.
unfoldable pub rmdir :
    Kernel
    → Name
    → SbInfo
    → Inode
    → Inode
    → Device
    → Result (Unit {0}) × SbInfo × Inode × Inode × Device
unfolding is_empty_dir remove_dir
rmdir k s sbi dir ino d =
    if is_dir ino.i_mode
    then (let (r, d1) = is_empty_dir k ino d in
        elim r [
          | err e ↦ (err e, sbi, dir, ino, d1)
          | ok empty ↦
              let removed = remove_dir k s sbi dir ino d1 in
              if empty then removed else (err enotempty, sbi, dir, ino, d1)
        ])
    else (err enotdir, sbi, dir, ino, d)
