-- ===== src/Naive/Files/Others.antt =====
-- Two files of naive/: what a write to one (naive/naivefs_file.c) does to the other.
use filesystem_lab.Base.{ℕ, ◌+◌, ◌/◌, ◌%◌, ◌≤◌, ◌<◌, ◌≡◌, ap, true, arith, Result, ok, err}
use filesystem_lab.Base.Bytes.{Mem}
use filesystem_lab.Device.{Device}
use filesystem_lab.Naive.Layout.{SbInfo, IsValid}
use filesystem_lab.Naive.Kernel.{Inode, Kernel}
use filesystem_lab.Naive.Files.{file_write}
use filesystem_lab.Naive.Files.Owned.{Owned, content}
use filesystem_lab.Naive.Files.Spread.{Foreign, Spread}
use filesystem_lab.Naive.Files.Read.{Copies}
use filesystem_lab.Naive.Files.RoundTrip.{WriteAnswer, file_write_bytes}

-- No block belongs to both files.
abbrev pub Apart : Inode → Inode → Type 0
Apart ino other = (j : ℕ) → j < other.block_count → Foreign ino (other.block_pointers j)

-- A file whose blocks are in order and apart from those that were written stays as it was.
abbrev pub Untouched : Inode → Device → Result ℕ × ℕ × Inode × SbInfo × Device → Type 0
Untouched other d (_, _, ino', sbi', d') =
    Owned sbi' ino'
    × Owned sbi' other
    × Apart ino' other
    × ((x : ℕ) → x / 512 < other.block_count → content other d'.blocks x ≡ content other d.blocks x)

pub Owned-Spread :
    (sbi : SbInfo) (ino : Inode) (sbi' : SbInfo) (ino' other : Inode)
    → IsValid sbi'
    → Spread sbi ino sbi' ino'
    → Owned sbi other
    → Owned sbi' other
Owned-Spread sbi ino sbi' ino' other v s o = record {
  valid = v;
  bounded = o.bounded;
  covers = o.covers;
  in_data = λ i lt. omega (arith, o.in_data i lt, ap (λ z. z.data_block_no) s.same_rest);
  in_device = λ i lt. omega (arith, o.in_device i lt, ap (λ z. z.block_total) s.same_rest);
  no_more = o.no_more;
  in_use = λ i lt. s.still_used (other.block_pointers i) (o.in_use i lt);
  apart = o.apart;
}

pub Apart-Spread :
    (sbi : SbInfo) (ino : Inode) (sbi' : SbInfo) (ino' other : Inode)
    → Spread sbi ino sbi' ino'
    → Owned sbi other
    → Apart ino other
    → Apart ino' other
Apart-Spread sbi ino sbi' ino' other s o apart j lt =
    s.still_foreign (other.block_pointers j) (o.in_use j lt) (apart j lt)

-- A write within 8 blocks to one of two files whose blocks are in order and which share no block, with
-- every block readable and no fault in the user's buffer, whether it writes its bytes or finds the
-- device full: afterwards the blocks of both files are in order, they share no block, and every byte
-- in a block of the other file is as before.
pub file_write-Untouched :
    (k : Kernel) (ino other : Inode) (sbi : SbInfo) (len pos : ℕ) (buf : Mem) (d : Device)
    → Copies k
    → ((b : ℕ) → k.readable b ≡ true)
    → Owned sbi ino
    → Owned sbi other
    → Apart ino other
    → pos + len ≤ 4096
    → Untouched other d (file_write k ino sbi len pos buf d)
file_write-Untouched k ino other sbi len pos buf d all reads a o apart limit =
    go (file_write k ino sbi len pos buf d)
      (file_write_bytes k all reads ino sbi len pos buf d a limit)
  where
    go :
        (r : Result ℕ × ℕ × Inode × SbInfo × Device)
        → WriteAnswer sbi ino len pos buf d r
        → Untouched other d r
    go (ok n, pos', ino', sbi', d') (_, _, owned, spread, w) =
        let apart' = Apart-Spread sbi ino sbi' ino' other spread o apart in
        (
          owned,
          Owned-Spread sbi ino sbi' ino' other owned.valid spread o,
          apart',
          λ x lt.
              ap (λ m. m (x % 512))
                (w.others (other.block_pointers (x / 512)) (apart' (x / 512) lt)),
        )
    go (err e, pos', ino', sbi', d') (_, _, owned, spread, _, _, same) = (
      owned,
      Owned-Spread sbi ino sbi' ino' other owned.valid spread o,
      Apart-Spread sbi ino sbi' ino' other spread o apart,
      λ x lt. ap (λ e. content other e.blocks x) same,
    )
