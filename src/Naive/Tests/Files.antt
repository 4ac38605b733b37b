-- ===== src/Naive/Tests/Files.antt =====
-- Reads and writes of naive/ on a file of 300 bytes whose one block is block 20.
use filesystem_lab.Base.{◌<◌, ◌≤◌, true, ℕ, ◌≡◌, refl, arith, if◌then◌else◌, ltb, ◌==◌}
use filesystem_lab.Base.Bytes.{Mem}
use filesystem_lab.Base.Bits.{bit, byte_test}
use filesystem_lab.Naive.Layout.{SbInfo, IsValid}
use filesystem_lab.Naive.Files.Others.{Untouched, file_write-Untouched}
use filesystem_lab.Naive.Kernel.{Inode, blank_inode, file_ops}
use filesystem_lab.Naive.Files.{Reading, read_loop, write_loop, file_write}
use filesystem_lab.Naive.Files.Enough.{file_loops_end}
use filesystem_lab.Naive.Files.Owned.{Owned}
use filesystem_lab.Naive.Files.RoundTrip.{
  WriteAnswer, ReadsBack, file_write_bytes, file_read-file_write_bytes,
}
use filesystem_lab.Naive.Tests.{zeros, device, kernel, super, super-IsValid}

abbrev file : Inode
file = record blank_inode {
  i_ino = 2;
  i_mode = 33188;
  i_size = 300;
  i_nlink = 1;
  ops = file_ops;
  block_count = 1;
  block_pointers = λ i. if i == 0 then 20 else 0;
}

file-Owned : Owned super file
unfolding bit byte_test
file-Owned = record {
  valid = super-IsValid;
  bounded = omega arith;
  covers = omega arith;
  in_data = λ i lt. ground arith;
  in_device = λ i lt. ground arith;
  no_more = λ i le. ground arith;
  in_use = λ i lt. let first : i ≡ 0 = omega arith in rw first refl;
  apart = λ i j li lj e. omega arith;
}

abbrev text : Mem
text i = i

file_write_bytes_example :
    WriteAnswer super file 700 100 text device (file_write kernel file super 700 100 text device)
file_write_bytes_example =
    file_write_bytes kernel (λ _ _. refl) (λ _. refl) file super 700 100 text device file-Owned
      (omega arith)

file_read-file_write_bytes_example :
    ReadsBack kernel 700 100 text zeros (file_write kernel file super 700 100 text device)
file_read-file_write_bytes_example =
    file_read-file_write_bytes kernel (λ _ _. refl) (λ _. refl) file super 700 100 text zeros device
      file-Owned (omega arith)

-- A super block with blocks 0 to 23 in use.
abbrev wider : SbInfo
wider = record super { block_bitmap = λ i. if ltb i 3 then 255 else 0 }

wider-IsValid : IsValid wider
wider-IsValid = record {
  after_bitmaps = omega arith;
  table_fits = omega arith;
  data_fits = omega arith;
  block_bits = omega arith;
  inode_bits = omega arith;
  block_bytes = λ i. ground arith;
  inode_bytes = super-IsValid.inode_bytes;
}

-- A file whose one block is `b`.
abbrev file_at : ℕ → Inode
file_at b = record blank_inode {
  i_ino = 3;
  i_mode = 33188;
  i_size = 300;
  block_count = 1;
  block_pointers = λ i. if i == 0 then b else 0;
}

file_at-Owned :
    (b : ℕ) → 20 ≤ b → b < 64 → bit wider.block_bitmap b ≡ true → Owned wider (file_at b)
file_at-Owned b lo hi used = record {
  valid = wider-IsValid;
  bounded = omega arith;
  covers = omega arith;
  in_data = λ i lt. ground arith;
  in_device = λ i lt. ground arith;
  no_more = λ i le. ground arith;
  in_use = λ i lt. let first : i ≡ 0 = omega arith in rw first used;
  apart = λ i j li lj e. omega arith;
}

used_20 : bit wider.block_bitmap 20 ≡ true
unfolding bit byte_test
used_20 = refl

used_23 : bit wider.block_bitmap 23 ≡ true
unfolding bit byte_test
used_23 = refl

file_write-Untouched_example :
    Untouched (file_at 23) device (file_write kernel (file_at 20) wider 700 100 text device)
file_write-Untouched_example =
    file_write-Untouched kernel (file_at 20) (file_at 23) wider 700 100 text device (λ _ _. refl)
      (λ _. refl) (file_at-Owned 20 (omega arith) (omega arith) used_20)
      (file_at-Owned 23 (omega arith) (omega arith) used_23) (λ j lj i li. ground arith)
      (omega arith)

-- A read of 700 bytes from the start of the file, which has one block.
abbrev reading : Reading
reading = record { pos = 0; remaining = 700; ret = 0; buf = zeros; dev = device }

file_loops_end_example :
    (read_loop kernel file 1000 reading ≡ read_loop kernel file 700 reading)
    × (write_loop kernel file 1000 reading ≡ write_loop kernel file 700 reading)
file_loops_end_example = file_loops_end kernel file 1000 reading (omega arith)
