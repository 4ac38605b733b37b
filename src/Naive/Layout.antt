-- ===== src/Naive/Layout.antt =====
-- The constants and structures of naive/naivefs.h.
use filesystem_lab.Base.{ℕ, ◌+◌, ◌*◌, ◌≤◌}
use filesystem_lab.Base.Bytes.{Mem}
use filesystem_lab.Base.Bits.{IsBytes}

abbrev pub magic_number : ℕ
magic_number = 0x990717

abbrev pub block_size : ℕ
block_size = 512

abbrev pub max_filename_len : ℕ
max_filename_len = 128

abbrev pub dir_record_size : ℕ
dir_record_size = 132

abbrev pub dir_records_per_block : ℕ
dir_records_per_block = 3

abbrev pub block_per_file : ℕ
block_per_file = 8

abbrev pub max_file_size : ℕ
max_file_size = block_size * block_per_file

-- `struct naive_sb_info` with the fields of the disk super block that it points to.
pub record SbInfo : Type 0 where
  pub inode_total : ℕ
  pub block_total : ℕ
  pub inode_table_block_no : ℕ
  pub data_block_no : ℕ
  pub block_bitmap : Mem
  pub inode_bitmap : Mem
  pub block_bitmap_blocks : ℕ
  pub inode_bitmap_blocks : ℕ

-- What a mounted super block promises: the regions follow one another, and the bitmaps, which are
-- arrays of bytes, have a bit for every block and every inode.
pub record IsValid (sbi : SbInfo) : Type 0 where
  pub after_bitmaps : 4 ≤ sbi.inode_table_block_no
  pub table_fits : sbi.inode_table_block_no + sbi.inode_total ≤ sbi.data_block_no
  pub data_fits : sbi.data_block_no ≤ sbi.block_total
  pub block_bits : sbi.block_total ≤ sbi.block_bitmap_blocks * (8 * block_size)
  pub inode_bits : sbi.inode_total ≤ sbi.inode_bitmap_blocks * (8 * block_size)
  pub block_bytes : IsBytes sbi.block_bitmap
  pub inode_bytes : IsBytes sbi.inode_bitmap
