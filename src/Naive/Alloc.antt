-- ===== src/Naive/Alloc.antt =====
-- The allocators of naive/naivefs_super.c over the in-memory bitmaps.
pub mod Scan
pub mod Lowest
pub mod Inodes
pub mod Search
pub mod Blocks
use filesystem_lab.Base.{
  ℕ, zero, suc, ◌+◌, ◌-◌, ◌*◌, ◌/◌, ◌%◌, Option, none, some, Result, ok, err, enospc, ltb, leb,
  ◌==◌, if◌then◌else◌,
}
use filesystem_lab.Base.Bytes.{Mem}
use filesystem_lab.Base.Bits.{byte_test, set_bit, clear_bit}
use filesystem_lab.Naive.Layout.{SbInfo, block_size}

-- `for (; j < 8; j++) if (!(byte & (1 << j)))`, with `n` rounds left.
pub clear_bit_from : ℕ → ℕ → ℕ → Option ℕ
clear_bit_from b zero j = none
clear_bit_from b (suc n) j =
    let rest = clear_bit_from b n (j + 1) in if byte_test b j then rest else some j

-- The loop over the bytes of the inode bitmap, with `n` bytes left from byte `i`.
pub find_free_inode_from : Mem → ℕ → ℕ → ℕ → ℕ
unfolding clear_bit_from
find_free_inode_from imap total zero i = 0
find_free_inode_from imap total (suc n) i =
    let rest = find_free_inode_from imap total n (i + 1) in
    if imap i == 255 then rest else elim (clear_bit_from (imap i) 8 0) [
      | none ↦ rest
      | some j ↦ let ino = i * 8 + j + 1 in if ltb total ino then 0 else ino
    ]

-- The number of a free inode, from 1 on, or 0.
unfoldable pub find_free_inode : SbInfo → ℕ
unfolding find_free_inode_from
find_free_inode sbi = find_free_inode_from sbi.inode_bitmap sbi.inode_total (sbi.inode_total / 8) 0

-- The loop over the bytes of the block bitmap, with `n` bytes left from byte `i`; the first byte is
-- entered at `start_bit`.
pub find_block_from : Mem → ℕ → ℕ → ℕ → ℕ → ℕ → Option ℕ
unfolding clear_bit_from
find_block_from bmap total start_byte start_bit zero i = none
find_block_from bmap total start_byte start_bit (suc n) i =
    let rest = find_block_from bmap total start_byte start_bit n (i + 1) in
    let start = if i == start_byte then start_bit else 0 in
    elim (clear_bit_from (bmap i) (8 - start) start) [
      | none ↦ rest
      | some j ↦ let block_no = i * 8 + j in if leb total block_no then none else some block_no
    ]

pub mark_block : SbInfo → ℕ → SbInfo
unfolding set_bit
mark_block sbi b = record sbi { block_bitmap = set_bit sbi.block_bitmap b }

-- The search of `naive_alloc_block` from the first data block on.
pub search_block : SbInfo → Option ℕ
unfolding find_block_from
search_block sbi =
    let start_byte = sbi.data_block_no / 8 in
    let start_bit = sbi.data_block_no % 8 in
    find_block_from sbi.block_bitmap sbi.block_total start_byte start_bit
      (sbi.block_total / 8 - start_byte) start_byte

-- `naive_alloc_block`: the block with the bitmap that has it marked, or -ENOSPC.
unfoldable pub alloc_block : SbInfo → Result ℕ × SbInfo
unfolding search_block mark_block
alloc_block sbi = elim (search_block sbi) [
  | none ↦ (err enospc, sbi)
  | some b ↦ (ok b, mark_block sbi b)
]

-- `naive_free_block`
unfoldable pub free_block : SbInfo → ℕ → SbInfo
unfolding clear_bit
free_block sbi b =
    if ltb (b / 8) (sbi.block_bitmap_blocks * block_size)
    then record sbi { block_bitmap = clear_bit sbi.block_bitmap b }
    else sbi
