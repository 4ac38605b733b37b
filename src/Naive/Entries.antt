-- ===== src/Naive/Entries.antt =====
-- Directory entries: `naive_add_entry` and `naive_remove_entry` (naive/naivefs_dir.c) and
-- `naive_lookup` (naive/naivefs_inode.c). A name is the list of its characters, without the NUL.
pub mod Record
pub mod Find
pub mod Slots
pub mod Search
pub mod Grow
pub mod Add
pub mod Clear
pub mod Remove
pub mod Lookup
pub mod Keep
pub mod Full
pub mod Unique
pub mod Slot
pub mod Outcome
pub mod Frame
use filesystem_lab.Base.{
  ℕ, zero, suc, ◌+◌, ◌*◌, Bool, true, false, not, ◌&&◌, Option, none, some, List, Result, ok, err,
  eio, enospc, enoent, if◌then◌else◌, update, ◌==◌,
}
use filesystem_lab.Base.Bytes.{Mem, load32, store32, memset, strncpy, strncmp_eq}
use filesystem_lab.Device.{Device, take_buffer, brelse, write_buffer, mark_buffer_dirty}
use filesystem_lab.Naive.Layout.{
  SbInfo, block_size, max_filename_len, dir_record_size, dir_records_per_block, block_per_file,
}
use filesystem_lab.Naive.Kernel.{Inode, Kernel, mark_inode_dirty}
use filesystem_lab.Naive.Alloc.{alloc_block, free_block}
use filesystem_lab.Naive.Table.{iget}

abbrev pub Name : Type 0
Name = List ℕ

-- Record `j` of a block: its number is the aligned word `33 * j`, its name starts 4 bytes later.
unfoldable pub record_ino : Mem → ℕ → ℕ
record_ino m j = load32 m (33 * j)

abbrev pub filename_at : ℕ → ℕ
filename_at j = j * dir_record_size + 4

-- The number, the name by `strncpy`, and the NUL forced into its last byte.
pub write_record : Mem → ℕ → ℕ → Name → Mem
unfolding strncpy
write_record m j ino name =
    update (strncpy (store32 m (33 * j) ino) (filename_at j) name max_filename_len)
      (filename_at j + 127) 0

-- `record->i_ino = 0; memset(record->filename, 0, ...)`
pub clear_record : Mem → ℕ → Mem
unfolding memset
clear_record m j = memset (store32 m (33 * j) 0) (filename_at j) 0 max_filename_len

-- The test of the scans for a name.
unfoldable pub matches : Name → Mem → ℕ → Bool
unfolding record_ino strncmp_eq
matches name m j = not (record_ino m j == 0) && strncmp_eq m (filename_at j) name max_filename_len

-- `for (; j < NAIVE_DIR_RECORDS_PER_BLOCK; j++)` up to the first record that passes, `n` left.
unfoldable pub first_record : (ℕ → Bool) → ℕ → ℕ → Option ℕ
first_record test zero j = none
first_record test (suc n) j =
    let rest = first_record test n (j + 1) in if test j then some j else rest

unfoldable pub free_record : Mem → Option ℕ
unfolding first_record record_ino
free_record m = first_record (λ j. record_ino m j == 0) dir_records_per_block 0

unfoldable pub find_record : Name → Mem → Option ℕ
unfolding first_record matches
find_record name m = first_record (matches name m) dir_records_per_block 0

-- How the scan of `naive_add_entry` over the blocks ended.
pub data Scan : Type 0 where
  io_error found exhausted : Scan

-- The scan, with `n` pointers left from pointer `i`. The buffer in which a free record is found is
-- released in the inner loop and again after it.
pub add_scan : Kernel → Name → ℕ → (ℕ → ℕ) → ℕ → ℕ → Device → Scan × Device
unfolding free_record write_record take_buffer brelse write_buffer mark_buffer_dirty
add_scan k name ino p zero i d = (exhausted, d)
add_scan k name ino p (suc n) i d =
    let rest = add_scan k name ino p n (i + 1) in
    if p i == 0
    then rest d
    else if k.readable (p i)
    then elim (free_record (d.blocks (p i))) [
      | none ↦ rest (brelse (take_buffer d))
      | some j ↦
          let m = write_record (d.blocks (p i)) j ino name in
          (found, brelse (brelse (mark_buffer_dirty (p i) (write_buffer (p i) m (take_buffer d)))))
    ]
    else (io_error, d)

-- The new block goes into the first of the 8 pointers that is 0, if there is one; `n` left.
pub put_pointer : ℕ → ℕ → ℕ → Inode → Inode
put_pointer zero i b dir = dir
put_pointer (suc n) i b dir =
    let rest = put_pointer n (i + 1) b dir in
    if dir.block_pointers i == 0
    then record dir {
      block_pointers = update dir.block_pointers i b;
      block_count = dir.block_count + 1;
    }
    else rest

-- A block of zeros with the entry as its first record.
pub new_dir_block : Mem → ℕ → Name → Mem
unfolding write_record memset
new_dir_block m ino name = write_record (memset m 0 0 block_size) 0 ino name

-- The part of `naive_add_entry` for a directory with no free record.
unfoldable pub grow_dir :
    Kernel → Name → ℕ → SbInfo → Inode → Device → Result (Unit {0}) × SbInfo × Inode × Device
unfolding alloc_block free_block put_pointer new_dir_block take_buffer brelse write_buffer
    mark_buffer_dirty mark_inode_dirty
grow_dir k name ino sbi dir d =
    let (r, sbi1) = alloc_block sbi in
    elim r [
      | err _ ↦ (err enospc, sbi1, dir, d)
      | ok b ↦
          let dir1 = put_pointer block_per_file 0 b dir in
          if k.readable b
          then (
            ok tt,
            sbi1,
            mark_inode_dirty (record dir1 { i_size = dir1.i_size + block_size }),
            brelse (
                mark_buffer_dirty b
                  (write_buffer b (new_dir_block (d.blocks b) ino name) (take_buffer d))),
          )
          else (err eio, free_block sbi1 b, dir1, d)
    ]

unfoldable pub add_entry :
    Kernel → Name → ℕ → SbInfo → Inode → Device → Result (Unit {0}) × SbInfo × Inode × Device
unfolding add_scan grow_dir
add_entry k name ino sbi dir d =
    let (s, d1) = add_scan k name ino dir.block_pointers dir.block_count 0 d in
    elim s [
      | io_error ↦ (err eio, sbi, dir, d1)
      | found ↦ (ok tt, sbi, dir, d1)
      | exhausted ↦ grow_dir k name ino sbi dir d1
    ]

-- `naive_remove_entry`, with `n` pointers left from pointer `i`.
unfoldable pub remove_scan : Kernel → Name → (ℕ → ℕ) → ℕ → ℕ → Device → Result (Unit {0}) × Device
unfolding find_record clear_record take_buffer brelse write_buffer mark_buffer_dirty
remove_scan k name p zero i d = (err enoent, d)
remove_scan k name p (suc n) i d =
    let rest = remove_scan k name p n (i + 1) in
    if p i == 0
    then rest d
    else if k.readable (p i)
    then elim (find_record name (d.blocks (p i))) [
      | none ↦ rest (brelse (take_buffer d))
      | some j ↦
          let m = clear_record (d.blocks (p i)) j in
          (ok tt, brelse (mark_buffer_dirty (p i) (write_buffer (p i) m (take_buffer d))))
    ]
    else (err eio, d)

unfoldable pub remove_entry : Kernel → Name → Inode → Device → Result (Unit {0}) × Device
unfolding remove_scan
remove_entry k name dir d = remove_scan k name dir.block_pointers dir.block_count 0 d

-- `naive_lookup`, with `n` pointers left from pointer `i`: NULL, or what `naive_iget` returned for
-- the number of the first record with the name. A block that cannot be read is passed over.
pub lookup_scan : Kernel → SbInfo → Name → (ℕ → ℕ) → ℕ → ℕ → Device → Option (Result Inode) × Device
unfolding find_record record_ino take_buffer brelse iget
lookup_scan k sbi name p zero i d = (none, d)
lookup_scan k sbi name p (suc n) i d =
    let rest = lookup_scan k sbi name p n (i + 1) in
    if p i == 0
    then rest d
    else if k.readable (p i)
    then elim (find_record name (d.blocks (p i))) [
      | none ↦ rest (brelse (take_buffer d))
      | some j ↦
          let (r, e) = iget k sbi (record_ino (d.blocks (p i)) j) (take_buffer d) in
          (some r, brelse e)
    ]
    else rest d

unfoldable pub lookup : Kernel → SbInfo → Name → Inode → Device → Option (Result Inode) × Device
unfolding lookup_scan
lookup k sbi name dir d = lookup_scan k sbi name dir.block_pointers dir.block_count 0 d
