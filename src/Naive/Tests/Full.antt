-- ===== src/Naive/Tests/Full.antt =====
-- A directory of naive/ with eight blocks and no free record.
use filesystem_lab.Base.{
  ℕ, ◌+◌, ◌/◌, ◌%◌, ◌<◌, ◌≡◌, ◌≢◌, refl, true, none, arith, ok, if◌then◌else◌, ltb,
}
use filesystem_lab.Base.Bytes.{Mem, load32}
use filesystem_lab.Base.Bits.{bit, byte_test, byte_test_full}
use filesystem_lab.Device.{Device}
use filesystem_lab.Naive.Layout.{SbInfo, IsValid}
use filesystem_lab.Naive.Kernel.{Inode}
use filesystem_lab.Naive.Alloc.{alloc_block}
use filesystem_lab.Naive.Entries.{
  free_record, first_record, record_ino, matches, find_record, add_entry,
}
use filesystem_lab.Naive.Entries.Find.{entry_of, find_entry, block_entry}
use filesystem_lab.Naive.Entries.Grow.{IsDir}
use filesystem_lab.Naive.Entries.Full.{full_directory_loses_entry}
use filesystem_lab.Naive.Tests.{device, kernel, super, root, name_a}

-- Blocks 0 to 31 are in use; the directory has 20 to 27, and every byte of a block is 1.
abbrev busy : Mem
busy i = if ltb i 4 then 255 else 0

abbrev busy_super : SbInfo
busy_super = record super { block_bitmap = busy }

abbrev full_pointers : ℕ → ℕ
full_pointers l = if ltb l 8 then 20 + l else 0

abbrev full_dir : Inode
full_dir = record root { block_count = 8; block_pointers = full_pointers }

abbrev ones : Mem
ones _ = 1

abbrev full_device : Device
full_device = record device { blocks = λ _. ones }

busy_super-IsValid : IsValid busy_super
busy_super-IsValid = record {
  after_bitmaps = omega arith;
  table_fits = omega arith;
  data_fits = omega arith;
  block_bits = omega arith;
  inode_bits = omega arith;
  block_bytes = λ i. ground arith;
  inode_bytes = λ i. ground arith;
}

in_use : (l : ℕ) → l < 8 → bit busy (20 + l) ≡ true
unfolding bit
in_use l lt =
    let inside : ltb ((20 + l) / 8) 4 ≡ true = ground arith in
    rw inside (byte_test_full ((20 + l) % 8) (omega arith))

full_dir-IsDir : IsDir busy_super full_dir
full_dir-IsDir = record {
  counted = omega arith;
  is_present = λ l lt. ground arith;
  no_more = λ l le. ground arith;
  in_use = λ l lt. let there : ltb l 8 ≡ true = ground arith in rw there (in_use l lt);
}

next_block : (alloc_block busy_super).0 ≡ ok 32
unfolding alloc_block byte_test
next_block = refl

no_free : free_record ones ≡ none
unfolding free_record first_record record_ino load32
no_free = refl

no_entry : entry_of kernel.readable name_a full_device.blocks full_dir ≡ none
unfolding find_entry block_entry find_record matches record_ino load32
no_entry = refl

full_directory_loses_entry_example :
    let (r, sbi', dir', d') = add_entry kernel name_a 2 busy_super full_dir full_device in
    (r ≡ ok tt)
    × (entry_of kernel.readable name_a d'.blocks dir' ≡ none)
    × (bit sbi'.block_bitmap 32 ≡ true)
    × ((l : ℕ) → l < 8 → dir'.block_pointers l ≢ 32)
full_directory_loses_entry_example =
    full_directory_loses_entry kernel name_a 2 busy_super full_dir full_device 32 (λ _. refl)
      next_block busy_super-IsValid full_dir-IsDir refl (λ _ _. no_free) no_entry
