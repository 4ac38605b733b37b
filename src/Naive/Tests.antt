-- ===== src/Naive/Tests.antt =====
-- A small file system of naive/ on which the operations are run.
mod Calls
mod Mount
mod Full
mod Session
mod Volume
mod Files
mod Directories
use filesystem_lab.Base.{
  ℕ, ◌*◌, zero, suc, ◌-◌, ◌/◌, ◌%◌, ◌<◌, ◌≡◌, ◌≢◌, ◌↔◌, ◌⊎◌, ◌∙◌, refl, sym, true, false, Option,
  none, some, arith, inl, inr, Bool-cases, ◌==◌, ==→eq, Result, ok, err, Errno, eio, enospc, List,
  [], ◌∷◌, if◌then◌else◌, ltb,
}
use filesystem_lab.Base.Bytes.{Mem, load32}
use filesystem_lab.Base.Bits.{bit, byte_test, IsBytes}
use filesystem_lab.Device.{Device}
use filesystem_lab.Naive.Layout.{SbInfo, IsValid, magic_number}
use filesystem_lab.Naive.Kernel.{
  Inode, Kernel, Iget, fresh, no_memory, blank_inode, dir_ops, file_ops, is_dir, Owner,
}
use filesystem_lab.Naive.Alloc.{alloc_block, free_block, find_free_inode}
use filesystem_lab.Naive.Alloc.Lowest.{AllSet}
use filesystem_lab.Naive.Alloc.Blocks.{alloc_block_full, free_block-alloc_block}
use filesystem_lab.Naive.Entries.{
  Name, write_record, matches, record_ino, find_record, add_entry, remove_entry, lookup,
}
use filesystem_lab.Naive.Entries.Record.{IsName, matches-write_record_ne}
use filesystem_lab.Naive.Entries.Find.{entry_of, find_entry, block_entry}
use filesystem_lab.Naive.Entries.Lookup.{LookupAnswer, lookup_finds}
use filesystem_lab.Naive.Entries.Grow.{IsDir}
use filesystem_lab.Naive.Session.{IsFileName}
use filesystem_lab.Naive.Entries.Add.{Added, add_entry_adds}
use filesystem_lab.Naive.Entries.Remove.{Unique, RemoveAnswer, remove_entry_removes}

-- A device with every byte 0, and a kernel that never fails.
abbrev pub zeros : Mem
zeros _ = 0

abbrev pub device : Device
device = record { blocks = λ _. zeros; dirty = λ _. false; got = 0; released = 0 }

abbrev pub kernel : Kernel
kernel = record {
  readable = λ _. true;
  allocates = λ _. true;
  iget_locked = λ _. fresh;
  init_owner = λ dir mode. record { mode = mode; uid = 7; gid = 7 };
  makes_root = true;
  now = record { tv_sec = 1000; tv_nsec = 5 };
  copied = λ _ n. n;
}

-- 64 blocks, of which 0 to 20 are in use, and 16 inodes, of which the root is in use.
abbrev used_blocks : Mem
used_blocks i = if ltb i 2 then 255 else if i == 2 then 31 else 0

abbrev used_inodes : Mem
used_inodes i = if i == 0 then 1 else 0

abbrev pub super : SbInfo
super = record {
  inode_total = 16;
  block_total = 64;
  inode_table_block_no = 4;
  data_block_no = 20;
  block_bitmap = used_blocks;
  inode_bitmap = used_inodes;
  block_bitmap_blocks = 1;
  inode_bitmap_blocks = 1;
}

pub super-IsValid : IsValid super
super-IsValid = record {
  after_bitmaps = omega arith;
  table_fits = omega arith;
  data_fits = omega arith;
  block_bits = omega arith;
  inode_bits = omega arith;
  block_bytes = λ i. ground arith;
  inode_bytes = λ i. ground arith;
}

-- The root directory, whose one block is block 20.
abbrev root_pointers : ℕ → ℕ
root_pointers l = if l == 0 then 20 else 0

abbrev pub root : Inode
root = record blank_inode {
  i_ino = 1;
  i_mode = 16877;
  i_size = 512;
  i_nlink = 2;
  ops = dir_ops;
  block_count = 1;
  block_pointers = root_pointers;
}

pub root-IsDir : IsDir super root
unfolding bit byte_test
root-IsDir = record {
  counted = omega arith;
  is_present = λ l lt. ground arith;
  no_more = λ l le. ground arith;
  in_use = λ l lt. let first : l ≡ 0 = omega arith in rw first refl;
}

-- The name `a`, and the device on which it is the one entry of the root directory.
abbrev pub name_a : Name
name_a = 97 ∷ []

pub name_a-IsName : IsName name_a
name_a-IsName = record { no_nul = (omega arith, tt); fits = omega arith }

pub name_a-IsFileName : IsFileName name_a
name_a-IsFileName = record { is_name = name_a-IsName; not_dot = λ e. cc e; not_dotdot = λ e. cc e }

abbrev pub device_a : Device
device_a = record device { blocks = λ _. write_record zeros 0 5 name_a }

zeros_match : (l : ℕ) → matches name_a zeros l ≡ false
unfolding matches record_ino load32
zeros_match l = refl

only_slot : (l : ℕ) → matches name_a (write_record zeros 0 5 name_a) l ≡ true → 0 ≡ l
only_slot l h = elim (Bool-cases (0 == l)) [
  | inl e ↦ ==→eq _ _ e
  | inr e ↦
      let other : 0 ≢ l = ground arith in
      cc (matches-write_record_ne zeros 0 5 name_a name_a l other, zeros_match l, h)
]

pub device_a-Unique : Unique name_a device_a.blocks root
device_a-Unique l l' j j' lt lt' jt jt' m m' = (ground arith, sym (only_slot j m) ∙ only_slot j' m')

pub next_block : (alloc_block super).0 ≡ ok 21
unfolding alloc_block byte_test
next_block = refl

pub next_inode : find_free_inode super ≡ 2
unfolding find_free_inode byte_test
next_inode = refl

pub no_entry : entry_of kernel.readable name_a device.blocks root ≡ none
unfolding find_entry block_entry find_record matches record_ino load32
no_entry = refl

add_entry_adds_example :
    let (r, _, dir', d') = add_entry kernel name_a 2 super root device in
    (r ≡ ok tt) × Added kernel.readable name_a 2 root device dir' d'
add_entry_adds_example =
    add_entry_adds kernel name_a 2 super root device 21 (λ _. refl) next_block super-IsValid
      root-IsDir (omega arith) name_a-IsName (omega arith) (omega arith) no_entry

remove_entry_removes_example :
    RemoveAnswer kernel name_a root device_a (remove_entry kernel name_a root device_a)
remove_entry_removes_example =
    remove_entry_removes kernel name_a root device_a (λ _. refl) name_a-IsName device_a-Unique

lookup_finds_example :
    LookupAnswer kernel super name_a root device_a (lookup kernel super name_a root device_a).0
lookup_finds_example = lookup_finds kernel super name_a root device_a (omega arith)

alloc_block_full_example :
    (alloc_block super ≡ (err enospc, super))
    ↔ AllSet super.block_bitmap super.data_block_no (super.block_total / 8 * 8)
alloc_block_full_example = alloc_block_full super super-IsValid

free_block-alloc_block_example :
    bit (free_block (alloc_block super).1 21).block_bitmap 21 ≡ bit super.block_bitmap 21
free_block-alloc_block_example = free_block-alloc_block super 21 21 super-IsValid next_block
