-- ===== src/Stage8/Tests.antt =====
-- A small file of naive/naivefs-8/naivefs.c on which the reads and writes are run.
use filesystem_lab.Base.{
  ℕ, ◌≡◌, refl, true, false, arith, if◌then◌else◌, ◌+◌, ◌-◌, ltb, ok, some, ◌==◌,
}
use filesystem_lab.Base.Bytes.{load32, Mem}
use filesystem_lab.Base.Bits.{bit, byte_test, byte_shift_test, IsBytes}
use filesystem_lab.Device.{Device}
use filesystem_lab.Stage8.State.{SbInfo, DiskInode, Inode, Kernel}
use filesystem_lab.Stage8.Bitmap.{find_free_inode, test_bit}
use filesystem_lab.Stage8.Namespace.{create, unlink, new_inode, unlink-create_frees_neighbour}
use filesystem_lab.Stage8.Super.{Held, fill_super, fill_super-Held}
use filesystem_lab.Stage8.File.{file_write}
use filesystem_lab.Stage8.File.Blocks.{Sound}
use filesystem_lab.Stage8.File.Safe.{file_write-Safe}
use filesystem_lab.Stage8.File.Frame.{Safe}
use filesystem_lab.Stage8.File.RoundTrip.{
  WriteAnswer, file_write-Wrote, ReadsBack, file_read-file_write,
}

-- Blocks 0 to 7 are in use, of 32; the file has block 7.
abbrev pub super : SbInfo
super = record {
  block_bitmap = λ i. if i == 0 then 255 else 0;
  inode_bitmap = λ i. if i == 0 then 3 else 0;
  block_bitmap_dirty = false;
  inode_bitmap_dirty = false;
  inode_table_start = 4;
  data_blocks_start = 7;
  inodes_count = 3;
  blocks_count = 32;
}

abbrev pointers : ℕ → ℕ
pointers i = if i == 0 then 7 else 0

abbrev pub disk : DiskInode
disk = record {
  i_mode = 33188;
  i_ino = 2;
  i_blocks = 1;
  i_block = pointers;
  i_size = 10;
  i_uid = 0;
  i_gid = 0;
  i_links_count = 1;
  i_atime = 0;
  i_ctime = 0;
  i_mtime = 0;
}

abbrev pub file : Inode
file = record {
  ino = 2;
  mode = 33188;
  nlink = 1;
  size = 10;
  uid = 0;
  gid = 0;
  atime = 0;
  mtime = 0;
  ctime = 0;
  disk = disk;
  inode_dirty = false;
}

abbrev pub device : Device
device = record {
  blocks = λ b i. if i == 0 then b else 0;
  dirty = λ _. false;
  got = 0;
  released = 0;
}

abbrev pub kernel : Kernel
kernel = record {
  readable = λ _. true;
  allocates = λ _. true;
  copied = λ _ n. n;
  now = 1000;
  init_owner = λ dir mode. record { mode = mode; uid = 0; gid = 0 };
  root_owner = λ mode. record { mode = mode; uid = 0; gid = 0 };
}

super-IsBytes : IsBytes super.block_bitmap
super-IsBytes i = ground arith

pub file-Sound : Sound super disk
unfolding bit byte_test
file-Sound = record {
  bytes = super-IsBytes;
  after_bitmaps = omega arith;
  after_tables = omega arith;
  data_fits = omega arith;
  in_use = λ i lt nz. let first : i ≡ 0 = ground arith in rw first refl;
  in_data = λ i lt nz. let first : i ≡ 0 = ground arith in rw first (omega arith);
  apart = λ i j li lj nz e. ground arith;
}

abbrev pub text : Mem
text i = i + 65

file_write-Wrote_example :
    WriteAnswer file 600 8 text device (file_write kernel file super 600 8 text device)
file_write-Wrote_example =
    file_write-Wrote kernel (λ _ _. refl) (λ _. refl) file super 600 8 text device file-Sound
      (omega arith)

file_read-file_write_example :
    ReadsBack kernel 8 text text (file_write kernel file super 600 8 text device)
file_read-file_write_example =
    file_read-file_write kernel (λ _ _. refl) (λ _. refl) file super 600 8 text text device
      file-Sound (omega arith) (omega arith)

super-inode-IsBytes : IsBytes super.inode_bitmap
super-inode-IsBytes i = ground arith

next_inode : (find_free_inode super).0 ≡ some 2
unfolding find_free_inode test_bit byte_shift_test
next_inode = refl

unlink-create_frees_neighbour_example :
    let ino = new_inode kernel (kernel.init_owner file 33188) 2 1 in
    let (r, sbi', _) = create kernel super file 33188 device in
    (r ≡ ok ino)
    × (bit (unlink kernel sbi' file ino).0.inode_bitmap 2 ≡ true)
    × (bit (unlink kernel sbi' file ino).0.inode_bitmap 1 ≡ false)
unlink-create_frees_neighbour_example =
    unlink-create_frees_neighbour kernel super file 33188 2 device super-inode-IsBytes (λ _. refl)
      (λ _. refl) next_inode (omega arith)

-- Each block begins with the magic number.
abbrev magic_device : Device
magic_device = record device {
  blocks = λ _ i. if i == 0 then 0x17 else if i == 1 then 0x07 else if i == 2 then 0x99 else 0;
}

fill_super-Held_example : Held 1 magic_device (fill_super kernel false magic_device)
unfolding load32
fill_super-Held_example = fill_super-Held kernel false magic_device

-- A kernel for which block 8 cannot be read and every copy moves one byte less.
abbrev pub bad_kernel : Kernel
bad_kernel = record kernel { readable = λ b. ltb b 8; copied = λ _ n. n - 1 }

file_write-Safe_example :
    let (_, _, ino', sbi', d') = file_write bad_kernel file super 600 8 text device in
    Safe super disk device sbi' ino'.disk d'
file_write-Safe_example =
    file_write-Safe bad_kernel file super 600 8 text device (omega arith) file-Sound
