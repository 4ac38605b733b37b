-- ===== src/Stage9/Tests.antt =====
-- The two versions of `naive_rmdir` on a new directory of the small file system of naive/.
use filesystem_lab.Base.{◌≡◌, refl, true, false, [], ◌∷◌, if◌then◌else◌, ◌==◌}
use filesystem_lab.Base.Bytes.{load32, store32, memset, strncpy, strcmp_eq}
use filesystem_lab.Device.{Device}
use filesystem_lab.Naive.Layout.{SbInfo}
use filesystem_lab.Naive.Kernel.{Inode, Kernel, fresh, blank_inode, dir_ops}
use filesystem_lab.Naive.Entries.{record_ino}
use filesystem_lab.Naive.Namespace.{dots_block, rmdir as naive_rmdir}
use filesystem_lab.Stage9.{rmdir}
use filesystem_lab.Naive.Namespace.Empty.{tally_blocks, dot_record}
use filesystem_lab.Stage9.Agree.{rmdir_agree}

abbrev kernel : Kernel
kernel = record {
  readable = λ _. true;
  allocates = λ _. true;
  iget_locked = λ _. fresh;
  init_owner = λ dir mode. record { mode = mode; uid = 0; gid = 0 };
  makes_root = true;
  now = record { tv_sec = 1; tv_nsec = 0 };
  copied = λ _ n. n;
}

abbrev disk : Device
disk = record { blocks = λ _. dots_block (λ _. 0) 2 1; dirty = λ _. false; got = 0; released = 0 }

abbrev directory : Inode
directory = record blank_inode {
  i_ino = 2;
  i_mode = 16877;
  ops = dir_ops;
  block_count = 1;
  block_pointers = λ i. if i == 0 then 20 else 0;
}

abbrev super : SbInfo
super = record {
  inode_total = 16;
  block_total = 64;
  inode_table_block_no = 4;
  data_block_no = 20;
  block_bitmap = λ _. 255;
  inode_bitmap = λ _. 255;
  block_bitmap_blocks = 1;
  inode_bitmap_blocks = 1;
}

two_dots : tally_blocks dot_record directory.block_pointers disk.blocks 1 0 ≡ 2
unfolding dots_block memset strncpy store32 load32 strcmp_eq record_ino
two_dots = refl

rmdir_agree_example :
    let (r, sbi1, dir1, ino1, d1) = rmdir kernel (b'a' ∷ []) super blank_inode directory disk in
    let (r', sbi2, dir2, ino2, d2) =
      naive_rmdir kernel (b'a' ∷ []) super blank_inode directory disk in
    (r ≡ r') × (sbi1 ≡ sbi2) × (dir1 ≡ dir2) × (ino1 ≡ ino2) × (d1.blocks ≡ d2.blocks)
rmdir_agree_example =
    rmdir_agree kernel (b'a' ∷ []) super blank_inode directory disk (λ _. refl) two_dots
