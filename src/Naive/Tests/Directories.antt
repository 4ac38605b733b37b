-- ===== src/Naive/Tests/Directories.antt =====
-- Making and removing directories of naive/ on the small file system.
use filesystem_lab.Base.{◌≡◌, refl, ok, arith}
use filesystem_lab.Base.Bits.{byte_test, byte_set, set_bit}
use filesystem_lab.Naive.Kernel.{is_dir, Inode, blank_inode, dir_ops}
use filesystem_lab.Naive.Alloc.{alloc_block, find_free_inode}
use filesystem_lab.Naive.Alloc.Inodes.{FreeInode}
use filesystem_lab.Naive.Namespace.{mkdir, rmdir, new_dir_inode}
use filesystem_lab.Naive.Namespace.Cycle.{Cycled, rmdir-mkdir}
use filesystem_lab.Naive.Tests.Session.{start_state-Sound}
use filesystem_lab.Naive.Namespace.Mkdir.{MadeDir, mkdir_makes}
use filesystem_lab.Naive.Namespace.Rmdir.{RmdirAnswer, rmdir_removes}
use filesystem_lab.Naive.Tests.{
  device, device_a, kernel, super, super-IsValid, root, root-IsDir, name_a, name_a-IsName,
  device_a-Unique, next_block, next_inode, no_entry,
}

pub second_block : (alloc_block (alloc_block super).1).0 ≡ ok 22
unfolding alloc_block byte_test byte_set set_bit
second_block = refl

mkdir_makes_example :
    FreeInode super (find_free_inode super)
    × (let (r, sbi', dir', d') = mkdir kernel name_a 0o755 super root device in
        MadeDir kernel name_a 0o755 super root device (find_free_inode super) 21 r sbi' dir' d')
mkdir_makes_example =
    mkdir_makes kernel name_a 0o755 super root device 22 21 (λ _. refl) refl next_block second_block
      (rw next_inode (omega arith)) super-IsValid (omega arith) root-IsDir (omega arith)
      name_a-IsName (omega arith) no_entry

-- The directory `a` with no block.
abbrev directory : Inode
directory = record blank_inode { i_ino = 2; i_mode = 16877; i_nlink = 2; ops = dir_ops }

rmdir_removes_example :
    RmdirAnswer kernel name_a super root directory device_a
      (rmdir kernel name_a super root directory device_a)
unfolding blank_inode
rmdir_removes_example =
    rmdir_removes kernel name_a super root directory device_a (λ _. refl) name_a-IsName
      device_a-Unique super-IsValid (λ l. omega arith)

rmdir-mkdir_example :
    let (r, sbi', dir', d') = mkdir kernel name_a 0o755 super root device in
    let ino = new_dir_inode kernel root 0o755 (find_free_inode super) 21 in
    (r ≡ ok ino) × Cycled kernel name_a super root device 21 (rmdir kernel name_a sbi' dir' ino d')
unfolding is_dir
rmdir-mkdir_example =
    rmdir-mkdir kernel name_a 0o755 super root device 22 21 (λ _. refl) refl next_block second_block
      (rw next_inode (omega arith)) super-IsValid (omega arith) root-IsDir (omega arith)
      name_a-IsName (omega arith) no_entry start_state-Sound.unique refl
