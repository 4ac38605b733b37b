-- ===== src/Naive/Tests/Calls.antt =====
-- The calls of naive/ on the small file system.
use filesystem_lab.Base.{
  ℕ, ◌-◌, ◌<◌, ◌≡◌, ◌≢◌, refl, true, false, arith, ◌==◌, ok, err, eio, if◌then◌else◌,
}
use filesystem_lab.Base.Bits.{bit, byte_test}
use filesystem_lab.Naive.Kernel.{Inode, Kernel, blank_inode, file_ops, is_dir}
use filesystem_lab.Naive.Alloc.{find_free_inode}
use filesystem_lab.Naive.Alloc.Inodes.{FreeInode}
use filesystem_lab.Naive.Table.{write_inode, iget}
use filesystem_lab.Naive.Table.RoundTrip.{Fits, reread, iget-write_inode, directory_size_lost}
use filesystem_lab.Naive.Entries.Add.{Added}
use filesystem_lab.Naive.Namespace.{create, new_file_inode, unlink}
use filesystem_lab.Naive.Namespace.Create.{Numbered, create_makes, failed_create_loses_number}
use filesystem_lab.Naive.Namespace.Unlink.{UnlinkAnswer, unlink_frees}
use filesystem_lab.Naive.Tests.{
  device, device_a, kernel, super, super-IsValid, root, root-IsDir, name_a, name_a-IsName,
  device_a-Unique, next_block, next_inode, no_entry,
}

some_number : find_free_inode super ≢ 0
some_number = rw next_inode (omega arith)

create_makes_example :
    let (r, sbi', dir', d') = create kernel name_a 33188 super root device in
    (r ≡ ok (new_file_inode kernel root 33188 (find_free_inode super)))
    × FreeInode super (find_free_inode super)
    × Numbered super (find_free_inode super) sbi'
    × Added kernel.readable name_a (find_free_inode super) root device dir' d'
create_makes_example =
    create_makes kernel name_a 33188 super root device 21 (λ _. refl) refl next_block some_number
      super-IsValid (omega arith) root-IsDir (omega arith) name_a-IsName no_entry

-- The kernel when the disk cannot be read.
abbrev bad_disk : Kernel
bad_disk = record kernel { readable = λ _. false }

create_fails : (create bad_disk name_a 33188 super root device).0 ≡ err eio
unfolding create byte_test
create_fails = refl

failed_create_loses_number_example :
    (bit super.inode_bitmap (find_free_inode super - 1) ≡ false)
    × (bit
          (create bad_disk name_a 33188 super root device).1.inode_bitmap
          (find_free_inode super - 1)
        ≡ true)
failed_create_loses_number_example =
    failed_create_loses_number bad_disk name_a 33188 super root device eio super-IsValid some_number
      refl create_fails

-- The file `a` with one block.
abbrev file_pointers : ℕ → ℕ
file_pointers l = if l == 0 then 21 else 0

abbrev file : Inode
file = record root {
  i_ino = 5;
  i_mode = 33188;
  i_size = 300;
  i_nlink = 1;
  ops = file_ops;
  block_pointers = file_pointers;
}

unlink_frees_example :
    UnlinkAnswer kernel name_a super root file device_a
      (unlink kernel name_a super root file device_a)
unlink_frees_example =
    unlink_frees kernel name_a super root file device_a (λ _. refl) name_a-IsName device_a-Unique
      super-IsValid (λ l. ground arith)

root-Fits : Fits root
unfolding blank_inode
root-Fits = record {
  count_fits = omega arith;
  mode_fits = omega arith;
  size_fits = omega arith;
  uid_fits = omega arith;
  gid_fits = omega arith;
  nlink_fits = omega arith;
  atime_fits = omega arith;
  mtime_fits = omega arith;
  ctime_fits = omega arith;
  pointers_fit = λ x. ground arith;
  no_more = λ x le. ground arith;
}

iget-write_inode_example :
    (iget kernel super 1 (write_inode kernel super root device).1).0 ≡ ok (reread root)
iget-write_inode_example = iget-write_inode kernel kernel super root device root-Fits refl refl refl

root_is_dir : is_dir root.i_mode ≡ true
unfolding is_dir
root_is_dir = refl

directory_size_lost_example : (reread root).i_size < 512
directory_size_lost_example =
    directory_size_lost kernel kernel super root (reread root) device root-Fits refl refl refl
      root_is_dir (omega arith) iget-write_inode_example
