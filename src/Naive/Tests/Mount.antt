-- ===== src/Naive/Tests/Mount.antt =====
-- Mounting, formatting and growing files of naive/ on small inputs.
use filesystem_lab.Base.{
  ℕ, ◌+◌, arith, ◌≡◌, refl, true, false, ok, err, enomem, einval, ◌==◌, if◌then◌else◌,
}
use filesystem_lab.Base.Bytes.{Mem, load32}
use filesystem_lab.Device.{Device, Balanced}
use filesystem_lab.Naive.Layout.{SbInfo, IsValid, magic_number}
use filesystem_lab.Naive.Kernel.{Inode, Kernel, is_dir}
use filesystem_lab.Naive.Super.{
  Mountable, LaidOut, Loaded, fill_super, put_super, fill_super_mounts, failed_root_releases_twice,
}
use filesystem_lab.Naive.Mkfs.{mounted, format_disk, fill_super-format_disk}
use filesystem_lab.Naive.Tests.{zeros, device, kernel}

-- The words of a super block: the magic number, 16 inodes, 64 blocks, the table from block 4 on and
-- the data from block 20 on.
abbrev super_words : Mem
super_words i =
    if i == 0
    then 0x17
    else if i == 1
    then 0x07
    else if i == 2
    then 0x99
    else if i == 4
    then 16
    else if i == 8
    then 64
    else if i == 12
    then 4
    else if i == 16
    then 20
    else 0

-- The block bitmap and the inode bitmap.
abbrev disk : Device
disk = record device {
  blocks =
      λ b i. if b == 1 then super_words i else if i == 0 then (if b == 2 then 255 else 1) else 0;
}

heap : ℕ → Mem
heap _ = zeros

disk_magic : load32 (disk.blocks 1) 0 ≡ magic_number
unfolding load32
disk_magic = refl

kernel-Mountable : Mountable kernel disk
kernel-Mountable = record { reads = λ _. refl; memory = λ _. refl; root = refl; magic = disk_magic }

disk-LaidOut : LaidOut heap disk
unfolding load32 heap
disk-LaidOut = record {
  after_bitmaps = omega arith;
  table_fits = omega arith;
  data_fits = omega arith;
  few = omega arith;
  bytes = λ b i. ground arith;
  heap_bytes = λ n i. omega arith;
}

fill_super_mounts_example :
    let (r, e) = fill_super kernel heap disk in
    (sbi : SbInfo) × (root : Inode) × (r ≡ ok (sbi, root))
    × Loaded disk sbi
    × IsValid sbi
    × (root.i_ino ≡ 1)
    × (is_dir root.i_mode ≡ true)
    × Balanced disk (put_super e)
    × (e.blocks ≡ disk.blocks)
fill_super_mounts_example = fill_super_mounts kernel heap disk kernel-Mountable disk-LaidOut

-- The kernel when the fourth allocation fails.
abbrev short_kernel : Kernel
short_kernel = record kernel { allocates = λ n. if n == 3 then false else true }

failed_root_releases_twice_example :
    let (r, e) = fill_super short_kernel heap disk in
    (r ≡ err enomem) × (e.released + disk.got ≡ e.got + disk.released + 2)
failed_root_releases_twice_example =
    failed_root_releases_twice short_kernel heap disk refl refl refl refl (λ _. refl) disk_magic

fill_super-format_disk_example :
    (fill_super kernel heap (mounted (format_disk 1048576 0 0 1000 zeros).bytes)).0 ≡ err einval
fill_super-format_disk_example = fill_super-format_disk kernel heap 1048576 0 0 1000 zeros refl refl
