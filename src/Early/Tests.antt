-- ===== src/Early/Tests.antt =====
-- The mounts of the early stages on a device with the magic number.
use filesystem_lab.Base.{◌≡◌, refl, true, false, if◌then◌else◌, ◌==◌}
use filesystem_lab.Base.Bytes.{Mem, load32}
use filesystem_lab.Memory.{Kernel}
use filesystem_lab.Early.Stage4
use filesystem_lab.Early.Stage5
use filesystem_lab.Early.Stage6
use filesystem_lab.Early.Simple
use filesystem_lab.Early.Agree.{succeeds, accepts, on_blocks, MountAnswer, early_mounts}
use filesystem_lab.Complete

abbrev kernel : Kernel
kernel = record {
  allocates = λ _. true;
  init_owner = λ mode. record { mode = mode; uid = 0; gid = 0 };
  now = 7;
  sets_blocksize = true;
  readable = λ _. true;
  makes_root = true;
  copied = λ n. n;
}

-- The magic number 0x990717, in little-endian order, stands at byte 512.
abbrev image : Mem
image i = if i == 512 then 0x17 else if i == 513 then 0x07 else if i == 514 then 0x99 else 0

accepted : accepts kernel image 512 ≡ true
unfolding load32
accepted = refl

-- Stage 6 refuses the image on a device with blocks of 1024 bytes.
refused : accepts kernel image 1024 ≡ false
unfolding load32
refused = refl

early_mounts_example :
    let d = on_blocks 512 image in
    let d6 = on_blocks 1024 image in
    MountAnswer (accepts kernel image 512) 0 d (Stage4.fill_super kernel d)
    × MountAnswer (accepts kernel image 512) 0 d (Stage5.fill_super kernel d)
    × MountAnswer (accepts kernel image 512) 0 d (Complete.fill_super kernel d)
    × MountAnswer
        (accepts kernel image 1024)
        (if accepts kernel image 1024 then 1 else 0)
        d6
        (Stage6.fill_super kernel d6)
    × (succeeds (Simple.fill_super kernel) ≡ kernel.makes_root)
early_mounts_example = early_mounts kernel image 1024 (λ _. refl) refl
