-- ===== src/Early/Simple.antt =====
-- The mount of naive/naivefs_simple.c, which reads nothing from the device.
use filesystem_lab.Base.{◌*◌, some, Result, ok, err, enomem, if◌then◌else◌}
use filesystem_lab.Memory.{Kernel, Inode, simple_dir_ops}
use filesystem_lab.Early.{Mounted, root_with}

abbrev pub root_inode : Kernel → Inode
root_inode k = root_with simple_dir_ops k

-- `naive_fill_super`
unfoldable pub fill_super : Kernel → Result Mounted
fill_super k =
    if k.allocates 0
    then (if k.makes_root
        then ok (record {
          root = root_inode k;
          s_magic = 0x990717;
          s_blocksize = 512;
          s_blocksize_bits = 9;
          s_maxbytes = some (512 * 8);
        })
        else err enomem)
    else err enomem
