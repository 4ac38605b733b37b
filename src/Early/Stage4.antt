-- ===== src/Early/Stage4.antt =====
-- The mount of naive/naivefs-4/naivefs.c.
use filesystem_lab.Base.{◌*◌, some, Result, ok, err, eio, einval, enomem, if◌then◌else◌, ◌==◌}
use filesystem_lab.Base.Bytes.{load32}
use filesystem_lab.Device.{Device, take_buffer, brelse}
use filesystem_lab.Memory.{Kernel, Inode, simple_dir_ops, magic_number}
use filesystem_lab.Early.{Mounted, root_with}

abbrev pub root_inode : Kernel → Inode
root_inode k = root_with simple_dir_ops k

-- `naive_fill_super`: what it sets, or the error, and the device, whose blocks have the 512 bytes that
-- `sb_set_blocksize` has set when they are read.
unfoldable pub fill_super : Kernel → Device → Result Mounted × Device
unfolding take_buffer brelse
fill_super k d =
    if k.sets_blocksize
    then (if k.readable 1
        then (let d' = take_buffer d in
            if load32 (d.blocks 1) 0 == magic_number
            then (if k.allocates 0
                then (if k.makes_root
                    then (
                      ok (record {
                        root = root_inode k;
                        s_magic = magic_number;
                        s_blocksize = 512;
                        s_blocksize_bits = 9;
                        s_maxbytes = some (512 * 512);
                      }),
                      brelse d',
                    )
                    else (err enomem, brelse d'))
                else (err enomem, brelse d'))
            else (err einval, brelse d'))
        else (err eio, d))
    else (err einval, d)
