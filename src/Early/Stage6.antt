-- ===== src/Early/Stage6.antt =====
-- naive/naivefs-6/naivefs.c: its mount, and files that are made in memory alone.
use filesystem_lab.Base.{
  ℕ, ◌+◌, Option, none, Result, ok, err, eio, einval, enomem, if◌then◌else◌, ◌==◌,
}
use filesystem_lab.Base.Bytes.{load32}
use filesystem_lab.Device.{Device, take_buffer, brelse}
use filesystem_lab.Memory.{
  Name, Kernel, Inode, is_dir_mode, naive_dir_ops, simple_dir_ops, magic_number,
}
use filesystem_lab.Early.{Mounted, root_with}

-- `naive_create` with the counter `next_ino`: the inode or the error, and the counter.
unfoldable pub create : Kernel → ℕ → ℕ → Result Inode × ℕ
create k mode next_ino =
    let o = k.init_owner mode in
    if k.allocates 0
    then (
      ok (record {
        ino = next_ino;
        mode = o.mode;
        uid = o.uid;
        gid = o.gid;
        nlink = if is_dir_mode mode then 2 else 1;
        time = k.now;
        ops = simple_dir_ops;
      }),
      next_ino + 1,
    )
    else (err enomem, next_ino)

-- `naive_lookup` finds nothing.
unfoldable pub lookup : Name → Option Inode
lookup s = none

abbrev pub root_inode : Kernel → Inode
root_inode k = root_with naive_dir_ops k

-- `naive_fill_super`. It does not call `sb_set_blocksize`: the blocks of `d` have the size that they had
-- before the mount. The buffer of the super block is kept when it returns 0.
unfoldable pub fill_super : Kernel → Device → Result Mounted × Device
unfolding take_buffer brelse
fill_super k d =
    if k.allocates 0
    then (if k.readable 1
        then (let d' = take_buffer d in
            if load32 (d.blocks 1) 0 == magic_number
            then (if k.allocates 1
                then (if k.makes_root
                    then (
                      ok (record {
                        root = root_inode k;
                        s_magic = magic_number;
                        s_blocksize = 512;
                        s_blocksize_bits = 9;
                        s_maxbytes = none;
                      }),
                      d',
                    )
                    else (err enomem, brelse d'))
                else (err enomem, brelse d'))
            else (err einval, brelse d'))
        else (err eio, d))
    else (err enomem, d)
