-- ===== src/Complete.antt =====
-- naive/naivefs-complete/naivefs.c, the stage before Memory: a fixed listing, and inodes that no list
-- keeps. The structures of the kernel are those of Memory.
pub mod Listing
pub mod Files
mod Tests
use filesystem_lab.Base.{
  ℕ, zero, suc, ◌+◌, ◌-◌, ◌%◌, Bool, true, false, ◌&&◌, List, [], ◌∷◌, Result, ok, err, eio, einval,
  enomem, bit_or, if◌then◌else◌, ◌==◌, ltb, leb,
}
use filesystem_lab.Base.Bytes.{load32}
use filesystem_lab.Device.{Device, take_buffer, brelse}
use filesystem_lab.Memory.{Name, Inode, Kernel, new_inode, magic_number, naive_dir_ops}
use filesystem_lab.Memory.Readdir.{Emitted, dt_unknown, Context, dir_emit, advance}

abbrev testfile : Name
testfile = b't' ∷ b'e' ∷ b's' ∷ b't' ∷ b'f' ∷ b'i' ∷ b'l' ∷ b'e' ∷ b'.' ∷ b't' ∷ b'x' ∷ b't' ∷ []

abbrev testdir : Name
testdir = b't' ∷ b'e' ∷ b's' ∷ b't' ∷ b'd' ∷ b'i' ∷ b'r' ∷ []

-- The four entries, of unknown type.
abbrev pub entries : List Emitted
entries =
    record { name = b'.' ∷ []; ino = 1; d_type = dt_unknown }
    ∷ record { name = b'.' ∷ b'.' ∷ []; ino = 1; d_type = dt_unknown }
    ∷ record { name = testfile; ino = 2; d_type = dt_unknown }
    ∷ record { name = testdir; ino = 3; d_type = dt_unknown }
    ∷ []

-- `for (i = 0; i < ARRAY_SIZE(entries); i++)`
unfoldable pub emit_entries : List Emitted → Context → Context
unfolding dir_emit
emit_entries [] ctx = ctx
emit_entries (e ∷ l) ctx =
    let (good, ctx') = dir_emit e ctx in
    let rest = emit_entries l (advance ctx') in
    if leb 4 ctx.pos then ctx else if good then rest else ctx

unfoldable pub readdir : Context → Context
unfolding emit_entries
readdir ctx = emit_entries entries ctx

-- `naive_create` with the counter of inode numbers.
unfoldable pub create : Kernel → ℕ → ℕ → Result Inode × ℕ
unfolding new_inode
create k mode counter =
    if k.allocates 0 then (ok (new_inode k mode counter), counter + 1) else (err enomem, counter)

-- `naive_mkdir`: the inode or the error, the counter and the parent.
unfoldable pub mkdir : Kernel → ℕ → ℕ → Inode → Result Inode × ℕ × Inode
unfolding create
mkdir k mode counter dir =
    let (r, counter') = create k (bit_or 0o40000 mode) counter in
    elim r [
      | ok ino ↦ (ok ino, counter', record dir { nlink = dir.nlink + 1 })
      | err e ↦ (err e, counter', dir)
    ]

-- `naive_unlink`; that the inode is dirty, which nothing reads in this stage, is left out.
unfoldable pub unlink : Inode → Inode
unlink ino = record ino { nlink = ino.nlink - 1 }

-- `naive_rmdir`: the parent and the inode.
unfoldable pub rmdir : Inode → Inode → Inode × Inode
rmdir dir ino = (record dir { nlink = dir.nlink - 1 }, record ino { nlink = 0 })

-- The root directory, whose owner is the one that the kernel gives a new inode, 0.
abbrev pub root_inode : Kernel → Inode
root_inode k = record {
  ino = 1;
  mode = 16877;
  uid = 0;
  gid = 0;
  nlink = 2;
  time = k.now;
  ops = naive_dir_ops;
}

-- `naive_fill_super`: the root directory or the error, and the device.
unfoldable pub fill_super : Kernel → Device → Result Inode × Device
unfolding take_buffer brelse
fill_super k d =
    if k.sets_blocksize
    then (if k.readable 1
        then (let d' = brelse (take_buffer d) in
            if load32 (d.blocks 1) 0 == magic_number
            then (if k.allocates 0 && k.makes_root
                then (ok (root_inode k), d')
                else (err enomem, d'))
            else (err einval, d'))
        else (err eio, d))
    else (err einval, d)
