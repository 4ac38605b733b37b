-- ===== src/Stage8/Super.antt =====
-- Mounting and unmounting in naive/naivefs-8/naivefs.c: `naive_fill_super`, `naive_put_super` and
-- `naive_kill_sb`.
use filesystem_lab.Base.{
  ℕ, ◌+◌, ◌-◌, ◌≡◌, arith, Bool, true, false, Result, ok, err, eio, enomem, einval, if◌then◌else◌,
  ◌==◌, ◌&&◌, not,
}
use filesystem_lab.Base.Bytes.{load32}
use filesystem_lab.Base.Bits.{set_bit}
use filesystem_lab.Device.{Device, take_buffer, brelse, write_buffer, mark_buffer_dirty, Balanced}
use filesystem_lab.Stage8.State.{SbInfo, Inode, Kernel, magic_number}
use filesystem_lab.Stage8.Namespace.{new_inode, destroy_inode}

-- The super block's information: the bitmaps are the bytes of blocks 2 and 3, with the root's bit.
pub load_super : Device → SbInfo
unfolding set_bit
load_super d = record {
  block_bitmap = d.blocks 2;
  inode_bitmap = set_bit (d.blocks 3) 0;
  block_bitmap_dirty = false;
  inode_bitmap_dirty = true;
  inode_table_start = load32 (d.blocks 1) 3;
  data_blocks_start = load32 (d.blocks 1) 4;
  inodes_count = load32 (d.blocks 1) 1;
  blocks_count = load32 (d.blocks 1) 2;
}

-- The labels of `naive_fill_super` from the last: each drops one buffer more.
pub release_super : Device → Device
unfolding brelse
release_super d = brelse d

pub release_block_bitmap : Device → Device
unfolding release_super brelse
release_block_bitmap d = release_super (brelse d)

pub release_inode_bitmap : Device → Device
unfolding release_block_bitmap brelse
release_inode_bitmap d = release_block_bitmap (brelse d)

-- The root directory, of which the mount holds the buffer in the inode table. When `d_make_root` fails
-- it has dropped the inode, and so called `naive_destroy_inode`, which finds the buffer in `i_private`.
pub make_root : Kernel → Bool → SbInfo → Device → Result (SbInfo × Inode) × Device
unfolding take_buffer brelse mark_buffer_dirty release_inode_bitmap destroy_inode
make_root k makes_root sbi d =
    let b = sbi.inode_table_start + 1 - 1 in
    if k.allocates 1
    then (if k.readable b
        then (let d' = take_buffer d in
            if k.allocates 2
            then (if makes_root
                then (ok (sbi, new_inode k (k.root_owner 16877) 1 2), mark_buffer_dirty b d')
                else (
                  err enomem,
                  release_inode_bitmap (brelse (destroy_inode true (mark_buffer_dirty b d'))),
                ))
            else (err enomem, release_inode_bitmap (brelse d')))
        else (err eio, release_inode_bitmap d))
    else (err enomem, release_inode_bitmap d)

pub load_bitmaps : Kernel → Bool → Device → Result (SbInfo × Inode) × Device
unfolding make_root load_super set_bit take_buffer write_buffer mark_buffer_dirty release_super
    release_block_bitmap
load_bitmaps k makes_root d =
    if k.readable 2
    then (let d' = take_buffer d in
        if k.readable 3
        then make_root k makes_root (load_super d)
            (mark_buffer_dirty 3 (write_buffer 3 (set_bit (d.blocks 3) 0) (take_buffer d')))
        else (err eio, release_block_bitmap d'))
    else (err eio, release_super d)

-- `naive_fill_super`; `makes_root` says that `d_make_root` succeeds.
unfoldable pub fill_super : Kernel → Bool → Device → Result (SbInfo × Inode) × Device
unfolding load_bitmaps take_buffer release_super
fill_super k makes_root d =
    if k.allocates 0
    then (if k.readable 1
        then (let d' = take_buffer d in
            if load32 (d.blocks 1) 0 == magic_number
            then load_bitmaps k makes_root d'
            else (err einval, release_super d'))
        else (err eio, d))
    else (err enomem, d)

-- `naive_put_super` and the releases of `naive_kill_sb`, when there is a super block's information.
unfoldable pub put_super : Bool → Device → Device
unfolding brelse
put_super has_info d = if has_info then brelse (brelse (brelse d)) else d

unfoldable pub kill_sb : Bool → Device → Device
unfolding brelse
kill_sb has_info d = if has_info then brelse (brelse (brelse d)) else d

-- The mount gets as far as `d_make_root`, which fails.
abbrev pub root_dentry_fails : Kernel → Bool → Device → Bool
root_dentry_fails k makes_root d =
    k.allocates 0
    && k.readable 1
    && (load32 (d.blocks 1) 0 == magic_number)
    && k.readable 2
    && k.readable 3
    && k.allocates 1
    && k.readable (load32 (d.blocks 1) 3 + 1 - 1)
    && k.allocates 2
    && not makes_root

-- What a mount leaves held: the three buffers of the super block and that of the root inode when it
-- succeeds. When it fails, `extra` is how many more it has released than taken.
abbrev pub Held : ℕ → Device → Result (SbInfo × Inode) × Device → Type 0
Held extra d (ok (sbi, root), e) =
    Balanced d (brelse (kill_sb true e))
    × (sbi.inodes_count ≡ load32 (d.blocks 1) 1)
    × (sbi.blocks_count ≡ load32 (d.blocks 1) 2)
    × (sbi.inode_table_start ≡ load32 (d.blocks 1) 3)
    × (sbi.data_blocks_start ≡ load32 (d.blocks 1) 4)
    × (sbi.block_bitmap ≡ d.blocks 2)
    × (sbi.inode_bitmap ≡ set_bit (d.blocks 3) 0)
    × (root.ino ≡ 1)
Held extra d (err x, e) = e.released + d.got ≡ e.got + d.released + extra

-- `naive_fill_super` drops on each error path as many buffer references as it took, except when
-- `d_make_root` fails: then it has dropped one more, that of the root inode's block twice. When it mounts,
-- it holds one more than the three that `naive_kill_sb` drops, which the root inode keeps, and it has
-- loaded the super block with the bit of the root inode, whose number is 1.
pub fill_super-Held :
    (k : Kernel) (makes_root : Bool) (d : Device)
    → Held (if root_dentry_fails k makes_root d then 1 else 0) d (fill_super k makes_root d)
unfolding fill_super kill_sb new_inode take_buffer brelse write_buffer mark_buffer_dirty
fill_super-Held k makes_root d = ground arith
