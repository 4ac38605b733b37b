-- ===== src/Stage8/Namespace.antt =====
-- The inodes of naive/naivefs-8/naivefs.c: `naive_create`, `naive_unlink`, `naive_rmdir`,
-- `naive_write_inode` and `naive_destroy_inode`. A disk inode lives in the buffer that its inode
-- holds; the model keeps it in the inode. An inode number is at least 1, since a mount marks bit 0.
use filesystem_lab.Base.{
  ℕ, zero, suc, ◌+◌, ◌-◌, ◌<◌, ◌≡◌, ◌∙◌, refl, ap, arith, Bool, true, false, Option, none, some,
  Result, ok, err, eio, enospc, enomem, enotempty, if◌then◌else◌, update, ◌==◌, ==_refl, ltb,
}
use filesystem_lab.Base.Bits.{
  bit, clear_bit, set_bit, bit-set_bit, bit-clear_bit, set_bit-IsBytes, IsBytes,
}
use filesystem_lab.Device.{Device, take_buffer, brelse, mark_buffer_dirty}
use filesystem_lab.Stage8.State.{SbInfo, DiskInode, Inode, Kernel, Owner, direct_blocks}
use filesystem_lab.Stage8.Bitmap.{find_free_inode, InodeAnswer, find_free_inode_lem}

-- `naive_free_file_blocks`: its loop, with `n` pointers left from pointer `i`, and what follows.
pub free_pointers : ℕ → ℕ → SbInfo → DiskInode → SbInfo × DiskInode
unfolding clear_bit
free_pointers zero i sbi disk = (sbi, disk)
free_pointers (suc n) i sbi disk =
    let b = disk.i_block i in
    free_pointers n (i + 1)
      (if b == 0 then sbi else record sbi { block_bitmap = clear_bit sbi.block_bitmap b })
      (if b == 0 then disk else record disk { i_block = update disk.i_block i 0 })

pub free_file_blocks : SbInfo → DiskInode → SbInfo × DiskInode
unfolding free_pointers
free_file_blocks sbi disk =
    let (sbi', disk') = free_pointers direct_blocks 0 sbi disk in
    (record sbi' { block_bitmap_dirty = true }, record disk' { i_blocks = 0 })

-- The part of `naive_unlink` for an inode without links.
pub release_inode : SbInfo → Inode → SbInfo × Inode
unfolding free_file_blocks clear_bit
release_inode sbi ino =
    let (sbi', disk') = free_file_blocks sbi ino.disk in
    (
      record sbi' {
        inode_bitmap = clear_bit sbi'.inode_bitmap (ino.ino - 1);
        inode_bitmap_dirty = true;
      },
      record ino {
        disk = record disk' { i_size = 0; i_blocks = 0; i_links_count = 0 };
        inode_dirty = true;
      },
    )

-- `naive_unlink`, which always returns 0: the super block, the inode and the directory. The entry in
-- the directory is left in place.
unfoldable pub unlink : Kernel → SbInfo → Inode → Inode → SbInfo × Inode × Inode
unfolding release_inode
unlink k sbi dir ino =
    let ino1 = record ino { nlink = ino.nlink - 1 } in
    let (sbi', ino') = if ino1.nlink == 0 then release_inode sbi ino1 else (sbi, ino1) in
    (sbi', ino', record dir { mtime = k.now; ctime = k.now })

-- `naive_rmdir`
unfoldable pub rmdir : Kernel → SbInfo → Inode → Inode → Result (Unit {0}) × SbInfo × Inode × Inode
unfolding unlink
rmdir k sbi dir ino =
    let (sbi', ino', dir') = unlink k sbi dir ino in
    if ltb 2 ino.nlink then (err enotempty, sbi, ino, dir) else (ok tt, sbi', ino', dir')

-- The disk inode that `naive_create` sets up.
unfoldable pub new_disk_inode : Kernel → Owner → ℕ → ℕ → DiskInode
new_disk_inode k o ino links = record {
  i_mode = o.mode;
  i_ino = ino;
  i_blocks = 0;
  i_block = λ _. 0;
  i_size = 0;
  i_uid = o.uid;
  i_gid = o.gid;
  i_links_count = links;
  i_atime = k.now;
  i_ctime = k.now;
  i_mtime = k.now;
}

unfoldable pub new_inode : Kernel → Owner → ℕ → ℕ → Inode
unfolding new_disk_inode
new_inode k o ino links = record {
  ino = ino;
  mode = o.mode;
  nlink = links;
  size = 0;
  uid = o.uid;
  gid = o.gid;
  atime = k.now;
  mtime = k.now;
  ctime = k.now;
  disk = new_disk_inode k o ino links;
  inode_dirty = true;
}

abbrev give_back : SbInfo → ℕ → SbInfo
give_back sbi ino = record sbi { inode_bitmap = clear_bit sbi.inode_bitmap ino }

-- `naive_create` after the number `ino` has been taken. A new inode holds the buffer of its block.
unfoldable pub make_inode :
    Kernel → SbInfo → Inode → ℕ → ℕ → Device → Result Inode × SbInfo × Device
unfolding new_inode take_buffer brelse mark_buffer_dirty clear_bit
make_inode k sbi dir mode ino d =
    if k.allocates 0
    then (if k.readable (sbi.inode_table_start + ino)
        then (let d' = take_buffer d in
            if k.allocates 1
            then (
              ok (new_inode k (k.init_owner dir mode) ino 1),
              sbi,
              mark_buffer_dirty 1 (mark_buffer_dirty (sbi.inode_table_start + ino) d'),
            )
            else (err enomem, give_back sbi ino, brelse d'))
        else (err eio, give_back sbi ino, d))
    else (err enomem, give_back sbi ino, d)

-- `naive_create`: the new inode or the error.
unfoldable pub create : Kernel → SbInfo → Inode → ℕ → Device → Result Inode × SbInfo × Device
unfolding find_free_inode make_inode
create k sbi dir mode d =
    let (o, sbi') = find_free_inode sbi in
    elim o [ none ↦ (err enospc, sbi', d) | some ino ↦ make_inode k sbi' dir mode ino d ]

-- `naive_write_inode`; `has_info` says that the inode has its information and its buffer.
unfoldable pub write_inode : Bool → Inode → Result (Unit {0}) × Inode
write_inode false ino = (err eio, ino)
write_inode true ino =
    let disk = record ino.disk {
      i_mode = ino.mode;
      i_size = ino.size;
      i_uid = ino.uid;
      i_gid = ino.gid;
      i_links_count = ino.nlink;
      i_atime = ino.atime;
      i_mtime = ino.mtime;
      i_ctime = ino.ctime;
    } in
    (ok tt, record ino { disk = disk; inode_dirty = true })

-- `naive_destroy_inode`
unfoldable pub destroy_inode : Bool → Device → Device
unfolding brelse
destroy_inode has_info d = if has_info then brelse d else d

free_pointers-inode_bitmap :
    (n i : ℕ) (sbi : SbInfo) (disk : DiskInode)
    → (free_pointers n i sbi disk).0.inode_bitmap ≡ sbi.inode_bitmap
unfolding free_pointers
free_pointers-inode_bitmap zero i sbi disk = refl
free_pointers-inode_bitmap (suc n) i sbi disk =
    free_pointers-inode_bitmap n (i + 1) _ _ ∙ ground arith

-- The inode of a file that has just been made, unlinked.
unlinked_bitmap :
    (k : Kernel) (sbi : SbInfo) (dir : Inode) (o : Owner) (n : ℕ)
    → (unlink k sbi dir (new_inode k o n 1)).0.inode_bitmap ≡ clear_bit sbi.inode_bitmap (n - 1)
unfolding unlink new_inode release_inode free_file_blocks
unlinked_bitmap k sbi dir o n =
    ap (λ m. clear_bit m (n - 1))
      (free_pointers-inode_bitmap direct_blocks 0 sbi (new_disk_inode k o n 1))

make_inode_ok :
    (k : Kernel) (sbi : SbInfo) (dir : Inode) (mode n : ℕ) (d : Device)
    → ((b : ℕ) → k.readable b ≡ true)
    → ((i : ℕ) → k.allocates i ≡ true)
    → make_inode k sbi dir mode n d
      ≡ (ok (new_inode k (k.init_owner dir mode) n 1), sbi, (make_inode k sbi dir mode n d).2)
unfolding make_inode
make_inode_ok k sbi dir mode n d r a = rw (a 0, r (sbi.inode_table_start + n), a 1) refl

-- A file that `naive_create` makes and that loses its last link by `naive_unlink` keeps its number
-- in use, and the number before it becomes free: create takes bit `n` of the inode bitmap, and
-- unlink clears bit `n - 1`. This is for a number `n` other than 0, when memory can be had and the
-- block of the inode can be read.
pub unlink-create_frees_neighbour :
    (k : Kernel) (sbi : SbInfo) (dir : Inode) (mode n : ℕ) (d : Device)
    → IsBytes sbi.inode_bitmap
    → ((b : ℕ) → k.readable b ≡ true)
    → ((i : ℕ) → k.allocates i ≡ true)
    → (find_free_inode sbi).0 ≡ some n
    → 0 < n
    → let ino = new_inode k (k.init_owner dir mode) n 1 in
      let (r, sbi', _) = create k sbi dir mode d in
      (r ≡ ok ino)
      × (bit (unlink k sbi' dir ino).0.inode_bitmap n ≡ true)
      × (bit (unlink k sbi' dir ino).0.inode_bitmap (n - 1) ≡ false)
unfolding create
unlink-create_frees_neighbour k sbi dir mode n d h r a f p =
    go (find_free_inode sbi) (find_free_inode_lem sbi h) f
  where
    ino : Inode
    ino = new_inode k (k.init_owner dir mode) n 1

    taken : ℕ → ℕ
    taken = set_bit sbi.inode_bitmap n

    after :
        (x : ℕ)
        → bit (clear_bit taken (n - 1)) x
          ≡ (if n - 1 == x then false else if n == x then true else bit sbi.inode_bitmap x)
    after x =
        rw
          (
            bit-clear_bit taken (n - 1) x (set_bit-IsBytes sbi.inode_bitmap n h),
            bit-set_bit sbi.inode_bitmap n x h,
          )
          refl

    other : (n - 1 == n) ≡ false
    other = ground arith

    go :
        (x : Option ℕ × SbInfo)
        → InodeAnswer sbi x
        → x.0 ≡ some n
        → let z : Result Inode × SbInfo × Device = elim x.0 [
          | none ↦ (err enospc, x.1, d)
          | some i ↦ make_inode k x.1 dir mode i d
        ] in
          (z.0 ≡ ok ino)
          × (bit (unlink k z.1 dir ino).0.inode_bitmap n ≡ true)
          × (bit (unlink k z.1 dir ino).0.inode_bitmap (n - 1) ≡ false)
    go (none, sbi') _ e = cc e
    go (some i, sbi') (_, same) e =
        let i_is : i ≡ n = cc e in
        rw
          (
            i_is,
            make_inode_ok k sbi' dir mode n d r a,
            unlinked_bitmap k sbi' dir (k.init_owner dir mode) n,
            same,
            i_is,
          )
          (refl, after n ∙ rw (other, ==_refl n) refl, after (n - 1) ∙ rw (==_refl (n - 1)) refl)
