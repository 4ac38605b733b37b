-- ===== src/Naive/Table/RoundTrip.antt =====
-- Writing an inode to the table and reading it back: `naive_write_inode`, then `naive_iget`.
use filesystem_lab.Base.{
  ℕ, ◌+◌, ◌^◌, ◌/◌, ◌≤◌, ◌<◌, ◌≡◌, ◌∙◌, true, false, arith, if◌then◌else◌, ok,
}
use filesystem_lab.Base.Bytes.{Mem, load32}
use filesystem_lab.Device.{Device}
use filesystem_lab.Naive.Layout.{SbInfo, dir_record_size}
use filesystem_lab.Naive.Kernel.{
  Inode, Kernel, Timespec, fresh, dir_ops, file_ops, is_dir, blank_inode,
}
use filesystem_lab.Naive.Table.{
  load_pointers, encode_inode, decode_inode, table_block, write_inode, iget,
}
use filesystem_lab.Naive.Table.Words.{load32-encode_inode, load_pointers-eq, word_of}

-- The fields fit the words of the disk inode, and no pointer stands past the count.
pub record Fits (ino : Inode) : Type 0 where
  pub count_fits : ino.block_count ≤ 8
  pub mode_fits : ino.i_mode < 2 ^ 32
  pub size_fits : ino.i_size < 2 ^ 32
  pub uid_fits : ino.i_uid < 2 ^ 32
  pub gid_fits : ino.i_gid < 2 ^ 32
  pub nlink_fits : ino.i_nlink < 2 ^ 32
  pub atime_fits : ino.i_atime.tv_sec < 2 ^ 32
  pub mtime_fits : ino.i_mtime.tv_sec < 2 ^ 32
  pub ctime_fits : ino.i_ctime.tv_sec < 2 ^ 32
  pub pointers_fit : (x : ℕ) → ino.block_pointers x < 2 ^ 32
  pub no_more : (x : ℕ) → ino.block_count ≤ x → ino.block_pointers x ≡ 0

-- A time as the disk keeps it.
abbrev pub whole_seconds : Timespec → Timespec
whole_seconds t = record { tv_sec = t.tv_sec; tv_nsec = 0 }

-- What comes back: the size of a directory is stored as its number of 132-byte records, and of the
-- times the seconds.
abbrev pub reread : Inode → Inode
reread ino = record ino {
  i_size = if is_dir ino.i_mode then ino.i_size / dir_record_size else ino.i_size;
  i_atime = whole_seconds ino.i_atime;
  i_mtime = whole_seconds ino.i_mtime;
  i_ctime = whole_seconds ino.i_ctime;
  ops = if is_dir ino.i_mode then dir_ops else file_ops;
  i_dirty = false;
}

decode-encode :
    (ino : Inode) (m : Mem) → Fits ino → decode_inode ino.i_ino (encode_inode ino m) ≡ reread ino
unfolding decode_inode blank_inode
decode-encode ino m f = λ i. record {
  i_ino = ino.i_ino;
  i_mode = mode i;
  i_size = size i;
  i_uid = uid i;
  i_gid = gid i;
  i_nlink = nlink i;
  i_atime = record { tv_sec = atime i; tv_nsec = 0 };
  i_mtime = record { tv_sec = mtime i; tv_nsec = 0 };
  i_ctime = record { tv_sec = ctime i; tv_nsec = 0 };
  ops = if is_dir (mode i) then dir_ops else file_ops;
  i_dirty = false;
  block_count = count i;
  block_pointers = λ x. pointers x i;
}
  where
    word : (x : ℕ) → load32 (encode_inode ino m) x ≡ word_of ino m x
    word x = load32-encode_inode ino m x f.count_fits

    mode : load32 (encode_inode ino m) 0 ≡ ino.i_mode
    mode = word 0 ∙ omega (arith, f.mode_fits)

    count : load32 (encode_inode ino m) 2 ≡ ino.block_count
    count = word 2 ∙ omega (arith, f.count_fits)

    size :
        load32 (encode_inode ino m) 11
        ≡ (if is_dir ino.i_mode then ino.i_size / dir_record_size else ino.i_size)
    size = word 11 ∙ ground (arith, f.size_fits)

    uid : load32 (encode_inode ino m) 12 ≡ ino.i_uid
    uid = word 12 ∙ omega (arith, f.uid_fits)

    gid : load32 (encode_inode ino m) 13 ≡ ino.i_gid
    gid = word 13 ∙ omega (arith, f.gid_fits)

    nlink : load32 (encode_inode ino m) 14 ≡ ino.i_nlink
    nlink = word 14 ∙ omega (arith, f.nlink_fits)

    atime : load32 (encode_inode ino m) 15 ≡ ino.i_atime.tv_sec
    atime = word 15 ∙ omega (arith, f.atime_fits)

    ctime : load32 (encode_inode ino m) 16 ≡ ino.i_ctime.tv_sec
    ctime = word 16 ∙ omega (arith, f.ctime_fits)

    mtime : load32 (encode_inode ino m) 17 ≡ ino.i_mtime.tv_sec
    mtime = word 17 ∙ omega (arith, f.mtime_fits)

    pointers :
        (x : ℕ)
        → load_pointers (encode_inode ino m) (load32 (encode_inode ino m) 2) 0 (λ _. 0) x
          ≡ ino.block_pointers x
    pointers x =
        load_pointers-eq (encode_inode ino m) (load32 (encode_inode ino m) 2) 0 (λ _. 0) x
        ∙ rw (count) (ground (arith, word (3 + x), f.pointers_fit x, f.no_more x, f.count_fits))

-- An inode whose fields fit their words, written to the table by `naive_write_inode` and read into
-- a new inode by `naive_iget`, comes back, when its block of the table can be
-- read and `iget_locked` gives a new inode, with every field as it was, except that the size of a
-- directory comes back as its number of records (a 132nd), the times lose their nanoseconds, and the
-- operation tables are those of its type.
pub iget-write_inode :
    (k k' : Kernel) (sbi : SbInfo) (ino : Inode) (d : Device)
    → Fits ino
    → k.readable (table_block sbi ino.i_ino) ≡ true
    → k'.readable (table_block sbi ino.i_ino) ≡ true
    → k'.iget_locked ino.i_ino ≡ fresh
    → (iget k' sbi ino.i_ino (write_inode k sbi ino d).1).0 ≡ ok (reread ino)
unfolding iget write_inode
iget-write_inode k k' sbi ino d f r r' new =
    ground (arith, decode-encode ino (d.blocks (table_block sbi ino.i_ino)) f)

-- A directory whose fields fit their words and whose size is not 0 is smaller after
-- `naive_write_inode` to the table and `naive_iget` of a new inode from it, when the table block can
-- be read and `iget_locked` gives a new inode.
pub directory_size_lost :
    (k k' : Kernel) (sbi : SbInfo) (ino back : Inode) (d : Device)
    → Fits ino
    → k.readable (table_block sbi ino.i_ino) ≡ true
    → k'.readable (table_block sbi ino.i_ino) ≡ true
    → k'.iget_locked ino.i_ino ≡ fresh
    → is_dir ino.i_mode ≡ true
    → 0 < ino.i_size
    → (iget k' sbi ino.i_ino (write_inode k sbi ino d).1).0 ≡ ok back
    → back.i_size < ino.i_size
directory_size_lost k k' sbi ino back d f r r' new dir pos h =
    ground (arith, iget-write_inode k k' sbi ino d f r r' new)
