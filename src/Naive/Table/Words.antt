-- ===== src/Naive/Table/Words.antt =====
-- The words that `encode_inode` leaves in an inode block.
use filesystem_lab.Base.{
  ℕ, zero, suc, ◌+◌, ◌-◌, ◌%◌, ◌^◌, ◌/◌, ◌≤◌, ◌≡◌, ◌∙◌, arith, if◌then◌else◌, ◌==◌, ltb, leb, ◌&&◌,
  update,
}
use filesystem_lab.Base.Bytes.{Mem, load32, store32, load32-store32}
use filesystem_lab.Naive.Kernel.{Inode, is_dir}
use filesystem_lab.Naive.Layout.{dir_record_size}
use filesystem_lab.Naive.Table.{store_pointers, load_pointers, encode_inode}

pub load32-store_pointers :
    (p : ℕ → ℕ) (n i : ℕ) (m : Mem) (x : ℕ)
    → load32 (store_pointers p n i m) x
      ≡ (if leb (3 + i) x && ltb x (3 + i + n) then p (x - 3) % 2 ^ 32 else load32 m x)
unfolding store_pointers
load32-store_pointers p zero i m x = ground arith
load32-store_pointers p (suc n) i m x =
    load32-store_pointers p n (i + 1) (store32 m (3 + i) (p i)) x
    ∙ rw (load32-store32 m (3 + i) (p i) x) (ground arith)

pub load_pointers-eq :
    (m : Mem) (n i : ℕ) (p : ℕ → ℕ) (x : ℕ)
    → load_pointers m n i p x ≡ (if leb i x && ltb x (i + n) then load32 m (3 + x) else p x)
unfolding load_pointers
load_pointers-eq m zero i p x = ground arith
load_pointers-eq m (suc n) i p x =
    load_pointers-eq m n (i + 1) (update p i (load32 m (3 + i))) x ∙ ground arith

-- What each word of the block holds afterwards.
abbrev pub word_of : Inode → Mem → ℕ → ℕ
word_of ino m x =
    if x == 0
    then ino.i_mode % 2 ^ 32
    else if x == 1
    then ino.i_ino % 2 ^ 32
    else if x == 2
    then ino.block_count % 2 ^ 32
    else if x == 11
    then (if is_dir ino.i_mode then ino.i_size / dir_record_size else ino.i_size) % 2 ^ 32
    else if x == 12
    then ino.i_uid % 2 ^ 32
    else if x == 13
    then ino.i_gid % 2 ^ 32
    else if x == 14
    then ino.i_nlink % 2 ^ 32
    else if x == 15
    then ino.i_atime.tv_sec % 2 ^ 32
    else if x == 16
    then ino.i_ctime.tv_sec % 2 ^ 32
    else if x == 17
    then ino.i_mtime.tv_sec % 2 ^ 32
    else if leb 3 x && ltb x (3 + ino.block_count)
    then ino.block_pointers (x - 3) % 2 ^ 32
    else load32 m x

pub load32-encode_inode :
    (ino : Inode) (m : Mem) (x : ℕ)
    → ino.block_count ≤ 8
    → load32 (encode_inode ino m) x ≡ word_of ino m x
unfolding encode_inode
load32-encode_inode ino m x h = simp (load32-store32, load32-store_pointers) (ground arith)
