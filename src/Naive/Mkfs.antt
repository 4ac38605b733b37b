-- ===== src/Naive/Mkfs.antt =====
-- The formatter naive/mkfs.naive.c, on the bytes of the image file.
use filesystem_lab.Base.{
  ℕ, ◌+◌, ◌-◌, ◌*◌, ◌/◌, ◌≡◌, refl, true, false, err, einval, update, [], ◌∷◌,
}
use filesystem_lab.Base.Bytes.{Mem, load32, store32, memcpy, strncpy}
use filesystem_lab.Base.Bits.{set_bit}
use filesystem_lab.Device.{Device}
use filesystem_lab.Naive.Layout.{magic_number, block_size}
use filesystem_lab.Naive.Kernel.{Kernel}
use filesystem_lab.Naive.Super.{fill_super}

-- The open image: its bytes and the file position. The source does not look at the results of its
-- writes.
pub record Image : Type 0 where
  pub bytes : Mem
  pub at : ℕ

-- `lseek(fd, n, SEEK_SET)` and `write(fd, m, n)`
unfoldable pub seek : ℕ → Image → Image
seek n f = record f { at = n }

unfoldable pub write : Mem → ℕ → Image → Image
unfolding memcpy
write m n f = record { bytes = memcpy f.bytes f.at m n; at = f.at + n }

abbrev inode_count : ℕ
inode_count = 128

abbrev table_start : ℕ
table_start = 4

abbrev data_start : ℕ
data_start = table_start + (inode_count * block_size + block_size - 1) / block_size

-- Memory with every byte 0.
abbrev zeros : Mem
zeros _ = 0

-- `nsb`, for an image of `size` bytes.
pub super_block : ℕ → Mem
unfolding store32
super_block size =
    store32
      (store32
        (store32 (store32 (store32 zeros 0 magic_number) 1 inode_count) 2 (size / block_size)) 3
        table_start)
      4 data_start

-- `bmap` and `imap` as they are first written; `bmap` gets the bit of the root's block later.
pub first_block_bitmap : Mem
first_block_bitmap = update zeros 0 0x1F

pub inode_bitmap : Mem
inode_bitmap = update zeros 0 0x01

pub block_bitmap : Mem
unfolding first_block_bitmap set_bit
block_bitmap = set_bit first_block_bitmap data_start

-- `root_inode`, with the owner and the time.
pub root_words : ℕ → ℕ → ℕ → Mem
unfolding store32
root_words uid gid now =
    let m = store32 (store32 (store32 (store32 zeros 0 16877) 1 1) 2 1) 3 data_start in
    let m = store32 (store32 (store32 (store32 m 11 2) 12 uid) 13 gid) 14 2 in
    store32 (store32 (store32 m 15 now) 16 now) 17 now

-- `dir_dot` and `dir_dotdot`
pub entry : Mem
unfolding store32 strncpy
entry = strncpy (store32 zeros 0 1) 4 (46 ∷ []) 2

pub parent_entry : Mem
unfolding store32 strncpy
parent_entry = strncpy (store32 zeros 0 1) 4 (46 ∷ 46 ∷ []) 3

-- The part of `format_disk` that writes the super block and, after a seek to byte 512, the bitmaps.
pub write_super : ℕ → Image → Image
unfolding write seek super_block first_block_bitmap inode_bitmap
write_super size f = write inode_bitmap block_size (
    write first_block_bitmap block_size
      (seek block_size (write (super_block size) block_size (write zeros block_size f))))

-- The part that writes the root directory: its inode, its entries and the block bitmap with them.
pub write_root : ℕ → ℕ → ℕ → Image → Image
unfolding write seek root_words entry parent_entry block_bitmap
write_root uid gid now f =
    let f = write (root_words uid gid now) 424 (seek (table_start * block_size) f) in
    let f = write parent_entry 132 (write entry 132 (seek (data_start * block_size) f)) in
    write block_bitmap block_size (seek (2 * block_size) f)

-- `format_disk` on an image of `size` bytes, with the file position at 0.
pub format_disk : ℕ → ℕ → ℕ → ℕ → Mem → Image
unfolding write_super write_root
format_disk size uid gid now bytes =
    write_root uid gid now (write_super size (record { bytes = bytes; at = 0 }))

-- The device over the bytes of an image.
abbrev pub mounted : Mem → Device
mounted bytes = record {
  blocks = λ b i. bytes (512 * b + i);
  dirty = λ _. false;
  got = 0;
  released = 0;
}

-- Block 1 of a formatted image begins with the block bitmap, where the super block had been.
first_words :
    (size uid gid now : ℕ) (bytes : Mem)
    → load32 ((mounted (format_disk size uid gid now bytes).bytes).blocks 1) 0 ≡ 31
unfolding format_disk load32
first_words size uid gid now bytes = refl

-- `naive_fill_super` refuses every image that mkfs.naive has formatted, whatever its size and
-- earlier content, on a device with blocks of 512 bytes, with -EINVAL, when memory can be had and
-- block 1 can be read.
pub fill_super-format_disk :
    (k : Kernel) (heap : ℕ → Mem) (size uid gid now : ℕ) (bytes : Mem)
    → k.allocates 0 ≡ true
    → k.readable 1 ≡ true
    → (fill_super k heap (mounted (format_disk size uid gid now bytes).bytes)).0 ≡ err einval
unfolding fill_super
fill_super-format_disk k heap size uid gid now bytes a r =
    rw (a, r, first_words size uid gid now bytes) refl
