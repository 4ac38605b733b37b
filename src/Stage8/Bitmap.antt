-- ===== src/Stage8/Bitmap.antt =====
-- The bitmap functions of naive/naivefs-8/naivefs.c.
use filesystem_lab.Base.{
  ℕ, zero, suc, ◌+◌, ◌-◌, ◌/◌, ◌%◌, ◌≤◌, ◌<◌, ◌≡◌, refl, Bool, true, false, Option, none, some,
  arith, Bool-cases, inl, inr, if◌then◌else◌,
}
use filesystem_lab.Base.Bytes.{Mem}
use filesystem_lab.Base.Bits.{byte_shift_test, byte_shift_test-eq, bit, set_bit, IsBytes}
use filesystem_lab.Stage8.State.{SbInfo}

-- `naive_test_bit`: `(*p >> (nr & 7)) & 1` of the byte `nr >> 3`.
unfoldable pub test_bit : ℕ → Mem → Bool
test_bit nr m = byte_shift_test (m (nr / 8)) (nr % 8)

test_bit-eq-bit : (nr : ℕ) (m : Mem) → IsBytes m → test_bit nr m ≡ bit m nr
unfolding test_bit bit
test_bit-eq-bit nr m h = byte_shift_test-eq (m (nr / 8)) (nr % 8) (h (nr / 8)) (omega arith)

-- The first clear bit among the `n` from `i` on.
first_clear : Mem → ℕ → ℕ → Option ℕ
unfolding test_bit
first_clear m zero i = none
first_clear m (suc n) i =
    let rest = first_clear m n (i + 1) in if test_bit i m then rest else some i

-- `naive_find_free_block`; `none` stands for -1.
unfoldable pub find_free_block : SbInfo → Option ℕ × SbInfo
unfolding first_clear set_bit
find_free_block sbi =
    let start = sbi.data_blocks_start in
    elim (first_clear sbi.block_bitmap (sbi.blocks_count - start) start) [
      | none ↦ (none, sbi)
      | some i ↦ (
        some i,
        record sbi { block_bitmap = set_bit sbi.block_bitmap i; block_bitmap_dirty = true },
      )
    ]

-- `naive_find_free_inode`; `none` stands for -1.
unfoldable pub find_free_inode : SbInfo → Option ℕ × SbInfo
unfolding first_clear set_bit
find_free_inode sbi = elim (first_clear sbi.inode_bitmap sbi.inodes_count 0) [
  | none ↦ (none, sbi)
  | some i ↦
      (some i, record sbi { inode_bitmap = set_bit sbi.inode_bitmap i; inode_bitmap_dirty = true })
]

-- The bits from `lo` up to `hi` are set.
abbrev pub AllSet : Mem → ℕ → ℕ → Type 0
AllSet m lo hi = (k : ℕ) → lo ≤ k → k < hi → bit m k ≡ true

pub record FirstClear (m : Mem) (lo hi b : ℕ) : Type 0 where
  pub from : lo ≤ b
  pub below : b < hi
  pub is_free : bit m b ≡ false
  pub least : AllSet m lo b

abbrev Found : Mem → ℕ → ℕ → Option ℕ → Type 0
Found m lo hi none = AllSet m lo hi
Found m lo hi (some b) = FirstClear m lo hi b

Found-later :
    (m : Mem) (i n : ℕ) (o : Option ℕ)
    → bit m i ≡ true
    → Found m (i + 1) (i + 1 + n) o
    → Found m i (i + suc n) o
Found-later m i n none h all = λ k lo hi. ground (arith, all k)
Found-later m i n (some b) h r = record {
  from = omega (arith, r.from);
  below = omega (arith, r.below);
  is_free = r.is_free;
  least = λ k lo hi. ground (arith, r.least k);
}

first_clear-Found : (m : Mem) (n i : ℕ) → IsBytes m → Found m i (i + n) (first_clear m n i)
unfolding first_clear
first_clear-Found m zero i h = λ k lo hi. absurd (omega arith)
first_clear-Found m (suc n) i h = elim (Bool-cases (test_bit i m)) [
  | inl used ↦ rw used (
      Found-later m i n (first_clear m n (i + 1)) (ground (arith, test_bit-eq-bit i m h))
        (first_clear-Found m n (i + 1) h))
  | inr free ↦ rw free (record {
    from = omega arith;
    below = omega arith;
    is_free = ground (arith, test_bit-eq-bit i m h);
    least = λ k lo hi. absurd (omega arith);
  })
]

-- What `naive_find_free_block` returned for `sbi`, with the super block `sbi'` after it.
abbrev pub BlockAnswer : SbInfo → Option ℕ × SbInfo → Type 0
BlockAnswer sbi (none, sbi') =
    (sbi' ≡ sbi) × AllSet sbi.block_bitmap sbi.data_blocks_start sbi.blocks_count
BlockAnswer sbi (some b, sbi') =
    FirstClear sbi.block_bitmap sbi.data_blocks_start sbi.blocks_count b
    × (sbi' ≡ record sbi { block_bitmap = set_bit sbi.block_bitmap b; block_bitmap_dirty = true })

-- `naive_find_free_block` returns the lowest free block of the data region, marking that bit and
-- its buffer and nothing else, or -1 with no change when every data block is in use. The bitmap is
-- of bytes, and the data region begins inside the device.
pub find_free_block_lem :
    (sbi : SbInfo)
    → IsBytes sbi.block_bitmap
    → sbi.data_blocks_start ≤ sbi.blocks_count
    → BlockAnswer sbi (find_free_block sbi)
unfolding find_free_block
find_free_block_lem sbi h le =
    go (first_clear sbi.block_bitmap n start)
      (rw e at (first_clear-Found sbi.block_bitmap n start h))
  where
    start : ℕ
    start = sbi.data_blocks_start

    n : ℕ
    n = sbi.blocks_count - start

    e : start + n ≡ sbi.blocks_count
    e = omega arith

    go :
        (o : Option ℕ)
        → Found sbi.block_bitmap start sbi.blocks_count o
        → let x : Option ℕ × SbInfo = elim o [
          | none ↦ (none, sbi)
          | some i ↦ (
            some i,
            record sbi { block_bitmap = set_bit sbi.block_bitmap i; block_bitmap_dirty = true },
          )
        ] in
          BlockAnswer sbi x
    go none f = (refl, f)
    go (some b) f = (f, refl)

-- What `naive_find_free_inode` returned for `sbi`, with the super block `sbi'` after it.
abbrev pub InodeAnswer : SbInfo → Option ℕ × SbInfo → Type 0
InodeAnswer sbi (none, sbi') = (sbi' ≡ sbi) × AllSet sbi.inode_bitmap 0 sbi.inodes_count
InodeAnswer sbi (some i, sbi') =
    FirstClear sbi.inode_bitmap 0 sbi.inodes_count i
    × (sbi' ≡ record sbi { inode_bitmap = set_bit sbi.inode_bitmap i; inode_bitmap_dirty = true })

-- `naive_find_free_inode` returns the lowest clear bit of the inode bitmap, marking that bit and its
-- buffer and nothing else, or -1 with no change when every inode is in use. The bitmap is of bytes.
pub find_free_inode_lem :
    (sbi : SbInfo) → IsBytes sbi.inode_bitmap → InodeAnswer sbi (find_free_inode sbi)
unfolding find_free_inode
find_free_inode_lem sbi h =
    go (first_clear sbi.inode_bitmap sbi.inodes_count 0)
      (rw e at (first_clear-Found sbi.inode_bitmap sbi.inodes_count 0 h))
  where
    e : 0 + sbi.inodes_count ≡ sbi.inodes_count
    e = omega arith

    go :
        (o : Option ℕ)
        → Found sbi.inode_bitmap 0 sbi.inodes_count o
        → let x : Option ℕ × SbInfo = elim o [
          | none ↦ (none, sbi)
          | some i ↦ (
            some i,
            record sbi { inode_bitmap = set_bit sbi.inode_bitmap i; inode_bitmap_dirty = true },
          )
        ] in
          InodeAnswer sbi x
    go none f = (refl, f)
    go (some i) f = (f, refl)
