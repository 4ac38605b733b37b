-- ===== src/Naive/Alloc/Blocks.antt =====
-- `naive_alloc_block` and `naive_free_block` of naive/naivefs_super.c.
use filesystem_lab.Base.{
  ℕ, ◌*◌, ◌/◌, ◌≤◌, ◌<◌, ◌≡◌, ◌↔◌, ◌∙◌, true, false, Option, none, some, arith, ltb, Bool,
  Option-cases, inl, inr, ◌==◌, if◌then◌else◌, refl, ap, ok, err, enospc, Result,
}
use filesystem_lab.Base.Bytes.{Mem}
use filesystem_lab.Base.Bits.{
  bit, bit-set_bit, bit-clear_bit, set_bit-IsBytes, clear_bit, clear_bit-IsBytes,
}
use filesystem_lab.Naive.Layout.{SbInfo, IsValid, block_size}
use filesystem_lab.Naive.Alloc.{search_block, alloc_block, free_block, mark_block}
use filesystem_lab.Naive.Alloc.Lowest.{AllSet}
use filesystem_lab.Naive.Alloc.Search.{Found, search_limit, search_block-Found}

-- What an allocation of block `b` did, from `sbi` to `sbi'`.
pub record Allocated (sbi : SbInfo) (b : ℕ) (sbi' : SbInfo) : Type 0 where
  pub in_data : sbi.data_block_no ≤ b
  pub in_device : b < sbi.block_total
  pub was_free : bit sbi.block_bitmap b ≡ false
  pub lowest : AllSet sbi.block_bitmap sbi.data_block_no b
  pub marked : (k : ℕ) → bit sbi'.block_bitmap k ≡ (if b == k then true else bit sbi.block_bitmap k)
  pub rest : sbi' ≡ record sbi { block_bitmap = sbi'.block_bitmap }

-- A block that `naive_alloc_block` returns for a valid super block is the lowest free one of the data
-- region, inside the device, and the call marks that bit of the bitmap and changes nothing else.
pub alloc_block_ok :
    (sbi : SbInfo) (b : ℕ)
    → IsValid sbi
    → (alloc_block sbi).0 ≡ ok b
    → Allocated sbi b (alloc_block sbi).1
unfolding alloc_block
alloc_block_ok sbi b v h = go (search_block sbi) (search_block-Found sbi v.data_fits) h
  where
    go :
        (o : Option ℕ)
        → Found sbi.block_bitmap sbi.data_block_no (search_limit sbi) o
        → let r : Result ℕ × SbInfo = elim o [
          | none ↦ (err enospc, sbi)
          | some b ↦ (ok b, mark_block sbi b)
        ] in
          r.0 ≡ ok b → Allocated sbi b r.1
    go none f h = absurd (cc)
    go (some c) f h =
        let e : c ≡ b = cc in
        rw (← e) record {
          in_data = f.from;
          in_device = omega (arith, f.below, v.data_fits);
          was_free = f.is_free;
          lowest = f.least;
          marked = λ k. bit-set_bit sbi.block_bitmap c k v.block_bytes;
          rest = refl;
        }

-- `naive_alloc_block` of a valid super block answers -ENOSPC, leaving everything as it was, exactly
-- when every bit of the data region up to the last whole byte of the bitmap is set.
pub alloc_block_full :
    (sbi : SbInfo)
    → IsValid sbi
    → (alloc_block sbi ≡ (err enospc, sbi))
      ↔ AllSet sbi.block_bitmap sbi.data_block_no (sbi.block_total / 8 * 8)
unfolding alloc_block
alloc_block_full sbi v = go (search_block sbi) (search_block-Found sbi v.data_fits)
  where
    go :
        (o : Option ℕ)
        → Found sbi.block_bitmap sbi.data_block_no (search_limit sbi) o
        → let r : Result ℕ × SbInfo = elim o [
          | none ↦ (err enospc, sbi)
          | some b ↦ (ok b, mark_block sbi b)
        ] in
          (r ≡ (err enospc, sbi))
          ↔ AllSet sbi.block_bitmap sbi.data_block_no (sbi.block_total / 8 * 8)
    go none f = (λ _ k p q. f k p (omega (arith, v.data_fits)), λ _. refl)
    go (some c) f = (
      λ h. absurd (cc (ap (λ (r : Result ℕ × SbInfo). r.0) h)),
      λ all. cc (all c f.from (omega (arith, f.below)), f.is_free),
    )

pub free_block-bit :
    (sbi : SbInfo) (b k : ℕ)
    → IsValid sbi
    → b < sbi.block_total
    → bit (free_block sbi b).block_bitmap k ≡ (if b == k then false else bit sbi.block_bitmap k)
unfolding free_block
free_block-bit sbi b k v h =
    ground (arith, v.block_bits, bit-clear_bit sbi.block_bitmap b k v.block_bytes)

-- The allocators keep the super block valid.
pub alloc_block-IsValid : (sbi : SbInfo) → IsValid sbi → IsValid (alloc_block sbi).1
unfolding alloc_block mark_block
alloc_block-IsValid sbi v = go (search_block sbi)
  where
    go :
        (o : Option ℕ)
        → let r : Result ℕ × SbInfo = elim o [
          | none ↦ (err enospc, sbi)
          | some b ↦ (ok b, mark_block sbi b)
        ] in
          IsValid r.1
    go none = v
    go (some c) = record {
      after_bitmaps = v.after_bitmaps;
      table_fits = v.table_fits;
      data_fits = v.data_fits;
      block_bits = v.block_bits;
      inode_bits = v.inode_bits;
      block_bytes = set_bit-IsBytes sbi.block_bitmap c v.block_bytes;
      inode_bytes = v.inode_bytes;
    }

pub free_block-IsValid : (sbi : SbInfo) (b : ℕ) → IsValid sbi → IsValid (free_block sbi b)
unfolding free_block
free_block-IsValid sbi b v = go (ltb (b / 8) (sbi.block_bitmap_blocks * block_size))
  where
    go :
        (t : Bool)
        → IsValid (if t then record sbi { block_bitmap = clear_bit sbi.block_bitmap b } else sbi)
    go true = record {
      after_bitmaps = v.after_bitmaps;
      table_fits = v.table_fits;
      data_fits = v.data_fits;
      block_bits = v.block_bits;
      inode_bits = v.inode_bits;
      block_bytes = clear_bit-IsBytes sbi.block_bitmap b v.block_bytes;
      inode_bytes = v.inode_bytes;
    }
    go false = v

-- Freeing the block that was just allocated from a valid super block gives back the bitmap as it was
-- before, bit for bit.
pub free_block-alloc_block :
    (sbi : SbInfo) (b k : ℕ)
    → IsValid sbi
    → (alloc_block sbi).0 ≡ ok b
    → bit (free_block (alloc_block sbi).1 b).block_bitmap k ≡ bit sbi.block_bitmap k
free_block-alloc_block sbi b k v h =
    let a = alloc_block_ok sbi b v h in
    ground (
      arith,
      free_block-bit (alloc_block sbi).1 b k (alloc_block-IsValid sbi v),
      a.marked k,
      a.was_free,
      a.in_device,
      ap (λ (s : SbInfo). s.block_total) a.rest,
    )

search_block-inode_bitmap :
    (sbi : SbInfo) (m : Mem) → search_block (record sbi { inode_bitmap = m }) ≡ search_block sbi
unfolding search_block
search_block-inode_bitmap sbi m = refl

-- The inode bitmap plays no part in the allocation of blocks.
pub alloc_block-inode_bitmap :
    (sbi : SbInfo) (m : Mem)
    → (alloc_block (record sbi { inode_bitmap = m })).0 ≡ (alloc_block sbi).0
unfolding alloc_block
alloc_block-inode_bitmap sbi m = elim (Option-cases (search_block sbi)) [
  | inl e ↦ rw (search_block-inode_bitmap sbi m ∙ e, alloc_block)
  | inr (b, e) ↦ rw (search_block-inode_bitmap sbi m ∙ e, alloc_block)
]

pub inode_bitmap-alloc_block : (sbi : SbInfo) → (alloc_block sbi).1.inode_bitmap ≡ sbi.inode_bitmap
unfolding alloc_block mark_block
inode_bitmap-alloc_block sbi = elim (Option-cases (search_block sbi)) [
  | inl e ↦ rw (e, alloc_block)
  | inr (b, e) ↦ rw (e, alloc_block)
]

pub inode_bitmap-free_block :
    (sbi : SbInfo) (b : ℕ) → (free_block sbi b).inode_bitmap ≡ sbi.inode_bitmap
unfolding free_block
inode_bitmap-free_block sbi b = ground arith

-- The number of inodes stays.
pub inode_total-alloc_block : (sbi : SbInfo) → (alloc_block sbi).1.inode_total ≡ sbi.inode_total
unfolding alloc_block mark_block
inode_total-alloc_block sbi = elim (Option-cases (search_block sbi)) [
  | inl e ↦ rw (e, alloc_block)
  | inr (b, e) ↦ rw (e, alloc_block)
]

pub inode_total-free_block :
    (sbi : SbInfo) (b : ℕ) → (free_block sbi b).inode_total ≡ sbi.inode_total
unfolding free_block
inode_total-free_block sbi b = ground arith
