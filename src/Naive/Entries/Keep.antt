-- ===== src/Naive/Entries/Keep.antt =====
-- What `naive_add_entry` does to the super block, on every path.
use filesystem_lab.Base.{
  ℕ, ◌≡◌, ◌∙◌, refl, inl, inr, Bool-cases, Result, Result-cases, ok, err, eio,
}
use filesystem_lab.Device.{Device}
use filesystem_lab.Naive.Layout.{SbInfo, IsValid}
use filesystem_lab.Naive.Kernel.{Inode, Kernel}
use filesystem_lab.Naive.Alloc.{alloc_block}
use filesystem_lab.Naive.Alloc.Blocks.{
  alloc_block-IsValid, free_block-IsValid, inode_bitmap-alloc_block, inode_bitmap-free_block,
  inode_total-alloc_block, inode_total-free_block,
}
use filesystem_lab.Naive.Entries.{
  Name, Scan, io_error, found, exhausted, add_scan, grow_dir, add_entry,
}

-- The super block stays valid, and the inode bitmap is not touched.
pub record KeepsNumbers (sbi sbi' : SbInfo) : Type 0 where
  pub valid : IsValid sbi'
  pub same : sbi'.inode_bitmap ≡ sbi.inode_bitmap
  pub total : sbi'.inode_total ≡ sbi.inode_total

module _ (k : Kernel) (s : Name) (ino : ℕ) (sbi : SbInfo) (dir : Inode) (v : IsValid sbi) where
  grow_dir-KeepsNumbers : (d : Device) → KeepsNumbers sbi (grow_dir k s ino sbi dir d).1
  unfolding grow_dir
  grow_dir-KeepsNumbers d = elim (Result-cases (alloc_block sbi).0) [
    | inr (e, q) ↦ rw (q, grow_dir) allocated
    | inl (b, q) ↦
        rw (q, grow_dir)
          (elim (Bool-cases (k.readable b)) [
            | inl r ↦ rw r allocated
            | inr r ↦ rw r (record {
              valid = free_block-IsValid (alloc_block sbi).1 b allocated.valid;
              same = inode_bitmap-free_block (alloc_block sbi).1 b ∙ allocated.same;
              total = inode_total-free_block (alloc_block sbi).1 b ∙ allocated.total;
            })
          ])
  ]
    where
      allocated : KeepsNumbers sbi (alloc_block sbi).1
      allocated = record {
        valid = alloc_block-IsValid sbi v;
        same = inode_bitmap-alloc_block sbi;
        total = inode_total-alloc_block sbi;
      }

  pub add_entry-KeepsNumbers : (d : Device) → KeepsNumbers sbi (add_entry k s ino sbi dir d).1
  unfolding add_entry
  add_entry-KeepsNumbers d = go (add_scan k s ino dir.block_pointers dir.block_count 0 d)
    where
      go :
          (r : Scan × Device)
          → KeepsNumbers sbi (
              let x : Result (Unit {0}) × SbInfo × Inode × Device = elim r.0 [
                | io_error ↦ (err eio, sbi, dir, r.1)
                | found ↦ (ok tt, sbi, dir, r.1)
                | exhausted ↦ grow_dir k s ino sbi dir r.1
              ] in
              x.1)
      go (io_error, e) = record { valid = v; same = refl; total = refl }
      go (found, e) = record { valid = v; same = refl; total = refl }
      go (exhausted, e) = grow_dir-KeepsNumbers e
