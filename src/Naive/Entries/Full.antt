-- ===== src/Naive/Entries/Full.antt =====
-- `naive_add_entry` of naive/naivefs_dir.c on a directory that has all its eight blocks.
use filesystem_lab.Base.{
  ℕ, zero, suc, ◌+◌, ◌≤◌, ◌<◌, ◌≡◌, ◌≢◌, ◌∙◌, refl, ap, true, false, arith, inl, inr, Bool-cases,
  none, ◌==◌, ==_refl, ok, update,
}
use filesystem_lab.Base.Bits.{bit}
use filesystem_lab.Device.{Device, take_buffer, brelse, write_buffer, mark_buffer_dirty}
use filesystem_lab.Naive.Layout.{SbInfo, IsValid}
use filesystem_lab.Naive.Kernel.{Inode, Kernel, mark_inode_dirty}
use filesystem_lab.Naive.Alloc.{alloc_block}
use filesystem_lab.Naive.Alloc.Blocks.{Allocated, alloc_block_ok}
use filesystem_lab.Naive.Entries.{
  Name, exhausted, free_record, add_scan, put_pointer, new_dir_block, add_entry,
}
use filesystem_lab.Base.Bytes.{Mem}
use filesystem_lab.Naive.Entries.Add.{grown, add_entry_grow, grow_dir_ok}
use filesystem_lab.Naive.Entries.Find.{block_entry, find_entry-congr, entry_of}
use filesystem_lab.Naive.Entries.Grow.{IsDir, put_pointer-full}

-- The scan of blocks that have no free record.
scan_full :
    (k : Kernel) (s : Name) (ino : ℕ) (p : ℕ → ℕ) (n i : ℕ) (d e : Device)
    → ((b : ℕ) → k.readable b ≡ true)
    → e.blocks ≡ d.blocks
    → ((l : ℕ) → i ≤ l → l < i + n → free_record (d.blocks (p l)) ≡ none)
    → ((add_scan k s ino p n i e).0 ≡ exhausted) × ((add_scan k s ino p n i e).1.blocks ≡ d.blocks)
unfolding add_scan brelse take_buffer
scan_full k s ino p zero i d e r same full = (refl, same)
scan_full k s ino p (suc n) i d e r same full = elim (Bool-cases (p i == 0)) [
  | inl hole ↦
      rw hole
        (scan_full k s ino p n (i + 1) d e r same (λ l a c. full l (omega arith) (omega arith)))
  | inr present ↦
      let none_free : free_record (e.blocks (p i)) ≡ none =
        rw same (full i (omega arith) (omega arith)) in
      rw (present, r (p i), none_free)
        (scan_full k s ino p n (i + 1) d (brelse (take_buffer e)) r same
          (λ l a c. full l (omega arith) (omega arith)))
]

-- `naive_add_entry` on a directory with eight blocks and no free record, whose pointers are marked
-- as used in a valid super block, when a block can be
-- allocated and blocks can be read: it returns 0, but the name, which had no entry, has none
-- afterwards, and the new block is marked as used though no pointer of the directory refers to it.
pub full_directory_loses_entry :
    (k : Kernel) (s : Name) (ino : ℕ) (sbi : SbInfo) (dir : Inode) (d : Device) (b : ℕ)
    → ((x : ℕ) → k.readable x ≡ true)
    → (alloc_block sbi).0 ≡ ok b
    → IsValid sbi
    → IsDir sbi dir
    → dir.block_count ≡ 8
    → ((l : ℕ) → l < 8 → free_record (d.blocks (dir.block_pointers l)) ≡ none)
    → entry_of k.readable s d.blocks dir ≡ none
    → let (r, sbi', dir', d') = add_entry k s ino sbi dir d in
      (r ≡ ok tt)
      × (entry_of k.readable s d'.blocks dir' ≡ none)
      × (bit sbi'.block_bitmap b ≡ true)
      × ((l : ℕ) → l < 8 → dir'.block_pointers l ≢ b)
unfolding grown mark_inode_dirty brelse mark_buffer_dirty write_buffer take_buffer
full_directory_loses_entry k s ino sbi dir d b r e valid v eight full absent =
    rw (add_entry_grow k s ino sbi dir d scan.0, grow_dir_ok k s ino sbi dir d b e (r b))
      (rw whole (
        refl,
        find_entry-congr k.readable s _ d.blocks dir.block_pointers dir.block_count 0
              (λ l _ lt. kept l (omega arith))
            ∙ absent,
        a.marked b ∙ rw (==_refl b) refl,
        apart,
      ))
  where
    scan :
        let a = add_scan k s ino dir.block_pointers dir.block_count 0 d in
        (a.0 ≡ exhausted) × (a.1.blocks ≡ d.blocks)
    scan =
        scan_full k s ino dir.block_pointers dir.block_count 0 d d r refl
          (λ l _ lt. full l (omega arith))

    whole : put_pointer 8 0 b dir ≡ dir
    whole = put_pointer-full 8 0 b dir (λ l _ lt. v.is_present l (omega arith))

    a : Allocated sbi b (alloc_block sbi).1
    a = alloc_block_ok sbi b valid e

    apart : (l : ℕ) → l < 8 → dir.block_pointers l ≢ b
    apart l lt same = cc (v.in_use l (omega arith), ap (bit sbi.block_bitmap) same, a.was_free)

    after : ℕ → Mem
    after = (add_scan k s ino dir.block_pointers dir.block_count 0 d).1.blocks

    kept :
        (l : ℕ)
        → l < 8
        → block_entry s (update after b (new_dir_block (after b) ino s) (dir.block_pointers l))
          ≡ block_entry s (d.blocks (dir.block_pointers l))
    kept l lt =
        let other : (b == dir.block_pointers l) ≡ false = ground (arith, apart l lt) in
        rw other (rw scan.1 refl)
