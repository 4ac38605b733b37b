-- ===== src/Naive/Volume/Directory.antt =====
-- What `naive_add_entry` and `naive_remove_entry` (naive/naivefs_dir.c) do to blocks that are in use
-- elsewhere.
use filesystem_lab.Base.{
  ℕ, zero, suc, ◌+◌, ◌≤◌, ◌<◌, ◌≡◌, ◌≢◌, refl, true, false, arith, inl, inr, Bool-cases,
  Option-cases, Result-cases, ok, lt_or_le, ◌==◌,
}
use filesystem_lab.Device.{Device, take_buffer, brelse, write_buffer, mark_buffer_dirty}
use filesystem_lab.Naive.Layout.{SbInfo, IsValid}
use filesystem_lab.Naive.Kernel.{Inode, Kernel, mark_inode_dirty}
use filesystem_lab.Naive.Alloc.{alloc_block}
use filesystem_lab.Naive.Entries.{
  Name, add_scan, put_pointer, grow_dir, add_entry, find_record, remove_scan, remove_entry,
}
use filesystem_lab.Naive.Entries.Search.{add_scan-readable}
use filesystem_lab.Naive.Entries.Grow.{IsDir, put_pointer-room, put_pointer-full}
use filesystem_lab.Naive.Entries.Add.{Scan-cases, add_entry_found, add_entry_grow}
use filesystem_lab.Naive.Files.Owned.{full_same}
use filesystem_lab.Naive.Files.Spread.{Foreign, Spread, Spread-refl, Spread-with_block}

module _ (k : Kernel) (s : Name) (ino : ℕ) (sbi : SbInfo) (dir : Inode)
    (reads : (x : ℕ) → k.readable x ≡ true) (valid : IsValid sbi) (v : IsDir sbi dir) where
  -- The new block is the directory's, or, when all pointers are taken, nobody's.
  put_pointer-Spread :
      (b : ℕ)
      → (alloc_block sbi).0 ≡ ok b
      → Spread sbi dir (alloc_block sbi).1 (put_pointer 8 0 b dir)
  put_pointer-Spread b e =
      let with_new = Spread-with_block sbi dir valid b e in
      elim (lt_or_le dir.block_count 8) [
        | inl room ↦ rw (put_pointer-room sbi b dir v room) with_new
        | inr full ↦
            rw (put_pointer-full 8 0 b dir (λ l _ lt. v.is_present l (omega (arith, full))))
              (record {
                same_rest = with_new.same_rest;
                same_number = refl;
                still_used = with_new.still_used;
                still_foreign = λ x _ f. f;
              })
      ]

  grow_dir-Spread :
      (d : Device) → let (_, sbi', dir', _) = grow_dir k s ino sbi dir d in Spread sbi dir sbi' dir'
  unfolding grow_dir mark_inode_dirty
  grow_dir-Spread d = elim (Result-cases (alloc_block sbi).0) [
    | inr (x, e) ↦ rw (e, grow_dir) (rw (full_same sbi x e) (Spread-refl sbi dir))
    | inl (b, e) ↦
        let p = put_pointer-Spread b e in
        rw (e, grow_dir)
          (rw (reads b) (record {
            same_rest = p.same_rest;
            same_number = p.same_number;
            still_used = p.still_used;
            still_foreign = p.still_foreign;
          }))
  ]

  pub add_entry-Spread :
      (d : Device)
      → let (_, sbi', dir', _) = add_entry k s ino sbi dir d in Spread sbi dir sbi' dir'
  add_entry-Spread d =
      elim (Scan-cases (add_scan k s ino dir.block_pointers dir.block_count 0 d).0) [
        | inl bad ↦
            absurd (add_scan-readable k s ino dir.block_pointers reads dir.block_count 0 d bad)
        | inr (inl f) ↦ rw (add_entry_found k s ino sbi dir d f) (Spread-refl sbi dir)
        | inr (inr f) ↦ rw (add_entry_grow k s ino sbi dir d f) (grow_dir-Spread _)
      ]

module _ (k : Kernel) (s : Name) (x : ℕ) where
  remove_scan-frame :
      (p : ℕ → ℕ) (n i : ℕ) (d : Device)
      → ((l : ℕ) → i ≤ l → l < i + n → p l ≢ x)
      → (remove_scan k s p n i d).1.blocks x ≡ d.blocks x
  unfolding remove_scan take_buffer brelse write_buffer mark_buffer_dirty
  remove_scan-frame p zero i d apart = refl
  remove_scan-frame p (suc n) i d apart =
      let later : (e : Device) → (remove_scan k s p n (i + 1) e).1.blocks x ≡ e.blocks x =
        λ e. remove_scan-frame p n (i + 1) e (λ l lo hi. apart l (omega arith) (omega arith)) in
      elim (Bool-cases (p i == 0)) [
        | inl hole ↦ rw hole (later d)
        | inr there ↦ elim (Bool-cases (k.readable (p i))) [
          | inr bad ↦ rw (there, bad) refl
          | inl good ↦ elim (Option-cases (find_record s (d.blocks (p i)))) [
            | inl absent ↦ rw (there, good, absent) (later (brelse (take_buffer d)))
            | inr (j, here) ↦
                let other : (p i == x) ≡ false =
                  ground (arith, apart i (omega arith) (omega arith)) in
                rw (there, good, here, other) refl
          ]
        ]
      ]

  pub remove_entry-frame :
      (dir : Inode) (d : Device) → Foreign dir x → (remove_entry k s dir d).1.blocks x ≡ d.blocks x
  unfolding remove_entry
  remove_entry-frame dir d f =
      remove_scan-frame dir.block_pointers dir.block_count 0 d (λ l _ hi. f l (omega arith))
