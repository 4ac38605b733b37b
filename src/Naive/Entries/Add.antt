-- ===== src/Naive/Entries/Add.antt =====
-- `naive_add_entry` of naive/naivefs_dir.c against the directory as a map.
use filesystem_lab.Base.{
  ℕ, ◌+◌, ◌^◌, ◌<◌, ◌≡◌, ◌≢◌, ◌∙◌, refl, ap, true, arith, inl, inr, ◌⊎◌, Bool, none, some, Result,
  ok, err, eio, update,
}
use filesystem_lab.Base.Bits.{bit}
use filesystem_lab.Device.{Device, take_buffer, brelse, write_buffer, mark_buffer_dirty}
use filesystem_lab.Naive.Layout.{SbInfo, IsValid, block_size}
use filesystem_lab.Naive.Kernel.{Inode, Kernel, mark_inode_dirty}
use filesystem_lab.Naive.Alloc.{alloc_block}
use filesystem_lab.Naive.Alloc.Blocks.{Allocated, alloc_block_ok}
use filesystem_lab.Naive.Entries.{
  Name, Scan, io_error, found, exhausted, add_scan, grow_dir, add_entry, new_dir_block, put_pointer,
}
use filesystem_lab.Naive.Entries.Record.{IsName}
use filesystem_lab.Naive.Entries.Find.{
  block_entry, find_entry-congr, entry_of, or_else, or_else-none,
}
use filesystem_lab.Naive.Entries.Search.{
  add_scan-other, add_scan_self, add_scan-kept, add_scan-readable,
}
use filesystem_lab.Naive.Entries.Grow.{
  IsDir, with_pointer, put_pointer-room, new_dir_block_self, new_dir_block_other,
  entry_of-with_pointer,
}

-- The directory `dir'` on `d'` is the directory `dir` on `d` with the entry `s ↦ ino` added.
pub record Added (readable : ℕ → Bool) (s : Name) (ino : ℕ) (dir : Inode) (d : Device)
    (dir' : Inode) (d' : Device) : Type 0 where
  pub has : entry_of readable s d'.blocks dir' ≡ some ino
  pub keeps :
      (t : Name)
      → IsName t
      → s ≢ t
      → entry_of readable t d'.blocks dir' ≡ entry_of readable t d.blocks dir

pub Scan-cases : (r : Scan) → (r ≡ io_error) ⊎ ((r ≡ found) ⊎ (r ≡ exhausted))
Scan-cases io_error = inl refl
Scan-cases found = inr (inl refl)
Scan-cases exhausted = inr (inr refl)

module _ (k : Kernel) (s : Name) (ino : ℕ) (sbi : SbInfo) (dir : Inode) (d : Device) where
  abbrev scan : Scan × Device
  scan = add_scan k s ino dir.block_pointers dir.block_count 0 d

  add_entry_bad : scan.0 ≡ io_error → add_entry k s ino sbi dir d ≡ (err eio, sbi, dir, scan.1)
  unfolding add_entry
  add_entry_bad e = rw (e, add_entry)

  pub add_entry_found : scan.0 ≡ found → add_entry k s ino sbi dir d ≡ (ok tt, sbi, dir, scan.1)
  unfolding add_entry
  add_entry_found e = rw (e, add_entry)

  pub add_entry_grow :
      scan.0 ≡ exhausted → add_entry k s ino sbi dir d ≡ grow_dir k s ino sbi dir scan.1
  unfolding add_entry
  add_entry_grow e = rw (e, add_entry)

  pub found-Added :
      IsName s
      → 0 < ino
      → ino < 2 ^ 32
      → entry_of k.readable s d.blocks dir ≡ none
      → scan.0 ≡ found
      → Added k.readable s ino dir d dir scan.1
  found-Added v pos small h f = record {
    has =
        add_scan_self k s ino dir.block_pointers dir.block_count 0 d v (omega arith) f h
        ∙ ap some (omega arith);
    keeps = λ t w ne.
        find_entry-congr k.readable t scan.1.blocks d.blocks dir.block_pointers dir.block_count 0
          (λ l _ _.
            add_scan-other k s ino dir.block_pointers dir.block_count 0 d (dir.block_pointers l) t v
              w ne);
  }

  -- What `grow_dir` leaves when the allocation gave `b` and `b` can be read.
  unfoldable pub grown : ℕ → Result (Unit {0}) × SbInfo × Inode × Device
  unfolding mark_inode_dirty
  grown b =
      let dir1 = put_pointer 8 0 b dir in
      (
        ok tt,
        (alloc_block sbi).1,
        mark_inode_dirty (record dir1 { i_size = dir1.i_size + block_size }),
        brelse (
            mark_buffer_dirty b
              (write_buffer b (new_dir_block (scan.1.blocks b) ino s) (take_buffer scan.1))),
      )

  pub grow_dir_ok :
      (b : ℕ)
      → (alloc_block sbi).0 ≡ ok b
      → k.readable b ≡ true
      → grow_dir k s ino sbi dir scan.1 ≡ grown b
  unfolding grow_dir grown
  grow_dir_ok b e r = rw (e, grow_dir) (rw r)

  pub grown-Added :
      (b : ℕ)
      → IsValid sbi
      → IsDir sbi dir
      → dir.block_count < 8
      → IsName s
      → 0 < ino
      → ino < 2 ^ 32
      → entry_of k.readable s d.blocks dir ≡ none
      → scan.0 ≢ found
      → (alloc_block sbi).0 ≡ ok b
      → k.readable b ≡ true
      → Added k.readable s ino dir d (grown b).2 (grown b).3
  unfolding grown mark_inode_dirty brelse mark_buffer_dirty write_buffer take_buffer
  grown-Added b valid v room name pos small h f e r =
      rw
        (
          put_pointer-room sbi b dir v room,
          add_scan-kept k s ino dir.block_pointers dir.block_count 0 d f,
        )
        (record {
          has =
              map_of s
              ∙ rw (h, new_dir_block_self (d.blocks b) ino s name (omega arith))
                  (ap some (omega arith));
          keeps = λ t w ne.
              map_of t ∙ rw (new_dir_block_other (d.blocks b) ino s t name w ne) (or_else-none _);
        })
    where
      a : Allocated sbi b (alloc_block sbi).1
      a = alloc_block_ok sbi b valid e

      map_of :
          (t : Name)
          → entry_of k.readable t
              (update d.blocks b (new_dir_block (d.blocks b) ino s))
              (with_pointer b dir)
            ≡ or_else
                (entry_of k.readable t d.blocks dir)
                (block_entry t (new_dir_block (d.blocks b) ino s))
      map_of t =
          entry_of-with_pointer k.readable t d.blocks dir b (new_dir_block (d.blocks b) ino s)
            (λ l lt same. cc (v.in_use l lt, ap (bit sbi.block_bitmap) same, a.was_free))
            (ground (arith, a.in_data, valid.after_bitmaps, valid.table_fits)) r

-- `naive_add_entry` on a directory with room for another block, whose pointers stand first and are
-- marked as used in a valid super block, when the blocks can be read and a block can be allocated:
-- for an inode number from 1 to 2 ^ 32 - 1 and a name that fits a record and has no entry yet it returns 0, and
-- afterwards the directory, read as a map, has that name with its inode number, and every other
-- name as before.
pub add_entry_adds :
    (k : Kernel) (s : Name) (ino : ℕ) (sbi : SbInfo) (dir : Inode) (d : Device) (b : ℕ)
    → ((x : ℕ) → k.readable x ≡ true)
    → (alloc_block sbi).0 ≡ ok b
    → IsValid sbi
    → IsDir sbi dir
    → dir.block_count < 8
    → IsName s
    → 0 < ino
    → ino < 2 ^ 32
    → entry_of k.readable s d.blocks dir ≡ none
    → let (r, _, dir', d') = add_entry k s ino sbi dir d in
      (r ≡ ok tt) × Added k.readable s ino dir d dir' d'
add_entry_adds k s ino sbi dir d b r e valid v room name pos small h =
    go (Scan-cases (scan k s ino sbi dir d).0)
  where
    go :
        ((scan k s ino sbi dir d).0 ≡ io_error)
          ⊎ (((scan k s ino sbi dir d).0 ≡ found) ⊎ ((scan k s ino sbi dir d).0 ≡ exhausted))
        → let (r, _, dir', d') = add_entry k s ino sbi dir d in
          (r ≡ ok tt) × Added k.readable s ino dir d dir' d'
    go (inl bad) = absurd (add_scan-readable k s ino dir.block_pointers r dir.block_count 0 d bad)
    go (inr (inl f)) =
        rw (add_entry_found k s ino sbi dir d f)
          (refl, found-Added k s ino sbi dir d name pos small h f)
    go (inr (inr f)) =
        rw (add_entry_grow k s ino sbi dir d f, grow_dir_ok k s ino sbi dir d b e (r b))
          (
            unfold grown in refl,
            grown-Added k s ino sbi dir d b valid v room name pos small h (λ g. cc (f, g)) e (r b),
          )
