-- ===== src/Naive/Entries/Frame.antt =====
-- What `naive_add_entry` (naive/naivefs_dir.c) leaves alone: blocks that are neither the directory's
-- nor newly allocated, and the link count.
use filesystem_lab.Base.{
  ℕ, zero, suc, ◌+◌, ◌≤◌, ◌<◌, ◌≡◌, ◌≢◌, ◌∙◌, refl, arith, false, Bool-cases, inl, inr,
  Option-cases, Result, Result-cases, ok, err, eio, ◌==◌,
}
use filesystem_lab.Device.{Device, take_buffer, brelse, write_buffer, mark_buffer_dirty}
use filesystem_lab.Naive.Layout.{SbInfo}
use filesystem_lab.Naive.Kernel.{Inode, Kernel, mark_inode_dirty}
use filesystem_lab.Naive.Alloc.{alloc_block}
use filesystem_lab.Naive.Entries.{
  Name, Scan, io_error, found, exhausted, add_scan, put_pointer, grow_dir, add_entry, free_record,
}

module _ (k : Kernel) (s : Name) (ino : ℕ) (x : ℕ) where
  add_scan-frame :
      (p : ℕ → ℕ) (n i : ℕ) (d : Device)
      → ((l : ℕ) → i ≤ l → l < i + n → p l ≢ x)
      → (add_scan k s ino p n i d).1.blocks x ≡ d.blocks x
  unfolding add_scan take_buffer brelse write_buffer mark_buffer_dirty
  add_scan-frame p zero i d apart = refl
  add_scan-frame p (suc n) i d apart =
      let later : (e : Device) → (add_scan k s ino p n (i + 1) e).1.blocks x ≡ e.blocks x =
        λ e. add_scan-frame p n (i + 1) e (λ l lo hi. apart l (omega arith) (omega arith)) in
      elim (Bool-cases (p i == 0)) [
        | inl hole ↦ rw hole (later d)
        | inr there ↦ elim (Bool-cases (k.readable (p i))) [
          | inr bad ↦ rw (there, bad) refl
          | inl good ↦ elim (Option-cases (free_record (d.blocks (p i)))) [
            | inl full ↦ rw (there, good, full) (later (brelse (take_buffer d)))
            | inr (j, free) ↦
                let other : (p i == x) ≡ false =
                  ground (arith, apart i (omega arith) (omega arith)) in
                rw (there, good, free, other) refl
          ]
        ]
      ]

  grow_dir-frame :
      (sbi : SbInfo) (dir : Inode) (d : Device)
      → ((b : ℕ) → (alloc_block sbi).0 ≡ ok b → b ≢ x)
      → (grow_dir k s ino sbi dir d).3.blocks x ≡ d.blocks x
  unfolding grow_dir take_buffer brelse write_buffer mark_buffer_dirty
  grow_dir-frame sbi dir d fresh = elim (Result-cases (alloc_block sbi).0) [
    | inr (e, q) ↦ rw (q, grow_dir) refl
    | inl (b, q) ↦
        let other : (b == x) ≡ false = ground (arith, fresh b q) in
        rw (q, grow_dir)
          (elim (Bool-cases (k.readable b)) [ inl r ↦ rw (r, other) refl | inr r ↦ rw r refl ])
  ]

  pub add_entry-frame :
      (sbi : SbInfo) (dir : Inode) (d : Device)
      → ((l : ℕ) → l < dir.block_count → dir.block_pointers l ≢ x)
      → ((b : ℕ) → (alloc_block sbi).0 ≡ ok b → b ≢ x)
      → (add_entry k s ino sbi dir d).3.blocks x ≡ d.blocks x
  unfolding add_entry
  add_entry-frame sbi dir d apart fresh =
      go (add_scan k s ino dir.block_pointers dir.block_count 0 d)
        (add_scan-frame dir.block_pointers dir.block_count 0 d (λ l _ hi. apart l (omega arith)))
    where
      go :
          (r : Scan × Device)
          → r.1.blocks x ≡ d.blocks x
          → (let a : Result (Unit {0}) × SbInfo × Inode × Device = elim r.0 [
            | io_error ↦ (err eio, sbi, dir, r.1)
            | found ↦ (ok tt, sbi, dir, r.1)
            | exhausted ↦ grow_dir k s ino sbi dir r.1
          ] in
              a.3.blocks x ≡ d.blocks x)
      go (io_error, e) h = h
      go (found, e) h = h
      go (exhausted, e) h = grow_dir-frame sbi dir e fresh ∙ h

i_nlink-put_pointer : (n i b : ℕ) (dir : Inode) → (put_pointer n i b dir).i_nlink ≡ dir.i_nlink
unfolding put_pointer
i_nlink-put_pointer zero i b dir = refl
i_nlink-put_pointer (suc n) i b dir = ground (arith, i_nlink-put_pointer n (i + 1) b dir)

i_nlink-grow_dir :
    (k : Kernel) (s : Name) (ino : ℕ) (sbi : SbInfo) (dir : Inode) (d : Device)
    → (grow_dir k s ino sbi dir d).2.i_nlink ≡ dir.i_nlink
unfolding grow_dir mark_inode_dirty
i_nlink-grow_dir k s ino sbi dir d = elim (Result-cases (alloc_block sbi).0) [
  | inr (e, q) ↦ rw (q, grow_dir) refl
  | inl (b, q) ↦
      rw (q, grow_dir)
        (elim (Bool-cases (k.readable b)) [
          | inl r ↦ rw r (i_nlink-put_pointer 8 0 b dir)
          | inr r ↦ rw r (i_nlink-put_pointer 8 0 b dir)
        ])
]

pub i_nlink-add_entry :
    (k : Kernel) (s : Name) (ino : ℕ) (sbi : SbInfo) (dir : Inode) (d : Device)
    → (add_entry k s ino sbi dir d).2.i_nlink ≡ dir.i_nlink
unfolding add_entry
i_nlink-add_entry k s ino sbi dir d = go (add_scan k s ino dir.block_pointers dir.block_count 0 d)
  where
    go :
        (r : Scan × Device)
        → (let a : Result (Unit {0}) × SbInfo × Inode × Device = elim r.0 [
          | io_error ↦ (err eio, sbi, dir, r.1)
          | found ↦ (ok tt, sbi, dir, r.1)
          | exhausted ↦ grow_dir k s ino sbi dir r.1
        ] in
            a.2.i_nlink ≡ dir.i_nlink)
    go (io_error, e) = refl
    go (found, e) = refl
    go (exhausted, e) = i_nlink-grow_dir k s ino sbi dir e
