-- ===== src/Stage9/Agree.antt =====
-- The two versions of `naive_rmdir`: naive/naivefs_dir.c looks for a record that is neither `.` nor
-- `..`, naive/naivefs-9-10/naivefs_dir.c counts the records in use.
use filesystem_lab.Base.{
  ℕ, zero, suc, ◌+◌, ◌<◌, ◌≡◌, ◌∙◌, ◌⊎◌, refl, sym, ap, true, false, Bool-cases, inl, inr, arith,
  Result, ok, err, enotempty, ◌==◌,
}
use filesystem_lab.Base.Bytes.{Mem}
use filesystem_lab.Device.{Device, take_buffer, brelse}
use filesystem_lab.Naive.Layout.{SbInfo}
use filesystem_lab.Naive.Kernel.{Inode, Kernel, is_dir}
use filesystem_lab.Naive.Entries.{Name}
use filesystem_lab.Naive.Namespace.{other_record, empty_scan, rmdir as naive_rmdir}
use filesystem_lab.Naive.Namespace.Empty.{tally, tally_blocks, dot_record, first_record-tally}
use filesystem_lab.Stage9.{count_records, count_scan, is_empty_dir, rmdir}

count_records-tally :
    (m : Mem) (n j : ℕ)
    → count_records m n j ≡ tally (dot_record m) n j + tally (other_record m) n j
unfolding count_records other_record
count_records-tally m zero j = refl
count_records-tally m (suc n) j = ground (arith, count_records-tally m n (j + 1))

-- What the two scans from device `d` on answer, with `total` records in use of which `others` are
-- neither `.` nor `..`.
abbrev Scans : ℕ → ℕ → Device → Result ℕ × Device → Result (Unit {0}) × Device → Type 0
Scans total others d (r, e) (q, f) =
    (r ≡ ok total)
    × (e.blocks ≡ d.blocks)
    × (f.blocks ≡ d.blocks)
    × (((others ≡ 0) × (q ≡ ok tt) × (e ≡ f)) ⊎ ((0 < others) × (q ≡ err enotempty)))

module _ (k : Kernel) (reads : (b : ℕ) → k.readable b ≡ true) (p : ℕ → ℕ) where
  scans :
      (n i c : ℕ) (d : Device)
      → let dots = tally_blocks dot_record p d.blocks n i in
        let others = tally_blocks other_record p d.blocks n i in
        Scans (c + (dots + others)) others d (count_scan k p n i c d) (empty_scan k p n i d)
  unfolding count_scan empty_scan brelse take_buffer
  scans zero i c d = (ap ok (omega arith), refl, refl, inl (refl, refl, refl))
  scans (suc n) i c d = elim (Bool-cases (p i == 0)) [
    | inl hole ↦ rw hole (scans n (i + 1) c d)
    | inr there ↦
        rw (there, reads (p i), count_records-tally (d.blocks (p i)) 3 0)
          (let dots = tally (dot_record (d.blocks (p i))) 3 0 in
            let others = tally (other_record (d.blocks (p i))) 3 0 in
            let rest = scans n (i + 1) (c + (dots + others)) (brelse (take_buffer d)) in
            elim (first_record-tally (other_record (d.blocks (p i))) 3 0) [
              | inl (none_here, zero_here) ↦ rw none_here (
                rest.0 ∙ ap ok (omega arith),
                rest.1,
                rest.2,
                elim rest.3 [
                  | inl (no_more, good, same) ↦ inl (omega arith, good, same)
                  | inr (more, bad) ↦ inr (omega arith, bad)
                ],
              )
              | inr (l, one_here, some_here) ↦
                  rw one_here (rest.0 ∙ ap ok (omega arith), rest.1, refl, inr (omega arith, refl))
            ])
  ]

-- Removing a directory that has one record `.` and one record `..`, or in any case two of these kinds,
-- and whose blocks can be read: the two versions of `naive_rmdir` give the same answer, the same super
-- block, the same inodes and the same bytes on the device, whether the inode is a directory or not,
-- the directory is empty or not, and the entry is found or not.
pub rmdir_agree :
    (k : Kernel) (s : Name) (sbi : SbInfo) (dir ino : Inode) (d : Device)
    → ((b : ℕ) → k.readable b ≡ true)
    → tally_blocks dot_record ino.block_pointers d.blocks ino.block_count 0 ≡ 2
    → let (r, sbi1, dir1, ino1, d1) = rmdir k s sbi dir ino d in
      let (r', sbi2, dir2, ino2, d2) = naive_rmdir k s sbi dir ino d in
      (r ≡ r') × (sbi1 ≡ sbi2) × (dir1 ≡ dir2) × (ino1 ≡ ino2) × (d1.blocks ≡ d2.blocks)
unfolding rmdir is_empty_dir naive_rmdir
rmdir_agree k s sbi dir ino d reads dots = elim (Bool-cases (is_dir ino.i_mode)) [
  | inr file ↦ rw file (refl, refl, refl, refl, refl)
  | inl directory ↦
      let (counted, kept, kept', split) = scans k reads ino.block_pointers ino.block_count 0 0 d in
      elim split [
        | inl (none_left, empty, same) ↦
            rw (directory, counted, dots, none_left, empty)
              (rw (is_empty_dir, counted, same) (refl, refl, refl, refl, refl))
        | inr (more, full) ↦
            let others = tally_blocks other_record ino.block_pointers d.blocks ino.block_count 0 in
            let not_two : (0 + (2 + others) == 2) ≡ false = ground arith in
            rw (directory, counted, full, dots, not_two)
              (refl, refl, refl, refl, rw (is_empty_dir, counted) (kept ∙ sym kept'))
      ]
]
