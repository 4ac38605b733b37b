-- ===== src/Naive/Entries/Search.antt =====
-- The scan of `naive_add_entry` for a free record, against the directory as a map.
use filesystem_lab.Base.{
  ℕ, zero, suc, ◌+◌, ◌%◌, ◌^◌, ◌≡◌, ◌≢◌, ◌∙◌, refl, sym, ap, true, false, inl, inr, Bool-cases,
  Option-cases, none, some, ◌==◌, ==→eq, ==_refl,
}
use filesystem_lab.Device.{Device, take_buffer, brelse, write_buffer, mark_buffer_dirty}
use filesystem_lab.Naive.Kernel.{Kernel}
use filesystem_lab.Naive.Entries.{Name, Scan, io_error, found, free_record, write_record, add_scan}
use filesystem_lab.Naive.Entries.Record.{IsName}
use filesystem_lab.Naive.Entries.Find.{
  block_entry, find_entry, find_entry_hole, find_entry_miss, find_entry_hit,
}
use filesystem_lab.Naive.Entries.Slots.{
  block_entry-write_record_other, block_entry-write_record_self, find_record_of_entry,
}

module _ (k : Kernel) (s : Name) (ino : ℕ) (p : ℕ → ℕ) where
  -- One pointer of the scan at a time.
  module _ (n i : ℕ) (d : Device) where
    pub add_scan_hole :
        (p i == 0) ≡ true → add_scan k s ino p (suc n) i d ≡ add_scan k s ino p n (i + 1) d
    unfolding add_scan
    add_scan_hole h = rw h

    pub add_scan_bad :
        (p i == 0) ≡ false
        → k.readable (p i) ≡ false
        → add_scan k s ino p (suc n) i d ≡ (io_error, d)
    unfolding add_scan
    add_scan_bad h r = rw (h, r)

    pub add_scan_full :
        (p i == 0) ≡ false
        → k.readable (p i) ≡ true
        → free_record (d.blocks (p i)) ≡ none
        → add_scan k s ino p (suc n) i d ≡ add_scan k s ino p n (i + 1) (brelse (take_buffer d))
    unfolding add_scan
    add_scan_full h r e = rw (h, r, e)

    pub add_scan_hit :
        (j : ℕ)
        → (p i == 0) ≡ false
        → k.readable (p i) ≡ true
        → free_record (d.blocks (p i)) ≡ some j
        → add_scan k s ino p (suc n) i d ≡ (
          found,
          brelse (
              brelse (
                mark_buffer_dirty
                  (p i)
                  (write_buffer (p i) (write_record (d.blocks (p i)) j ino s) (take_buffer d)))),
        )
    unfolding add_scan
    add_scan_hit j h r e = rw (h, r, e)

  -- A block without a free record is not written.
  pub add_scan-full_block :
      (n i : ℕ) (d : Device) (b : ℕ)
      → free_record (d.blocks b) ≡ none
      → (add_scan k s ino p n i d).1.blocks b ≡ d.blocks b
  unfolding add_scan
  add_scan-full_block zero i d b h = refl
  add_scan-full_block (suc n) i d b h = elim (Bool-cases (p i == 0)) [
    | inl hole ↦ rw hole (add_scan-full_block n (i + 1) d b h)
    | inr present ↦ rw present (elim (Bool-cases (k.readable (p i))) [
      | inr bad ↦ rw bad
      | inl good ↦ rw good (elim (Option-cases (free_record (d.blocks (p i)))) [
        | inl e ↦ rw e (add_scan-full_block n (i + 1) (brelse (take_buffer d)) b h)
        | inr (j, e) ↦ rw e (elim (Bool-cases (p i == b)) [
          | inl same ↦
              let q : p i ≡ b = ==→eq _ _ same in
              absurd (cc (h, ap (λ x. free_record (d.blocks x)) (sym q), e))
          | inr other ↦ rw other
        ])
      ])
    ])
  ]

  -- Other names keep their entries in every block.
  pub add_scan-other :
      (n i : ℕ) (d : Device) (b : ℕ) (t : Name)
      → IsName s
      → IsName t
      → s ≢ t
      → block_entry t ((add_scan k s ino p n i d).1.blocks b) ≡ block_entry t (d.blocks b)
  unfolding add_scan
  add_scan-other zero i d b t v w h = refl
  add_scan-other (suc n) i d b t v w h = elim (Bool-cases (p i == 0)) [
    | inl hole ↦ rw hole (add_scan-other n (i + 1) d b t v w h)
    | inr present ↦ rw present (elim (Bool-cases (k.readable (p i))) [
      | inr bad ↦ rw bad
      | inl good ↦ rw good (elim (Option-cases (free_record (d.blocks (p i)))) [
        | inl e ↦ rw e (add_scan-other n (i + 1) (brelse (take_buffer d)) b t v w h)
        | inr (j, e) ↦ rw e (elim (Bool-cases (p i == b)) [
          | inl same ↦
              let q : p i ≡ b = ==→eq _ _ same in
              rw same (
                block_entry-write_record_other (d.blocks (p i)) j ino s t e v w h
                ∙ ap (λ x. block_entry t (d.blocks x)) q)
          | inr other ↦ rw other
        ])
      ])
    ])
  ]

  -- Once a free record was found, the new name has its entry.
  pub add_scan_self :
      (n i : ℕ) (d : Device)
      → IsName s
      → ino % 2 ^ 32 ≢ 0
      → (add_scan k s ino p n i d).0 ≡ found
      → find_entry k.readable s d.blocks p n i ≡ none
      → find_entry k.readable s (add_scan k s ino p n i d).1.blocks p n i ≡ some (ino % 2 ^ 32)
  unfolding brelse take_buffer write_buffer mark_buffer_dirty
  add_scan_self zero i d v nz f h = absurd (unfold add_scan in (cc f))
  add_scan_self (suc n) i d v nz f h = elim (Bool-cases (p i == 0)) [
    | inl hole ↦
        rw (add_scan_hole n i d hole, find_entry_hole k.readable s _ p n i hole)
          (add_scan_self n (i + 1) d v nz (rw (add_scan_hole n i d hole) at f)
            (rw (find_entry_hole k.readable s d.blocks p n i hole) at h))
    | inr present ↦ elim (Bool-cases (k.readable (p i))) [
      | inr bad ↦ absurd (cc (f, add_scan_bad n i d present bad))
      | inl good ↦ elim (Option-cases (block_entry s (d.blocks (p i)))) [
        | inr (x, e) ↦ absurd (cc (h, find_entry_hit k.readable s d.blocks p n i present good e))
        | inl absent ↦ elim (Option-cases (free_record (d.blocks (p i)))) [
          | inr (j, e) ↦ rw (add_scan_hit n i d j present good e) (
              find_entry_hit k.readable s _ p n i present good (
                rw (==_refl (p i)) (
                  block_entry-write_record_self (d.blocks (p i)) j ino s e v nz
                    (find_record_of_entry s (d.blocks (p i)) absent))))
          | inl e ↦
              let d' = brelse (take_buffer d) in
              rw (add_scan_full n i d present good e) (
                find_entry_miss k.readable s (add_scan k s ino p n (i + 1) d').1.blocks p n i
                  present good
                  (ap (block_entry s) (add_scan-full_block n (i + 1) d' (p i) e) ∙ absent)
                ∙ add_scan_self n (i + 1) d' v nz (rw (add_scan_full n i d present good e) at f)
                    (rw (find_entry_miss k.readable s d.blocks p n i present good absent) at h))
        ]
      ]
    ]
  ]

  -- A scan that found no free record wrote nothing.
  pub add_scan-kept :
      (n i : ℕ) (d : Device)
      → (add_scan k s ino p n i d).0 ≢ found
      → (add_scan k s ino p n i d).1.blocks ≡ d.blocks
  unfolding brelse take_buffer
  add_scan-kept zero i d h = unfold add_scan in refl
  add_scan-kept (suc n) i d h = elim (Bool-cases (p i == 0)) [
    | inl hole ↦
        rw (add_scan_hole n i d hole)
          (add_scan-kept n (i + 1) d (rw (add_scan_hole n i d hole) at h))
    | inr present ↦ elim (Bool-cases (k.readable (p i))) [
      | inr bad ↦ rw (add_scan_bad n i d present bad)
      | inl good ↦ elim (Option-cases (free_record (d.blocks (p i)))) [
        | inr (j, e) ↦
            absurd (h (ap (λ (r : Scan × Device). r.0) (add_scan_hit n i d j present good e)))
        | inl e ↦ rw (add_scan_full n i d present good e) (
            add_scan-kept n (i + 1) (brelse (take_buffer d))
              (rw (add_scan_full n i d present good e) at h))
      ]
    ]
  ]

  -- With every block readable the scan meets no error.
  pub add_scan-readable :
      ((b : ℕ) → k.readable b ≡ true)
      → (n i : ℕ) (d : Device) → (add_scan k s ino p n i d).0 ≢ io_error
  add_scan-readable r zero i d h = unfold add_scan in (cc h)
  add_scan-readable r (suc n) i d h = elim (Bool-cases (p i == 0)) [
    | inl hole ↦ add_scan-readable r n (i + 1) d (rw (add_scan_hole n i d hole) at h)
    | inr present ↦ elim (Option-cases (free_record (d.blocks (p i)))) [
      | inr (j, e) ↦ cc (h, add_scan_hit n i d j present (r (p i)) e)
      | inl e ↦
          add_scan-readable r n (i + 1) (brelse (take_buffer d))
            (rw (add_scan_full n i d present (r (p i)) e) at h)
    ]
  ]
