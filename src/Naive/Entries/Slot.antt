-- ===== src/Naive/Entries/Slot.antt =====
-- The record that `naive_add_entry` writes and the one that `naive_remove_entry` clears.
use filesystem_lab.Base.{
  ℕ, zero, suc, ◌+◌, ◌≤◌, ◌<◌, ◌≡◌, ◌≢◌, ◌∙◌, ◌⊎◌, refl, sym, ap, true, false, arith, inl, inr,
  Bool-cases, Option-cases, some, ◌==◌, ==→eq, ==_refl, update, if◌then◌else◌,
}
use filesystem_lab.Base.Bytes.{Mem, memset}
use filesystem_lab.Device.{Device, take_buffer, brelse, write_buffer, mark_buffer_dirty}
use filesystem_lab.Naive.Kernel.{Inode, Kernel}
use filesystem_lab.Naive.Entries.{
  Name, found, matches, free_record, record_ino, write_record, new_dir_block, add_scan,
}
use filesystem_lab.Naive.Entries.Record.{
  IsName, matches-write_record_ne, matches-write_record_other, matches-clear_record,
}
use filesystem_lab.Naive.Entries.Slots.{matches_free, first_record-some}
use filesystem_lab.Naive.Entries.Search.{add_scan_hole, add_scan_full, add_scan_hit}
use filesystem_lab.Naive.Entries.Grow.{with_pointer, zeroed_ino}
use filesystem_lab.Naive.Entries.Remove.{Unique}
use filesystem_lab.Naive.Entries.Clear.{Cleared}
use filesystem_lab.Naive.Entries.Unique.{OneMore}

-- Where `naive_add_entry` found a free record, from pointer `i` on with `n` left.
pub record Slot (s : Name) (ino : ℕ) (p : ℕ → ℕ) (n i : ℕ) (blocks : ℕ → Mem) (e : Device)
    : Type 0 where
  pub at : ℕ
  pub slot : ℕ
  pub from : i ≤ at
  pub below : at < i + n
  pub free : free_record (blocks (p at)) ≡ some slot
  pub written : e.blocks ≡ update blocks (p at) (write_record (blocks (p at)) slot ino s)

Slot-later :
    (s : Name) (ino : ℕ) (p : ℕ → ℕ) (n i : ℕ) (blocks : ℕ → Mem) (e : Device)
    → Slot s ino p n (i + 1) blocks e
    → Slot s ino p (suc n) i blocks e
Slot-later s ino p n i blocks e c = record {
  at = c.at;
  slot = c.slot;
  from = omega (arith, c.from);
  below = omega (arith, c.below);
  free = c.free;
  written = c.written;
}

pub add_scan-Slot :
    (k : Kernel) (s : Name) (ino : ℕ) (p : ℕ → ℕ) (n i : ℕ) (d : Device)
    → ((b : ℕ) → k.readable b ≡ true)
    → (add_scan k s ino p n i d).0 ≡ found
    → Slot s ino p n i d.blocks (add_scan k s ino p n i d).1
unfolding brelse take_buffer write_buffer mark_buffer_dirty
add_scan-Slot k s ino p zero i d r f = absurd (unfold add_scan in (cc f))
add_scan-Slot k s ino p (suc n) i d r f = elim (Bool-cases (p i == 0)) [
  | inl hole ↦ rw (add_scan_hole k s ino p n i d hole) (
      Slot-later s ino p n i d.blocks _
        (add_scan-Slot k s ino p n (i + 1) d r (rw (add_scan_hole k s ino p n i d hole) at f)))
  | inr present ↦ elim (Option-cases (free_record (d.blocks (p i)))) [
    | inl e ↦ rw (add_scan_full k s ino p n i d present (r (p i)) e) (
        Slot-later s ino p n i d.blocks _ (
          add_scan-Slot k s ino p n (i + 1) (brelse (take_buffer d)) r
            (rw (add_scan_full k s ino p n i d present (r (p i)) e) at f)))
    | inr (j, e) ↦ rw (add_scan_hit k s ino p n i d j present (r (p i)) e) (record {
      at = i;
      slot = j;
      from = omega arith;
      below = omega arith;
      free = e;
      written = refl;
    })
  ]
]

-- The records of a block after a write into a free one.
written_matches :
    (m : Mem) (slot ino : ℕ) (s t : Name) (j : ℕ)
    → (record_ino m slot == 0) ≡ true
    → IsName s
    → IsName t
    → matches t (write_record m slot ino s) j ≡ true
    → (matches t m j ≡ true) ⊎ ((j ≡ slot) × (¬ (s ≢ t)))
written_matches m slot ino s t j free v w h = elim (Bool-cases (slot == j)) [
  | inl e ↦
      let here : slot ≡ j = ==→eq _ _ e in
      inr (sym here, λ ne. cc (matches-write_record_other m slot ino s t v w ne, rw (← here) at h))
  | inr e ↦ inl (sym (matches-write_record_ne m slot ino s t j (ground arith)) ∙ h)
]

-- The two ways in which `naive_add_entry` adds a record: into a free one of a block of the
-- directory, and as the first record of a new block.
pub Slot-OneMore :
    (s : Name) (ino : ℕ) (dir : Inode) (blocks : ℕ → Mem) (e : Device)
    → IsName s
    → (c : Slot s ino dir.block_pointers dir.block_count 0 blocks e)
    → OneMore s blocks dir e.blocks dir (dir.block_pointers c.at) c.slot
Slot-OneMore s ino dir blocks e v c t w l j lt jt h = elim (Bool-cases (b == x)) [
  | inl same ↦
      let q : b ≡ x = ==→eq _ _ same in
      elim (written_matches (blocks b) c.slot ino s t j free v w (here q)) [
        | inl old ↦ inl (record { at = l; below = lt; here = refl; hit = rw (← q) old })
        | inr (i, only) ↦ inr (sym q, i, only)
      ]
  | inr other ↦ inl (record { at = l; below = lt; here = refl; hit = rw other at before })
]
  where
    b : ℕ
    b = dir.block_pointers c.at

    x : ℕ
    x = dir.block_pointers l

    free : (record_ino (blocks b) c.slot == 0) ≡ true
    free =
        unfold free_record in
        (first_record-some (λ i. record_ino (blocks b) i == 0) 3 0 c.slot c.free).passes

    before : matches t (if b == x then write_record (blocks b) c.slot ino s else blocks x) j ≡ true
    before = sym (ap (λ (f : ℕ → Mem). matches t (f x) j) c.written) ∙ h

    here : b ≡ x → matches t (write_record (blocks b) c.slot ino s) j ≡ true
    here q = rw (← q, ==_refl b) at before

pub with_pointer-OneMore :
    (s : Name) (ino : ℕ) (dir : Inode) (blocks blocks' : ℕ → Mem) (b : ℕ)
    → IsName s
    → ((l : ℕ) → l < dir.block_count → dir.block_pointers l ≢ b)
    → blocks' ≡ update blocks b (new_dir_block (blocks b) ino s)
    → OneMore s blocks dir blocks' (with_pointer b dir) b 0
unfolding new_dir_block
with_pointer-OneMore s ino dir blocks blocks' b v apart e t w l j lt jt h =
    elim (Bool-cases (dir.block_count == l)) [
      | inl last ↦
          rw last
            (elim (written_matches (memset (blocks b) 0 0 512) 0 ino s t j free v w (in_new last)) [
              | inl old ↦ absurd (
                  cc (
                    old,
                    matches_free t (memset (blocks b) 0 0 512) j
                        (rw (zeroed_ino (blocks b) j jt) refl),
                  ))
              | inr (i, only) ↦ inr (refl, i, only)
            ])
      | inr old ↦
          rw old (inl (record { at = l; below = ground arith; here = refl; hit = in_old old }))
    ]
  where
    free : (record_ino (memset (blocks b) 0 0 512) 0 == 0) ≡ true
    free = rw (zeroed_ino (blocks b) 0 (omega arith)) refl

    after : ℕ → Mem
    after = update blocks b (write_record (memset (blocks b) 0 0 512) 0 ino s)

    x : ℕ
    x = (with_pointer b dir).block_pointers l

    hit : matches t (after x) j ≡ true
    hit = sym (ap (λ (f : ℕ → Mem). matches t (f x) j) e) ∙ h

    in_new :
        (dir.block_count == l) ≡ true
        → matches t (write_record (memset (blocks b) 0 0 512) 0 ino s) j ≡ true
    in_new last = rw (last, ==_refl b) at hit

    in_old : (dir.block_count == l) ≡ false → matches t (blocks (dir.block_pointers l)) j ≡ true
    in_old old =
        let other : (b == dir.block_pointers l) ≡ false = ground (arith, apart l) in
        rw (old, other) at hit

-- A removal leaves no record that was not there.
pub Cleared-Unique :
    (k : Kernel) (s t : Name) (dir : Inode) (blocks : ℕ → Mem) (e : Device)
    → Cleared k s dir.block_pointers dir.block_count 0 blocks e
    → Unique t blocks dir
    → Unique t e.blocks dir
Cleared-Unique k s t dir blocks e c u l l' j j' lt lt' jt jt' m m' =
    u l l' j j' lt lt' jt jt' (before l j m) (before l' j' m')
  where
    b : ℕ
    b = dir.block_pointers c.at

    before :
        (l j : ℕ)
        → matches t (e.blocks (dir.block_pointers l)) j ≡ true
        → matches t (blocks (dir.block_pointers l)) j ≡ true
    before l j m = ground (
      arith,
      ap (λ (f : ℕ → Mem). matches t (f (dir.block_pointers l)) j) c.written,
      matches-clear_record (blocks b) c.slot t j,
      ==→eq b (dir.block_pointers l),
    )
