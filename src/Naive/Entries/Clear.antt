-- ===== src/Naive/Entries/Clear.antt =====
-- The scan of `naive_remove_entry` in naive/naivefs_dir.c: which record it clears.
use filesystem_lab.Base.{
  ℕ, zero, suc, ◌+◌, ◌≤◌, ◌<◌, ◌≡◌, ◌≢◌, refl, true, false, arith, inl, inr, Bool-cases,
  Option-cases, none, some, ◌==◌, Result, ok, err, enoent, update, [], ◌∷◌, length,
}
use filesystem_lab.Base.Bytes.{Mem, strncmp_eq}
use filesystem_lab.Device.{Device, take_buffer, brelse, write_buffer, mark_buffer_dirty}
use filesystem_lab.Naive.Kernel.{Kernel}
use filesystem_lab.Naive.Entries.{
  Name, find_record, clear_record, matches, filename_at, remove_scan,
}
use filesystem_lab.Naive.Entries.Record.{IsName, NoNul}
use filesystem_lab.Naive.Entries.Find.{find_entry, find_entry_hole, find_entry_miss, find_entry_hit}
use filesystem_lab.Naive.Entries.Slots.{block_entry-none, block_entry-some}

-- Two strings that end within `n` characters and equal the same memory are equal.
strncmp_eq_unique :
    (m : Mem) (s t : Name) (n o : ℕ)
    → NoNul s
    → NoNul t
    → length s < n
    → length t < n
    → strncmp_eq m o s n ≡ true
    → strncmp_eq m o t n ≡ true
    → s ≡ t
unfolding strncmp_eq
strncmp_eq_unique m s t zero o ns nt ls lt e f = absurd (omega arith)
strncmp_eq_unique m [] [] (suc n) o ns nt ls lt e f = refl
strncmp_eq_unique m [] (c ∷ t) (suc n) o ns nt ls lt e f = absurd (ground arith)
strncmp_eq_unique m (c ∷ s) [] (suc n) o ns nt ls lt e f = absurd (ground arith)
strncmp_eq_unique m (c ∷ s) (b ∷ t) (suc n) o ns nt ls lt e f =
    ground (arith, strncmp_eq_unique m s t n (o + 1) ns.1 nt.1 (omega arith) (omega arith))

-- A record holds one name.
pub matches_unique :
    (m : Mem) (j : ℕ) (s t : Name)
    → IsName s
    → IsName t
    → s ≢ t
    → matches s m j ≡ true
    → matches t m j ≡ false
unfolding matches
matches_unique m j s t v w ne h = elim (Bool-cases (strncmp_eq m (filename_at j) t 128)) [
  | inl e ↦ absurd (
      ne (
        strncmp_eq_unique m s t 128 (filename_at j) v.no_nul w.no_nul v.fits w.fits (ground arith)
          e))
  | inr e ↦ ground arith
]

module _ (k : Kernel) (s : Name) (p : ℕ → ℕ) where
  -- What a scan that began at pointer `i` with `n` left has cleared in `blocks`.
  pub record Cleared (n i : ℕ) (blocks : ℕ → Mem) (e : Device) : Type 0 where
    pub at : ℕ
    pub slot : ℕ
    pub from : i ≤ at
    pub below : at < i + n
    pub hit : find_record s (blocks (p at)) ≡ some slot
    pub written : e.blocks ≡ update blocks (p at) (clear_record (blocks (p at)) slot)

  module _ (n i : ℕ) (d : Device) where
    remove_scan_hole :
        (p i == 0) ≡ true → remove_scan k s p (suc n) i d ≡ remove_scan k s p n (i + 1) d
    unfolding remove_scan
    remove_scan_hole h = rw h

    remove_scan_miss :
        (p i == 0) ≡ false
        → k.readable (p i) ≡ true
        → find_record s (d.blocks (p i)) ≡ none
        → remove_scan k s p (suc n) i d ≡ remove_scan k s p n (i + 1) (brelse (take_buffer d))
    unfolding remove_scan
    remove_scan_miss h r e = rw (h, r, e)

    remove_scan_hit :
        (j : ℕ)
        → (p i == 0) ≡ false
        → k.readable (p i) ≡ true
        → find_record s (d.blocks (p i)) ≡ some j
        → remove_scan k s p (suc n) i d ≡ (
          ok tt,
          brelse (
              mark_buffer_dirty
                (p i)
                (write_buffer (p i) (clear_record (d.blocks (p i)) j) (take_buffer d))),
        )
    unfolding remove_scan
    remove_scan_hit j h r e = rw (h, r, e)

  -- The outcome of the scan: the name had no entry and nothing was written, or its record was
  -- cleared.
  abbrev pub Outcome : ℕ → ℕ → (ℕ → Mem) → Result (Unit {0}) × Device → Type 0
  Outcome n i blocks (ok _, e) =
      Cleared n i blocks e × (find_entry k.readable s blocks p n i ≢ none)
  Outcome n i blocks (err x, e) =
      (x ≡ enoent) × (e.blocks ≡ blocks) × (find_entry k.readable s blocks p n i ≡ none)

  Outcome-later :
      (n i : ℕ) (blocks : ℕ → Mem) (r : Result (Unit {0}) × Device)
      → find_entry k.readable s blocks p (suc n) i ≡ find_entry k.readable s blocks p n (i + 1)
      → Outcome n (i + 1) blocks r
      → Outcome (suc n) i blocks r
  Outcome-later n i blocks (ok _, e) q (c, some_entry) = (
    record {
      at = c.at;
      slot = c.slot;
      from = omega (arith, c.from);
      below = omega (arith, c.below);
      hit = c.hit;
      written = c.written;
    },
    rw q some_entry,
  )
  Outcome-later n i blocks (err x, e) q (a, b, c) = (a, b, rw q c)

  -- The scan ends in one of the two ways when the blocks can be read.
  pub remove_scan-Outcome :
      ((b : ℕ) → k.readable b ≡ true)
      → (n i : ℕ) (d : Device) → Outcome n i d.blocks (remove_scan k s p n i d)
  unfolding brelse take_buffer write_buffer mark_buffer_dirty
  remove_scan-Outcome r zero i d = unfold remove_scan find_entry in (refl, refl, refl)
  remove_scan-Outcome r (suc n) i d = elim (Bool-cases (p i == 0)) [
    | inl hole ↦ rw (remove_scan_hole n i d hole) (
        Outcome-later n i d.blocks _ (find_entry_hole k.readable s d.blocks p n i hole)
          (remove_scan-Outcome r n (i + 1) d))
    | inr present ↦ elim (Option-cases (find_record s (d.blocks (p i)))) [
      | inl e ↦ rw (remove_scan_miss n i d present (r (p i)) e) (
          Outcome-later n i d.blocks _
            (find_entry_miss k.readable s d.blocks p n i present (r (p i))
              (block_entry-none s (d.blocks (p i)) e))
            (remove_scan-Outcome r n (i + 1) (brelse (take_buffer d))))
      | inr (j, e) ↦ rw (remove_scan_hit n i d j present (r (p i)) e) (
        record {
          at = i;
          slot = j;
          from = omega arith;
          below = omega arith;
          hit = e;
          written = refl;
        },
        λ h. cc (
          h,
          find_entry_hit k.readable s d.blocks p n i present (r (p i))
              (block_entry-some s (d.blocks (p i)) j e),
        ),
      )
    ]
  ]
