-- ===== src/Naive/Namespace/Empty.antt =====
-- What the emptiness test of `naive_rmdir` (naive/naivefs_dir.c) finds.
use filesystem_lab.Base.{
  ℕ, zero, suc, ◌+◌, ◌<◌, ◌≡◌, ◌⊎◌, refl, true, not, ◌&&◌, ◌||◌, Bool, Bool-cases, inl, inr, arith,
  Result, ok, err, enotempty, if◌then◌else◌, ◌==◌, none, some,
}
use filesystem_lab.Base.Bytes.{Mem, strcmp_eq}
use filesystem_lab.Device.{Device, take_buffer, brelse}
use filesystem_lab.Naive.Kernel.{Kernel}
use filesystem_lab.Naive.Entries.{record_ino, filename_at, first_record}
use filesystem_lab.Naive.Namespace.{dot, dotdot, other_record, empty_scan}

-- How many of the `n` records from `j` on pass the test.
abbrev pub tally : (ℕ → Bool) → ℕ → ℕ → ℕ
tally test zero j = 0
tally test (suc n) j = let rest = tally test n (j + 1) in if test j then 1 + rest else rest

-- How many records of the blocks at the `n` pointers from `i` on pass the test.
abbrev pub tally_blocks : (Mem → ℕ → Bool) → (ℕ → ℕ) → (ℕ → Mem) → ℕ → ℕ → ℕ
tally_blocks test p blocks zero i = 0
tally_blocks test p blocks (suc n) i =
    let rest = tally_blocks test p blocks n (i + 1) in
    if p i == 0 then rest else tally (test (blocks (p i))) 3 0 + rest

-- A record in use that is `.` or `..`.
abbrev pub dot_record : Mem → ℕ → Bool
dot_record m j =
    not (record_ino m j == 0)
    && (strcmp_eq m (filename_at j) dot || strcmp_eq m (filename_at j) dotdot)

pub first_record-tally :
    (test : ℕ → Bool) (n j : ℕ)
    → ((first_record test n j ≡ none) × (tally test n j ≡ 0))
      ⊎ ((l : ℕ) × (first_record test n j ≡ some l) × (0 < tally test n j))
unfolding first_record
first_record-tally test zero j = inl (refl, refl)
first_record-tally test (suc n) j = elim (Bool-cases (test j)) [
  | inl e ↦ rw e (inr (j, refl, omega arith))
  | inr e ↦ rw e (first_record-tally test n (j + 1))
]

-- The answer of the test from device `d` on, with `others` records in use that are neither `.` nor `..`.
abbrev pub EmptyAnswer : ℕ → Device → Result (Unit {0}) × Device → Type 0
EmptyAnswer others d (q, f) =
    (f.blocks ≡ d.blocks) × (((others ≡ 0) × (q ≡ ok tt)) ⊎ ((0 < others) × (q ≡ err enotempty)))

pub empty_scan-EmptyAnswer :
    (k : Kernel) (p : ℕ → ℕ) (n i : ℕ) (d : Device)
    → ((b : ℕ) → k.readable b ≡ true)
    → EmptyAnswer (tally_blocks other_record p d.blocks n i) d (empty_scan k p n i d)
unfolding empty_scan brelse take_buffer
empty_scan-EmptyAnswer k p zero i d reads = (refl, inl (refl, refl))
empty_scan-EmptyAnswer k p (suc n) i d reads = elim (Bool-cases (p i == 0)) [
  | inl hole ↦ rw hole (empty_scan-EmptyAnswer k p n (i + 1) d reads)
  | inr there ↦
      rw (there, reads (p i))
        (let rest = empty_scan-EmptyAnswer k p n (i + 1) (brelse (take_buffer d)) reads in
          elim (first_record-tally (other_record (d.blocks (p i))) 3 0) [
            | inl (none_here, zero_here) ↦ rw none_here (
              rest.0,
              elim rest.1 [
                | inl (no_more, good) ↦ inl (omega arith, good)
                | inr (more, bad) ↦ inr (omega arith, bad)
              ],
            )
            | inr (l, one_here, some_here) ↦ rw one_here (refl, inr (omega arith, refl))
          ])
]
