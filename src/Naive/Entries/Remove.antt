-- ===== src/Naive/Entries/Remove.antt =====
-- `naive_remove_entry` of naive/naivefs_dir.c against the directory as a map.
use filesystem_lab.Base.{
  ℕ, zero, suc, ◌+◌, ◌≤◌, ◌<◌, ◌≡◌, ◌≢◌, ◌∙◌, refl, ap, true, false, arith, if◌then◌else◌, inl, inr,
  Bool-cases, Bool, none, ◌==◌, ==→eq, ==_refl, Result, ok, err, enoent, update,
}
use filesystem_lab.Base.Bytes.{Mem}
use filesystem_lab.Device.{Device}
use filesystem_lab.Naive.Kernel.{Inode, Kernel}
use filesystem_lab.Naive.Entries.{
  Name, find_record, clear_record, matches, remove_scan, remove_entry, first_record,
}
use filesystem_lab.Naive.Entries.Record.{IsName, matches-clear_record}
use filesystem_lab.Naive.Entries.Find.{block_entry, find_entry, find_entry-congr, entry_of}
use filesystem_lab.Naive.Entries.Slots.{
  block_entry-none, block_entry-clear_record_other, first_record-some, FirstPass,
}
use filesystem_lab.Naive.Entries.Clear.{matches_unique, Cleared, Outcome, remove_scan-Outcome}

-- `s` stands in at most one record of the directory's blocks.
abbrev pub Unique : Name → (ℕ → Mem) → Inode → Type 0
Unique s blocks dir =
    (l l' j j' : ℕ)
    → l < dir.block_count
    → l' < dir.block_count
    → j < 3
    → j' < 3
    → matches s (blocks (dir.block_pointers l)) j ≡ true
    → matches s (blocks (dir.block_pointers l')) j' ≡ true
    → (dir.block_pointers l ≡ dir.block_pointers l') × (j ≡ j')

-- The directory without the entry of `s`.
pub record Removed (readable : ℕ → Bool) (s : Name) (dir : Inode) (d d' : Device) : Type 0 where
  pub had : entry_of readable s d.blocks dir ≢ none
  pub gone : entry_of readable s d'.blocks dir ≡ none
  pub keeps :
      (t : Name)
      → IsName t
      → s ≢ t
      → entry_of readable t d'.blocks dir ≡ entry_of readable t d.blocks dir

if_false : (b : Bool) → (if b then false else false) ≡ false
if_false true = refl
if_false false = refl

find_entry-none :
    (readable : ℕ → Bool) (t : Name) (blocks : ℕ → Mem) (p : ℕ → ℕ) (n i : ℕ)
    → ((l : ℕ) → i ≤ l → l < i + n → block_entry t (blocks (p l)) ≡ none)
    → find_entry readable t blocks p n i ≡ none
unfolding find_entry
find_entry-none readable t blocks p zero i h = refl
find_entry-none readable t blocks p (suc n) i h = ground (
  arith,
  find_entry-none readable t blocks p n (i + 1) (λ l a b. h l (omega arith) (omega arith)),
  h i (omega arith) (omega arith),
)

pub first_record-absent :
    (test : ℕ → Bool) (n i : ℕ)
    → ((l : ℕ) → l < i + n → test l ≡ false)
    → first_record test n i ≡ none
unfolding first_record
first_record-absent test zero i h = refl
first_record-absent test (suc n) i h =
    ground
      (arith, h i (omega arith), first_record-absent test n (i + 1) (λ l lt. h l (omega arith)))

-- Where only record `slot` of block `q` can match, no record matches once that is cleared.
no_match :
    (s : Name) (blocks : ℕ → Mem) (q r slot j : ℕ)
    → (matches s (blocks r) j ≡ true → (q ≡ r) × (slot ≡ j))
    → matches s (update blocks q (clear_record (blocks q) slot) r) j ≡ false
no_match s blocks q r slot j h = elim (Bool-cases (matches s (blocks r) j)) [
  | inl m ↦
      let (same, e) = h m in
      rw (same, ==_refl r) (rw (matches-clear_record (blocks r) slot s j, e, ==_refl j))
  | inr m ↦ elim (Bool-cases (q == r)) [
    | inl e ↦
        let same : q ≡ r = ==→eq _ _ e in
        rw (same, ==_refl r)
          (rw (matches-clear_record (blocks r) slot s j, m, if_false (slot == j)))
    | inr e ↦ rw e m
  ]
]

module _ (k : Kernel) (s : Name) (dir : Inode) (d e : Device) (v : IsName s) where
  Cleared-Removed :
      Unique s d.blocks dir
      → Cleared k s dir.block_pointers dir.block_count 0 d.blocks e
      → entry_of k.readable s d.blocks dir ≢ none
      → Removed k.readable s dir d e
  unfolding find_record
  Cleared-Removed u c had = record {
    had = had;
    gone = find_entry-none k.readable s e.blocks p dir.block_count 0 (λ l _ h.
        block_entry-none s (e.blocks (p l)) (
          first_record-absent (matches s (e.blocks (p l))) 3 0 (λ j jt.
            ap (λ (x : ℕ → Mem). matches s (x (p l)) j) c.written
            ∙ no_match s d.blocks (p c.at) (p l) c.slot j (λ m.
              u c.at l c.slot j (omega (arith, c.below)) (omega arith) slot_low jt hit m))));
    keeps = λ t w ne.
        find_entry-congr k.readable t e.blocks d.blocks p dir.block_count 0
          (λ l _ _. kept t w ne l);
  }
    where
      p : ℕ → ℕ
      p = dir.block_pointers

      first : FirstPass (matches s (d.blocks (p c.at))) 0 3 c.slot
      first = first_record-some (matches s (d.blocks (p c.at))) 3 0 c.slot c.hit

      hit : matches s (d.blocks (p c.at)) c.slot ≡ true
      hit = first.passes

      slot_low : c.slot < 3
      slot_low = first.before

      kept :
          (t : Name)
          → IsName t
          → s ≢ t
          → (l : ℕ) → block_entry t (e.blocks (p l)) ≡ block_entry t (d.blocks (p l))
      kept t w ne l = rw c.written (elim (Bool-cases (p c.at == p l)) [
        | inl same ↦
            let q : p c.at ≡ p l = ==→eq _ _ same in
            rw same (
              block_entry-clear_record_other (d.blocks (p c.at)) c.slot t
                (matches_unique (d.blocks (p c.at)) c.slot s t v w ne hit)
              ∙ ap (λ x. block_entry t (d.blocks x)) q)
        | inr other ↦ rw other
      ])

-- What a call of `naive_remove_entry` answers for a directory, and what it did.
abbrev pub RemoveAnswer : Kernel → Name → Inode → Device → Result (Unit {0}) × Device → Type 0
RemoveAnswer k s dir d (ok _, e) = Removed k.readable s dir d e
RemoveAnswer k s dir d (err x, e) =
    (x ≡ enoent) × (e.blocks ≡ d.blocks) × (entry_of k.readable s d.blocks dir ≡ none)

-- `naive_remove_entry` with readable blocks, for a name that stands in at most one record: it
-- returns 0 when the name has an entry, and then the directory, read as a map, has lost this name
-- and keeps every other; it returns -ENOENT when the name has no entry, and then no block changed.
pub remove_entry_removes :
    (k : Kernel) (s : Name) (dir : Inode) (d : Device)
    → ((b : ℕ) → k.readable b ≡ true)
    → IsName s
    → Unique s d.blocks dir
    → RemoveAnswer k s dir d (remove_entry k s dir d)
unfolding remove_entry
remove_entry_removes k s dir d r v u =
    go (remove_scan k s dir.block_pointers dir.block_count 0 d)
      (remove_scan-Outcome k s dir.block_pointers r dir.block_count 0 d)
  where
    go :
        (a : Result (Unit {0}) × Device)
        → Outcome k s dir.block_pointers dir.block_count 0 d.blocks a
        → RemoveAnswer k s dir d a
    go (ok _, e) (c, had) = Cleared-Removed k s dir d e v u c had
    go (err x, e) o = o
