-- ===== src/Naive/Entries/Find.antt =====
-- A directory as a map from names to inode numbers, and `naive_lookup` as a read of that map; in
-- Naive.Entries.Lookup, what the map says of the bytes.
use filesystem_lab.Base.{
  ℕ, zero, suc, ◌+◌, ◌≤◌, ◌<◌, ◌≡◌, ◌∙◌, refl, sym, ap, true, false, arith, if◌then◌else◌, inl, inr,
  Bool-cases, Option-cases, Bool, Option, none, some, Result, ◌==◌,
}
use filesystem_lab.Base.Bytes.{Mem}
use filesystem_lab.Device.{Device, take_buffer, brelse}
use filesystem_lab.Naive.Layout.{SbInfo}
use filesystem_lab.Naive.Kernel.{Inode, Kernel}
use filesystem_lab.Naive.Table.{iget}
use filesystem_lab.Naive.Entries.{Name, record_ino, find_record, lookup_scan, lookup}

-- The number that one block gives for a name.
unfoldable pub block_entry : Name → Mem → Option ℕ
unfolding find_record
block_entry t m = elim (find_record t m) [ none ↦ none | some j ↦ some (record_ino m j) ]

-- The number that the first readable block with the name gives, over `n` pointers from pointer `i`.
unfoldable pub find_entry : (ℕ → Bool) → Name → (ℕ → Mem) → (ℕ → ℕ) → ℕ → ℕ → Option ℕ
find_entry readable t blocks p zero i = none
find_entry readable t blocks p (suc n) i =
    let rest = find_entry readable t blocks p n (i + 1) in
    if p i == 0
    then rest
    else if readable (p i)
    then elim (block_entry t (blocks (p i))) [ none ↦ rest | some ino ↦ some ino ]
    else rest

-- The whole directory.
abbrev pub entry_of : (ℕ → Bool) → Name → (ℕ → Mem) → Inode → Option ℕ
entry_of readable t blocks dir = find_entry readable t blocks dir.block_pointers dir.block_count 0

-- One pointer of the map at a time.
module _ (readable : ℕ → Bool) (t : Name) (blocks : ℕ → Mem) (p : ℕ → ℕ) (n i : ℕ) where
  pub find_entry_hole :
      (p i == 0) ≡ true
      → find_entry readable t blocks p (suc n) i ≡ find_entry readable t blocks p n (i + 1)
  unfolding find_entry
  find_entry_hole h = rw h

  pub find_entry_miss :
      (p i == 0) ≡ false
      → readable (p i) ≡ true
      → block_entry t (blocks (p i)) ≡ none
      → find_entry readable t blocks p (suc n) i ≡ find_entry readable t blocks p n (i + 1)
  unfolding find_entry
  find_entry_miss h r e = rw (h, r, e)

  pub find_entry_hit :
      {x : ℕ}
      → (p i == 0) ≡ false
      → readable (p i) ≡ true
      → block_entry t (blocks (p i)) ≡ some x
      → find_entry readable t blocks p (suc n) i ≡ some x
  unfolding find_entry
  find_entry_hit h r e = rw (h, r, e)

-- Pointwise, the map depends on what each block gives.
pub find_entry-congr :
    (readable : ℕ → Bool) (t : Name) (blocks blocks' : ℕ → Mem) (p : ℕ → ℕ) (n i : ℕ)
    → ((l : ℕ) → i ≤ l → l < i + n → block_entry t (blocks (p l)) ≡ block_entry t (blocks' (p l)))
    → find_entry readable t blocks p n i ≡ find_entry readable t blocks' p n i
unfolding find_entry
find_entry-congr readable t blocks blocks' p zero i h = refl
find_entry-congr readable t blocks blocks' p (suc n) i h = ground (
  arith,
  find_entry-congr readable t blocks blocks' p n (i + 1) (λ l a b. h l (omega arith) (omega arith)),
  h i (omega arith) (omega arith),
)

pub find_entry-pointers :
    (readable : ℕ → Bool) (t : Name) (blocks : ℕ → Mem) (p p' : ℕ → ℕ) (n i : ℕ)
    → ((l : ℕ) → i ≤ l → l < i + n → p l ≡ p' l)
    → find_entry readable t blocks p n i ≡ find_entry readable t blocks p' n i
unfolding find_entry
find_entry-pointers readable t blocks p p' zero i h = refl
find_entry-pointers readable t blocks p p' (suc n) i h = ground (
  arith,
  find_entry-pointers readable t blocks p p' n (i + 1) (λ l a b. h l (omega arith) (omega arith)),
  h i (omega arith) (omega arith),
)

-- The last pointer counts if those before it have no entry.
abbrev pub or_else : Option ℕ → Option ℕ → Option ℕ
or_else none o = o
or_else (some x) o = some x

or_else_assoc : (a b c : Option ℕ) → or_else (or_else a b) c ≡ or_else a (or_else b c)
or_else_assoc none b c = refl
or_else_assoc (some x) b c = refl

pub or_else-none : (a : Option ℕ) → or_else a none ≡ a
or_else-none none = refl
or_else-none (some x) = refl

module _ (readable : ℕ → Bool) (t : Name) (blocks : ℕ → Mem) (p : ℕ → ℕ) where
  find_entry-cons :
      (n i : ℕ)
      → find_entry readable t blocks p (suc n) i
        ≡ or_else (find_entry readable t blocks p 1 i) (find_entry readable t blocks p n (i + 1))
  unfolding find_entry
  find_entry-cons n i = elim (Bool-cases (p i == 0)) [
    | inl hole ↦ rw hole
    | inr present ↦ rw present (elim (Bool-cases (readable (p i))) [
      | inr bad ↦ rw bad
      | inl good ↦
          rw good (elim (Option-cases (block_entry t (blocks (p i)))) [
            | inl e ↦ rw e
            | inr (x, e) ↦ rw e
          ])
    ])
  ]

  pub find_entry-snoc :
      (n i : ℕ)
      → find_entry readable t blocks p (n + 1) i
        ≡ or_else (find_entry readable t blocks p n i) (find_entry readable t blocks p 1 (i + n))
  find_entry-snoc zero i =
      let e : i + 0 ≡ i = omega arith in
      let e1 : 0 + 1 ≡ 1 = refl in rw (e, e1) (unfold find_entry in refl)
  find_entry-snoc (suc n) i =
      let e : i + suc n ≡ i + 1 + n = omega arith in
      let e1 : suc n + 1 ≡ suc (n + 1) = omega arith in
      rw (e, e1)
        (find_entry-cons (n + 1) i
          ∙ ap (or_else (find_entry readable t blocks p 1 i)) (find_entry-snoc n (i + 1))
          ∙ sym (or_else_assoc (find_entry readable t blocks p 1 i) _ _)
          ∙ ap (λ o. or_else o (find_entry readable t blocks p 1 (i + 1 + n)))
              (sym (find_entry-cons n i)))

iget-take_buffer :
    (k : Kernel) (sbi : SbInfo) (ino : ℕ) (d : Device)
    → (iget k sbi ino (take_buffer d)).0 ≡ (iget k sbi ino d).0
unfolding iget
iget-take_buffer k sbi ino d = ground arith

iget-brelse :
    (k : Kernel) (sbi : SbInfo) (ino : ℕ) (d : Device)
    → (iget k sbi ino (brelse (take_buffer d))).0 ≡ (iget k sbi ino d).0
unfolding iget
iget-brelse k sbi ino d = ground arith

-- What `naive_lookup` makes of an entry.
abbrev pub answer : Kernel → SbInfo → Device → Option ℕ → Option (Result Inode)
answer k sbi d none = none
answer k sbi d (some ino) = some (iget k sbi ino d).0

answer-brelse :
    (k : Kernel) (sbi : SbInfo) (d : Device) (o : Option ℕ)
    → answer k sbi (brelse (take_buffer d)) o ≡ answer k sbi d o
answer-brelse k sbi d none = refl
answer-brelse k sbi d (some ino) = ap some (iget-brelse k sbi ino d)

lookup_scan_lem :
    (k : Kernel) (sbi : SbInfo) (t : Name) (p : ℕ → ℕ) (n i : ℕ) (d : Device)
    → (lookup_scan k sbi t p n i d).0 ≡ answer k sbi d (find_entry k.readable t d.blocks p n i)
unfolding lookup_scan find_entry block_entry
lookup_scan_lem k sbi t p zero i d = refl
lookup_scan_lem k sbi t p (suc n) i d = elim (Bool-cases (p i == 0)) [
  | inl hole ↦ rw hole (lookup_scan_lem k sbi t p n (i + 1) d)
  | inr present ↦ rw present (elim (Bool-cases (k.readable (p i))) [
    | inr bad ↦ rw bad (lookup_scan_lem k sbi t p n (i + 1) d)
    | inl good ↦ rw good (elim (Option-cases (find_record t (d.blocks (p i)))) [
      | inl e ↦ rw e (
          lookup_scan_lem k sbi t p n (i + 1) (brelse (take_buffer d))
          ∙ answer-brelse k sbi d (find_entry k.readable t d.blocks p n (i + 1)))
      | inr (j, e) ↦ rw e (ap some (iget-take_buffer k sbi (record_ino (d.blocks (p i)) j) d))
    ])
  ])
]

-- `naive_lookup` returns NULL when the directory, read as a map, has no entry for the name, and
-- otherwise what `naive_iget` returns for the entry's inode number.
pub lookup_lem :
    (k : Kernel) (sbi : SbInfo) (t : Name) (dir : Inode) (d : Device)
    → (lookup k sbi t dir d).0 ≡ answer k sbi d (entry_of k.readable t d.blocks dir)
unfolding lookup
lookup_lem k sbi t dir d = lookup_scan_lem k sbi t dir.block_pointers dir.block_count 0 d
