-- ===== src/Naive/Entries/Slots.antt =====
-- The three records of a block together: what a write into a free record and the clearing of a
-- found record do to the entries of the block.
use filesystem_lab.Base.{
  ℕ, zero, suc, ◌+◌, ◌%◌, ◌^◌, ◌≤◌, ◌<◌, ◌≡◌, ◌≢◌, ◌∙◌, refl, sym, ap, true, false, arith, inl, inr,
  Bool-cases, Option-cases, ◌⊎◌, ==_refl, Bool, none, some, ◌==◌,
}
use filesystem_lab.Base.Bytes.{Mem}
use filesystem_lab.Naive.Entries.{
  Name, record_ino, write_record, clear_record, matches, first_record, free_record, find_record,
}
use filesystem_lab.Naive.Entries.Record.{
  IsName, record_ino-write_record, matches-write_record_ne, matches-write_record_self,
  matches-write_record_other, record_ino-clear_record, matches-clear_record,
}
use filesystem_lab.Naive.Entries.Find.{block_entry}

-- What a scan that found record `j` says of it and of the records before it.
pub record FirstPass (test : ℕ → Bool) (from end j : ℕ) : Type 0 where
  pub after : from ≤ j
  pub before : j < end
  pub passes : test j ≡ true
  pub earlier : (l : ℕ) → from ≤ l → l < j → test l ≡ false

pub first_record-some :
    (test : ℕ → Bool) (n i j : ℕ) → first_record test n i ≡ some j → FirstPass test i (i + n) j
unfolding first_record
first_record-some test zero i j h = absurd (cc)
first_record-some test (suc n) i j h = elim (Bool-cases (test i)) [
  | inl hit ↦
      let e : i ≡ j = ground arith in
      record {
        after = omega arith;
        before = omega arith;
        passes = rw (← e) hit;
        earlier = λ l a b. absurd (omega arith);
      }
  | inr miss ↦
      let r = first_record-some test n (i + 1) j (ground arith) in
      record {
        after = omega (arith, r.after);
        before = omega (arith, r.before);
        passes = r.passes;
        earlier = λ l a b. ground (arith, r.earlier l);
      }
]

pub first_record-none :
    (test : ℕ → Bool) (n i : ℕ)
    → first_record test n i ≡ none
    → (l : ℕ) → i ≤ l
    → l < i + n
    → test l ≡ false
unfolding first_record
first_record-none test zero i h l a b = absurd (omega arith)
first_record-none test (suc n) i h l a b = elim (Bool-cases (test i)) [
  | inl hit ↦ absurd (ground arith)
  | inr miss ↦ ground (arith, first_record-none test n (i + 1) (ground arith) l)
]

-- A scan goes by what the test says of each record.
pub first_record-congr :
    (test test' : ℕ → Bool) (n i : ℕ)
    → ((l : ℕ) → test l ≡ test' l)
    → first_record test n i ≡ first_record test' n i
unfolding first_record
first_record-congr test test' zero i h = refl
first_record-congr test test' (suc n) i h =
    ground (arith, h i, first_record-congr test test' n (i + 1) h)

-- A scan stops at record `j` if that passes and none before it does.
pub first_record-at :
    (test : ℕ → Bool) (n i j : ℕ) → FirstPass test i (i + n) j → first_record test n i ≡ some j
unfolding first_record
first_record-at test zero i j f = absurd (omega (arith, f.after, f.before))
first_record-at test (suc n) i j f = elim (Bool-cases (i == j)) [
  | inl e ↦ ground (arith, f.passes)
  | inr e ↦ ground (
    arith,
    f.earlier i,
    f.after,
    first_record-at test n (i + 1) j record {
      after = ground (arith, f.after);
      before = omega (arith, f.before);
      passes = f.passes;
      earlier = λ l a b. f.earlier l (omega arith) b;
    },
  )
]

-- A record with number 0 matches no name.
pub matches_free :
    (t : Name) (m : Mem) (j : ℕ) → (record_ino m j == 0) ≡ true → matches t m j ≡ false
unfolding matches
matches_free t m j h = rw h

passes_apart :
    (t : Name) (m : Mem) (j l : ℕ)
    → (record_ino m j == 0) ≡ true
    → matches t m l ≡ true
    → (j == l) ≡ false
passes_apart t m j l free hit = elim (Bool-cases (j == l)) [
  | inl e ↦ let e' : j ≡ l = ground arith in cc (rw e' at (matches_free t m j free))
  | inr e ↦ e
]

pub block_entry-some :
    (t : Name) (m : Mem) (l : ℕ)
    → find_record t m ≡ some l
    → block_entry t m ≡ some (record_ino m l)
unfolding block_entry
block_entry-some t m l e = rw (e, block_entry)

pub block_entry-none : (t : Name) (m : Mem) → find_record t m ≡ none → block_entry t m ≡ none
unfolding block_entry
block_entry-none t m e = rw (e, block_entry)

-- Two blocks in which the same records match, with the same numbers, have the same entry.
block_entry-congr :
    (t : Name) (m m' : Mem)
    → ((l : ℕ) → matches t m' l ≡ matches t m l)
    → ((l : ℕ) → matches t m l ≡ true → record_ino m' l ≡ record_ino m l)
    → block_entry t m' ≡ block_entry t m
unfolding find_record
block_entry-congr t m m' same numbers = go (Option-cases (find_record t m))
  where
    scans : find_record t m' ≡ find_record t m
    scans = first_record-congr (matches t m') (matches t m) 3 0 same

    go :
        (find_record t m ≡ none) ⊎ ((l : ℕ) × (find_record t m ≡ some l))
        → block_entry t m' ≡ block_entry t m
    go (inl e) = block_entry-none t m' (scans ∙ e) ∙ sym (block_entry-none t m e)
    go (inr (l, e)) =
        block_entry-some t m' l (scans ∙ e)
        ∙ ap some (numbers l (first_record-some (matches t m) 3 0 l e).passes)
        ∙ sym (block_entry-some t m l e)

-- A name that is not the one written keeps its entry.
pub block_entry-write_record_other :
    (m : Mem) (j ino : ℕ) (s t : Name)
    → free_record m ≡ some j
    → IsName s
    → IsName t
    → s ≢ t
    → block_entry t (write_record m j ino s) ≡ block_entry t m
unfolding free_record
block_entry-write_record_other m j ino s t free v w h =
    block_entry-congr t m (write_record m j ino s) same
      (λ l hit. rw (record_ino-write_record m j ino s l, passes_apart t m j l is_free hit))
  where
    is_free : (record_ino m j == 0) ≡ true
    is_free = (first_record-some (λ l. record_ino m l == 0) 3 0 j free).passes

    same : (l : ℕ) → matches t (write_record m j ino s) l ≡ matches t m l
    same l = elim (Bool-cases (j == l)) [
      | inl e ↦
          let e' : j ≡ l = ground arith in
          rw (← e')
            (matches-write_record_other m j ino s t v w h ∙ sym (matches_free t m j is_free))
      | inr e ↦ matches-write_record_ne m j ino s t l (ground arith)
    ]

-- The name that was written into a block that did not have it is found there, with its number.
pub block_entry-write_record_self :
    (m : Mem) (j ino : ℕ) (s : Name)
    → free_record m ≡ some j
    → IsName s
    → ino % 2 ^ 32 ≢ 0
    → find_record s m ≡ none
    → block_entry s (write_record m j ino s) ≡ some (ino % 2 ^ 32)
unfolding free_record find_record
block_entry-write_record_self m j ino s free v nz absent =
    block_entry-some s (write_record m j ino s) j
      (first_record-at (matches s (write_record m j ino s)) 3 0 j hit)
    ∙ ap some (rw (record_ino-write_record m j ino s j, ==_refl j))
  where
    slot : FirstPass (λ l. record_ino m l == 0) 0 3 j
    slot = first_record-some (λ l. record_ino m l == 0) 3 0 j free

    hit : FirstPass (matches s (write_record m j ino s)) 0 3 j
    hit = record {
      after = slot.after;
      before = slot.before;
      passes = matches-write_record_self m j ino s v nz;
      earlier = λ l a b.
          matches-write_record_ne m j ino s s l (omega arith)
          ∙ first_record-none (matches s m) 3 0 absent l a (omega (arith, slot.before));
    }

pub find_record_of_entry : (t : Name) (m : Mem) → block_entry t m ≡ none → find_record t m ≡ none
find_record_of_entry t m h = elim (Option-cases (find_record t m)) [
  | inl e ↦ e
  | inr (l, e) ↦ absurd (cc (h, block_entry-some t m l e))
]

-- The clearing of a record that does not hold the name `t` keeps the entry of `t`.
pub block_entry-clear_record_other :
    (m : Mem) (j : ℕ) (t : Name)
    → matches t m j ≡ false
    → block_entry t (clear_record m j) ≡ block_entry t m
block_entry-clear_record_other m j t miss =
    block_entry-congr t m (clear_record m j) same
      (λ l hit. rw (record_ino-clear_record m j l, apart l hit))
  where
    same : (l : ℕ) → matches t (clear_record m j) l ≡ matches t m l
    same l = elim (Bool-cases (j == l)) [
      | inl e ↦
          let e' : j ≡ l = ground arith in
          rw (← e') (rw (matches-clear_record m j t j, ==_refl j) (sym miss))
      | inr e ↦ rw (matches-clear_record m j t l, e)
    ]

    apart : (l : ℕ) → matches t m l ≡ true → (j == l) ≡ false
    apart l hit = elim (Bool-cases (j == l)) [
      | inl e ↦ let e' : j ≡ l = ground arith in cc (rw e' at miss)
      | inr e ↦ e
    ]
