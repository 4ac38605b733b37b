-- ===== src/Naive/Entries/Unique.antt =====
-- That no name stands in two records of a directory, across `naive_add_entry` and
-- `naive_remove_entry`.
use filesystem_lab.Base.{
  ℕ, zero, suc, ◌+◌, ◌≤◌, ◌<◌, ◌≡◌, ◌≢◌, ◌∙◌, ◌⊎◌, sym, ap, true, false, arith, inl, inr,
  Bool-cases, Option-cases, Bool, none, ◌==◌, ==→eq,
}
use filesystem_lab.Base.Bytes.{Mem}
use filesystem_lab.Naive.Kernel.{Inode}
use filesystem_lab.Naive.Entries.{Name, matches, find_record}
use filesystem_lab.Naive.Entries.Record.{IsName}
use filesystem_lab.Naive.Entries.Find.{
  find_entry, entry_of, block_entry, find_entry_hole, find_entry_miss, find_entry_hit,
}
use filesystem_lab.Naive.Entries.Slots.{first_record-none, find_record_of_entry}
use filesystem_lab.Naive.Entries.Remove.{Unique}

-- `t` stands in record `j` of block `b` of the directory.
pub record Stands (t : Name) (blocks : ℕ → Mem) (dir : Inode) (b j : ℕ) : Type 0 where
  pub at : ℕ
  pub below : at < dir.block_count
  pub here : dir.block_pointers at ≡ b
  pub hit : matches t (blocks b) j ≡ true

-- A record of the new directory was one of the old directory, or is the record `slot` of block `b`,
-- which holds the name `s` and no other.
abbrev pub OldOrNew : Name → (ℕ → Mem) → Inode → ℕ → ℕ → Name → ℕ → ℕ → Type 0
OldOrNew s blocks dir b slot t c j = Stands t blocks dir c j ⊎ ((c ≡ b) × (j ≡ slot) × (¬ (s ≢ t)))

abbrev pub OneMore : Name → (ℕ → Mem) → Inode → (ℕ → Mem) → Inode → ℕ → ℕ → Type 0
OneMore s blocks dir blocks' dir' b slot =
    (t : Name)
    → IsName t
    → (l j : ℕ) → l < dir'.block_count
    → j < 3
    → matches t (blocks' (dir'.block_pointers l)) j ≡ true
    → OldOrNew s blocks dir b slot t (dir'.block_pointers l) j

-- A name without an entry stands in no record.
find_entry-absent :
    (readable : ℕ → Bool) (t : Name) (blocks : ℕ → Mem) (p : ℕ → ℕ) (n i : ℕ)
    → ((b : ℕ) → readable b ≡ true)
    → find_entry readable t blocks p n i ≡ none
    → (l : ℕ) → i ≤ l
    → l < i + n
    → p l ≢ 0
    → block_entry t (blocks (p l)) ≡ none
find_entry-absent readable t blocks p zero i r h l a b nz = absurd (omega arith)
find_entry-absent readable t blocks p (suc n) i r h l a b nz = elim (Bool-cases (p i == 0)) [
  | inl hole ↦
      find_entry-absent readable t blocks p n (i + 1) r
        (rw (find_entry_hole readable t blocks p n i hole) at h) l
        (next (λ z. nz (rw (← z) (==→eq _ _ hole)))) (omega arith) nz
  | inr present ↦ elim (Option-cases (block_entry t (blocks (p i)))) [
    | inl e ↦ elim (Bool-cases (i == l)) [
      | inl z ↦ rw (← ==→eq i l z) e
      | inr z ↦
          find_entry-absent readable t blocks p n (i + 1) r
            (rw (find_entry_miss readable t blocks p n i present (r (p i)) e) at h) l
            (next (ground arith)) (omega arith) nz
    ]
    | inr (x, e) ↦ absurd (cc (h, find_entry_hit readable t blocks p n i present (r (p i)) e))
  ]
]
  where
    next : i ≢ l → i + 1 ≤ l
    next ne = ground arith

pub absent_matches :
    (readable : ℕ → Bool) (t : Name) (blocks : ℕ → Mem) (dir : Inode)
    → ((b : ℕ) → readable b ≡ true)
    → ((l : ℕ) → l < dir.block_count → dir.block_pointers l ≢ 0)
    → entry_of readable t blocks dir ≡ none
    → (l j : ℕ) → l < dir.block_count
    → j < 3
    → matches t (blocks (dir.block_pointers l)) j ≡ false
unfolding find_record
absent_matches readable t blocks dir r p h l j lt jt =
    first_record-none (matches t (blocks (dir.block_pointers l))) 3 0
      (find_record_of_entry t (blocks (dir.block_pointers l)) (
        find_entry-absent readable t blocks dir.block_pointers dir.block_count 0 r h l (omega arith)
          (omega arith) (p l lt)))
      j (omega arith) (omega arith)

-- One record more, for a name that had none, keeps every name unique.
pub OneMore-Unique :
    (readable : ℕ → Bool) (s t : Name) (blocks blocks' : ℕ → Mem) (dir dir' : Inode) (b slot : ℕ)
    → ((b : ℕ) → readable b ≡ true)
    → ((l : ℕ) → l < dir.block_count → dir.block_pointers l ≢ 0)
    → entry_of readable s blocks dir ≡ none
    → OneMore s blocks dir blocks' dir' b slot
    → IsName t
    → Unique t blocks dir
    → Unique t blocks' dir'
OneMore-Unique readable s t blocks blocks' dir dir' b slot r p h one w u l l' j j' lt lt' jt jt' m
      m' =
    go (one t w l j lt jt m) (one t w l' j' lt' jt' m')
  where
    c : ℕ
    c = dir'.block_pointers l

    c' : ℕ
    c' = dir'.block_pointers l'

    differs : (x i : ℕ) → i < 3 → Stands t blocks dir x i → s ≢ t
    differs x i it old e = cc (
      old.hit,
      absent_matches readable s blocks dir r p h old.at i old.below it,
      ap (λ (z : ℕ). matches s (blocks z) i) old.here,
      ap (λ (n : Name). matches n (blocks x) i) e,
    )

    go :
        OldOrNew s blocks dir b slot t c j
        → OldOrNew s blocks dir b slot t c' j'
        → (c ≡ c') × (j ≡ j')
    go (inl old) (inl old') =
        let (same, i) =
          u old.at old'.at j j' old.below old'.below jt jt' (rw old.here old.hit)
            (rw old'.here old'.hit) in
        (sym old.here ∙ same ∙ old'.here, i)
    go (inl old) (inr (_, _, same)) = absurd (same (differs c j jt old))
    go (inr (_, _, same)) (inl old) = absurd (same (differs c' j' jt' old))
    go (inr (e, i, _)) (inr (e', i', _)) = (e ∙ sym e', i ∙ sym i')

-- Two contents that agree on the directory's blocks.
pub Unique-congr :
    (t : Name) (blocks blocks' : ℕ → Mem) (dir : Inode)
    → ((l : ℕ)
        → l < dir.block_count
        → blocks' (dir.block_pointers l) ≡ blocks (dir.block_pointers l))
    → Unique t blocks dir
    → Unique t blocks' dir
Unique-congr t blocks blocks' dir same u l l' j j' lt lt' jt jt' m m' =
    u l l' j j' lt lt' jt jt' (sym (ap (λ b. matches t b j) (same l lt)) ∙ m)
      (sym (ap (λ b. matches t b j') (same l' lt')) ∙ m')
