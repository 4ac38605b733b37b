-- ===== src/Naive/Entries/Lookup.antt =====
-- `naive_lookup` of naive/naivefs_inode.c against the bytes of the directory: three records of 132 bytes
-- in each block, a number and then a name that ends with NUL.
use filesystem_lab.Base.{
  ℕ, zero, suc, ◌+◌, ◌*◌, ◌≤◌, ◌<◌, ◌≡◌, ◌≢◌, ◌⊎◌, refl, true, arith, inl, inr, Bool-cases,
  Option-cases, Bool, Option, none, some, Result, ◌==◌, ==→eq, leb, leb→le, [], ◌∷◌, length,
}
use filesystem_lab.Base.Bytes.{Mem, load32, strncmp_eq}
use filesystem_lab.Device.{Device}
use filesystem_lab.Naive.Layout.{SbInfo}
use filesystem_lab.Naive.Kernel.{Inode, Kernel}
use filesystem_lab.Naive.Table.{iget}
use filesystem_lab.Naive.Entries.{Name, record_ino, find_record, matches, lookup}
use filesystem_lab.Naive.Entries.Find.{find_entry, entry_of, answer, lookup_lem}
use filesystem_lab.Naive.Entries.Slots.{
  block_entry-none, block_entry-some, first_record-some, first_record-none, FirstPass,
}

-- The bytes from `o` on are the characters of the name and a NUL.
abbrev pub Spells : Mem → ℕ → Name → Type 0
Spells m o [] = m o ≡ 0
Spells m o (c ∷ s) = (m o ≡ c) × Spells m (o + 1) s

-- Record `j` of a block is in use and has the name.
abbrev pub Holds : Name → Mem → ℕ → Type 0
Holds s m j = (load32 m (33 * j) ≢ 0) × Spells m (132 * j + 4) s

Spells-strncmp_eq :
    (m : Mem) (s : Name) (n o : ℕ) → length s < n → strncmp_eq m o s n ≡ true → Spells m o s
unfolding strncmp_eq
Spells-strncmp_eq m s zero o lt h = absurd (omega arith)
Spells-strncmp_eq m [] (suc n) o lt h = ground arith
Spells-strncmp_eq m (c ∷ s) (suc n) o lt h =
    (ground arith, Spells-strncmp_eq m s n (o + 1) (omega arith) (ground arith))

strncmp_eq-Spells :
    (m : Mem) (s : Name) (n o : ℕ) → length s < n → Spells m o s → strncmp_eq m o s n ≡ true
unfolding strncmp_eq
strncmp_eq-Spells m s zero o lt h = absurd (omega arith)
strncmp_eq-Spells m [] (suc n) o lt h = ground arith
strncmp_eq-Spells m (c ∷ s) (suc n) o lt (e, h) =
    ground (arith, strncmp_eq-Spells m s n (o + 1) (omega arith) h)

name_at : (j : ℕ) → 132 * j + 4 ≡ j * 132 + 4
name_at j = omega arith

Holds-matches : (s : Name) (m : Mem) (j : ℕ) → length s < 128 → matches s m j ≡ true → Holds s m j
unfolding matches record_ino
Holds-matches s m j fits h =
    (ground arith, rw (name_at j) (Spells-strncmp_eq m s 128 (j * 132 + 4) fits (ground arith)))

matches-Holds : (s : Name) (m : Mem) (j : ℕ) → length s < 128 → Holds s m j → matches s m j ≡ true
unfolding matches record_ino
matches-Holds s m j fits (used, spelt) =
    ground (arith, used, strncmp_eq-Spells m s 128 (j * 132 + 4) fits (rw (name_at j) at spelt))

-- Record `j` of the block that pointer `l` of the directory gives has the name, and can be read.
abbrev pub Here : (ℕ → Bool) → (ℕ → Mem) → (ℕ → ℕ) → Name → ℕ → ℕ → Type 0
Here readable blocks p s l j =
    (j < 3) × (p l ≢ 0) × (readable (p l) ≡ true) × Holds s (blocks (p l)) j

module _ (readable : ℕ → Bool) (s : Name) (fits : length s < 128) (blocks : ℕ → Mem)
    (p : ℕ → ℕ) where
  -- The first record with the name over `n` pointers from pointer `i`, or that there is none.
  abbrev pub Found : ℕ → ℕ → Option ℕ → Type 0
  Found n i none = (l j : ℕ) → i ≤ l → l < i + n → ¬ Here readable blocks p s l j
  Found n i (some x) =
      (l : ℕ) × (j : ℕ) × (i ≤ l)
      × (l < i + n)
      × Here readable blocks p s l j
      × ((l' j' : ℕ) → i ≤ l' → Here readable blocks p s l' j' → (l < l') ⊎ ((l ≡ l') × (j ≤ j')))
      × (x ≡ load32 (blocks (p l)) (33 * j))

  Found-later :
      (n i : ℕ) (o : Option ℕ)
      → ((j : ℕ) → ¬ Here readable blocks p s i j)
      → Found n (i + 1) o
      → Found (suc n) i o
  Found-later n i none miss h = λ l j from to here. elim (Bool-cases (i == l)) [
    | inl e ↦ miss j (rw (==→eq i l e) here)
    | inr e ↦ h l j (ground arith) (omega arith) here
  ]
  Found-later n i (some x) miss (l, j, from, to, here, first, is) = (
    l,
    j,
    omega arith,
    omega arith,
    here,
    λ l' j' from' here'. elim (Bool-cases (i == l')) [
      | inl e ↦ absurd (miss j' (rw (==→eq i l' e) here'))
      | inr e ↦ first l' j' (ground arith) here'
    ],
    is,
  )

  Found-here :
      (n i j : ℕ)
      → p i ≢ 0
      → readable (p i) ≡ true
      → FirstPass (matches s (blocks (p i))) 0 3 j
      → Found (suc n) i (some (load32 (blocks (p i)) (33 * j)))
  Found-here n i j nz good f = (
    i,
    j,
    omega arith,
    omega arith,
    (f.before, nz, good, Holds-matches s (blocks (p i)) j fits f.passes),
    λ l' j' from' (low, _, _, holds). elim (Bool-cases (i == l')) [
      | inl e ↦ inr (==→eq i l' e, not_before j' (rw (==→eq i l' e) holds))
      | inr e ↦ inl (ground arith)
    ],
    refl,
  )
    where
      not_before : (j' : ℕ) → Holds s (blocks (p i)) j' → j ≤ j'
      not_before j' holds = elim (Bool-cases (leb j j')) [
        | inl e ↦ leb→le j j' e
        | inr e ↦
            let no = f.earlier j' (omega arith) (ground arith) in
            absurd (cc (matches-Holds s (blocks (p i)) j' fits holds, no))
      ]

  find_entry-Found : (n i : ℕ) → Found n i (find_entry readable s blocks p n i)
  unfolding find_entry find_record
  find_entry-Found zero i = λ l j from to here. absurd (omega arith)
  find_entry-Found (suc n) i = elim (Bool-cases (p i == 0)) [
    | inl hole ↦
        rw hole
          (Found-later n i _ (λ j (_, nz, _, _). nz (==→eq _ _ hole)) (find_entry-Found n (i + 1)))
    | inr present ↦ elim (Bool-cases (readable (p i))) [
      | inr bad ↦
          rw (present, bad)
            (Found-later n i _ (λ j (_, _, good, _). absurd (cc (good, bad)))
              (find_entry-Found n (i + 1)))
      | inl good ↦ elim (Option-cases (find_record s (blocks (p i)))) [
        | inl e ↦
            rw (present, good, block_entry-none s (blocks (p i)) e)
              (Found-later n i _
                (λ j (low, _, _, holds). absurd (
                  cc (
                    matches-Holds s (blocks (p i)) j fits holds,
                    first_record-none (matches s (blocks (p i))) 3 0 e j (omega arith)
                        (omega arith),
                  )))
                (find_entry-Found n (i + 1)))
        | inr (j, e) ↦
            rw (present, good, block_entry-some s (blocks (p i)) j e)
              (unfold record_ino in
                Found-here n i j (ground arith) good
                  (first_record-some (matches s (blocks (p i))) 3 0 j e))
      ]
    ]
  ]

-- What `naive_lookup` answers: nothing where no record of the directory has the name, and otherwise
-- what `naive_iget` returns for the number of the first record that has it.
abbrev pub LookupAnswer : Kernel → SbInfo → Name → Inode → Device → Option (Result Inode) → Type 0
LookupAnswer k sbi s dir d none =
    (l j : ℕ) → l < dir.block_count → ¬ Here k.readable d.blocks dir.block_pointers s l j
LookupAnswer k sbi s dir d (some r) =
    (l : ℕ) × (j : ℕ) × (l < dir.block_count)
    × Here k.readable d.blocks dir.block_pointers s l j
    × ((l' j' : ℕ)
        → Here k.readable d.blocks dir.block_pointers s l' j'
        → (l < l') ⊎ ((l ≡ l') × (j ≤ j')))
    × (r ≡ (iget k sbi (load32 (d.blocks (dir.block_pointers l)) (33 * j)) d).0)

-- `naive_lookup` of a name of fewer than 128 characters returns NULL when no record in use of a block
-- of the directory that can be read spells the name, and otherwise what `naive_iget` returns for the
-- number of the first such record, by block pointer and then by place in the block.
pub lookup_finds :
    (k : Kernel) (sbi : SbInfo) (s : Name) (dir : Inode) (d : Device)
    → length s < 128
    → LookupAnswer k sbi s dir d (lookup k sbi s dir d).0
lookup_finds k sbi s dir d fits = rw (lookup_lem k sbi s dir d) (
    go (entry_of k.readable s d.blocks dir)
      (find_entry-Found k.readable s fits d.blocks dir.block_pointers dir.block_count 0))
  where
    go :
        (o : Option ℕ)
        → Found k.readable s fits d.blocks dir.block_pointers dir.block_count 0 o
        → LookupAnswer k sbi s dir d (answer k sbi d o)
    go none h = λ l j lt. h l j (omega arith) (omega arith)
    go (some x) (l, j, _, to, here, first, is) =
        (l, j, omega arith, here, λ l' j'. first l' j' (omega arith), rw is refl)
