-- ===== src/Naive/Session/Invariant.antt =====
-- What holds of a directory of naive/ across creates and unlinks.
use filesystem_lab.Base.{
  ℕ, ◌-◌, ◌^◌, ◌<◌, ◌≡◌, ◌≢◌, ◌∙◌, ◌⊎◌, refl, sym, ap, true, arith, inl, inr, Bool-cases, none,
  some, ◌==◌, ==→eq, ==_refl, Result, ok, err, [], ◌∷◌,
}
use filesystem_lab.Base.Bits.{bit}
use filesystem_lab.Device.{Device}
use filesystem_lab.Naive.Layout.{SbInfo, IsValid}
use filesystem_lab.Naive.Kernel.{Inode, Kernel}
use filesystem_lab.Naive.Alloc.{find_free_inode}
use filesystem_lab.Naive.Alloc.Inodes.{FreeInode, find_free_inode_free}
use filesystem_lab.Naive.Entries.{Name, add_entry}
use filesystem_lab.Naive.Entries.Grow.{IsDir}
use filesystem_lab.Naive.Entries.Keep.{KeepsNumbers, add_entry-KeepsNumbers}
use filesystem_lab.Naive.Entries.Outcome.{AddOutcome, AllUnique, add_entry-Outcome}
use filesystem_lab.Naive.Namespace.{create, mark_inode, new_file_inode}
use filesystem_lab.Naive.Namespace.Create.{
  mark_inode-IsValid, mark_inode-IsDir, Numbered, add_entry-Numbered,
}
use filesystem_lab.Naive.Session.{State, IsFileName, view, after_create}

-- The super block is valid, the directory is sound, no name stands twice, and the inode number of
-- each entry but `.` and `..` is in use and belongs to one name.
pub record Sound (k : Kernel) (st : State) : Type 0 where
  pub valid : IsValid st.sbi
  pub few : st.sbi.inode_total < 2 ^ 32
  pub is_dir : IsDir st.sbi st.dir
  pub unique : AllUnique st.dev.blocks st.dir
  pub numbered :
      (t : Name) (n : ℕ)
      → IsFileName t
      → view k st t ≡ some n
      → (0 < n) × (bit st.sbi.inode_bitmap (n - 1) ≡ true)
  pub one_name :
      (t u : Name) (n : ℕ)
      → IsFileName t
      → IsFileName u
      → view k st t ≡ some n
      → view k st u ≡ some n
      → t ≡ u

pub Name-cases : (s t : Name) → (s ≡ t) ⊎ (s ≢ t)
Name-cases [] [] = inl refl
Name-cases [] (b ∷ t) = inr (λ e. cc e)
Name-cases (a ∷ s) [] = inr (λ e. cc e)
Name-cases (a ∷ s) (b ∷ t) = elim (Bool-cases (a == b)) [
  | inr e ↦ inr (λ q. cc (e, q, ==_refl a))
  | inl e ↦ elim (Name-cases s t) [
    | inl q ↦ inl (cc (==→eq a b e, q))
    | inr q ↦ inr (λ z. q (cc z))
  ]
]

-- The state after `naive_create` has marked the number and called `naive_add_entry`.
abbrev pub entered_state : Kernel → State → Name → State
entered_state k st s =
    let n = find_free_inode st.sbi in
    let (_, sbi', dir', d') = add_entry k s n (mark_inode st.sbi n) st.dir st.dev in
    record { sbi = sbi'; dir = dir'; dev = d' }

-- `naive_create` leaves everything as it was, or goes that far.
pub create_ways :
    (k : Kernel) (st : State) (s : Name) (mode : ℕ)
    → (after_create k st s mode ≡ st)
      ⊎ ((find_free_inode st.sbi ≢ 0) × (after_create k st s mode ≡ entered_state k st s))
unfolding after_create create
create_ways k st s mode = elim (Bool-cases (find_free_inode st.sbi == 0)) [
  | inl e ↦ inl (rw e refl)
  | inr e ↦ elim (Bool-cases (k.allocates 0)) [
    | inr a ↦ inl (rw (e, a) refl)
    | inl a ↦
        inr (ground arith, rw (e, a) (both (add_entry k s n (mark_inode st.sbi n) st.dir st.dev)))
  ]
]
  where
    n : ℕ
    n = find_free_inode st.sbi

    both :
        (x : Result (Unit {0}) × SbInfo × Inode × Device)
        → let y : Result Inode × SbInfo × Inode × Device = elim x.0 [
          | ok _ ↦ (ok (new_file_inode k st.dir mode n), x.1, x.2, x.3)
          | err e ↦ (err e, x.1, x.2, x.3)
        ] in
          ◌≡◌ {A = State}
            (record { sbi = y.1; dir = y.2; dev = y.3 })
            (record { sbi = x.1; dir = x.2; dev = x.3 })
    both (ok _, b, c, d) = refl
    both (err e, b, c, d) = refl

module _ (k : Kernel) (reads : (b : ℕ) → k.readable b ≡ true) (st : State) (v : Sound k st)
    (s : Name) (w : IsFileName s) where
  abbrev number : ℕ
  number = find_free_inode st.sbi

  module _ (absent : view k st s ≡ none) (nz : number ≢ 0) where
    free : FreeInode st.sbi number
    free = find_free_inode_free st.sbi nz

    pub outcome :
        AddOutcome k.readable s number st.dir st.dev
          (add_entry k s number (mark_inode st.sbi number) st.dir st.dev).0
          (entered_state k st s).sbi
          (entered_state k st s).dir
          (entered_state k st s).dev
    unfolding view
    outcome =
        add_entry-Outcome k s number (mark_inode st.sbi number) st.dir st.dev reads
          (mark_inode-IsValid st.sbi number v.valid)
          (mark_inode-IsDir st.sbi number st.dir v.is_dir) w.is_name free.numbered
          (omega (arith, free.in_table, v.few)) absent v.unique

    pub keeps : KeepsNumbers (mark_inode st.sbi number) (entered_state k st s).sbi
    keeps =
        add_entry-KeepsNumbers k s number (mark_inode st.sbi number) st.dir
          (mark_inode-IsValid st.sbi number v.valid) st.dev

    marked : Numbered st.sbi number (entered_state k st s).sbi
    marked = add_entry-Numbered k s number st.sbi st.dir st.dev v.valid

    -- An entry of the new state is an entry of the old one, or the new one.
    entry_ways :
        (t : Name) (n : ℕ)
        → IsFileName t
        → view k (entered_state k st s) t ≡ some n
        → (view k st t ≡ some n) ⊎ ((t ≡ s) × (n ≡ number))
    unfolding view
    entry_ways t n wt e = elim outcome.entries [
      | inr (same, _) ↦ inl (sym (same t wt.is_name) ∙ e)
      | inl (_, added) ↦ elim (Name-cases s t) [
        | inl q ↦ inr (sym q, cc (added.has, rw (← q) at e))
        | inr ne ↦ inl (sym (added.keeps t wt.is_name ne) ∙ e)
      ]
    ]

    pub old_number : (t : Name) → IsFileName t → view k st t ≢ some number
    old_number t wt e = cc ((v.numbered t number wt e).1, free.unused)

    pub entered-Sound : Sound k (entered_state k st s)
    unfolding mark_inode
    entered-Sound = record {
      valid = keeps.valid;
      few = rw keeps.total v.few;
      is_dir = outcome.is_dir;
      unique = outcome.unique;
      numbered = λ t n wt e. elim (entry_ways t n wt e) [
        | inl old ↦
            ((v.numbered t n wt old).0, marked (n - 1) ∙ ground (arith, (v.numbered t n wt old).1))
        | inr (_, q) ↦ (rw q free.numbered, marked (n - 1) ∙ rw (q, ==_refl (number - 1)) refl)
      ];
      one_name = λ t u n wt wu e f. one t u n wt wu (entry_ways t n wt e) (entry_ways u n wu f);
    }
      where
        one :
            (t u : Name) (n : ℕ)
            → IsFileName t
            → IsFileName u
            → (view k st t ≡ some n) ⊎ ((t ≡ s) × (n ≡ number))
            → (view k st u ≡ some n) ⊎ ((u ≡ s) × (n ≡ number))
            → t ≡ u
        one t u n wt wu (inl e) (inl f) = v.one_name t u n wt wu e f
        one t u n wt wu (inl e) (inr (_, q)) = absurd (old_number t wt (e ∙ ap some q))
        one t u n wt wu (inr (_, q)) (inl f) = absurd (old_number u wu (f ∙ ap some q))
        one t u n wt wu (inr (a, _)) (inr (b, _)) = a ∙ sym b

  pub after_create-Sound : (mode : ℕ) → view k st s ≡ none → Sound k (after_create k st s mode)
  after_create-Sound mode absent = elim (create_ways k st s mode) [
    | inl same ↦ rw same v
    | inr (nz, e) ↦ rw e (entered-Sound absent nz)
  ]
