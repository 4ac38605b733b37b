-- ===== src/Memory/Long.antt =====
-- Names of more than 29 characters in naive/naivefs-final/naivefs.c.
use filesystem_lab.Base.{
  ℕ, ◌+◌, ◌≤◌, ◌<◌, ◌≡◌, refl, ap, true, false, arith, Bool-cases, inl, inr, List, [], ◌∷◌, ◌++◌,
  length, ok,
}
use filesystem_lab.Memory.{
  Name, FileEntry, State, Kernel, name_eq, cut_name, exists, create, create_from, new_inode,
  is_dir_mode,
}
use filesystem_lab.Memory.Lookup.{name_eq_sound, length-cut_name}

-- Every stored name has at most 29 characters.
abbrev pub Cut : List FileEntry → Type 0
Cut [] = Unit
Cut (e ∷ l) = (length e.name ≤ 29) × Cut l

long_absent : (s : Name) (l : List FileEntry) → 29 < length s → Cut l → exists s l ≡ false
unfolding exists
long_absent s [] long c = refl
long_absent s (x ∷ l) long c = elim (Bool-cases (name_eq x.name s)) [
  | inl e ↦ absurd (omega (arith, c.0, ap length (name_eq_sound x.name s e)))
  | inr e ↦ rw e (long_absent s l long c.1)
]

Cut-append : (l : List FileEntry) (e : FileEntry) → length e.name ≤ 29 → Cut l → Cut (l ++ (e ∷ []))
Cut-append [] e h c = (h, tt)
Cut-append (x ∷ l) e h c = (c.0, Cut-append l e h c.1)

-- A name of more than 29 characters is cut when it is stored and compared in full: with all stored
-- names of at most 29 characters and memory to be had, `naive_create` makes a file of that name
-- although it has just made one, with another inode number.
pub create_long_twice :
    (k : Kernel) (s : Name) (mode : ℕ) (st : State)
    → ((n : ℕ) → k.allocates n ≡ true)
    → 29 < length s
    → Cut st.file_list
    → let (r, st1) = create k s mode st in
      (r ≡ ok (new_inode k mode st.next_inode_no))
      × ((create k s mode st1).0 ≡ ok (new_inode k mode (st.next_inode_no + 1)))
unfolding create create_from
create_long_twice k s mode st a long c =
    rw (long_absent s st.file_list long c, a 0, a 1)
      (
        refl,
        rw
            (long_absent s (st.file_list ++ (e ∷ [])) long
              (Cut-append st.file_list e (length-cut_name 29 s) c))
            refl,
      )
  where
    e : FileEntry
    e = record { name = cut_name 29 s; inode_no = st.next_inode_no; is_dir = is_dir_mode mode }
