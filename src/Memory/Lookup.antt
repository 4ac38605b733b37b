-- ===== src/Memory/Lookup.antt =====
-- The list of naive/naivefs-final/naivefs.c as a map from names to inode numbers.
use filesystem_lab.Base.{
  ℕ, zero, suc, ◌+◌, ◌≤◌, ◌≡◌, ◌≢◌, ◌∙◌, ◌⊎◌, refl, ap, ap₂, true, false, arith, Bool, Bool-cases,
  inl, inr, Option, none, some, List, [], ◌∷◌, ◌++◌, if◌then◌else◌, ◌==◌, ==→eq, ==_refl, length,
  ok, err, eexist,
}
use filesystem_lab.Memory.{
  Name, FileEntry, State, Kernel, name_eq, cut_name, exists, create, create_from, new_inode,
  delete_first, unlink, is_dir_mode,
}

-- The number of the first entry with the name.
unfoldable pub lookup : Name → List FileEntry → Option ℕ
unfolding name_eq
lookup s [] = none
lookup s (e ∷ l) = if name_eq e.name s then some e.inode_no else lookup s l

pub name_eq_refl : (s : Name) → name_eq s s ≡ true
unfolding name_eq
name_eq_refl [] = refl
name_eq_refl (c ∷ s) = rw (==_refl c) (name_eq_refl s)

pub name_eq_sound : (a b : Name) → name_eq a b ≡ true → a ≡ b
unfolding name_eq
name_eq_sound [] [] h = refl
name_eq_sound [] (c ∷ b) h = absurd (cc h)
name_eq_sound (c ∷ a) [] h = absurd (cc h)
name_eq_sound (c ∷ a) (d ∷ b) h = elim (Bool-cases (c == d)) [
  | inl e ↦ cc (==→eq c d e, name_eq_sound a b (rw e at h))
  | inr e ↦ absurd (cc (rw e at h))
]

pub cut_name_short : (n : ℕ) (s : Name) → length s ≤ n → cut_name n s ≡ s
unfolding cut_name
cut_name_short zero [] h = refl
cut_name_short zero (c ∷ s) h = absurd (omega arith)
cut_name_short (suc n) [] h = refl
cut_name_short (suc n) (c ∷ s) h = ap (λ t. c ∷ t) (cut_name_short n s (omega arith))

pub length-cut_name : (n : ℕ) (s : Name) → length (cut_name n s) ≤ n
unfolding cut_name
length-cut_name zero s = omega arith
length-cut_name (suc n) [] = omega arith
length-cut_name (suc n) (c ∷ s) = omega (arith, length-cut_name n s)

pub exists-lookup : (s : Name) (l : List FileEntry) → exists s l ≡ false → lookup s l ≡ none
unfolding exists lookup
exists-lookup s [] h = refl
exists-lookup s (e ∷ l) h = ground (arith, exists-lookup s l)

pub lookup-exists : (s : Name) (l : List FileEntry) → lookup s l ≡ none → exists s l ≡ false
unfolding exists lookup
lookup-exists s [] h = refl
lookup-exists s (e ∷ l) h = ground (arith, lookup-exists s l)

-- The first answer, or else the number if the test holds.
abbrev pub or_new : Option ℕ → Bool → ℕ → Option ℕ
or_new (some n) hit m = some n
or_new none hit m = if hit then some m else none

or_new_miss : (o : Option ℕ) (m : ℕ) → or_new o false m ≡ o
or_new_miss none m = refl
or_new_miss (some n) m = refl

pub lookup-append :
    (s : Name) (l : List FileEntry) (e : FileEntry)
    → lookup s (l ++ (e ∷ [])) ≡ or_new (lookup s l) (name_eq e.name s) e.inode_no
unfolding lookup
lookup-append s [] e = refl
lookup-append s (x ∷ l) e = elim (Bool-cases (name_eq x.name s)) [
  | inl h ↦ rw h refl
  | inr h ↦ rw h (lookup-append s l e)
]

-- An entry that was just put behind a list without its name is the one that is taken out.
pub delete_first-append :
    (s : Name) (l : List FileEntry) (e : FileEntry)
    → exists s l ≡ false
    → name_eq e.name s ≡ true
    → delete_first s (l ++ (e ∷ [])) ≡ l
unfolding delete_first exists
delete_first-append s [] e h q = rw q refl
delete_first-append s (x ∷ l) e h q = elim (Bool-cases (name_eq x.name s)) [
  | inl z ↦ absurd (cc (rw z at h))
  | inr z ↦ rw z (ap (λ t. x ∷ t) (delete_first-append s l e (rw z at h) q))
]

-- `naive_create` of a name of at most 29 characters, when memory can be had: with the name in the
-- list it returns -EEXIST and changes nothing; otherwise it returns an inode with the next number,
-- which the name then has, no other name changes, and the next number grows by one.
pub create_binds :
    (k : Kernel) (s : Name) (mode : ℕ) (st : State)
    → ((n : ℕ) → k.allocates n ≡ true)
    → length s ≤ 29
    → let (r, st') = create k s mode st in
      ((exists s st.file_list ≡ true) × (r ≡ err eexist) × (st' ≡ st))
      ⊎ ((exists s st.file_list ≡ false)
          × (r ≡ ok (new_inode k mode st.next_inode_no))
          × (lookup s st'.file_list ≡ some st.next_inode_no)
          × ((t : Name) → s ≢ t → lookup t st'.file_list ≡ lookup t st.file_list)
          × (st'.next_inode_no ≡ st.next_inode_no + 1))
unfolding create create_from
create_binds k s mode st a short = elim (Bool-cases (exists s st.file_list)) [
  | inl there ↦ rw there (inl (refl, refl, refl))
  | inr new ↦ rw (new, a 0, a 1) (inr (refl, refl, has new, others, refl))
]
  where
    l : List FileEntry
    l = st.file_list

    e : FileEntry
    e = record { name = cut_name 29 s; inode_no = st.next_inode_no; is_dir = is_dir_mode mode }

    named : (t : Name) → name_eq e.name t ≡ name_eq s t
    named t = ap (λ z. name_eq z t) (cut_name_short 29 s short)

    has : exists s l ≡ false → lookup s (l ++ (e ∷ [])) ≡ some st.next_inode_no
    has new =
        lookup-append s l e
        ∙ ap₂ (λ o h. or_new o h st.next_inode_no) (exists-lookup s l new)
            (named s ∙ name_eq_refl s)

    differs : (t : Name) → s ≢ t → name_eq s t ≡ false
    differs t ne = elim (Bool-cases (name_eq s t)) [
      | inl q ↦ absurd (ne (name_eq_sound s t q))
      | inr q ↦ q
    ]

    others : (t : Name) → s ≢ t → lookup t (l ++ (e ∷ [])) ≡ lookup t l
    others t ne =
        lookup-append t l e
        ∙ ap (λ h. or_new (lookup t l) h st.next_inode_no) (named t ∙ differs t ne)
        ∙ or_new_miss (lookup t l) st.next_inode_no

-- `naive_unlink` right after `naive_create` of a new name of at most 29 characters, when memory can
-- be had, gives back the list of files, entry for entry.
pub unlink-create :
    (k : Kernel) (s : Name) (mode : ℕ) (st : State)
    → ((n : ℕ) → k.allocates n ≡ true)
    → length s ≤ 29
    → exists s st.file_list ≡ false
    → (unlink s (create k s mode st).1).file_list ≡ st.file_list
unfolding create create_from unlink
unlink-create k s mode st a short new =
    rw (new, a 0, a 1)
      (delete_first-append s st.file_list _ new (rw (cut_name_short 29 s short) (name_eq_refl s)))
