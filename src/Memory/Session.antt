-- ===== src/Memory/Session.antt =====
-- Any sequence of calls of naive/naivefs-final/naivefs.c on the list.
use filesystem_lab.Base.{
  ℕ, ◌+◌, ◌≤◌, ◌≡◌, ◌≢◌, ◌∙◌, refl, sym, ap, false, arith, Bool-cases, inl, inr, none, some, List,
  [], ◌∷◌, ◌++◌, if◌then◌else◌, length, bit_or,
}
use filesystem_lab.Memory.{
  Name, FileEntry, State, Kernel, name_eq, exists, create, create_from, mkdir, delete_first, unlink,
  rmdir,
}
use filesystem_lab.Memory.Lookup.{
  lookup, name_eq_refl, name_eq_sound, cut_name_short, exists-lookup,
}

-- One call; a name that is created has at most 29 characters.
pub data Step (k : Kernel) (st st' : State) : Type 0 where
  create_step : (s : Name) (mode : ℕ) → length s ≤ 29 → st' ≡ (create k s mode st).1 → Step k st st'
  mkdir_step : (s : Name) (mode : ℕ) → length s ≤ 29 → st' ≡ (mkdir k s mode st).1 → Step k st st'
  unlink_step : (s : Name) → st' ≡ unlink s st → Step k st st'
  rmdir_step : (s : Name) → st' ≡ rmdir s st → Step k st st'

pub data Reach (k : Kernel) (st : State) : State → Type 0 where
  here : Reach k st st
  next : {st' st'' : State} → Reach k st st' → Step k st' st'' → Reach k st st''

-- The inode numbers of the list grow, from `lo` on and below `hi`.
abbrev pub Ascending : ℕ → List FileEntry → ℕ → Type 0
Ascending lo [] hi = lo ≤ hi
Ascending lo (e ∷ l) hi = (lo ≤ e.inode_no) × Ascending (e.inode_no + 1) l hi

-- No name stands twice.
abbrev pub Distinct : List FileEntry → Type 0
Distinct [] = Unit
Distinct (e ∷ l) = (exists e.name l ≡ false) × Distinct l

pub record Ordered (st : State) : Type 0 where
  pub ascending : Ascending 100 st.file_list st.next_inode_no
  pub distinct : Distinct st.file_list

Ascending-append :
    (lo hi : ℕ) (l : List FileEntry) (e : FileEntry)
    → e.inode_no ≡ hi
    → Ascending lo l hi
    → Ascending lo (l ++ (e ∷ [])) (hi + 1)
Ascending-append lo hi [] e q h = (omega arith, omega arith)
Ascending-append lo hi (x ∷ l) e q h = (h.0, Ascending-append (x.inode_no + 1) hi l e q h.1)

Ascending-more : (lo hi : ℕ) (l : List FileEntry) → Ascending lo l hi → Ascending lo l (hi + 1)
Ascending-more lo hi [] h = omega arith
Ascending-more lo hi (x ∷ l) h = (h.0, Ascending-more (x.inode_no + 1) hi l h.1)

Ascending-from :
    (lo lo' hi : ℕ) (l : List FileEntry) → lo' ≤ lo → Ascending lo l hi → Ascending lo' l hi
Ascending-from lo lo' hi [] le h = omega arith
Ascending-from lo lo' hi (x ∷ l) le h = (omega (arith, h.0), h.1)

Ascending-delete :
    (s : Name) (lo hi : ℕ) (l : List FileEntry)
    → Ascending lo l hi
    → Ascending lo (delete_first s l) hi
unfolding delete_first
Ascending-delete s lo hi [] h = h
Ascending-delete s lo hi (x ∷ l) h = elim (Bool-cases (name_eq x.name s)) [
  | inl e ↦ rw e (Ascending-from (x.inode_no + 1) lo hi l (omega (arith, h.0)) h.1)
  | inr e ↦ rw e (h.0, Ascending-delete s (x.inode_no + 1) hi l h.1)
]

exists-append :
    (t : Name) (l : List FileEntry) (e : FileEntry)
    → exists t l ≡ false
    → name_eq e.name t ≡ false
    → exists t (l ++ (e ∷ [])) ≡ false
unfolding exists
exists-append t [] e h q = rw q refl
exists-append t (x ∷ l) e h q = ground (arith, exists-append t l e)

exists-delete :
    (s t : Name) (l : List FileEntry) → exists t l ≡ false → exists t (delete_first s l) ≡ false
unfolding exists delete_first
exists-delete s t [] h = refl
exists-delete s t (x ∷ l) h = ground (arith, exists-delete s t l)

name_eq_sym : (s t : Name) → name_eq s t ≡ false → name_eq t s ≡ false
name_eq_sym s t h = elim (Bool-cases (name_eq t s)) [
  | inr e ↦ e
  | inl e ↦ cc (h, name_eq_refl s, name_eq_sound t s e)
]

Distinct-append :
    (l : List FileEntry) (e : FileEntry)
    → exists e.name l ≡ false
    → Distinct l
    → Distinct (l ++ (e ∷ []))
unfolding exists
Distinct-append [] e h d = (refl, tt)
Distinct-append (x ∷ l) e h d = elim (Bool-cases (name_eq x.name e.name)) [
  | inl q ↦ absurd (cc (rw q at h))
  | inr q ↦ (
    exists-append x.name l e d.0 (name_eq_sym x.name e.name q),
    Distinct-append l e (rw q at h) d.1,
  )
]

Distinct-delete : (s : Name) (l : List FileEntry) → Distinct l → Distinct (delete_first s l)
unfolding delete_first
Distinct-delete s [] d = tt
Distinct-delete s (x ∷ l) d = elim (Bool-cases (name_eq x.name s)) [
  | inl e ↦ rw e d.1
  | inr e ↦ rw e (exists-delete s x.name l d.0, Distinct-delete s l d.1)
]

create-Ordered :
    (k : Kernel) (s : Name) (mode : ℕ) (st : State)
    → length s ≤ 29
    → Ordered st
    → Ordered (create k s mode st).1
unfolding create create_from
create-Ordered k s mode st short o = elim (Bool-cases (exists s st.file_list)) [
  | inl there ↦ rw there o
  | inr new ↦ rw new (elim (Bool-cases (k.allocates 0)) [
    | inr a ↦ rw a o
    | inl a ↦ rw a (elim (Bool-cases (k.allocates 1)) [
      | inr b ↦ rw b (record {
        ascending = Ascending-more 100 st.next_inode_no st.file_list o.ascending;
        distinct = o.distinct;
      })
      | inl b ↦ rw b (record {
        ascending = Ascending-append 100 st.next_inode_no st.file_list _ refl o.ascending;
        distinct = Distinct-append st.file_list _ (rw (cut_name_short 29 s short) new) o.distinct;
      })
    ])
  ])
]

unlink-Ordered : (s : Name) (st : State) → Ordered st → Ordered (unlink s st)
unfolding unlink
unlink-Ordered s st o = record {
  ascending = Ascending-delete s 100 st.next_inode_no st.file_list o.ascending;
  distinct = Distinct-delete s st.file_list o.distinct;
}

Step-Ordered : (k : Kernel) {st st' : State} → Ordered st → Step k st st' → Ordered st'
unfolding mkdir rmdir
Step-Ordered k {st} o (create_step s mode short e) = rw e (create-Ordered k s mode st short o)
Step-Ordered k {st} o (mkdir_step s mode short e) =
    rw e (create-Ordered k s (bit_or 0o40000 mode) st short o)
Step-Ordered k {st} o (unlink_step s e) = rw e (unlink-Ordered s st o)
Step-Ordered k {st} o (rmdir_step s e) = rw e (unlink-Ordered s st o)

-- After any sequence of `naive_create` and `naive_mkdir` of names of at most 29 characters, of
-- `naive_unlink` and of `naive_rmdir`, with or without memory: a list whose inode numbers grow, from
-- 100 on and below the next number, and in which no name stands twice, is such a list again.
pub Reach-Ordered : (k : Kernel) {st st' : State} → Ordered st → Reach k st st' → Ordered st'
Reach-Ordered k o here = o
Reach-Ordered k o (next r c) = Step-Ordered k (Reach-Ordered k o r) c

lookup-delete_self :
    (s : Name) (l : List FileEntry) → Distinct l → lookup s (delete_first s l) ≡ none
unfolding lookup delete_first
lookup-delete_self s [] d = refl
lookup-delete_self s (x ∷ l) d = elim (Bool-cases (name_eq x.name s)) [
  | inl e ↦
      rw e (ap (λ z. lookup z l) (sym (name_eq_sound x.name s e)) ∙ exists-lookup x.name l d.0)
  | inr e ↦ rw e (rw e (lookup-delete_self s l d.1))
]

lookup-delete_other :
    (s t : Name) (l : List FileEntry) → s ≢ t → lookup t (delete_first s l) ≡ lookup t l
unfolding lookup delete_first
lookup-delete_other s t [] ne = refl
lookup-delete_other s t (x ∷ l) ne = elim (Bool-cases (name_eq x.name s)) [
  | inr e ↦
      rw e
        (ap (λ o. if name_eq x.name t then some x.inode_no else o) (lookup-delete_other s t l ne))
  | inl e ↦
      let other : name_eq x.name t ≡ false = rw (name_eq_sound x.name s e) (apart s t ne) in
      rw (e, other) refl
]
  where
    apart : (s t : Name) → s ≢ t → name_eq s t ≡ false
    apart s t ne = elim (Bool-cases (name_eq s t)) [
      | inl q ↦ absurd (ne (name_eq_sound s t q))
      | inr q ↦ q
    ]

-- `naive_unlink` of any name from a list in which no name stands twice: afterwards the list does not
-- have the name, and every other name has the number that it had.
pub unlink_unbinds :
    (s : Name) (st : State)
    → Distinct st.file_list
    → (lookup s (unlink s st).file_list ≡ none)
      × ((t : Name) → s ≢ t → lookup t (unlink s st).file_list ≡ lookup t st.file_list)
unfolding unlink
unlink_unbinds s st d =
    (lookup-delete_self s st.file_list d, λ t ne. lookup-delete_other s t st.file_list ne)
