-- ===== src/Naive/Entries/Record.antt =====
-- One directory record: what a write and a clear of record `j` show to the scans.
use filesystem_lab.Base.{
  ℕ, zero, suc, ◌+◌, ◌*◌, ◌≤◌, ◌<◌, ◌≡◌, ◌≢◌, ◌⊎◌, ◌∙◌, ◌%◌, ◌^◌, refl, ap, true, false, arith,
  if◌then◌else◌, inl, inr, Bool-cases, lt_or_le, ◌-◌, not, ◌&&◌, [], ◌∷◌, length, get_or, ◌==◌,
}
use filesystem_lab.Base.Bytes.{Mem, load32, store32, load32-store32, store32_ne, strncmp_eq, c_str}
use filesystem_lab.Naive.Layout.{max_filename_len}
use filesystem_lab.Naive.Entries.{
  Name, record_ino, filename_at, write_record, clear_record, matches,
}

load32-congr :
    (m m' : Mem) (w : ℕ)
    → ((x : ℕ) → 4 * w ≤ x → x < 4 * w + 4 → m x ≡ m' x)
    → load32 m w ≡ load32 m' w
unfolding load32
load32-congr m m' w h = ground (arith, h (4 * w), h (4 * w + 1), h (4 * w + 2), h (4 * w + 3))

pub strncmp_eq-congr :
    (m m' : Mem) (s : Name) (n o : ℕ)
    → ((x : ℕ) → o ≤ x → x < o + n → m x ≡ m' x)
    → strncmp_eq m o s n ≡ strncmp_eq m' o s n
unfolding strncmp_eq
strncmp_eq-congr m m' s zero o h = refl
strncmp_eq-congr m m' [] (suc n) o h = rw (h o (omega arith) (omega arith))
strncmp_eq-congr m m' (c ∷ s) (suc n) o h = rw (
  h o (omega arith) (omega arith),
  strncmp_eq-congr m m' s n (o + 1) (λ x p q. h x (omega arith) (omega arith)),
)

-- A name with no NUL character inside.
abbrev pub NoNul : Name → Type 0
NoNul [] = Unit
NoNul (c ∷ s) = (c ≢ 0) × NoNul s

-- A name that fits a record with its terminator.
pub record IsName (s : Name) : Type 0 where
  pub no_nul : NoNul s
  pub fits : length s < max_filename_len

-- Memory that holds the string `s` and then NULs is equal to it.
strncmp_eq_self :
    (m : Mem) (s : Name) (n o : ℕ)
    → ((l : ℕ) → l < n → m (o + l) ≡ get_or s l 0)
    → strncmp_eq m o s n ≡ true
unfolding strncmp_eq
strncmp_eq_self m s zero o h = refl
strncmp_eq_self m [] (suc n) o h =
    let e : o + 0 ≡ o = omega arith in ground (arith, rw e at (h 0 (omega arith)))
strncmp_eq_self m (c ∷ s) (suc n) o h =
    let e : o + 0 ≡ o = omega arith in
    ground (arith, rw e at (h 0 (omega arith)), strncmp_eq_self m s n (o + 1) (next h))
  where
    next :
        ((l : ℕ) → l < suc n → m (o + l) ≡ get_or (c ∷ s) l 0)
        → (l : ℕ) → l < n
        → m (o + 1 + l) ≡ get_or s l 0
    next h l p = let e : o + 1 + l ≡ o + suc l = omega arith in rw e (h (suc l) (omega arith))

-- Memory that holds `s` equals no other string that ends within `n` characters.
pub strncmp_eq_sound :
    (m : Mem) (s t : Name) (n o : ℕ)
    → ((l : ℕ) → l < n → m (o + l) ≡ get_or s l 0)
    → NoNul s
    → NoNul t
    → length s < n
    → length t < n
    → strncmp_eq m o t n ≡ true
    → s ≡ t
unfolding strncmp_eq
strncmp_eq_sound m s t zero o h ns nt ls lt e = absurd (omega arith)
strncmp_eq_sound m [] [] (suc n) o h ns nt ls lt e = refl
strncmp_eq_sound m [] (c ∷ t) (suc n) o h ns nt ls lt e =
    let z : o + 0 ≡ o = omega arith in absurd (ground (arith, rw z at (h 0 (omega arith))))
strncmp_eq_sound m (c ∷ s) [] (suc n) o h ns nt ls lt e =
    let z : o + 0 ≡ o = omega arith in absurd (ground (arith, rw z at (h 0 (omega arith))))
strncmp_eq_sound m (c ∷ s) (b ∷ t) (suc n) o h ns nt ls lt e =
    let z : o + 0 ≡ o = omega arith in
    ground (
      arith,
      rw z at (h 0 (omega arith)),
      strncmp_eq_sound m s t n (o + 1) (next h) ns.1 nt.1 (omega arith) (omega arith),
    )
  where
    next :
        ((l : ℕ) → l < suc n → m (o + l) ≡ get_or (c ∷ s) l 0)
        → (l : ℕ) → l < n
        → m (o + 1 + l) ≡ get_or s l 0
    next h l p = let e : o + 1 + l ≡ o + suc l = omega arith in rw e (h (suc l) (omega arith))

get_or-past : (s : Name) (l : ℕ) → length s ≤ l → get_or s l 0 ≡ 0
get_or-past [] l h = refl
get_or-past (c ∷ s) zero h = absurd (omega arith)
get_or-past (c ∷ s) (suc l) h = get_or-past s l (omega arith)

-- The name field of the record just written.
written_name :
    (m : Mem) (j ino : ℕ) (s : Name) (l : ℕ)
    → length s < 128
    → l < 128
    → write_record m j ino s (filename_at j + l) ≡ get_or s l 0
unfolding write_record
written_name m j ino s l hs h =
    let e : filename_at j + l - filename_at j ≡ l = omega arith in
    ground (arith, e, get_or-past s l, ap (c_str s) e)

write_record_ne :
    (m : Mem) (j ino : ℕ) (s : Name) (x : ℕ)
    → (x < filename_at j) ⊎ (filename_at j + 128 ≤ x)
    → write_record m j ino s x ≡ store32 m (33 * j) ino x
unfolding write_record
write_record_ne m j ino s x h = ground arith

field_apart :
    (j l x : ℕ)
    → 4 * (33 * l) ≤ x
    → x < 4 * (33 * l) + 4
    → (x < filename_at j) ⊎ (filename_at j + 128 ≤ x)
field_apart j l x p q = elim (lt_or_le x (filename_at j)) [
  | inl a ↦ inl a
  | inr b ↦ inr (omega arith)
]

pub record_ino-write_record :
    (m : Mem) (j ino : ℕ) (s : Name) (l : ℕ)
    → record_ino (write_record m j ino s) l ≡ (if j == l then ino % 2 ^ 32 else record_ino m l)
unfolding record_ino
record_ino-write_record m j ino s l =
    load32-congr (write_record m j ino s) (store32 m (33 * j) ino) (33 * l)
      (λ x p q. write_record_ne m j ino s x (field_apart j l x p q))
    ∙ load32-store32 m (33 * j) ino (33 * l)
    ∙ ground arith

-- Other records are as they were.
pub matches-write_record_ne :
    (m : Mem) (j ino : ℕ) (s t : Name) (l : ℕ)
    → j ≢ l
    → matches t (write_record m j ino s) l ≡ matches t m l
unfolding matches
matches-write_record_ne m j ino s t l h =
    rw (record_ino-write_record m j ino s l)
      (ground (arith, strncmp_eq-congr (write_record m j ino s) m t 128 (filename_at l) same))
  where
    same : (x : ℕ) → filename_at l ≤ x → x < filename_at l + 128 → write_record m j ino s x ≡ m x
    same x p q = elim (lt_or_le j l) [
      | inl a ↦
          write_record_ne m j ino s x (inr (omega arith))
          ∙ store32_ne m (33 * j) ino x (inr (omega arith))
      | inr b ↦
          let c : l < j = omega arith in
          write_record_ne m j ino s x (inl (omega arith))
          ∙ store32_ne m (33 * j) ino x (inl (omega arith))
    ]

pub matches-write_record_self :
    (m : Mem) (j ino : ℕ) (s : Name)
    → IsName s
    → ino % 2 ^ 32 ≢ 0
    → matches s (write_record m j ino s) j ≡ true
unfolding matches
matches-write_record_self m j ino s v h = ground (
  arith,
  record_ino-write_record m j ino s j,
  strncmp_eq_self (write_record m j ino s) s 128 (filename_at j)
      (λ l p. written_name m j ino s l v.fits p),
)

pub matches-write_record_other :
    (m : Mem) (j ino : ℕ) (s t : Name)
    → IsName s
    → IsName t
    → s ≢ t
    → matches t (write_record m j ino s) j ≡ false
unfolding matches
matches-write_record_other m j ino s t v w h =
    elim (Bool-cases (strncmp_eq (write_record m j ino s) (filename_at j) t 128)) [
      | inl e ↦ absurd (
          h (
            strncmp_eq_sound (write_record m j ino s) s t 128 (filename_at j)
              (λ l p. written_name m j ino s l v.fits p) v.no_nul w.no_nul v.fits w.fits e))
      | inr e ↦ ground arith
    ]

clear_record_ne :
    (m : Mem) (j x : ℕ)
    → (x < filename_at j) ⊎ (filename_at j + 128 ≤ x)
    → clear_record m j x ≡ store32 m (33 * j) 0 x
unfolding clear_record
clear_record_ne m j x h = ground arith

pub record_ino-clear_record :
    (m : Mem) (j l : ℕ) → record_ino (clear_record m j) l ≡ (if j == l then 0 else record_ino m l)
unfolding record_ino
record_ino-clear_record m j l =
    load32-congr (clear_record m j) (store32 m (33 * j) 0) (33 * l)
      (λ x p q. clear_record_ne m j x (field_apart j l x p q))
    ∙ load32-store32 m (33 * j) 0 (33 * l)
    ∙ ground arith

pub matches-clear_record :
    (m : Mem) (j : ℕ) (t : Name) (l : ℕ)
    → matches t (clear_record m j) l ≡ (if j == l then false else matches t m l)
unfolding matches
matches-clear_record m j t l = elim (Bool-cases (j == l)) [
  | inl e ↦ rw e (rw (record_ino-clear_record m j l) (rw e))
  | inr e ↦ rw (record_ino-clear_record m j l) (
      rw e (
        ap (λ b. not (record_ino m l == 0) && b)
          (strncmp_eq-congr (clear_record m j) m t 128 (filename_at l) (same (ground arith)))))
]
  where
    same : j ≢ l → (x : ℕ) → filename_at l ≤ x → x < filename_at l + 128 → clear_record m j x ≡ m x
    same h x p q = elim (lt_or_le j l) [
      | inl a ↦
          clear_record_ne m j x (inr (omega arith)) ∙ store32_ne m (33 * j) 0 x (inr (omega arith))
      | inr b ↦
          let c : l < j = omega arith in
          clear_record_ne m j x (inl (omega arith)) ∙ store32_ne m (33 * j) 0 x (inl (omega arith))
    ]
