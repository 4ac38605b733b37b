-- ===== src/Base/Chunk.antt =====
-- Positions of a file within its blocks of 512 bytes.
use filesystem_lab.Base.Bytes.{Mem, memcpy}
use filesystem_lab.Base.{
  ℕ, ◌+◌, ◌-◌, ◌/◌, ◌%◌, ◌≤◌, ◌<◌, ◌≡◌, ◌≢◌, refl, true, false, arith, ltb, leb, ◌&&◌, Bool-cases,
  inl, inr, ◌⊎◌, if◌then◌else◌,
}

-- A chunk stays in the block of the position: in that block it covers the same bytes, whether they
-- are counted from the block's or from the file's beginning, and in other blocks none.
pub same_block :
    (pos n x : ℕ)
    → pos % 512 + n ≤ 512
    → pos / 512 ≡ x / 512
    → (leb (pos % 512) (x % 512) && ltb (x % 512) (pos % 512 + n)) ≡ (leb pos x && ltb x (pos + n))
same_block pos n x h e = ground arith

pub same_distance : (pos x : ℕ) → pos / 512 ≡ x / 512 → x % 512 - pos % 512 ≡ x - pos
same_distance pos x e = omega arith

pub other_block :
    (pos n x : ℕ)
    → pos % 512 + n ≤ 512
    → pos / 512 ≢ x / 512
    → (leb pos x && ltb x (pos + n)) ≡ false
other_block pos n x h e = ground arith

-- A part of a chunk has its bytes one after the other in the block of its first position.
pub chunk_position :
    (pos n i : ℕ)
    → pos % 512 + n ≤ 512
    → i < n
    → ((pos + i) / 512 ≡ pos / 512) × ((pos + i) % 512 ≡ pos % 512 + i)
chunk_position pos n i h lt = (omega arith, omega arith)

-- Two copies, the second where the first ends, are one.
pub memcpy-memcpy :
    (m : Mem) (o : ℕ) (src : Mem) (n l x : ℕ)
    → memcpy (memcpy m o src n) (o + n) (λ i. src (n + i)) l x ≡ memcpy m o src (n + l) x
unfolding memcpy
memcpy-memcpy m o src n l x = elim (Bool-cases (leb (o + n) x && ltb x (o + n + l))) [
  | inl e ↦
      let same : n + (x - (o + n)) ≡ x - o = ground arith in
      let within : (leb o x && ltb x (o + (n + l))) ≡ true = ground arith in
      rw (e, same, within) refl
  | inr e ↦
      let within : (leb o x && ltb x (o + (n + l))) ≡ (leb o x && ltb x (o + n)) = ground arith in
      rw (e, within) refl
]

-- A copy depends only on the bytes that it reads and that it keeps.
pub memcpy_ext :
    (m m' : Mem) (o : ℕ) (src src' : Mem) (n x : ℕ)
    → m x ≡ m' x
    → ((i : ℕ) → i < n → src i ≡ src' i)
    → memcpy m o src n x ≡ memcpy m' o src' n x
unfolding memcpy
memcpy_ext m m' o src src' n x e f = elim (Bool-cases (leb o x && ltb x (o + n))) [
  | inl h ↦ rw h (f (x - o) (ground arith))
  | inr h ↦ rw h e
]

pub memcpy_none : (m : Mem) (o : ℕ) (src : Mem) (n x : ℕ) → n ≡ 0 → memcpy m o src n x ≡ m x
unfolding memcpy
memcpy_none m o src n x e = ground arith

pub memcpy_start : (m src : Mem) (n x : ℕ) → memcpy m 0 src n x ≡ (if ltb x n then src x else m x)
unfolding memcpy
memcpy_start m src n x =
    let same : x - 0 ≡ x = omega arith in
    let within : (leb 0 x && ltb x (0 + n)) ≡ ltb x n = ground arith in rw (same, within) refl

pub memcpy_inside :
    (m : Mem) (o : ℕ) (src : Mem) (n i : ℕ) → i < n → memcpy m o src n (o + i) ≡ src i
unfolding memcpy
memcpy_inside m o src n i lt =
    let within : (leb o (o + i) && ltb (o + i) (o + n)) ≡ true = ground arith in
    let same : o + i - o ≡ i = omega arith in rw (within, same) refl

pub memcpy_outside :
    (m : Mem) (o : ℕ) (src : Mem) (n x : ℕ) → (x < o) ⊎ (o + n ≤ x) → memcpy m o src n x ≡ m x
unfolding memcpy
memcpy_outside m o src n x out = ground arith
