-- ===== src/Naive/Namespace/Dots.antt =====
-- `naive_mkdir` of naive/naivefs_dir.c: the new directory's own entries.
use filesystem_lab.Base.{
  ℕ, zero, suc, ◌+◌, ◌-◌, ◌<◌, ◌%◌, ◌^◌, ◌≡◌, ◌≢◌, ◌⊎◌, inl, inr, refl, ap, true, false, arith,
  some,
}
use filesystem_lab.Base.Bytes.{Mem, load32, store32, strncmp_eq, strcmp_eq, c_str}
use filesystem_lab.Naive.Entries.{Name, record_ino, matches, first_record}
use filesystem_lab.Naive.Entries.Find.{block_entry}
use filesystem_lab.Naive.Entries.Record.{IsName, strncmp_eq_sound}
use filesystem_lab.Naive.Namespace.{dots_block, dot, dotdot, other_record}
use filesystem_lab.Naive.Namespace.Empty.{tally}

dots_ino :
    (m : Mem) (ino parent : ℕ)
    → (record_ino (dots_block m ino parent) 0 ≡ ino % 2 ^ 32)
      × (record_ino (dots_block m ino parent) 1 ≡ parent % 2 ^ 32)
      × (record_ino (dots_block m ino parent) 2 ≡ 0)
unfolding record_ino load32 dots_block store32
dots_ino m ino parent = (omega arith, omega arith, omega arith)

dots_names :
    (m : Mem) (ino parent : ℕ)
    → (strncmp_eq (dots_block m ino parent) 4 dot 128 ≡ true)
      × (strncmp_eq (dots_block m ino parent) 4 dotdot 128 ≡ false)
      × (strncmp_eq (dots_block m ino parent) 136 dotdot 128 ≡ true)
unfolding strncmp_eq dots_block store32
dots_names m ino parent = (refl, refl, refl)

dots_strings :
    (m : Mem) (ino parent : ℕ)
    → (strcmp_eq (dots_block m ino parent) 4 dot ≡ true)
      × (strcmp_eq (dots_block m ino parent) 136 dotdot ≡ true)
unfolding strcmp_eq dots_block store32
dots_strings m ino parent = (refl, refl)

-- The block that `naive_mkdir` writes for a new directory, of any content before, has the entry `.`
-- with the number of the directory and the entry `..` with that of its parent, both cut to 32 bits,
-- when neither is 0 then.
pub dots_block_entries :
    (m : Mem) (ino parent : ℕ)
    → ino % 2 ^ 32 ≢ 0
    → parent % 2 ^ 32 ≢ 0
    → (block_entry dot (dots_block m ino parent) ≡ some (ino % 2 ^ 32))
      × (block_entry dotdot (dots_block m ino parent) ≡ some (parent % 2 ^ 32))
unfolding block_entry matches first_record
dots_block_entries m ino parent a b = (
  ground (arith, dots_ino m ino parent, dots_names m ino parent),
  ground (arith, dots_ino m ino parent, dots_names m ino parent),
)

-- The name fields of the two records.
dots_chars :
    (m : Mem) (ino parent l : ℕ)
    → l < 128
    → (dots_block m ino parent (4 + l) ≡ c_str dot l)
      × (dots_block m ino parent (136 + l) ≡ c_str dotdot l)
unfolding dots_block store32
dots_chars m ino parent l h =
    let first : 4 + l - 4 ≡ l = omega arith in
    let second : 136 + l - 136 ≡ l = omega arith in
    (ground (arith, ap (c_str dot) first), ground (arith, ap (c_str dotdot) second))

-- Only `.` and `..` match a record of the block, each its own.
pub dots_matches :
    (m : Mem) (ino parent j : ℕ) (t : Name)
    → IsName t
    → j < 3
    → matches t (dots_block m ino parent) j ≡ true
    → ((j ≡ 0) × (dot ≡ t)) ⊎ ((j ≡ 1) × (dotdot ≡ t))
unfolding matches
dots_matches m ino parent zero t w h e = inl (
  refl,
  strncmp_eq_sound (dots_block m ino parent) dot t 128 4 (λ l lt. (dots_chars m ino parent l lt).0)
      (omega arith, tt) w.no_nul (omega arith) w.fits (ground arith),
)
dots_matches m ino parent (suc zero) t w h e = inr (
  refl,
  strncmp_eq_sound (dots_block m ino parent) dotdot t 128 136
      (λ l lt. (dots_chars m ino parent l lt).1) (omega arith, (omega arith, tt)) w.no_nul
      (omega arith) w.fits (ground arith),
)
dots_matches m ino parent (suc (suc zero)) t w h e =
    absurd (ground (arith, (dots_ino m ino parent).2))
dots_matches m ino parent (suc (suc (suc j))) t w h e = absurd (omega arith)

-- The block has no other record in use.
pub dots_others :
    (m : Mem) (ino parent : ℕ) → tally (other_record (dots_block m ino parent)) 3 0 ≡ 0
unfolding other_record
dots_others m ino parent = ground (arith, dots_ino m ino parent, dots_strings m ino parent)
