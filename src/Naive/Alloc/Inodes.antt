-- ===== src/Naive/Alloc/Inodes.antt =====
-- `naive_find_free_inode` of naive/naivefs_super.c: which inode number it returns.
use filesystem_lab.Base.{
  ℕ, zero, suc, ◌+◌, ◌*◌, ◌/◌, ◌≤◌, ◌<◌, ◌-◌, ◌≡◌, ◌≢◌, ◌⊎◌, false, arith, Bool-cases, Option-cases,
  inl, inr, ==→eq, ◌==◌, ltb→lt, ◌↔◌, ltb, if◌then◌else◌, refl,
}
use filesystem_lab.Base.Bytes.{Mem}
use filesystem_lab.Base.Bits.{byte_test_full, bit}
use filesystem_lab.Naive.Layout.{SbInfo}
use filesystem_lab.Naive.Alloc.{clear_bit_from, find_free_inode_from, find_free_inode}
use filesystem_lab.Naive.Alloc.Scan.{SetBetween, clear_bit_from-some, clear_bit_from-none}
use filesystem_lab.Naive.Alloc.Lowest.{
  AllSet, AllSet-byte, LowestFree, LowestFree-found, LowestFree-later,
}

-- What a search from bit `lo` up to `hi` returned: the number after the lowest clear bit, or 0.
abbrev Found : Mem → ℕ → ℕ → ℕ → Type 0
Found m lo hi ino = ((ino ≡ 0) × AllSet m lo hi) ⊎ ((0 < ino) × LowestFree m lo hi (ino - 1))

Found-later :
    (m : Mem) (i hi ino : ℕ)
    → SetBetween (m i) 0 8
    → Found m ((i + 1) * 8) hi ino
    → Found m (i * 8 + 0) hi ino
Found-later m i hi ino byte (inl (e, all)) = inl (e, AllSet-byte m i 0 hi (omega arith) byte all)
Found-later m i hi ino byte (inr (e, r)) =
    inr (e, LowestFree-later m i 0 hi (ino - 1) (omega arith) byte r)

cancel : (n : ℕ) → n + 1 - 1 ≡ n
cancel n = omega arith

Found-hit :
    (m : Mem) (total i hi j : ℕ)
    → hi ≤ total
    → LowestFree m (i * 8 + 0) hi (i * 8 + j)
    → Found m (i * 8 + 0) hi (if ltb total (i * 8 + j + 1) then 0 else i * 8 + j + 1)
Found-hit m total i hi j h r = elim (Bool-cases (ltb total (i * 8 + j + 1))) [
  | inl out ↦ absurd (omega (arith, r.below, ltb→lt _ _ out))
  | inr within ↦ rw within (inr (omega arith, rw (cancel (i * 8 + j)) r))
]

-- The search from byte `i` on, given what the search from the next byte on returned.
Found-step :
    (m : Mem) (total n i hi : ℕ)
    → (i + 1) * 8 ≤ hi
    → hi ≤ total
    → Found m ((i + 1) * 8) hi (find_free_inode_from m total n (i + 1))
    → Found m (i * 8 + 0) hi (find_free_inode_from m total (suc n) i)
unfolding find_free_inode_from
Found-step m total n i hi room h rest = elim (Bool-cases (m i == 255)) [
  | inl full ↦
      rw full (Found-later m i hi _ (λ l p q. rw (==→eq _ _ full) (byte_test_full l q)) rest)
  | inr partial ↦ rw partial (elim (Option-cases (clear_bit_from (m i) 8 0)) [
    | inl e ↦ rw e (Found-later m i hi _ (clear_bit_from-none (m i) 8 0 e) rest)
    | inr (j, e) ↦ rw e (
        Found-hit m total i hi j h
          (LowestFree-found m i 0 hi j room (clear_bit_from-some (m i) 8 0 j e)))
  ])
]

find_free_inode_from-Found :
    (m : Mem) (total n i hi : ℕ)
    → hi ≡ (i + n) * 8
    → hi ≤ total
    → Found m (i * 8 + 0) hi (find_free_inode_from m total n i)
unfolding find_free_inode_from
find_free_inode_from-Found m total zero i hi e h = inl (refl, λ k p q. absurd (omega arith))
find_free_inode_from-Found m total (suc n) i hi e h =
    let e0 : (i + 1) * 8 + 0 ≡ (i + 1) * 8 = omega arith in
    Found-step m total n i hi (omega arith) h
      (rw e0 at (find_free_inode_from-Found m total n (i + 1) hi (omega arith) h))

-- `ino` is the lowest free inode number.
pub record FreeInode (sbi : SbInfo) (ino : ℕ) : Type 0 where
  pub numbered : 0 < ino
  pub in_table : ino ≤ sbi.inode_total
  pub unused : bit sbi.inode_bitmap (ino - 1) ≡ false
  pub lowest : AllSet sbi.inode_bitmap 0 (ino - 1)

-- What the search returned, in one statement: 0 exactly with every bit below 8 * (total / 8) set.
find_free_inode-Found :
    (sbi : SbInfo) → Found sbi.inode_bitmap 0 (sbi.inode_total / 8 * 8) (find_free_inode sbi)
unfolding find_free_inode
find_free_inode-Found sbi =
    find_free_inode_from-Found sbi.inode_bitmap sbi.inode_total (sbi.inode_total / 8) 0 _
      (omega arith) (omega arith)

-- A number other than 0 that `naive_find_free_inode` returns lies in the inode table, its bit in
-- the inode bitmap is clear, and every lower number is in use.
pub find_free_inode_free :
    (sbi : SbInfo) → find_free_inode sbi ≢ 0 → FreeInode sbi (find_free_inode sbi)
find_free_inode_free sbi h = elim (find_free_inode-Found sbi) [
  | inl (e, _) ↦ absurd (h e)
  | inr (p, r) ↦ record {
    numbered = p;
    in_table = omega (arith, r.below);
    unused = r.is_free;
    lowest = r.least;
  }
]

-- `naive_find_free_inode` returns 0 exactly when every number of a whole bitmap byte of the table
-- is in use.
pub find_free_inode_full :
    (sbi : SbInfo) → (find_free_inode sbi ≡ 0) ↔ AllSet sbi.inode_bitmap 0 (sbi.inode_total / 8 * 8)
find_free_inode_full sbi =
    (λ h. full h (find_free_inode-Found sbi), λ all. none_left all (find_free_inode-Found sbi))
  where
    full :
        find_free_inode sbi ≡ 0
        → Found sbi.inode_bitmap 0 (sbi.inode_total / 8 * 8) (find_free_inode sbi)
        → AllSet sbi.inode_bitmap 0 (sbi.inode_total / 8 * 8)
    full h (inl (_, all)) = all
    full h (inr (p, _)) = absurd (omega arith)

    none_left :
        AllSet sbi.inode_bitmap 0 (sbi.inode_total / 8 * 8)
        → Found sbi.inode_bitmap 0 (sbi.inode_total / 8 * 8) (find_free_inode sbi)
        → find_free_inode sbi ≡ 0
    none_left all (inl (e, _)) = e
    none_left all (inr (_, r)) = cc (all (find_free_inode sbi - 1) (omega arith) r.below, r.is_free)
