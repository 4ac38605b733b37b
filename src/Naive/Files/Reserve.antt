-- ===== src/Naive/Files/Reserve.antt =====
-- The blocks that `naive_file_write` of naive/naivefs_file.c adds to a file.
use filesystem_lab.Base.{
  ℕ, zero, suc, ◌+◌, ◌≤◌, ◌<◌, ◌≡◌, ◌⊎◌, ◌∙◌, refl, arith, inl, inr, false, Bool-cases, Result, ok,
  err, enospc, if◌then◌else◌, update, ltb, ◌==◌,
}
use filesystem_lab.Naive.Layout.{SbInfo, IsValid}
use filesystem_lab.Naive.Kernel.{Inode}
use filesystem_lab.Naive.Alloc.{alloc_block, free_block}
use filesystem_lab.Naive.Alloc.Blocks.{alloc_block-IsValid, free_block-IsValid}
use filesystem_lab.Naive.Files.{reserve}

-- What `n` rounds leave of the super block and the inode.
pub record Reserved (n : ℕ) (ino : Inode) (a : Result (Unit {0}) × SbInfo × Inode) : Type 0 where
  pub valid : IsValid a.1
  pub bounded : a.2.block_count ≤ 8
  pub grows : ino.block_count ≤ a.2.block_count
  pub keeps : (l : ℕ) → l < ino.block_count → a.2.block_pointers l ≡ ino.block_pointers l
  pub answer : ((a.0 ≡ ok tt) × (a.2.block_count ≡ ino.block_count + n)) ⊎ (a.0 ≡ err enospc)

abbrev pub with_block : ℕ → Inode → Inode
with_block b ino = record ino {
  block_pointers = update ino.block_pointers ino.block_count b;
  block_count = ino.block_count + 1;
}

-- Allocating `n` blocks for a file of at most 8 blocks keeps a valid super block valid, the blocks that
-- the file had and the bound of 8 blocks; it adds all `n` blocks, or it answers -ENOSPC.
pub reserve-Reserved :
    (n : ℕ) (sbi : SbInfo) (ino : Inode)
    → IsValid sbi
    → ino.block_count ≤ 8
    → Reserved n ino (reserve n sbi ino)
unfolding reserve
reserve-Reserved zero sbi ino v le = record {
  valid = v;
  bounded = le;
  grows = omega arith;
  keeps = λ l lt. refl;
  answer = inl (refl, omega arith);
}
reserve-Reserved (suc n) sbi ino v le =
    go (alloc_block sbi) (alloc_block-IsValid sbi v) (reserve-Reserved n)
  where
    go :
        (a : Result ℕ × SbInfo)
        → IsValid a.1
        → ((s : SbInfo) (i : Inode) → IsValid s → i.block_count ≤ 8 → Reserved n i (reserve n s i))
        → let z : Result (Unit {0}) × SbInfo × Inode = elim a.0 [
          | err _ ↦ (err enospc, a.1, ino)
          | ok b ↦
              if ltb ino.block_count 8
              then reserve n a.1 (with_block b ino)
              else (err enospc, free_block a.1 b, ino)
        ] in
          Reserved (suc n) ino z
    go (err _, s) w ih = record {
      valid = w;
      bounded = le;
      grows = omega arith;
      keeps = λ l lt. refl;
      answer = inr refl;
    }
    go (ok b, s) w ih = elim (Bool-cases (ltb ino.block_count 8)) [
      | inr e ↦ rw e (record {
        valid = free_block-IsValid s b w;
        bounded = le;
        grows = omega arith;
        keeps = λ l lt. refl;
        answer = inr refl;
      })
      | inl e ↦
          let rest = ih s (with_block b ino) w (ground arith) in
          rw e (record {
            valid = rest.valid;
            bounded = rest.bounded;
            grows = omega (arith, rest.grows);
            keeps = λ l lt.
                rest.keeps l (omega arith)
                ∙ (let other : (ino.block_count == l) ≡ false = ground arith in rw other refl);
            answer = elim rest.answer [
              | inl (good, count) ↦ inl (good, omega (arith, count))
              | inr bad ↦ inr bad
            ];
          })
    ]
