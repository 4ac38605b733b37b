-- ===== src/Naive/Files/Spread.antt =====
-- What `naive_file_write` of naive/naivefs_file.c does to blocks that are in use elsewhere: nothing.
use filesystem_lab.Base.{
  ℕ, zero, suc, ◌+◌, ◌<◌, ◌≡◌, ◌≢◌, ◌∙◌, ◌⊎◌, refl, true, false, arith, Bool-cases, inl, inr,
  Result, ok, err, enospc, if◌then◌else◌, update, ltb, ◌==◌,
}
use filesystem_lab.Base.Bits.{bit}
use filesystem_lab.Naive.Layout.{SbInfo, IsValid}
use filesystem_lab.Naive.Kernel.{Inode}
use filesystem_lab.Naive.Alloc.{alloc_block, free_block}
use filesystem_lab.Naive.Alloc.Blocks.{
  Allocated, alloc_block_ok, alloc_block-IsValid, free_block-alloc_block,
}
use filesystem_lab.Naive.Files.{reserve}
use filesystem_lab.Naive.Files.Reserve.{with_block}
use filesystem_lab.Naive.Files.Owned.{SameRest, SameRest-trans, free_block-SameRest, full_same}

-- The block is not one of the file.
abbrev pub Foreign : Inode → ℕ → Type 0
Foreign ino b = (i : ℕ) → i < ino.block_count → ino.block_pointers i ≢ b

-- Only the bitmap of blocks changes: a block in use stays in use, and one that is not the file's does not become its.
pub record Spread (sbi : SbInfo) (ino : Inode) (sbi' : SbInfo) (ino' : Inode) : Type 0 where
  pub same_rest : SameRest sbi sbi'
  pub same_number : ino'.i_ino ≡ ino.i_ino
  pub still_used : (x : ℕ) → bit sbi.block_bitmap x ≡ true → bit sbi'.block_bitmap x ≡ true
  pub still_foreign : (x : ℕ) → bit sbi.block_bitmap x ≡ true → Foreign ino x → Foreign ino' x

pub Spread-refl : (sbi : SbInfo) (ino : Inode) → Spread sbi ino sbi ino
Spread-refl sbi ino = record {
  same_rest = refl;
  same_number = refl;
  still_used = λ x h. h;
  still_foreign = λ x _ f. f;
}

Spread-trans :
    (sbi sbi1 sbi2 : SbInfo) (ino ino1 ino2 : Inode)
    → Spread sbi ino sbi1 ino1
    → Spread sbi1 ino1 sbi2 ino2
    → Spread sbi ino sbi2 ino2
Spread-trans sbi sbi1 sbi2 ino ino1 ino2 a b = record {
  same_rest = SameRest-trans sbi sbi1 sbi2 a.same_rest b.same_rest;
  same_number = b.same_number ∙ a.same_number;
  still_used = λ x h. b.still_used x (a.still_used x h);
  still_foreign = λ x h f. b.still_foreign x (a.still_used x h) (a.still_foreign x h f);
}

-- The block that was found becomes the next one of the file, or is given back.
module _ (sbi : SbInfo) (ino : Inode) (v : IsValid sbi) (b : ℕ)
    (given : (alloc_block sbi).0 ≡ ok b) where
  a : Allocated sbi b (alloc_block sbi).1
  a = alloc_block_ok sbi b v given

  pub Spread-with_block : Spread sbi ino (alloc_block sbi).1 (with_block b ino)
  Spread-with_block = record {
    same_rest = a.rest;
    same_number = refl;
    still_used = λ x h. a.marked x ∙ ground (arith, h);
    still_foreign = λ x h f i lt. apart x h f i lt (Bool-cases (ino.block_count == i));
  }
    where
      apart :
          (x : ℕ)
          → bit sbi.block_bitmap x ≡ true
          → Foreign ino x
          → (i : ℕ) → i < ino.block_count + 1
          → ((ino.block_count == i) ≡ true) ⊎ ((ino.block_count == i) ≡ false)
          → update ino.block_pointers ino.block_count b i ≢ x
      apart x h f i lt (inl e) q = cc (rw e at q, h, a.was_free)
      apart x h f i lt (inr e) q = f i (ground arith) (rw e at q)

  Spread-free_block : Spread sbi ino (free_block (alloc_block sbi).1 b) ino
  Spread-free_block = record {
    same_rest =
        SameRest-trans sbi (alloc_block sbi).1 (free_block (alloc_block sbi).1 b) a.rest
          (free_block-SameRest (alloc_block sbi).1 b);
    same_number = refl;
    still_used = λ x h. free_block-alloc_block sbi b x v given ∙ h;
    still_foreign = λ x _ f. f;
  }

pub reserve-Spread :
    (n : ℕ) (sbi : SbInfo) (ino : Inode)
    → IsValid sbi
    → let (_, sbi', ino') = reserve n sbi ino in Spread sbi ino sbi' ino'
unfolding reserve
reserve-Spread zero sbi ino v = Spread-refl sbi ino
reserve-Spread (suc n) sbi ino v = go (alloc_block sbi).0 refl (reserve-Spread n)
  where
    go :
        (r : Result ℕ)
        → (alloc_block sbi).0 ≡ r
        → ((s : SbInfo) (i : Inode)
            → IsValid s
            → let (_, s', i') = reserve n s i in Spread s i s' i')
        → let z : Result (Unit {0}) × SbInfo × Inode = elim r [
          | err _ ↦ (err enospc, (alloc_block sbi).1, ino)
          | ok b ↦
              if ltb ino.block_count 8
              then reserve n (alloc_block sbi).1 (with_block b ino)
              else (err enospc, free_block (alloc_block sbi).1 b, ino)
        ] in
          Spread sbi ino z.1 z.2
    go (err e) h ih = rw (full_same sbi e h) (Spread-refl sbi ino)
    go (ok b) h ih = elim (Bool-cases (ltb ino.block_count 8)) [
      | inl room ↦ rw room (
          Spread-trans sbi (alloc_block sbi).1 _ ino (with_block b ino) _
            (Spread-with_block sbi ino v b h)
            (ih (alloc_block sbi).1 (with_block b ino) (alloc_block-IsValid sbi v)))
      | inr none_left ↦ rw none_left (Spread-free_block sbi ino v b h)
    ]
