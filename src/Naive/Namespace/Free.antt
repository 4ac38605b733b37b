-- ===== src/Naive/Namespace/Free.antt =====
-- What the freeing of an inode's blocks and of its number does to the two bitmaps.
use filesystem_lab.Base.{
  ℕ, zero, suc, ◌+◌, ◌-◌, ◌≤◌, ◌<◌, ◌≡◌, ◌≢◌, ◌∙◌, refl, false, arith, if◌then◌else◌, inl, inr,
  Bool-cases, ◌==◌, ==→eq, leb, ltb, ◌&&◌, update,
}
use filesystem_lab.Base.Bits.{bit, bit-clear_bit, clear_bit-IsBytes}
use filesystem_lab.Naive.Layout.{SbInfo, IsValid}
use filesystem_lab.Naive.Kernel.{Inode}
use filesystem_lab.Naive.Alloc.{free_block}
use filesystem_lab.Naive.Alloc.Blocks.{free_block-bit, free_block-IsValid, inode_total-free_block}
use filesystem_lab.Naive.Namespace.{free_pointers, drop_inode, unmark_inode}

-- One step of the loop on the super block.
abbrev freed_at : SbInfo → ℕ → SbInfo
freed_at sbi b = if b == 0 then sbi else free_block sbi b

freed_at-IsValid : (sbi : SbInfo) (b : ℕ) → IsValid sbi → IsValid (freed_at sbi b)
freed_at-IsValid sbi b v = elim (Bool-cases (b == 0)) [
  | inl e ↦ rw e v
  | inr e ↦ rw e (free_block-IsValid sbi b v)
]

free_block-rest :
    (sbi : SbInfo) (b : ℕ)
    → ((free_block sbi b).inode_bitmap ≡ sbi.inode_bitmap)
      × ((free_block sbi b).block_total ≡ sbi.block_total)
      × ((free_block sbi b).data_block_no ≡ sbi.data_block_no)
unfolding free_block
free_block-rest sbi b = ground arith

freed_at-bit :
    (sbi : SbInfo) (b x : ℕ)
    → IsValid sbi
    → b < sbi.block_total
    → bit (freed_at sbi b).block_bitmap x ≡ (
        if b == 0 then bit sbi.block_bitmap x else if b == x then false else bit sbi.block_bitmap x)
freed_at-bit sbi b x v h = elim (Bool-cases (b == 0)) [
  | inl e ↦ rw e
  | inr e ↦ rw e (free_block-bit sbi b x v h)
]

freed_at-rest :
    (sbi : SbInfo) (b : ℕ)
    → ((freed_at sbi b).inode_bitmap ≡ sbi.inode_bitmap)
      × ((freed_at sbi b).block_total ≡ sbi.block_total)
freed_at-rest sbi b = ground (arith, free_block-rest sbi b)

abbrev dropped_at : Inode → ℕ → Inode
dropped_at ino i =
    if ino.block_pointers i == 0
    then ino
    else record ino { block_pointers = update ino.block_pointers i 0 }

dropped_at-pointer :
    (ino : Inode) (i l : ℕ)
    → (dropped_at ino i).block_pointers l ≡ (if i == l then 0 else ino.block_pointers l)
dropped_at-pointer ino i l = ground arith

-- What the loop has done, over `n` pointers from pointer `i`.
pub record Freed (n i : ℕ) (sbi : SbInfo) (ino : Inode) (sbi' : SbInfo) (ino' : Inode)
    : Type 0 where
  pub valid : IsValid sbi'
  pub same_inodes : sbi'.inode_bitmap ≡ sbi.inode_bitmap
  pub freed :
      (l : ℕ)
      → i ≤ l
      → l < i + n
      → ino.block_pointers l ≢ 0
      → bit sbi'.block_bitmap (ino.block_pointers l) ≡ false
  pub others :
      (x : ℕ)
      → ((l : ℕ) → i ≤ l → l < i + n → ino.block_pointers l ≢ x)
      → bit sbi'.block_bitmap x ≡ bit sbi.block_bitmap x
  pub only_clears : (x : ℕ) → bit sbi.block_bitmap x ≡ false → bit sbi'.block_bitmap x ≡ false
  pub pointers :
      (l : ℕ)
      → ino'.block_pointers l ≡ (if leb i l && ltb l (i + n) then 0 else ino.block_pointers l)

Freed-step :
    (n i : ℕ) (sbi : SbInfo) (ino : Inode) (sbi' : SbInfo) (ino' : Inode)
    → IsValid sbi
    → ino.block_pointers i < sbi.block_total
    → Freed n (i + 1) (freed_at sbi (ino.block_pointers i)) (dropped_at ino i) sbi' ino'
    → Freed (suc n) i sbi ino sbi' ino'
Freed-step n i sbi ino sbi' ino' v h r = record {
  valid = r.valid;
  same_inodes = r.same_inodes ∙ (freed_at-rest sbi b).0;
  freed = λ l lo hi nz. elim (Bool-cases (i == l)) [
    | inl e ↦
        let e' : i ≡ l = ==→eq _ _ e in rw (← e') (r.only_clears b (now_clear (rw (← e') at nz)))
    | inr e ↦ rw (same l e) at (r.freed l (ground arith) (omega arith) (rw (same l e) nz))
  ];
  others = λ x apart.
      r.others x (λ l lo hi. rw (same l (later l lo)) (apart l (omega arith) (omega arith)))
      ∙ freed_at-bit sbi b x v h
      ∙ untouched x (apart i (omega arith) (omega arith));
  only_clears = λ x e. r.only_clears x (freed_at-bit sbi b x v h ∙ cleared x e);
  pointers = λ l. r.pointers l ∙ rw (dropped_at-pointer ino i l) (ground arith);
}
  where
    b : ℕ
    b = ino.block_pointers i

    same : (l : ℕ) → (i == l) ≡ false → (dropped_at ino i).block_pointers l ≡ ino.block_pointers l
    same l e = dropped_at-pointer ino i l ∙ rw e

    later : (l : ℕ) → i + 1 ≤ l → (i == l) ≡ false
    later l h = ground arith

    now_clear : b ≢ 0 → bit (freed_at sbi b).block_bitmap b ≡ false
    now_clear nz = freed_at-bit sbi b b v h ∙ ground arith

    untouched :
        (x : ℕ)
        → b ≢ x
        → (if b == 0
            then bit sbi.block_bitmap x
            else if b == x
            then false
            else bit sbi.block_bitmap x)
          ≡ bit sbi.block_bitmap x
    untouched x ne = ground arith

    cleared :
        (x : ℕ)
        → bit sbi.block_bitmap x ≡ false
        → (if b == 0
            then bit sbi.block_bitmap x
            else if b == x
            then false
            else bit sbi.block_bitmap x)
          ≡ false
    cleared x e = ground arith

free_pointers-step :
    (n i : ℕ) (sbi : SbInfo) (ino : Inode)
    → free_pointers (suc n) i sbi ino
      ≡ free_pointers n (i + 1) (freed_at sbi (ino.block_pointers i)) (dropped_at ino i)
unfolding free_pointers
free_pointers-step n i sbi ino = refl

pub free_pointers-Freed :
    (n i : ℕ) (sbi : SbInfo) (ino : Inode)
    → IsValid sbi
    → ((l : ℕ) → ino.block_pointers l < sbi.block_total)
    → Freed n i sbi ino (free_pointers n i sbi ino).0 (free_pointers n i sbi ino).1
free_pointers-Freed zero i sbi ino v h =
    unfold free_pointers in
    record {
      valid = v;
      same_inodes = refl;
      freed = λ l a b. absurd (omega arith);
      others = λ x _. refl;
      only_clears = λ x e. e;
      pointers = λ l. ground arith;
    }
free_pointers-Freed (suc n) i sbi ino v h = rw (free_pointers-step n i sbi ino) (
    Freed-step n i sbi ino _ _ v (h i) (
      free_pointers-Freed n (i + 1) (freed_at sbi (ino.block_pointers i)) (dropped_at ino i)
        (freed_at-IsValid sbi (ino.block_pointers i) v) in_device))
  where
    in_device :
        (l : ℕ)
        → (dropped_at ino i).block_pointers l < (freed_at sbi (ino.block_pointers i)).block_total
    in_device l =
        ground
          (arith, h l, h i, dropped_at-pointer ino i l, freed_at-rest sbi (ino.block_pointers i))

-- What `drop_inode` has done: every block of the inode and its number are free, every other block
-- and number is as it was, and the inode has no blocks, links or bytes left.
pub record Dropped (sbi : SbInfo) (ino : Inode) (sbi' : SbInfo) (ino' : Inode) : Type 0 where
  pub valid : IsValid sbi'
  pub blocks_free :
      (l : ℕ)
      → l < ino.block_count
      → ino.block_pointers l ≢ 0
      → bit sbi'.block_bitmap (ino.block_pointers l) ≡ false
  pub other_blocks :
      (x : ℕ)
      → ((l : ℕ) → l < ino.block_count → ino.block_pointers l ≢ x)
      → bit sbi'.block_bitmap x ≡ bit sbi.block_bitmap x
  pub numbers :
      (x : ℕ)
      → bit sbi'.inode_bitmap x ≡ (if ino.i_ino - 1 == x then false else bit sbi.inode_bitmap x)
  pub no_pointers : (l : ℕ) → l < ino.block_count → ino'.block_pointers l ≡ 0
  pub emptied : (ino'.block_count ≡ 0) × (ino'.i_nlink ≡ 0) × (ino'.i_size ≡ 0)

pub drop_inode-Dropped :
    (sbi : SbInfo) (ino : Inode)
    → IsValid sbi
    → ((l : ℕ) → ino.block_pointers l < sbi.block_total)
    → Dropped sbi ino (drop_inode sbi ino).0 (drop_inode sbi ino).1
drop_inode-Dropped sbi ino v h =
    unfold drop_inode unmark_inode in
    record {
      valid = record {
        after_bitmaps = f.valid.after_bitmaps;
        table_fits = f.valid.table_fits;
        data_fits = f.valid.data_fits;
        block_bits = f.valid.block_bits;
        inode_bits = f.valid.inode_bits;
        block_bytes = f.valid.block_bytes;
        inode_bytes = clear_bit-IsBytes _ (ino.i_ino - 1) f.valid.inode_bytes;
      };
      blocks_free = λ l lt nz. f.freed l (omega arith) (omega arith) nz;
      other_blocks = λ x apart. f.others x (λ l _ hi. apart l (omega arith));
      numbers = λ x. bit-clear_bit _ (ino.i_ino - 1) x f.valid.inode_bytes ∙ rw f.same_inodes;
      no_pointers = λ l lt. f.pointers l ∙ ground arith;
      emptied = (refl, refl, refl);
    }
  where
    f :
        Freed ino.block_count 0 sbi ino
          (free_pointers ino.block_count 0 sbi ino).0
          (free_pointers ino.block_count 0 sbi ino).1
    f = free_pointers-Freed ino.block_count 0 sbi ino v h

-- The number of inodes stays.
free_pointers-inode_total :
    (n i : ℕ) (sbi : SbInfo) (ino : Inode)
    → (free_pointers n i sbi ino).0.inode_total ≡ sbi.inode_total
unfolding free_pointers
free_pointers-inode_total zero i sbi ino = refl
free_pointers-inode_total (suc n) i sbi ino =
    free_pointers-inode_total n (i + 1) _ _
    ∙ ground (arith, inode_total-free_block sbi (ino.block_pointers i))

pub drop_inode-inode_total :
    (sbi : SbInfo) (ino : Inode) → (drop_inode sbi ino).0.inode_total ≡ sbi.inode_total
unfolding drop_inode unmark_inode
drop_inode-inode_total sbi ino = free_pointers-inode_total ino.block_count 0 sbi ino

-- So do the bounds of the data blocks.
free_pointers-bounds :
    (n i : ℕ) (sbi : SbInfo) (ino : Inode)
    → let sbi' = (free_pointers n i sbi ino).0 in
      (sbi'.block_total ≡ sbi.block_total) × (sbi'.data_block_no ≡ sbi.data_block_no)
unfolding free_pointers
free_pointers-bounds zero i sbi ino = (refl, refl)
free_pointers-bounds (suc n) i sbi ino =
    let (total, first) =
      free_pointers-bounds n (i + 1) (freed_at sbi (ino.block_pointers i)) (dropped_at ino i) in
    let (_, total1, first1) = free_block-rest sbi (ino.block_pointers i) in
    (total ∙ ground (arith, total1), first ∙ ground (arith, first1))

pub drop_inode-bounds :
    (sbi : SbInfo) (ino : Inode)
    → let sbi' = (drop_inode sbi ino).0 in
      (sbi'.block_total ≡ sbi.block_total) × (sbi'.data_block_no ≡ sbi.data_block_no)
unfolding drop_inode unmark_inode
drop_inode-bounds sbi ino = free_pointers-bounds ino.block_count 0 sbi ino
