-- ===== src/Naive/Files/Owned.antt =====
-- The blocks of a file of naive/naivefs_file.c: they are in use, none stands twice, and they hold
-- the file's size.
use filesystem_lab.Base.{
  ℕ, zero, suc, ◌+◌, ◌*◌, ◌/◌, ◌%◌, ◌≤◌, ◌<◌, ◌≡◌, ◌≢◌, ◌∙◌, ◌⊎◌, refl, sym, ap, subst, true, false,
  arith, Bool-cases, inl, inr, Result, Errno, ok, err, enospc, if◌then◌else◌, update, ltb, ◌==◌,
  ==→eq, ==_refl, Option-cases,
}
use filesystem_lab.Base.Bytes.{Mem}
use filesystem_lab.Base.Bits.{bit}
use filesystem_lab.Naive.Layout.{SbInfo, IsValid}
use filesystem_lab.Naive.Kernel.{Inode}
use filesystem_lab.Naive.Alloc.{alloc_block, free_block, search_block}
use filesystem_lab.Naive.Alloc.Blocks.{
  Allocated, alloc_block_ok, alloc_block-IsValid, free_block-IsValid, free_block-alloc_block,
}
use filesystem_lab.Naive.Files.{reserve}
use filesystem_lab.Naive.Files.Reserve.{with_block}

pub record Owned (sbi : SbInfo) (ino : Inode) : Type 0 where
  pub valid : IsValid sbi
  pub bounded : ino.block_count ≤ 8
  pub covers : ino.i_size ≤ ino.block_count * 512
  pub in_data : (i : ℕ) → i < ino.block_count → sbi.data_block_no ≤ ino.block_pointers i
  pub in_device : (i : ℕ) → i < ino.block_count → ino.block_pointers i < sbi.block_total
  pub no_more : (i : ℕ) → ino.block_count ≤ i → ino.block_pointers i ≡ 0
  pub in_use : (i : ℕ) → i < ino.block_count → bit sbi.block_bitmap (ino.block_pointers i) ≡ true
  pub apart :
      (i j : ℕ)
      → i < ino.block_count
      → j < ino.block_count
      → ino.block_pointers i ≡ ino.block_pointers j
      → i ≡ j

-- Byte `x` of the file, as its block holds it.
abbrev pub content : Inode → (ℕ → Mem) → ℕ → ℕ
content ino blocks x = blocks (ino.block_pointers (x / 512)) (x % 512)

pub Owned-nonzero :
    {sbi : SbInfo} {ino : Inode} (i : ℕ)
    → Owned sbi ino
    → i < ino.block_count
    → ino.block_pointers i ≢ 0
Owned-nonzero i o lt = omega (arith, o.in_data i lt, o.valid.after_bitmaps, o.valid.table_fits)

-- Only the bitmap of blocks may differ.
abbrev pub SameRest : SbInfo → SbInfo → Type 0
SameRest sbi sbi' = sbi' ≡ record sbi { block_bitmap = sbi'.block_bitmap }

pub SameRest-trans : (a b c : SbInfo) → SameRest a b → SameRest b c → SameRest a c
SameRest-trans a b c p q =
    q ∙ ap {A = SbInfo} {B = SbInfo} (λ z. record z { block_bitmap = c.block_bitmap }) p

pub free_block-SameRest : (s : SbInfo) (b : ℕ) → SameRest s (free_block s b)
unfolding free_block
free_block-SameRest s b = elim (Bool-cases (ltb (b / 8) (s.block_bitmap_blocks * 512))) [
  | inl e ↦ rw e refl
  | inr e ↦ rw e refl
]

-- Another super block with the same bits serves as well.
Owned-bits :
    (sbi sbi' : SbInfo) (ino : Inode)
    → IsValid sbi'
    → SameRest sbi sbi'
    → ((b : ℕ) → bit sbi'.block_bitmap b ≡ bit sbi.block_bitmap b)
    → Owned sbi ino
    → Owned sbi' ino
Owned-bits sbi sbi' ino v e same o = record {
  valid = v;
  bounded = o.bounded;
  covers = o.covers;
  in_data = λ i lt. omega (arith, o.in_data i lt, ap (λ z. z.data_block_no) e);
  in_device = λ i lt. omega (arith, o.in_device i lt, ap (λ z. z.block_total) e);
  no_more = o.no_more;
  in_use = λ i lt. same (ino.block_pointers i) ∙ o.in_use i lt;
  apart = o.apart;
}

module _ (sbi : SbInfo) (ino : Inode) (o : Owned sbi ino) (b : ℕ)
    (given : (alloc_block sbi).0 ≡ ok b) where
  a : Allocated sbi b (alloc_block sbi).1
  a = alloc_block_ok sbi b o.valid given

  same_data : (alloc_block sbi).1.data_block_no ≡ sbi.data_block_no
  same_data = ap (λ s. s.data_block_no) a.rest

  fresh : (i : ℕ) → i < ino.block_count → ino.block_pointers i ≢ b
  fresh i lt e = cc (o.in_use i lt, ap (bit sbi.block_bitmap) e, a.was_free)

  -- The block that was found becomes the next one of the file.
  Owned-with_block : ino.block_count < 8 → Owned (alloc_block sbi).1 (with_block b ino)
  Owned-with_block room = record {
    valid = alloc_block-IsValid sbi o.valid;
    bounded = omega arith;
    covers = omega (arith, o.covers);
    in_data = λ i lt. placed i lt (Bool-cases (ino.block_count == i));
    in_device = λ i lt. below i lt (Bool-cases (ino.block_count == i));
    no_more = λ i le.
        let other : (ino.block_count == i) ≡ false = ground arith in
        old i other ∙ o.no_more i (omega arith);
    in_use = λ i lt.
        a.marked (update ino.block_pointers ino.block_count b i)
        ∙ used i lt (Bool-cases (ino.block_count == i));
    apart = λ i j li lj.
        only_one i j li lj (Bool-cases (ino.block_count == i)) (Bool-cases (ino.block_count == j));
  }
    where
      new :
          (i : ℕ)
          → (ino.block_count == i) ≡ true
          → update ino.block_pointers ino.block_count b i ≡ b
      new i e = rw e refl

      old :
          (i : ℕ)
          → (ino.block_count == i) ≡ false
          → update ino.block_pointers ino.block_count b i ≡ ino.block_pointers i
      old i e = rw e refl

      placed :
          (i : ℕ)
          → i < ino.block_count + 1
          → ((ino.block_count == i) ≡ true) ⊎ ((ino.block_count == i) ≡ false)
          → (alloc_block sbi).1.data_block_no ≤ update ino.block_pointers ino.block_count b i
      placed i lt (inl e) = omega (arith, new i e, a.in_data, same_data)
      placed i lt (inr e) =
          let before : i < ino.block_count = ground arith in
          omega (arith, old i e, same_data, o.in_data i before)

      below :
          (i : ℕ)
          → i < ino.block_count + 1
          → ((ino.block_count == i) ≡ true) ⊎ ((ino.block_count == i) ≡ false)
          → update ino.block_pointers ino.block_count b i < (alloc_block sbi).1.block_total
      below i lt (inl e) = omega (arith, new i e, a.in_device, ap (λ z. z.block_total) a.rest)
      below i lt (inr e) =
          let before : i < ino.block_count = ground arith in
          omega (arith, old i e, ap (λ z. z.block_total) a.rest, o.in_device i before)

      used :
          (i : ℕ)
          → i < ino.block_count + 1
          → ((ino.block_count == i) ≡ true) ⊎ ((ino.block_count == i) ≡ false)
          → (if b == update ino.block_pointers ino.block_count b i
              then true
              else bit sbi.block_bitmap (update ino.block_pointers ino.block_count b i))
            ≡ true
      used i lt (inl e) = rw (e, ==_refl b) refl
      used i lt (inr e) =
          let before : i < ino.block_count = ground arith in
          rw e (ground (arith, o.in_use i before))

      only_one :
          (i j : ℕ)
          → i < ino.block_count + 1
          → j < ino.block_count + 1
          → ((ino.block_count == i) ≡ true) ⊎ ((ino.block_count == i) ≡ false)
          → ((ino.block_count == j) ≡ true) ⊎ ((ino.block_count == j) ≡ false)
          → update ino.block_pointers ino.block_count b i
            ≡ update ino.block_pointers ino.block_count b j
          → i ≡ j
      only_one i j li lj (inl c) (inl d) q = sym (==→eq _ _ c) ∙ ==→eq _ _ d
      only_one i j li lj (inl c) (inr d) q =
          absurd (fresh j (ground arith) (sym (old j d) ∙ sym q ∙ new i c))
      only_one i j li lj (inr c) (inl d) q =
          absurd (fresh i (ground arith) (sym (old i c) ∙ q ∙ new j d))
      only_one i j li lj (inr c) (inr d) q =
          o.apart i j (ground arith) (ground arith) (sym (old i c) ∙ q ∙ old j d)

  -- The block that was found is given back.
  Owned-free_block : Owned (free_block (alloc_block sbi).1 b) ino
  Owned-free_block =
      Owned-bits sbi (free_block (alloc_block sbi).1 b) ino
        (free_block-IsValid _ b (alloc_block-IsValid sbi o.valid))
        (SameRest-trans sbi (alloc_block sbi).1 (free_block (alloc_block sbi).1 b) a.rest
          (free_block-SameRest (alloc_block sbi).1 b))
        (λ l. free_block-alloc_block sbi b l o.valid given) o

-- A failed search changes nothing.
pub full_same : (sbi : SbInfo) (e : Errno) → (alloc_block sbi).0 ≡ err e → (alloc_block sbi).1 ≡ sbi
unfolding alloc_block
full_same sbi e h = elim (Option-cases (search_block sbi)) [
  | inl none_free ↦ rw (none_free, alloc_block) refl
  | inr (b, found) ↦ absurd (cc (rw (found, alloc_block) at h))
]

-- Reserving blocks for a file whose blocks are in order keeps them so, and the size.
pub reserve-Owned :
    (n : ℕ) (sbi : SbInfo) (ino : Inode)
    → Owned sbi ino
    → let (_, sbi', ino') = reserve n sbi ino in Owned sbi' ino' × (ino'.i_size ≡ ino.i_size)
unfolding reserve
reserve-Owned zero sbi ino o = (o, refl)
reserve-Owned (suc n) sbi ino o = go (alloc_block sbi).0 refl (reserve-Owned n)
  where
    go :
        (r : Result ℕ)
        → (alloc_block sbi).0 ≡ r
        → ((s : SbInfo) (i : Inode)
            → Owned s i
            → let (_, s', i') = reserve n s i in Owned s' i' × (i'.i_size ≡ i.i_size))
        → let z : Result (Unit {0}) × SbInfo × Inode = elim r [
          | err _ ↦ (err enospc, (alloc_block sbi).1, ino)
          | ok b ↦
              if ltb ino.block_count 8
              then reserve n (alloc_block sbi).1 (with_block b ino)
              else (err enospc, free_block (alloc_block sbi).1 b, ino)
        ] in
          Owned z.1 z.2 × (z.2.i_size ≡ ino.i_size)
    go (err e) h ih = (subst (λ s. Owned s ino) (sym (full_same sbi e h)) o, refl)
    go (ok b) h ih = elim (Bool-cases (ltb ino.block_count 8)) [
      | inl room ↦ rw room (
          ih (alloc_block sbi).1 (with_block b ino) (Owned-with_block sbi ino o b h (ground arith)))
      | inr none_left ↦ rw none_left (Owned-free_block sbi ino o b h, refl)
    ]
