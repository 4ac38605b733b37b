-- ===== src/Stage8/File/Blocks.antt =====
-- The blocks of a file of naive/naivefs-8/naivefs.c: no two pointers share one, and all are in use.
use filesystem_lab.Base.{
  ℕ, ◌+◌, ◌/◌, ◌%◌, ◌≤◌, ◌<◌, ◌≡◌, ◌≢◌, ◌∙◌, ◌⊎◌, refl, sym, ap, Bool, true, false, Option, none,
  some, arith, Bool-cases, inl, inr, if◌then◌else◌, update, ◌==◌, ==→eq, ==_refl,
}
use filesystem_lab.Base.Bytes.{Mem}
use filesystem_lab.Base.Bits.{bit, set_bit, bit-set_bit, set_bit-IsBytes, IsBytes}
use filesystem_lab.Stage8.State.{SbInfo, DiskInode}
use filesystem_lab.Stage8.Bitmap.{
  find_free_block, find_free_block_lem, BlockAnswer, FirstClear, AllSet,
}
use filesystem_lab.Stage8.File.{Writing, map_block, set_pointer}

-- The super block and the file's pointers fit together: the blocks of the bitmaps, which are those
-- before 4, the inode table and the data follow one another, and the file's blocks are in use, in the
-- data region, and stand once in it.
pub record Sound (sbi : SbInfo) (disk : DiskInode) : Type 0 where
  pub bytes : IsBytes sbi.block_bitmap
  pub after_bitmaps : 4 ≤ sbi.inode_table_start
  pub after_tables : sbi.inode_table_start + sbi.inodes_count ≤ sbi.data_blocks_start
  pub data_fits : sbi.data_blocks_start ≤ sbi.blocks_count
  pub in_use : (i : ℕ) → i < 8 → disk.i_block i ≢ 0 → bit sbi.block_bitmap (disk.i_block i) ≡ true
  pub in_data : (i : ℕ) → i < 8 → disk.i_block i ≢ 0 → sbi.data_blocks_start ≤ disk.i_block i
  pub apart :
      (i j : ℕ) → i < 8 → j < 8 → disk.i_block i ≢ 0 → disk.i_block i ≡ disk.i_block j → i ≡ j

-- Byte `x` of the file, as its block holds it.
abbrev pub content : DiskInode → (ℕ → Mem) → ℕ → ℕ
content disk blocks x = blocks (disk.i_block (x / 512)) (x % 512)

-- What the mapping of the position's block has done.
pub record MappedBlock (w w1 : Writing) : Type 0 where
  pub sound : Sound w1.sbi w1.disk
  pub present : w1.disk.i_block (w.pos / 512) ≢ 0
  pub kept : (i : ℕ) → w.disk.i_block i ≢ 0 → w1.disk.i_block i ≡ w.disk.i_block i
  pub rest : w1 ≡ record w { disk = w1.disk; sbi = w1.sbi }
  pub same_size : w1.disk.i_size ≡ w.disk.i_size

abbrev pub MapAnswer : Writing → Option (Bool × Writing) → Type 0
MapAnswer w none = AllSet w.sbi.block_bitmap w.sbi.data_blocks_start w.sbi.blocks_count
MapAnswer w (some (_, w1)) = MappedBlock w w1

module _ (w : Writing) (s : Sound w.sbi w.disk) (small : w.pos / 512 < 8) where
  abbrev pub with_block : ℕ → SbInfo → Writing
  with_block b sbi' = record w { disk = set_pointer w.disk (w.pos / 512) b; sbi = sbi' }

  pub allocated :
      (b : ℕ)
      → w.disk.i_block (w.pos / 512) ≡ 0
      → FirstClear w.sbi.block_bitmap w.sbi.data_blocks_start w.sbi.blocks_count b
      → MappedBlock w (
          with_block b (record w.sbi {
            block_bitmap = set_bit w.sbi.block_bitmap b;
            block_bitmap_dirty = true;
          }))
  unfolding set_pointer
  allocated b hole f = record {
    sound = record {
      bytes = set_bit-IsBytes w.sbi.block_bitmap b s.bytes;
      after_bitmaps = s.after_bitmaps;
      after_tables = s.after_tables;
      data_fits = s.data_fits;
      in_use = λ j lt nz.
          bit-set_bit w.sbi.block_bitmap b (update p i b j) s.bytes
          ∙ used j lt nz (Bool-cases (i == j));
      in_data = λ j lt nz. elim (Bool-cases (i == j)) [
        | inl e ↦ rw e f.from
        | inr e ↦ rw e (s.in_data j lt (rw (old j e) at nz))
      ];
      apart = λ j l lj ll nz e. only_one j l lj ll nz e (Bool-cases (i == j)) (Bool-cases (i == l));
    };
    present = rw (==_refl i) b_pos;
    kept = λ j nz. elim (Bool-cases (i == j)) [
      | inl e ↦ let q : i ≡ j = ==→eq _ _ e in absurd (nz (rw (← q) hole))
      | inr e ↦ rw e
    ];
    rest = refl;
    same_size = refl;
  }
    where
      i : ℕ
      i = w.pos / 512

      p : ℕ → ℕ
      p = w.disk.i_block

      b_pos : b ≢ 0
      b_pos = omega (arith, f.from, s.after_tables, s.after_bitmaps)

      fresh : (j : ℕ) → j < 8 → p j ≢ 0 → p j ≢ b
      fresh j lt nz e = cc (s.in_use j lt nz, ap (bit w.sbi.block_bitmap) e, f.is_free)

      new : (j : ℕ) → (i == j) ≡ true → update p i b j ≡ b
      new j e = rw e

      old : (j : ℕ) → (i == j) ≡ false → update p i b j ≡ p j
      old j e = rw e

      used :
          (j : ℕ)
          → j < 8
          → update p i b j ≢ 0
          → ((i == j) ≡ true) ⊎ ((i == j) ≡ false)
          → (if b == update p i b j then true else bit w.sbi.block_bitmap (update p i b j)) ≡ true
      used j lt nz (inl e) = rw (e, ==_refl b)
      used j lt nz (inr e) = rw e (ground (arith, s.in_use j lt (rw (old j e) at nz)))

      only_one :
          (j l : ℕ)
          → j < 8
          → l < 8
          → update p i b j ≢ 0
          → update p i b j ≡ update p i b l
          → ((i == j) ≡ true) ⊎ ((i == j) ≡ false)
          → ((i == l) ≡ true) ⊎ ((i == l) ≡ false)
          → j ≡ l
      only_one j l lj ll nz e (inl a) (inl c) = sym (==→eq _ _ a) ∙ ==→eq _ _ c
      only_one j l lj ll nz e (inl a) (inr c) = absurd (
          fresh l ll (λ z. b_pos (sym (new j a) ∙ e ∙ old l c ∙ z))
            (sym (old l c) ∙ sym e ∙ new j a))
      only_one j l lj ll nz e (inr a) (inl c) =
          absurd (fresh j lj (rw (old j a) at nz) (sym (old j a) ∙ e ∙ new l c))
      only_one j l lj ll nz e (inr a) (inr c) =
          s.apart j l lj ll (rw (old j a) at nz) (sym (old j a) ∙ e ∙ old l c)

  -- `map_block` leaves a block at the position, or finds no free block.
  pub map_block-MapAnswer : MapAnswer w (map_block w)
  unfolding map_block
  map_block-MapAnswer = elim (Bool-cases (w.disk.i_block (w.pos / 512) == 0)) [
    | inr there ↦ rw there (record {
      sound = s;
      present = ground arith;
      kept = λ i _. refl;
      rest = refl;
      same_size = refl;
    })
    | inl hole ↦ rw hole (
        go (==→eq _ _ hole) (find_free_block w.sbi) (find_free_block_lem w.sbi s.bytes s.data_fits))
  ]
    where
      go :
          w.disk.i_block (w.pos / 512) ≡ 0
          → (a : Option ℕ × SbInfo) → BlockAnswer w.sbi a
          → let x : Option (Bool × Writing) = elim a.0 [
            | none ↦ none
            | some b ↦ some (true, with_block b a.1)
          ] in
            MapAnswer w x
      go hole (none, sbi') (_, all) = all
      go hole (some b, sbi') (f, e) = rw e (allocated b hole f)
