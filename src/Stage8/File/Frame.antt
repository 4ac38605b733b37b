-- ===== src/Stage8/File/Frame.antt =====
-- What `naive_file_write` of naive/naivefs-8/naivefs.c leaves of the rest of the file system, and that
-- taking a block for the file and giving it back leave it so.
use filesystem_lab.Base.{
  ℕ, ◌/◌, ◌<◌, ◌≤◌, ◌≡◌, ◌≢◌, ◌∙◌, refl, sym, ap, Bool, true, false, Option, none, some, arith,
  Bool-cases, inl, inr, update, ◌==◌, ==→eq, ==_refl,
}
use filesystem_lab.Base.Bits.{
  bit, set_bit, clear_bit, bit-set_bit, bit-clear_bit, set_bit-IsBytes, clear_bit-IsBytes, IsBytes,
}
use filesystem_lab.Device.{Device, Balanced}
use filesystem_lab.Stage8.State.{SbInfo, DiskInode}
use filesystem_lab.Stage8.Bitmap.{find_free_block, find_free_block_lem, BlockAnswer, FirstClear}
use filesystem_lab.Stage8.File.{Writing, map_block, unmap_block, set_pointer, drop_pointer}
use filesystem_lab.Stage8.File.Blocks.{Sound, allocated}

-- The block is not one of the file.
abbrev pub Foreign : DiskInode → ℕ → Type 0
Foreign disk x = (i : ℕ) → i < 8 → disk.i_block i ≢ x

-- The file stays sound, blocks in use stay in use, those that are not the file's do not become its and,
-- in the data region, keep their bytes, the data region begins where it did, no inode number changes, and every buffer is given back.
pub record Safe (sbi : SbInfo) (disk : DiskInode) (d : Device) (sbi' : SbInfo) (disk' : DiskInode)
    (d' : Device) : Type 0 where
  pub sound : Sound sbi' disk'
  pub still_used : (x : ℕ) → bit sbi.block_bitmap x ≡ true → bit sbi'.block_bitmap x ≡ true
  pub still_foreign : (x : ℕ) → bit sbi.block_bitmap x ≡ true → Foreign disk x → Foreign disk' x
  pub others :
      (x : ℕ)
      → sbi.data_blocks_start ≤ x
      → bit sbi.block_bitmap x ≡ true
      → Foreign disk x
      → d'.blocks x ≡ d.blocks x
  pub same_layout : sbi'.data_blocks_start ≡ sbi.data_blocks_start
  pub same_inodes : sbi'.inode_bitmap ≡ sbi.inode_bitmap
  pub balanced : Balanced d d'

abbrev pub SafeStep : Writing → Writing → Type 0
SafeStep w w' = Safe w.sbi w.disk w.dev w'.sbi w'.disk w'.dev

pub Safe-refl :
    (sbi : SbInfo) (disk : DiskInode) (d : Device) → Sound sbi disk → Safe sbi disk d sbi disk d
Safe-refl sbi disk d s = record {
  sound = s;
  still_used = λ x h. h;
  still_foreign = λ x h f. f;
  others = λ x y h f. refl;
  same_layout = refl;
  same_inodes = refl;
  balanced = omega arith;
}

pub Safe-trans : (w w1 w2 : Writing) → SafeStep w w1 → SafeStep w1 w2 → SafeStep w w2
Safe-trans w w1 w2 a b = record {
  sound = b.sound;
  still_used = λ x h. b.still_used x (a.still_used x h);
  still_foreign = λ x h f. b.still_foreign x (a.still_used x h) (a.still_foreign x h f);
  others = λ x y h f.
      b.others x (omega (arith, y, a.same_layout)) (a.still_used x h) (a.still_foreign x h f)
      ∙ a.others x y h f;
  same_layout = b.same_layout ∙ a.same_layout;
  same_inodes = b.same_inodes ∙ a.same_inodes;
  balanced = omega (arith, a.balanced, b.balanced);
}

-- Another super block with the same bits, and an inode with the same pointers, serve as well.
pub Sound-congr :
    (sbi sbi' : SbInfo) (disk disk' : DiskInode)
    → ((x : ℕ) → bit sbi'.block_bitmap x ≡ bit sbi.block_bitmap x)
    → ((i : ℕ) → disk'.i_block i ≡ disk.i_block i)
    → IsBytes sbi'.block_bitmap
    → sbi'.inode_table_start ≡ sbi.inode_table_start
    → sbi'.inodes_count ≡ sbi.inodes_count
    → sbi'.data_blocks_start ≡ sbi.data_blocks_start
    → sbi'.blocks_count ≡ sbi.blocks_count
    → Sound sbi disk
    → Sound sbi' disk'
Sound-congr sbi sbi' disk disk' bits pointers bytes table inodes first total s = record {
  bytes = bytes;
  after_bitmaps = omega (arith, s.after_bitmaps, table);
  after_tables = omega (arith, s.after_tables, table, inodes, first);
  data_fits = omega (arith, s.data_fits, first, total);
  in_use = λ i lt nz.
      bits (disk'.i_block i)
      ∙ ap (bit sbi.block_bitmap) (pointers i)
      ∙ s.in_use i lt (λ z. nz (pointers i ∙ z));
  in_data = λ i lt nz. omega (arith, first, pointers i, s.in_data i lt (λ z. nz (pointers i ∙ z)));
  apart = λ i j li lj nz e.
      s.apart i j li lj (λ z. nz (pointers i ∙ z)) (sym (pointers i) ∙ e ∙ pointers j);
}

-- How the block of the position was mapped.
abbrev pub MapWay : Writing → Option (Bool × Writing) → Type 0
MapWay w none = Unit {0}
MapWay w (some (false, w1)) = w1 ≡ w
MapWay w (some (true, w1)) =
    (b : ℕ) × FirstClear w.sbi.block_bitmap w.sbi.data_blocks_start w.sbi.blocks_count b
    × (w.disk.i_block (w.pos / 512) ≡ 0)
    × (w1 ≡ record w {
      disk = set_pointer w.disk (w.pos / 512) b;
      sbi = record w.sbi { block_bitmap = set_bit w.sbi.block_bitmap b; block_bitmap_dirty = true };
    })

pub map_block-MapWay : (w : Writing) → Sound w.sbi w.disk → MapWay w (map_block w)
unfolding map_block
map_block-MapWay w s = elim (Bool-cases (w.disk.i_block (w.pos / 512) == 0)) [
  | inr there ↦ rw there refl
  | inl hole ↦
      rw hole (
        go (==→eq _ _ hole) (find_free_block w.sbi) (find_free_block_lem w.sbi s.bytes s.data_fits))
]
  where
    go :
        w.disk.i_block (w.pos / 512) ≡ 0
        → (a : Option ℕ × SbInfo) → BlockAnswer w.sbi a
        → MapWay w (elim a.0 [
          | none ↦ none
          | some b ↦ some (true, record w { disk = set_pointer w.disk (w.pos / 512) b; sbi = a.1 })
        ])
    go hole (none, sbi') _ = tt
    go hole (some b, sbi') (f, e) = (b, f, hole, rw e refl)

module _ (w : Writing) (s : Sound w.sbi w.disk) (small : w.pos / 512 < 8) (b : ℕ)
    (f : FirstClear w.sbi.block_bitmap w.sbi.data_blocks_start w.sbi.blocks_count b)
    (hole : w.disk.i_block (w.pos / 512) ≡ 0) where
  abbrev taken : SbInfo
  taken = record w.sbi { block_bitmap = set_bit w.sbi.block_bitmap b; block_bitmap_dirty = true }

  abbrev mapped : Writing
  mapped = record w { disk = set_pointer w.disk (w.pos / 512) b; sbi = taken }

  not_new : (x : ℕ) → bit w.sbi.block_bitmap x ≡ true → (b == x) ≡ false
  not_new x h = elim (Bool-cases (b == x)) [
    | inr e ↦ e
    | inl e ↦ absurd (cc (==→eq b x e, h, f.is_free))
  ]

  pub mapped-Safe : SafeStep w mapped
  unfolding set_pointer
  mapped-Safe = record {
    sound = (allocated w s small b hole f).sound;
    still_used = λ x h. bit-set_bit w.sbi.block_bitmap b x s.bytes ∙ rw (not_new x h) h;
    still_foreign = λ x h g i lt. elim (Bool-cases (w.pos / 512 == i)) [
      | inl e ↦ rw e (λ q. cc (q, ==_refl b, not_new x h))
      | inr e ↦ rw e (g i lt)
    ];
    others = λ x y h g. refl;
    same_layout = refl;
    same_inodes = refl;
    balanced = omega arith;
  }

  -- The block that was taken is given back.
  pub unmapped-Safe : SafeStep w (unmap_block true mapped)
  unfolding unmap_block drop_pointer set_pointer
  unmapped-Safe = record {
    sound = Sound-congr w.sbi _ w.disk _ same_bit same_pointer bytes refl refl refl refl s;
    still_used = λ x h. same_bit x ∙ h;
    still_foreign = λ x h g i lt. λ q. g i lt (sym (same_pointer i) ∙ q);
    others = λ x y h g. refl;
    same_layout = refl;
    same_inodes = refl;
    balanced = omega arith;
  }
    where
      i : ℕ
      i = w.pos / 512

      same_pointer : (j : ℕ) → update (update w.disk.i_block i b) i 0 j ≡ w.disk.i_block j
      same_pointer j = elim (Bool-cases (i == j)) [
        | inl e ↦ rw e (sym hole ∙ ap w.disk.i_block (==→eq i j e))
        | inr e ↦ rw e refl
      ]

      given : update w.disk.i_block i b i ≡ b
      given = rw (==_refl i) refl

      bytes : IsBytes (clear_bit (set_bit w.sbi.block_bitmap b) (update w.disk.i_block i b i))
      bytes = clear_bit-IsBytes _ _ (set_bit-IsBytes w.sbi.block_bitmap b s.bytes)

      same_bit :
          (x : ℕ)
          → bit (clear_bit (set_bit w.sbi.block_bitmap b) (update w.disk.i_block i b i)) x
            ≡ bit w.sbi.block_bitmap x
      same_bit x =
          bit-clear_bit _ _ x (set_bit-IsBytes w.sbi.block_bitmap b s.bytes)
          ∙ rw (given, bit-set_bit w.sbi.block_bitmap b x s.bytes)
              (elim (Bool-cases (b == x)) [
                | inl e ↦ rw e (sym f.is_free ∙ ap (bit w.sbi.block_bitmap) (==→eq b x e))
                | inr e ↦ rw e refl
              ])
