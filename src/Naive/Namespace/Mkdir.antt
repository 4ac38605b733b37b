-- ===== src/Naive/Namespace/Mkdir.antt =====
-- `naive_mkdir` of naive/naivefs_dir.c.
use filesystem_lab.Base.{
  ℕ, ◌+◌, ◌-◌, ◌%◌, ◌^◌, ◌≤◌, ◌<◌, ◌≡◌, ◌≢◌, ◌∙◌, refl, sym, ap, true, false, arith, none, some,
  Bool, Option-cases, inl, inr, if◌then◌else◌, ◌==◌, ==_refl, Result, ok, update,
}
use filesystem_lab.Base.Bytes.{Mem}
use filesystem_lab.Base.Bits.{bit}
use filesystem_lab.Device.{Device, take_buffer, brelse, write_buffer, mark_buffer_dirty}
use filesystem_lab.Naive.Layout.{SbInfo, IsValid}
use filesystem_lab.Naive.Kernel.{Inode, Kernel, mark_inode_dirty, blank_inode}
use filesystem_lab.Naive.Alloc.{find_free_inode, alloc_block}
use filesystem_lab.Naive.Alloc.Inodes.{FreeInode, find_free_inode_free}
use filesystem_lab.Naive.Alloc.Blocks.{
  Allocated, alloc_block_ok, alloc_block-IsValid, inode_bitmap-alloc_block,
}
use filesystem_lab.Naive.Entries.{Name, add_entry}
use filesystem_lab.Naive.Entries.Record.{IsName}
use filesystem_lab.Naive.Entries.Find.{block_entry, entry_of, find_entry, find_entry-congr}
use filesystem_lab.Naive.Entries.Grow.{IsDir}
use filesystem_lab.Naive.Entries.Add.{Added, add_entry_adds}
use filesystem_lab.Naive.Entries.Keep.{KeepsNumbers, add_entry-KeepsNumbers}
use filesystem_lab.Naive.Entries.Unique.{Unique-congr}
use filesystem_lab.Naive.Files.Spread.{Spread}
use filesystem_lab.Naive.Volume.Directory.{add_entry-Spread}
use filesystem_lab.Naive.Entries.Outcome.{
  AllUnique, add_entry-Outcome, IsDir-more, alloc_block-keeps_bits,
}
use filesystem_lab.Naive.Entries.Frame.{add_entry-frame, i_nlink-add_entry}
use filesystem_lab.Naive.Namespace.Dots.{dots_block_entries}
use filesystem_lab.Naive.Namespace.{
  dots_block, dot, dotdot, mark_inode, new_dir_inode, link_dir, mkdir,
}
use filesystem_lab.Naive.Namespace.Create.{
  mark_inode-IsValid, mark_inode-IsDir, alloc_block-mark_inode, Numbered, add_entry-Numbered,
}

-- A directory with one block has the entries of that block.
pub one_block :
    (readable : ℕ → Bool) (t : Name) (blocks : ℕ → Mem) (p : ℕ → ℕ) (c : ℕ)
    → ((b : ℕ) → readable b ≡ true)
    → p 0 ≡ c
    → c ≢ 0
    → find_entry readable t blocks p 1 0 ≡ block_entry t (blocks c)
unfolding find_entry
one_block readable t blocks p c reads e nz =
    let there : (c == 0) ≡ false = ground arith in
    elim (Option-cases (block_entry t (blocks c))) [
      | inl q ↦ rw (e, there, reads c, q) refl
      | inr (x, q) ↦ rw (e, there, reads c, q) refl
    ]

-- What `naive_mkdir` with the inode number `ino` and the block `c` leaves: the answer `r`, the super
-- block `sbi'`, the parent `dir'` and the device `d'`.
pub record MadeDir (k : Kernel) (s : Name) (mode : ℕ) (sbi : SbInfo) (dir : Inode) (d : Device)
    (ino c : ℕ) (r : Result Inode) (sbi' : SbInfo) (dir' : Inode) (d' : Device) : Type 0 where
  pub answer : r ≡ ok (new_dir_inode k dir mode ino c)
  pub numbered : Numbered sbi ino sbi'
  pub added : Added k.readable s ino dir d dir' d'
  pub linked : dir'.i_nlink ≡ dir.i_nlink + 1
  pub has_dot : entry_of k.readable dot d'.blocks (new_dir_inode k dir mode ino c) ≡ some ino
  pub has_dotdot :
      entry_of k.readable dotdot d'.blocks (new_dir_inode k dir mode ino c)
      ≡ some (dir.i_ino % 2 ^ 32)
  pub valid : IsValid sbi'
  pub same_total : sbi'.inode_total ≡ sbi.inode_total
  pub in_data : sbi.data_block_no ≤ c
  pub block_used : bit sbi'.block_bitmap c ≡ true
  pub block_is : d'.blocks c ≡ dots_block (d.blocks c) ino dir.i_ino
  pub in_device : c < sbi'.block_total
  pub unique : AllUnique d.blocks dir → AllUnique d'.blocks dir'

module _ (k : Kernel) (s : Name) (mode : ℕ) (sbi : SbInfo) (dir : Inode) (d : Device) (b c : ℕ)
    (reads : (x : ℕ) → k.readable x ≡ true) (memory : k.allocates 0 ≡ true)
    (own_block : (alloc_block sbi).0 ≡ ok c) (more : (alloc_block (alloc_block sbi).1).0 ≡ ok b)
    (nz : find_free_inode sbi ≢ 0) (v : IsValid sbi) (few : sbi.inode_total < 2 ^ 32)
    (dv : IsDir sbi dir) (room : dir.block_count < 8) (name : IsName s)
    (parent : dir.i_ino % 2 ^ 32 ≢ 0) (absent : entry_of k.readable s d.blocks dir ≡ none) where
  ino : ℕ
  ino = find_free_inode sbi

  abbrev sbi1 : SbInfo
  sbi1 = (alloc_block sbi).1

  -- The device with the block of the new directory.
  abbrev d1 : Device
  d1 = brelse (
      mark_buffer_dirty c
        (write_buffer c (dots_block (d.blocks c) (find_free_inode sbi) dir.i_ino) (take_buffer d)))

  abbrev entered : Result (Unit {0}) × SbInfo × Inode × Device
  entered = add_entry k s (find_free_inode sbi) (mark_inode sbi1 (find_free_inode sbi)) dir d1

  free : FreeInode sbi (find_free_inode sbi)
  free = find_free_inode_free sbi nz

  given : Allocated sbi c sbi1
  given = alloc_block_ok sbi c v own_block

  valid1 : IsValid sbi1
  valid1 = alloc_block-IsValid sbi v

  foreign : (l : ℕ) → l < dir.block_count → dir.block_pointers l ≢ c
  foreign l lt e = cc (dv.in_use l lt, ap (bit sbi.block_bitmap) e, given.was_free)

  same_entries :
      (t : Name) → entry_of k.readable t d1.blocks dir ≡ entry_of k.readable t d.blocks dir
  unfolding brelse mark_buffer_dirty write_buffer take_buffer
  same_entries t =
      find_entry-congr k.readable t d1.blocks d.blocks dir.block_pointers dir.block_count 0
        (λ l _ lt.
          let other : (c == dir.block_pointers l) ≡ false =
            ground (arith, foreign l (omega arith)) in
          rw other refl)

  marked-IsValid : IsValid (mark_inode sbi1 (find_free_inode sbi))
  marked-IsValid = mark_inode-IsValid sbi1 (find_free_inode sbi) valid1

  marked-IsDir : IsDir (mark_inode sbi1 (find_free_inode sbi)) dir
  marked-IsDir =
      mark_inode-IsDir sbi1 (find_free_inode sbi) dir
        (IsDir-more sbi sbi1 dir dir (λ x. alloc_block-keeps_bits sbi x v) refl refl dv)

  numbers : KeepsNumbers (mark_inode sbi1 (find_free_inode sbi)) entered.1
  numbers =
      add_entry-KeepsNumbers k s (find_free_inode sbi) (mark_inode sbi1 (find_free_inode sbi)) dir
        marked-IsValid d1

  done : (entered.0 ≡ ok tt) × Added k.readable s (find_free_inode sbi) dir d1 entered.2 entered.3
  done =
      add_entry_adds k s (find_free_inode sbi) (mark_inode sbi1 (find_free_inode sbi)) dir d1 b
        reads (alloc_block-mark_inode sbi1 (find_free_inode sbi) ∙ more) marked-IsValid marked-IsDir
        room name free.numbered (omega (arith, free.in_table, few)) (same_entries s ∙ absent)

  spread : Spread (mark_inode sbi1 (find_free_inode sbi)) dir entered.1 entered.2
  spread =
      add_entry-Spread k s (find_free_inode sbi) (mark_inode sbi1 (find_free_inode sbi)) dir reads
        marked-IsValid marked-IsDir d1

  total_kept : entered.1.block_total ≡ sbi.block_total
  unfolding mark_inode
  total_kept =
      ap (λ (z : SbInfo). z.block_total) spread.same_rest
      ∙ ap (λ (z : SbInfo). z.block_total) given.rest

  still-Unique : AllUnique d.blocks dir → AllUnique entered.3.blocks entered.2
  unfolding brelse mark_buffer_dirty write_buffer take_buffer
  still-Unique u =
      (add_entry-Outcome k s (find_free_inode sbi) (mark_inode sbi1 (find_free_inode sbi)) dir d1
        reads marked-IsValid marked-IsDir name free.numbered (omega (arith, free.in_table, few))
        (same_entries s ∙ absent)
        (λ t w.
          Unique-congr t d.blocks d1.blocks dir
            (λ l lt.
              let other : (c == dir.block_pointers l) ≡ false = ground (arith, foreign l lt) in
              rw other refl)
            (u t w))).unique

  unshared : (x : ℕ) → (alloc_block sbi1).0 ≡ ok x → x ≢ c
  unshared x e q =
      cc ((alloc_block_ok sbi1 x valid1 e).was_free, ap (bit sbi1.block_bitmap) q, marked)
    where
      marked : bit sbi1.block_bitmap c ≡ true
      marked = given.marked c ∙ rw (==_refl c) refl

  kept : entered.3.blocks c ≡ dots_block (d.blocks c) (find_free_inode sbi) dir.i_ino
  unfolding brelse mark_buffer_dirty write_buffer take_buffer
  kept =
      add_entry-frame k s (find_free_inode sbi) c (mark_inode sbi1 (find_free_inode sbi)) dir d1
        foreign (λ x e. unshared x (sym (alloc_block-mark_inode sbi1 (find_free_inode sbi)) ∙ e))
      ∙ rw (==_refl c) refl

  entered_dir : Inode
  unfolding mark_inode_dirty
  entered_dir = mark_inode_dirty (record entered.2 { i_nlink = entered.2.i_nlink + 1 })

  mkdir_entered :
      mkdir k s mode sbi dir d
      ≡ (ok (new_dir_inode k dir mode (find_free_inode sbi) c), entered.1, entered_dir, entered.3)
  unfolding mkdir link_dir entered_dir
  mkdir_entered =
      let found : (find_free_inode sbi == 0) ≡ false = ground arith in
      rw (found, memory) (rw (own_block, mkdir) (rw (reads c) (rw (done.0, link_dir) refl)))

  -- The new directory has the entries of its block.
  own_entries :
      (t : Name)
      → entry_of k.readable t entered.3.blocks (new_dir_inode k dir mode (find_free_inode sbi) c)
        ≡ block_entry t (dots_block (d.blocks c) (find_free_inode sbi) dir.i_ino)
  unfolding new_dir_inode blank_inode
  own_entries t =
      one_block k.readable t entered.3.blocks (update (λ _. 0) 0 c) c reads refl
        (omega (arith, given.in_data, v.after_bitmaps, v.table_fits))
      ∙ ap (block_entry t) kept

  fits : find_free_inode sbi % 2 ^ 32 ≡ find_free_inode sbi
  fits = omega (arith, free.in_table, few)

  dots :
      let m = dots_block (d.blocks c) (find_free_inode sbi) dir.i_ino in
      (block_entry dot m ≡ some (find_free_inode sbi % 2 ^ 32))
      × (block_entry dotdot m ≡ some (dir.i_ino % 2 ^ 32))
  dots =
      dots_block_entries (d.blocks c) (find_free_inode sbi) dir.i_ino
        (omega (arith, fits, free.numbered)) parent

  -- `naive_mkdir` when a number is free, memory and two blocks can be had and the blocks can be read,
  -- in a directory with room and no entry for the name, which fits a record, whose own number is not a
  -- multiple of 2 ^ 32, and whose pointers stand first and are marked as used in a valid super block of
  -- fewer than 2 ^ 32 inodes: it returns a new directory with the lowest free number, marks exactly
  -- that number as used, adds exactly that name to the parent and one to the parent's links; the super
  -- block stays valid and has as many inodes; the block of the new directory is marked as used, and has
  -- the entry `.` with its own number and `..` with that of the parent.
  pub mkdir_makes :
      FreeInode sbi (find_free_inode sbi)
      × (let (r, sbi', dir', d') = mkdir k s mode sbi dir d in
          MadeDir k s mode sbi dir d (find_free_inode sbi) c r sbi' dir' d')
  unfolding entered_dir mark_inode_dirty
  mkdir_makes = (
    free,
    rw mkdir_entered (record {
      answer = refl;
      numbered = λ x.
          add_entry-Numbered k s (find_free_inode sbi) sbi1 dir d1 valid1 x
          ∙ ap (λ m. if find_free_inode sbi - 1 == x then true else bit m x)
              (inode_bitmap-alloc_block sbi);
      added = record { has = done.1.has; keeps = λ t w ne. done.1.keeps t w ne ∙ same_entries t };
      linked =
          ap (λ n. n + 1)
            (i_nlink-add_entry k s (find_free_inode sbi) (mark_inode sbi1 (find_free_inode sbi)) dir
              d1);
      has_dot = own_entries dot ∙ dots.0 ∙ ap some fits;
      has_dotdot = own_entries dotdot ∙ dots.1;
      valid = numbers.valid;
      same_total =
          numbers.total ∙ (unfold mark_inode in ap (λ (z : SbInfo). z.inode_total) given.rest);
      in_data = given.in_data;
      block_used = spread.still_used c (unfold mark_inode in given.marked c ∙ rw (==_refl c) refl);
      block_is = kept;
      in_device = omega (arith, given.in_device, total_kept);
      unique = still-Unique;
    }),
  )
