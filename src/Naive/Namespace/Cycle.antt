-- ===== src/Naive/Namespace/Cycle.antt =====
-- `naive_rmdir` after `naive_mkdir` (naive/naivefs_dir.c).
use filesystem_lab.Base.{
  ℕ, ◌-◌, ◌^◌, ◌%◌, ◌<◌, ◌≡◌, ◌≢◌, ◌∙◌, refl, sym, ap, true, false, arith, none, inl, inr,
  Bool-cases, ◌==◌, ==→eq, Result, ok, err, if◌then◌else◌,
}
use filesystem_lab.Base.Bits.{bit}
use filesystem_lab.Device.{Device}
use filesystem_lab.Naive.Layout.{SbInfo, IsValid}
use filesystem_lab.Naive.Kernel.{Inode, Kernel, is_dir, blank_inode}
use filesystem_lab.Naive.Alloc.{find_free_inode, alloc_block}
use filesystem_lab.Naive.Alloc.Inodes.{FreeInode}
use filesystem_lab.Naive.Entries.{Name}
use filesystem_lab.Naive.Entries.Record.{IsName}
use filesystem_lab.Naive.Entries.Find.{entry_of}
use filesystem_lab.Naive.Entries.Grow.{IsDir}
use filesystem_lab.Naive.Entries.Outcome.{AllUnique}
use filesystem_lab.Naive.Namespace.{mkdir, rmdir, new_dir_inode, directory_mode}
use filesystem_lab.Naive.Session.Invariant.{Name-cases}
use filesystem_lab.Naive.Namespace.Dots.{dots_others}
use filesystem_lab.Naive.Namespace.Mkdir.{MadeDir, mkdir_makes}
use filesystem_lab.Naive.Namespace.Rmdir.{RmdirAnswer, rmdir_removes, others}

-- What making and removing a directory leaves, from `sbi`, `dir` and `d` on.
pub record Cycled (k : Kernel) (s : Name) (sbi : SbInfo) (dir : Inode) (d : Device) (c : ℕ)
    (a : Result (Unit {0}) × SbInfo × Inode × Inode × Device) : Type 0 where
  pub answer : a.0 ≡ ok tt
  pub entries :
      (t : Name)
      → IsName t
      → entry_of k.readable t a.4.blocks a.2 ≡ entry_of k.readable t d.blocks dir
  pub numbers : (x : ℕ) → bit a.1.inode_bitmap x ≡ bit sbi.inode_bitmap x
  pub block_free : bit a.1.block_bitmap c ≡ false
  pub links : a.2.i_nlink ≡ dir.i_nlink

-- `naive_mkdir` and then `naive_rmdir` of the same name, when the first has a number, memory, two
-- blocks and readable blocks, in a directory with room, in which no name stands twice and the name,
-- which fits a record, has no entry, whose own number is not a multiple of 2 ^ 32, and whose pointers
-- stand first and are marked as used in a valid super block of fewer than 2 ^ 32 inodes, and when the
-- kernel gives the new inode the type of a directory: both return 0, and afterwards every name has the
-- entry that it had, the same inode numbers are in use, the block of the directory is free again, and
-- the parent has as many links as before.
pub rmdir-mkdir :
    (k : Kernel) (s : Name) (mode : ℕ) (sbi : SbInfo) (dir : Inode) (d : Device) (b c : ℕ)
    → ((x : ℕ) → k.readable x ≡ true)
    → k.allocates 0 ≡ true
    → (alloc_block sbi).0 ≡ ok c
    → (alloc_block (alloc_block sbi).1).0 ≡ ok b
    → find_free_inode sbi ≢ 0
    → IsValid sbi
    → sbi.inode_total < 2 ^ 32
    → IsDir sbi dir
    → dir.block_count < 8
    → IsName s
    → dir.i_ino % 2 ^ 32 ≢ 0
    → entry_of k.readable s d.blocks dir ≡ none
    → AllUnique d.blocks dir
    → is_dir (k.init_owner dir (directory_mode mode)).mode ≡ true
    → let (r, sbi', dir', d') = mkdir k s mode sbi dir d in
      let ino = new_dir_inode k dir mode (find_free_inode sbi) c in
      (r ≡ ok ino) × Cycled k s sbi dir d c (rmdir k s sbi' dir' ino d')
unfolding new_dir_inode blank_inode
rmdir-mkdir k s mode sbi dir d b c reads memory own more nz v few dv room name parent absent unique
      owner =
    (
      made.answer,
      removed (rmdir k s made_sbi made_dir ino made_dev) (
          rmdir_removes k s made_sbi made_dir ino made_dev reads name (made.unique unique s name)
            made.valid inside),
    )
  where
    n : ℕ
    n = find_free_inode sbi

    free : FreeInode sbi (find_free_inode sbi)
    free =
        (mkdir_makes k s mode sbi dir d b c reads memory own more nz v few dv room name parent
          absent).0

    made_sbi : SbInfo
    made_sbi = (mkdir k s mode sbi dir d).1

    made_dir : Inode
    made_dir = (mkdir k s mode sbi dir d).2

    made_dev : Device
    made_dev = (mkdir k s mode sbi dir d).3

    ino : Inode
    ino = new_dir_inode k dir mode (find_free_inode sbi) c

    made :
        MadeDir k s mode sbi dir d
          (find_free_inode sbi)
          c
          (mkdir k s mode sbi dir d).0
          made_sbi
          made_dir
          made_dev
    made =
        (mkdir_makes k s mode sbi dir d b c reads memory own more nz v few dv room name parent
          absent).1

    c_nz : c ≢ 0
    c_nz = omega (arith, made.in_data, v.after_bitmaps, v.table_fits)

    inside : (l : ℕ) → ino.block_pointers l < made_sbi.block_total
    inside l = elim (Bool-cases (0 == l)) [
      | inl e ↦ rw e made.in_device
      | inr e ↦ rw e (omega (arith, made.in_device))
    ]

    nothing_else : others ino made_dev.blocks ≡ 0
    nothing_else =
        let there : (c == 0) ≡ false = ground (arith, c_nz) in
        rw (there, made.block_is) (rw (dots_others (d.blocks c) n dir.i_ino) refl)

    same_numbers :
        (x : ℕ)
        → (if n - 1 == x then false else bit made_sbi.inode_bitmap x) ≡ bit sbi.inode_bitmap x
    same_numbers x = elim (Bool-cases (n - 1 == x)) [
      | inl e ↦ rw e (sym free.unused ∙ ap (bit sbi.inode_bitmap) (==→eq _ _ e))
      | inr e ↦ rw e (made.numbered x ∙ rw e refl)
    ]

    removed :
        (a : Result (Unit {0}) × SbInfo × Inode × Inode × Device)
        → RmdirAnswer k s made_sbi made_dir ino made_dev a
        → Cycled k s sbi dir d c a
    removed (ok _, sbi', dir', ino', d') (_, _, gone, dropped, less) = record {
      answer = refl;
      entries = λ t w. rw less (elim (Name-cases s t) [
        | inl q ↦ rw (← q) (gone.gone ∙ sym absent)
        | inr ne ↦ gone.keeps t w ne ∙ made.added.keeps t w ne
      ]);
      numbers = λ x. dropped.numbers x ∙ same_numbers x;
      block_free = dropped.blocks_free 0 (omega arith) c_nz;
      links = rw less (omega (arith, made.linked));
    }
    removed (err x, sbi', dir', ino', d') (refused, _, _, _, _) = elim refused [
      | inl (_, file) ↦ absurd (cc (file, owner))
      | inr (inl (_, _, full)) ↦ absurd (omega (arith, full, nothing_else))
      | inr (inr (_, _, none_there)) ↦ absurd (cc (none_there, made.added.has))
    ]
