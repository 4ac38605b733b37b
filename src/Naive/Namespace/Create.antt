-- ===== src/Naive/Namespace/Create.antt =====
-- `naive_create` of naive/naivefs_inode.c.
use filesystem_lab.Base.{
  ℕ, ◌-◌, ◌^◌, ◌<◌, ◌≡◌, ◌≢◌, ◌∙◌, refl, ap, true, false, arith, if◌then◌else◌, inl, inr, ◌⊎◌, none,
  ◌==◌, ==_refl, Result, Result-cases, ok, err, Errno,
}
use filesystem_lab.Base.Bits.{bit, bit-set_bit, set_bit, set_bit-IsBytes}
use filesystem_lab.Device.{Device}
use filesystem_lab.Naive.Layout.{SbInfo, IsValid}
use filesystem_lab.Naive.Kernel.{Inode, Kernel}
use filesystem_lab.Naive.Alloc.{find_free_inode, alloc_block}
use filesystem_lab.Naive.Alloc.Inodes.{FreeInode, find_free_inode_free}
use filesystem_lab.Naive.Alloc.Blocks.{alloc_block-inode_bitmap}
use filesystem_lab.Naive.Entries.{Name, add_entry}
use filesystem_lab.Naive.Entries.Record.{IsName}
use filesystem_lab.Naive.Entries.Find.{entry_of}
use filesystem_lab.Naive.Entries.Grow.{IsDir}
use filesystem_lab.Naive.Entries.Add.{Added, add_entry_adds}
use filesystem_lab.Naive.Entries.Keep.{KeepsNumbers, add_entry-KeepsNumbers}
use filesystem_lab.Naive.Namespace.{create, mark_inode, new_file_inode}

pub mark_inode-IsValid : (sbi : SbInfo) (ino : ℕ) → IsValid sbi → IsValid (mark_inode sbi ino)
unfolding mark_inode
mark_inode-IsValid sbi ino v = record {
  after_bitmaps = v.after_bitmaps;
  table_fits = v.table_fits;
  data_fits = v.data_fits;
  block_bits = v.block_bits;
  inode_bits = v.inode_bits;
  block_bytes = v.block_bytes;
  inode_bytes = set_bit-IsBytes sbi.inode_bitmap (ino - 1) v.inode_bytes;
}

pub mark_inode-IsDir :
    (sbi : SbInfo) (ino : ℕ) (dir : Inode) → IsDir sbi dir → IsDir (mark_inode sbi ino) dir
unfolding mark_inode
mark_inode-IsDir sbi ino dir v = record {
  counted = v.counted;
  is_present = v.is_present;
  no_more = v.no_more;
  in_use = v.in_use;
}

pub alloc_block-mark_inode :
    (sbi : SbInfo) (ino : ℕ) → (alloc_block (mark_inode sbi ino)).0 ≡ (alloc_block sbi).0
unfolding mark_inode
alloc_block-mark_inode sbi ino = alloc_block-inode_bitmap sbi (set_bit sbi.inode_bitmap (ino - 1))

-- The inode numbers in use in `sbi'` are those of `sbi` and `ino`.
abbrev pub Numbered : SbInfo → ℕ → SbInfo → Type 0
Numbered sbi ino sbi' =
    (x : ℕ) → bit sbi'.inode_bitmap x ≡ (if ino - 1 == x then true else bit sbi.inode_bitmap x)

pub add_entry-Numbered :
    (k : Kernel) (s : Name) (ino : ℕ) (sbi : SbInfo) (dir : Inode) (d : Device)
    → IsValid sbi
    → Numbered sbi ino (add_entry k s ino (mark_inode sbi ino) dir d).1
add_entry-Numbered k s ino sbi dir d v x =
    ap (λ m. bit m x) kept.same
    ∙ (unfold mark_inode in bit-set_bit sbi.inode_bitmap (ino - 1) x v.inode_bytes)
  where
    kept : KeepsNumbers (mark_inode sbi ino) (add_entry k s ino (mark_inode sbi ino) dir d).1
    kept = add_entry-KeepsNumbers k s ino (mark_inode sbi ino) dir (mark_inode-IsValid sbi ino v) d

module _ (k : Kernel) (s : Name) (mode : ℕ) (sbi : SbInfo) (dir : Inode) (d : Device) where
  abbrev entered : Result (Unit {0}) × SbInfo × Inode × Device
  entered = add_entry k s (find_free_inode sbi) (mark_inode sbi (find_free_inode sbi)) dir d

  create_entered :
      find_free_inode sbi ≢ 0
      → k.allocates 0 ≡ true
      → entered.0 ≡ ok tt
      → create k s mode sbi dir d
        ≡ (ok (new_file_inode k dir mode (find_free_inode sbi)), entered.1, entered.2, entered.3)
  unfolding create
  create_entered nz a e =
      let f : (find_free_inode sbi == 0) ≡ false = ground arith in rw (f, a) (rw (e, create))

  create_failed :
      (x : Errno)
      → find_free_inode sbi ≢ 0
      → k.allocates 0 ≡ true
      → entered.0 ≡ err x
      → create k s mode sbi dir d ≡ (err x, entered.1, entered.2, entered.3)
  unfolding create
  create_failed x nz a e =
      let f : (find_free_inode sbi == 0) ≡ false = ground arith in rw (f, a) (rw (e, create))

-- `naive_create` when a number is free, memory and a block can be had and the blocks can be read,
-- in a directory with room and no entry for the name, which fits a record, whose pointers stand
-- first and are marked as used in a valid super block of fewer than 2 ^ 32 inodes: it returns a new inode with the lowest free
-- number, marks exactly that number as used, and adds exactly that name to the directory.
pub create_makes :
    (k : Kernel) (s : Name) (mode : ℕ) (sbi : SbInfo) (dir : Inode) (d : Device) (b : ℕ)
    → ((x : ℕ) → k.readable x ≡ true)
    → k.allocates 0 ≡ true
    → (alloc_block sbi).0 ≡ ok b
    → find_free_inode sbi ≢ 0
    → IsValid sbi
    → sbi.inode_total < 2 ^ 32
    → IsDir sbi dir
    → dir.block_count < 8
    → IsName s
    → entry_of k.readable s d.blocks dir ≡ none
    → let ino = find_free_inode sbi in
      let (r, sbi', dir', d') = create k s mode sbi dir d in
      (r ≡ ok (new_file_inode k dir mode ino))
      × FreeInode sbi ino
      × Numbered sbi ino sbi'
      × Added k.readable s ino dir d dir' d'
create_makes k s mode sbi dir d b r a e nz v small dv room name absent =
    rw (create_entered k s mode sbi dir d nz a added.0)
      (refl, free, add_entry-Numbered k s (find_free_inode sbi) sbi dir d v, added.1)
  where
    ino : ℕ
    ino = find_free_inode sbi

    free : FreeInode sbi (find_free_inode sbi)
    free = find_free_inode_free sbi nz

    added :
        let (r, _, dir', d') =
          add_entry k s (find_free_inode sbi) (mark_inode sbi (find_free_inode sbi)) dir d in
        (r ≡ ok tt) × Added k.readable s (find_free_inode sbi) dir d dir' d'
    added =
        add_entry_adds k s ino (mark_inode sbi ino) dir d b r (alloc_block-mark_inode sbi ino ∙ e)
          (mark_inode-IsValid sbi ino v) (mark_inode-IsDir sbi ino dir dv) room name free.numbered
          (omega (arith, free.in_table)) absent

-- When `naive_create` with a valid super block fails although a number is free and memory can be
-- had, which is after it has taken the number, the number is lost: its bit was clear and
-- stays set, though no inode was made.
pub failed_create_loses_number :
    (k : Kernel) (s : Name) (mode : ℕ) (sbi : SbInfo) (dir : Inode) (d : Device) (x : Errno)
    → IsValid sbi
    → find_free_inode sbi ≢ 0
    → k.allocates 0 ≡ true
    → (create k s mode sbi dir d).0 ≡ err x
    → (bit sbi.inode_bitmap (find_free_inode sbi - 1) ≡ false)
      × (bit (create k s mode sbi dir d).1.inode_bitmap (find_free_inode sbi - 1) ≡ true)
failed_create_loses_number k s mode sbi dir d x v nz a h =
    go (Result-cases (entered k s mode sbi dir d).0)
  where
    go :
        ((u : Unit {0}) × ((entered k s mode sbi dir d).0 ≡ ok u))
          ⊎ ((y : Errno) × ((entered k s mode sbi dir d).0 ≡ err y))
        → (bit sbi.inode_bitmap (find_free_inode sbi - 1) ≡ false)
          × (bit (create k s mode sbi dir d).1.inode_bitmap (find_free_inode sbi - 1) ≡ true)
    go (inl (_, e)) = absurd (
        cc (
          h,
          ap (λ (r : Result Inode × SbInfo × Inode × Device). r.0)
              (create_entered k s mode sbi dir d nz a e),
        ))
    go (inr (y, e)) = (
      (find_free_inode_free sbi nz).unused,
      rw (create_failed k s mode sbi dir d y nz a e) (
          add_entry-Numbered k s (find_free_inode sbi) sbi dir d v (find_free_inode sbi - 1)
          ∙ rw (==_refl (find_free_inode sbi - 1))),
    )
