-- ===== src/Naive/Volume/Mkdir.antt =====
-- The directory that `naive_mkdir` (naive/naivefs_dir.c) makes, as a volume.
use filesystem_lab.Base.{
  ℕ, ◌^◌, ◌%◌, ◌<◌, ◌≡◌, ◌≢◌, ◌∙◌, ◌⊎◌, refl, sym, ap, true, false, arith, inl, inr, Option-cases,
  ◌==◌, none, ok, update,
}
use filesystem_lab.Base.Bytes.{Mem}
use filesystem_lab.Base.Bits.{bit}
use filesystem_lab.Device.{Device}
use filesystem_lab.Naive.Layout.{SbInfo, IsValid}
use filesystem_lab.Naive.Kernel.{Inode, Kernel, blank_inode}
use filesystem_lab.Naive.Alloc.{find_free_inode, alloc_block}
use filesystem_lab.Naive.Entries.{Name, find_record, matches}
use filesystem_lab.Naive.Entries.Record.{IsName}
use filesystem_lab.Naive.Entries.Find.{block_entry, entry_of}
use filesystem_lab.Naive.Entries.Slots.{first_record-some}
use filesystem_lab.Naive.Entries.Grow.{IsDir}
use filesystem_lab.Naive.Entries.Remove.{Unique}
use filesystem_lab.Naive.Namespace.{dots_block, dot, dotdot, new_dir_inode, mkdir}
use filesystem_lab.Naive.Namespace.Dots.{dots_matches}
use filesystem_lab.Naive.Namespace.Mkdir.{MadeDir, mkdir_makes, one_block}
use filesystem_lab.Naive.Session.{IsFileName, State, view}
use filesystem_lab.Naive.Session.Invariant.{Sound}
use filesystem_lab.Naive.Volume.{Volume}
use filesystem_lab.Naive.Volume.Consistent.{Live, Consistent}
use filesystem_lab.Naive.Volume.Spec.{files}

-- A directory with the one block `c`, whose records are `.` and `..`.
module _ (k : Kernel) (reads : (b : ℕ) → k.readable b ≡ true) (st : State) (c : ℕ) (m : Mem)
    (ino parent : ℕ) (nz : c ≢ 0) (count : st.dir.block_count ≡ 1)
    (pointers : st.dir.block_pointers ≡ update (λ _. 0) 0 c)
    (block_is : st.dev.blocks c ≡ dots_block m ino parent) where
  no_entry : (t : Name) → IsFileName t → block_entry t (dots_block m ino parent) ≡ none
  unfolding block_entry
  no_entry t w = elim (Option-cases (find_record t (dots_block m ino parent))) [
    | inl e ↦ rw (e, block_entry) refl
    | inr (j, e) ↦
        let p =
          first_record-some (matches t (dots_block m ino parent)) 3 0 j (unfold find_record in e) in
        elim (dots_matches m ino parent j t w.is_name (omega (arith, p.before)) p.passes) [
          | inl (_, q) ↦ absurd (w.not_dot (sym q))
          | inr (_, q) ↦ absurd (w.not_dotdot (sym q))
        ]
  ]

  no_file : (t : Name) → IsFileName t → view k st t ≡ none
  unfolding view
  no_file t w = rw count (
      one_block k.readable t st.dev.blocks st.dir.block_pointers c reads (rw pointers refl) nz
      ∙ ap (block_entry t) block_is
      ∙ no_entry t w)

  only_pointer : (l : ℕ) → l < st.dir.block_count → st.dir.block_pointers l ≡ c
  only_pointer l lt = let first : l ≡ 0 = omega (arith, count) in rw (pointers, first) refl

  one_each : (t : Name) → IsName t → Unique t st.dev.blocks st.dir
  one_each t w l l' j j' lt lt' jt jt' h h' =
      (only_pointer l lt ∙ sym (only_pointer l' lt'), same (hit l j lt jt h) (hit l' j' lt' jt' h'))
    where
      hit :
          (l j : ℕ)
          → l < st.dir.block_count
          → j < 3
          → matches t (st.dev.blocks (st.dir.block_pointers l)) j ≡ true
          → ((j ≡ 0) × (dot ≡ t)) ⊎ ((j ≡ 1) × (dotdot ≡ t))
      hit l j lt jt h = dots_matches m ino parent j t w jt (rw (only_pointer l lt, block_is) at h)

      same :
          ((j ≡ 0) × (dot ≡ t)) ⊎ ((j ≡ 1) × (dotdot ≡ t))
          → ((j' ≡ 0) × (dot ≡ t)) ⊎ ((j' ≡ 1) × (dotdot ≡ t))
          → j ≡ j'
      same (inl (a, _)) (inl (b, _)) = a ∙ sym b
      same (inr (a, _)) (inr (b, _)) = a ∙ sym b
      same (inl (_, p)) (inr (_, q)) = absurd (cc (p, q))
      same (inr (_, p)) (inl (_, q)) = absurd (cc (p, q))

  dots-Sound :
      IsValid st.sbi → st.sbi.inode_total < 2 ^ 32 → bit st.sbi.block_bitmap c ≡ true → Sound k st
  dots-Sound valid few used = record {
    valid = valid;
    few = few;
    is_dir = record {
      counted = omega (arith, count);
      is_present = λ l lt. rw (only_pointer l lt) nz;
      no_more =
          λ l le. let later : (0 == l) ≡ false = ground (arith, count) in rw (pointers, later) refl;
      in_use = λ l lt. rw (only_pointer l lt) used;
    };
    unique = one_each;
    numbered = λ t n w e. absurd (cc (e, no_file t w));
    one_name = λ t u n w x e f. absurd (cc (e, no_file t w));
  }

-- `naive_mkdir` when a number is free, memory and two blocks can be had and the blocks can be read,
-- in a directory with room and no entry for the name, which fits a record, whose own number is not a
-- multiple of 2 ^ 32, and whose pointers stand first and are marked as used in a valid super block of
-- fewer than 2 ^ 32 inodes: the directory that it makes is a consistent volume, and it has no file.
pub mkdir-Consistent :
    (k : Kernel) (s : Name) (mode : ℕ) (sbi : SbInfo) (dir : Inode) (d : Device) (b c : ℕ)
    → ((x : ℕ) → k.readable x ≡ true)
    → k.allocates 0 ≡ true
    → (alloc_block sbi).0 ≡ ok c
    → (alloc_block (alloc_block sbi).1).0 ≡ ok b
    → find_free_inode sbi ≢ 0
    → IsValid sbi
    → sbi.inode_total < 2 ^ 32
    → IsDir sbi dir
    → dir.block_count < 8
    → IsName s
    → dir.i_ino % 2 ^ 32 ≢ 0
    → entry_of k.readable s d.blocks dir ≡ none
    → (inodes : ℕ → Inode)
    → let (r, sbi', _, d') = mkdir k s mode sbi dir d in
      let ino = new_dir_inode k dir mode (find_free_inode sbi) c in
      let vol : Volume = record {
        base = record { sbi = sbi'; dir = ino; dev = d' };
        inode = inodes;
      } in
      (r ≡ ok ino) × Consistent k vol × ((t : Name) → IsFileName t → (files k vol).file t ≡ none)
unfolding files new_dir_inode blank_inode
mkdir-Consistent k s mode sbi dir d b c reads memory own more nz v few dv room name parent absent
      inodes =
    (
      made.answer,
      record {
        sound =
            dots-Sound k reads new c (d.blocks c) n dir.i_ino c_nz refl refl made.block_is
              made.valid (rw made.same_total few) made.block_used;
        number = λ x l. absurd (nobody x l);
        owned = λ x l. absurd (nobody x l);
        off_dir = λ x l. absurd (nobody x l);
        apart = λ x y l. absurd (nobody x l);
      },
      λ t w. rw (empty t w) refl,
    )
  where
    n : ℕ
    n = find_free_inode sbi

    made :
        MadeDir k s mode sbi dir d
          (find_free_inode sbi)
          c
          (mkdir k s mode sbi dir d).0
          (mkdir k s mode sbi dir d).1
          (mkdir k s mode sbi dir d).2
          (mkdir k s mode sbi dir d).3
    made =
        (mkdir_makes k s mode sbi dir d b c reads memory own more nz v few dv room name parent
          absent).1

    new : State
    new = record {
      sbi = (mkdir k s mode sbi dir d).1;
      dir = new_dir_inode k dir mode (find_free_inode sbi) c;
      dev = (mkdir k s mode sbi dir d).3;
    }

    c_nz : c ≢ 0
    c_nz = omega (arith, made.in_data, v.after_bitmaps, v.table_fits)

    empty : (t : Name) → IsFileName t → view k new t ≡ none
    empty = no_file k reads new c (d.blocks c) n dir.i_ino c_nz refl refl made.block_is

    nobody : (x : ℕ) → ¬ (Live k new x)
    nobody x l = cc (l.entry, empty l.name l.is_name)
