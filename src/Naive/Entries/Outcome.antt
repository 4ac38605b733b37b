-- ===== src/Naive/Entries/Outcome.antt =====
-- Every way in which `naive_add_entry` of naive/naivefs_dir.c ends when blocks can be read.
use filesystem_lab.Base.{
  ℕ, ◌^◌, ◌≤◌, ◌<◌, ◌≡◌, ◌≢◌, ◌∙◌, ◌⊎◌, refl, ap, true, false, arith, inl, inr, Bool, Option, none,
  some, ◌==◌, update, Result, Result-cases, ok, err, Errno, enospc, lt_or_le,
}
use filesystem_lab.Base.Bytes.{Mem}
use filesystem_lab.Base.Bits.{bit}
use filesystem_lab.Device.{Device, take_buffer, brelse, write_buffer, mark_buffer_dirty}
use filesystem_lab.Naive.Layout.{SbInfo, IsValid}
use filesystem_lab.Naive.Kernel.{Inode, Kernel, mark_inode_dirty}
use filesystem_lab.Naive.Alloc.{alloc_block, search_block, mark_block}
use filesystem_lab.Naive.Alloc.Blocks.{Allocated, alloc_block_ok}
use filesystem_lab.Naive.Entries.{
  Name, found, exhausted, add_scan, put_pointer, new_dir_block, grow_dir, add_entry,
}
use filesystem_lab.Naive.Entries.Record.{IsName}
use filesystem_lab.Naive.Entries.Find.{block_entry, find_entry, find_entry-congr, entry_of}
use filesystem_lab.Naive.Entries.Search.{add_scan-kept, add_scan-readable}
use filesystem_lab.Naive.Entries.Grow.{IsDir, with_pointer, put_pointer-room, put_pointer-full}
use filesystem_lab.Naive.Entries.Add.{
  Added, Scan-cases, found-Added, grown, grown-Added, add_entry_found, add_entry_grow, grow_dir_ok,
}
use filesystem_lab.Naive.Entries.Remove.{Unique}
use filesystem_lab.Naive.Entries.Unique.{OneMore-Unique, Unique-congr}
use filesystem_lab.Naive.Entries.Slot.{add_scan-Slot, Slot-OneMore, with_pointer-OneMore}

abbrev pub AllUnique : (ℕ → Mem) → Inode → Type 0
AllUnique blocks dir = (t : Name) → IsName t → Unique t blocks dir

-- Every name has the entry that it had.
abbrev pub SameEntries : (ℕ → Bool) → Inode → Device → Inode → Device → Type 0
SameEntries readable dir d dir' d' =
    (t : Name) → IsName t → entry_of readable t d'.blocks dir' ≡ entry_of readable t d.blocks dir

-- What a call with the answer `r` leaves. The call that returned 0 has made the entry, unless the
-- directory had 8 blocks and no free record.
pub record AddOutcome (readable : ℕ → Bool) (s : Name) (ino : ℕ) (dir : Inode) (d : Device)
    (r : Result (Unit {0})) (sbi' : SbInfo) (dir' : Inode) (d' : Device) : Type 0 where
  pub is_dir : IsDir sbi' dir'
  pub unique : AllUnique d'.blocks dir'
  pub entries :
      ((r ≡ ok tt) × Added readable s ino dir d dir' d')
      ⊎ (SameEntries readable dir d dir' d' × ((r ≢ ok tt) ⊎ (8 ≤ dir.block_count)))

err_keeps :
    (sbi : SbInfo) (x : ℕ) (y : Errno)
    → bit sbi.block_bitmap x ≡ true
    → (o : Option ℕ)
    → let a : Result ℕ × SbInfo = elim o [
      | none ↦ (err enospc, sbi)
      | some b ↦ (ok b, mark_block sbi b)
    ] in
      a.0 ≡ err y → bit a.1.block_bitmap x ≡ true
err_keeps sbi x y h none q = h
err_keeps sbi x y h (some b) q = absurd (cc q)

-- Allocation leaves used blocks used.
pub alloc_block-keeps_bits :
    (sbi : SbInfo) (x : ℕ)
    → IsValid sbi
    → bit sbi.block_bitmap x ≡ true
    → bit (alloc_block sbi).1.block_bitmap x ≡ true
unfolding alloc_block
alloc_block-keeps_bits sbi x v h = elim (Result-cases (alloc_block sbi).0) [
  | inl (b, e) ↦ (alloc_block_ok sbi b v e).marked x ∙ ground arith
  | inr (y, e) ↦ err_keeps sbi x y h (search_block sbi) e
]

pub IsDir-more :
    (sbi sbi' : SbInfo) (dir dir' : Inode)
    → ((x : ℕ) → bit sbi.block_bitmap x ≡ true → bit sbi'.block_bitmap x ≡ true)
    → dir'.block_count ≡ dir.block_count
    → dir'.block_pointers ≡ dir.block_pointers
    → IsDir sbi dir
    → IsDir sbi' dir'
IsDir-more sbi sbi' dir dir' more n p v = record {
  counted = rw n v.counted;
  is_present = λ l lt. rw p (v.is_present l (rw n at lt));
  no_more = λ l le. rw p (v.no_more l (rw n at le));
  in_use = λ l lt. rw p (more (dir.block_pointers l) (v.in_use l (rw n at lt)));
}

module _ (k : Kernel) (s : Name) (ino : ℕ) (sbi : SbInfo) (dir : Inode) (d : Device)
    (reads : (x : ℕ) → k.readable x ≡ true) (valid : IsValid sbi) (v : IsDir sbi dir)
    (name : IsName s) (pos : 0 < ino) (small : ino < 2 ^ 32)
    (absent : entry_of k.readable s d.blocks dir ≡ none) (u : AllUnique d.blocks dir) where
  abbrev Outcome : Result (Unit {0}) × SbInfo × Inode × Device → Type 0
  Outcome a = AddOutcome k.readable s ino dir d a.0 a.1 a.2 a.3

  in_slot :
      (add_scan k s ino dir.block_pointers dir.block_count 0 d).0 ≡ found
      → Outcome (add_entry k s ino sbi dir d)
  in_slot f = rw (add_entry_found k s ino sbi dir d f) (record {
    is_dir = v;
    unique = λ t w.
        OneMore-Unique k.readable s t d.blocks
          (add_scan k s ino dir.block_pointers dir.block_count 0 d).1.blocks dir dir _ _ reads
          v.is_present absent
          (Slot-OneMore s ino dir d.blocks _ name
            (add_scan-Slot k s ino dir.block_pointers dir.block_count 0 d reads f))
          w (u t w);
    entries = inl (refl, found-Added k s ino sbi dir d name pos small absent f);
  })

  module _ (f : (add_scan k s ino dir.block_pointers dir.block_count 0 d).0 ≡ exhausted) where
    same : (add_scan k s ino dir.block_pointers dir.block_count 0 d).1.blocks ≡ d.blocks
    same = add_scan-kept k s ino dir.block_pointers dir.block_count 0 d (λ g. cc (f, g))

    no_space : (x : Errno) → (alloc_block sbi).0 ≡ err x → Outcome (add_entry k s ino sbi dir d)
    unfolding grow_dir
    no_space x e = rw (add_entry_grow k s ino sbi dir d f) (
        rw (e, grow_dir)
          (record {
            is_dir = IsDir-more sbi _ dir dir (λ y. alloc_block-keeps_bits sbi y valid) refl refl v;
            unique = λ t w.
                Unique-congr t d.blocks
                  (add_scan k s ino dir.block_pointers dir.block_count 0 d).1.blocks dir
                  (λ l lt. ap (λ (g : ℕ → Mem). g (dir.block_pointers l)) same) (u t w);
            entries = inr (
              λ t w.
                  ap
                    (λ (g : ℕ → Mem).
                      find_entry k.readable t g dir.block_pointers dir.block_count 0)
                    same,
              inl (λ q. cc q),
            );
          }))

    a_block : (b : ℕ) → (alloc_block sbi).0 ≡ ok b → Allocated sbi b (alloc_block sbi).1
    a_block b e = alloc_block_ok sbi b valid e

    apart :
        (b : ℕ)
        → (alloc_block sbi).0 ≡ ok b
        → (l : ℕ) → l < dir.block_count
        → dir.block_pointers l ≢ b
    apart b e l lt q = cc (v.in_use l lt, ap (bit sbi.block_bitmap) q, (a_block b e).was_free)

    abbrev after : ℕ → ℕ → Mem
    after b =
        let old = (add_scan k s ino dir.block_pointers dir.block_count 0 d).1.blocks in
        update old b (new_dir_block (old b) ino s)

    after_is : (b : ℕ) → after b ≡ update d.blocks b (new_dir_block (d.blocks b) ino s)
    after_is b = ap (λ (g : ℕ → Mem). update g b (new_dir_block (g b) ino s)) same

    kept :
        (b : ℕ)
        → (alloc_block sbi).0 ≡ ok b
        → (l : ℕ) → l < dir.block_count
        → after b (dir.block_pointers l) ≡ d.blocks (dir.block_pointers l)
    kept b e l lt =
        let other : (b == dir.block_pointers l) ≡ false = ground (arith, apart b e l lt) in
        rw other (ap (λ (g : ℕ → Mem). g (dir.block_pointers l)) same)

    with_pointer-IsDir :
        (b : ℕ)
        → (alloc_block sbi).0 ≡ ok b
        → dir.block_count < 8
        → IsDir (alloc_block sbi).1 (put_pointer 8 0 b dir)
    with_pointer-IsDir b e room = rw (put_pointer-room sbi b dir v room) (record {
      counted = omega arith;
      is_present = λ l lt.
          ground
            (arith, v.is_present l, (a_block b e).in_data, valid.after_bitmaps, valid.table_fits);
      no_more = λ l le. ground (arith, v.no_more l);
      in_use = λ l lt. (a_block b e).marked _ ∙ ground (arith, v.in_use l);
    })

    in_new :
        (b : ℕ)
        → (alloc_block sbi).0 ≡ ok b
        → dir.block_count < 8
        → Outcome (add_entry k s ino sbi dir d)
    unfolding grown mark_inode_dirty brelse mark_buffer_dirty write_buffer take_buffer
    in_new b e room =
        rw (add_entry_grow k s ino sbi dir d f, grow_dir_ok k s ino sbi dir d b e (reads b))
          (record {
            is_dir =
                IsDir-more (alloc_block sbi).1 _ (put_pointer 8 0 b dir) _ (λ _ h. h) refl refl
                  (with_pointer-IsDir b e room);
            unique = λ t w. rw (put_pointer-room sbi b dir v room) (
                OneMore-Unique k.readable s t d.blocks (after b) dir (with_pointer b dir) b 0 reads
                  v.is_present absent
                  (with_pointer-OneMore s ino dir d.blocks (after b) b name (apart b e)
                    (after_is b))
                  w (u t w));
            entries = inl (
              refl,
              grown-Added k s ino sbi dir d b valid v room name pos small absent (λ g. cc (f, g)) e
                  (reads b),
            );
          })

    in_none :
        (b : ℕ)
        → (alloc_block sbi).0 ≡ ok b
        → 8 ≤ dir.block_count
        → Outcome (add_entry k s ino sbi dir d)
    unfolding grown mark_inode_dirty brelse mark_buffer_dirty write_buffer take_buffer
    in_none b e full =
        rw (add_entry_grow k s ino sbi dir d f, grow_dir_ok k s ino sbi dir d b e (reads b))
          (rw (put_pointer-full 8 0 b dir (λ l _ lt. v.is_present l (omega (arith, full))))
            (record {
              is_dir = IsDir-more sbi _ dir _ (λ y. alloc_block-keeps_bits sbi y valid) refl refl v;
              unique = λ t w. Unique-congr t d.blocks (after b) dir (kept b e) (u t w);
              entries = inr (
                λ t w.
                    find_entry-congr k.readable t (after b) d.blocks dir.block_pointers
                      dir.block_count 0 (λ l _ lt. ap (block_entry t) (kept b e l (omega arith))),
                inr full,
              );
            }))

  pub add_entry-Outcome : Outcome (add_entry k s ino sbi dir d)
  add_entry-Outcome =
      elim (Scan-cases (add_scan k s ino dir.block_pointers dir.block_count 0 d).0) [
        | inl bad ↦
            absurd (add_scan-readable k s ino dir.block_pointers reads dir.block_count 0 d bad)
        | inr (inl f) ↦ in_slot f
        | inr (inr f) ↦ elim (Result-cases (alloc_block sbi).0) [
          | inr (x, e) ↦ no_space f x e
          | inl (b, e) ↦ elim (lt_or_le dir.block_count 8) [
            | inl room ↦ in_new f b e room
            | inr full ↦ in_none f b e full
          ]
        ]
      ]
