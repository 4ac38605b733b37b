-- ===== src/Naive/Entries/Grow.antt =====
-- The new block of `naive_add_entry`: where its pointer goes and what the directory then has.
use filesystem_lab.Base.{
  ℕ, zero, suc, ◌+◌, ◌%◌, ◌^◌, ◌≤◌, ◌<◌, ◌≡◌, ◌≢◌, ◌∙◌, refl, ap, true, false, arith, inl, inr,
  Bool-cases, Bool, none, some, ◌==◌, ==_refl, update, ap₂, Option-cases,
}
use filesystem_lab.Base.Bytes.{Mem, memset, load32}
use filesystem_lab.Base.Bits.{bit}
use filesystem_lab.Naive.Layout.{SbInfo}
use filesystem_lab.Naive.Kernel.{Inode}
use filesystem_lab.Naive.Entries.{
  Name, record_ino, matches, first_record, free_record, find_record, put_pointer, new_dir_block,
}
use filesystem_lab.Naive.Entries.Record.{IsName}
use filesystem_lab.Naive.Entries.Find.{
  block_entry, find_entry, find_entry-congr, find_entry-pointers, find_entry-snoc, entry_of,
  or_else,
}
use filesystem_lab.Naive.Entries.Slots.{
  block_entry-write_record_other, block_entry-write_record_self, block_entry-none,
}

-- What a directory inode promises: its pointers stand first, and their blocks are marked as used.
pub record IsDir (sbi : SbInfo) (dir : Inode) : Type 0 where
  pub counted : dir.block_count ≤ 8
  pub is_present : (l : ℕ) → l < dir.block_count → dir.block_pointers l ≢ 0
  pub no_more : (l : ℕ) → dir.block_count ≤ l → dir.block_pointers l ≡ 0
  pub in_use : (l : ℕ) → l < dir.block_count → bit sbi.block_bitmap (dir.block_pointers l) ≡ true

abbrev pub with_pointer : ℕ → Inode → Inode
with_pointer b dir = record dir {
  block_pointers = update dir.block_pointers dir.block_count b;
  block_count = dir.block_count + 1;
}

put_pointer-from :
    (n i b : ℕ) (dir : Inode)
    → i ≤ dir.block_count
    → dir.block_count < i + n
    → ((l : ℕ) → l < dir.block_count → dir.block_pointers l ≢ 0)
    → dir.block_pointers dir.block_count ≡ 0
    → put_pointer n i b dir ≡ with_pointer b dir
unfolding put_pointer
put_pointer-from zero i b dir lo hi p z = absurd (omega arith)
put_pointer-from (suc n) i b dir lo hi p z = elim (Bool-cases (i == dir.block_count)) [
  | inl e ↦ let e' : i ≡ dir.block_count = ground arith in rw (e', z)
  | inr e ↦
      let f : (dir.block_pointers i == 0) ≡ false = ground (arith, p i) in
      rw f (put_pointer-from n (i + 1) b dir (ground arith) (omega arith) p z)
]

-- With room, the pointer goes behind the others.
pub put_pointer-room :
    (sbi : SbInfo) (b : ℕ) (dir : Inode)
    → IsDir sbi dir
    → dir.block_count < 8
    → put_pointer 8 0 b dir ≡ with_pointer b dir
put_pointer-room sbi b dir v h =
    put_pointer-from 8 0 b dir (omega arith) (omega arith) v.is_present
      (v.no_more dir.block_count (omega arith))

-- With 8 pointers in place nothing is recorded.
pub put_pointer-full :
    (n i b : ℕ) (dir : Inode)
    → ((l : ℕ) → i ≤ l → l < i + n → dir.block_pointers l ≢ 0)
    → put_pointer n i b dir ≡ dir
unfolding put_pointer
put_pointer-full zero i b dir p = refl
put_pointer-full (suc n) i b dir p =
    let f : (dir.block_pointers i == 0) ≡ false = ground (arith, p i (omega arith) (omega arith)) in
    rw f (put_pointer-full n (i + 1) b dir (λ l a c. p l (omega arith) (omega arith)))

pub zeroed_ino : (m : Mem) (l : ℕ) → l < 3 → record_ino (memset m 0 0 512) l ≡ 0
unfolding record_ino memset load32
zeroed_ino m l h = ground arith

zeroed_free : (m : Mem) → free_record (memset m 0 0 512) ≡ some 0
unfolding free_record first_record
zeroed_free m = rw (zeroed_ino m 0 (omega arith))

zeroed_find : (m : Mem) (t : Name) → find_record t (memset m 0 0 512) ≡ none
unfolding find_record first_record matches
zeroed_find m t =
    rw (zeroed_ino m 0 (omega arith), zeroed_ino m 1 (omega arith), zeroed_ino m 2 (omega arith))

-- The new block has the new entry and no other.
pub new_dir_block_self :
    (m : Mem) (ino : ℕ) (s : Name)
    → IsName s
    → ino % 2 ^ 32 ≢ 0
    → block_entry s (new_dir_block m ino s) ≡ some (ino % 2 ^ 32)
unfolding new_dir_block
new_dir_block_self m ino s v nz =
    block_entry-write_record_self (memset m 0 0 512) 0 ino s (zeroed_free m) v nz (zeroed_find m s)

pub new_dir_block_other :
    (m : Mem) (ino : ℕ) (s t : Name)
    → IsName s
    → IsName t
    → s ≢ t
    → block_entry t (new_dir_block m ino s) ≡ none
unfolding new_dir_block
new_dir_block_other m ino s t v w h =
    block_entry-write_record_other (memset m 0 0 512) 0 ino s t (zeroed_free m) v w h
    ∙ block_entry-none t (memset m 0 0 512) (zeroed_find m t)

one_pointer :
    (readable : ℕ → Bool) (t : Name) (blocks : ℕ → Mem) (p : ℕ → ℕ) (i : ℕ)
    → (p i == 0) ≡ false
    → readable (p i) ≡ true
    → find_entry readable t blocks p 1 i ≡ block_entry t (blocks (p i))
unfolding find_entry
one_pointer readable t blocks p i a b = elim (Option-cases (block_entry t (blocks (p i)))) [
  | inl e ↦ rw (a, b, e)
  | inr (x, e) ↦ rw (a, b, e)
]

-- A block `b` that the directory did not have, put behind its pointers with contents `m`.
pub entry_of-with_pointer :
    (readable : ℕ → Bool) (t : Name) (blocks : ℕ → Mem) (dir : Inode) (b : ℕ) (m : Mem)
    → ((l : ℕ) → l < dir.block_count → dir.block_pointers l ≢ b)
    → (b == 0) ≡ false
    → readable b ≡ true
    → entry_of readable t (update blocks b m) (with_pointer b dir)
      ≡ or_else (entry_of readable t blocks dir) (block_entry t m)
entry_of-with_pointer readable t blocks dir b m apart nz r =
    find_entry-snoc readable t blocks' p' n 0
    ∙ ap₂ or_else
        (find_entry-pointers readable t blocks' p' dir.block_pointers n 0 (λ l _ h. ground arith)
          ∙ find_entry-congr readable t blocks' blocks dir.block_pointers n 0
              (λ l _ h. ap (block_entry t) (ground (arith, apart l))))
        last
  where
    n : ℕ
    n = dir.block_count

    blocks' : ℕ → Mem
    blocks' = update blocks b m

    p' : ℕ → ℕ
    p' = update dir.block_pointers n b

    here : p' (0 + n) ≡ b
    here = ground arith

    last : find_entry readable t blocks' p' 1 (0 + n) ≡ block_entry t m
    last = one_pointer readable t blocks' p' (0 + n) (rw here nz) (rw here r) ∙ rw (here, ==_refl b)
