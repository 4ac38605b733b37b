-- ===== src/Naive/Volume/Unlink.antt =====
-- `naive_unlink` (naive/naivefs_inode.c) of a file of a volume.
use filesystem_lab.Base.{
  ℕ, ◌<◌, ◌≡◌, ◌≢◌, ◌∙◌, refl, sym, ap, true, false, arith, inl, inr, lt_or_le, some, ◌==◌, ok,
  update,
}
use filesystem_lab.Naive.Kernel.{Inode, Kernel}
use filesystem_lab.Naive.Entries.{Name}
use filesystem_lab.Naive.Entries.Remove.{Removed}
use filesystem_lab.Naive.Namespace.{drop_inode}
use filesystem_lab.Naive.Namespace.Free.{Dropped, drop_inode-bounds}
use filesystem_lab.Naive.Files.Owned.{Owned}
use filesystem_lab.Naive.Session.{IsFileName, State, view}
use filesystem_lab.Naive.Session.Removed.{
  removed_state, unlink_drops, removed, dropped, still_there, removed-Sound,
}
use filesystem_lab.Naive.Volume.{Volume, unlink_call, perform}
use filesystem_lab.Naive.Volume.Directory.{remove_entry-frame}
use filesystem_lab.Naive.Volume.Consistent.{Live, Consistent, Stays}

module _ (k : Kernel) (reads : (b : ℕ) → k.readable b ≡ true) (vol : Volume) (c : Consistent k vol)
    (s : Name) (w : IsFileName s) (n : ℕ) (e : view k vol.base s ≡ some n) where
  live : Live k vol.base n
  live = record { name = s; is_name = w; entry = e }

  abbrev ino : Inode
  ino = vol.inode n

  owned : Owned vol.base.sbi ino
  owned = c.owned n live

  own_entry : view k vol.base s ≡ some ino.i_ino
  own_entry = e ∙ ap some (sym (c.number n live))

  inside : (l : ℕ) → ino.block_pointers l < vol.base.sbi.block_total
  inside l = elim (lt_or_le l ino.block_count) [
    | inl lt ↦ owned.in_device l lt
    | inr le ↦ omega (
      arith,
      owned.no_more l le,
      owned.valid.data_fits,
      owned.valid.after_bitmaps,
      owned.valid.table_fits,
    )
  ]

  apart_dir :
      (l l' : ℕ)
      → l < vol.base.dir.block_count
      → ino.block_pointers l' ≢ vol.base.dir.block_pointers l
  apart_dir l l' lt q = elim (lt_or_le l' ino.block_count) [
    | inl lt' ↦ c.off_dir n live l' lt' l lt (sym q)
    | inr le ↦ c.sound.is_dir.is_present l lt (sym q ∙ owned.no_more l' le)
  ]

  abbrev after : State
  after = removed_state k reads vol.base c.sound s w ino

  abbrev pub unlinked : Volume
  unlinked = record { base = after; inode = update vol.inode n (drop_inode vol.base.sbi ino).1 }

  pub unlink_is : perform k vol (unlink_call s n) ≡ (ok 0, unlinked)
  unfolding perform
  unlink_is = rw (unlink_drops k reads vol.base c.sound s w ino own_entry) refl

  pub gone : Removed k.readable s vol.base.dir vol.base.dev after.dev
  gone = removed k reads vol.base c.sound s w ino own_entry inside apart_dir

  freed : Dropped vol.base.sbi ino after.sbi (drop_inode vol.base.sbi ino).1
  freed = dropped k reads vol.base c.sound s w ino own_entry inside apart_dir

  -- Every other file.
  module _ (m : ℕ) (other : Live k vol.base m) (ne : n ≢ m) where
    pub other_inode : unlinked.inode m ≡ vol.inode m
    other_inode = let differs : (n == m) ≡ false = ground arith in rw differs refl

    pub other-Stays : Stays vol.base after (vol.inode m)
    other-Stays =
        let o = c.owned m other in
        let (total, first) = drop_inode-bounds vol.base.sbi ino in
        record {
          owned = record {
            valid = freed.valid;
            bounded = o.bounded;
            covers = o.covers;
            in_data = λ i lt. omega (arith, o.in_data i lt, first);
            in_device = λ i lt. omega (arith, o.in_device i lt, total);
            no_more = o.no_more;
            in_use = λ i lt.
                freed.other_blocks ((vol.inode m).block_pointers i) (c.apart n m live other ne i lt)
                ∙ o.in_use i lt;
            apart = o.apart;
          };
          off_dir = c.off_dir m other;
          data_kept = λ j lt.
              remove_entry-frame k s ((vol.inode m).block_pointers j) vol.base.dir vol.base.dev
                (c.off_dir m other j lt);
        }

  -- A file that is left was there, and is another one.
  was-Live : (m : ℕ) → Live k after m → (n ≢ m) × Live k vol.base m
  was-Live m l =
      let (ne, there) =
        still_there k reads vol.base c.sound s w ino own_entry inside apart_dir l.name m l.is_name
          l.entry in
      (
        λ q. ne (c.sound.one_name s l.name m w l.is_name (e ∙ ap some q) there),
        record { name = l.name; is_name = l.is_name; entry = there },
      )

  unlinked-Consistent : Consistent k unlinked
  unlinked-Consistent = record {
    sound = removed-Sound k reads vol.base c.sound s w ino own_entry inside apart_dir;
    number = λ m l. let (ne, was) = was-Live m l in rw (other_inode m was ne) (c.number m was);
    owned = λ m l.
        let (ne, was) = was-Live m l in rw (other_inode m was ne) (other-Stays m was ne).owned;
    off_dir = λ m l.
        let (ne, was) = was-Live m l in rw (other_inode m was ne) (other-Stays m was ne).off_dir;
    apart = λ m m' l l' differ.
        let (ne, was) = was-Live m l in
        let (ne', was') = was-Live m' l' in
        rw (other_inode m was ne, other_inode m' was' ne') (c.apart m m' was was' differ);
  }

  pub unlink-Consistent : Consistent k (perform k vol (unlink_call s n)).1
  unlink-Consistent = rw unlink_is unlinked-Consistent
