-- ===== src/Naive/Volume/Write.antt =====
-- `naive_file_write` (naive/naivefs_file.c) on a file of a volume.
use filesystem_lab.Base.{
  ℕ, ◌+◌, ◌≤◌, ◌<◌, ◌≡◌, ◌≢◌, ◌∙◌, refl, ap, true, false, arith, inl, inr, Bool-cases, some, ◌==◌,
  ==→eq, ==_refl, Result, ok, err, update,
}
use filesystem_lab.Base.Bytes.{Mem}
use filesystem_lab.Device.{Device}
use filesystem_lab.Naive.Layout.{SbInfo}
use filesystem_lab.Naive.Kernel.{Inode, Kernel}
use filesystem_lab.Naive.Entries.{Name}
use filesystem_lab.Naive.Files.{file_write}
use filesystem_lab.Naive.Files.Owned.{Owned}
use filesystem_lab.Naive.Files.Spread.{Foreign, Spread}
use filesystem_lab.Naive.Files.Others.{Apart, Owned-Spread, Apart-Spread}
use filesystem_lab.Naive.Files.Read.{Copies}
use filesystem_lab.Naive.Files.RoundTrip.{WriteAnswer, file_write_bytes}
use filesystem_lab.Naive.Session.{IsFileName, view}
use filesystem_lab.Naive.Volume.{Volume, write_call, perform}
use filesystem_lab.Naive.Volume.Consistent.{
  Live, Consistent, Stays, Apart-sym, view-kept, Sound-kept, Live-kept,
}

-- What a write does beside its file, whatever it returns.
record Around (sbi : SbInfo) (ino : Inode) (d : Device) (ino' : Inode) (sbi' : SbInfo) (d' : Device)
    : Type 0 where
  pub owned : Owned sbi' ino'
  pub spread : Spread sbi ino sbi' ino'
  pub others : (b : ℕ) → Foreign ino' b → d'.blocks b ≡ d.blocks b

WriteAnswer-Around :
    (sbi : SbInfo) (ino : Inode) (len pos : ℕ) (buf : Mem) (d : Device)
    (a : Result ℕ × ℕ × Inode × SbInfo × Device)
    → WriteAnswer sbi ino len pos buf d a
    → Around sbi ino d a.2 a.3 a.4
WriteAnswer-Around sbi ino len pos buf d (ok n, pos', ino', sbi', d') (_, _, owned, spread, w) =
    record { owned = owned; spread = spread; others = w.others }
WriteAnswer-Around sbi ino len pos buf d (err e, pos', ino', sbi', d')
      (_, _, owned, spread, _, _, same) =
    record { owned = owned; spread = spread; others = λ b _. ap (λ (z : Device). z.blocks b) same }

module _ (k : Kernel) (all : Copies k) (reads : (b : ℕ) → k.readable b ≡ true) (vol : Volume)
    (c : Consistent k vol) (s : Name) (w : IsFileName s) (n len pos : ℕ) (buf : Mem)
    (e : view k vol.base s ≡ some n) (limit : pos + len ≤ 4096) where
  live : Live k vol.base n
  live = record { name = s; is_name = w; entry = e }

  abbrev pub result : Result ℕ × ℕ × Inode × SbInfo × Device
  result = file_write k (vol.inode n) vol.base.sbi len pos buf vol.base.dev

  abbrev pub written : Volume
  written = record {
    base = record { sbi = result.3; dir = vol.base.dir; dev = result.4 };
    inode = update vol.inode n result.2;
  }

  pub write_is : perform k vol (write_call s n len pos buf) ≡ (result.0, written)
  unfolding perform
  write_is = refl

  pub answer : WriteAnswer vol.base.sbi (vol.inode n) len pos buf vol.base.dev result
  answer =
      file_write_bytes k all reads (vol.inode n) vol.base.sbi len pos buf vol.base.dev
        (c.owned n live) limit

  around : Around vol.base.sbi (vol.inode n) vol.base.dev result.2 result.3 result.4
  around = WriteAnswer-Around vol.base.sbi (vol.inode n) len pos buf vol.base.dev result answer

  off_dir' : Apart result.2 vol.base.dir
  off_dir' l lt =
      around.spread.still_foreign (vol.base.dir.block_pointers l) (c.sound.is_dir.in_use l lt)
        (Apart-sym vol.base.dir (vol.inode n) (c.off_dir n live) l lt)

  dir_kept :
      (l : ℕ)
      → l < vol.base.dir.block_count
      → result.4.blocks (vol.base.dir.block_pointers l)
        ≡ vol.base.dev.blocks (vol.base.dir.block_pointers l)
  dir_kept l lt = around.others (vol.base.dir.block_pointers l) (off_dir' l lt)

  pub written-view : (t : Name) → view k written.base t ≡ view k vol.base t
  written-view = view-kept k vol.base.sbi result.3 vol.base.dir vol.base.dev result.4 dir_kept

  was-Live : (m : ℕ) → Live k written.base m → Live k vol.base m
  was-Live = Live-kept k vol.base.sbi result.3 vol.base.dir vol.base.dev result.4 dir_kept

  -- Another file.
  module _ (m : ℕ) (other : Live k vol.base m) (ne : n ≢ m) where
    apart : Apart result.2 (vol.inode m)
    apart =
        Apart-Spread vol.base.sbi (vol.inode n) result.3 result.2 (vol.inode m) around.spread
          (c.owned m other) (c.apart n m live other ne)

    pub other_inode : written.inode m ≡ vol.inode m
    other_inode = let differs : (n == m) ≡ false = ground arith in rw differs refl

    pub other-Stays : Stays vol.base written.base (vol.inode m)
    other-Stays = record {
      owned =
          Owned-Spread vol.base.sbi (vol.inode n) result.3 result.2 (vol.inode m) around.owned.valid
            around.spread (c.owned m other);
      off_dir = c.off_dir m other;
      data_kept = λ j lt. around.others ((vol.inode m).block_pointers j) (apart j lt);
    }

  pub own_inode : written.inode n ≡ result.2
  own_inode = rw (==_refl n) refl

  written-Consistent : Consistent k written
  written-Consistent = record {
    sound =
        Sound-kept k vol.base.sbi result.3 vol.base.dir vol.base.dev result.4 dir_kept
          around.owned.valid (ap (λ z. z.inode_bitmap) around.spread.same_rest)
          (ap (λ z. z.inode_total) around.spread.same_rest) around.spread.still_used c.sound;
    number = λ m l. elim (Bool-cases (n == m)) [
      | inl q ↦ rw q (around.spread.same_number ∙ c.number n live ∙ ==→eq n m q)
      | inr q ↦ rw q (c.number m (was-Live m l))
    ];
    owned = λ m l. elim (Bool-cases (n == m)) [
      | inl q ↦ rw q around.owned
      | inr q ↦ rw q (other-Stays m (was-Live m l) (ground arith)).owned
    ];
    off_dir = λ m l. elim (Bool-cases (n == m)) [
      | inl q ↦ rw q (Apart-sym result.2 vol.base.dir off_dir')
      | inr q ↦ rw q (c.off_dir m (was-Live m l))
    ];
    apart = λ m m' l l' ne. elim (Bool-cases (n == m)) [
      | inl q ↦
          let q' : (n == m') ≡ false = ground arith in
          rw (q, q') (apart m' (was-Live m' l') (ground arith))
      | inr q ↦ elim (Bool-cases (n == m')) [
        | inl q' ↦
            rw (q, q') (Apart-sym result.2 (vol.inode m) (apart m (was-Live m l) (ground arith)))
        | inr q' ↦ rw (q, q') (c.apart m m' (was-Live m l) (was-Live m' l') ne)
      ]
    ];
  }

  pub write-Consistent : Consistent k (perform k vol (write_call s n len pos buf)).1
  write-Consistent = rw write_is written-Consistent
