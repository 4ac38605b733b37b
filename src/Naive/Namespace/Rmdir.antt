-- ===== src/Naive/Namespace/Rmdir.antt =====
-- `naive_rmdir` of naive/naivefs_dir.c.
use filesystem_lab.Base.{
  ℕ, ◌-◌, ◌<◌, ◌≡◌, ◌∙◌, ◌⊎◌, refl, sym, ap, subst, true, false, none, Bool, Bool-cases, inl, inr,
  Result, Errno, ok, err, enoent, enotdir, enotempty,
}
use filesystem_lab.Base.Bytes.{Mem}
use filesystem_lab.Device.{Device}
use filesystem_lab.Naive.Layout.{SbInfo, IsValid}
use filesystem_lab.Naive.Kernel.{Inode, Kernel, is_dir, mark_inode_dirty}
use filesystem_lab.Naive.Entries.{Name, remove_entry}
use filesystem_lab.Naive.Entries.Record.{IsName}
use filesystem_lab.Naive.Entries.Find.{entry_of}
use filesystem_lab.Naive.Entries.Remove.{Unique, Removed, RemoveAnswer, remove_entry_removes}
use filesystem_lab.Naive.Namespace.{rmdir, remove_dir, empty_scan, drop_inode, other_record}
use filesystem_lab.Naive.Namespace.Free.{Dropped, drop_inode-Dropped}
use filesystem_lab.Naive.Namespace.Empty.{tally_blocks, EmptyAnswer, empty_scan-EmptyAnswer}

-- The records in use in the directory that are neither `.` nor `..`.
abbrev pub others : Inode → (ℕ → Mem) → ℕ
others ino blocks = tally_blocks other_record ino.block_pointers blocks ino.block_count 0

-- Why a call of `naive_rmdir` fails.
abbrev pub Refused : Kernel → Name → Inode → Inode → Device → Errno → Type 0
Refused k s dir ino d x =
    ((x ≡ enotdir) × (is_dir ino.i_mode ≡ false))
    ⊎ (((x ≡ enotempty) × (is_dir ino.i_mode ≡ true) × (0 < others ino d.blocks))
        ⊎ ((x ≡ enoent) × (others ino d.blocks ≡ 0) × (entry_of k.readable s d.blocks dir ≡ none)))

-- What a call of `naive_rmdir` answers, and what it did.
abbrev pub RmdirAnswer :
    Kernel
    → Name
    → SbInfo
    → Inode
    → Inode
    → Device
    → Result (Unit {0}) × SbInfo × Inode × Inode × Device
    → Type 0
RmdirAnswer k s sbi dir ino d (ok _, sbi', dir', ino', d') =
    (is_dir ino.i_mode ≡ true)
    × (others ino d.blocks ≡ 0)
    × Removed k.readable s dir d d'
    × Dropped sbi ino sbi' ino'
    × (dir' ≡ record dir { i_nlink = dir.i_nlink - 1; i_dirty = true })
RmdirAnswer k s sbi dir ino d (err x, sbi', dir', ino', d') =
    Refused k s dir ino d x × (sbi' ≡ sbi) × (dir' ≡ dir) × (ino' ≡ ino) × (d'.blocks ≡ d.blocks)

Removed-from :
    (readable : ℕ → Bool) (s : Name) (dir : Inode) (d e d' : Device)
    → e.blocks ≡ d.blocks
    → Removed readable s dir e d'
    → Removed readable s dir d d'
Removed-from readable s dir d e d' q r = record {
  had = λ z. r.had (ap (λ m. entry_of readable s m dir) q ∙ z);
  gone = r.gone;
  keeps = λ t w ne. r.keeps t w ne ∙ ap (λ m. entry_of readable t m dir) q;
}

-- `naive_rmdir` with readable blocks, for a name that stands in at most one record of the parent, of
-- an inode whose pointers lie inside the device of a valid super block. It returns 0 only for a
-- directory with no record but `.` and `..` whose name has an entry: then the entry is gone, every
-- other name stays, the blocks and the number of the inode and no others are free, the inode has no
-- blocks, links or bytes, and the parent has one link less. Otherwise it returns -ENOTDIR, -ENOTEMPTY
-- or -ENOENT for exactly that reason, and no inode, bitmap or block changed.
pub rmdir_removes :
    (k : Kernel) (s : Name) (sbi : SbInfo) (dir ino : Inode) (d : Device)
    → ((b : ℕ) → k.readable b ≡ true)
    → IsName s
    → Unique s d.blocks dir
    → IsValid sbi
    → ((l : ℕ) → ino.block_pointers l < sbi.block_total)
    → RmdirAnswer k s sbi dir ino d (rmdir k s sbi dir ino d)
unfolding rmdir remove_dir mark_inode_dirty
rmdir_removes k s sbi dir ino d reads name u v h = elim (Bool-cases (is_dir ino.i_mode)) [
  | inr file ↦ rw file (inl (refl, file), refl, refl, refl, refl)
  | inl directory ↦ rw directory (
      scanned directory (empty_scan k ino.block_pointers ino.block_count 0 d)
        (empty_scan-EmptyAnswer k ino.block_pointers ino.block_count 0 d reads))
]
  where
    removed :
        is_dir ino.i_mode ≡ true
        → others ino d.blocks ≡ 0
        → (e : Device) → e.blocks ≡ d.blocks
        → (a : Result (Unit {0}) × Device) → RemoveAnswer k s dir e a
        → RmdirAnswer k s sbi dir ino d (elim a.0 [
          | err x ↦ (err x, sbi, dir, ino, a.1)
          | ok _ ↦ (
            ok tt,
            (drop_inode sbi ino).0,
            mark_inode_dirty (record dir { i_nlink = dir.i_nlink - 1 }),
            (drop_inode sbi ino).1,
            a.1,
          )
        ])
    removed directory empty e q (ok _, d') gone = (
      directory,
      empty,
      Removed-from k.readable s dir d e d' q gone,
      drop_inode-Dropped sbi ino v h,
      refl,
    )
    removed directory empty e q (err x, d') (code, same, absent) = (
      inr (inr (code, empty, ap (λ m. entry_of k.readable s m dir) (sym q) ∙ absent)),
      refl,
      refl,
      refl,
      same ∙ q,
    )

    scanned :
        is_dir ino.i_mode ≡ true
        → (a : Result (Unit {0}) × Device) → EmptyAnswer (others ino d.blocks) d a
        → RmdirAnswer k s sbi dir ino d (elim a.0 [
          | err e ↦ (err e, sbi, dir, ino, a.1)
          | ok _ ↦ remove_dir k s sbi dir ino a.1
        ])
    scanned directory (ok _, e) (q, inl (empty, _)) =
        removed directory empty e q (remove_entry k s dir e)
          (remove_entry_removes k s dir e reads name (subst (λ m. Unique s m dir) (sym q) u))
    scanned directory (ok _, e) (q, inr (_, bad)) = absurd (cc bad)
    scanned directory (err x, e) (q, inl (_, good)) = absurd (cc good)
    scanned directory (err x, e) (q, inr (more, bad)) =
        (inr (inl (cc bad, directory, more)), refl, refl, refl, q)
