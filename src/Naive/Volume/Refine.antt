-- ===== src/Naive/Volume/Refine.antt =====
-- The calls on a volume of naive/ against the abstract file system.
use filesystem_lab.Base.{
  ℕ, ◌-◌, ◌+◌, ◌<◌, ◌≡◌, ◌∙◌, refl, true, List, Result, ok, min, some, arith, ltb,
}
use filesystem_lab.Base.Bytes.{Mem}
use filesystem_lab.Naive.Kernel.{Kernel}
use filesystem_lab.Naive.Entries.{Name}
use filesystem_lab.Naive.Files.{file_read}
use filesystem_lab.Naive.Files.Owned.{content}
use filesystem_lab.Naive.Files.Read.{Copies, file_read_bytes}
use filesystem_lab.Naive.Session.{IsFileName, view}
use filesystem_lab.Naive.Volume.{Volume, Call, perform, Reach, here, next}
use filesystem_lab.Naive.Volume.Consistent.{Consistent}
use filesystem_lab.Naive.Volume.Spec.{Content, files, FilesReach, start, next_call}
use filesystem_lab.Naive.Volume.Effects.{perform-Consistent, perform-Effect}

module _ (k : Kernel) (all : Copies k) (reads : (b : ℕ) → k.readable b ≡ true) where
  -- After any sequence of `naive_create` of names that the directory does not have, `naive_unlink` of
  -- names that it has and `naive_file_write` within 8 blocks to files that it has, on a disk that can
  -- be read, with no fault in user memory: a volume that was consistent is consistent. That is, no
  -- name stands in two records, the directory's blocks are in use, each name but `.` and `..` has an
  -- inode number of its own that is in use, the inode of each file has its number, the blocks of each
  -- file are in use, stand once in it and hold its size, and no block belongs to two files or to a
  -- file and the directory.
  pub Reach-Consistent :
      {vol vol' : Volume} {h : List (Call × Result ℕ)}
      → Consistent k vol
      → Reach k vol h vol'
      → Consistent k vol'
  Reach-Consistent c here = c
  Reach-Consistent c (next {h} {vol'} r a allowed) =
      perform-Consistent k all reads vol' (Reach-Consistent c r) a allowed

  -- Any sequence of `naive_create` of names that the directory does not have, `naive_unlink` of names
  -- that it has and `naive_file_write` within 8 blocks to files that it has, from a consistent volume,
  -- on a disk that can be read, with no fault in user memory: the calls with their answers are calls of
  -- the abstract file system that maps names other than `.` and `..` to files of bytes. A create that
  -- returns 0 makes an empty file, unless the directory has 8 blocks, when it may change no file, and
  -- one that fails changes no file. An unlink returns 0 and takes the file away. A write returns the
  -- count of all its bytes and changes those bytes and the size, or returns -ENOSPC and changes no
  -- file. Every other file keeps its size and its bytes.
  pub Reach-FilesReach :
      {vol vol' : Volume} {h : List (Call × Result ℕ)}
      → Consistent k vol
      → Reach k vol h vol'
      → FilesReach (files k vol) h (files k vol')
  Reach-FilesReach c here = start
  Reach-FilesReach c (next {h} {vol'} r a allowed) =
      next_call (Reach-FilesReach c r) a (perform k vol' a).0
        (perform-Effect k all reads vol' (Reach-Consistent c r) a allowed)

  -- A read of a file of a volume that such a sequence of calls leads to, from a consistent volume, on a
  -- disk that can be read, with no fault in user memory: it returns as many bytes as the abstract file
  -- has from the position on, at most `len`, and they are the bytes of the abstract file.
  pub read_after :
      {vol vol' : Volume} {h : List (Call × Result ℕ)} (s : Name) (n len pos : ℕ) (buf : Mem)
      → Consistent k vol
      → Reach k vol h vol'
      → IsFileName s
      → view k vol'.base s ≡ some n
      → let (answer, _, buf', _) = file_read k (vol'.inode n) len pos buf vol'.base.dev in
        (c : Content) × ((files k vol').file s ≡ some c)
        × (answer ≡ ok (min len (c.size - pos)))
        × ((x : ℕ) → x < min len (c.size - pos) → buf' x ≡ c.byte (pos + x))
  unfolding files
  read_after {vol} {vol'} s n len pos buf c r w e =
      let owned = (Reach-Consistent c r).owned n (record { name = s; is_name = w; entry = e }) in
      let (answer, _, _, bytes) =
        file_read_bytes k all reads (vol'.inode n) vol'.base.sbi len pos buf vol'.base.dev owned in
      (
        record { size = (vol'.inode n).i_size; byte = content (vol'.inode n) vol'.base.dev.blocks },
        rw e refl,
        answer,
        λ x lt.
            let inside : ltb x (min len ((vol'.inode n).i_size - pos)) ≡ true = ground arith in
            bytes x ∙ rw inside refl,
      )
