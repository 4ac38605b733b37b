-- ===== src/Stage8/File/RoundTrip.antt =====
-- `naive_file_write` of naive/naivefs-8/naivefs.c as a whole.
use filesystem_lab.Base.{
  ℕ, ◌+◌, ◌-◌, ◌/◌, ◌≤◌, ◌<◌, ◌≡◌, ◌≢◌, ◌∙◌, ap, min, ◌⊎◌, refl, true, false, arith, inl, inr,
  if◌then◌else◌, ◌==◌, ltb, Result, ok, err,
}
use filesystem_lab.Base.Bytes.{Mem}
use filesystem_lab.Device.{Device}
use filesystem_lab.Stage8.State.{SbInfo, Inode, Kernel}
use filesystem_lab.Stage8.Bitmap.{AllSet}
use filesystem_lab.Stage8.File.{Writing, write_loop, start_write, file_write, file_read}
use filesystem_lab.Stage8.File.Blocks.{Sound, content}
use filesystem_lab.Stage8.File.Write.{Copies}
use filesystem_lab.Stage8.File.Read.{file_read_lem}
use filesystem_lab.Stage8.File.Loop.{Progress, LoopAnswer, write_loop-Progress}

-- What a write of `len` bytes at `pos` leaves when `n` bytes are written.
pub record Wrote (ino : Inode) (len pos : ℕ) (buf : Mem) (d : Device) (n : ℕ) (pos' : ℕ)
    (ino' : Inode) (sbi' : SbInfo) (d' : Device) : Type 0 where
  pub at_most : n ≤ len
  pub moved : pos' ≡ pos + n
  pub short : (n ≡ len) ⊎ AllSet sbi'.block_bitmap sbi'.data_blocks_start sbi'.blocks_count
  pub sound : Sound sbi' ino'.disk
  pub new_data :
      (x : ℕ)
      → x < n
      → (ino'.disk.i_block ((pos + x) / 512) ≢ 0) × (content ino'.disk d'.blocks (pos + x) ≡ buf x)
  pub old_data :
      (x : ℕ)
      → x / 512 < 8
      → (x < pos) ⊎ (pos + n ≤ x)
      → ino.disk.i_block (x / 512) ≢ 0
      → content ino'.disk d'.blocks x ≡ content ino.disk d.blocks x
  pub size_is : ino'.disk.i_size ≡ (
      if n == 0
      then ino.disk.i_size
      else if ltb ino.disk.i_size (pos + n)
      then pos + n
      else ino.disk.i_size)

abbrev pub WriteAnswer :
    Inode → ℕ → ℕ → Mem → Device → Result ℕ × ℕ × Inode × SbInfo × Device → Type 0
WriteAnswer ino len pos buf d (ok n, pos', ino', sbi', d') =
    Wrote ino len pos buf d n pos' ino' sbi' d'
WriteAnswer ino len pos buf d (err e, _, _, _, _) = ⊥

-- What a later read of the written bytes gives: all of them, unchanged.
abbrev pub ReadsBack : Kernel → ℕ → Mem → Mem → Result ℕ × ℕ × Inode × SbInfo × Device → Type 0
ReadsBack k pos buf out (ok n, _, ino', _, d') =
    let (answer, _, out', _, _) = file_read k ino' n pos out d' in
    (answer ≡ ok n) × ((x : ℕ) → x < n → out' x ≡ buf x)
ReadsBack k pos buf out (err e, _, _, _, _) = ⊥

module _ (k : Kernel) (all : Copies k) (reads : (b : ℕ) → k.readable b ≡ true) where
  -- A write that does not pass the eight blocks of a file, whose user buffer has no fault and whose
  -- blocks are all readable, of a file whose pointers are sound, that is, whose blocks are in use,
  -- behind the bitmaps and the inode table, and once in it: it returns a count, at most `len`,
  -- and less only when no data block is free; that many bytes of the file from `pos` on are the
  -- user's, every other byte in a block the file had keeps its value, the size grows to the end of
  -- what is written, the position moves by the count, and the pointers stay sound.
  pub file_write-Wrote :
      (ino : Inode) (sbi : SbInfo) (len pos : ℕ) (buf : Mem) (d : Device)
      → Sound sbi ino.disk
      → pos + len ≤ 4096
      → WriteAnswer ino len pos buf d (file_write k ino sbi len pos buf d)
  unfolding file_write
  file_write-Wrote ino sbi len pos buf d s limit = rw (fits) (
      finish (write_loop k buf len w0)
        (write_loop-Progress k all reads buf w0 limit len w0 (omega arith) start))
    where
      w0 : Writing
      w0 = start_write ino sbi len pos d

      fits : ltb 4096 (pos + len) ≡ false
      fits = ground arith

      start : Progress buf w0 w0
      start = record {
        sound = s;
        kept = λ i _. refl;
        pos_is = omega arith;
        len_is = omega arith;
        new_data = λ x lt. absurd (omega (arith, lt));
        old_data = λ x _ _ _. refl;
        size_is = refl;
        disk_size_is = refl;
      }

      finish :
          (a : Result (Unit {0}) × Writing)
          → LoopAnswer buf w0 a
          → (let ino' = record ino {
            disk = a.1.disk;
            size = a.1.size;
            mtime = k.now;
            ctime = k.now;
            inode_dirty = true;
          } in
              WriteAnswer ino len pos buf d (elim a.0 [
                | ok _ ↦ (ok a.1.bytes_written, a.1.pos, ino', a.1.sbi, a.1.dev)
                | err e ↦ (err e, a.1.pos, ino', a.1.sbi, a.1.dev)
              ]))
      finish a (good, p, end) = rw good (record {
        at_most = omega (arith, p.len_is);
        moved = p.pos_is;
        short = elim end [ inl z ↦ inl (omega (arith, p.len_is)) | inr f ↦ inr f ];
        sound = p.sound;
        new_data = p.new_data;
        old_data = p.old_data;
        size_is = ground (arith, p.disk_size_is, p.size_is, p.pos_is);
      })

  -- A read after a write, at the same position and of the count that the write returned, returns
  -- that count and the bytes that were written. The write is of a file whose pointers are sound,
  -- that is, whose blocks are in use, behind the bitmaps and the inode table, and once in it,
  -- and whose size fits eight blocks, does not pass the eight blocks, and neither it nor the read
  -- meets a fault or an unreadable block.
  pub file_read-file_write :
      (ino : Inode) (sbi : SbInfo) (len pos : ℕ) (buf out : Mem) (d : Device)
      → Sound sbi ino.disk
      → ino.disk.i_size ≤ 4096
      → pos + len ≤ 4096
      → ReadsBack k pos buf out (file_write k ino sbi len pos buf d)
  file_read-file_write ino sbi len pos buf out d s small limit =
      go (file_write k ino sbi len pos buf d) (file_write-Wrote ino sbi len pos buf d s limit)
    where
      go :
          (a : Result ℕ × ℕ × Inode × SbInfo × Device)
          → WriteAnswer ino len pos buf d a
          → ReadsBack k pos buf out a
      go (err e, _, _, _, _) impossible = impossible
      go (ok n, pos', ino', sbi', d') w =
          let read =
            file_read_lem k all reads ino' n pos out d' (ground (arith, w.size_is, w.at_most))
              (λ x lo hi _. at x (omega arith) (w.new_data (x - pos) (omega arith)).0) in
          let whole : min n (ino'.disk.i_size - pos) ≡ n = ground (arith, w.size_is) in
          (read.0 ∙ ap ok whole, λ x lt. read.3 x ∙ rw (whole, inside x lt) (w.new_data x lt).1)
        where
          at :
              (x : ℕ)
              → pos + (x - pos) ≡ x
              → ino'.disk.i_block ((pos + (x - pos)) / 512) ≢ 0
              → ino'.disk.i_block (x / 512) ≢ 0
          at x e nz = rw e at nz

          inside : (x : ℕ) → x < n → ltb x n ≡ true
          inside x lt = ground arith
