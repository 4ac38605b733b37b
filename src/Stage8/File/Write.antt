-- ===== src/Stage8/File/Write.antt =====
-- `naive_file_write` of naive/naivefs-8/naivefs.c: which bytes of the file it changes.
use filesystem_lab.Base.{
  ℕ, ◌+◌, ◌-◌, ◌/◌, ◌%◌, ◌≤◌, ◌<◌, ◌≡◌, ◌≢◌, ◌⊎◌, refl, ap, true, false, arith, Bool-cases, inl,
  inr, if◌then◌else◌, update, ◌==◌, ==→eq, ==_refl, ltb, leb, ◌&&◌, ok,
}
use filesystem_lab.Base.Bytes.{Mem, memcpy}
use filesystem_lab.Base.Chunk.{same_block, same_distance, other_block}
use filesystem_lab.Device.{take_buffer, brelse, write_buffer, mark_buffer_dirty}
use filesystem_lab.Stage8.State.{Kernel}
use filesystem_lab.Stage8.File.{Writing, write_chunk, write_step}
use filesystem_lab.Stage8.File.Blocks.{Sound, content}

-- The copies from the user move every byte.
abbrev pub Copies : Kernel → Type 0
Copies k = (o n : ℕ) → k.copied o n ≡ n

-- What one copy leaves, when it moves all its bytes.
pub record Stepped (buf : Mem) (w w2 : Writing) : Type 0 where
  pub pos_is : w2.pos ≡ w.pos + write_chunk w.len (w.pos % 512)
  pub len_is : w2.len ≡ w.len - write_chunk w.len (w.pos % 512)
  pub written_is : w2.bytes_written ≡ w.bytes_written + write_chunk w.len (w.pos % 512)
  pub sbi_is : w2.sbi ≡ w.sbi
  pub pointers : w2.disk.i_block ≡ w.disk.i_block
  pub bytes :
      (x : ℕ)
      → x / 512 < 8
      → w.disk.i_block (x / 512) ≢ 0
      → content w2.disk w2.dev.blocks x ≡ (
          if leb w.pos x && ltb x w2.pos
          then buf (w.bytes_written + (x - w.pos))
          else content w.disk w.dev.blocks x)
  pub size_is : w2.file_size ≡ (if ltb w.file_size w2.pos then w2.pos else w.file_size)
  pub disk_size_is : w.disk.i_size ≡ w.file_size → w2.disk.i_size ≡ w2.file_size

module _ (k : Kernel) (all : Copies k) (buf : Mem) (w : Writing) (s : Sound w.sbi w.disk) where
  -- A copy puts the chunk at its place in the file, and no other byte of the file changes.
  pub write_step-Stepped :
      w.pos / 512 < 8
      → w.disk.i_block (w.pos / 512) ≢ 0
      → ((write_step k buf w).0 ≡ ok tt) × Stepped buf w (write_step k buf w).1
  unfolding write_step brelse mark_buffer_dirty write_buffer take_buffer memcpy
  write_step-Stepped small there =
      rw (all w.bytes_written n, ==_refl n)
        (
          refl,
          record {
            pos_is = refl;
            len_is = refl;
            written_is = refl;
            sbi_is = refl;
            pointers = refl;
            bytes = λ x lt nz. byte x lt nz (Bool-cases (b == w.disk.i_block (x / 512)));
            size_is = refl;
            disk_size_is = λ e. ground arith;
          },
        )
    where
      b : ℕ
      b = w.disk.i_block (w.pos / 512)

      off : ℕ
      off = w.pos % 512

      n : ℕ
      n = write_chunk w.len off

      fits : off + n ≤ 512
      fits = omega arith

      byte :
          (x : ℕ)
          → x / 512 < 8
          → w.disk.i_block (x / 512) ≢ 0
          → ((b == w.disk.i_block (x / 512)) ≡ true) ⊎ ((b == w.disk.i_block (x / 512)) ≡ false)
          → update w.dev.blocks b
              (memcpy (w.dev.blocks b) off (λ i. buf (w.bytes_written + i)) n)
              (w.disk.i_block (x / 512))
              (x % 512)
            ≡ (if leb w.pos x && ltb x (w.pos + n)
                then buf (w.bytes_written + (x - w.pos))
                else content w.disk w.dev.blocks x)
      byte x lt nz (inl e) =
          let q : b ≡ w.disk.i_block (x / 512) = ==→eq _ _ e in
          let i : w.pos / 512 ≡ x / 512 = s.apart (w.pos / 512) (x / 512) small lt there q in
          rw e (
            rw (same_block w.pos n x fits i, same_distance w.pos x i)
              (ap
                (λ o.
                  if leb w.pos x && ltb x (w.pos + n)
                  then buf (w.bytes_written + (x - w.pos))
                  else w.dev.blocks o (x % 512))
                q))
      byte x lt nz (inr e) =
          rw (e, other_block w.pos n x fits (λ i. cc (ap w.disk.i_block i, ==_refl b, e)))
