-- ===== src/Stage8/File/Read.antt =====
-- `naive_file_read` of naive/naivefs-8/naivefs.c: which bytes it copies.
use filesystem_lab.Base.{
  ℕ, zero, suc, ◌+◌, ◌-◌, ◌/◌, ◌%◌, ◌≤◌, ◌<◌, ◌≡◌, ◌≢◌, ◌∙◌, refl, ap, subst, true, false, arith,
  min, Bool-cases, inl, inr, if◌then◌else◌, ◌==◌, ==→eq, ==_refl, ltb, leb, ◌&&◌, Result, ok, err,
}
use filesystem_lab.Base.Bytes.{Mem, memcpy}
use filesystem_lab.Device.{Device, take_buffer, brelse}
use filesystem_lab.Stage8.State.{DiskInode, Inode, Kernel}
use filesystem_lab.Stage8.File.{Reading, read_chunk, read_step, read_loop, file_read}
use filesystem_lab.Stage8.File.Blocks.{content}
use filesystem_lab.Stage8.File.Write.{Copies}

-- The user's buffer with the bytes of the file from `pos` on at `[from, from + len)`.
abbrev pub filled : DiskInode → (ℕ → Mem) → ℕ → ℕ → ℕ → Mem → Mem
filled disk blocks pos from len buf x =
    if leb from x && ltb x (from + len) then content disk blocks (pos + (x - from)) else buf x

-- What the rounds from `r` on have copied.
pub record Copied (disk : DiskInode) (r : Reading) (len : ℕ) (r' : Reading) : Type 0 where
  pub pos_is : r'.pos ≡ r.pos + len
  pub read_is : r'.bytes_read ≡ r.bytes_read + len
  pub blocks_are : r'.dev.blocks ≡ r.dev.blocks
  pub buf_is : (x : ℕ) → r'.buf x ≡ filled disk r.dev.blocks r.pos r.bytes_read len r.buf x

module _ (k : Kernel) (all : Copies k) (reads : (b : ℕ) → k.readable b ≡ true) (size : ℕ)
    (disk : DiskInode) where
  -- One round copies the rest of the block of the position, or less at the end.
  read_step-Copied :
      (r : Reading)
      → r.pos + r.len ≤ size
      → let n = min r.len (512 - r.pos % 512) in
        let a = read_step k (r.dev.blocks (disk.i_block (r.pos / 512))) (size - r.pos) r in
        (a.0 ≡ ok tt) × Copied disk r n a.1 × (a.1.len ≡ r.len - n)
  unfolding read_step brelse take_buffer memcpy
  read_step-Copied r fits =
      rw (all r.bytes_read n, ==_refl n, whole)
        (refl, record { pos_is = refl; read_is = refl; blocks_are = refl; buf_is = byte }, refl)
    where
      n : ℕ
      n = read_chunk r.len (r.pos % 512) (size - r.pos)

      whole : n ≡ min r.len (512 - r.pos % 512)
      whole = omega arith

      byte :
          (x : ℕ)
          → (if leb r.bytes_read x && ltb x (r.bytes_read + min r.len (512 - r.pos % 512))
              then r.dev.blocks (disk.i_block (r.pos / 512)) (r.pos % 512 + (x - r.bytes_read))
              else r.buf x)
            ≡ filled disk r.dev.blocks r.pos r.bytes_read (min r.len (512 - r.pos % 512)) r.buf x
      byte x =
          elim (Bool-cases
            (leb r.bytes_read x && ltb x (r.bytes_read + min r.len (512 - r.pos % 512)))) [
              | inl e ↦ rw (e, block x (ground arith), offset x (ground arith)) refl
              | inr e ↦ rw e refl
            ]
        where
          block :
              (x : ℕ)
              → x - r.bytes_read < 512 - r.pos % 512
              → (r.pos + (x - r.bytes_read)) / 512 ≡ r.pos / 512
          block x lt = omega arith

          offset :
              (x : ℕ)
              → x - r.bytes_read < 512 - r.pos % 512
              → (r.pos + (x - r.bytes_read)) % 512 ≡ r.pos % 512 + (x - r.bytes_read)
          offset x lt = omega arith

  -- Two runs of rounds one after the other.
  Copied-trans :
      (r r1 r2 : Reading) (n m : ℕ)
      → Copied disk r n r1
      → Copied disk r1 m r2
      → Copied disk r (n + m) r2
  Copied-trans r r1 r2 n m c e = record {
    pos_is = omega (arith, c.pos_is, e.pos_is);
    read_is = omega (arith, c.read_is, e.read_is);
    blocks_are = e.blocks_are ∙ c.blocks_are;
    buf_is = λ x. e.buf_is x ∙ rw (c.pos_is, c.read_is, c.blocks_are, c.buf_is x) (join x);
  }
    where
      join :
          (x : ℕ)
          → (if leb (r.bytes_read + n) x && ltb x (r.bytes_read + n + m)
              then content disk r.dev.blocks (r.pos + n + (x - (r.bytes_read + n)))
              else filled disk r.dev.blocks r.pos r.bytes_read n r.buf x)
            ≡ filled disk r.dev.blocks r.pos r.bytes_read (n + m) r.buf x
      join x = elim (Bool-cases (leb (r.bytes_read + n) x && ltb x (r.bytes_read + n + m))) [
        | inl e ↦
            let same : r.pos + n + (x - (r.bytes_read + n)) ≡ r.pos + (x - r.bytes_read) =
              ground arith in
            let within : (leb r.bytes_read x && ltb x (r.bytes_read + (n + m))) ≡ true =
              ground arith in
            rw (e, same, within) refl
        | inr e ↦
            let within : (leb r.bytes_read x && ltb x (r.bytes_read + (n + m)))
                ≡ (leb r.bytes_read x && ltb x (r.bytes_read + n)) =
              ground arith in
            rw (e, within) refl
      ]

  Copied-none : (r : Reading) (n : ℕ) → n ≡ 0 → Copied disk r n r
  Copied-none r n z = record {
    pos_is = omega arith;
    read_is = omega arith;
    blocks_are = refl;
    buf_is = λ x. ground arith;
  }

  -- The loop ends within one round for each byte, with all bytes copied.
  pub read_loop-Copied :
      (fuel : ℕ) (r : Reading)
      → r.len ≤ fuel
      → r.pos + r.len ≤ size
      → r.pos + r.len ≤ 4096
      → ((x : ℕ) → r.pos ≤ x → x < r.pos + r.len → disk.i_block (x / 512) ≢ 0)
      → let a = read_loop k size disk fuel r in (a.0 ≡ ok tt) × Copied disk r r.len a.1
  unfolding read_loop
  read_loop-Copied zero r enough fits limit there =
      let none_left : r.len ≡ 0 = omega arith in (refl, Copied-none r r.len none_left)
  read_loop-Copied (suc fuel) r enough fits limit there = elim (Bool-cases (r.len == 0)) [
    | inl e ↦ let none_left : r.len ≡ 0 = ==→eq _ _ e in rw e (refl, Copied-none r r.len none_left)
    | inr e ↦
        let more : 0 < r.len = ground arith in
        let in_range : leb 8 (r.pos / 512) ≡ false = ground arith in
        let present : (disk.i_block (r.pos / 512) == 0) ≡ false =
          ground (arith, there r.pos (omega arith) (omega arith)) in
        rw (e, in_range, present, reads (disk.i_block (r.pos / 512)))
          (go more (read_loop-Copied fuel)
            (read_step k (r.dev.blocks (disk.i_block (r.pos / 512))) (size - r.pos) r)
            (read_step-Copied r fits))
  ]
    where
      n : ℕ
      n = min r.len (512 - r.pos % 512)

      go :
          0 < r.len
          → ((v : Reading)
              → v.len ≤ fuel
              → v.pos + v.len ≤ size
              → v.pos + v.len ≤ 4096
              → ((x : ℕ) → v.pos ≤ x → x < v.pos + v.len → disk.i_block (x / 512) ≢ 0)
              → let a = read_loop k size disk fuel v in (a.0 ≡ ok tt) × Copied disk v v.len a.1)
          → (a : Result (Unit {0}) × Reading)
          → (a.0 ≡ ok tt) × Copied disk r n a.1 × (a.1.len ≡ r.len - n)
          → let z : Result (Unit {0}) × Reading = elim a.0 [
            | ok _ ↦ read_loop k size disk fuel a.1
            | err e ↦ (err e, a.1)
          ] in
            (z.0 ≡ ok tt) × Copied disk r r.len z.1
      go more ih a (good, c, left) =
          let rest =
            ih a.1 (omega (arith, left)) (omega (arith, left, c.pos_is))
              (omega (arith, left, c.pos_is))
              (λ x lo hi.
                there x (omega (arith, left, c.pos_is)) (omega (arith, left, c.pos_is))) in
          let total : n + a.1.len ≡ r.len = omega (arith, left) in
          rw good (
            rest.0,
            subst (λ m. Copied disk r m (read_loop k size disk fuel a.1).1) total
                (Copied-trans r a.1 _ n a.1.len c rest.1),
          )

module _ (k : Kernel) (all : Copies k) (reads : (b : ℕ) → k.readable b ≡ true) where
  -- A read returns the bytes of the file from the position on, as many as were asked for or as are
  -- left before the end of the file, and puts them at the start of the user's buffer.
  -- The file has at most eight blocks, the blocks that are read are there and can be read, and the
  -- user's buffer has no fault.
  pub file_read_lem :
      (ino : Inode) (len pos : ℕ) (buf : Mem) (d : Device)
      → ino.disk.i_size ≤ 4096
      → ((x : ℕ) → pos ≤ x → x < pos + len → x < ino.disk.i_size → ino.disk.i_block (x / 512) ≢ 0)
      → let n = min len (ino.disk.i_size - pos) in
        let (answer, pos', buf', ino', d') = file_read k ino len pos buf d in
        (answer ≡ ok n)
        × (pos' ≡ pos + n)
        × (d'.blocks ≡ d.blocks)
        × ((x : ℕ) → buf' x ≡ (if ltb x n then content ino.disk d.blocks (pos + x) else buf x))
  unfolding file_read
  file_read_lem ino len pos buf d small there = elim (Bool-cases (leb ino.disk.i_size pos)) [
    | inl past ↦
        let none_left : min len (ino.disk.i_size - pos) ≡ 0 = ground arith in
        rw (past, none_left) (refl, omega arith, refl, λ x. ground arith)
    | inr before ↦
        let within : capped ≡ min len (ino.disk.i_size - pos) = ground arith in
        rw before (
          finish capped within (read_loop k ino.disk.i_size ino.disk capped (r0 capped)) (
            read_loop-Copied k all reads ino.disk.i_size ino.disk capped (r0 capped) (omega arith)
              (ground (arith, within)) (ground (arith, within))
              (λ x lo hi. there x lo (omega (arith, within)) (ground (arith, within)))))
  ]
    where
      n : ℕ
      n = min len (ino.disk.i_size - pos)

      capped : ℕ
      capped = if ltb ino.disk.i_size (pos + len) then ino.disk.i_size - pos else len

      r0 : ℕ → Reading
      r0 m = record { pos = pos; len = m; bytes_read = 0; buf = buf; dev = d }

      finish :
          (m : ℕ)
          → m ≡ n
          → (a : Result (Unit {0}) × Reading) → (a.0 ≡ ok tt) × Copied ino.disk (r0 m) m a.1
          → let ino' = record ino { atime = k.now } in
            let z : Result ℕ × ℕ × Mem × Inode × Device = elim a.0 [
              | ok _ ↦ (ok a.1.bytes_read, a.1.pos, a.1.buf, ino', a.1.dev)
              | err e ↦ (err e, a.1.pos, a.1.buf, ino', a.1.dev)
            ] in
            (z.0 ≡ ok n)
            × (z.1 ≡ pos + n)
            × (z.4.blocks ≡ d.blocks)
            × ((x : ℕ) → z.2 x ≡ (if ltb x n then content ino.disk d.blocks (pos + x) else buf x))
      finish m e a (good, c) = rw good (
        ap ok (omega (arith, c.read_is)),
        omega (arith, c.pos_is),
        c.blocks_are,
        λ x. c.buf_is x ∙ rw e (ground arith),
      )
