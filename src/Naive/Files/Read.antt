-- ===== src/Naive/Files/Read.antt =====
-- `naive_file_read` of naive/naivefs_file.c: which bytes it copies.
use filesystem_lab.Base.{
  ℕ, zero, suc, ◌+◌, ◌-◌, ◌*◌, ◌/◌, ◌%◌, ◌≤◌, ◌<◌, ◌≡◌, ◌≢◌, ◌∙◌, refl, sym, ap, subst, true, false,
  arith, min, Bool-cases, inl, inr, if◌then◌else◌, ◌==◌, ==→eq, ==_refl, ltb, leb, ◌||◌, Result, ok,
  err,
}
use filesystem_lab.Base.Bytes.{Mem, memcpy}
use filesystem_lab.Base.Chunk.{chunk_position, memcpy-memcpy, memcpy_ext, memcpy_none, memcpy_start}
use filesystem_lab.Device.{Device, take_buffer, brelse}
use filesystem_lab.Naive.Layout.{SbInfo}
use filesystem_lab.Naive.Kernel.{Inode, Kernel}
use filesystem_lab.Naive.Files.{Reading, chunk, read_step, read_loop, file_read}
use filesystem_lab.Naive.Files.Owned.{Owned, Owned-nonzero, content}

-- The copies from and to the user move every byte.
abbrev pub Copies : Kernel → Type 0
Copies k = (o n : ℕ) → k.copied o n ≡ n

-- What rounds that copy `len` bytes leave.
record Copied (ino : Inode) (r : Reading) (len : ℕ) (r' : Reading) : Type 0 where
  pub pos_is : r'.pos ≡ r.pos + len
  pub ret_is : r'.ret ≡ r.ret + len
  pub left_is : r'.remaining ≡ r.remaining - len
  pub blocks_are : r'.dev.blocks ≡ r.dev.blocks
  pub buf_is :
      (x : ℕ) → r'.buf x ≡ memcpy r.buf r.ret (λ i. content ino r.dev.blocks (r.pos + i)) len x

Copied-none : (ino : Inode) (r : Reading) (n : ℕ) → n ≡ 0 → Copied ino r n r
Copied-none ino r n z = record {
  pos_is = omega arith;
  ret_is = omega arith;
  left_is = omega arith;
  blocks_are = refl;
  buf_is = λ x. sym (memcpy_none r.buf r.ret _ n x z);
}

-- Two runs of rounds one after the other.
Copied-trans :
    (ino : Inode) (r r1 r2 : Reading) (n m : ℕ)
    → Copied ino r n r1
    → Copied ino r1 m r2
    → Copied ino r (n + m) r2
Copied-trans ino r r1 r2 n m c e = record {
  pos_is = omega (arith, c.pos_is, e.pos_is);
  ret_is = omega (arith, c.ret_is, e.ret_is);
  left_is = omega (arith, c.left_is, e.left_is);
  blocks_are = e.blocks_are ∙ c.blocks_are;
  buf_is = λ x.
      e.buf_is x
      ∙ rw (c.pos_is, c.ret_is, c.blocks_are)
          (memcpy_ext r1.buf (memcpy r.buf r.ret src n) (r.ret + n) _ (λ i. src (n + i)) m x
            (c.buf_is x) (λ i _. ap (content ino r.dev.blocks) (omega arith)))
      ∙ memcpy-memcpy r.buf r.ret src n m x;
}
  where
    src : Mem
    src = λ i. content ino r.dev.blocks (r.pos + i)

module _ (k : Kernel) (all : Copies k) (reads : (b : ℕ) → k.readable b ≡ true) where
  -- One round copies the rest of the block of the position, or less at the end.
  read_step-Copied :
      (ino : Inode) (r : Reading)
      → let n = chunk r.remaining (r.pos % 512) in
        let a = read_step k (ino.block_pointers (r.pos / 512)) r in
        (a.0 ≡ ok tt) × Copied ino r n a.1
  unfolding read_step brelse take_buffer
  read_step-Copied ino r =
      rw (all r.ret n, ==_refl n)
        (
          refl,
          record { pos_is = refl; ret_is = refl; left_is = refl; blocks_are = refl; buf_is = byte },
        )
    where
      n : ℕ
      n = chunk r.remaining (r.pos % 512)

      from_block : Mem
      from_block = λ i. r.dev.blocks (ino.block_pointers (r.pos / 512)) (r.pos % 512 + i)

      from_file : Mem
      from_file = λ i. content ino r.dev.blocks (r.pos + i)

      byte : (x : ℕ) → memcpy r.buf r.ret from_block n x ≡ memcpy r.buf r.ret from_file n x
      byte x = memcpy_ext r.buf r.buf r.ret from_block from_file n x refl (λ i lt.
          let (block, offset) = chunk_position r.pos n i (omega arith) lt in
          rw (block, offset) refl)

  -- The loop ends within one round for each byte, with all bytes copied.
  read_loop-Copied :
      (ino : Inode)
      → ((i : ℕ) → i < ino.block_count → ino.block_pointers i ≢ 0)
      → (fuel : ℕ) (r : Reading) → r.remaining ≤ fuel
      → r.pos + r.remaining ≤ ino.block_count * 512
      → let a = read_loop k ino fuel r in (a.0 ≡ ok tt) × Copied ino r r.remaining a.1
  unfolding read_loop
  read_loop-Copied ino there zero r enough fits =
      let none_left : r.remaining ≡ 0 = omega arith in
      (refl, Copied-none ino r r.remaining none_left)
  read_loop-Copied ino there (suc fuel) r enough fits = elim (Bool-cases (r.remaining == 0)) [
    | inl e ↦
        let none_left : r.remaining ≡ 0 = ==→eq _ _ e in
        rw e (refl, Copied-none ino r r.remaining none_left)
    | inr e ↦
        let in_file : r.pos / 512 < ino.block_count = ground arith in
        let goes_on : (leb ino.block_count (r.pos / 512) || ino.block_pointers (r.pos / 512) == 0)
            ≡ false =
          ground (arith, there (r.pos / 512) in_file) in
        rw (e, goes_on, reads (ino.block_pointers (r.pos / 512)))
          (go (ground arith) (read_loop-Copied ino there fuel)
            (read_step k (ino.block_pointers (r.pos / 512)) r) (read_step-Copied ino r))
  ]
    where
      go :
          0 < r.remaining
          → ((v : Reading)
              → v.remaining ≤ fuel
              → v.pos + v.remaining ≤ ino.block_count * 512
              → let a = read_loop k ino fuel v in (a.0 ≡ ok tt) × Copied ino v v.remaining a.1)
          → (a : Result (Unit {0}) × Reading)
          → (a.0 ≡ ok tt) × Copied ino r (chunk r.remaining (r.pos % 512)) a.1
          → let z : Result (Unit {0}) × Reading = elim a.0 [
            | ok _ ↦ read_loop k ino fuel a.1
            | err e ↦ (err e, a.1)
          ] in
            (z.0 ≡ ok tt) × Copied ino r r.remaining z.1
      go more ih a (good, c) =
          let rest = ih a.1 (omega (arith, c.left_is)) (omega (arith, c.left_is, c.pos_is)) in
          let total : chunk r.remaining (r.pos % 512) + a.1.remaining ≡ r.remaining =
            omega (arith, c.left_is) in
          rw good (
            rest.0,
            subst (λ m. Copied ino r m (read_loop k ino fuel a.1).1) total
                (Copied-trans ino r a.1 _ _ a.1.remaining c rest.1),
          )

  -- A read of a file whose blocks are in order, with every block readable and no fault in the user's
  -- buffer: it returns as many bytes as were asked for or as are left before the end of the file,
  -- which it puts at the start of the user's buffer; no other byte of the buffer and no block
  -- changes, and the position moves by the count.
  pub file_read_bytes :
      (ino : Inode) (sbi : SbInfo) (len pos : ℕ) (buf : Mem) (d : Device)
      → Owned sbi ino
      → let n = min len (ino.i_size - pos) in
        let (answer, pos', buf', d') = file_read k ino len pos buf d in
        (answer ≡ ok n)
        × (pos' ≡ pos + n)
        × (d'.blocks ≡ d.blocks)
        × ((x : ℕ) → buf' x ≡ (if ltb x n then content ino d.blocks (pos + x) else buf x))
  unfolding file_read
  file_read_bytes ino sbi len pos buf d o = elim (Bool-cases (leb ino.i_size pos)) [
    | inl past ↦
        let none_left : min len (ino.i_size - pos) ≡ 0 = ground arith in
        rw (past, none_left) (refl, omega arith, refl, λ x. ground arith)
    | inr before ↦ rw before (
        finish (read_loop k ino n r0) (
          read_loop-Copied ino (λ i. Owned-nonzero i o) n r0 (omega arith)
            (ground (arith, o.covers))))
  ]
    where
      n : ℕ
      n = min len (ino.i_size - pos)

      r0 : Reading
      r0 = record { pos = pos; remaining = n; ret = 0; buf = buf; dev = d }

      finish :
          (a : Result (Unit {0}) × Reading)
          → (a.0 ≡ ok tt) × Copied ino r0 n a.1
          → let z : Result ℕ × ℕ × Mem × Device = elim a.0 [
            | ok _ ↦ (ok a.1.ret, a.1.pos, a.1.buf, a.1.dev)
            | err e ↦ (err e, a.1.pos, a.1.buf, a.1.dev)
          ] in
            (z.0 ≡ ok n)
            × (z.1 ≡ pos + n)
            × (z.3.blocks ≡ d.blocks)
            × ((x : ℕ) → z.2 x ≡ (if ltb x n then content ino d.blocks (pos + x) else buf x))
      finish a (good, c) = rw good (
        ap ok (omega (arith, c.ret_is)),
        omega (arith, c.pos_is),
        c.blocks_are,
        λ x. c.buf_is x ∙ memcpy_start buf (λ i. content ino d.blocks (pos + i)) n x,
      )
