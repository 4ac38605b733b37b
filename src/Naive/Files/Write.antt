-- ===== src/Naive/Files/Write.antt =====
-- The copying loop of `naive_file_write` (naive/naivefs_file.c): which bytes it changes.
use filesystem_lab.Base.{
  ℕ, zero, suc, ◌+◌, ◌-◌, ◌*◌, ◌/◌, ◌%◌, ◌≤◌, ◌<◌, ◌≡◌, ◌∙◌, ◌⊎◌, refl, sym, ap, subst, true, false,
  arith, Bool-cases, inl, inr, if◌then◌else◌, update, ◌==◌, ==→eq, ==_refl, ltb, leb, ◌&&◌, Result,
  ok, err,
}
use filesystem_lab.Base.Bytes.{Mem, memcpy}
use filesystem_lab.Base.Chunk.{
  same_block, same_distance, other_block, memcpy-memcpy, memcpy_ext, memcpy_none,
}
use filesystem_lab.Device.{take_buffer, brelse, write_buffer, mark_buffer_dirty}
use filesystem_lab.Naive.Kernel.{Inode, Kernel}
use filesystem_lab.Naive.Files.{Reading, chunk, write_step, write_loop}
use filesystem_lab.Naive.Files.Owned.{content}
use filesystem_lab.Naive.Files.Spread.{Foreign}
use filesystem_lab.Naive.Files.Read.{Copies}

-- What rounds that copy `len` bytes leave.
pub record Written (ino : Inode) (r : Reading) (len : ℕ) (r' : Reading) : Type 0 where
  pub pos_is : r'.pos ≡ r.pos + len
  pub ret_is : r'.ret ≡ r.ret + len
  pub left_is : r'.remaining ≡ r.remaining - len
  pub buf_is : r'.buf ≡ r.buf
  pub bytes :
      (x : ℕ)
      → x / 512 < ino.block_count
      → content ino r'.dev.blocks x
        ≡ memcpy (content ino r.dev.blocks) r.pos (λ i. r.buf (r.ret + i)) len x
  pub others : (b : ℕ) → Foreign ino b → r'.dev.blocks b ≡ r.dev.blocks b

Written-none : (ino : Inode) (r : Reading) (n : ℕ) → n ≡ 0 → Written ino r n r
Written-none ino r n z = record {
  pos_is = omega arith;
  ret_is = omega arith;
  left_is = omega arith;
  buf_is = refl;
  bytes = λ x _. sym (memcpy_none (content ino r.dev.blocks) r.pos _ n x z);
  others = λ b _. refl;
}

-- Two runs of rounds one after the other.
Written-trans :
    (ino : Inode) (r r1 r2 : Reading) (n m : ℕ)
    → Written ino r n r1
    → Written ino r1 m r2
    → Written ino r (n + m) r2
Written-trans ino r r1 r2 n m c e = record {
  pos_is = omega (arith, c.pos_is, e.pos_is);
  ret_is = omega (arith, c.ret_is, e.ret_is);
  left_is = omega (arith, c.left_is, e.left_is);
  buf_is = e.buf_is ∙ c.buf_is;
  bytes = λ x lt.
      e.bytes x lt
      ∙ rw (c.pos_is, c.ret_is, c.buf_is)
          (memcpy_ext (content ino r1.dev.blocks) (memcpy (content ino r.dev.blocks) r.pos src n)
            (r.pos + n) _ (λ i. src (n + i)) m x (c.bytes x lt) (λ i _. ap r.buf (omega arith)))
      ∙ memcpy-memcpy (content ino r.dev.blocks) r.pos src n m x;
  others = λ b f. e.others b f ∙ c.others b f;
}
  where
    src : Mem
    src = λ i. r.buf (r.ret + i)

module _ (k : Kernel) (all : Copies k) (reads : (b : ℕ) → k.readable b ≡ true) (ino : Inode)
    (apart : (i j : ℕ)
      → i < ino.block_count
      → j < ino.block_count
      → ino.block_pointers i ≡ ino.block_pointers j
      → i ≡ j) where
  -- One round puts its chunk at its place in the file, and changes no other block.
  write_step-Written :
      (r : Reading)
      → r.pos / 512 < ino.block_count
      → let n = chunk r.remaining (r.pos % 512) in
        let a = write_step k (ino.block_pointers (r.pos / 512)) r in
        (a.0 ≡ ok tt) × Written ino r n a.1
  unfolding write_step brelse mark_buffer_dirty write_buffer take_buffer memcpy
  write_step-Written r here =
      rw (all r.ret n, ==_refl n)
        (
          refl,
          record {
            pos_is = refl;
            ret_is = refl;
            left_is = refl;
            buf_is = refl;
            bytes = λ x lt. byte x lt (Bool-cases (b == ino.block_pointers (x / 512)));
            others = λ c f.
                let other : (b == c) ≡ false = ground (arith, f (r.pos / 512) here) in
                rw other refl;
          },
        )
    where
      b : ℕ
      b = ino.block_pointers (r.pos / 512)

      n : ℕ
      n = chunk r.remaining (r.pos % 512)

      fits : r.pos % 512 + n ≤ 512
      fits = omega arith

      byte :
          (x : ℕ)
          → x / 512 < ino.block_count
          → ((b == ino.block_pointers (x / 512)) ≡ true)
            ⊎ ((b == ino.block_pointers (x / 512)) ≡ false)
          → update r.dev.blocks b
              (memcpy (r.dev.blocks b) (r.pos % 512) (λ i. r.buf (r.ret + i)) n)
              (ino.block_pointers (x / 512))
              (x % 512)
            ≡ memcpy (content ino r.dev.blocks) r.pos (λ i. r.buf (r.ret + i)) n x
      byte x lt (inl e) =
          let q : b ≡ ino.block_pointers (x / 512) = ==→eq _ _ e in
          let i : r.pos / 512 ≡ x / 512 = apart (r.pos / 512) (x / 512) here lt q in
          rw e (
            rw (same_block r.pos n x fits i, same_distance r.pos x i)
              (ap
                (λ o.
                  if leb r.pos x && ltb x (r.pos + n)
                  then r.buf (r.ret + (x - r.pos))
                  else r.dev.blocks o (x % 512))
                q))
      byte x lt (inr e) =
          rw (e, other_block r.pos n x fits (λ i. cc (ap ino.block_pointers i, ==_refl b, e))) refl

  -- The loop ends within one round for each byte, with all bytes written.
  pub write_loop-Written :
      (fuel : ℕ) (r : Reading)
      → r.remaining ≤ fuel
      → r.pos + r.remaining ≤ ino.block_count * 512
      → let a = write_loop k ino fuel r in (a.0 ≡ ok tt) × Written ino r r.remaining a.1
  unfolding write_loop
  write_loop-Written zero r enough fits =
      let none_left : r.remaining ≡ 0 = omega arith in
      (refl, Written-none ino r r.remaining none_left)
  write_loop-Written (suc fuel) r enough fits = elim (Bool-cases (r.remaining == 0)) [
    | inl e ↦
        let none_left : r.remaining ≡ 0 = ==→eq _ _ e in
        rw e (refl, Written-none ino r r.remaining none_left)
    | inr e ↦
        let in_file : r.pos / 512 < ino.block_count = ground arith in
        let goes_on : leb ino.block_count (r.pos / 512) ≡ false = ground arith in
        rw (e, goes_on, reads (ino.block_pointers (r.pos / 512)))
          (go (ground arith) (write_loop-Written fuel)
            (write_step k (ino.block_pointers (r.pos / 512)) r) (write_step-Written r in_file))
  ]
    where
      go :
          0 < r.remaining
          → ((v : Reading)
              → v.remaining ≤ fuel
              → v.pos + v.remaining ≤ ino.block_count * 512
              → let a = write_loop k ino fuel v in (a.0 ≡ ok tt) × Written ino v v.remaining a.1)
          → (a : Result (Unit {0}) × Reading)
          → (a.0 ≡ ok tt) × Written ino r (chunk r.remaining (r.pos % 512)) a.1
          → let z : Result (Unit {0}) × Reading = elim a.0 [
            | ok _ ↦ write_loop k ino fuel a.1
            | err e ↦ (err e, a.1)
          ] in
            (z.0 ≡ ok tt) × Written ino r r.remaining z.1
      go more ih a (good, c) =
          let rest = ih a.1 (omega (arith, c.left_is)) (omega (arith, c.left_is, c.pos_is)) in
          let total : chunk r.remaining (r.pos % 512) + a.1.remaining ≡ r.remaining =
            omega (arith, c.left_is) in
          rw good (
            rest.0,
            subst (λ m. Written ino r m (write_loop k ino fuel a.1).1) total
                (Written-trans ino r a.1 _ _ a.1.remaining c rest.1),
          )
