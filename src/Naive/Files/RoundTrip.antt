-- ===== src/Naive/Files/RoundTrip.antt =====
-- `naive_file_write` of naive/naivefs_file.c as a whole.
use filesystem_lab.Base.{
  ℕ, ◌+◌, ◌-◌, ◌*◌, ◌/◌, ◌%◌, ◌≤◌, ◌<◌, ◌≡◌, ◌∙◌, ◌⊎◌, refl, sym, ap, true, false, arith, min,
  Bool-cases, inl, inr, if◌then◌else◌, ltb, Result, ok, err, enospc,
}
use filesystem_lab.Base.Bytes.{Mem}
use filesystem_lab.Base.Chunk.{memcpy_inside, memcpy_outside}
use filesystem_lab.Device.{Device}
use filesystem_lab.Naive.Layout.{SbInfo}
use filesystem_lab.Naive.Kernel.{Inode, Kernel, mark_inode_dirty}
use filesystem_lab.Naive.Files.{
  Reading, needed_blocks, reserve_to, write_loop, finish_write, file_write, file_read,
}
use filesystem_lab.Naive.Files.Reserve.{reserve-Reserved}
use filesystem_lab.Naive.Files.Owned.{Owned, content, reserve-Owned}
use filesystem_lab.Naive.Files.Read.{Copies, file_read_bytes}
use filesystem_lab.Naive.Files.Spread.{Foreign, Spread, Spread-refl, reserve-Spread}
use filesystem_lab.Naive.Files.Write.{Written, write_loop-Written}

-- What the allocation before a write up to `end` leaves.
record Ready (end : ℕ) (sbi : SbInfo) (ino : Inode) (a : Result (Unit {0}) × SbInfo × Inode)
    : Type 0 where
  pub owned : Owned a.1 a.2
  pub keeps : (i : ℕ) → i < ino.block_count → a.2.block_pointers i ≡ ino.block_pointers i
  pub spread : Spread sbi ino a.1 a.2
  pub same_size : a.2.i_size ≡ ino.i_size
  pub grows : ino.block_count ≤ a.2.block_count
  pub answer : ((a.0 ≡ ok tt) × (end ≤ a.2.block_count * 512)) ⊎ (a.0 ≡ err enospc)

reserve_to-Ready :
    (end : ℕ) (sbi : SbInfo) (ino : Inode)
    → Owned sbi ino
    → Ready end sbi ino (reserve_to end sbi ino)
unfolding reserve_to
reserve_to-Ready end sbi ino o = elim (Bool-cases (ltb ino.i_size end)) [
  | inr fits ↦ rw fits (record {
    owned = o;
    keeps = λ i _. refl;
    spread = Spread-refl sbi ino;
    same_size = refl;
    grows = omega arith;
    answer = inl (refl, ground (arith, o.covers));
  })
  | inl more ↦
      let r = reserve-Reserved (needed_blocks end ino.i_size) sbi ino o.valid o.bounded in
      let (owned, size) = reserve-Owned (needed_blocks end ino.i_size) sbi ino o in
      rw more (record {
        owned = owned;
        keeps = r.keeps;
        spread = reserve-Spread (needed_blocks end ino.i_size) sbi ino o.valid;
        same_size = size;
        grows = r.grows;
        answer = elim r.answer [
          | inl (good, count) ↦ inl (good, omega (arith, count, o.covers))
          | inr bad ↦ inr bad
        ];
      })
]

-- What a write of all `len` bytes at `pos` leaves.
pub record Wrote (ino : Inode) (len pos : ℕ) (buf : Mem) (d : Device) (ino' : Inode) (d' : Device)
    : Type 0 where
  pub keeps : (i : ℕ) → i < ino.block_count → ino'.block_pointers i ≡ ino.block_pointers i
  pub covered : pos + len ≤ ino'.block_count * 512
  pub size_is : ino'.i_size ≡ (if ltb ino.i_size (pos + len) then pos + len else ino.i_size)
  pub new_data : (x : ℕ) → x < len → content ino' d'.blocks (pos + x) ≡ buf x
  pub old_data :
      (x : ℕ)
      → x / 512 < ino.block_count
      → (x < pos) ⊎ (pos + len ≤ x)
      → content ino' d'.blocks x ≡ content ino d.blocks x
  pub others : (b : ℕ) → Foreign ino' b → d'.blocks b ≡ d.blocks b

-- All bytes are written, or the device is full.
abbrev pub WriteAnswer :
    SbInfo → Inode → ℕ → ℕ → Mem → Device → Result ℕ × ℕ × Inode × SbInfo × Device → Type 0
WriteAnswer sbi ino len pos buf d (ok n, pos', ino', sbi', d') =
    (n ≡ len)
    × (pos' ≡ pos + len)
    × Owned sbi' ino'
    × Spread sbi ino sbi' ino'
    × Wrote ino len pos buf d ino' d'
WriteAnswer sbi ino len pos buf d (err e, pos', ino', sbi', d') =
    (e ≡ enospc)
    × (pos' ≡ pos)
    × Owned sbi' ino'
    × Spread sbi ino sbi' ino'
    × (ino'.i_size ≡ ino.i_size)
    × ((i : ℕ) → i < ino.block_count → ino'.block_pointers i ≡ ino.block_pointers i)
    × (d' ≡ d)

-- What a read of the written bytes gives: all of them.
abbrev pub ReadsBack : Kernel → ℕ → ℕ → Mem → Mem → Result ℕ × ℕ × Inode × SbInfo × Device → Type 0
ReadsBack k len pos buf out (ok n, _, ino', _, d') =
    let (answer, _, out', _) = file_read k ino' len pos out d' in
    (answer ≡ ok len) × ((x : ℕ) → x < len → out' x ≡ buf x)
ReadsBack k len pos buf out (err e, _, _, _, _) = e ≡ enospc

module _ (k : Kernel) (end : ℕ) (ino : Inode) where
  pointers-finish_write : (finish_write k end ino).block_pointers ≡ ino.block_pointers
  unfolding finish_write mark_inode_dirty
  pointers-finish_write = elim (Bool-cases (ltb ino.i_size end)) [
    | inl e ↦ rw e refl
    | inr e ↦ rw e refl
  ]

  size-finish_write :
      (finish_write k end ino).i_size ≡ (if ltb ino.i_size end then end else ino.i_size)
  unfolding finish_write mark_inode_dirty
  size-finish_write = ground arith

  count-finish_write : (finish_write k end ino).block_count ≡ ino.block_count
  unfolding finish_write mark_inode_dirty
  count-finish_write = ground arith

  number-finish_write : (finish_write k end ino).i_ino ≡ ino.i_ino
  unfolding finish_write mark_inode_dirty
  number-finish_write = ground arith

  finish_write-Owned :
      (sbi : SbInfo)
      → Owned sbi ino
      → end ≤ ino.block_count * 512
      → Owned sbi (finish_write k end ino)
  finish_write-Owned sbi o le = record {
    valid = o.valid;
    bounded = omega (arith, o.bounded, count-finish_write);
    covers = ground (arith, o.covers, count-finish_write, size-finish_write);
    in_data = rw (count-finish_write, pointers-finish_write) o.in_data;
    in_device = rw (count-finish_write, pointers-finish_write) o.in_device;
    no_more = rw (count-finish_write, pointers-finish_write) o.no_more;
    in_use = rw (count-finish_write, pointers-finish_write) o.in_use;
    apart = rw (count-finish_write, pointers-finish_write) o.apart;
  }

module _ (k : Kernel) (all : Copies k) (reads : (b : ℕ) → k.readable b ≡ true) where
  -- A write that stays within 8 blocks, to a file whose blocks are in order, with every block readable
  -- and no fault in the user's buffer: it writes all its bytes or returns -ENOSPC. In the first case
  -- the count is that of the bytes, the position moves by it, the file has the bytes from the
  -- position on and keeps every other byte of the blocks that it had, its size is the larger of the old
  -- one and the new position, and no block outside the file changes. In the second case the size, the
  -- position and the device stay. The blocks of the file are in order in both.
  pub file_write_bytes :
      (ino : Inode) (sbi : SbInfo) (len pos : ℕ) (buf : Mem) (d : Device)
      → Owned sbi ino
      → pos + len ≤ 4096
      → WriteAnswer sbi ino len pos buf d (file_write k ino sbi len pos buf d)
  unfolding file_write
  file_write_bytes ino sbi len pos buf d o limit =
      let fits : ltb 4096 (pos + len) ≡ false = ground arith in
      rw fits (go (reserve_to (pos + len) sbi ino) (reserve_to-Ready (pos + len) sbi ino o))
    where
      r0 : Reading
      r0 = record { pos = pos; remaining = len; ret = 0; buf = buf; dev = d }

      finish :
          (s : SbInfo) (i : Inode)
          → Ready (pos + len) sbi ino (ok tt, s, i)
          → pos + len ≤ i.block_count * 512
          → (a : Result (Unit {0}) × Reading) → (a.0 ≡ ok tt) × Written i r0 len a.1
          → WriteAnswer sbi ino len pos buf d (elim a.0 [
            | ok _ ↦ (ok a.1.ret, a.1.pos, finish_write k a.1.pos i, s, a.1.dev)
            | err e ↦ (err e, a.1.pos, finish_write k a.1.pos i, s, a.1.dev)
          ])
      finish s i ready room a (good, w) = rw good (
        omega (arith, w.ret_is),
        w.pos_is,
        finish_write-Owned k a.1.pos i s ready.owned (omega (arith, w.pos_is)),
        record {
          same_rest = ready.spread.same_rest;
          same_number = number-finish_write k a.1.pos i ∙ ready.spread.same_number;
          still_used = ready.spread.still_used;
          still_foreign = λ x h f j lt e.
              ready.spread.still_foreign x h f j (omega (arith, count)) (sym (pointer j) ∙ e);
        },
        record {
          keeps = λ j lt. pointer j ∙ ready.keeps j lt;
          covered = omega (arith, count);
          size_is = ground (arith, size-finish_write k a.1.pos i, w.pos_is, ready.same_size);
          new_data = λ x lt.
              at_home (pos + x)
              ∙ w.bytes (pos + x) (omega arith)
              ∙ memcpy_inside (content i d.blocks) pos (λ j. buf (0 + j)) len x lt
              ∙ ap buf (omega arith);
          old_data = λ x lt out.
              at_home x
              ∙ w.bytes x (omega (arith, ready.grows))
              ∙ memcpy_outside (content i d.blocks) pos (λ j. buf (0 + j)) len x out
              ∙ ap (λ b. d.blocks b (x % 512)) (ready.keeps (x / 512) lt);
          others = λ b f. w.others b (λ j lt e. f j (omega (arith, count)) (pointer j ∙ e));
        },
      )
        where
          count : (finish_write k a.1.pos i).block_count ≡ i.block_count
          count = count-finish_write k a.1.pos i

          pointer : (j : ℕ) → (finish_write k a.1.pos i).block_pointers j ≡ i.block_pointers j
          pointer j = ap (λ (f : ℕ → ℕ). f j) (pointers-finish_write k a.1.pos i)

          at_home :
              (x : ℕ)
              → content (finish_write k a.1.pos i) a.1.dev.blocks x ≡ content i a.1.dev.blocks x
          at_home x = ap (λ b. a.1.dev.blocks b (x % 512)) (pointer (x / 512))

      go :
          (q : Result (Unit {0}) × SbInfo × Inode)
          → Ready (pos + len) sbi ino q
          → WriteAnswer sbi ino len pos buf d (
              let (s, r) = write_loop k q.2 len r0 in
              elim q.0 [
                | err e ↦ (err e, pos, q.2, q.1, d)
                | ok _ ↦ elim s [
                  | ok _ ↦ (ok r.ret, r.pos, finish_write k r.pos q.2, q.1, r.dev)
                  | err e ↦ (err e, r.pos, finish_write k r.pos q.2, q.1, r.dev)
                ]
              ])
      go (ok _, s, i) ready = elim ready.answer [
        | inl (_, room) ↦
            finish s i ready room (write_loop k i len r0)
              (write_loop-Written k all reads i ready.owned.apart len r0 (omega arith) room)
        | inr bad ↦ absurd (cc bad)
      ]
      go (err e, s, i) ready = elim ready.answer [
        | inl (good, _) ↦ absurd (cc good)
        | inr full ↦ (cc full, refl, ready.owned, ready.spread, ready.same_size, ready.keeps, refl)
      ]

  -- A read after a write, at the same position and of as many bytes, returns that count and the bytes
  -- that were written, unless the write returned -ENOSPC. The write stays within 8 blocks, the
  -- blocks of the file are in order before it, every block is readable and no copy meets a fault.
  pub file_read-file_write_bytes :
      (ino : Inode) (sbi : SbInfo) (len pos : ℕ) (buf out : Mem) (d : Device)
      → Owned sbi ino
      → pos + len ≤ 4096
      → ReadsBack k len pos buf out (file_write k ino sbi len pos buf d)
  file_read-file_write_bytes ino sbi len pos buf out d o limit =
      go (file_write k ino sbi len pos buf d) (file_write_bytes ino sbi len pos buf d o limit)
    where
      go :
          (a : Result ℕ × ℕ × Inode × SbInfo × Device)
          → WriteAnswer sbi ino len pos buf d a
          → ReadsBack k len pos buf out a
      go (err e, _, _, _, _) w = w.0
      go (ok n, pos', ino', sbi', d') (_, _, owned, _, w) =
          let read = file_read_bytes k all reads ino' sbi' len pos out d' owned in
          let whole : min len (ino'.i_size - pos) ≡ len = ground (arith, w.size_is) in
          (
            read.0 ∙ ap ok whole,
            λ x lt.
                let inside : ltb x len ≡ true = ground arith in
                read.3 x ∙ rw (whole, inside) (w.new_data x lt),
          )
