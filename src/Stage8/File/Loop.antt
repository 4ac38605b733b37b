-- ===== src/Stage8/File/Loop.antt =====
-- The loop of `naive_file_write` (naive/naivefs-8/naivefs.c) from its start to its end.
use filesystem_lab.Base.{
  ℕ, zero, suc, ◌+◌, ◌-◌, ◌/◌, ◌≤◌, ◌<◌, ◌≡◌, ◌≢◌, ◌∙◌, ◌⊎◌, refl, sym, ap, Bool, true, false,
  Option, none, some, arith, Bool-cases, inl, inr, if◌then◌else◌, ◌==◌, ==→eq, ltb, leb, ◌&&◌,
  Result, ok, err, lt_or_le, subst,
}
use filesystem_lab.Base.Bytes.{Mem}
use filesystem_lab.Base.Bits.{bit}
use filesystem_lab.Stage8.State.{DiskInode, Kernel}
use filesystem_lab.Stage8.Bitmap.{AllSet}
use filesystem_lab.Stage8.File.{Writing, map_block, unmap_block, write_step, write_loop}
use filesystem_lab.Stage8.File.Blocks.{Sound, content, MappedBlock, MapAnswer, map_block-MapAnswer}
use filesystem_lab.Stage8.File.Write.{Copies, Stepped, write_step-Stepped}

-- How far a write that began in `w0` has come in `w`.
pub record Progress (buf : Mem) (w0 w : Writing) : Type 0 where
  pub sound : Sound w.sbi w.disk
  pub kept : (i : ℕ) → w0.disk.i_block i ≢ 0 → w.disk.i_block i ≡ w0.disk.i_block i
  pub pos_is : w.pos ≡ w0.pos + w.bytes_written
  pub len_is : w.bytes_written + w.len ≡ w0.len
  pub new_data :
      (x : ℕ)
      → x < w.bytes_written
      → (w.disk.i_block ((w0.pos + x) / 512) ≢ 0)
        × (content w.disk w.dev.blocks (w0.pos + x) ≡ buf x)
  pub old_data :
      (x : ℕ)
      → x / 512 < 8
      → (x < w0.pos) ⊎ (w0.pos + w.bytes_written ≤ x)
      → w0.disk.i_block (x / 512) ≢ 0
      → content w.disk w.dev.blocks x ≡ content w0.disk w0.dev.blocks x
  pub size_is : w.file_size ≡ (
      if w.bytes_written == 0
      then w0.file_size
      else if ltb w0.file_size w.pos
      then w.pos
      else w0.file_size)
  pub disk_size_is : w.disk.i_size ≡ w.file_size

-- A round that maps the block and copies a chunk.
module _ (buf : Mem) (w0 w w1 w2 : Writing) where
  Progress-step :
      w0.pos + w0.len ≤ 4096
      → Progress buf w0 w
      → 0 < w.len
      → w.bytes_written < w0.len
      → MappedBlock w w1
      → Stepped buf w1 w2
      → Progress buf w0 w2
  Progress-step limit p more room m t = record {
    sound = rw (t.sbi_is) (Sound-pointers (sym t.pointers) m.sound);
    kept = λ i nz.
        ap (λ (f : ℕ → ℕ). f i) t.pointers
        ∙ m.kept i (λ z. nz (sym (p.kept i nz) ∙ z))
        ∙ p.kept i nz;
    pos_is = omega (arith, p.pos_is, t.pos_is, t.written_is, pos1, written1);
    len_is = omega (arith, p.len_is, t.len_is, t.written_is, len1, written1);
    new_data = λ x lt. both x lt (lt_or_le x w.bytes_written);
    old_data = old;
    size_is = ground (
      arith, p.size_is, p.pos_is, t.size_is, t.pos_is, t.written_is, pos1, len1, written1, size1,
    );
    disk_size_is = t.disk_size_is (m.same_size ∙ p.disk_size_is ∙ sym size1);
  }
    where
      pos1 : w1.pos ≡ w.pos
      pos1 = ap (λ z. z.pos) m.rest

      len1 : w1.len ≡ w.len
      len1 = ap (λ z. z.len) m.rest

      written1 : w1.bytes_written ≡ w.bytes_written
      written1 = ap (λ z. z.bytes_written) m.rest

      size1 : w1.file_size ≡ w.file_size
      size1 = ap (λ z. z.file_size) m.rest

      dev1 : w1.dev ≡ w.dev
      dev1 = ap (λ z. z.dev) m.rest

      present2 : (i : ℕ) → w1.disk.i_block i ≢ 0 → w2.disk.i_block i ≢ 0
      present2 i nz z = nz (sym (ap (λ (f : ℕ → ℕ). f i) t.pointers) ∙ z)

      present1 : (i : ℕ) → w.disk.i_block i ≢ 0 → w1.disk.i_block i ≢ 0
      present1 i nz z = nz (sym (m.kept i nz) ∙ z)

      same_content :
          (x : ℕ)
          → w.disk.i_block (x / 512) ≢ 0
          → content w1.disk w1.dev.blocks x ≡ content w.disk w.dev.blocks x
      same_content x nz = rw (m.kept (x / 512) nz, dev1)

      outside : (x : ℕ) → (x < w.pos) ⊎ (w2.pos ≤ x) → (leb w1.pos x && ltb x w2.pos) ≡ false
      outside x o = ground (arith, pos1)

      untouched :
          (x : ℕ)
          → x / 512 < 8
          → (x < w.pos) ⊎ (w2.pos ≤ x)
          → w.disk.i_block (x / 512) ≢ 0
          → content w2.disk w2.dev.blocks x ≡ content w.disk w.dev.blocks x
      untouched x lt o nz =
          t.bytes x lt (present1 (x / 512) nz) ∙ rw (outside x o) (same_content x nz)

      old :
          (x : ℕ)
          → x / 512 < 8
          → (x < w0.pos) ⊎ (w0.pos + w2.bytes_written ≤ x)
          → w0.disk.i_block (x / 512) ≢ 0
          → content w2.disk w2.dev.blocks x ≡ content w0.disk w0.dev.blocks x
      old x lt o nz =
          untouched x lt (ground (arith, p.pos_is, t.pos_is, t.written_is, pos1, written1))
            (λ z. nz (sym (p.kept (x / 512) nz) ∙ z))
          ∙ p.old_data x lt (ground (arith, t.written_is, written1)) nz

      inside :
          (x : ℕ)
          → w.bytes_written ≤ x
          → x < w2.bytes_written
          → (leb w1.pos (w0.pos + x) && ltb (w0.pos + x) w2.pos) ≡ true
      inside x le lt = ground (arith, p.pos_is, t.pos_is, t.written_is, pos1, written1)

      here : (x : ℕ) → w.bytes_written ≤ x → x < w2.bytes_written → (w0.pos + x) / 512 ≡ w.pos / 512
      here x le lt = omega (arith, p.pos_is, t.pos_is, t.written_is, pos1, written1)

      source : (x : ℕ) → w.bytes_written ≤ x → w1.bytes_written + (w0.pos + x - w1.pos) ≡ x
      source x le = omega (arith, p.pos_is, pos1, written1)

      both :
          (x : ℕ)
          → x < w2.bytes_written
          → (x < w.bytes_written) ⊎ (w.bytes_written ≤ x)
          → (w2.disk.i_block ((w0.pos + x) / 512) ≢ 0)
            × (content w2.disk w2.dev.blocks (w0.pos + x) ≡ buf x)
      both x lt (inl lo) =
          let (nz, same) = p.new_data x lo in
          (
            present2 _ (present1 _ nz),
            untouched (w0.pos + x) (omega (arith, p.len_is)) (inl (omega (arith, p.pos_is))) nz
                ∙ same,
          )
      both x lt (inr hi) =
          let there : w1.disk.i_block ((w0.pos + x) / 512) ≢ 0 = rw (here x hi lt) m.present in
          (
            present2 _ there,
            t.bytes (w0.pos + x) (omega (arith, here x hi lt, p.len_is, p.pos_is)) there
                ∙ rw (inside x hi lt, source x hi) refl,
          )

      Sound-pointers : {a b : DiskInode} → a.i_block ≡ b.i_block → Sound w1.sbi a → Sound w1.sbi b
      Sound-pointers {a} {b} e s = record {
        bytes = s.bytes;
        after_bitmaps = s.after_bitmaps;
        after_tables = s.after_tables;
        in_data = λ i lt.
            subst (λ (f : ℕ → ℕ). f i ≢ 0 → w1.sbi.data_blocks_start ≤ f i) e (s.in_data i lt);
        data_fits = s.data_fits;
        in_use = λ i lt.
            subst (λ (f : ℕ → ℕ). f i ≢ 0 → bit w1.sbi.block_bitmap (f i) ≡ true) e (s.in_use i lt);
        apart =
            λ i j li lj. subst (λ (f : ℕ → ℕ). f i ≢ 0 → f i ≡ f j → i ≡ j) e (s.apart i j li lj);
      }

-- Where a write ends: all bytes are written, or no data block is free.
abbrev pub Ended : Writing → Type 0
Ended w = (w.len ≡ 0) ⊎ AllSet w.sbi.block_bitmap w.sbi.data_blocks_start w.sbi.blocks_count

abbrev pub LoopAnswer : Mem → Writing → Result (Unit {0}) × Writing → Type 0
LoopAnswer buf w0 a = (a.0 ≡ ok tt) × Progress buf w0 a.1 × Ended a.1

module _ (k : Kernel) (all : Copies k) (reads : (b : ℕ) → k.readable b ≡ true) (buf : Mem)
    (w0 : Writing) where
  -- The loop ends within one round for each byte that is left.
  pub write_loop-Progress :
      w0.pos + w0.len ≤ 4096
      → (fuel : ℕ) (w : Writing) → w.len ≤ fuel
      → Progress buf w0 w
      → LoopAnswer buf w0 (write_loop k buf fuel w)
  unfolding write_loop
  write_loop-Progress limit zero w enough p = (refl, p, inl (omega arith))
  write_loop-Progress limit (suc fuel) w enough p = elim (Bool-cases (w.len == 0)) [
    | inl e ↦ rw e (refl, p, inl (==→eq _ _ e))
    | inr e ↦
        rw (e, in_range (positive e))
          (go (write_loop-Progress limit fuel) (positive e) (map_block w)
            (map_block-MapAnswer w p.sound (in_block (positive e))))
  ]
    where
      positive : (w.len == 0) ≡ false → 0 < w.len
      positive e = ground arith

      in_block : 0 < w.len → w.pos / 512 < 8
      in_block more = omega (arith, p.pos_is, p.len_is)

      in_range : 0 < w.len → leb 8 (w.pos / 512) ≡ false
      in_range more = ground (arith, in_block more)

      next : Writing → Result (Unit {0}) × Writing
      next = write_loop k buf fuel

      go :
          ((v : Writing) → v.len ≤ fuel → Progress buf w0 v → LoopAnswer buf w0 (next v))
          → 0 < w.len
          → (o : Option (Bool × Writing)) → MapAnswer w o
          → LoopAnswer buf w0 (elim o [
            | none ↦ (ok tt, w)
            | some (fresh, w1) ↦
                if k.readable (w1.disk.i_block (w1.pos / 512))
                then (let (s, w2) = write_step k buf w1 in
                    elim s [ ok _ ↦ next w2 | err e ↦ (err e, w2) ])
                else (ok tt, unmap_block fresh w1)
          ])
      go ih more none full = (refl, p, inr full)
      go ih more (some (fresh, w1)) m =
          rw (reads (w1.disk.i_block (w1.pos / 512)), done.0)
            (ih (write_step k buf w1).1 (omega (arith, done.1.len_is, len1, done.1.written_is)) (
              Progress-step buf w0 w w1 (write_step k buf w1).1 limit p more
                (omega (arith, p.len_is)) m done.1))
        where
          pos1 : w1.pos ≡ w.pos
          pos1 = ap (λ z. z.pos) m.rest

          len1 : w1.len ≡ w.len
          len1 = ap (λ z. z.len) m.rest

          done : ((write_step k buf w1).0 ≡ ok tt) × Stepped buf w1 (write_step k buf w1).1
          done =
              write_step-Stepped k all buf w1 m.sound (rw pos1 (in_block more)) (rw pos1 m.present)
