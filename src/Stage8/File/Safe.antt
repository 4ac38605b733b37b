-- ===== src/Stage8/File/Safe.antt =====
-- `naive_file_write` of naive/naivefs-8/naivefs.c when blocks cannot be read and copies fault: what it
-- leaves of the rest of the file system.
use filesystem_lab.Base.{
  ℕ, zero, suc, ◌+◌, ◌/◌, ◌%◌, ◌<◌, ◌≤◌, ◌≡◌, refl, Bool, true, false, Option, none, some, arith,
  Bool-cases, inl, inr, if◌then◌else◌, ◌==◌, leb, ltb, Result, ok, err,
}
use filesystem_lab.Base.Bytes.{Mem}
use filesystem_lab.Device.{Device, take_buffer, brelse, write_buffer, mark_buffer_dirty}
use filesystem_lab.Stage8.State.{SbInfo, Inode, Kernel}
use filesystem_lab.Stage8.File.{
  Writing, write_chunk, map_block, unmap_block, write_step, write_loop, start_write, file_write,
}
use filesystem_lab.Stage8.File.Blocks.{Sound}
use filesystem_lab.Stage8.File.Frame.{
  Foreign, Safe, SafeStep, Safe-refl, Safe-trans, Sound-congr, MapWay, map_block-MapWay,
  mapped-Safe, unmapped-Safe,
}

-- One round of the copy, with any number of bytes moved.
write_step-Safe :
    (k : Kernel) (buf : Mem) (w : Writing)
    → Sound w.sbi w.disk
    → w.pos / 512 < 8
    → SafeStep w (write_step k buf w).1
unfolding write_step brelse mark_buffer_dirty write_buffer take_buffer
write_step-Safe k buf w s small = elim (Bool-cases (k.copied w.bytes_written n == n)) [
  | inl whole ↦ rw whole (record {
    sound = Sound-congr w.sbi w.sbi w.disk _ (λ _. refl) (λ _. refl) s.bytes refl refl refl refl s;
    still_used = λ x h. h;
    still_foreign = λ x h g. g;
    others = λ x y h g. rw (other x g) refl;
    same_layout = refl;
    same_inodes = refl;
    balanced = omega arith;
  })
  | inr part ↦ rw part (record {
    sound = s;
    still_used = λ x h. h;
    still_foreign = λ x h g. g;
    others = λ x y h g. rw (other x g) refl;
    same_layout = refl;
    same_inodes = refl;
    balanced = omega arith;
  })
]
  where
    n : ℕ
    n = write_chunk w.len (w.pos % 512)

    other : (x : ℕ) → Foreign w.disk x → (w.disk.i_block (w.pos / 512) == x) ≡ false
    other x g = ground (arith, g (w.pos / 512) small)

write_loop-Safe :
    (k : Kernel) (buf : Mem) (fuel : ℕ) (w : Writing)
    → Sound w.sbi w.disk
    → SafeStep w (write_loop k buf fuel w).1
unfolding write_loop
write_loop-Safe k buf zero w s = Safe-refl w.sbi w.disk w.dev s
write_loop-Safe k buf (suc fuel) w s = elim (Bool-cases (w.len == 0)) [
  | inl e ↦ rw e (Safe-refl w.sbi w.disk w.dev s)
  | inr more ↦ elim (Bool-cases (leb 8 (w.pos / 512))) [
    | inl e ↦ rw (more, e) (Safe-refl w.sbi w.disk w.dev s)
    | inr small ↦
        rw (more, small)
          (go (ground arith) (write_loop-Safe k buf fuel) (map_block w) (map_block-MapWay w s))
  ]
]
  where
    step :
        (w1 : Writing)
        → SafeStep w w1
        → ((v : Writing) → Sound v.sbi v.disk → SafeStep v (write_loop k buf fuel v).1)
        → (a : Result (Unit {0}) × Writing) → SafeStep w1 a.1
        → SafeStep w (
            let z : Result (Unit {0}) × Writing = elim a.0 [
              | ok _ ↦ write_loop k buf fuel a.1
              | err e ↦ (err e, a.1)
            ] in
            z.1)
    step w1 first ih (ok _, w2) second =
        let both = Safe-trans w w1 w2 first second in
        Safe-trans w w2 (write_loop k buf fuel w2).1 both (ih w2 both.sound)
    step w1 first ih (err e, w2) second = Safe-trans w w1 w2 first second

    round :
        ((v : Writing) → Sound v.sbi v.disk → SafeStep v (write_loop k buf fuel v).1)
        → (fresh : Bool) (w1 : Writing) → w1.pos / 512 < 8
        → SafeStep w w1
        → SafeStep w (unmap_block fresh w1)
        → SafeStep w (
            let z : Result (Unit {0}) × Writing =
              if k.readable (w1.disk.i_block (w1.pos / 512))
              then (let (s, w2) = write_step k buf w1 in
                  elim s [ ok _ ↦ write_loop k buf fuel w2 | err e ↦ (err e, w2) ])
              else (ok tt, unmap_block fresh w1) in
            z.1)
    round ih fresh w1 small first back =
        elim (Bool-cases (k.readable (w1.disk.i_block (w1.pos / 512)))) [
          | inl good ↦
              rw good (
                step w1 first ih (write_step k buf w1) (write_step-Safe k buf w1 first.sound small))
          | inr bad ↦ rw bad back
        ]

    go :
        w.pos / 512 < 8
        → ((v : Writing) → Sound v.sbi v.disk → SafeStep v (write_loop k buf fuel v).1)
        → (o : Option (Bool × Writing)) → MapWay w o
        → SafeStep w (
            let z : Result (Unit {0}) × Writing = elim o [
              | none ↦ (ok tt, w)
              | some (fresh, w1) ↦
                  if k.readable (w1.disk.i_block (w1.pos / 512))
                  then (let (s, w2) = write_step k buf w1 in
                      elim s [ ok _ ↦ write_loop k buf fuel w2 | err e ↦ (err e, w2) ])
                  else (ok tt, unmap_block fresh w1)
            ] in
            z.1)
    go small ih none way = Safe-refl w.sbi w.disk w.dev s
    go small ih (some (false, w1)) same =
        round ih false w1 (rw same small) (rw same (Safe-refl w.sbi w.disk w.dev s))
          (unfold unmap_block in rw same (Safe-refl w.sbi w.disk w.dev s))
    go small ih (some (true, w1)) (b, f, hole, same) =
        round ih true w1 (rw same small) (rw same (mapped-Safe w s small b f hole))
          (rw same (unmapped-Safe w s small b f hole))

-- `naive_file_write` of a file whose number is one of the inode table and whose blocks are in use, lie
-- in the data region behind the bitmaps and the table, and stand once in it, with any answers of the
-- kernel, blocks that cannot be read and faults in the user's buffer included: whatever it returns, the
-- blocks of the file are so again, every block and inode number in use before is in use, a block in use
-- that is not the file's does not become its and, in the data region, keeps its bytes, and every buffer
-- is given back.
pub file_write-Safe :
    (k : Kernel) (ino : Inode) (sbi : SbInfo) (len pos : ℕ) (buf : Mem) (d : Device)
    → ino.ino ≤ sbi.inodes_count
    → Sound sbi ino.disk
    → let (_, _, ino', sbi', d') = file_write k ino sbi len pos buf d in
      Safe sbi ino.disk d sbi' ino'.disk d'
unfolding file_write
file_write-Safe k ino sbi len pos buf d in_table s = elim (Bool-cases (ltb 4096 (pos + len))) [
  | inl long ↦ rw long (Safe-refl sbi ino.disk d s)
  | inr fits ↦ rw fits (
      go (write_loop k buf len (start_write ino sbi len pos d))
        (write_loop-Safe k buf len (start_write ino sbi len pos d) s))
]
  where
    go :
        (a : Result (Unit {0}) × Writing)
        → Safe sbi ino.disk d a.1.sbi a.1.disk a.1.dev
        → (let z : Result ℕ × ℕ × Inode × SbInfo × Device =
              let ino' = record ino {
                disk = a.1.disk;
                size = a.1.size;
                mtime = k.now;
                ctime = k.now;
                inode_dirty = true;
              } in
              elim a.0 [
                | ok _ ↦ (ok a.1.bytes_written, a.1.pos, ino', a.1.sbi, a.1.dev)
                | err e ↦ (err e, a.1.pos, ino', a.1.sbi, a.1.dev)
              ] in
            Safe sbi ino.disk d z.3 z.2.disk z.4)
    go (ok _, w) h = h
    go (err e, w) h = h
