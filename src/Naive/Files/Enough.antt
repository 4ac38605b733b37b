-- ===== src/Naive/Files/Enough.antt =====
-- The fuel of the loops of naive/naivefs_file.c: one round for each byte that remains is enough.
use filesystem_lab.Base.{
  ℕ, zero, suc, ◌/◌, ◌%◌, ◌≤◌, ◌<◌, ◌≡◌, refl, true, false, arith, Bool-cases, inl, inr, Result, ok,
  err, ◌==◌, leb, ◌||◌,
}
use filesystem_lab.Naive.Kernel.{Inode, Kernel}
use filesystem_lab.Naive.Files.{Reading, chunk, read_step, read_loop, write_step, write_loop}

-- A round that goes on leaves fewer bytes.
read_step-shrinks :
    (k : Kernel) (b : ℕ) (r : Reading)
    → (r.remaining == 0) ≡ false
    → (read_step k b r).0 ≡ ok tt
    → (read_step k b r).1.remaining < r.remaining
unfolding read_step
read_step-shrinks k b r more =
    elim (Bool-cases
      (k.copied r.ret (chunk r.remaining (r.pos % 512)) == chunk r.remaining (r.pos % 512))) [
        | inl whole ↦ rw whole (λ _. ground arith)
        | inr part ↦ rw part (λ bad. absurd (cc bad))
      ]

write_step-shrinks :
    (k : Kernel) (b : ℕ) (r : Reading)
    → (r.remaining == 0) ≡ false
    → (write_step k b r).0 ≡ ok tt
    → (write_step k b r).1.remaining < r.remaining
unfolding write_step
write_step-shrinks k b r more =
    elim (Bool-cases
      (k.copied r.ret (chunk r.remaining (r.pos % 512)) == chunk r.remaining (r.pos % 512))) [
        | inl whole ↦ rw whole (λ _. ground arith)
        | inr part ↦ rw part (λ bad. absurd (cc bad))
      ]

-- After such a round two ways to go on that agree on what is left give the same result.
same_next :
    (n m : ℕ) (f g : Reading → Result (Unit {0}) × Reading) (r : Reading)
    → r.remaining ≤ suc n
    → r.remaining ≤ suc m
    → (s : Result (Unit {0}) × Reading) → (s.0 ≡ ok tt → s.1.remaining < r.remaining)
    → ((v : Reading) → v.remaining ≤ n → v.remaining ≤ m → f v ≡ g v)
    → (let x : Result (Unit {0}) × Reading = elim s.0 [ ok _ ↦ f s.1 | err e ↦ (err e, s.1) ] in
        let y : Result (Unit {0}) × Reading = elim s.0 [ ok _ ↦ g s.1 | err e ↦ (err e, s.1) ] in
        x ≡ y)
same_next n m f g r a b (ok _, r') less same =
    let lt = less refl in same r' (omega arith) (omega arith)
same_next n m f g r a b (err e, r') less same = refl

module _ (k : Kernel) (ino : Inode) where
  read_loop-enough :
      (fuel fuel' : ℕ) (r : Reading)
      → r.remaining ≤ fuel
      → r.remaining ≤ fuel'
      → read_loop k ino fuel r ≡ read_loop k ino fuel' r
  unfolding read_loop
  read_loop-enough zero zero r a b = refl
  read_loop-enough zero (suc n) r a b =
      let none_left : (r.remaining == 0) ≡ true = ground arith in rw none_left refl
  read_loop-enough (suc n) zero r a b =
      let none_left : (r.remaining == 0) ≡ true = ground arith in rw none_left refl
  read_loop-enough (suc n) (suc m) r a b = elim (Bool-cases (r.remaining == 0)) [
    | inl e ↦ rw e refl
    | inr more ↦
        elim (Bool-cases
          (leb ino.block_count (r.pos / 512) || ino.block_pointers (r.pos / 512) == 0)) [
            | inl hole ↦ rw (more, hole) refl
            | inr there ↦ elim (Bool-cases (k.readable (ino.block_pointers (r.pos / 512)))) [
              | inr bad ↦ rw (more, there, bad) refl
              | inl good ↦
                  rw (more, there, good)
                    (same_next n m (read_loop k ino n) (read_loop k ino m) r a b
                      (read_step k (ino.block_pointers (r.pos / 512)) r)
                      (read_step-shrinks k (ino.block_pointers (r.pos / 512)) r more)
                      (read_loop-enough n m))
            ]
          ]
  ]

  write_loop-enough :
      (fuel fuel' : ℕ) (r : Reading)
      → r.remaining ≤ fuel
      → r.remaining ≤ fuel'
      → write_loop k ino fuel r ≡ write_loop k ino fuel' r
  unfolding write_loop
  write_loop-enough zero zero r a b = refl
  write_loop-enough zero (suc n) r a b =
      let none_left : (r.remaining == 0) ≡ true = ground arith in rw none_left refl
  write_loop-enough (suc n) zero r a b =
      let none_left : (r.remaining == 0) ≡ true = ground arith in rw none_left refl
  write_loop-enough (suc n) (suc m) r a b = elim (Bool-cases (r.remaining == 0)) [
    | inl e ↦ rw e refl
    | inr more ↦ elim (Bool-cases (leb ino.block_count (r.pos / 512))) [
      | inl hole ↦ rw (more, hole) refl
      | inr there ↦ elim (Bool-cases (k.readable (ino.block_pointers (r.pos / 512)))) [
        | inr bad ↦ rw (more, there, bad) refl
        | inl good ↦
            rw (more, there, good)
              (same_next n m (write_loop k ino n) (write_loop k ino m) r a b
                (write_step k (ino.block_pointers (r.pos / 512)) r)
                (write_step-shrinks k (ino.block_pointers (r.pos / 512)) r more)
                (write_loop-enough n m))
      ]
    ]
  ]

  -- The loops of `naive_file_read` and `naive_file_write` end within one round for each byte that remains,
  -- with any inode and any answers of the kernel, faults and unreadable blocks included: more
  -- rounds than that change nothing of the result.
  pub file_loops_end :
      (fuel : ℕ) (r : Reading)
      → r.remaining ≤ fuel
      → (read_loop k ino fuel r ≡ read_loop k ino r.remaining r)
        × (write_loop k ino fuel r ≡ write_loop k ino r.remaining r)
  file_loops_end fuel r a = (
    read_loop-enough fuel r.remaining r a (omega arith),
    write_loop-enough fuel r.remaining r a (omega arith),
  )
