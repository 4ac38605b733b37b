-- ===== src/Naive/Table/Frame.antt =====
-- What `naive_write_inode` leaves alone.
use filesystem_lab.Base.{
  ℕ, zero, suc, ◌+◌, ◌*◌, ◌≤◌, ◌≡◌, ◌≢◌, ◌⊎◌, ◌∙◌, refl, true, false, arith, inl, inr, Bool-cases,
  ok, err, eio,
}
use filesystem_lab.Base.Bytes.{Mem, store32, store32_ne}
use filesystem_lab.Device.{Device, Balanced, Tracked}
use filesystem_lab.Naive.Layout.{SbInfo}
use filesystem_lab.Naive.Kernel.{Inode, Kernel}
use filesystem_lab.Naive.Table.{store_pointers, encode_inode, table_block, write_inode}

store_pointers_ne :
    (p : ℕ → ℕ) (n i : ℕ) (m : Mem) (x : ℕ) → 4 * (3 + i + n) ≤ x → store_pointers p n i m x ≡ m x
unfolding store_pointers
store_pointers_ne p zero i m x h = refl
store_pointers_ne p (suc n) i m x h =
    store_pointers_ne p n (i + 1) (store32 m (3 + i) (p i)) x (omega arith)
    ∙ store32_ne m (3 + i) (p i) x (inr (omega arith))

-- One more store below `x`.
below : (m m0 : Mem) (w v x : ℕ) → 4 * w + 4 ≤ x → m x ≡ m0 x → store32 m w v x ≡ m0 x
below m m0 w v x h e = store32_ne m w v x (inr h) ∙ e

-- The assignments stay inside the 72 bytes of the fields when no more than 8 pointers are counted.
encode_inode_ne :
    (ino : Inode) (m : Mem) (x : ℕ) → ino.block_count ≤ 8 → 72 ≤ x → encode_inode ino m x ≡ m x
unfolding encode_inode
encode_inode_ne ino m x c h = below _ m 16 _ x (omega arith) (
    below _ m 17 _ x (omega arith) (
      below _ m 15 _ x (omega arith) (
        below _ m 14 _ x (omega arith) (
          below _ m 13 _ x (omega arith) (
            below _ m 12 _ x (omega arith) (
              below _ m 11 _ x (omega arith) (
                store_pointers_ne ino.block_pointers ino.block_count 0 _ x (omega arith)
                ∙ below _ m 2 _ x (omega arith)
                    (below _ m 1 _ x (omega arith) (below _ m 0 _ x (omega arith) refl)))))))))

-- `naive_write_inode` of an inode with at most 8 blocks keeps buffer references balanced, marks what
-- it writes, and changes only the first 72 bytes of the inode's own table block; it returns 0 when
-- that block can be read, and when the block cannot be read it returns -EIO and changes nothing.
pub write_inode_contained :
    (k : Kernel) (sbi : SbInfo) (ino : Inode) (d : Device)
    → ino.block_count ≤ 8
    → let (r, e) = write_inode k sbi ino d in
      Balanced d e
      × Tracked d e
      × ((b x : ℕ) → (b ≢ table_block sbi ino.i_ino) ⊎ (72 ≤ x) → e.blocks b x ≡ d.blocks b x)
      × (((k.readable (table_block sbi ino.i_ino) ≡ true) × (r ≡ ok tt))
          ⊎ ((k.readable (table_block sbi ino.i_ino) ≡ false) × (r ≡ err eio) × (e ≡ d)))
unfolding write_inode
write_inode_contained k sbi ino d c = elim (Bool-cases (k.readable (table_block sbi ino.i_ino))) [
  | inl good ↦ rw good (
    omega arith,
    (λ b u x. ground arith),
    (λ b x h. ground (arith, encode_inode_ne ino (d.blocks b) x c)),
    inl (refl, refl),
  )
  | inr bad ↦ rw bad (omega arith, (λ b u x. refl), (λ b x h. refl), inr (refl, refl, refl))
]
