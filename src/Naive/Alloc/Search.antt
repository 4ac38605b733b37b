-- ===== src/Naive/Alloc/Search.antt =====
-- The search of `naive_alloc_block` in naive/naivefs_super.c for a free block.
use filesystem_lab.Base.{
  ℕ, zero, suc, ◌+◌, ◌*◌, ◌/◌, ◌%◌, ◌≤◌, ◌-◌, ◌≡◌, Option, none, some, arith, Bool-cases,
  Option-cases, inl, inr, ◌==◌, leb, leb→le, if◌then◌else◌, refl,
}
use filesystem_lab.Base.Bytes.{Mem}
use filesystem_lab.Naive.Layout.{SbInfo}
use filesystem_lab.Naive.Alloc.{clear_bit_from, find_block_from, search_block}
use filesystem_lab.Naive.Alloc.Scan.{SetBetween, clear_bit_from-some, clear_bit_from-none}
use filesystem_lab.Naive.Alloc.Lowest.{
  AllSet, AllSet-byte, LowestFree, LowestFree-found, LowestFree-later,
}

-- What a search from bit `lo` up to `hi` returned.
abbrev pub Found : Mem → ℕ → ℕ → Option ℕ → Type 0
Found m lo hi none = AllSet m lo hi
Found m lo hi (some b) = LowestFree m lo hi b

Found-later :
    (m : Mem) (i s hi : ℕ) (o : Option ℕ)
    → s ≤ 8
    → SetBetween (m i) s 8
    → Found m ((i + 1) * 8) hi o
    → Found m (i * 8 + s) hi o
Found-later m i s hi none hs byte all = AllSet-byte m i s hi hs byte all
Found-later m i s hi (some b) hs byte r = LowestFree-later m i s hi b hs byte r

Found-hit :
    (m : Mem) (total i s hi j : ℕ)
    → hi ≤ total
    → LowestFree m (i * 8 + s) hi (i * 8 + j)
    → Found m (i * 8 + s) hi (if leb total (i * 8 + j) then none else some (i * 8 + j))
Found-hit m total i s hi j h r = elim (Bool-cases (leb total (i * 8 + j))) [
  | inl out ↦ absurd (omega (arith, r.below, leb→le _ _ out))
  | inr within ↦ rw within r
]

to_byte_end : (s : ℕ) → s ≤ 8 → s + (8 - s) ≡ 8
to_byte_end s h = omega arith

-- One byte, entered at bit `s`, then what the search from the next byte on returned.
Found-step :
    (m : Mem) (total i s hi : ℕ) (rest : Option ℕ)
    → s ≤ 8
    → (i + 1) * 8 ≤ hi
    → hi ≤ total
    → Found m ((i + 1) * 8) hi rest
    → Found m (i * 8 + s) hi (elim (clear_bit_from (m i) (8 - s) s) [
      | none ↦ rest
      | some j ↦ if leb total (i * 8 + j) then none else some (i * 8 + j)
    ])
Found-step m total i s hi rest hs room h r = elim (Option-cases (clear_bit_from (m i) (8 - s) s)) [
  | inl e ↦ rw e (
      Found-later m i s hi rest hs
        (rw (to_byte_end s hs) at (clear_bit_from-none (m i) (8 - s) s e)) r)
  | inr (j, e) ↦ rw e (
      Found-hit m total i s hi j h (
        LowestFree-found m i s hi j room
          (rw (to_byte_end s hs) at (clear_bit_from-some (m i) (8 - s) s j e))))
]

-- The bit at which the search enters byte `i`.
abbrev entry : ℕ → ℕ → ℕ → ℕ
entry start_byte start_bit i = if i == start_byte then start_bit else 0

find_block_from-Found :
    (m : Mem) (total start_byte start_bit n i hi : ℕ)
    → start_byte ≤ i
    → start_bit ≤ 8
    → hi ≡ (i + n) * 8
    → hi ≤ total
    → Found m
        (i * 8 + entry start_byte start_bit i)
        hi
        (find_block_from m total start_byte start_bit n i)
unfolding find_block_from
find_block_from-Found m total start_byte start_bit zero i hi hi' hb e h =
    λ k p q. absurd (omega arith)
find_block_from-Found m total start_byte start_bit (suc n) i hi hi' hb e h =
    let e0 : (i + 1) * 8 + entry start_byte start_bit (i + 1) ≡ (i + 1) * 8 = ground arith in
    Found-step m total i (entry start_byte start_bit i) hi _ (ground arith) (omega arith) h (
      rw e0 at (
        find_block_from-Found m total start_byte start_bit n (i + 1) hi (omega arith) hb
          (omega arith) h))

-- Where the search ends: after the last whole byte of the bitmap.
abbrev pub search_limit : SbInfo → ℕ
search_limit sbi = (sbi.data_block_no / 8 + (sbi.block_total / 8 - sbi.data_block_no / 8)) * 8

pub search_block-Found :
    (sbi : SbInfo)
    → sbi.data_block_no ≤ sbi.block_total
    → Found sbi.block_bitmap sbi.data_block_no (search_limit sbi) (search_block sbi)
unfolding search_block
search_block-Found sbi h =
    let start = sbi.data_block_no / 8 in
    let e : start * 8 + entry start (sbi.data_block_no % 8) start ≡ sbi.data_block_no =
      ground arith in
    rw e at (
      find_block_from-Found sbi.block_bitmap sbi.block_total start (sbi.data_block_no % 8)
        (sbi.block_total / 8 - start) start (search_limit sbi) (omega arith) (omega arith) refl
        (omega arith))
