-- ===== src/Naive/Alloc/Lowest.antt =====
-- The lowest clear bit of a byte array, from the clear bits of its bytes.
use filesystem_lab.Base.{ℕ, ◌+◌, ◌*◌, ◌/◌, ◌%◌, ◌≤◌, ◌<◌, ◌≡◌, true, false, arith}
use filesystem_lab.Base.Bytes.{Mem}
use filesystem_lab.Base.Bits.{byte_test, bit}
use filesystem_lab.Naive.Alloc.Scan.{SetBetween, FirstClear}

-- The bits of an array from `lo` up to `hi` are set.
abbrev pub AllSet : Mem → ℕ → ℕ → Type 0
AllSet m lo hi = (k : ℕ) → lo ≤ k → k < hi → bit m k ≡ true

pub bit-of_byte : (m : Mem) (i j : ℕ) → j < 8 → bit m (i * 8 + j) ≡ byte_test (m i) j
unfolding bit
bit-of_byte m i j h =
    let p : (i * 8 + j) / 8 ≡ i = omega arith in
    let q : (i * 8 + j) % 8 ≡ j = omega arith in rw (p, q)

-- A byte with no clear bit from `s` on, then set bits from the next byte on.
pub AllSet-byte :
    (m : Mem) (i s hi : ℕ)
    → s ≤ 8
    → SetBetween (m i) s 8
    → AllSet m ((i + 1) * 8) hi
    → AllSet m (i * 8 + s) hi
unfolding bit
AllSet-byte m i s hi hs byte rest k p q = ground (arith, byte (k % 8), rest k)

-- Bit `n` is the lowest clear one from `lo` on, and lies below `hi`.
pub record LowestFree (m : Mem) (lo hi n : ℕ) : Type 0 where
  pub from : lo ≤ n
  pub below : n < hi
  pub is_free : bit m n ≡ false
  pub least : AllSet m lo n

pub LowestFree-found :
    (m : Mem) (i s hi j : ℕ)
    → (i + 1) * 8 ≤ hi
    → FirstClear (m i) s 8 j
    → LowestFree m (i * 8 + s) hi (i * 8 + j)
unfolding bit
LowestFree-found m i s hi j h c = record {
  from = omega (arith, c.from);
  below = omega (arith, c.below);
  is_free = rw (bit-of_byte m i j c.below) c.is_clear;
  least = λ k p q. ground (arith, c.first (k % 8), c.below);
}

pub LowestFree-later :
    (m : Mem) (i s hi n : ℕ)
    → s ≤ 8
    → SetBetween (m i) s 8
    → LowestFree m ((i + 1) * 8) hi n
    → LowestFree m (i * 8 + s) hi n
LowestFree-later m i s hi n hs byte r = record {
  from = omega (arith, r.from);
  below = r.below;
  is_free = r.is_free;
  least = AllSet-byte m i s n hs byte r.least;
}
