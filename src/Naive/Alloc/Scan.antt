-- ===== src/Naive/Alloc/Scan.antt =====
-- What the search for a clear bit in one byte finds: the lowest one.
use filesystem_lab.Base.{
  ℕ, zero, suc, ◌+◌, ◌≤◌, ◌<◌, ◌≡◌, true, false, none, some, arith, Bool-cases, inl, inr,
}
use filesystem_lab.Base.Bits.{byte_test}
use filesystem_lab.Naive.Alloc.{clear_bit_from}

-- The bits of a byte from `j` up to `k` are set.
abbrev pub SetBetween : ℕ → ℕ → ℕ → Type 0
SetBetween b j k = (l : ℕ) → j ≤ l → l < k → byte_test b l ≡ true

pub record FirstClear (b j end k : ℕ) : Type 0 where
  pub from : j ≤ k
  pub below : k < end
  pub is_clear : byte_test b k ≡ false
  pub first : SetBetween b j k

pub clear_bit_from-some : (b n j k : ℕ) → clear_bit_from b n j ≡ some k → FirstClear b j (j + n) k
unfolding clear_bit_from
clear_bit_from-some b zero j k h = absurd (ground arith)
clear_bit_from-some b (suc n) j k h = elim (Bool-cases (byte_test b j)) [
  | inl used ↦ later used (clear_bit_from-some b n (j + 1) k (ground arith))
  | inr free ↦
      let e : j ≡ k = ground arith in
      record {
        from = omega arith;
        below = omega arith;
        is_clear = rw (← e) free;
        first = λ l p q. absurd (omega arith);
      }
]
  where
    later : byte_test b j ≡ true → FirstClear b (j + 1) (j + 1 + n) k → FirstClear b j (j + suc n) k
    later used r = record {
      from = omega arith;
      below = omega arith;
      is_clear = r.is_clear;
      first = λ l p q. ground (arith, r.first l);
    }

pub clear_bit_from-none : (b n j : ℕ) → clear_bit_from b n j ≡ none → SetBetween b j (j + n)
unfolding clear_bit_from
clear_bit_from-none b zero j h l p q = absurd (omega arith)
clear_bit_from-none b (suc n) j h l p q = elim (Bool-cases (byte_test b j)) [
  | inl used ↦ ground (arith, clear_bit_from-none b n (j + 1) (ground arith) l)
  | inr free ↦ absurd (ground arith)
]
