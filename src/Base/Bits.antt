-- ===== src/Base/Bits.antt =====
-- Single bits of a byte and of a byte array: the tests and updates of the source's bitmaps.
use Prim.Native.Nat.{ℕ, zero, suc, ◌-◌, ◌/◌, ◌%◌, ◌^◌, ◌<◌, bit_and, bit_or}
use mathlib.Core.Path.{◌≡◌, refl}
use mathlib.Core.Bool.{Bool, true, false, not, ◌&&◌}
use native.Mathlib.Omega.{arith}
use filesystem_lab.Base.Tests.{◌==◌, if◌then◌else◌, ltb, update}

-- The test holds for all numbers up to a bound, found by running it.
every : (ℕ → Bool) → ℕ → Bool
every test zero = true
every test (suc k) = let below = every test k in if test k then below else false

every_at : (test : ℕ → Bool) (i k : ℕ) → i < k → every test k ≡ true → test i ≡ true
unfolding every
every_at test i zero lt h = absurd (omega (arith, lt))
every_at test i (suc k) lt h = ground (arith, every_at test i k)

abbrev beq : Bool → Bool → Bool
beq true b = b
beq false b = not b

beq→eq : (a b : Bool) → beq a b ≡ true → a ≡ b
beq→eq a b h = ground arith

-- `b & (1 << j)` as a truth value, `b | (1 << j)`, and `b & ~(1 << j)` in an unsigned char.
unfoldable pub byte_test : ℕ → ℕ → Bool
byte_test b j = not (bit_and b (2 ^ j) == 0)

unfoldable pub byte_set : ℕ → ℕ → ℕ
byte_set b j = bit_or b (2 ^ j)

pub byte_clear : ℕ → ℕ → ℕ
byte_clear b j = bit_and b (255 - 2 ^ j)

-- `(b >> j) & 1` as a truth value.
unfoldable pub byte_shift_test : ℕ → ℕ → Bool
byte_shift_test b j = bit_and (b / 2 ^ j) 1 == 1

abbrev for_bits : (ℕ → ℕ → Bool) → Bool
for_bits p = every (λ b. every (λ j. p b j) 8) 256

abbrev for_bit_pairs : (ℕ → ℕ → ℕ → Bool) → Bool
for_bit_pairs p = for_bits (λ b j. every (λ k. p b j k) 8)

for_bits_sound : (p : ℕ → ℕ → Bool) (b j : ℕ) → for_bits p ≡ true → b < 256 → j < 8 → p b j ≡ true
for_bits_sound p b j h hb hj =
    every_at (p b) j 8 hj (every_at (λ b. every (λ j. p b j) 8) b 256 hb h)

for_bit_pairs_sound :
    (p : ℕ → ℕ → ℕ → Bool) (b j k : ℕ)
    → for_bit_pairs p ≡ true
    → b < 256
    → j < 8
    → k < 8
    → p b j k ≡ true
for_bit_pairs_sound p b j k h hb hj hk =
    every_at (p b j) k 8 hk (for_bits_sound (λ b j. every (λ k. p b j k) 8) b j h hb hj)

set_table :
    for_bit_pairs
      (λ b j k. beq (byte_test (byte_set b j) k) (if j == k then true else byte_test b k))
    ≡ true
unfolding every byte_test byte_set
set_table = refl

clear_table :
    for_bit_pairs
      (λ b j k. beq (byte_test (byte_clear b j) k) (if j == k then false else byte_test b k))
    ≡ true
unfolding every byte_test byte_clear
clear_table = refl

range_table : for_bits (λ b j. ltb (byte_set b j) 256 && ltb (byte_clear b j) 256) ≡ true
unfolding every byte_set byte_clear
range_table = refl

shift_table : for_bits (λ b j. beq (byte_shift_test b j) (byte_test b j)) ≡ true
unfolding every byte_test byte_shift_test
shift_table = refl

full_table : every (λ j. byte_test 255 j) 8 ≡ true
unfolding every byte_test
full_table = refl

byte_test-byte_set :
    (b j k : ℕ)
    → b < 256
    → j < 8
    → k < 8
    → byte_test (byte_set b j) k ≡ (if j == k then true else byte_test b k)
byte_test-byte_set b j k hb hj hk = beq→eq _ _ (for_bit_pairs_sound _ b j k set_table hb hj hk)

byte_test-byte_clear :
    (b j k : ℕ)
    → b < 256
    → j < 8
    → k < 8
    → byte_test (byte_clear b j) k ≡ (if j == k then false else byte_test b k)
byte_test-byte_clear b j k hb hj hk = beq→eq _ _ (for_bit_pairs_sound _ b j k clear_table hb hj hk)

byte_range : (b j : ℕ) → b < 256 → j < 8 → (byte_set b j < 256) × (byte_clear b j < 256)
byte_range b j hb hj = ground (arith, for_bits_sound _ b j range_table hb hj)

pub byte_shift_test-eq : (b j : ℕ) → b < 256 → j < 8 → byte_shift_test b j ≡ byte_test b j
byte_shift_test-eq b j hb hj = beq→eq _ _ (for_bits_sound _ b j shift_table hb hj)

pub byte_test_full : (j : ℕ) → j < 8 → byte_test 255 j ≡ true
byte_test_full j hj = every_at _ j 8 hj full_table

-- Bit `n` of a byte array, as the source addresses it: byte `n / 8`, bit `n % 8`.
unfoldable pub bit : (ℕ → ℕ) → ℕ → Bool
bit m n = byte_test (m (n / 8)) (n % 8)

unfoldable pub set_bit : (ℕ → ℕ) → ℕ → ℕ → ℕ
set_bit m n = update m (n / 8) (byte_set (m (n / 8)) (n % 8))

unfoldable pub clear_bit : (ℕ → ℕ) → ℕ → ℕ → ℕ
clear_bit m n = update m (n / 8) (byte_clear (m (n / 8)) (n % 8))

-- The values of an `unsigned char` array.
abbrev pub IsBytes : (ℕ → ℕ) → Type 0
IsBytes m = (i : ℕ) → m i < 256

same_bit : (n k : ℕ) → n / 8 ≡ k / 8 → n % 8 ≡ k % 8 → n ≡ k
same_bit n k p q = omega arith

pub bit-set_bit :
    (m : ℕ → ℕ) (n k : ℕ) → IsBytes m → bit (set_bit m n) k ≡ (if n == k then true else bit m k)
unfolding bit set_bit
bit-set_bit m n k h = ground (
  arith,
  same_bit n k,
  byte_test-byte_set (m (n / 8)) (n % 8) (k % 8) (h (n / 8)) (omega arith) (omega arith),
)

pub bit-clear_bit :
    (m : ℕ → ℕ) (n k : ℕ) → IsBytes m → bit (clear_bit m n) k ≡ (if n == k then false else bit m k)
unfolding bit clear_bit
bit-clear_bit m n k h = ground (
  arith,
  same_bit n k,
  byte_test-byte_clear (m (n / 8)) (n % 8) (k % 8) (h (n / 8)) (omega arith) (omega arith),
)

pub set_bit-IsBytes : (m : ℕ → ℕ) (n : ℕ) → IsBytes m → IsBytes (set_bit m n)
unfolding set_bit
set_bit-IsBytes m n h i =
    ground (arith, h i, byte_range (m (n / 8)) (n % 8) (h (n / 8)) (omega arith))

pub clear_bit-IsBytes : (m : ℕ → ℕ) (n : ℕ) → IsBytes m → IsBytes (clear_bit m n)
unfolding clear_bit
clear_bit-IsBytes m n h i =
    ground (arith, h i, byte_range (m (n / 8)) (n % 8) (h (n / 8)) (omega arith))
