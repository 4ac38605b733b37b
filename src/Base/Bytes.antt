-- ===== src/Base/Bytes.antt =====
-- Bytes in memory: little-endian words, and the C string functions that the source calls.
use Prim.Native.Nat.{ℕ, zero, suc, ◌+◌, ◌-◌, ◌*◌, ◌/◌, ◌%◌, ◌^◌, ◌≤◌, ◌<◌}
use mathlib.Core.Path.{◌≡◌}
use mathlib.Core.Bool.{Bool, true, ◌&&◌}
use mathlib.Core.Logic.{◌⊎◌}
use mathlib.Core.List.{List, [], ◌∷◌}
use native.Mathlib.Omega.{arith}
use filesystem_lab.Base.Tests.{◌==◌, if◌then◌else◌, ltb, leb, get_or}

-- The bytes from an address on.
abbrev pub Mem : Type 0
Mem = ℕ → ℕ

-- `le32_to_cpu` of the aligned word `w`, which stands at byte offset `4 * w`.
unfoldable pub load32 : Mem → ℕ → ℕ
load32 m w = m (4 * w) + 256 * m (4 * w + 1) + 65536 * m (4 * w + 2) + 16777216 * m (4 * w + 3)

-- The aligned word `w` becomes `cpu_to_le32(v)`; `v` is cut to 32 bits.
unfoldable pub store32 : Mem → ℕ → ℕ → Mem
store32 m w v i =
    if i == 4 * w
    then v % 256
    else if i == 4 * w + 1
    then v / 256 % 256
    else if i == 4 * w + 2
    then v / 65536 % 256
    else if i == 4 * w + 3
    then v / 16777216 % 256
    else m i

pub load32-store32 :
    (m : Mem) (w v x : ℕ) → load32 (store32 m w v) x ≡ (if w == x then v % 2 ^ 32 else load32 m x)
unfolding load32 store32
load32-store32 m w v x = ground arith

-- A write to one word leaves every other byte.
pub store32_ne : (m : Mem) (w v i : ℕ) → (i < 4 * w) ⊎ (4 * w + 4 ≤ i) → store32 m w v i ≡ m i
unfolding store32
store32_ne m w v i h = ground arith

-- `memset(m + o, v, n)`
unfoldable pub memset : Mem → ℕ → ℕ → ℕ → Mem
memset m o v n i = if leb o i && ltb i (o + n) then v else m i

-- `memcpy(m + o, src, n)`
unfoldable pub memcpy : Mem → ℕ → Mem → ℕ → Mem
memcpy m o src n i = if leb o i && ltb i (o + n) then src (i - o) else m i

-- A C string: its characters, then the terminator. A name has no NUL character inside.
abbrev pub c_str : List ℕ → Mem
c_str s i = get_or s i 0

-- `strncpy(m + o, s, n)` copies up to the terminator and pads with NUL to `n` bytes.
unfoldable pub strncpy : Mem → ℕ → List ℕ → ℕ → Mem
unfolding memcpy
strncpy m o s n = memcpy m o (c_str s) n

-- `strncmp(m + o, s, n) == 0`: equal up to the terminator or for `n` characters.
unfoldable pub strncmp_eq : Mem → ℕ → List ℕ → ℕ → Bool
strncmp_eq m o s zero = true
strncmp_eq m o [] (suc n) = m o == 0
strncmp_eq m o (c ∷ s) (suc n) = m o == c && strncmp_eq m (o + 1) s n

-- `strcmp(m + o, s) == 0`
unfoldable pub strcmp_eq : Mem → ℕ → List ℕ → Bool
strcmp_eq m o [] = m o == 0
strcmp_eq m o (c ∷ s) = m o == c && strcmp_eq m (o + 1) s
