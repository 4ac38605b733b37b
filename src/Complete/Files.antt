-- ===== src/Complete/Files.antt =====
-- The statistics and the file operations of naive/naivefs-complete/naivefs.c.
use filesystem_lab.Base.{
  ℕ, zero, suc, sym, ◌++◌, ◌+◌, ◌-◌, ◌*◌, ◌/◌, ◌≤◌, ◌<◌, ◌≡◌, refl, arith, false, List, [], ◌∷◌,
  length, get_or, Result, ok, err, efault, if◌then◌else◌, ◌==◌, ==_refl, ltb, leb,
}
use filesystem_lab.Base.Bytes.{Mem, memcpy}
use filesystem_lab.Memory.{Kernel}
use filesystem_lab.Memory.Files.{Kstatfs, content as final_content, file_read as final_read}

abbrev pub max_filename_len : ℕ
max_filename_len = 30

unfoldable pub statfs : ℕ → ℕ → Kstatfs
statfs magic blocksize = record {
  f_type = magic;
  f_bsize = blocksize;
  f_blocks = 200 * 1024 / blocksize;
  f_bfree = 200 * 1024 / blocksize / 2;
  f_bavail = 200 * 1024 / blocksize / 2;
  f_files = 128;
  f_ffree = 127;
  f_namelen = max_filename_len;
}

-- The text that every file holds: "Hello from naive filesystem!" with its line end.
abbrev pub content : List ℕ
content =
    b'H' ∷ b'e' ∷ b'l' ∷ b'l' ∷ b'o' ∷ 32 ∷ b'f' ∷ b'r' ∷ b'o' ∷ b'm' ∷ 32 ∷ b'n' ∷ b'a' ∷ b'i'
    ∷ b'v' ∷ b'e' ∷ 32 ∷ b'f' ∷ b'i' ∷ b'l' ∷ b'e' ∷ b's' ∷ b'y' ∷ b's' ∷ b't' ∷ b'e' ∷ b'm' ∷ b'!'
    ∷ 10 ∷ []

-- `naive_file_read`: the count or the error, the position and the user's buffer.
unfoldable pub file_read : Kernel → ℕ → ℕ → Mem → Result ℕ × ℕ × Mem
unfolding memcpy
file_read k len pos buf =
    if leb (length content) pos
    then (ok 0, pos, buf)
    else (let n = if ltb (length content) (pos + len) then length content - pos else len in
        let c = k.copied n in
        let buf' = memcpy buf 0 (λ i. get_or content (pos + i) 0) c in
        if c == n then (ok n, pos + n, buf') else (err efault, pos, buf'))

-- `naive_file_write`: the count and the position; nothing is stored.
unfoldable pub file_write : ℕ → ℕ → ℕ × ℕ
file_write len pos = (len, pos + len)

get_or-++ : (a b : List ℕ) (i : ℕ) → i < length a → get_or (a ++ b) i 0 ≡ get_or a i 0
get_or-++ [] b i lt = absurd (omega arith)
get_or-++ (c ∷ a) b zero lt = refl
get_or-++ (c ∷ a) b (suc i) lt = get_or-++ a b i (omega arith)

-- The text of naive/naivefs-final/naivefs.c begins with this one.
same_byte : (i : ℕ) → i < 29 → get_or content i 0 ≡ get_or final_content i 0
same_byte i lt = sym (
    get_or-++ content
      (b'T' ∷ b'h' ∷ b'i' ∷ b's' ∷ 32 ∷ b'i' ∷ b's' ∷ 32 ∷ b'a' ∷ 32 ∷ b't' ∷ b'e' ∷ b's' ∷ b't'
        ∷ 32 ∷ b'f' ∷ b'i' ∷ b'l' ∷ b'e' ∷ b'.' ∷ 10 ∷ [])
      i lt)

-- A read that begins and ends within the text, with no fault, gives what the same read gives in naive/naivefs-final/naivefs.c.
pub file_read_agree :
    (k : Kernel) (len pos : ℕ) (buf : Mem)
    → ((n : ℕ) → k.copied n ≡ n)
    → pos < 29
    → pos + len ≤ 29
    → let (r, pos', buf') = file_read k len pos buf in
      let (q, at, out) = final_read k len pos buf in
      (r ≡ q) × (pos' ≡ at) × ((x : ℕ) → buf' x ≡ out x)
unfolding file_read final_read memcpy
file_read_agree k len pos buf copies before inside =
    let a : leb 29 pos ≡ false = ground arith in
    let b : leb 50 pos ≡ false = ground arith in
    let c : ltb 29 (pos + len) ≡ false = ground arith in
    let d : ltb 50 (pos + len) ≡ false = ground arith in
    rw (a, b, c, d, copies len, ==_refl len) (refl, refl, λ x. ground (arith, same_byte (pos + x)))
