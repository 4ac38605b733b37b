-- ===== src/Memory/Files.antt =====
-- The mount, the statistics and the file operations of naive/naivefs-final/naivefs.c.
use filesystem_lab.Base.{
  true, false, ℕ, ◌+◌, ◌-◌, ◌*◌, ◌/◌, ◌≡◌, ◌⊎◌, refl, arith, Bool-cases, inl, inr, min, List, [],
  ◌∷◌, if◌then◌else◌, ◌==◌, ==_refl, ltb, leb, length, get_or, Result, ok, err, eio, einval, enomem,
  efault, ◌&&◌, bit_or,
}
use filesystem_lab.Base.Bytes.{Mem, load32, memcpy}
use filesystem_lab.Device.{Device, take_buffer, brelse, Balanced}
use filesystem_lab.Memory.{
  exists, name_eq, cut_name, Name, State, Inode, Kernel, naive_dir_ops, magic_number,
  max_filename_len, create_from,
}

-- `struct kstatfs` as `naive_statfs` fills it.
pub record Kstatfs : Type 0 where
  pub f_type : ℕ
  pub f_bsize : ℕ
  pub f_blocks : ℕ
  pub f_bfree : ℕ
  pub f_bavail : ℕ
  pub f_files : ℕ
  pub f_ffree : ℕ
  pub f_namelen : ℕ

unfoldable pub statfs : ℕ → ℕ → Kstatfs
statfs magic blocksize = record {
  f_type = magic;
  f_bsize = blocksize;
  f_blocks = 200 * 1024 / blocksize;
  f_bfree = 200 * 1024 / blocksize / 2;
  f_bavail = 200 * 1024 / blocksize / 2;
  f_files = 128;
  f_ffree = 127;
  f_namelen = max_filename_len;
}

-- The text that every file holds: "Hello from naive filesystem!" and "This is a test file.", each
-- with its line end.
abbrev pub content : List ℕ
content =
    b'H' ∷ b'e' ∷ b'l' ∷ b'l' ∷ b'o' ∷ 32 ∷ b'f' ∷ b'r' ∷ b'o' ∷ b'm' ∷ 32 ∷ b'n' ∷ b'a' ∷ b'i'
    ∷ b'v' ∷ b'e' ∷ 32 ∷ b'f' ∷ b'i' ∷ b'l' ∷ b'e' ∷ b's' ∷ b'y' ∷ b's' ∷ b't' ∷ b'e' ∷ b'm' ∷ b'!'
    ∷ 10 ∷ b'T' ∷ b'h' ∷ b'i' ∷ b's' ∷ 32 ∷ b'i' ∷ b's' ∷ 32 ∷ b'a' ∷ 32 ∷ b't' ∷ b'e' ∷ b's' ∷ b't'
    ∷ 32 ∷ b'f' ∷ b'i' ∷ b'l' ∷ b'e' ∷ b'.' ∷ 10 ∷ []

-- `naive_file_read`: the count or the error, the position and the user's buffer.
unfoldable pub file_read : Kernel → ℕ → ℕ → Mem → Result ℕ × ℕ × Mem
unfolding memcpy
file_read k len pos buf =
    if leb (length content) pos
    then (ok 0, pos, buf)
    else (let n = if ltb (length content) (pos + len) then length content - pos else len in
        let c = k.copied n in
        let buf' = memcpy buf 0 (λ i. get_or content (pos + i) 0) c in
        if c == n then (ok n, pos + n, buf') else (err efault, pos, buf'))

-- `naive_file_write`: the count and the position; nothing is stored.
unfoldable pub file_write : ℕ → ℕ → ℕ × ℕ
file_write len pos = (len, pos + len)

-- The loop that empties the list, as a mount begins and as the module is unloaded.
unfoldable pub clear_list : State → State
clear_list st = record st { file_list = [] }

abbrev pub empty_state : State
empty_state = record { file_list = []; next_inode_no = 100 }

abbrev pub readme : Name
readme = b'R' ∷ b'E' ∷ b'A' ∷ b'D' ∷ b'M' ∷ b'E' ∷ []

abbrev pub example : Name
example = b'e' ∷ b'x' ∷ b'a' ∷ b'm' ∷ b'p' ∷ b'l' ∷ b'e' ∷ []

-- The file and the directory that a mount makes, each if its dentry can be allocated; what the
-- calls return is dropped.
unfoldable pub make_examples : Kernel → State → State
unfolding create_from
make_examples k st =
    let st1 = if k.allocates 1 then (create_from 2 k readme 33188 st).1 else st in
    if k.allocates 4 then (create_from 5 k example (bit_or 0o40000 0o755) st1).1 else st1

abbrev pub root_inode : Kernel → Inode
root_inode k =
    let o = k.init_owner 16877 in
    record {
      ino = 1;
      mode = o.mode;
      uid = o.uid;
      gid = o.gid;
      nlink = 2;
      time = k.now;
      ops = naive_dir_ops;
    }

-- `naive_fill_super`: the root directory or the error, the list, and the device. The list is empty
-- from the start, also when the mount fails.
unfoldable pub fill_super : Kernel → State → Device → Result Inode × State × Device
unfolding make_examples clear_list take_buffer brelse
fill_super k st d =
    let start = record (clear_list st) { next_inode_no = 100 } in
    if k.sets_blocksize
    then (if k.readable 1
        then (let d' = brelse (take_buffer d) in
            if load32 (d.blocks 1) 0 == magic_number
            then (if k.allocates 0 && k.makes_root
                then (ok (root_inode k), make_examples k start, d')
                else (err enomem, start, d'))
            else (err einval, start, d'))
        else (err eio, start, d))
    else (err einval, start, d)

-- `naive_file_read` of a file, when the copy has no fault: it returns as many bytes as were asked
-- for or as are left of the text, whatever was written before, and puts them at the start of the
-- user's buffer.
pub memory_read_lem :
    (k : Kernel) (len pos : ℕ) (buf : Mem)
    → ((n : ℕ) → k.copied n ≡ n)
    → let n = min len (50 - pos) in
      let (r, pos', buf') = file_read k len pos buf in
      (r ≡ ok n)
      × (pos' ≡ pos + n)
      × ((x : ℕ) → buf' x ≡ (if ltb x n then get_or content (pos + x) 0 else buf x))
unfolding file_read memcpy
memory_read_lem k len pos buf a = elim (Bool-cases (leb 50 pos)) [
  | inl past ↦
      let none_left : min len (50 - pos) ≡ 0 = ground arith in
      rw (past, none_left) (refl, omega arith, λ x. ground arith)
  | inr before ↦
      let within : (if ltb 50 (pos + len) then 50 - pos else len) ≡ min len (50 - pos) =
        ground arith in
      rw (before, within)
        (rw (a (min len (50 - pos)), ==_refl (min len (50 - pos))) (refl, refl, λ x. ground arith))
]

-- The list after a mount that finds memory for its two examples.
abbrev pub mounted_state : State
mounted_state = record {
  file_list =
      record { name = readme; inode_no = 100; is_dir = false }
      ∷ record { name = example; inode_no = 101; is_dir = true }
      ∷ [];
  next_inode_no = 102;
}

make_examples_lem :
    (k : Kernel)
    → ((n : ℕ) → k.allocates (n + 1) ≡ true)
    → make_examples k empty_state ≡ mounted_state
unfolding make_examples create_from exists name_eq cut_name
make_examples_lem k a = rw (a 0, a 1, a 2, a 3, a 4, a 5) refl

-- `naive_fill_super`, when memory can be had for the two examples: it leaves no buffer reference behind
-- and changes no block; whatever list there was before, it returns an error with an empty list, or
-- it returns the root directory with the list of the file `README` and the directory `example`.
pub memory_mount_lem :
    (k : Kernel) (st : State) (d : Device)
    → ((n : ℕ) → k.allocates (n + 1) ≡ true)
    → let (r, st', d') = fill_super k st d in
      Balanced d d'
      × (d'.blocks ≡ d.blocks)
      × ((st' ≡ empty_state) ⊎ ((st' ≡ mounted_state) × (r ≡ ok (root_inode k))))
unfolding fill_super clear_list take_buffer brelse
memory_mount_lem k st d a = ground (arith, make_examples_lem k a)
