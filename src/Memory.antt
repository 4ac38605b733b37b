-- ===== src/Memory.antt =====
-- The in-memory file system of naive/naivefs-final/naivefs.c: a list of names with inode numbers.
pub mod Lookup
pub mod Files
pub mod Readdir
pub mod Session
pub mod Long
mod Tests
use filesystem_lab.Base.{
  ℕ, zero, suc, ◌+◌, ◌-◌, ◌*◌, ◌/◌, ◌%◌, Bool, true, false, not, ◌&&◌, List, [], ◌∷◌, ◌++◌, Result,
  ok, err, eexist, enomem, eio, einval, efault, bit_or, if◌then◌else◌, ◌==◌, ltb, leb,
}
use filesystem_lab.Base.Bytes.{Mem, load32}
use filesystem_lab.Device.{Device, take_buffer, brelse}

abbrev pub magic_number : ℕ
magic_number = 0x990717

abbrev pub block_size : ℕ
block_size = 512

abbrev pub max_filename_len : ℕ
max_filename_len = 30

abbrev pub Name : Type 0
Name = List ℕ

-- `struct naive_file_entry`
pub record FileEntry : Type 0 where
  pub name : Name
  pub inode_no : ℕ
  pub is_dir : Bool

-- `file_list` and `next_inode_no`
pub record State : Type 0 where
  pub file_list : List FileEntry
  pub next_inode_no : ℕ

pub data Ops : Type 0 where
  simple_dir_ops naive_dir_ops naive_file_ops no_ops : Ops

pub record Inode : Type 0 where
  pub ino : ℕ
  pub mode : ℕ
  pub uid : ℕ
  pub gid : ℕ
  pub nlink : ℕ
  pub time : ℕ
  pub ops : Ops

pub record Owner : Type 0 where
  pub mode : ℕ
  pub uid : ℕ
  pub gid : ℕ

-- The answers of the kernel during one call: whether its n-th allocation succeeds, the owner of a
-- new inode, the time, whether the block size can be set, and how much a copy moves.
pub record Kernel : Type 0 where
  pub allocates : ℕ → Bool
  pub init_owner : ℕ → Owner
  pub now : ℕ
  pub sets_blocksize : Bool
  pub readable : ℕ → Bool
  pub makes_root : Bool
  pub copied : ℕ → ℕ

-- `strcmp(a, b) == 0`
unfoldable pub name_eq : Name → Name → Bool
name_eq [] [] = true
name_eq [] (c ∷ s) = false
name_eq (b ∷ a) [] = false
name_eq (b ∷ a) (c ∷ s) = b == c && name_eq a s

-- `strncpy(entry->name, name, n)` and the NUL behind it.
unfoldable pub cut_name : ℕ → Name → Name
cut_name zero s = []
cut_name (suc n) [] = []
cut_name (suc n) (c ∷ s) = c ∷ cut_name n s

-- `list_for_each_entry(entry, &file_list, list) if (strcmp(...) == 0)`
unfoldable pub exists : Name → List FileEntry → Bool
unfolding name_eq
exists s [] = false
exists s (e ∷ l) = if name_eq e.name s then true else exists s l

-- `S_ISDIR` and `S_ISREG`
abbrev pub is_dir_mode : ℕ → Bool
is_dir_mode mode = mode / 4096 % 16 == 4

abbrev pub is_reg_mode : ℕ → Bool
is_reg_mode mode = mode / 4096 % 16 == 8

-- The inode that `naive_create` makes; an inode that is neither keeps the one link it begins with.
unfoldable pub new_inode : Kernel → ℕ → ℕ → Inode
new_inode k mode n =
    let o = k.init_owner mode in
    record {
      ino = n;
      mode = o.mode;
      uid = o.uid;
      gid = o.gid;
      nlink = if is_dir_mode mode then 2 else 1;
      time = k.now;
      ops =
          if is_dir_mode mode
          then simple_dir_ops
          else if is_reg_mode mode
          then naive_file_ops
          else no_ops;
    }

abbrev pub new_entry : Name → ℕ → ℕ → FileEntry
unfolding cut_name
new_entry s mode n = record {
  name = cut_name (max_filename_len - 1) s;
  inode_no = n;
  is_dir = is_dir_mode mode;
}

-- `naive_create`, with `n` allocations before it in the call: the inode or the error.
unfoldable pub create_from : ℕ → Kernel → Name → ℕ → State → Result Inode × State
unfolding exists new_inode new_entry
create_from n k s mode st =
    if exists s st.file_list
    then (err eexist, st)
    else if k.allocates n
    then (
      ok (new_inode k mode st.next_inode_no),
      record {
        file_list =
            if k.allocates (n + 1)
            then st.file_list ++ (new_entry s mode st.next_inode_no ∷ [])
            else st.file_list;
        next_inode_no = st.next_inode_no + 1;
      },
    )
    else (err enomem, st)

unfoldable pub create : Kernel → Name → ℕ → State → Result Inode × State
unfolding create_from
create k s mode st = create_from 0 k s mode st

-- The loop of `naive_unlink`: the first entry with the name is taken out.
unfoldable pub delete_first : Name → List FileEntry → List FileEntry
unfolding name_eq
delete_first s [] = []
delete_first s (e ∷ l) = if name_eq e.name s then l else e ∷ delete_first s l

-- `naive_unlink` and `naive_rmdir`, which always return 0.
unfoldable pub unlink : Name → State → State
unfolding delete_first
unlink s st = record st { file_list = delete_first s st.file_list }

unfoldable pub rmdir : Name → State → State
unfolding unlink
rmdir s st = unlink s st

-- `naive_mkdir`
unfoldable pub mkdir : Kernel → Name → ℕ → State → Result Inode × State
unfolding create
mkdir k s mode st = create k s (bit_or 0o40000 mode) st
