-- ===== src/Naive/Volume.antt =====
-- A file system of naive/ in use: one directory and its files, with the calls of naive_create,
-- naive_unlink and naive_file_write on them. A call sees the inodes that the kernel keeps in memory.
pub mod Directory
pub mod Consistent
pub mod Spec
pub mod Write
pub mod Unlink
pub mod Create
pub mod Effects
pub mod Refine
pub mod Mkdir
use filesystem_lab.Base.{
  ℕ, ◌+◌, ◌≤◌, ◌≡◌, Option, none, some, List, [], ◌∷◌, Result, ok, err, update,
}
use filesystem_lab.Base.Bytes.{Mem}
use filesystem_lab.Naive.Kernel.{Inode, Kernel}
use filesystem_lab.Naive.Entries.{Name}
use filesystem_lab.Naive.Namespace.{create, unlink}
use filesystem_lab.Naive.Files.{file_write}
use filesystem_lab.Naive.Session.{IsFileName, State, view}

-- The mounted directory, and the inode that the kernel keeps for each number.
pub record Volume : Type 0 where
  pub base : State
  pub inode : ℕ → Inode

-- What user space is told of a call that returns no count.
abbrev pub no_count : {A : Type 0} → Result A → Result ℕ
no_count (ok _) = ok 0
no_count (err e) = err e

-- The inode of a new file is entered under its number.
abbrev pub enter_inode : Result Inode → (ℕ → Inode) → ℕ → Inode
enter_inode (ok ino) inode = update inode ino.i_ino ino
enter_inode (err e) inode = inode

-- A call by user space. The name of the last two has been looked up, and gave the number `n`.
pub data Call : Type 0 where
  create_call : (s : Name) (mode : ℕ) → Call
  unlink_call : (s : Name) (n : ℕ) → Call
  write_call : (s : Name) (n len pos : ℕ) (buf : Mem) → Call

-- The answer of a call and what it leaves.
unfoldable pub perform : Kernel → Volume → Call → Result ℕ × Volume
perform k vol (create_call s mode) =
    let (r, sbi', dir', d') = create k s mode vol.base.sbi vol.base.dir vol.base.dev in
    (
      no_count r,
      record {
        base = record { sbi = sbi'; dir = dir'; dev = d' };
        inode = enter_inode r vol.inode;
      },
    )
perform k vol (unlink_call s n) =
    let (r, sbi', ino', d') = unlink k s vol.base.sbi vol.base.dir (vol.inode n) vol.base.dev in
    (
      no_count r,
      record {
        base = record { sbi = sbi'; dir = vol.base.dir; dev = d' };
        inode = update vol.inode n ino';
      },
    )
perform k vol (write_call s n len pos buf) =
    let (r, _, ino', sbi', d') = file_write k (vol.inode n) vol.base.sbi len pos buf vol.base.dev in
    (
      r,
      record {
        base = record { sbi = sbi'; dir = vol.base.dir; dev = d' };
        inode = update vol.inode n ino';
      },
    )

-- The calls that the VFS passes on: a file is created under a name that the directory does not have,
-- unlinked under one that it has, and written within the 8 blocks that a file can have.
abbrev pub Allowed : Kernel → Volume → Call → Type 0
Allowed k vol (create_call s mode) = IsFileName s × (view k vol.base s ≡ none)
Allowed k vol (unlink_call s n) = IsFileName s × (view k vol.base s ≡ some n)
Allowed k vol (write_call s n len pos buf) =
    IsFileName s × (view k vol.base s ≡ some n) × (pos + len ≤ 4096)

-- The calls so far with their answers, the last one first, and the volume that they lead to.
pub data Reach (k : Kernel) (vol : Volume) : List (Call × Result ℕ) → Volume → Type 0 where
  here : Reach k vol [] vol
  next :
      {h : List (Call × Result ℕ)} {vol' : Volume}
      → Reach k vol h vol'
      → (c : Call) → Allowed k vol' c
      → Reach k vol ((c, (perform k vol' c).0) ∷ h) (perform k vol' c).1
