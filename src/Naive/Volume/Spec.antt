-- ===== src/Naive/Volume/Spec.antt =====
-- The abstract file system: each name has a file or none, and a file is its size and its bytes.
use filesystem_lab.Base.{
  ℕ, ◌+◌, ◌≤◌, ◌<◌, ◌≡◌, ◌≢◌, ◌⊎◌, Option, none, some, List, [], ◌∷◌, Result, ok, err, enospc,
  if◌then◌else◌, ltb,
}
use filesystem_lab.Base.Bytes.{Mem}
use filesystem_lab.Naive.Kernel.{Kernel}
use filesystem_lab.Naive.Entries.{Name}
use filesystem_lab.Naive.Files.Owned.{content}
use filesystem_lab.Naive.Session.{IsFileName, view}
use filesystem_lab.Naive.Volume.{Volume, Call, create_call, unlink_call, write_call}

pub record Content : Type 0 where
  pub size : ℕ
  pub byte : ℕ → ℕ

-- The files, and the number of blocks of the directory, on which it depends whether a name can be
-- entered.
pub record Files : Type 0 where
  pub file : Name → Option Content
  pub dir_blocks : ℕ

abbrev pub file_at : Kernel → Volume → Option ℕ → Option Content
file_at k vol none = none
file_at k vol (some n) =
    some (record { size = (vol.inode n).i_size; byte = content (vol.inode n) vol.base.dev.blocks })

unfoldable pub files : Kernel → Volume → Files
files k vol = record {
  file = λ t. file_at k vol (view k vol.base t);
  dir_blocks = vol.base.dir.block_count;
}

-- The same file, or none in both: what lies beyond the size does not count.
abbrev pub Same : Option Content → Option Content → Type 0
Same none none = Unit {0}
Same (some a) (some b) = (a.size ≡ b.size) × ((x : ℕ) → x < b.size → a.byte x ≡ b.byte x)
Same none (some b) = ⊥
Same (some a) none = ⊥

abbrev pub empty_file : Content
empty_file = record { size = 0; byte = λ _. 0 }

abbrev pub Others : Name → Files → Files → Type 0
Others s f f' = (t : Name) → IsFileName t → s ≢ t → Same (f'.file t) (f.file t)

abbrev pub Unchanged : Files → Files → Type 0
Unchanged f f' = (t : Name) → IsFileName t → Same (f'.file t) (f.file t)

-- `len` bytes of `buf` are written at `pos`. What lies between the old end and `pos` is not told.
pub record Written (len pos : ℕ) (buf : Mem) (c c' : Content) : Type 0 where
  pub size_is : c'.size ≡ (if ltb c.size (pos + len) then pos + len else c.size)
  pub new_data : (x : ℕ) → x < len → c'.byte (pos + x) ≡ buf x
  pub old_data : (x : ℕ) → x < c.size → (x < pos) ⊎ (pos + len ≤ x) → c'.byte x ≡ c.byte x

pub record WrittenAt (s : Name) (len pos : ℕ) (buf : Mem) (f f' : Files) : Type 0 where
  pub before : Content
  pub after : Content
  pub was : f.file s ≡ some before
  pub is : f'.file s ≡ some after
  pub written : Written len pos buf before after

-- What a call with its answer does to the files.
abbrev pub Effect : Call → Result ℕ → Files → Files → Type 0
Effect (create_call s mode) (ok n) f f' =
    (f.file s ≡ none)
    × (((Same (f'.file s) (some empty_file)) × Others s f f')
        ⊎ (Unchanged f f' × (8 ≤ f.dir_blocks)))
Effect (create_call s mode) (err e) f f' = Unchanged f f'
Effect (unlink_call s n) (ok _) f f' = (f.file s ≢ none) × (f'.file s ≡ none) × Others s f f'
Effect (unlink_call s n) (err e) f f' = ⊥
Effect (write_call s n len pos buf) (ok count) f f' =
    (count ≡ len) × WrittenAt s len pos buf f f' × Others s f f'
Effect (write_call s n len pos buf) (err e) f f' = (e ≡ enospc) × Unchanged f f'

-- The calls with their answers, the last one first, and the files that they lead to.
pub data FilesReach (f : Files) : List (Call × Result ℕ) → Files → Type 0 where
  start : FilesReach f [] f
  next_call :
      {h : List (Call × Result ℕ)} {f' f'' : Files}
      → FilesReach f h f'
      → (c : Call) (r : Result ℕ) → Effect c r f' f''
      → FilesReach f ((c, r) ∷ h) f''
