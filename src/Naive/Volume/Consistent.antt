-- ===== src/Naive/Volume/Consistent.antt =====
-- What holds of a file system of naive/ in use: the blocks of the directory and of all its files are
-- in order and none belongs to two of them.
use filesystem_lab.Base.{ℕ, ◌<◌, ◌≡◌, ◌≢◌, ◌∙◌, refl, sym, ap, true, some, arith}
use filesystem_lab.Base.Bits.{bit}
use filesystem_lab.Device.{Device}
use filesystem_lab.Naive.Layout.{SbInfo, IsValid}
use filesystem_lab.Naive.Kernel.{Inode, Kernel}
use filesystem_lab.Naive.Entries.{Name}
use filesystem_lab.Naive.Entries.Find.{block_entry, find_entry-congr}
use filesystem_lab.Naive.Entries.Unique.{Unique-congr}
use filesystem_lab.Naive.Entries.Outcome.{IsDir-more}
use filesystem_lab.Naive.Files.Owned.{Owned}
use filesystem_lab.Naive.Files.Others.{Apart}
use filesystem_lab.Naive.Session.{IsFileName, State, view}
use filesystem_lab.Naive.Session.Invariant.{Sound}
use filesystem_lab.Naive.Volume.{Volume}

-- The number of a file: an entry of the directory has it.
pub record Live (k : Kernel) (st : State) (n : ℕ) : Type 0 where
  pub name : Name
  pub is_name : IsFileName name
  pub entry : view k st name ≡ some n

pub record Consistent (k : Kernel) (vol : Volume) : Type 0 where
  pub sound : Sound k vol.base
  pub number : (n : ℕ) → Live k vol.base n → (vol.inode n).i_ino ≡ n
  pub owned : (n : ℕ) → Live k vol.base n → Owned vol.base.sbi (vol.inode n)
  pub off_dir : (n : ℕ) → Live k vol.base n → Apart vol.base.dir (vol.inode n)
  pub apart :
      (n m : ℕ) → Live k vol.base n → Live k vol.base m → n ≢ m → Apart (vol.inode n) (vol.inode m)

-- A call leaves a file alone.
pub record Stays (st st' : State) (ino : Inode) : Type 0 where
  pub owned : Owned st'.sbi ino
  pub off_dir : Apart st'.dir ino
  pub data_kept :
      (j : ℕ)
      → j < ino.block_count
      → st'.dev.blocks (ino.block_pointers j) ≡ st.dev.blocks (ino.block_pointers j)

pub Apart-sym : (a b : Inode) → Apart a b → Apart b a
Apart-sym a b h j lj i li e = h i li j lj (sym e)

pub same_number :
    (k : Kernel) (st : State) (s t : Name) (n m : ℕ)
    → view k st s ≡ some n
    → view k st t ≡ some m
    → s ≡ t
    → n ≡ m
same_number k st s t n m e f q = cc (rw (← q) at f, e)

-- A call that changes neither the directory's blocks nor the bitmap of inodes, and frees no block.
module _ (k : Kernel) (sbi sbi' : SbInfo) (dir : Inode) (d d' : Device) where
  abbrev old : State
  old = record { sbi = sbi; dir = dir; dev = d }

  abbrev new : State
  new = record { sbi = sbi'; dir = dir; dev = d' }

  module _
      (kept : (l : ℕ)
        → l < dir.block_count
        → d'.blocks (dir.block_pointers l) ≡ d.blocks (dir.block_pointers l)) where
    pub view-kept : (t : Name) → view k new t ≡ view k old t
    unfolding view
    view-kept t =
        find_entry-congr k.readable t d'.blocks d.blocks dir.block_pointers dir.block_count 0
          (λ l _ lt. ap (block_entry t) (kept l (omega arith)))

    pub Sound-kept :
        IsValid sbi'
        → sbi'.inode_bitmap ≡ sbi.inode_bitmap
        → sbi'.inode_total ≡ sbi.inode_total
        → ((x : ℕ) → bit sbi.block_bitmap x ≡ true → bit sbi'.block_bitmap x ≡ true)
        → Sound k old
        → Sound k new
    Sound-kept valid same total more v = record {
      valid = valid;
      few = rw total v.few;
      is_dir = IsDir-more sbi sbi' dir dir more refl refl v.is_dir;
      unique = λ t w. Unique-congr t d.blocks d'.blocks dir kept (v.unique t w);
      numbered = λ t n w e. rw same (v.numbered t n w (sym (view-kept t) ∙ e));
      one_name =
          λ t u n w x e f. v.one_name t u n w x (sym (view-kept t) ∙ e) (sym (view-kept u) ∙ f);
    }

    pub Live-kept : (n : ℕ) → Live k new n → Live k old n
    Live-kept n live = record {
      name = live.name;
      is_name = live.is_name;
      entry = sym (view-kept live.name) ∙ live.entry;
    }
