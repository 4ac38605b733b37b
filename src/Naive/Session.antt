-- ===== src/Naive/Session.antt =====
-- A directory of naive/ in use, and its state after `naive_create` and `naive_unlink`.
pub mod Invariant
pub mod Removed
use filesystem_lab.Base.{ℕ, ◌≢◌, Option}
use filesystem_lab.Device.{Device}
use filesystem_lab.Naive.Layout.{SbInfo}
use filesystem_lab.Naive.Kernel.{Inode, Kernel}
use filesystem_lab.Naive.Entries.{Name}
use filesystem_lab.Naive.Entries.Record.{IsName}
use filesystem_lab.Naive.Entries.Find.{entry_of}
use filesystem_lab.Naive.Namespace.{create, unlink, dot, dotdot}

-- A name that the VFS passes on: it resolves `.` and `..` itself.
pub record IsFileName (s : Name) : Type 0 where
  pub is_name : IsName s
  pub not_dot : s ≢ dot
  pub not_dotdot : s ≢ dotdot

-- The mounted file system, with one directory.
pub record State : Type 0 where
  pub sbi : SbInfo
  pub dir : Inode
  pub dev : Device

-- The directory as a map from names to inode numbers.
unfoldable pub view : Kernel → State → Name → Option ℕ
view k st t = entry_of k.readable t st.dev.blocks st.dir

-- The state after `naive_create` and after `naive_unlink`, whatever they return.
unfoldable pub after_create : Kernel → State → Name → ℕ → State
after_create k st s mode =
    let (_, sbi', dir', d') = create k s mode st.sbi st.dir st.dev in
    record { sbi = sbi'; dir = dir'; dev = d' }

unfoldable pub after_unlink : Kernel → State → Name → Inode → State
after_unlink k st s ino =
    let (_, sbi', _, d') = unlink k s st.sbi st.dir ino st.dev in record st { sbi = sbi'; dev = d' }
