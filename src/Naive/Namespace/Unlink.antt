-- ===== src/Naive/Namespace/Unlink.antt =====
-- `naive_unlink` of naive/naivefs_inode.c.
use filesystem_lab.Base.{ℕ, ◌<◌, ◌≡◌, refl, true, none, Result, ok, err, enoent}
use filesystem_lab.Device.{Device}
use filesystem_lab.Naive.Layout.{SbInfo, IsValid}
use filesystem_lab.Naive.Kernel.{Inode, Kernel}
use filesystem_lab.Naive.Entries.{Name, remove_entry}
use filesystem_lab.Naive.Entries.Record.{IsName}
use filesystem_lab.Naive.Entries.Find.{entry_of}
use filesystem_lab.Naive.Entries.Remove.{Unique, Removed, RemoveAnswer, remove_entry_removes}
use filesystem_lab.Naive.Namespace.{unlink, drop_inode}
use filesystem_lab.Naive.Namespace.Free.{Dropped, drop_inode-Dropped}

-- What a call of `naive_unlink` answers, and what it did.
abbrev pub UnlinkAnswer :
    Kernel
    → Name
    → SbInfo
    → Inode
    → Inode
    → Device
    → Result (Unit {0}) × SbInfo × Inode × Device
    → Type 0
UnlinkAnswer k s sbi dir ino d (ok _, sbi', ino', d') =
    Removed k.readable s dir d d' × Dropped sbi ino sbi' ino'
UnlinkAnswer k s sbi dir ino d (err x, sbi', ino', d') =
    (x ≡ enoent)
    × (entry_of k.readable s d.blocks dir ≡ none)
    × (sbi' ≡ sbi)
    × (ino' ≡ ino)
    × (d'.blocks ≡ d.blocks)

-- `naive_unlink` with readable blocks, for a name that stands in at most one record, of an inode
-- whose pointers lie inside the device of a valid super block: when the name has an entry it returns 0, takes the entry
-- out of the directory, keeps every other name, frees every block and the number of the inode and no other, and leaves the
-- inode with no blocks, links or bytes; when it has none it returns -ENOENT and nothing changed.
pub unlink_frees :
    (k : Kernel) (s : Name) (sbi : SbInfo) (dir ino : Inode) (d : Device)
    → ((b : ℕ) → k.readable b ≡ true)
    → IsName s
    → Unique s d.blocks dir
    → IsValid sbi
    → ((l : ℕ) → ino.block_pointers l < sbi.block_total)
    → UnlinkAnswer k s sbi dir ino d (unlink k s sbi dir ino d)
unfolding unlink
unlink_frees k s sbi dir ino d r name u v h =
    go (remove_entry k s dir d) (remove_entry_removes k s dir d r name u)
  where
    go :
        (a : Result (Unit {0}) × Device)
        → RemoveAnswer k s dir d a
        → let x : Result (Unit {0}) × SbInfo × Inode × Device = elim a.0 [
          | err e ↦ (err e, sbi, ino, a.1)
          | ok _ ↦ (ok tt, (drop_inode sbi ino).0, (drop_inode sbi ino).1, a.1)
        ] in
          UnlinkAnswer k s sbi dir ino d x
    go (ok _, e) gone = (gone, drop_inode-Dropped sbi ino v h)
    go (err x, e) (code, same, absent) = (code, absent, refl, refl, same)
