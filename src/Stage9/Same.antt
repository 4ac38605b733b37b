-- ===== src/Stage9/Same.antt =====
-- The functions of naive/naivefs-9-10/naivefs_dir.c and naivefs_super.c whose statements are those of
-- naive/naivefs_dir.c, naivefs_inode.c and naivefs_super.c, and `naive_read_inode_block`, which naive/
-- does not have.
use filesystem_lab.Base.{ℕ, Option, Result, ok, err, eio, if◌then◌else◌, leb}
use filesystem_lab.Device.{Device, take_buffer}
use filesystem_lab.Naive.Layout.{SbInfo}
use filesystem_lab.Naive.Kernel.{Inode, Kernel}
use filesystem_lab.Naive.Alloc
use filesystem_lab.Naive.Super
use filesystem_lab.Naive.Entries.{Name}
use filesystem_lab.Naive.Entries
use filesystem_lab.Naive.Namespace

abbrev pub find_free_inode : SbInfo → ℕ
find_free_inode = Alloc.find_free_inode

abbrev pub alloc_block : SbInfo → Result ℕ × SbInfo
alloc_block = Alloc.alloc_block

abbrev pub free_block : SbInfo → ℕ → SbInfo
free_block = Alloc.free_block

-- `naive_read_inode_block` with an index that is not negative: the block whose buffer it has taken.
unfoldable pub read_inode_block : Kernel → Inode → ℕ → Device → Result ℕ × Device
unfolding take_buffer
read_inode_block k ino i d =
    if leb ino.block_count i
    then (err eio, d)
    else if k.readable (ino.block_pointers i)
    then (ok (ino.block_pointers i), take_buffer d)
    else (err eio, d)

abbrev pub put_super : Device → Device
put_super = Super.put_super

abbrev pub add_entry :
    Kernel → Name → ℕ → SbInfo → Inode → Device → Result (Unit {0}) × SbInfo × Inode × Device
add_entry = Entries.add_entry

abbrev pub remove_entry : Kernel → Name → Inode → Device → Result (Unit {0}) × Device
remove_entry = Entries.remove_entry

abbrev pub mkdir :
    Kernel → Name → ℕ → SbInfo → Inode → Device → Result Inode × SbInfo × Inode × Device
mkdir = Namespace.mkdir

abbrev pub create :
    Kernel → Name → ℕ → SbInfo → Inode → Device → Result Inode × SbInfo × Inode × Device
create = Namespace.create

-- `naive_lookup`, which adds what it finds to the dentry itself.
abbrev pub lookup : Kernel → SbInfo → Name → Inode → Device → Option (Result Inode) × Device
lookup = Entries.lookup

abbrev pub unlink :
    Kernel → Name → SbInfo → Inode → Inode → Device → Result (Unit {0}) × SbInfo × Inode × Device
unlink = Namespace.unlink
