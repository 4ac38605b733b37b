-- ===== src/Stage7.antt =====
-- naive/naivefs-7/naivefs.c. Its functions have the statements of naive/naivefs-8/naivefs.c, which adds
-- naive_unlink, naive_rmdir and naive_free_file_blocks.
use filesystem_lab.Base.{ℕ, Bool, Option, Result}
use filesystem_lab.Base.Bytes.{Mem}
use filesystem_lab.Device.{Device}
use filesystem_lab.Stage8.State.{SbInfo, Inode, Kernel}
use filesystem_lab.Stage8.Bitmap
use filesystem_lab.Stage8.File
use filesystem_lab.Stage8.Namespace
use filesystem_lab.Stage8.Super

abbrev pub find_free_block : SbInfo → Option ℕ × SbInfo
find_free_block = Bitmap.find_free_block

abbrev pub find_free_inode : SbInfo → Option ℕ × SbInfo
find_free_inode = Bitmap.find_free_inode

abbrev pub file_read : Kernel → Inode → ℕ → ℕ → Mem → Device → Result ℕ × ℕ × Mem × Inode × Device
file_read = File.file_read

abbrev pub file_write :
    Kernel → Inode → SbInfo → ℕ → ℕ → Mem → Device → Result ℕ × ℕ × Inode × SbInfo × Device
file_write = File.file_write

abbrev pub create : Kernel → SbInfo → Inode → ℕ → Device → Result Inode × SbInfo × Device
create = Namespace.create

abbrev pub write_inode : Bool → Inode → Result (Unit {0}) × Inode
write_inode = Namespace.write_inode

abbrev pub destroy_inode : Bool → Device → Device
destroy_inode = Namespace.destroy_inode

abbrev pub fill_super : Kernel → Bool → Device → Result (SbInfo × Inode) × Device
fill_super = Super.fill_super

abbrev pub put_super : Bool → Device → Device
put_super = Super.put_super

abbrev pub kill_sb : Bool → Device → Device
kill_sb = Super.kill_sb
