-- ===== src/Device.antt =====
-- The block device behind the buffer cache, as the kernel's buffer calls show it to the file
-- systems: `sb_bread`, `mark_buffer_dirty` and `brelse`, and the cached bytes of each block.
use filesystem_lab.Base.{ℕ, ◌+◌, ◌≡◌, Bool, true, false, update}
use filesystem_lab.Base.Bytes.{Mem}

-- `blocks b` is `b_data` of the buffer of block `b`; `dirty b` says that it is to be written back.
-- `got` and `released` count the references taken by `sb_bread` and dropped by `brelse`.
pub record Device : Type 0 where
  pub blocks : ℕ → Mem
  pub dirty : ℕ → Bool
  pub got : ℕ
  pub released : ℕ

-- A successful `sb_bread`.
unfoldable pub take_buffer : Device → Device
take_buffer d = record d { got = d.got + 1 }

-- `brelse`
unfoldable pub brelse : Device → Device
brelse d = record d { released = d.released + 1 }

-- An assignment to the bytes of a buffer that is held, and `mark_buffer_dirty`.
unfoldable pub write_buffer : ℕ → Mem → Device → Device
write_buffer b m d = record d { blocks = update d.blocks b m }

unfoldable pub mark_buffer_dirty : ℕ → Device → Device
mark_buffer_dirty b d = record d { dirty = update d.dirty b true }

-- Every reference that was taken between `d` and `e` has been dropped, and no other.
abbrev pub Balanced : Device → Device → Type 0
Balanced d e = e.got + d.released ≡ e.released + d.got

-- Between `d` and `e` no block changed without being marked for write-back.
abbrev pub Tracked : Device → Device → Type 0
Tracked d e = (b : ℕ) → (e.dirty b ≡ false → (i : ℕ) → e.blocks b i ≡ d.blocks b i)
