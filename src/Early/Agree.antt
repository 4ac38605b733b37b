-- ===== src/Early/Agree.antt =====
-- The mounts of naive/naivefs-4, naivefs-5, naivefs-6, naivefs_simple.c and naivefs-complete beside
-- each other.
use filesystem_lab.Base.{
  ℕ, ◌+◌, ◌*◌, ◌≡◌, true, false, Bool, ◌&&◌, arith, if◌then◌else◌, Result, ok, err, ◌==◌,
  Bool-cases, inl, inr,
}
use filesystem_lab.Base.Bytes.{Mem, load32}
use filesystem_lab.Device.{Device, take_buffer, brelse}
use filesystem_lab.Memory.{Kernel, magic_number}
use filesystem_lab.Early.Stage4
use filesystem_lab.Early.Stage5
use filesystem_lab.Early.Stage6
use filesystem_lab.Early.Simple
use filesystem_lab.Complete

abbrev pub succeeds : {A : Type 0} → Result A → Bool
succeeds (ok _) = true
succeeds (err _) = false

-- A device whose blocks of `size` bytes hold the bytes of an image.
abbrev pub on_blocks : ℕ → Mem → Device
on_blocks size image = record {
  blocks = λ b i. image (b * size + i);
  dirty = λ _. false;
  got = 0;
  released = 0;
}

-- Block 1 can be read, the magic number stands at byte `at` of the image, and the root directory can
-- be made.
abbrev pub accepts : Kernel → Mem → ℕ → Bool
accepts k image at =
    k.readable 1 && (load32 (λ i. image (at + i)) 0 == magic_number && k.makes_root)

-- A mount returns 0 as told by `good`, changes no block, and keeps `kept` buffers.
abbrev pub MountAnswer : {A : Type 0} → Bool → ℕ → Device → Result A × Device → Type 0
MountAnswer good kept d (r, e) =
    (succeeds r ≡ good) × (e.blocks ≡ d.blocks) × (e.got + d.released ≡ e.released + d.got + kept)

-- The mounts of one image, when memory can be had and the block size can be set. Those of stages 4 and
-- 5 and of the complete stage set it to 512: they return 0 exactly when block 1 can be read, the magic
-- number stands at byte 512, and the root directory can be made; they change no block and give back every
-- buffer. That of stage 6 does not set it: it returns 0 exactly when block 1 can be read, the magic number
-- stands at byte `size`, where `size` is the block size that the device has, and the root directory can
-- be made, and then it keeps one buffer. That of naivefs_simple.c returns 0 for any device for which the
-- root directory can be made.
pub early_mounts :
    (k : Kernel) (image : Mem) (size : ℕ)
    → ((n : ℕ) → k.allocates n ≡ true)
    → k.sets_blocksize ≡ true
    → let d = on_blocks 512 image in
      let d6 = on_blocks size image in
      MountAnswer (accepts k image 512) 0 d (Stage4.fill_super k d)
      × MountAnswer (accepts k image 512) 0 d (Stage5.fill_super k d)
      × MountAnswer (accepts k image 512) 0 d (Complete.fill_super k d)
      × MountAnswer
          (accepts k image size)
          (if accepts k image size then 1 else 0)
          d6
          (Stage6.fill_super k d6)
      × (succeeds (Simple.fill_super k) ≡ k.makes_root)
unfolding Stage4.fill_super Stage5.fill_super Stage6.fill_super Simple.fill_super
    Complete.fill_super take_buffer brelse load32
early_mounts k image size a b = rw one (elim (Bool-cases (k.readable 1)) [
  | inr bad ↦ ground (arith, a 0, a 1, b, bad)
  | inl good ↦ elim (Bool-cases (load32 (λ i. image (512 + i)) 0 == magic_number)) [
    | inr other ↦ ground (arith, a 0, a 1, b, good, other)
    | inl magic ↦ ground (arith, a 0, a 1, b, good, magic)
  ]
])
  where
    one : 1 * size ≡ size
    one = omega arith
