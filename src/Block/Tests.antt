-- ===== src/Block/Tests.antt =====
-- A device of numbered sectors, and the theorems at it.
use termob_kernel.Base.{
  ℕ, ◌+◌, ◌*◌, ◌%◌, ◌<◌, ◌≡◌, refl, true, Option, none, some, [], ◌∷◌, arith, ltb, ◌==◌,
  if◌then◌else◌,
}
use termob_kernel.Block.{
  BlockDevice, Block, register_device, nth_device, device_at, read_loop, read_device,
}
use termob_kernel.Block.Read.{sector_at, HoldsSectors, register_device-device_at, read_device_lem}

-- Byte `j` of sector `i` is `i + j`; the device has eight sectors.
abbrev numbered : (lba count : ℕ) → Option (ℕ → ℕ)
numbered lba count = if ltb lba 8 then some (λ j. (lba + j) % 256) else none

abbrev disk : BlockDevice
disk = record { name = 1; sector_size_bytes = 512; sector_count = 8; read = some numbered }

abbrev one_disk : Block
one_disk = record { ready = true; devices = disk ∷ []; device_count = 1 }

abbrev zeros : ℕ → ℕ
zeros i = 0

abbrev byte_of : Option (ℕ → ℕ) → ℕ → ℕ
byte_of none i = 0
byte_of (some out) i = out i

-- The fourth sector read is sector 5, and its byte 7 is 12.
read_byte : byte_of (read_device one_disk 0 2 4 zeros) (3 * 512 + 7) ≡ 12
unfolding read_device device_at nth_device read_loop
read_byte = refl

-- Sector 8 is missing.
read_past : read_device one_disk 0 6 4 zeros ≡ none
unfolding read_device device_at nth_device read_loop
read_past = refl

register_device-device_at_example :
    ((i : ℕ)
      → device_at (register_device true one_disk disk).1 i
        ≡ (if i == 1 then some disk else device_at one_disk i))
    × ((register_device true one_disk disk).1.device_count ≡ 1 + 1)
unfolding register_device
register_device-device_at_example = register_device-device_at one_disk disk refl (omega arith) refl

disk_there : device_at one_disk 0 ≡ some disk
unfolding device_at nth_device
disk_there = refl

read_device_lem_example :
    ((out : ℕ → ℕ)
      → read_device one_disk 0 2 4 zeros ≡ some out
      → HoldsSectors numbered 512 2 4 out)
    × (((i : ℕ) → i < 4 → (sector : ℕ → ℕ) × (sector_at numbered 2 i ≡ some sector))
        → (out : ℕ → ℕ) × (read_device one_disk 0 2 4 zeros ≡ some out))
read_device_lem_example =
    read_device_lem one_disk 0 2 4 zeros disk numbered disk_there refl (omega arith) (omega arith)
      (omega arith) (omega arith)
