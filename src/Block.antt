-- ===== src/Block.antt =====
-- src/kernel/core/block.c: the list of block devices and the reads of their sectors.
-- A driver's read function is a function from the sector and the count to the bytes that it writes,
-- none when it fails; the medium does not change while the code that is modelled runs. The
-- allocation of a list node is an argument.
pub mod Read
mod Tests
use termob_kernel.Base.{
  ℕ, zero, suc, ◌+◌, ◌-◌, ◌*◌, ◌^◌, Bool, true, false, not, ◌&&◌, ◌||◌, Option, none, some, List,
  [], ◌∷◌, ◌++◌, ltb, leb, ◌==◌, if◌then◌else◌,
}
use termob_kernel.Base.Words.{add32, mul32}

-- `termob_block_device_t`; a null `read` is none.
pub record BlockDevice : Type 0 where
  pub name : ℕ
  pub sector_size_bytes : ℕ
  pub sector_count : ℕ
  pub read : Option ((lba count : ℕ) → Option (ℕ → ℕ))

-- The static variables of the file, the linked list as a list.
pub record Block : Type 0 where
  pub ready : Bool
  pub devices : List BlockDevice
  pub device_count : ℕ

unfoldable pub init : (heap_is_initialized : Bool) → Block
init heap_is_initialized = record { ready = heap_is_initialized; devices = []; device_count = 0 }

unfoldable pub register_device : (node_is_allocated : Bool) → Block → BlockDevice → Bool × Block
register_device node_is_allocated s device =
    if not s.ready || (device.name == 0)
    then (false, s)
    else if not node_is_allocated
    then (false, s)
    else (
      true,
      record s { devices = s.devices ++ (device ∷ []); device_count = add32 s.device_count 1 },
    )

-- The walk of `block_device_at` along the list.
unfoldable pub nth_device : List BlockDevice → ℕ → Option BlockDevice
nth_device [] index = none
nth_device (device ∷ devices) zero = some device
nth_device (device ∷ devices) (suc index) = nth_device devices index

unfoldable pub device_at : Block → ℕ → Option BlockDevice
device_at s index = if s.ready then nth_device s.devices index else none

-- A driver writes the `size` bytes of a sector at an offset of the buffer.
abbrev pub write_at : (buffer : ℕ → ℕ) (offset size : ℕ) → (ℕ → ℕ) → ℕ → ℕ
write_at buffer offset size sector i =
    if leb offset i && ltb i (offset + size) then sector (i - offset) else buffer i

-- The loop of `block_read_device`, from sector `index` on.
unfoldable pub read_loop :
    (read : (lba count : ℕ) → Option (ℕ → ℕ))
    → (size lba rounds index : ℕ) → (ℕ → ℕ)
    → Option (ℕ → ℕ)
read_loop read size lba zero index buffer = some buffer
read_loop read size lba (suc rounds) index buffer = elim (read (add32 lba index) 1) [
  | none ↦ none
  | some sector ↦
      read_loop read size lba rounds (index + 1) (write_at buffer (mul32 index size) size sector)
]

-- What a function that reads with one call leaves in the buffer.
unfoldable pub read_one :
    BlockDevice → (read : (lba count : ℕ) → Option (ℕ → ℕ)) → ℕ → (ℕ → ℕ) → Option (ℕ → ℕ)
read_one device read lba buffer = elim (read lba 1) [
  | none ↦ none
  | some sector ↦ some (write_at buffer 0 device.sector_size_bytes sector)
]

unfoldable pub read_device : Block → (index lba sector_count : ℕ) → (ℕ → ℕ) → Option (ℕ → ℕ)
read_device s index lba sector_count buffer = elim (device_at s index) [
  | none ↦ none
  | some device ↦ elim device.read [
    | none ↦ none
    | some read ↦
        if sector_count == 0
        then none
        else if sector_count == 1
        then read_one device read lba buffer
        else if device.sector_size_bytes == 0
        then none
        else read_loop read device.sector_size_bytes lba sector_count 0 buffer
  ]
]
