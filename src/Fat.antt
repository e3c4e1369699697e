-- ===== src/Fat.antt =====
-- src/kernel/fs/fat.c: the read-only FAT12, FAT16 and FAT32 file system. This file has its data types,
-- the reads of little-endian words and the classes of the entries of a file allocation table.
-- Bytes, sectors and clusters are numbers; what the code logs is left out.
pub mod Table
pub mod Mount
pub mod Layout
pub mod Name
pub mod Path
pub mod Lfn
pub mod Dir
pub mod Cursor
pub mod Chain
pub mod ChainWalk
pub mod Walk
pub mod Follows
pub mod Seek
pub mod Read
pub mod ReadBounds
pub mod Content
pub mod InPlace
pub mod Exact
pub mod Lookup
pub mod Open
mod Tests
use termob_kernel.Base.{
  ℕ, ◌+◌, ◌-◌, ◌*◌, ◌^◌, Bool, true, false, not, ◌&&◌, ◌||◌, Option, none, some, bit_and, List, ltb,
  leb, ◌==◌, if◌then◌else◌,
}
use termob_kernel.Base.Words.{add32, sub32, mul32}
use termob_kernel.Block.{Block, read_device}

-- `termob_fat_type_t`
pub data FatType : Type 0 where
  none_type fat12 fat16 fat32 : FatType

-- `termob_fat_status_t`
pub data Status : Type 0 where
  ok invalid_argument invalid_path not_found not_directory not_file corrupt io_error : Status

-- `termob_fat_dirent_kind_t`
pub data DirentKind : Type 0 where
  file directory volume_label lfn deleted reserved : DirentKind

-- `termob_fat_fs_t`
pub record Fs : Type 0 where
  pub device_index : ℕ
  pub boot_lba : ℕ
  pub bytes_per_sector : ℕ
  pub sectors_per_cluster : ℕ
  pub reserved_sectors : ℕ
  pub fat_count : ℕ
  pub sectors_per_fat : ℕ
  pub root_entry_count : ℕ
  pub total_sectors : ℕ
  pub first_fat_lba : ℕ
  pub first_data_lba : ℕ
  pub first_root_dir_lba : ℕ
  pub root_dir_sectors : ℕ
  pub root_cluster : ℕ
  pub cluster_count : ℕ
  pub fat_type : FatType

-- `fat_read_le16`, `fat_read_le32`, at an offset of the bytes. Bytes are below 256, where the `|` of the
-- code is a sum.
abbrev pub read_le16 : (ℕ → ℕ) → ℕ → ℕ
read_le16 bytes i = bytes i + bytes (i + 1) * 2 ^ 8

abbrev pub read_le32 : (ℕ → ℕ) → ℕ → ℕ
read_le32 bytes i =
    bytes i + bytes (i + 1) * 2 ^ 8 + bytes (i + 2) * 2 ^ 16 + bytes (i + 3) * 2 ^ 24

unfoldable pub is_power_of_two : ℕ → Bool
is_power_of_two value = not (value == 0) && (bit_and value (sub32 value 1) == 0)

unfoldable pub cluster_is_valid : Fs → ℕ → Bool
cluster_is_valid fs cluster = leb 2 cluster && ltb cluster (add32 fs.cluster_count 2)

unfoldable pub entry_is_end : FatType → ℕ → Bool
entry_is_end FatType.fat12 value = leb 0x0ff8 value
entry_is_end FatType.fat16 value = leb 0xfff8 value
entry_is_end FatType.fat32 value = leb 0x0ffffff8 value
entry_is_end FatType.none_type value = false

unfoldable pub entry_is_bad : FatType → ℕ → Bool
entry_is_bad FatType.fat12 value = value == 0x0ff7
entry_is_bad FatType.fat16 value = value == 0xfff7
entry_is_bad FatType.fat32 value = value == 0x0ffffff7
entry_is_bad FatType.none_type value = false

unfoldable pub entry_is_reserved : FatType → ℕ → Bool
entry_is_reserved FatType.fat12 value = leb 0x0ff0 value && leb value 0x0ff6
entry_is_reserved FatType.fat16 value = leb 0xfff0 value && leb value 0xfff6
entry_is_reserved FatType.fat32 value = leb 0x0ffffff0 value && leb value 0x0ffffff6
entry_is_reserved FatType.none_type value = false

abbrev pub zeroed : ℕ → ℕ
zeroed i = 0

-- The sector buffers of the code are not initialised; the model starts them at zero. A read that
-- succeeds fills the whole sector.
unfoldable pub read_sector : Block → Fs → ℕ → Option (ℕ → ℕ)
read_sector blocks fs lba = read_device blocks fs.device_index lba 1 zeroed

unfoldable pub cluster_first_lba : Fs → ℕ → ℕ
cluster_first_lba fs cluster =
    add32 fs.first_data_lba (mul32 (sub32 cluster 2) fs.sectors_per_cluster)
