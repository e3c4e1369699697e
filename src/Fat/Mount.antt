-- ===== src/Fat/Mount.antt =====
-- `fat_mount`: which boot sectors are accepted, and where the parts of the volume lie.
use termob_kernel.Base.{
  ℕ, ◌/◌, ◌^◌, ◌-◌, ◌+◌, ◌≤◌, ◌<◌, ◌≡◌, ◌⊎◌, Bool, true, false, not, ◌&&◌, ◌||◌, Option, none, some,
  ltb, leb, ◌==◌, if◌then◌else◌,
}
use termob_kernel.Base.Words.{add32, sub32, mul32}
use termob_kernel.Block.{BlockDevice, Block, device_at, read_device}
use termob_kernel.Fat.{Fs, FatType, read_le16, read_le32, zeroed, is_power_of_two, cluster_is_valid}

-- The fields that `fat_mount` copies from the boot sector, at their offsets in `fat_bpb_common_t`
-- and `fat_bpb_32_t`; the rest is filled in when they have been checked.
unfoldable pub parse_bpb : (device_index boot_lba : ℕ) → (ℕ → ℕ) → Fs
parse_bpb device_index boot_lba sector =
    let total16 = read_le16 sector 19 in
    let per_fat16 = read_le16 sector 22 in
    record {
      device_index = device_index;
      boot_lba = boot_lba;
      bytes_per_sector = read_le16 sector 11;
      sectors_per_cluster = sector 13;
      reserved_sectors = read_le16 sector 14;
      fat_count = sector 16;
      sectors_per_fat = if per_fat16 == 0 then read_le32 sector 36 else per_fat16;
      root_entry_count = read_le16 sector 17;
      total_sectors = if total16 == 0 then read_le32 sector 32 else total16;
      first_fat_lba = 0;
      first_data_lba = 0;
      first_root_dir_lba = 0;
      root_dir_sectors = 0;
      root_cluster = if per_fat16 == 0 then read_le32 sector 44 else 0;
      cluster_count = 0;
      fat_type = FatType.none_type;
    }

abbrev pub is_sector_size : ℕ → Bool
is_sector_size n = (n == 512) || ((n == 1024) || ((n == 2048) || (n == 4096)))

-- The checks up to the layout.
unfoldable pub bpb_is_valid : BlockDevice → (ℕ → ℕ) → Fs → Bool
bpb_is_valid device sector fs =
    is_sector_size fs.bytes_per_sector
    && ((fs.bytes_per_sector == device.sector_size_bytes)
        && ((is_power_of_two fs.sectors_per_cluster && leb fs.sectors_per_cluster 128)
            && not (
                (fs.reserved_sectors == 0)
                || ((fs.fat_count == 0)
                    || ((fs.sectors_per_fat == 0)
                        || ((fs.total_sectors == 0)
                            || (not (sector 510 == 0x55) || not (sector 511 == 0xaa))))))))

abbrev pub root_sectors : Fs → ℕ
root_sectors fs =
    add32 (mul32 fs.root_entry_count 32) (sub32 fs.bytes_per_sector 1) / fs.bytes_per_sector

abbrev pub metadata_sectors : Fs → ℕ
metadata_sectors fs =
    add32 (add32 fs.reserved_sectors (mul32 fs.fat_count fs.sectors_per_fat)) (root_sectors fs)

unfoldable pub type_of_count : ℕ → FatType
type_of_count count =
    if ltb count 4085
    then FatType.fat12
    else if ltb count 65525
    then FatType.fat16
    else FatType.fat32

abbrev pub is_fat32 : FatType → Bool
is_fat32 FatType.fat32 = true
is_fat32 _ = false

-- The places of the tables, of the root directory and of the data.
unfoldable pub with_layout : Fs → ℕ → Fs
with_layout fs count =
    let first_fat = add32 fs.boot_lba fs.reserved_sectors in
    let first_root = add32 first_fat (mul32 fs.fat_count fs.sectors_per_fat) in
    record fs {
      cluster_count = count;
      fat_type = type_of_count count;
      root_dir_sectors = root_sectors fs;
      first_fat_lba = first_fat;
      first_root_dir_lba = if is_fat32 (type_of_count count) then 0 else first_root;
      first_data_lba = add32 first_root (root_sectors fs);
    }

unfoldable pub mount_layout : Fs → Option Fs
mount_layout fs =
    let count = sub32 fs.total_sectors (metadata_sectors fs) / fs.sectors_per_cluster in
    let out = with_layout fs count in
    if leb fs.total_sectors (metadata_sectors fs)
    then none
    else if count == 0
    then none
    else if is_fat32 (type_of_count count) && not (cluster_is_valid out fs.root_cluster)
    then none
    else some out

unfoldable pub mount : Block → (device_index boot_lba : ℕ) → Option Fs
mount blocks device_index boot_lba = elim (device_at blocks device_index) [
  | none ↦ none
  | some device ↦ elim (read_device blocks device_index boot_lba 1 zeroed) [
    | none ↦ none
    | some sector ↦
        if bpb_is_valid device sector (parse_bpb device_index boot_lba sector)
        then mount_layout (parse_bpb device_index boot_lba sector)
        else none
  ]
]

-- What a mounted file system is known to be.
pub record IsMounted (fs : Fs) : Type 0 where
  pub sector_size :
      (fs.bytes_per_sector ≡ 512)
      ⊎ ((fs.bytes_per_sector ≡ 1024)
          ⊎ ((fs.bytes_per_sector ≡ 2048) ⊎ (fs.bytes_per_sector ≡ 4096)))
  pub cluster_size : (k : ℕ) × (k ≤ 7) × (fs.sectors_per_cluster ≡ 2 ^ k)
  pub some_cluster : 0 < fs.cluster_count
  pub clusters : fs.cluster_count < 2 ^ 32
  pub small : fs.cluster_count < 4085 → fs.fat_type ≡ FatType.fat12
  pub middle : 4085 ≤ fs.cluster_count → fs.cluster_count < 65525 → fs.fat_type ≡ FatType.fat16
  pub large : 65525 ≤ fs.cluster_count → fs.fat_type ≡ FatType.fat32
  pub root :
      65525 ≤ fs.cluster_count
      → fs.cluster_count < 2 ^ 32 - 2
      → (2 ≤ fs.root_cluster) × (fs.root_cluster < fs.cluster_count + 2)
