-- ===== src/Fat/Tests.antt =====
-- A small FAT12 volume, and the theorems applied to it.
mod Walks
use mathlib.Core.Path.{ap₂}
use termob_kernel.Base.{
  ◌<◌, ℕ, ◌+◌, ◌*◌, ◌/◌, ◌%◌, ◌≤◌, ◌≡◌, ◌≢◌, ◌↔◌, refl, ap, ◌∙◌, true, false, ◌||◌, Option, none,
  some, [], ◌∷◌, map, arith, ◌==◌, if◌then◌else◌,
}
use termob_kernel.Base.Lists.{length}
use termob_kernel.Base.Words.{add32}
use termob_kernel.Block.{
  BlockDevice, Block, device_at, nth_device, read_device, read_one, read_loop,
}
use termob_kernel.Fat.{
  Fs, FatType, Status, DirentKind, is_power_of_two, cluster_is_valid, entry_is_end, entry_is_bad,
  entry_is_reserved,
}
use termob_kernel.Fat.Table.{
  fat_offset, straddles, entry_value, read_entry_sectors, read_fat_entry, decode, IsTable,
  read_fat_entry-decode,
}
use termob_kernel.Fat.Mount.{
  parse_bpb, bpb_is_valid, with_layout, mount_layout, type_of_count, mount, IsMounted,
}
use termob_kernel.Fat.Layout.{IsInside, mount-IsMounted, cluster_first_lba-IsInside}
use termob_kernel.Fat.Name.{
  copy_83_name, AllPrintable, copy_83_name-AllPrintable, ascii_upper, name_equals_case_insensitive,
  name_equals_case_insensitive_iff, SameName,
}
use termob_kernel.Fat.Path.{parse_path_component, Parsed, parse_path_component-Parsed}
use termob_kernel.Fat.Lfn.{lfn_reset, lfn_collect, IsValid, lfn_reset-IsValid, lfn_collect-IsValid}
use termob_kernel.Fat.Content.{cluster_at}
use termob_kernel.Fat.Cursor.{
  File, reset_state, max_clusters, was_visited, is_broken, step_to, follow, advance_cluster,
  advance_loop, seek_file,
}
use termob_kernel.Fat.Walk.{
  IsOnChain, IsAdvanced, reset_state-IsOnChain, advance_cluster-IsAdvanced,
}
use termob_kernel.Fat.Seek.{seek_file-IsOnChain, seek_file-end}
use termob_kernel.Fat.Read.{read_file}
use termob_kernel.Fat.ReadBounds.{Returned, read_file-Returned}

-- 512 bytes a sector, one sector a cluster, one reserved sector, one table of one sector, 16 root
-- entries, 100 sectors.
abbrev boot_byte : ℕ → ℕ
boot_byte j =
    if j == 12
    then 2
    else if (j == 13) || ((j == 14) || ((j == 16) || (j == 22)))
    then 1
    else if j == 17
    then 16
    else if j == 19
    then 100
    else if j == 510
    then 0x55
    else if j == 511
    then 0xaa
    else 0

-- Cluster 2 is followed by cluster 3, which is the last.
abbrev table_byte : ℕ → ℕ
table_byte j = if j == 3 then 3 else if j == 4 then 0xf0 else if j == 5 then 0xff else 0

abbrev disk_byte : (lba j : ℕ) → ℕ
disk_byte lba j =
    if lba == 0 then boot_byte j else if lba == 1 then table_byte j else (lba + j) % 256

abbrev sectors : (lba count : ℕ) → Option (ℕ → ℕ)
sectors lba count = some (disk_byte lba)

abbrev pub disk : BlockDevice
disk = record { name = 1; sector_size_bytes = 512; sector_count = 100; read = some sectors }

abbrev pub blocks : Block
blocks = record { ready = true; devices = disk ∷ []; device_count = 1 }

abbrev pub volume : Fs
volume = record {
  device_index = 0;
  boot_lba = 0;
  bytes_per_sector = 512;
  sectors_per_cluster = 1;
  reserved_sectors = 1;
  fat_count = 1;
  sectors_per_fat = 1;
  root_entry_count = 16;
  total_sectors = 100;
  first_fat_lba = 1;
  first_data_lba = 3;
  first_root_dir_lba = 2;
  root_dir_sectors = 1;
  root_cluster = 0;
  cluster_count = 97;
  fat_type = FatType.fat12;
}

volume_mounted : mount blocks 0 0 ≡ some volume
unfolding mount device_at nth_device read_device read_one read_loop bpb_is_valid parse_bpb
    is_power_of_two mount_layout with_layout type_of_count cluster_is_valid
volume_mounted = refl

mount-IsMounted_example :
    IsMounted volume
    × (device : BlockDevice) × (device_at blocks 0 ≡ some device)
    × (device.sector_size_bytes ≡ 512)
mount-IsMounted_example = mount-IsMounted blocks 0 0 volume volume_mounted

last_is_valid : cluster_is_valid volume 98 ≡ true
unfolding cluster_is_valid
last_is_valid = refl

cluster_first_lba-IsInside_example : IsInside volume 98
cluster_first_lba-IsInside_example =
    cluster_first_lba-IsInside blocks 0 0 volume 98 volume_mounted (omega arith, omega arith)
      last_is_valid

disk_there : device_at blocks 0 ≡ some disk
unfolding device_at nth_device
disk_there = refl

abbrev byte_of : Option (ℕ → ℕ) → ℕ → ℕ
byte_of none i = 0
byte_of (some f) i = f i

abbrev flat : ℕ → ℕ
flat k = disk_byte (add32 1 (k / 512)) (k % 512)

flat-IsTable : IsTable sectors 512 1 flat
flat-IsTable i j lt sector e =
    let q : (i * 512 + j) / 512 ≡ i = omega arith in
    let r : (i * 512 + j) % 512 ≡ j = omega arith in
    ap₂ (λ a b. disk_byte (add32 1 a) b) q r ∙ ap (λ o. byte_of o j) e

next_of_two : read_fat_entry blocks volume 2 ≡ some 3
unfolding read_fat_entry read_entry_sectors fat_offset straddles entry_value device_at nth_device
    read_device read_one read_loop
next_of_two = refl

read_fat_entry-decode_example : 3 ≡ decode FatType.fat12 flat 2
read_fat_entry-decode_example =
    read_fat_entry-decode blocks volume flat disk_there refl refl (omega arith) flat-IsTable 2 3
      (omega arith) next_of_two

-- A file of `size` bytes from cluster 2 on.
abbrev pub file_of : ℕ → File
file_of size = record {
  fs = volume;
  dirent = record {
    short_name = 65 ∷ [];
    display_name = 65 ∷ [];
    raw_name = λ i. 65;
    attributes = 0;
    first_cluster = 2;
    size_bytes = size;
    kind = DirentKind.file;
    has_long_name = false;
    suspicious = false;
  };
  position = 0;
  current_cluster = 2;
  current_cluster_file_offset = 0;
  clusters_seen = 1;
  visited_count = 1;
  visited_clusters = λ i. 2;
}

pub two_is_valid : cluster_is_valid volume 2 ≡ true
unfolding cluster_is_valid
two_is_valid = refl

seek_works : (seek_file blocks (file_of 1000) 600).0 ≡ Status.ok
unfolding seek_file reset_state advance_loop advance_cluster max_clusters follow step_to is_broken
    was_visited cluster_is_valid entry_is_end entry_is_bad entry_is_reserved read_fat_entry
    read_entry_sectors fat_offset straddles entry_value device_at nth_device read_device read_one
    read_loop
seek_works = refl

seek_file-IsOnChain_example :
    ((seek_file blocks (file_of 1000) 600).1.position ≡ 600)
    × IsOnChain (seek_file blocks (file_of 1000) 600).1
    × ((seek_file blocks (file_of 1000) 600).1.visited_count ≡ 1 + 600 / 512)
    × ((i : ℕ)
        → i < 1 + 600 / 512
        → (seek_file blocks (file_of 1000) 600).1.visited_clusters i ≡ cluster_at blocks volume 2 i)
    × ((seek_file blocks (file_of 1000) 600).1.current_cluster
        ≡ cluster_at blocks volume 2 (600 / 512))
seek_file-IsOnChain_example =
    seek_file-IsOnChain blocks (file_of 1000) 600 (omega arith) (omega arith) two_is_valid
      seek_works

seek_file-end_example : (seek_file blocks (file_of 1024) 1024).0 ≢ Status.ok
seek_file-end_example =
    seek_file-end blocks (file_of 1024) 2 (omega arith) (omega arith) (omega arith) (omega arith)
      two_is_valid

opened-IsOnChain : IsOnChain (reset_state (file_of 1000))
opened-IsOnChain = reset_state-IsOnChain (file_of 1000) (omega arith) two_is_valid

advance_works : (advance_cluster blocks (reset_state (file_of 1000))).0 ≡ Status.ok
unfolding reset_state advance_cluster max_clusters follow step_to is_broken was_visited
    cluster_is_valid entry_is_end entry_is_bad entry_is_reserved read_fat_entry read_entry_sectors
    fat_offset straddles entry_value device_at nth_device read_device read_one read_loop
advance_works = refl

abbrev pub no_bytes : ℕ → ℕ
no_bytes i = 0

read_file-Returned_example :
    Returned
      (record { file = file_of 1000; buffer = no_bytes; copied = 0 })
      700
      (read_file blocks (file_of 1000) no_bytes 700)
read_file-Returned_example = read_file-Returned blocks (file_of 1000) no_bytes 700 (omega arith)

abbrev long_entry : ℕ → ℕ
long_entry i = if i == 0 then 0x41 else if i == 11 then 0x0f else if i == 1 then 97 else 0

lfn_collect-IsValid_example : IsValid (lfn_collect lfn_reset long_entry).1
lfn_collect-IsValid_example = lfn_collect-IsValid lfn_reset long_entry lfn_reset-IsValid

abbrev raw_name : ℕ → ℕ
raw_name i = if i == 0 then 65 else if i == 8 then 66 else 32

copy_83_name-AllPrintable_example :
    AllPrintable (copy_83_name raw_name)
    × (1 ≤ length (copy_83_name raw_name))
    × (length (copy_83_name raw_name) ≤ 12)
copy_83_name-AllPrintable_example = copy_83_name-AllPrintable raw_name

name_equals_case_insensitive_iff_example :
    (name_equals_case_insensitive (97 ∷ []) (65 ∷ []) ≡ true) ↔ SameName (97 ∷ []) (65 ∷ [])
name_equals_case_insensitive_iff_example = name_equals_case_insensitive_iff (97 ∷ []) (65 ∷ [])

parse_path_component-Parsed_example :
    Parsed 13 (47 ∷ 65 ∷ 47 ∷ 66 ∷ []) (parse_path_component (47 ∷ 65 ∷ 47 ∷ 66 ∷ []) 13)
parse_path_component-Parsed_example = parse_path_component-Parsed (47 ∷ 65 ∷ 47 ∷ 66 ∷ []) 13
