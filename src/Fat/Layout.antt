-- ===== src/Fat/Layout.antt =====
-- What `fat_mount` accepts is a well-formed file system whose clusters lie inside the volume.
use mathlib.Core.Path.{subst}
use native.Mathlib.Nat.{div-mul-le_self, div-le_self, mul-le-mul_right}
use termob_kernel.Base.{
  ℕ, ◌+◌, ◌-◌, ◌*◌, ◌/◌, ◌^◌, ◌≤◌, ◌<◌, ◌≡◌, refl, sym, ap, ◌∙◌, zero, suc, not, ◌||◌, true, false,
  ◌==◌, some, inl, inr, arith, Bool-cases, Option-cases,
}
use termob_kernel.Base.Words.{sub32, mul32}
use termob_kernel.Base.Bits.{holds_below, holds_below_at}
use termob_kernel.Block.{BlockDevice, Block, device_at, read_device}
use termob_kernel.Fat.{Fs, zeroed, is_power_of_two, cluster_is_valid, cluster_first_lba}
use termob_kernel.Fat.Mount.{
  parse_bpb, is_sector_size, bpb_is_valid, metadata_sectors, type_of_count, is_fat32, with_layout,
  mount_layout, mount, IsMounted,
}

abbrev data_clusters : Fs → ℕ
data_clusters fs = sub32 fs.total_sectors (metadata_sectors fs) / fs.sectors_per_cluster

mount_layout-some :
    (fs out : Fs)
    → mount_layout fs ≡ some out
    → (metadata_sectors fs < fs.total_sectors)
      × (0 < data_clusters fs)
      × (is_fat32 (type_of_count (data_clusters fs)) ≡ true
          → cluster_is_valid (with_layout fs (data_clusters fs)) fs.root_cluster ≡ true)
      × (out ≡ with_layout fs (data_clusters fs))
unfolding mount_layout
mount_layout-some fs out e = ground arith

bpb_is_valid-sizes :
    (device : BlockDevice) (sector : ℕ → ℕ) (fs : Fs)
    → bpb_is_valid device sector fs ≡ true
    → (is_sector_size fs.bytes_per_sector ≡ true)
      × (fs.bytes_per_sector ≡ device.sector_size_bytes)
      × (is_power_of_two fs.sectors_per_cluster ≡ true)
      × (fs.sectors_per_cluster ≤ 128)
unfolding bpb_is_valid
bpb_is_valid-sizes device sector fs h = ground arith

is_power_of_two-pos : (n : ℕ) → is_power_of_two n ≡ true → 0 < n
unfolding is_power_of_two
is_power_of_two-pos n h = ground arith

-- What lies behind a mount: the device, its boot sector, and the checks.
mount-some :
    (blocks : Block) (index lba : ℕ) (out : Fs)
    → mount blocks index lba ≡ some out
    → (device : BlockDevice) × (sector : ℕ → ℕ) × (device_at blocks index ≡ some device)
      × (bpb_is_valid device sector (parse_bpb index lba sector) ≡ true)
      × (mount_layout (parse_bpb index lba sector) ≡ some out)
unfolding mount
mount-some blocks index lba out e = elim (Option-cases (device_at blocks index)) [
  | inl missing ↦ absurd (ground arith)
  | inr (device, there) ↦ elim (Option-cases (read_device blocks index lba 1 zeroed)) [
    | inl failed ↦ absurd (ground arith)
    | inr (sector, got) ↦ (device, sector, there, ground arith, ground arith)
  ]
]

-- The powers of two up to 128, by evaluation.
power_table :
    holds_below (λ n. not (is_power_of_two n) || not (holds_below (λ k. not (n == 2 ^ k)) 8)) 129
    ≡ true
unfolding holds_below is_power_of_two
power_table = refl

some_power :
    (n bound : ℕ)
    → holds_below (λ k. not (n == 2 ^ k)) bound ≡ false
    → (k : ℕ) × (k < bound) × (n ≡ 2 ^ k)
unfolding holds_below
some_power n zero found = absurd (ground arith)
some_power n (suc bound) found = elim (Bool-cases (n == 2 ^ bound)) [
  | inl here ↦ (bound, omega arith, ground arith)
  | inr other ↦ let (k, low, e) = some_power n bound (ground arith) in (k, omega arith, e)
]

is_power_of_two-cases :
    (n : ℕ) → is_power_of_two n ≡ true → n ≤ 128 → (k : ℕ) × (k ≤ 7) × (n ≡ 2 ^ k)
is_power_of_two-cases n power bound =
    let checked = holds_below_at _ 129 n (omega arith) power_table in
    let (k, low, e) = some_power n 8 (ground arith) in (k, omega arith, e)

with_layout-IsMounted :
    (fs : Fs) (count : ℕ)
    → is_sector_size fs.bytes_per_sector ≡ true
    → is_power_of_two fs.sectors_per_cluster ≡ true
    → fs.sectors_per_cluster ≤ 128
    → 0 < count
    → count < 2 ^ 32
    → (is_fat32 (type_of_count count) ≡ true
        → cluster_is_valid (with_layout fs count) fs.root_cluster ≡ true)
    → IsMounted (with_layout fs count)
unfolding with_layout type_of_count cluster_is_valid
with_layout-IsMounted fs count size power bound some_cluster small root = record {
  sector_size = ground arith;
  cluster_size = is_power_of_two-cases fs.sectors_per_cluster power bound;
  some_cluster = some_cluster;
  clusters = small;
  small = λ few. ground arith;
  middle = λ many few. ground arith;
  large = λ many. ground arith;
  root = λ many room.
      let typed : is_fat32 (type_of_count count) ≡ true = ground arith in
      let valid = root typed in (ground arith, ground arith);
}

with_layout-size :
    (fs : Fs) (count : ℕ) → (with_layout fs count).bytes_per_sector ≡ fs.bytes_per_sector
unfolding with_layout
with_layout-size fs count = refl

-- A mounted file system has sectors of 512, 1024, 2048 or 4096 bytes, as many as the device's own, and
-- 1, 2, 4, … or 128 of them to a cluster. It has some clusters, the type FAT12 with less than 4085 of
-- them, FAT16 with less than 65525, FAT32 with more, and then, unless the count is at the end of the
-- words, a root directory in one of them.
pub mount-IsMounted :
    (blocks : Block) (index lba : ℕ) (fs : Fs)
    → mount blocks index lba ≡ some fs
    → IsMounted fs
      × (device : BlockDevice) × (device_at blocks index ≡ some device)
      × (device.sector_size_bytes ≡ fs.bytes_per_sector)
mount-IsMounted blocks index lba fs e =
    let (device, sector, there, valid, layout) = mount-some blocks index lba fs e in
    let raw : Fs = parse_bpb index lba sector in
    let (size, same, power, bound) = bpb_is_valid-sizes device sector raw valid in
    let (room, some_cluster, root, at) = mount_layout-some raw fs layout in
    let count : ℕ = data_clusters raw in
    let small : count < 2 ^ 32 = omega (
      arith,
      div-le_self (sub32 raw.total_sectors (metadata_sectors raw)) raw.sectors_per_cluster,
    ) in
    (
      subst IsMounted (sym at)
          (with_layout-IsMounted raw count size power bound some_cluster small root),
      device,
      there,
      sym same ∙ sym (ap (λ x. x.bytes_per_sector) at ∙ with_layout-size raw count),
    )

abbrev pub IsInside : Fs → ℕ → Type 0
IsInside fs cluster =
    (cluster_first_lba fs cluster ≡ fs.first_data_lba + (cluster - 2) * fs.sectors_per_cluster)
    × (fs.boot_lba + fs.reserved_sectors + fs.fat_count * fs.sectors_per_fat ≤ fs.first_data_lba)
    × (cluster_first_lba fs cluster + fs.sectors_per_cluster ≤ fs.boot_lba + fs.total_sectors)

-- The volume ends below the last sector that a word can name, and the size of its tables is no
-- number that wraps.
abbrev pub FitsWords : Fs → Type 0
FitsWords fs =
    (fs.boot_lba + fs.total_sectors < 2 ^ 32)
    × (fs.fat_count * fs.sectors_per_fat + fs.reserved_sectors + fs.root_dir_sectors < 2 ^ 32)

with_layout-IsInside :
    (raw : Fs) (cluster : ℕ)
    → metadata_sectors raw < raw.total_sectors
    → FitsWords (with_layout raw (data_clusters raw))
    → cluster_is_valid (with_layout raw (data_clusters raw)) cluster ≡ true
    → IsInside (with_layout raw (data_clusters raw)) cluster
unfolding cluster_is_valid cluster_first_lba with_layout
with_layout-IsInside raw cluster space (room, tables) valid =
    let per : ℕ = raw.sectors_per_cluster in
    let rest : ℕ = sub32 raw.total_sectors (metadata_sectors raw) in
    let fits : rest / per * per ≤ rest = div-mul-le_self rest per in
    let bounds : (2 ≤ cluster) × (cluster - 2 + 1 ≤ rest / per) = ground arith in
    let before : (cluster - 2 + 1) * per ≤ rest / per * per = mul-le-mul_right per bounds.1 in
    let split : (cluster - 2 + 1) * per ≡ (cluster - 2) * per + per = omega arith in
    let first : sub32 cluster 2 ≡ cluster - 2 = ground arith in
    let product : mul32 (sub32 cluster 2) per ≡ (cluster - 2) * per =
      ap (λ x. mul32 x per) first ∙ omega arith in
    (omega (arith, product), omega arith, omega (arith, product))

-- On a volume that fits the words, every valid cluster lies behind the tables and inside the volume,
-- with all its sectors.
pub cluster_first_lba-IsInside :
    (blocks : Block) (index lba : ℕ) (fs : Fs) (cluster : ℕ)
    → mount blocks index lba ≡ some fs
    → FitsWords fs
    → cluster_is_valid fs cluster ≡ true
    → IsInside fs cluster
cluster_first_lba-IsInside blocks index lba fs cluster e fits valid =
    let (device, sector, there, checked, layout) = mount-some blocks index lba fs e in
    let raw : Fs = parse_bpb index lba sector in
    let (space, some_cluster, root, at) = mount_layout-some raw fs layout in
    subst (λ x. IsInside x cluster) (sym at)
      (with_layout-IsInside raw cluster space (subst FitsWords at fits)
        (ap (λ x. cluster_is_valid x cluster) (sym at) ∙ valid))
