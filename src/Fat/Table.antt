-- ===== src/Fat/Table.antt =====
-- `fat_read_fat_entry` and the table that it reads, as an array of bytes.
use mathlib.Core.Path.{subst}
use native.Mathlib.Nat.{div-add-mod', mod-lt}
use termob_kernel.Base.{
  ℕ, ◌+◌, ◌-◌, ◌*◌, ◌/◌, ◌%◌, ◌^◌, ◌≤◌, ◌<◌, ◌≡◌, refl, sym, ap, ◌∙◌, Bool, true, false, not, ◌||◌,
  Option, none, some, inl, inr, arith, bit_and, ltb, ◌==◌, Bool-cases, ltb-false, Option-cases,
  if◌then◌else◌,
}
use termob_kernel.Base.Words.{add32, sub32, mul32}
use termob_kernel.Base.Bits.{bit_and_page, bit_and-low, pow2, ones}
use termob_kernel.Block.{BlockDevice, Block, device_at, read_device}
use termob_kernel.Block.Read.{sector_at, HoldsSectors, read_device_lem}
use termob_kernel.Fat.{Fs, FatType, read_le16, read_le32, zeroed}

-- Where the entry of a cluster starts in the table, in bytes.
unfoldable pub fat_offset : FatType → ℕ → ℕ
fat_offset FatType.fat12 cluster = add32 cluster (cluster / 2)
fat_offset FatType.fat16 cluster = mul32 cluster 2
fat_offset FatType.fat32 cluster = mul32 cluster 4
fat_offset FatType.none_type cluster = 0

-- Whether the entry goes on in the next sector.
unfoldable pub straddles : FatType → (bytes_per_sector byte_offset : ℕ) → Bool
straddles FatType.fat12 size offset = offset == sub32 size 1
straddles FatType.fat16 size offset = ltb (sub32 size 2) offset
straddles FatType.fat32 size offset = ltb (sub32 size 4) offset
straddles FatType.none_type size offset = false

unfoldable pub entry_value : FatType → (cluster : ℕ) → (ℕ → ℕ) → (byte_offset : ℕ) → ℕ
entry_value FatType.fat12 cluster bytes offset =
    let raw = read_le16 bytes offset in
    if bit_and cluster 1 == 0 then bit_and raw 0x0fff else bit_and (raw / 2 ^ 4) 0x0fff
entry_value FatType.fat16 cluster bytes offset = read_le16 bytes offset
entry_value FatType.fat32 cluster bytes offset = bit_and (read_le32 bytes offset) 0x0fffffff
entry_value FatType.none_type cluster bytes offset = 0

abbrev pub has_type : FatType → Bool
has_type FatType.none_type = false
has_type _ = true

-- The bytes of the entry's sector, and of the next one if the entry goes on there.
unfoldable pub read_entry_sectors : Block → Fs → (offset : ℕ) → Option (ℕ → ℕ)
read_entry_sectors blocks fs offset =
    read_device blocks fs.device_index (add32 fs.first_fat_lba (offset / fs.bytes_per_sector))
      (if straddles fs.fat_type fs.bytes_per_sector (offset % fs.bytes_per_sector) then 2 else 1)
      zeroed

unfoldable pub read_fat_entry : Block → Fs → ℕ → Option ℕ
read_fat_entry blocks fs cluster =
    if ltb 8192 fs.bytes_per_sector || not (has_type fs.fat_type)
    then none
    else (let offset = fat_offset fs.fat_type cluster in
        elim (read_entry_sectors blocks fs offset) [
          | none ↦ none
          | some bytes ↦ some (entry_value fs.fat_type cluster bytes (offset % fs.bytes_per_sector))
        ])

-- The file allocation table as the format defines it: an array of 12, 16 or 32 bit entries.
abbrev pub decode : FatType → (ℕ → ℕ) → ℕ → ℕ
decode FatType.fat12 table cluster =
    let raw = read_le16 table (cluster + cluster / 2) in
    if cluster % 2 == 0 then raw % 2 ^ 12 else raw / 2 ^ 4 % 2 ^ 12
decode FatType.fat16 table cluster = read_le16 table (cluster * 2)
decode FatType.fat32 table cluster = read_le32 table (cluster * 4) % 2 ^ 28
decode FatType.none_type table cluster = 0

-- The bytes of an entry.
abbrev pub width : FatType → ℕ
width FatType.fat32 = 4
width _ = 2

width-small : (type : FatType) → width type ≤ 4
width-small FatType.fat12 = omega arith
width-small FatType.fat16 = omega arith
width-small FatType.fat32 = omega arith
width-small FatType.none_type = omega arith

entry_value-bytes :
    (type : FatType) (cluster offset offset' : ℕ) (bytes table : ℕ → ℕ)
    → ((d : ℕ) → d < width type → bytes (offset + d) ≡ table (offset' + d))
    → entry_value type cluster bytes offset ≡ entry_value type cluster table offset'
unfolding entry_value
entry_value-bytes FatType.fat12 cluster offset offset' bytes table same =
    let raw : read_le16 bytes offset ≡ read_le16 table offset' = ground (arith, same 0, same 1) in
    ap (λ x. if bit_and cluster 1 == 0 then bit_and x 0x0fff else bit_and (x / 2 ^ 4) 0x0fff) raw
entry_value-bytes FatType.fat16 cluster offset offset' bytes table same =
    ground (arith, same 0, same 1)
entry_value-bytes FatType.fat32 cluster offset offset' bytes table same =
    ground (arith, same 0, same 1, same 2, same 3)
entry_value-bytes FatType.none_type cluster offset offset' bytes table same = refl

bit_and_one : (x : ℕ) → bit_and x 1 ≡ x % 2
unfolding pow2 ones
bit_and_one x = ap (λ y. bit_and y 1) (omega arith) ∙ bit_and-low 1 (x / 2) (x % 2) (omega arith)

bit_and_entry : (x : ℕ) → bit_and x 0x0fffffff ≡ x % 2 ^ 28
unfolding pow2 ones
bit_and_entry x =
    ap (λ y. bit_and y 0x0fffffff) (omega arith)
    ∙ bit_and-low 28 (x / 2 ^ 28) (x % 2 ^ 28) (omega arith)

entry_value-decode :
    (type : FatType) (cluster : ℕ) (table : ℕ → ℕ)
    → cluster < 2 ^ 30
    → entry_value type cluster table (fat_offset type cluster) ≡ decode type table cluster
unfolding entry_value fat_offset
entry_value-decode FatType.fat12 cluster table small =
    let at : add32 cluster (cluster / 2) ≡ cluster + cluster / 2 = omega arith in
    rw (bit_and_one cluster, at, bit_and_page, bit_and_page) refl
entry_value-decode FatType.fat16 cluster table small =
    let at : mul32 cluster 2 ≡ cluster * 2 = omega arith in ap (read_le16 table) at
entry_value-decode FatType.fat32 cluster table small =
    let at : mul32 cluster 4 ≡ cluster * 4 = omega arith in
    ap (λ i. bit_and (read_le32 table i) 0x0fffffff) at
    ∙ bit_and_entry (read_le32 table (cluster * 4))
entry_value-decode FatType.none_type cluster table small = refl

-- The bytes of the first table on the medium: sector `i` of the table holds bytes `i * size` to
-- `i * size + (size - 1)`.
abbrev pub IsTable : ((lba count : ℕ) → Option (ℕ → ℕ)) → (size first : ℕ) → (ℕ → ℕ) → Type 0
IsTable read size first table =
    (i j : ℕ)
    → j < size
    → (sector : ℕ → ℕ) → sector_at read first i ≡ some sector
    → table (i * size + j) ≡ sector j

module _ (blocks : Block) (fs : Fs) {device : BlockDevice} {read : (lba count : ℕ) → Option (ℕ → ℕ)}
    (table : ℕ → ℕ) (there : device_at blocks fs.device_index ≡ some device)
    (readable : device.read ≡ some read) (sized : device.sector_size_bytes ≡ fs.bytes_per_sector)
    (some_size : 8 ≤ fs.bytes_per_sector)
    (is_table : IsTable read fs.bytes_per_sector fs.first_fat_lba table) where
  abbrev size : ℕ
  size = fs.bytes_per_sector

  abbrev sectors : ℕ → ℕ
  sectors offset = if straddles fs.fat_type size (offset % size) then 2 else 1

  -- The buffer holds the sectors of the table one behind the other.
  buffer-table :
      (offset : ℕ) (bytes : ℕ → ℕ)
      → fs.bytes_per_sector ≤ 8192
      → read_entry_sectors blocks fs offset ≡ some bytes
      → (i j : ℕ) → i < sectors offset
      → j < size
      → bytes (i * size + j) ≡ table ((offset / size + i) * size + j)
  unfolding read_entry_sectors
  buffer-table offset bytes small got i j lt lt' =
      let q : ℕ = offset / size in
      let some_sector : 0 < sectors offset = ground arith in
      let fits : sectors offset * device.sector_size_bytes < 2 ^ 32 = ground arith in
      let (holds, total) =
        read_device_lem blocks fs.device_index (add32 fs.first_fat_lba q) (sectors offset) zeroed
          device read there readable (omega arith) (omega (arith, sized)) some_sector fits in
      let (sector, found, at) =
        subst (λ z. HoldsSectors read z (add32 fs.first_fat_lba q) (sectors offset) bytes) sized
          (holds bytes got) i lt in
      let same : add32 fs.first_fat_lba (q + i) ≡ add32 (add32 fs.first_fat_lba q) i =
        omega arith in
      at j lt' ∙ sym (is_table (q + i) j lt' sector (ap (λ x. read x 1) same ∙ found))

  straddles-true :
      (type : FatType) (d r : ℕ)
      → size ≤ 8192
      → r < size
      → d < width type
      → size ≤ r + d
      → has_type type ≡ true
      → straddles type size r ≡ true
  unfolding straddles
  straddles-true FatType.fat12 d r small lt lt' over typed = ground arith
  straddles-true FatType.fat16 d r small lt lt' over typed = ground arith
  straddles-true FatType.fat32 d r small lt lt' over typed = ground arith
  straddles-true FatType.none_type d r small lt lt' over typed = absurd (ground arith)

  -- The bytes of the entry are those of the table.
  entry-bytes :
      (offset : ℕ) (bytes : ℕ → ℕ)
      → fs.bytes_per_sector ≤ 8192
      → has_type fs.fat_type ≡ true
      → read_entry_sectors blocks fs offset ≡ some bytes
      → (d : ℕ) → d < width fs.fat_type
      → bytes (offset % size + d) ≡ table (offset + d)
  entry-bytes offset bytes small typed got d lt =
      let q : ℕ = offset / size in
      let r : ℕ = offset % size in
      let parts : q * size + r ≡ offset = div-add-mod' offset size in
      let inside : r < size = mod-lt offset (omega arith) in
      elim (Bool-cases (ltb (r + d) size)) [
        | inl first ↦
            let some_sector : 0 < sectors offset = ground arith in
            let here = buffer-table offset bytes small got 0 (r + d) some_sector (ground arith) in
            let e : 0 * size + (r + d) ≡ r + d = omega arith in
            let e' : (q + 0) * size + (r + d) ≡ offset + d = omega (arith, parts) in
            sym (ap bytes e) ∙ here ∙ ap table e'
        | inr second ↦
            let over : size ≤ r + d = ltb-false _ _ second in
            let two = straddles-true fs.fat_type d r small inside lt over typed in
            let j : ℕ = r + d - size in
            let here =
              buffer-table offset bytes small got 1 j (rw two (omega arith))
                (omega (arith, width-small fs.fat_type)) in
            let e : 1 * size + j ≡ r + d = omega arith in
            let e' : (q + 1) * size + j ≡ offset + d = omega (arith, parts) in
            sym (ap bytes e) ∙ here ∙ ap table e'
      ]

  -- What lies behind a result.
  read_fat_entry-some :
      (cluster value : ℕ)
      → read_fat_entry blocks fs cluster ≡ some value
      → (size ≤ 8192)
        × (has_type fs.fat_type ≡ true)
        × (bytes : ℕ → ℕ) × (read_entry_sectors blocks fs (fat_offset fs.fat_type cluster)
            ≡ some bytes)
        × (value ≡ entry_value fs.fat_type cluster bytes (fat_offset fs.fat_type cluster % size))
  unfolding read_fat_entry
  read_fat_entry-some cluster value got =
      elim (Option-cases (read_entry_sectors blocks fs (fat_offset fs.fat_type cluster))) [
        | inl failed ↦ absurd (ground arith)
        | inr (bytes, sectors_read) ↦
            (ground arith, ground arith, bytes, sectors_read, ground arith)
      ]

  -- What `fat_read_fat_entry` returns is the entry of the cluster in the table on the medium, also
  -- where the entry goes on in the next sector. The device's sectors have the size that the file
  -- system was mounted with.
  pub read_fat_entry-decode :
      (cluster value : ℕ)
      → cluster < 2 ^ 30
      → read_fat_entry blocks fs cluster ≡ some value
      → value ≡ decode fs.fat_type table cluster
  read_fat_entry-decode cluster value small got =
      let offset : ℕ = fat_offset fs.fat_type cluster in
      let (large, typed, bytes, sectors_read, result) = read_fat_entry-some cluster value got in
      result
      ∙ entry_value-bytes fs.fat_type cluster (offset % size) offset bytes table
          (entry-bytes offset bytes large typed sectors_read)
      ∙ entry_value-decode fs.fat_type cluster table small
