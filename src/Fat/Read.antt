-- ===== src/Fat/Read.antt =====
-- `fat_read_file`: the bytes of a file, sector by sector. The loop runs on fuel, a round for each byte
-- that is wanted, and never uses it up.
use termob_kernel.Base.{
  ℕ, zero, suc, ◌+◌, ◌-◌, ◌/◌, ◌%◌, not, ◌||◌, Option, none, some, ltb, leb, ◌==◌, if◌then◌else◌,
}
use termob_kernel.Base.Words.{add32, sub32}
use termob_kernel.Block.{Block, write_at}
use termob_kernel.Fat.{Status, cluster_is_valid, cluster_first_lba, read_sector}
use termob_kernel.Fat.Cursor.{File, cluster_size_bytes, advance_cluster}

-- The file, the caller's buffer and the number of bytes in it.
pub record Transfer : Type 0 where
  pub file : File
  pub buffer : ℕ → ℕ
  pub copied : ℕ

unfoldable pub min_size : ℕ → ℕ → ℕ
min_size a b = if ltb a b then a else b

-- How one round of the loop ends: the call returns, or the loop goes on.
pub data Round : Type 0 where
  returns : Status → Transfer → Round
  goes_on : Transfer → Round

abbrev pub file_byte_offset : File → ℕ
file_byte_offset f = sub32 f.position f.current_cluster_file_offset

-- The bytes of a round, behind the read of the sector.
unfoldable pub copy_part : Transfer → (total : ℕ) → (sector : ℕ → ℕ) → Transfer
copy_part t total sector =
    let start = file_byte_offset t.file % t.file.fs.bytes_per_sector in
    let bytes = min_size (t.file.fs.bytes_per_sector - start) (total - t.copied) in
    record {
      file = record t.file { position = add32 t.file.position bytes };
      buffer = write_at t.buffer t.copied bytes (λ i. sector (start + i));
      copied = t.copied + bytes;
    }

-- The end of a round: the end of the file, or the next cluster where the current one is read.
unfoldable pub next_part : Block → Transfer → Round
next_part blocks t =
    let after = advance_cluster blocks t.file in
    if leb t.file.dirent.size_bytes t.file.position
    then Round.returns Status.ok t
    else if leb (cluster_size_bytes t.file) (file_byte_offset t.file)
    then elim after.0 [
      | Status.ok ↦ Round.goes_on (record t { file = after.1 })
      | _ ↦ Round.returns after.0 (record t { file = after.1 })
    ]
    else Round.goes_on t

unfoldable pub read_round : Block → Transfer → (total : ℕ) → Round
read_round blocks t total =
    let f = t.file in
    let offset = file_byte_offset f in
    if (f.current_cluster == 0) || not (cluster_is_valid f.fs f.current_cluster)
    then Round.returns Status.corrupt t
    else if leb (cluster_size_bytes f) offset
    then Round.returns Status.corrupt t
    else elim (read_sector blocks f.fs
        (add32 (cluster_first_lba f.fs f.current_cluster) (offset / f.fs.bytes_per_sector))) [
          | none ↦ Round.returns Status.io_error t
          | some sector ↦ next_part blocks (copy_part t total sector)
        ]

-- Out of fuel it is none.
unfoldable pub copy_loop : Block → (fuel : ℕ) → (total : ℕ) → Transfer → Option (Status × Transfer)
copy_loop blocks zero total t = if ltb t.copied total then none else some (Status.ok, t)
copy_loop blocks (suc fuel) total t =
    if ltb t.copied total
    then elim (read_round blocks t total) [
      | returns status t' ↦ some (status, t')
      | goes_on t' ↦ copy_loop blocks fuel total t'
    ]
    else some (Status.ok, t)

unfoldable pub read_file :
    Block → File → (buffer : ℕ → ℕ) → (buffer_size : ℕ) → Option (Status × Transfer)
read_file blocks f buffer buffer_size =
    let start : Transfer = record { file = f; buffer = buffer; copied = 0 } in
    let total = min_size buffer_size (f.dirent.size_bytes - f.position) in
    if (buffer_size == 0) || leb f.dirent.size_bytes f.position
    then some (Status.ok, start)
    else if ltb 4096 f.fs.bytes_per_sector
    then some (Status.corrupt, start)
    else copy_loop blocks total total start
