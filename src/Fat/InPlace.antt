-- ===== src/Fat/InPlace.antt =====
-- A cursor of `fat_read_file` in a cluster of its file, and the parts of a round that move it.
use mathlib.Core.Path.{subst}
use native.Mathlib.Nat.{mod-lt}
use termob_kernel.Base.{
  ℕ, suc, ◌+◌, ◌-◌, ◌*◌, ◌/◌, ◌%◌, ◌^◌, ◌≤◌, ◌<◌, ◌≡◌, sym, ap, ◌∙◌, true, false, ◌&&◌, inl, inr,
  arith, Option, none, some, ltb, leb, Bool-cases,
}
use termob_kernel.Base.Words.{add32, mul32}
use termob_kernel.Block.{Block}
use termob_kernel.Fat.{Fs, Status, cluster_first_lba, read_sector}
use termob_kernel.Fat.Table.{read_fat_entry}
use termob_kernel.Fat.Cursor.{File, cluster_size_bytes, step_to, advance_cluster}
use termob_kernel.Fat.Walk.{follow-ok, advance_cluster-ok}
use termob_kernel.Fat.Read.{Transfer, min_size, file_byte_offset, copy_part}
use termob_kernel.Fat.Content.{cluster_at, sector_byte, file_byte, place_in_sector}

next_number : (n : ℕ) → suc n ≡ n + 1
next_number n = omega arith

module _ (blocks : Block) (fs : Fs) (first length start : ℕ) (some_bytes : 0 < fs.bytes_per_sector)
    (fits : fs.sectors_per_cluster * fs.bytes_per_sector < 2 ^ 32) (word : length < 2 ^ 32) where
  abbrev pub size : ℕ
  size = fs.sectors_per_cluster * fs.bytes_per_sector

  -- The cursor stands in cluster number `n` of the file, or at its end.
  pub record InPlace (f : File) (n : ℕ) : Type 0 where
    pub same_fs : f.fs ≡ fs
    pub same_length : f.dirent.size_bytes ≡ length
    pub current : f.current_cluster ≡ cluster_at blocks fs first n
    pub offset : f.current_cluster_file_offset ≡ n * size
    pub low : n * size ≤ f.position
    pub high : f.position < 2 ^ 32

  -- What has been copied is the file from `start` on.
  abbrev pub Exact : Transfer → Type 0
  Exact t = (i : ℕ) → i < t.copied → t.buffer i ≡ file_byte blocks fs first size (start + i)

  pub record IsExact (t : Transfer) (total : ℕ) : Type 0 where
    pub exact : Exact t
    pub bounded : t.copied ≤ total
    pub at : t.file.position ≡ start + t.copied
    pub number : ℕ
    pub place : InPlace t.file number

  pub InPlace-size : (f : File) (n : ℕ) → InPlace f n → cluster_size_bytes f ≡ size
  InPlace-size f n p =
      ap (λ s. mul32 s.bytes_per_sector s.sectors_per_cluster) p.same_fs ∙ omega arith

  pub InPlace-offset : (f : File) (n : ℕ) → InPlace f n → n * size + file_byte_offset f ≡ f.position
  InPlace-offset f n p = omega (arith, p.offset, p.low, p.high)

  byte_there :
      (n r k : ℕ) (sector : ℕ → ℕ)
      → r < size
      → r % fs.bytes_per_sector + k < fs.bytes_per_sector
      → read_sector blocks fs
          (add32 (cluster_first_lba fs (cluster_at blocks fs first n)) (r / fs.bytes_per_sector))
        ≡ some sector
      → file_byte blocks fs first size (n * size + (r + k)) ≡ sector (r % fs.bytes_per_sector + k)
  byte_there n r k sector inside within read =
      let (a, b, c, d) =
        place_in_sector n fs.sectors_per_cluster fs.bytes_per_sector r k some_bytes inside within in
      let lba : ℕ → ℕ → ℕ = λ x y. add32 (cluster_first_lba fs (cluster_at blocks fs first x)) y in
      let where_ : lba ((n * size + (r + k)) / size)
            ((n * size + (r + k)) % size / fs.bytes_per_sector)
          ≡ lba n (r / fs.bytes_per_sector) =
        ap (λ x. lba x ((n * size + (r + k)) % size / fs.bytes_per_sector)) a
        ∙ ap (lba n) (ap (λ x. x / fs.bytes_per_sector) b ∙ c) in
      ap
        (λ x.
          sector_byte (read_sector blocks fs x) ((n * size + (r + k)) % size % fs.bytes_per_sector))
        where_
      ∙ (ap (λ o. sector_byte o ((n * size + (r + k)) % size % fs.bytes_per_sector)) read
          ∙ ap sector (ap (λ x. x % fs.bytes_per_sector) b ∙ d))

  pub copy_part-Exact :
      (t : Transfer) (total : ℕ) (sector : ℕ → ℕ)
      → (e : IsExact t total) → t.copied < total
      → start + total ≤ length
      → file_byte_offset t.file < size
      → read_sector blocks fs (
          add32
            (cluster_first_lba fs (cluster_at blocks fs first e.number))
            (file_byte_offset t.file / fs.bytes_per_sector))
        ≡ some sector
      → IsExact (copy_part t total sector) total × (t.copied < (copy_part t total sector).copied)
  unfolding copy_part min_size
  copy_part-Exact t total sector e more room inside read =
      let r : ℕ = file_byte_offset t.file in
      let bps : t.file.fs.bytes_per_sector ≡ fs.bytes_per_sector =
        ap (λ s. s.bytes_per_sector) e.place.same_fs in
      let low = mod-lt r some_bytes in
      let place = InPlace-offset t.file e.number e.place in
      let same : r % t.file.fs.bytes_per_sector ≡ r % fs.bytes_per_sector = ap (λ b. r % b) bps in
      let bytes : ℕ =
        min_size (t.file.fs.bytes_per_sector - r % t.file.fs.bytes_per_sector) (total - t.copied) in
      let bytes_low : 0 < bytes = ground arith in
      let bytes_room : bytes ≤ total - t.copied = ground arith in
      let bytes_sector : r % fs.bytes_per_sector + bytes ≤ fs.bytes_per_sector = ground arith in
      let new_byte : (i : ℕ)
          → t.copied ≤ i
          → i < t.copied + bytes
          → sector (r % t.file.fs.bytes_per_sector + (i - t.copied))
            ≡ file_byte blocks fs first size (start + i) =
        λ i late lt.
          let k : ℕ = i - t.copied in
          let spot : start + i ≡ e.number * size + (r + k) = omega (arith, e.at, place) in
          ap (λ x. sector (x + k)) same
          ∙ sym (
              ap (file_byte blocks fs first size) spot
              ∙ byte_there e.number r k sector inside (omega arith) read) in
      let moved : add32 t.file.position bytes ≡ t.file.position + bytes = omega (arith, e.at) in
      (
        record {
          exact = λ i lt. elim (Bool-cases (leb t.copied i)) [
            | inl late ↦
                let here : (leb t.copied i && ltb i (t.copied + bytes)) ≡ true = ground arith in
                rw here (new_byte i (ground arith) lt)
            | inr early ↦
                let there : (leb t.copied i && ltb i (t.copied + bytes)) ≡ false = ground arith in
                rw there (e.exact i (ground arith))
          ];
          bounded = omega arith;
          at = moved ∙ omega (arith, e.at);
          number = e.number;
          place = record {
            same_fs = e.place.same_fs;
            same_length = e.place.same_length;
            current = e.place.current;
            offset = e.place.offset;
            low = omega (arith, moved, e.place.low);
            high = omega (arith, moved, e.at);
          };
        },
        omega arith,
      )

  -- The cursor in the next cluster.
  pub advance_cluster-InPlace :
      (f : File) (n : ℕ)
      → InPlace f n
      → size ≤ file_byte_offset f
      → (advance_cluster blocks f).0 ≡ Status.ok
      → InPlace (advance_cluster blocks f).1 (n + 1)
        × ((advance_cluster blocks f).1.position ≡ f.position)
  unfolding cluster_at step_to
  advance_cluster-InPlace f n p at_end done =
      let (next, read, follows, one, _) = advance_cluster-ok blocks f done in
      let step = one ∙ (follow-ok f next follows).0 in
      let read' : read_fat_entry blocks fs (cluster_at blocks fs first n) ≡ some next =
        ap (λ c. read_fat_entry blocks fs c) (sym p.current)
        ∙ (ap (λ s. read_fat_entry blocks s f.current_cluster) (sym p.same_fs) ∙ read) in
      let entry : Option ℕ → ℕ = λ o. elim o [ none ↦ 0 | some c ↦ c ] in
      let after : InPlace (step_to f next) (n + 1) = record {
        same_fs = p.same_fs;
        same_length = p.same_length;
        current = sym (ap entry read') ∙ ap (cluster_at blocks fs first) (next_number n);
        offset = omega (arith, InPlace-size f n p, InPlace-offset f n p, p.offset, p.high);
        low = omega (arith, InPlace-offset f n p);
        high = p.high;
      } in
      (subst (λ g. InPlace g (n + 1)) (sym step) after, ap (λ g. g.position) step)
