-- ===== src/Fat/Content.antt =====
-- The bytes that the clusters of a file hold.
use native.Mathlib.Nat.{
  mul-add-div_right, mul-add-mod_self_right, div-add-mod', div-eq_of_lt, mod-eq_of_lt,
  mul-le-mul_right,
}
use termob_kernel.Base.{
  ℕ, zero, suc, ◌+◌, ◌*◌, ◌/◌, ◌%◌, ◌≤◌, ◌<◌, ◌≡◌, ap, ◌∙◌, inl, inr, arith, Option, none, some,
  ltb, Bool-cases, ltb→lt,
}
use termob_kernel.Base.Words.{add32}
use termob_kernel.Block.{Block}
use termob_kernel.Fat.{Fs, cluster_first_lba, read_sector}
use termob_kernel.Fat.Table.{read_fat_entry}

-- The cluster number `n` of a file from its first one on; 0 where the table cannot be read.
unfoldable pub cluster_at : Block → Fs → (first n : ℕ) → ℕ
cluster_at blocks fs first zero = first
cluster_at blocks fs first (suc n) =
    elim (read_fat_entry blocks fs (cluster_at blocks fs first n)) [ none ↦ 0 | some next ↦ next ]

abbrev pub sector_byte : Option (ℕ → ℕ) → ℕ → ℕ
sector_byte none j = 0
sector_byte (some sector) j = sector j

-- The byte number `k` of the file, where a cluster has `size` bytes.
abbrev pub file_byte : Block → Fs → (first size k : ℕ) → ℕ
file_byte blocks fs first size k =
    sector_byte
      (read_sector blocks fs (
        add32 (cluster_first_lba fs (cluster_at blocks fs first (k / size)))
          (k % size / fs.bytes_per_sector)))
      (k % size % fs.bytes_per_sector)

-- Where a byte of a sector lies in the file.
pub place_in_sector :
    (n m bps r i : ℕ)
    → 0 < bps
    → r < m * bps
    → r % bps + i < bps
    → ((n * (m * bps) + (r + i)) / (m * bps) ≡ n)
      × ((n * (m * bps) + (r + i)) % (m * bps) ≡ r + i)
      × ((r + i) / bps ≡ r / bps)
      × ((r + i) % bps ≡ r % bps + i)
place_in_sector n m bps r i some_bytes inside within =
    let whole = div-add-mod' r bps in
    let early : r / bps < m = elim (Bool-cases (ltb (r / bps) m)) [
      | inl lt ↦ ltb→lt _ _ lt
      | inr ge ↦
          let le : m ≤ r / bps = ground arith in
          absurd (omega (arith, mul-le-mul_right bps le, whole))
    ] in
    let next : (r / bps + 1) * bps ≤ m * bps = mul-le-mul_right bps (omega arith) in
    let last : r + i < m * bps = omega (arith, next, whole) in
    let split : r + i ≡ r / bps * bps + (r % bps + i) = omega (arith, whole) in
    let some_size : 0 < m * bps = omega arith in
    (
      mul-add-div_right some_size n (r + i) ∙ (ap (λ x. n + x) (div-eq_of_lt last) ∙ omega arith),
      mul-add-mod_self_right n (m * bps) (r + i) ∙ mod-eq_of_lt last,
      ap (λ x. x / bps) split
          ∙ (mul-add-div_right some_bytes (r / bps) (r % bps + i)
              ∙ (ap (λ x. r / bps + x) (div-eq_of_lt within) ∙ omega arith)),
      ap (λ x. x % bps) split
          ∙ (mul-add-mod_self_right (r / bps) bps (r % bps + i) ∙ mod-eq_of_lt within),
    )
