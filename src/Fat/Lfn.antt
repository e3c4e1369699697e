-- ===== src/Fat/Lfn.antt =====
-- Long names: `fat_lfn_state_t` and how its entries are collected. An entry is its 32 bytes.
use termob_kernel.Base.{
  ℕ, ◌+◌, ◌-◌, ◌*◌, ◌^◌, ◌≤◌, ◌≡◌, refl, Bool, true, false, not, ◌&&◌, ◌||◌, inl, inr, arith,
  bit_and, bit_or, ltb, leb, ◌==◌, Bool-cases, if◌then◌else◌,
}
use termob_kernel.Base.Arrays.{set, for_range, for_range_inv}
use termob_kernel.Fat.{read_le16}

-- TERMOB_FAT_NAME_MAX, FAT_ATTR_LFN
abbrev pub name_max : ℕ
name_max = 255

abbrev pub attr_lfn : ℕ
attr_lfn = 0x0f

pub record LfnState : Type 0 where
  pub active : Bool
  pub total_slots : ℕ
  pub checksum : ℕ
  pub seen_mask : ℕ
  pub name : ℕ → ℕ

abbrev pub lfn_reset : LfnState
lfn_reset = record { active = false; total_slots = 0; checksum = 0; seen_mask = 0; name = λ i. 0 }

unfoldable pub lfn_ascii_char : ℕ → ℕ
lfn_ascii_char code_unit = if leb code_unit 0x7e then code_unit else 63

unfoldable pub store_name_part : LfnState → (slot_index char_index code_unit : ℕ) → LfnState
store_name_part s slot_index char_index code_unit =
    let target_index = (slot_index - 1) * 13 + char_index in
    if slot_index == 0
    then s
    else if leb name_max target_index
    then s
    else if code_unit == 0
    then record s { name = set s.name target_index 0 }
    else if code_unit == 0xffff
    then s
    else record s { name = set s.name target_index (lfn_ascii_char code_unit) }

-- for (i = 0; i < count; i++) the name's characters from `first` on, which stand at `offset`
unfoldable pub store_parts : (raw : ℕ → ℕ) → (slot offset first count : ℕ) → LfnState → LfnState
store_parts raw slot offset first count s =
    for_range count 0 (λ i s. store_name_part s slot (first + i) (read_le16 raw (offset + 2 * i))) s

-- Whether the entry starts a long name or goes on with the one at hand.
unfoldable pub continues : LfnState → (raw : ℕ → ℕ) → (order : ℕ) → Bool
continues s raw order = not (
    not s.active
    || ((s.total_slots == 0) || (ltb s.total_slots order || not (raw 13 == s.checksum))))

unfoldable pub store_entry : (raw : ℕ → ℕ) → (order : ℕ) → LfnState → LfnState
store_entry raw order s = store_parts raw order 28 11 2 (
    store_parts raw order 14 5 6
      (store_parts raw order 1 0 5 (record s { seen_mask = bit_or s.seen_mask (2 ^ (order - 1)) })))

unfoldable pub is_complete : LfnState → Bool
is_complete s =
    let expected = if leb 32 s.total_slots then 2 ^ 32 - 1 else 2 ^ s.total_slots - 1 in
    s.active && (bit_and s.seen_mask expected == expected)

unfoldable pub lfn_collect : LfnState → (raw : ℕ → ℕ) → Bool × LfnState
lfn_collect s raw =
    let order = bit_and (raw 0) 0x1f in
    if not (raw 11 == attr_lfn) || (not (raw 12 == 0) || not (read_le16 raw 26 == 0))
    then (false, lfn_reset)
    else if (order == 0) || ltb 20 order
    then (false, lfn_reset)
    else if not (bit_and (raw 0) 0x40 == 0)
    then (let s' =
          store_entry raw order
            (record lfn_reset { active = true; total_slots = order; checksum = raw 13 }) in
        (is_complete s', s'))
    else if continues s raw order
    then (let s' = store_entry raw order s in (is_complete s', s'))
    else (false, lfn_reset)

-- The name is terminated inside its buffer of 256 characters, has only seven-bit characters, and comes
-- from at most 20 entries.
pub record IsValid (s : LfnState) : Type 0 where
  pub terminated : (i : ℕ) → name_max ≤ i → s.name i ≡ 0
  pub ascii : (i : ℕ) → s.name i ≤ 0x7e
  pub slots : s.total_slots ≤ 20

store_name_part-IsValid :
    (s : LfnState) (slot char unit_ : ℕ) → IsValid s → IsValid (store_name_part s slot char unit_)
unfolding store_name_part lfn_ascii_char
store_name_part-IsValid s slot char unit_ h = record {
  terminated = λ i low. ground (arith, h.terminated i);
  ascii = λ i. ground (arith, h.ascii i);
  slots = ground (arith, h.slots);
}

store_parts-IsValid :
    (raw : ℕ → ℕ) (slot offset first count : ℕ) (s : LfnState)
    → IsValid s
    → IsValid (store_parts raw slot offset first count s)
unfolding store_parts
store_parts-IsValid raw slot offset first count s h =
    for_range_inv (λ i. IsValid) _ count
      (λ i s lt h. store_name_part-IsValid s slot (first + i) (read_le16 raw (offset + 2 * i)) h)
      count 0 s (omega arith) h

store_entry-IsValid :
    (raw : ℕ → ℕ) (order : ℕ) (s : LfnState) → IsValid s → IsValid (store_entry raw order s)
unfolding store_entry
store_entry-IsValid raw order s h = store_parts-IsValid raw order 28 11 2 _ (
    store_parts-IsValid raw order 14 5 6 _ (
      store_parts-IsValid raw order 1 0 5 _
        (record { terminated = h.terminated; ascii = h.ascii; slots = h.slots })))

pub lfn_reset-IsValid : IsValid lfn_reset
lfn_reset-IsValid = record {
  terminated = λ i low. refl;
  ascii = λ i. omega arith;
  slots = omega arith;
}

-- Whatever the bytes of an entry are, `fat_lfn_collect` keeps the name terminated inside its buffer,
-- of seven-bit characters, and from at most 20 entries.
pub lfn_collect-IsValid : (s : LfnState) (raw : ℕ → ℕ) → IsValid s → IsValid (lfn_collect s raw).1
unfolding lfn_collect
lfn_collect-IsValid s raw h =
    let order : ℕ = bit_and (raw 0) 0x1f in
    elim (Bool-cases
      (not (raw 11 == attr_lfn) || (not (raw 12 == 0) || not (read_le16 raw 26 == 0)))) [
        | inl other ↦ rw other lfn_reset-IsValid
        | inr part ↦ elim (Bool-cases ((order == 0) || ltb 20 order)) [
          | inl bad ↦ rw (part, bad) lfn_reset-IsValid
          | inr good ↦ elim (Bool-cases (not (bit_and (raw 0) 0x40 == 0))) [
            | inl last ↦
                rw (part, good, last)
                  (store_entry-IsValid raw order _ (record {
                    terminated = λ i low. refl;
                    ascii = λ i. omega arith;
                    slots = ground arith;
                  }))
            | inr middle ↦ elim (Bool-cases (continues s raw order)) [
              | inl next ↦ rw (part, good, middle, next) (store_entry-IsValid raw order s h)
              | inr lost ↦ rw (part, good, middle, lost) lfn_reset-IsValid
            ]
          ]
        ]
      ]
