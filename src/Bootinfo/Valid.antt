-- ===== src/Bootinfo/Valid.antt =====
-- The invariant of the memory map, and that every store and every parse keeps it.
use termob_kernel.Base.{
  ℕ, zero, suc, ◌+◌, ◌-◌, ◌%◌, ◌^◌, ◌≤◌, ◌<◌, ◌≡◌, ◌⊎◌, refl, false, inl, inr, arith, leb, ltb,
  ◌==◌, ◌&&◌, ◌||◌, Bool-cases, if◌then◌else◌,
}
use Prim.Native.Nat.{min}
use termob_kernel.Base.Arrays.{set}
use termob_kernel.Base.Words.{u32_max}
use termob_kernel.Bootinfo.{
  MmapEntry, MemoryRange, Bootinfo, memory_type_available, max_memory_ranges, capped_end,
  capped_length, count_available, append_range, store_memory_range,
}

-- The bytes in the available ones among the first `n` ranges.
unfoldable pub available_bytes : (ℕ → MemoryRange) → ℕ → ℕ
available_bytes ranges zero = 0
available_bytes ranges (suc n) =
    available_bytes ranges n
    + (if (ranges n).type == memory_type_available then (ranges n).length else 0)

-- The highest usable address is the last byte of an available range, or 0.
abbrev pub IsAttained : Bootinfo → Type 0
IsAttained s =
    (s.highest_usable ≡ 0)
    ⊎ ((i : ℕ) × (i < s.range_count)
        × ((s.ranges i).type ≡ memory_type_available)
        × ((s.ranges i).base_addr + (s.ranges i).length ≡ s.highest_usable + 1))

-- At most 64 ranges, none empty, all below 4 GiB; the highest usable address is the last byte of the
-- available ones, and the usable bytes are their sum, held below 4 GiB.
pub record IsValid (s : Bootinfo) : Type 0 where
  pub bounded : s.range_count ≤ max_memory_ranges
  pub in_4g : (i : ℕ) → i < s.range_count → (s.ranges i).base_addr + (s.ranges i).length ≤ 2 ^ 32
  pub nonempty : (i : ℕ) → i < s.range_count → 0 < (s.ranges i).length
  pub covered :
      (i : ℕ)
      → i < s.range_count
      → (s.ranges i).type ≡ memory_type_available
      → (s.ranges i).base_addr + (s.ranges i).length ≤ s.highest_usable + 1
  pub attained : IsAttained s
  pub word : s.highest_usable < 2 ^ 32
  pub usable : s.usable_bytes ≡ min u32_max (available_bytes s.ranges s.range_count)

-- The fields of an entry are 64-bit words.
pub record IsEntry (e : MmapEntry) : Type 0 where
  pub addr_word : e.addr < 2 ^ 64
  pub len_word : e.len < 2 ^ 64

available_bytes-set :
    (ranges : ℕ → MemoryRange) (n k : ℕ) (r : MemoryRange)
    → n ≤ k
    → available_bytes (set ranges k r) n ≡ available_bytes ranges n
unfolding available_bytes
available_bytes-set ranges zero k r h = refl
available_bytes-set ranges (suc n) k r h =
    let ne : (n == k) ≡ false = ground arith in
    rw (ne, available_bytes-set ranges n k r (omega arith))

-- What the capped end and length of an entry below 4 GiB are.
capped_lem :
    (e : MmapEntry)
    → IsEntry e
    → e.addr < 2 ^ 32
    → 0 < e.len
    → (capped_end e ≡ min (2 ^ 32) (e.addr + e.len))
      × (capped_length e ≡ (capped_end e - e.addr) % 2 ^ 32)
      × (e.addr < capped_end e)
unfolding capped_end capped_length
capped_lem e v below pos = ground arith

module _ {s : Bootinfo} (v : IsValid s) (e : MmapEntry) where
  abbrev stored : MemoryRange
  stored = record { base_addr = e.addr % 2 ^ 32; length = capped_length e; type = e.type }

  store_step-IsAttained :
      s.range_count < max_memory_ranges
      → e.addr < 2 ^ 32
      → capped_end e ≤ 2 ^ 32
      → e.addr < capped_end e
      → capped_length e ≡ (capped_end e - e.addr) % 2 ^ 32
      → 0 < capped_length e
      → IsAttained (count_available (append_range s stored) e (capped_length e))
  unfolding count_available append_range
  store_step-IsAttained room below cap above len pos =
      elim (Bool-cases
        ((e.type == memory_type_available) && ltb s.highest_usable ((capped_end e - 1) % 2 ^ 32))) [
          | inl new ↦ inr (s.range_count, ground arith, ground arith, ground arith)
          | inr old ↦ elim v.attained [
            | inl low ↦ inl (ground arith)
            | inr (i, inside, available, at) ↦ inr (i, ground arith, ground arith, ground arith)
          ]
        ]

  store_step-IsValid :
      s.range_count < max_memory_ranges
      → e.addr < 2 ^ 32
      → capped_end e ≤ 2 ^ 32
      → e.addr < capped_end e
      → capped_length e ≡ (capped_end e - e.addr) % 2 ^ 32
      → 0 < capped_length e
      → IsValid (count_available (append_range s stored) e (capped_length e))
  unfolding count_available append_range available_bytes
  store_step-IsValid room below cap above len pos = record {
    bounded = ground arith;
    in_4g = λ i h. ground (arith, v.in_4g i);
    nonempty = λ i h. ground (arith, v.nonempty i);
    covered = λ i h t. ground (arith, v.covered i);
    attained = store_step-IsAttained room below cap above len pos;
    word = ground (arith, v.word);
    usable =
        ground (arith, v.usable, available_bytes-set s.ranges s.range_count s.range_count stored);
  }

-- Whatever the entry says, `bootinfo_store_memory_range` keeps the map valid.
pub store_memory_range-IsValid :
    {s : Bootinfo} (e : MmapEntry) → IsValid s → IsEntry e → IsValid (store_memory_range s e)
unfolding store_memory_range
store_memory_range-IsValid {s} e v w = elim (Bool-cases (leb max_memory_ranges s.range_count)) [
  | inl full ↦ rw full v
  | inr room ↦ rw room (elim (Bool-cases ((e.len == 0) || leb (2 ^ 32) e.addr)) [
    | inl bad ↦ rw bad v
    | inr good ↦ rw good (elim (Bool-cases (capped_length e == 0)) [
      | inl empty ↦ rw empty v
      | inr some_bytes ↦
          let below : e.addr < 2 ^ 32 = ground arith in
          let (cap, len, above) = capped_lem e w below (ground arith) in
          rw some_bytes (
            store_step-IsValid v e (ground arith) below (omega (arith, cap)) above len
              (ground arith))
    ])
  ])
]

-- A range that starts at address 0 and spans all 4 GiB or more is dropped: its length, cast to 32
-- bits, is 0.
pub store_memory_range-whole :
    (s : Bootinfo) (e : MmapEntry)
    → e.addr ≡ 0
    → 2 ^ 32 ≤ e.len
    → e.len < 2 ^ 64
    → store_memory_range s e ≡ s
unfolding store_memory_range capped_length capped_end
store_memory_range-whole s e zero_addr long word = ground arith
