-- ===== src/Pmm/Release.antt =====
-- The first half of `pmm_init`: a bitmap where all is in use, and the release of the available ranges.
use termob_kernel.Base.{
  ℕ, zero, suc, ◌+◌, ◌-◌, ◌*◌, ◌/◌, ◌%◌, ◌^◌, ◌≤◌, ◌<◌, ◌≡◌, refl, sym, ◌∙◌, Bool, true, false, not,
  ◌&&◌, ◌||◌, inl, inr, none, some, arith, leb, ltb, ◌==◌, Bool-cases,
}
use mathlib.Core.Path.{subst}
use termob_kernel.Base.Words.{add32}
use termob_kernel.Base.Bits.{align_up_page}
use termob_kernel.Bootinfo.{Bootinfo, MemoryRange, memory_range_at, memory_type_available}
use termob_kernel.Pmm.{Pmm, frame_size, frame_is_used}
use termob_kernel.Pmm.Bytes.{bit_all}
use termob_kernel.Pmm.Frames.{IsValid, frame_is_used_lem}
use termob_kernel.Pmm.Count.{count_free-zero}
use termob_kernel.Pmm.Region.{release_range, release_ranges, off, frames_below, all_used}
use termob_kernel.Pmm.Regions.{Alike, holds_frame, release_region_lem}

-- One of the first `n` ranges is available memory that holds the whole frame `j`.
unfoldable pub any_holds : (ℕ → MemoryRange) → (n j : ℕ) → Bool
any_holds ranges zero j = false
any_holds ranges (suc n) j =
    any_holds ranges n j
    || ((ranges n).type == memory_type_available
        && holds_frame (ranges n).base_addr (ranges n).length j)

pub frames_below-le : (highest : ℕ) → frames_below highest ≤ 2 ^ 20
unfolding frames_below
frames_below-le highest = ground (arith, align_up_page (add32 highest 1))

module _ (old : Pmm) (frames size address : ℕ) (few : frames ≤ 2 ^ 20)
    (fits : frames ≤ size * 8) where
  abbrev pub fresh : Pmm
  fresh = all_used (off old) frames size address

  pub fresh_used : (j : ℕ) → j < frames → frame_is_used fresh j ≡ true
  unfolding all_used off
  fresh_used j h =
      let inside : ltb (j / 8) size ≡ true = ground arith in
      rw (frame_is_used_lem, inside) (bit_all (j % 8) (omega arith))

  pub fresh-IsValid : IsValid fresh
  unfolding all_used off
  fresh-IsValid = record {
    bytes = λ i. ground arith;
    counted = sym (count_free-zero _ _ fresh_used);
    total = few;
    cursor = omega arith;
  }

release_range_lem :
    {t : Pmm} (r : MemoryRange)
    → IsValid t
    → (r.type ≡ memory_type_available → r.base_addr ≤ 2 ^ 32 - frame_size)
    → r.length < 2 ^ 32
    → Alike t (release_range t r)
      × ((j : ℕ)
          → j < t.total_frames
          → frame_is_used (release_range t r) j ≡ (
              not (r.type == memory_type_available && holds_frame r.base_addr r.length j)
              && frame_is_used t j))
unfolding release_range
release_range_lem {t} r v low word = elim (Bool-cases (r.type == memory_type_available)) [
  | inl available ↦
      let (alike, same) = release_region_lem r.base_addr r.length v (low (ground arith)) word in
      rw available (alike, same)
  | inr other ↦
      rw other
        (record { valid = v; total = refl; ready = refl; address = refl; size = refl }, λ j h. refl)
]

-- Each available range starts at or below the last page, and lengths are words.
pub record IsUsual (boot : Bootinfo) : Type 0 where
  pub starts :
      (i : ℕ)
      → i < boot.range_count
      → (boot.ranges i).type ≡ memory_type_available
      → (boot.ranges i).base_addr ≤ 2 ^ 32 - frame_size
  pub lengths : (i : ℕ) → i < boot.range_count → (boot.ranges i).length < 2 ^ 32

module _ {boot : Bootinfo} (s : Pmm) (on : boot.ready ≡ true) (usual : IsUsual boot) where
  -- `t` is `s` with the frames of the first `n` ranges released.
  abbrev pub ReleasedTo : ℕ → Pmm → Type 0
  ReleasedTo n t =
      Alike s t
      × ((j : ℕ)
          → j < s.total_frames
          → frame_is_used t j ≡ (not (any_holds boot.ranges n j) && frame_is_used s j))

  release_step :
      {t : Pmm} (i : ℕ)
      → i < boot.range_count
      → ReleasedTo i t
      → ReleasedTo (suc i) (release_range t (boot.ranges i))
  unfolding any_holds
  release_step i h (alike, same) =
      let (alike', same') =
        release_range_lem (boot.ranges i) alike.valid (usual.starts i h) (usual.lengths i h) in
      (
        record {
          valid = alike'.valid;
          total = alike'.total ∙ alike.total;
          ready = alike'.ready ∙ alike.ready;
          address = alike'.address ∙ alike.address;
          size = alike'.size ∙ alike.size;
        },
        λ j k. ground (arith, same j k, same' j (omega (arith, alike.total))),
      )

  pub release_ranges_lem :
      (rounds i : ℕ) {t : Pmm}
      → i ≤ boot.range_count
      → boot.range_count < i + rounds
      → ReleasedTo i t
      → ReleasedTo boot.range_count (release_ranges rounds boot i t)
  unfolding release_ranges
  release_ranges_lem zero i le enough r = absurd (omega arith)
  release_ranges_lem (suc rounds) i {t} le enough r = elim (Bool-cases (leb boot.range_count i)) [
    | inl stop ↦
        let end : i ≡ boot.range_count = ground arith in
        let gone : memory_range_at boot i ≡ none = ground arith in
        rw (gone, release_ranges) (subst (λ n. ReleasedTo n t) end r)
    | inr go_on ↦
        let there : memory_range_at boot i ≡ some (boot.ranges i) = ground arith in
        let next : i + 1 ≡ suc i = omega arith in
        rw (there, release_ranges, next)
          (release_ranges_lem rounds (suc i) (ground arith) (omega arith)
            (release_step i (ground arith) r))
  ]
