-- ===== src/Pmm/Frames.antt =====
-- The bitmap as a predicate on frames: what marking a frame does to it and to the count.
use termob_kernel.Base.{
  ℕ, zero, suc, ◌+◌, ◌-◌, ◌/◌, ◌%◌, ◌^◌, ◌≤◌, ◌<◌, ◌≡◌, sym, ap, ◌∙◌, Bool, false, not, ◌&&◌, ◌||◌,
  inl, inr, bit_and, bit_or, arith, leb, ◌==◌, Bool-cases, if◌then◌else◌,
}
use termob_kernel.Base.Arrays.{set}
use termob_kernel.Base.Bits.{bit_and_seven}
use termob_kernel.Pmm.{Pmm, bitmap_mask, frame_is_used, mark_frame_used, mark_frame_free}
use termob_kernel.Pmm.Bytes.{bit, bit-set, bit-clear, mask_fits}

-- How many of the first `n` frames are free.
unfoldable pub count_free : (ℕ → Bool) → ℕ → ℕ
count_free used zero = 0
count_free used (suc n) = count_free used n + (if used n then 0 else 1)

-- The bitmap holds bytes, the count is right, and the cursor does not pass the last frame.
pub record IsValid (s : Pmm) : Type 0 where
  pub bytes : (i : ℕ) → s.bitmap i < 256
  pub counted : s.free_frames ≡ count_free (frame_is_used s) s.total_frames
  pub total : s.total_frames ≤ 2 ^ 20
  pub cursor : s.next_search_frame ≤ s.total_frames

pub mask_lem : (frame : ℕ) → bitmap_mask frame ≡ 2 ^ (frame % 8)
unfolding bitmap_mask
mask_lem frame = rw bit_and_seven (mask_fits (frame % 8) (omega arith))

module _ (b : ℕ → ℕ) (bytes : (k : ℕ) → b k < 256) (i j : ℕ) where
  bit-set_at :
      bit (set b (i / 8) (bit_or (b (i / 8)) (2 ^ (i % 8))) (j / 8)) (j % 8)
      ≡ ((i == j) || bit (b (j / 8)) (j % 8))
  bit-set_at = elim (Bool-cases (j / 8 == i / 8)) [
    | inl same ↦
        let e : j / 8 ≡ i / 8 = ground arith in
        let tests : (i == j) ≡ (i % 8 == j % 8) = ground arith in
        rw (same, e, tests)
          (bit-set (b (i / 8)) (i % 8) (j % 8) (bytes (i / 8)) (omega arith) (omega arith))
    | inr other ↦ let ne : (i == j) ≡ false = ground arith in rw (other, ne)
  ]

  bit-clear_at :
      bit (set b (i / 8) (bit_and (b (i / 8)) (255 - 2 ^ (i % 8))) (j / 8)) (j % 8)
      ≡ (not (i == j) && bit (b (j / 8)) (j % 8))
  bit-clear_at = elim (Bool-cases (j / 8 == i / 8)) [
    | inl same ↦
        let e : j / 8 ≡ i / 8 = ground arith in
        let tests : (i == j) ≡ (i % 8 == j % 8) = ground arith in
        rw (same, e, tests)
          (bit-clear (b (i / 8)) (i % 8) (j % 8) (bytes (i / 8)) (omega arith) (omega arith))
    | inr other ↦ let ne : (i == j) ≡ false = ground arith in rw (other, ne)
  ]

pub frame_is_used_lem : (s : Pmm) (j : ℕ) → frame_is_used s j ≡ bit (s.bitmap (j / 8)) (j % 8)
unfolding frame_is_used
frame_is_used_lem s j = rw mask_lem

-- Marking a frame of the machine as used makes it used and leaves the others as they were.
pub used-mark_frame_used :
    {s : Pmm} (i j : ℕ)
    → IsValid s
    → i < s.total_frames
    → frame_is_used (mark_frame_used s i) j ≡ ((i == j) || frame_is_used s j)
unfolding mark_frame_used
used-mark_frame_used {s} i j v h =
    let inside : leb s.total_frames i ≡ false = ground arith in
    rw inside (elim (Bool-cases (frame_is_used s i)) [
      | inl old ↦ rw old (elim (Bool-cases (i == j)) [
        | inl e ↦ let same : i ≡ j = ground arith in rw e (ap (frame_is_used s) (sym same) ∙ old)
        | inr e ↦ rw e
      ])
      | inr free ↦
          rw (free, frame_is_used_lem, frame_is_used_lem, mask_lem)
            (bit-set_at s.bitmap v.bytes i j)
    ])

-- Marking a frame of the machine as free makes it free and leaves the others as they were.
pub used-mark_frame_free :
    {s : Pmm} (i j : ℕ)
    → IsValid s
    → i < s.total_frames
    → frame_is_used (mark_frame_free s i) j ≡ (not (i == j) && frame_is_used s j)
unfolding mark_frame_free
used-mark_frame_free {s} i j v h =
    let inside : leb s.total_frames i ≡ false = ground arith in
    rw inside (elim (Bool-cases (frame_is_used s i)) [
      | inl used ↦
          rw (used, frame_is_used_lem, frame_is_used_lem, mask_lem)
            (bit-clear_at s.bitmap v.bytes i j)
      | inr old ↦ rw old (elim (Bool-cases (i == j)) [
        | inl e ↦ let same : i ≡ j = ground arith in rw e (ap (frame_is_used s) (sym same) ∙ old)
        | inr e ↦ rw e
      ])
    ])
