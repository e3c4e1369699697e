-- ===== src/Pmm/Boot.antt =====
-- `pmm_init`: which frames are free when the allocator starts.
use termob_kernel.Base.{
  ℕ, ◌+◌, ◌-◌, ◌*◌, ◌/◌, ◌^◌, ◌⊎◌, ◌≤◌, ◌<◌, ◌≡◌, ◌≢◌, refl, sym, ◌∙◌, Bool, true, false, not, ◌&&◌,
  ◌||◌, inl, inr, arith, ltb, ◌==◌, Bool-cases,
}
use mathlib.Core.Path.{subst₂, ap, ap₂}
use termob_kernel.Base.Words.{add32, sub32}
use termob_kernel.Base.Bits.{align_up, align_up_page}
use termob_kernel.Bootinfo.{Bootinfo, max_memory_ranges}
use termob_kernel.Pmm.{Pmm, frame_size, frame_is_used}
use termob_kernel.Pmm.Frames.{IsValid}
use termob_kernel.Pmm.Region.{
  reserve_region, release_ranges, Surroundings, kernel_load_address, off, frames_below, all_used,
  reserve_fixed, init, bitmap_bytes, bitmap_at,
}
use termob_kernel.Pmm.Regions.{Alike, meets_frame, reserve_region_lem}
use termob_kernel.Pmm.Release.{
  any_holds, frames_below-le, fresh_used, fresh-IsValid, IsUsual, ReleasedTo, release_ranges_lem,
}

-- The regions that `pmm_init` reserves: low memory, the kernel image, the heap, the boot loader's
-- structure and the bitmap itself.
abbrev pub meets_reserved : Surroundings → Bootinfo → (size address j : ℕ) → Bool
meets_reserved around boot size address j =
    meets_frame address size j
    || (meets_frame boot.info_address boot.info_size j
        || (meets_frame around.heap_start (sub32 around.heap_end around.heap_start) j
            || (meets_frame kernel_load_address
                  (sub32 (align_up around.kernel_end frame_size) kernel_load_address) j
                || meets_frame 0 kernel_load_address j)))

-- The reserved regions are words that end at or below the last page.
pub record IsBelow (around : Surroundings) (boot : Bootinfo) (size address : ℕ) : Type 0 where
  pub heap_word : around.heap_start < 2 ^ 32
  pub info_word : boot.info_address < 2 ^ 32
  pub bitmap_word : address < 2 ^ 32
  pub heap : around.heap_start + sub32 around.heap_end around.heap_start ≤ 2 ^ 32 - frame_size
  pub kernel :
      kernel_load_address + sub32 (align_up around.kernel_end frame_size) kernel_load_address
      ≤ 2 ^ 32 - frame_size
  pub info : boot.info_address + boot.info_size ≤ 2 ^ 32 - frame_size
  pub bitmap : address + size ≤ 2 ^ 32 - frame_size

-- `t` is `s` with the frames of `m` in use as well.
abbrev Adds : Pmm → (ℕ → Bool) → Pmm → Type 0
Adds s m t =
    Alike s t × ((j : ℕ) → j < s.total_frames → frame_is_used t j ≡ (m j || frame_is_used s j))

reserve_step :
    (s : Pmm) (m : ℕ → Bool) {t : Pmm} (base length : ℕ)
    → base < 2 ^ 32
    → base + length ≤ 2 ^ 32 - frame_size
    → Adds s m t
    → Adds s (λ j. meets_frame base length j || m j) (reserve_region t base length)
reserve_step s m {t} base length word below (alike, same) =
    let (alike', same') = reserve_region_lem base length alike.valid word below in
    (
      record {
        valid = alike'.valid;
        total = alike'.total ∙ alike.total;
        ready = alike'.ready ∙ alike.ready;
        address = alike'.address ∙ alike.address;
        size = alike'.size ∙ alike.size;
      },
      λ j h.
          let here = same' j (omega (arith, alike.total)) in
          elim (Bool-cases (meets_frame base length j)) [
            | inl meets ↦ rw meets (here ∙ rw meets)
            | inr apart ↦ rw apart (here ∙ rw apart (same j h))
          ],
    )

reserve_fixed_lem :
    (around : Surroundings) (boot : Bootinfo) {s : Pmm}
    → IsValid s
    → IsBelow around boot s.bitmap_size_bytes s.bitmap_address
    → Adds s
        (meets_reserved around boot s.bitmap_size_bytes s.bitmap_address)
        (reserve_fixed around boot s)
unfolding reserve_fixed
reserve_fixed_lem around boot {s} v b =
    reserve_step s _ s.bitmap_address s.bitmap_size_bytes b.bitmap_word b.bitmap (
      reserve_step s _ boot.info_address boot.info_size b.info_word b.info (
        reserve_step s _ around.heap_start (sub32 around.heap_end around.heap_start) b.heap_word
          b.heap
          (reserve_step s _ kernel_load_address
            (sub32 (align_up around.kernel_end frame_size) kernel_load_address) (omega arith)
            b.kernel (reserve_region_lem 0 kernel_load_address v (omega arith) (omega arith)))))

and_true : (b : Bool) → (b && true) ≡ b
and_true true = refl
and_true false = refl

ready-IsValid : {t : Pmm} → IsValid t → IsValid (record t { ready = true })
unfolding frame_is_used
ready-IsValid v = record {
  bytes = v.bytes;
  counted = v.counted;
  total = v.total;
  cursor = v.cursor;
}

used_ready : (t : Pmm) (j : ℕ) → frame_is_used (record t { ready = true }) j ≡ frame_is_used t j
unfolding frame_is_used
used_ready t j = refl

module _ (around : Surroundings) {boot : Bootinfo} (old : Pmm) (on : boot.ready ≡ true)
    (few : boot.range_count ≤ max_memory_ranges) (usual : IsUsual boot)
    (below : IsBelow around boot (bitmap_bytes boot) (bitmap_at around boot)) where
  abbrev frames : ℕ
  frames = frames_below boot.highest_usable

  abbrev filled : Pmm
  filled = all_used (off old) frames (bitmap_bytes boot) (bitmap_at around boot)

  abbrev released : Pmm
  released = release_ranges (max_memory_ranges + 1) boot 0 filled

  few_frames : frames ≤ 2 ^ 20
  few_frames = frames_below-le boot.highest_usable

  room : frames ≤ bitmap_bytes boot * 8
  room = omega (arith, few_frames)

  filled_fields :
      (filled.total_frames ≡ frames)
      × (filled.bitmap_size_bytes ≡ bitmap_bytes boot)
      × (filled.bitmap_address ≡ bitmap_at around boot)
  unfolding all_used
  filled_fields = (refl, refl, refl)

  released_lem : ReleasedTo filled on usual boot.range_count released
  unfolding any_holds
  released_lem =
      release_ranges_lem filled on usual (max_memory_ranges + 1) 0 (omega arith) (omega arith) (
        record {
          valid =
              fresh-IsValid old frames (bitmap_bytes boot) (bitmap_at around boot) few_frames room;
          total = refl;
          ready = refl;
          address = refl;
          size = refl;
        },
        λ j h. refl,
      )

  reserved_lem :
      IsValid (reserve_fixed around boot released)
      × ((reserve_fixed around boot released).total_frames ≡ frames)
      × ((j : ℕ)
          → j < frames
          → frame_is_used (reserve_fixed around boot released) j ≡ (
              meets_reserved around boot (bitmap_bytes boot) (bitmap_at around boot) j
              || not (any_holds boot.ranges boot.range_count j)))
  reserved_lem =
      let (alike, same) = released_lem in
      let (total, size, address) = filled_fields in
      let size' : released.bitmap_size_bytes ≡ bitmap_bytes boot = alike.size ∙ size in
      let address' : released.bitmap_address ≡ bitmap_at around boot = alike.address ∙ address in
      let (alike', same') =
        reserve_fixed_lem around boot alike.valid
          (subst₂ (IsBelow around boot) (sym size') (sym address') below) in
      (
        alike'.valid,
        alike'.total ∙ alike.total ∙ total,
        λ j h.
            let used =
              fresh_used old frames (bitmap_bytes boot) (bitmap_at around boot) few_frames room j
                h in
            same' j (omega (arith, alike.total, total))
            ∙ ap₂ (λ n a. meets_reserved around boot n a j || frame_is_used released j) size'
                address'
            ∙ ap
                (λ u. meets_reserved around boot (bitmap_bytes boot) (bitmap_at around boot) j || u)
                (same j (omega (arith, total))
                  ∙ ap (λ u. not (any_holds boot.ranges boot.range_count j) && u) used
                  ∙ and_true _),
      )

-- The number of frames is that of the frame with the highest usable byte, and one more. Below 4 GiB
-- the last page is left out: there the code rounds up to 0.
pub frames_below_lem :
    (highest : ℕ)
    → (highest < 2 ^ 32 - frame_size) ⊎ (highest ≡ 2 ^ 32 - 1)
    → frames_below highest ≡ highest / frame_size + 1
unfolding frames_below
frames_below_lem highest (inl low) = ground (arith, align_up_page (add32 highest 1))
frames_below_lem highest (inr top) = ground arith

-- Where the memory is said to end inside the last page, but not at 4 GiB, there are no frames at all.
pub frames_below_top :
    (highest : ℕ) → 2 ^ 32 - frame_size ≤ highest → highest < 2 ^ 32 - 1 → frames_below highest ≡ 0
unfolding frames_below
frames_below_top highest low high = ground (arith, align_up_page (add32 highest 1))

-- When `pmm_init` succeeds the allocator is valid and ready, its frames are those up to the highest
-- usable byte, and one of them is in use exactly if no available range holds it whole, with its end
-- below 4 GiB, or a reserved region meets it. The highest usable byte is that of the address space or
-- lies below the last page, available ranges start at or below the last page, and the reserved regions
-- end at or below its start.
pub init_lem :
    (around : Surroundings) {boot : Bootinfo} (old : Pmm)
    → boot.ready ≡ true
    → around.heap_is_initialized ≡ true
    → frame_size - 1 ≤ boot.highest_usable
    → bitmap_at around boot ≢ 0
    → boot.range_count ≤ max_memory_ranges
    → IsUsual boot
    → (boot.highest_usable < 2 ^ 32 - frame_size) ⊎ (boot.highest_usable ≡ 2 ^ 32 - 1)
    → IsBelow around boot (bitmap_bytes boot) (bitmap_at around boot)
    → IsValid (init around boot old)
      × ((init around boot old).ready ≡ true)
      × ((init around boot old).total_frames ≡ boot.highest_usable / frame_size + 1)
      × ((j : ℕ)
          → j < boot.highest_usable / frame_size + 1
          → frame_is_used (init around boot old) j ≡ (
              meets_reserved around boot (bitmap_bytes boot) (bitmap_at around boot) j
              || not (any_holds boot.ranges boot.range_count j)))
unfolding init
init_lem around {boot} old on heap enough got few usual highest below =
    let started : (not boot.ready || not around.heap_is_initialized) ≡ false = ground arith in
    let large : ltb boot.highest_usable (frame_size - 1) ≡ false = ground arith in
    let allocated : (bitmap_at around boot == 0) ≡ false = ground arith in
    let (valid, total, same) = reserved_lem around old on few usual below in
    let frames = frames_below_lem boot.highest_usable highest in
    rw (started, large, allocated)
      (
        ready-IsValid valid,
        refl,
        total ∙ frames,
        λ j h. used_ready _ j ∙ same j (omega (arith, frames)),
      )
