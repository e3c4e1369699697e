-- ===== src/Pmm/Regions.antt =====
-- What releasing and reserving a region does to each frame.
use termob_kernel.Base.{
  ℕ, ◌+◌, ◌-◌, ◌*◌, ◌/◌, ◌^◌, ◌≤◌, ◌<◌, ◌≡◌, refl, ◌∙◌, Bool, false, not, ◌&&◌, ◌||◌, inl, inr,
  arith, leb, ltb, ◌==◌, Bool-cases, if◌then◌else◌, ltb→lt,
}
use termob_kernel.Base.Arrays.{for_range, for_range_inv}
use termob_kernel.Base.Words.{add32}
use termob_kernel.Base.Bits.{align_up, align_up_page, align_down_page}
use termob_kernel.Pmm.{Pmm, frame_size, frame_is_used, mark_frame_used, mark_frame_free}
use termob_kernel.Pmm.Frames.{IsValid, used-mark_frame_used, used-mark_frame_free}
use termob_kernel.Pmm.Count.{
  mark_frame_used_frame, mark_frame_free_frame, mark_frame_used-IsValid, mark_frame_free-IsValid,
  mark_frame_free_same,
}
use termob_kernel.Pmm.Region.{region_end, mark_range, release_region, reserve_region}

-- `t` is a valid allocator for the same machine as `s`.
pub record Alike (s t : Pmm) : Type 0 where
  pub valid : IsValid t
  pub total : t.total_frames ≡ s.total_frames
  pub ready : t.ready ≡ s.ready
  pub address : t.bitmap_address ≡ s.bitmap_address
  pub size : t.bitmap_size_bytes ≡ s.bitmap_size_bytes

-- `[start, stop)` without a decision on the order of its ends.
abbrev pub between : ℕ → ℕ → ℕ → Bool
between start stop j = leb start j && ltb j stop

abbrev Reserved : Pmm → (start stop : ℕ) → Pmm → Type 0
Reserved s start stop t =
    Alike s t × ((j : ℕ) → frame_is_used t j ≡ (between start stop j || frame_is_used s j))

abbrev Freed : Pmm → (start stop : ℕ) → Pmm → Type 0
Freed s start stop t =
    Alike s t
    × ((j : ℕ)
        → j < s.total_frames
        → frame_is_used t j ≡ (not (between start stop j) && frame_is_used s j))

Reserved-mark :
    (s t : Pmm) (start i : ℕ)
    → start ≤ i
    → i < s.total_frames
    → Reserved s start i t
    → Reserved s start (i + 1) (mark_frame_used t i)
Reserved-mark s t start i low inside (alike, same) =
    let (total, cursor, ready, address, size) = mark_frame_used_frame t i in
    let inside' : i < t.total_frames = omega (arith, alike.total) in
    (
      record {
        valid = mark_frame_used-IsValid i alike.valid;
        total = total ∙ alike.total;
        ready = ready ∙ alike.ready;
        address = address ∙ alike.address;
        size = size ∙ alike.size;
      },
      λ j. ground (arith, same j, used-mark_frame_used i j alike.valid inside'),
    )

Freed-mark :
    (s t : Pmm) (start i : ℕ)
    → start ≤ i
    → Freed s start i t
    → Freed s start (i + 1) (mark_frame_free t i)
Freed-mark s t start i low (alike, same) =
    let (total, cursor, ready, address, size) = mark_frame_free_frame t i in
    (
      record {
        valid = mark_frame_free-IsValid i alike.valid;
        total = total ∙ alike.total;
        ready = ready ∙ alike.ready;
        address = address ∙ alike.address;
        size = size ∙ alike.size;
      },
      λ j h. elim (Bool-cases (ltb i t.total_frames)) [
        | inl inside ↦
            ground (arith, same j h, used-mark_frame_free i j alike.valid (ltb→lt _ _ inside))
        | inr outside ↦
            let untouched = mark_frame_free_same t i (ground arith) in
            rw untouched (ground (arith, same j h, alike.total))
      ],
    )

module _ (s : Pmm) (start stop : ℕ) (v : IsValid s) where
  itself : Alike s s
  itself = record { valid = v; total = refl; ready = refl; address = refl; size = refl }

  mark_range-Reserved :
      stop ≤ s.total_frames → Reserved s start stop (mark_range mark_frame_used start stop s)
  unfolding for_range
  mark_range-Reserved inside = elim (Bool-cases (leb start stop)) [
    | inl le ↦
        (for_range_inv (λ i t. (start ≤ i) × Reserved s start i t)
          (λ frame t. mark_frame_used t frame) stop
          (λ i t h (low, r). (omega arith, Reserved-mark s t start i low (omega arith) r))
          (stop - start) start s (ground arith) (omega arith, (itself, λ j. ground arith))).1
    | inr gt ↦
        let none_left : stop - start ≡ 0 = ground arith in rw none_left (itself, λ j. ground arith)
  ]

  mark_range-Freed : Freed s start stop (mark_range mark_frame_free start stop s)
  unfolding for_range
  mark_range-Freed = elim (Bool-cases (leb start stop)) [
    | inl le ↦
        (for_range_inv (λ i t. (start ≤ i) × Freed s start i t) (λ frame t. mark_frame_free t frame)
          stop (λ i t h (low, r). (omega arith, Freed-mark s t start i low r)) (stop - start) start
          s (ground arith) (omega arith, (itself, λ j h. ground arith))).1
    | inr gt ↦
        let none_left : stop - start ≡ 0 = ground arith in
        rw none_left (itself, λ j h. ground arith)
  ]

-- The bytes from `base` on, `length` of them, contain the whole frame `j`, which does not end at 4 GiB.
abbrev pub holds_frame : (base length j : ℕ) → Bool
holds_frame base length j =
    leb base (j * frame_size)
    && (leb ((j + 1) * frame_size) (base + length) && ltb ((j + 1) * frame_size) (2 ^ 32))

-- There are such bytes, and one of them lies in frame `j`.
abbrev pub meets_frame : (base length j : ℕ) → Bool
meets_frame base length j =
    not (length == 0) && (ltb base ((j + 1) * frame_size) && ltb (j * frame_size) (base + length))

-- For a region that starts at or below the last page of the address space, releasing frees exactly
-- the frames of the machine that lie wholly inside and do not end at 4 GiB.
pub release_region_lem :
    {s : Pmm} (base length : ℕ)
    → IsValid s
    → base ≤ 2 ^ 32 - frame_size
    → length < 2 ^ 32
    → Alike s (release_region s base length)
      × ((j : ℕ)
          → j < s.total_frames
          → frame_is_used (release_region s base length) j
            ≡ (not (holds_frame base length j) && frame_is_used s j))
unfolding release_region
release_region_lem {s} base length v low word = elim (Bool-cases (length == 0)) [
  | inl empty ↦ rw empty (itself s 0 0 v, λ j h. ground arith)
  | inr some_bytes ↦
      let bounded : region_end base length < 2 ^ 32 = ground arith in
      let start = align_up_page base in
      let stop = align_down_page (region_end base length) bounded in
      rw (some_bytes, start, stop)
        (elim (Bool-cases
          (leb (region_end base length / 4096 * 4096) (add32 base 4095 / 4096 * 4096))) [
            | inl nothing ↦ rw nothing (itself s 0 0 v, λ j h. ground arith)
            | inr something ↦
                let (alike, same) =
                  mark_range-Freed s (add32 base 4095 / 4096 * 4096 / 4096)
                    (region_end base length / 4096 * 4096 / 4096) v in
                rw something (alike, λ j h. ground (arith, same j h))
          ])
]

-- For a region whose bytes end at or below the start of the last page, reserving takes exactly the frames
-- of the machine that it meets.
pub reserve_region_lem :
    {s : Pmm} (base length : ℕ)
    → IsValid s
    → base < 2 ^ 32
    → base + length ≤ 2 ^ 32 - frame_size
    → Alike s (reserve_region s base length)
      × ((j : ℕ)
          → j < s.total_frames
          → frame_is_used (reserve_region s base length) j
            ≡ (meets_frame base length j || frame_is_used s j))
unfolding reserve_region
reserve_region_lem {s} base length v word high = elim (Bool-cases (length == 0)) [
  | inl empty ↦ rw empty (itself s 0 0 v, λ j h. refl)
  | inr some_bytes ↦
      let stop = align_up_page (region_end base length) in
      rw (some_bytes, stop)
        (let end_frame = add32 (region_end base length) 4095 / 4096 * 4096 / 4096 in
          let (alike, same) =
            mark_range-Reserved s (base / 4096)
              (if ltb s.total_frames end_frame then s.total_frames else end_frame) v
              (ground arith) in
          (alike, λ j h. ground (arith, same j)))
]

-- A region that ends inside the last page of the address space, or is cut off at 4 GiB, is not
-- reserved at all: the rounding up of its end wraps to 0.
pub reserve_region_top :
    (s : Pmm) (base length : ℕ)
    → base < 2 ^ 32
    → length < 2 ^ 32
    → 2 ^ 32 - frame_size < region_end base length
    → reserve_region s base length ≡ s
unfolding reserve_region for_range
reserve_region_top s base length word word' top = elim (Bool-cases (length == 0)) [
  | inl empty ↦ rw empty
  | inr some_bytes ↦
      let bounded : region_end base length < 2 ^ 32 = ground arith in
      let stop : align_up (region_end base length) 4096 ≡ 0 =
        omega (arith, align_up_page (region_end base length)) in
      let no_rounds : (if ltb s.total_frames 0 then s.total_frames else 0) - base / 4096 ≡ 0 =
        ground arith in
      rw (some_bytes, stop, no_rounds)
]

-- Releasing a region that starts behind the start of the last page rounds that start up to 0, and
-- so frees every frame below the region's end.
pub release_region_wraps :
    {s : Pmm} (base length : ℕ)
    → IsValid s
    → 2 ^ 32 - frame_size < base
    → base < 2 ^ 32
    → 0 < length
    → length < 2 ^ 32
    → (j : ℕ) → j < s.total_frames
    → (j + 1) * frame_size ≤ region_end base length
    → frame_is_used (release_region s base length) j ≡ false
unfolding release_region
release_region_wraps {s} base length v high word some_bytes word' j h below =
    let bounded : region_end base length < 2 ^ 32 = ground arith in
    let start : align_up base 4096 ≡ 0 = omega (arith, align_up_page base) in
    let stop = align_down_page (region_end base length) bounded in
    let nonempty : (length == 0) ≡ false = ground arith in
    let goes : leb (region_end base length / 4096 * 4096) 0 ≡ false = ground arith in
    let (alike, same) =
      mark_range-Freed s (0 / 4096) (region_end base length / 4096 * 4096 / 4096) v in
    rw (nonempty, start, stop, goes) (ground (arith, same j h))
