-- ===== src/Pmm.antt =====
-- src/kernel/core/pmm.c: the allocator of physical frames, a bitmap with one bit a frame (1 is
-- used), a count of free frames and a cursor where the next search begins.
pub mod Region
pub mod Bytes
pub mod Frames
pub mod Count
pub mod Alloc
pub mod Regions
pub mod Release
pub mod Boot
pub mod Clients
mod Tests
use termob_kernel.Base.{
  ℕ, zero, suc, ◌+◌, ◌-◌, ◌/◌, ◌%◌, ◌^◌, bit_and, bit_or, Bool, true, false, not, ◌||◌, Option,
  none, some, ltb, leb, ◌==◌, if◌then◌else◌,
}
use termob_kernel.Base.Arrays.{set}
use termob_kernel.Base.Words.{add32, sub32, mul32}

-- PMM_FRAME_SIZE
abbrev pub frame_size : ℕ
frame_size = 4096

pub record Pmm : Type 0 where
  pub bitmap_address : ℕ
  pub bitmap : ℕ → ℕ
  pub bitmap_size_bytes : ℕ
  pub total_frames : ℕ
  pub free_frames : ℕ
  pub next_search_frame : ℕ
  pub ready : Bool

abbrev pub bitmap_index : ℕ → ℕ
bitmap_index frame = frame / 2 ^ 3

unfoldable pub bitmap_mask : ℕ → ℕ
bitmap_mask frame = 2 ^ bit_and frame 7 % 2 ^ 8

unfoldable pub frame_is_used : Pmm → ℕ → Bool
frame_is_used s frame = not (bit_and (s.bitmap (bitmap_index frame)) (bitmap_mask frame) == 0)

unfoldable pub mark_frame_used : Pmm → ℕ → Pmm
mark_frame_used s frame =
    if leb s.total_frames frame || frame_is_used s frame then s else record s {
      bitmap =
          set s.bitmap (bitmap_index frame)
            (bit_or (s.bitmap (bitmap_index frame)) (bitmap_mask frame));
      free_frames = if ltb 0 s.free_frames then s.free_frames - 1 else s.free_frames;
    }

unfoldable pub mark_frame_free : Pmm → ℕ → Pmm
mark_frame_free s frame =
    if leb s.total_frames frame || not (frame_is_used s frame) then s else record s {
      bitmap =
          set s.bitmap (bitmap_index frame)
            (bit_and (s.bitmap (bitmap_index frame)) (2 ^ 8 - 1 - bitmap_mask frame));
      free_frames = add32 s.free_frames 1;
    }

-- The first free frame among the `rounds` frames from `frame` on; both loops of
-- `pmm_alloc_frame` return at it.
unfoldable pub find_free : Pmm → (rounds frame : ℕ) → Option ℕ
find_free s zero frame = none
find_free s (suc rounds) frame =
    let rest = find_free s rounds (frame + 1) in
    if not (frame_is_used s frame) then some frame else rest

-- The body of either loop, where a free frame was found.
unfoldable pub take_frame : Pmm → ℕ → ℕ × Pmm
take_frame s frame =
    (mul32 frame frame_size, record (mark_frame_used s frame) { next_search_frame = add32 frame 1 })

-- The address of a frame, or 0.
unfoldable pub alloc_frame : Pmm → ℕ × Pmm
unfolding take_frame
alloc_frame s =
    if not s.ready || (s.free_frames == 0)
    then (0, s)
    else elim (find_free s (s.total_frames - s.next_search_frame) s.next_search_frame) [
      | some frame ↦ take_frame s frame
      | none ↦ elim (find_free s s.next_search_frame 0) [
        | some frame ↦ take_frame s frame
        | none ↦ (0, s)
      ]
    ]

unfoldable pub free_frame : Pmm → ℕ → Pmm
free_frame s physical_address =
    if not s.ready || not (bit_and physical_address (frame_size - 1) == 0)
    then s
    else (let frame = physical_address / frame_size in
        if leb s.total_frames frame
        then s
        else (let s' = mark_frame_free s frame in
            if ltb frame s'.next_search_frame then record s' { next_search_frame = frame } else s'))

abbrev pub used_frames : Pmm → ℕ
used_frames s = sub32 s.total_frames s.free_frames

abbrev pub total_bytes : Pmm → ℕ
total_bytes s = mul32 s.total_frames frame_size

abbrev pub free_bytes : Pmm → ℕ
free_bytes s = mul32 s.free_frames frame_size

abbrev pub used_bytes : Pmm → ℕ
used_bytes s = mul32 (sub32 s.total_frames s.free_frames) frame_size
