-- ===== src/Pmm/Region.antt =====
-- The part of pmm.c that fills the bitmap: releasing and reserving regions, and `pmm_init`.
use termob_kernel.Base.{
  ℕ, zero, suc, ◌+◌, ◌-◌, ◌/◌, Bool, true, false, not, ◌||◌, none, some, ltb, leb, ◌==◌,
  if◌then◌else◌,
}
use termob_kernel.Base.Arrays.{for_range}
use termob_kernel.Base.Words.{u32_max, add32, sub32}
use termob_kernel.Base.Bits.{align_up, align_down}
use termob_kernel.Bootinfo.{
  Bootinfo, MemoryRange, memory_range_at, memory_type_available, max_memory_ranges,
}
use termob_kernel.Pmm.{Pmm, frame_size, mark_frame_used, mark_frame_free}

-- Where a region ends, held below 4 GiB.
abbrev pub region_end : ℕ → ℕ → ℕ
region_end base length = if ltb (u32_max - length) base then u32_max else base + length

-- for (frame = start; frame < stop; frame++) mark(frame)
abbrev pub mark_range : (Pmm → ℕ → Pmm) → (start stop : ℕ) → Pmm → Pmm
mark_range mark start stop s = for_range (stop - start) start (λ frame t. mark t frame) s

-- Only the whole frames inside the region are released.
unfoldable pub release_region : Pmm → (base length : ℕ) → Pmm
release_region s base length =
    if length == 0
    then s
    else (let start = align_up base frame_size in
        let stop = align_down (region_end base length) frame_size in
        if leb stop start
        then s
        else mark_range mark_frame_free (start / frame_size) (stop / frame_size) s)

-- Every frame that the region touches is reserved.
unfoldable pub reserve_region : Pmm → (base length : ℕ) → Pmm
reserve_region s base length =
    if length == 0
    then s
    else (let stop = align_up (region_end base length) frame_size / frame_size in
        mark_range mark_frame_used (base / frame_size)
          (if ltb s.total_frames stop then s.total_frames else stop) s)

-- What `pmm_init` asks of the heap and of the linker: `heap_is_initialized`, the bounds of the
-- heap, the address that `kcalloc` returns for the bitmap (0 on failure), `&__kernel_end`.
pub record Surroundings : Type 0 where
  pub heap_is_initialized : Bool
  pub heap_start : ℕ
  pub heap_end : ℕ
  pub kcalloc : (count size : ℕ) → ℕ
  pub kernel_end : ℕ

-- TERMOB_KERNEL_LOAD_ADDRESS
abbrev pub kernel_load_address : ℕ
kernel_load_address = 0x00100000

unfoldable pub off : Pmm → Pmm
off s = record s {
  bitmap_address = 0;
  bitmap_size_bytes = 0;
  total_frames = 0;
  free_frames = 0;
  next_search_frame = 0;
  ready = false;
}

-- The number of frames below the highest usable address.
unfoldable pub frames_below : ℕ → ℕ
frames_below highest =
    if highest == u32_max
    then u32_max / frame_size + 1
    else align_up (add32 highest 1) frame_size / frame_size

-- The body of the loop over the memory ranges.
unfoldable pub release_range : Pmm → MemoryRange → Pmm
release_range s range =
    if range.type == memory_type_available then release_region s range.base_addr range.length else s

-- for (i = 0; bootinfo_memory_range_at(i, &range); i++) release_range(range)
unfoldable pub release_ranges : ℕ → Bootinfo → ℕ → Pmm → Pmm
release_ranges zero boot index s = s
release_ranges (suc rounds) boot index s = elim (memory_range_at boot index) [
  | none ↦ s
  | some range ↦ release_ranges rounds boot (index + 1) (release_range s range)
]

-- A bitmap of `size` bytes at `address` where every frame is in use.
unfoldable pub all_used : Pmm → (frames size address : ℕ) → Pmm
all_used s frames size address = record s {
  bitmap_address = address;
  bitmap = λ i. if ltb i size then 0xff else 0;
  bitmap_size_bytes = size;
  total_frames = frames;
}

-- The reservations that follow the release of the available memory, in order.
unfoldable pub reserve_fixed : Surroundings → Bootinfo → Pmm → Pmm
reserve_fixed around boot s =
    let low = reserve_region s 0 kernel_load_address in
    let kernel =
      reserve_region low kernel_load_address
        (sub32 (align_up around.kernel_end frame_size) kernel_load_address) in
    let heap = reserve_region kernel around.heap_start (sub32 around.heap_end around.heap_start) in
    let info = reserve_region heap boot.info_address boot.info_size in
    reserve_region info s.bitmap_address s.bitmap_size_bytes

-- `pmm_bitmap_size_bytes` and `pmm_bitmap` as `pmm_init` computes them.
abbrev pub bitmap_bytes : Bootinfo → ℕ
bitmap_bytes boot = add32 (frames_below boot.highest_usable) 7 / 8

abbrev pub bitmap_at : Surroundings → Bootinfo → ℕ
bitmap_at around boot = around.kcalloc (bitmap_bytes boot) 1

unfoldable pub init : Surroundings → Bootinfo → Pmm → Pmm
init around boot old =
    if not boot.ready || not around.heap_is_initialized
    then off old
    else if ltb boot.highest_usable (frame_size - 1)
    then off old
    else if bitmap_at around boot == 0
    then off old
    else record (reserve_fixed around boot (
        release_ranges (max_memory_ranges + 1) boot 0 (
          all_used (off old) (frames_below boot.highest_usable) (bitmap_bytes boot)
            (bitmap_at around boot)))) { ready = true }
