-- ===== src/Pmm/Tests.antt =====
-- A machine of eight frames, four of them free, and instances of the theorems at it.
use termob_kernel.Base.{
  inl, ℕ, ◌+◌, ◌*◌, ◌/◌, ◌%◌, ◌<◌, ◌≡◌, ◌↔◌, refl, true, false, not, ◌&&◌, ◌||◌, arith, ltb, ◌==◌,
  if◌then◌else◌,
}
use termob_kernel.Base.Bits.{align_up}
use termob_kernel.Bootinfo.{Bootinfo}
use termob_kernel.Pmm.{Pmm, frame_is_used, bitmap_mask, find_free, alloc_frame, free_frame}
use termob_kernel.Pmm.Frames.{count_free, IsValid}
use termob_kernel.Pmm.Alloc.{Taken, alloc_frame-Taken, alloc_frame_fails_iff, free_frame_lem}
use termob_kernel.Pmm.Region.{
  Surroundings, release_region, reserve_region, frames_below, bitmap_bytes, bitmap_at, init,
}
use termob_kernel.Pmm.Regions.{
  Alike, holds_frame, meets_frame, release_region_lem, reserve_region_lem,
}
use termob_kernel.Pmm.Release.{IsUsual, any_holds}
use termob_kernel.Pmm.Boot.{IsBelow, meets_reserved, init_lem}
use termob_kernel.Pmm.Clients.{
  World, Step, Reach, IsSafe, no_double_allocation, alloc_frame-free_frame_zero,
}

abbrev small : Pmm
small = record {
  bitmap_address = 0x200000;
  bitmap = λ i. if i == 0 then 0x0f else 0;
  bitmap_size_bytes = 1;
  total_frames = 8;
  free_frames = 4;
  next_search_frame = 0;
  ready = true;
}

small-IsValid : IsValid small
unfolding count_free frame_is_used bitmap_mask
small-IsValid = record {
  bytes = λ i. ground arith;
  counted = refl;
  total = omega arith;
  cursor = omega arith;
}

-- The first free frame is frame 4.
alloc_small : (alloc_frame small).0 ≡ 4 * 4096
unfolding alloc_frame find_free frame_is_used bitmap_mask
alloc_small = refl

alloc_frame-Taken_example :
    (frame : ℕ) × Taken small frame (alloc_frame small).0 (alloc_frame small).1
alloc_frame-Taken_example = alloc_frame-Taken small-IsValid refl (omega arith)

alloc_frame_fails_iff_example :
    (alloc_frame small ≡ (0, small)) ↔ ((j : ℕ) → j < 8 → frame_is_used small j ≡ true)
alloc_frame_fails_iff_example = alloc_frame_fails_iff small-IsValid refl

free_frame_lem_example :
    IsValid (free_frame small 8192)
    × ((j : ℕ)
        → frame_is_used (free_frame small 8192) j ≡ (
            not ((8192 % 4096 == 0) && ltb (8192 / 4096) 8 && (8192 / 4096 == j))
            && frame_is_used small j))
    × ((free_frame small 8192).free_frames ≡ (
        if (8192 % 4096 == 0) && ltb (8192 / 4096) 8 && frame_is_used small (8192 / 4096)
        then small.free_frames + 1
        else small.free_frames))
free_frame_lem_example = free_frame_lem 8192 small-IsValid refl

release_region_lem_example :
    Alike small (release_region small 100 9000)
    × ((j : ℕ)
        → j < 8
        → frame_is_used (release_region small 100 9000) j
          ≡ (not (holds_frame 100 9000 j) && frame_is_used small j))
release_region_lem_example = release_region_lem 100 9000 small-IsValid (omega arith) (omega arith)

reserve_region_lem_example :
    Alike small (reserve_region small 20000 100)
    × ((j : ℕ)
        → j < 8
        → frame_is_used (reserve_region small 20000 100) j
          ≡ (meets_frame 20000 100 j || frame_is_used small j))
reserve_region_lem_example = reserve_region_lem 20000 100 small-IsValid (omega arith) (omega arith)

abbrev clients : World
clients = record { pmm = small; owned = λ j. j == 3 }

clients-IsSafe : IsSafe clients
unfolding frame_is_used bitmap_mask
clients-IsSafe = record {
  valid = small-IsValid;
  ready = refl;
  in_use = λ j o. (ground arith, let e : j ≡ 3 = ground arith in rw e);
}

abbrev after_take : World
after_take = record {
  pmm = (alloc_frame small).1;
  owned = λ j. ((alloc_frame small).0 / 4096 == j) || (j == 3);
}

one_take : Reach clients after_take
one_take = Reach.next Reach.here (Step.take clients (omega arith))

no_double_allocation_example :
    (0 < after_take.pmm.free_frames
      → after_take.owned ((alloc_frame after_take.pmm).0 / 4096) ≡ false)
    × ((j : ℕ) → after_take.owned j ≡ true → frame_is_used after_take.pmm j ≡ true)
no_double_allocation_example = no_double_allocation clients-IsSafe one_take

alloc_frame-free_frame_zero_example :
    ((alloc_frame (free_frame small 0)).0 ≡ 0)
    × (frame_is_used (free_frame small 0) 0 ≡ false)
    × (frame_is_used (alloc_frame (free_frame small 0)).1 0 ≡ true)
alloc_frame-free_frame_zero_example = alloc_frame-free_frame_zero small-IsValid refl (omega arith)

-- 4 MiB of memory from 1 MiB on; the kernel ends at 2 MiB, the heap follows it.
abbrev boot : Bootinfo
boot = record {
  ready = true;
  info_address = 0x9000;
  info_size = 64;
  ranges = λ i. record { base_addr = 0x100000; length = 0x400000; type = 1 };
  range_count = 1;
  usable_bytes = 0x400000;
  highest_usable = 0x4fffff;
}

abbrev around : Surroundings
around = record {
  heap_is_initialized = true;
  heap_start = 0x200000;
  heap_end = 0x300000;
  kcalloc = λ count size. 0x200020;
  kernel_end = 0x200000;
}

boot-IsUsual : IsUsual boot
boot-IsUsual = record { starts = λ i h t. omega arith; lengths = λ i h. omega arith }

boot-IsBelow : IsBelow around boot (bitmap_bytes boot) (bitmap_at around boot)
unfolding frames_below align_up
boot-IsBelow = omega arith

init_lem_example :
    IsValid (init around boot small)
    × ((init around boot small).ready ≡ true)
    × ((init around boot small).total_frames ≡ boot.highest_usable / 4096 + 1)
    × ((j : ℕ)
        → j < boot.highest_usable / 4096 + 1
        → frame_is_used (init around boot small) j ≡ (
            meets_reserved around boot (bitmap_bytes boot) (bitmap_at around boot) j
            || not (any_holds boot.ranges boot.range_count j)))
init_lem_example =
    init_lem around small refl refl (omega arith) (omega arith) (omega arith) boot-IsUsual
      (inl (omega arith)) boot-IsBelow
