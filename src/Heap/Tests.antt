-- ===== src/Heap/Tests.antt =====
-- A heap that has just been started, and the theorems applied to it.
use mathlib.Core.Path.{subst}
use termob_kernel.Base.{
  ℕ, ◌+◌, ◌-◌, ◌*◌, ◌<◌, ◌≡◌, ◌≢◌, ◌↔◌, ◌⊎◌, inl, refl, sym, ap, Bool, true, false, arith, Option,
  none, some, List, [], ◌∷◌,
}
use termob_kernel.Base.Bits.{align_up}
use termob_kernel.Base.Arrays.{for_range}
use termob_kernel.Heap.{
  Heap, Message, note_error, mark_free, mark_used, is_free, max_walks, block_is_sane, zero_bytes,
  clear_header, clear_word, written_word,
}
use termob_kernel.Heap.Blocks.{
  initialize_block, remove_free_block, unlink_free, insert_free_block, insert_position, fresh_free,
  link_free, can_split_block, split_block, split_writes, join_writes, try_coalesce_with_next,
  coalesce,
}
use termob_kernel.Heap.Calls.{
  init_region, init, kmalloc, kcalloc, kfree, alloc_loop, take_block, find_block_by_payload,
  find_loop, free_found, bytes_free, fold_free,
}
use termob_kernel.Heap.Integrity.{
  run_self_test, integrity_status, check_integrity_internal, fault, physical_walk, free_walk,
  listed_walk, compare_walks, free_list_contains, contains_loop, selftest_reuse, selftest_end,
}
use termob_kernel.Heap.Tiling.{Cell, IsHeap}
use termob_kernel.Heap.Splitting.{cell}
use termob_kernel.Heap.FirstFit.{first_fit, Serves, rounded, kmalloc-first_fit}
use termob_kernel.Heap.Given.{IsGiven, kmalloc-IsGiven, kmalloc_wraps}
use termob_kernel.Heap.Freeing.{IsFreed, Refusal, kfree-IsFreed, kfree_refuses}
use termob_kernel.Heap.Start.{whole_heap, init-IsHeap}
use termob_kernel.Heap.Sound.{SizesAreWords}
use termob_kernel.Heap.Exact.{integrity_status_iff}
use termob_kernel.Heap.Zeroed.{IsZeroed, kcalloc-IsGiven}
use termob_kernel.Heap.Reach.{CanBeRounded, Reachable, Reachable-IsHeap}

abbrev blank : Heap
blank = record {
  start_ptr = 0;
  end_ptr = 0;
  first_block = 0;
  free_list = 0;
  ready = false;
  error_count = 0;
  error_flags = 0;
  last_error = Message.no_error;
  blocks = λ a. record {
    magic = 0;
    flags = 0;
    size_bytes = 0;
    prev_phys = 0;
    next_phys = 0;
    prev_free = 0;
    next_free = 0;
  };
  memory = λ a. 0;
}

abbrev new_heap : Heap
new_heap = init blank 0x200000

new_heap-IsHeap : IsHeap new_heap whole_heap
new_heap-IsHeap = init-IsHeap blank 0x200000 (omega arith) (omega arith)

-- The self-test, on the new heap.
abbrev verdict_of : Option (Bool × Heap) → Option Bool
verdict_of none = none
verdict_of (some (b, h)) = some b

abbrev self_test_verdict : Option Bool
self_test_verdict = verdict_of (run_self_test new_heap)

-- After one allocation of 100 bytes.
abbrev two_cells : List Cell
two_cells = cell 112 false ∷ cell (1024 * 1024 - 176) true ∷ []

first_choice : Serves new_heap (kmalloc new_heap 100) (some (new_heap.start_ptr, two_cells))
unfolding first_fit
first_choice = kmalloc-first_fit new_heap whole_heap 100 new_heap-IsHeap (omega arith)

abbrev heap_after : Option (ℕ × Heap) → Heap
heap_after none = blank
heap_after (some (p, h)) = h

abbrev used_heap : Heap
used_heap = heap_after (kmalloc new_heap 100)

used_heap-IsHeap : IsHeap used_heap two_cells
used_heap-IsHeap =
    let (h, e, rest, heap) = first_choice in
    subst (λ g. IsHeap g two_cells) (sym (ap heap_after e)) heap

kmalloc-first_fit_example :
    Serves used_heap (kmalloc used_heap 64) (first_fit (rounded 64) used_heap.start_ptr two_cells)
kmalloc-first_fit_example = kmalloc-first_fit used_heap two_cells 64 used_heap-IsHeap (omega arith)

kmalloc-IsGiven_example :
    (kmalloc used_heap 64 ≡ some (0, used_heap))
    ⊎ ((p : ℕ) × (h' : Heap) × (kmalloc used_heap 64 ≡ some (p, h'))
        × IsGiven used_heap two_cells 64 p h')
kmalloc-IsGiven_example =
    kmalloc-IsGiven used_heap two_cells 64 used_heap-IsHeap (omega arith) (omega arith)

kcalloc-IsGiven_example :
    (kcalloc used_heap 8 4 ≡ some (0, used_heap))
    ⊎ ((p : ℕ) × (h' : Heap) × (kcalloc used_heap 8 4 ≡ some (p, h'))
        × IsGiven used_heap two_cells 32 p h'
        × IsZeroed h'.memory p 32)
kcalloc-IsGiven_example =
    kcalloc-IsGiven used_heap two_cells 8 4 used_heap-IsHeap (omega arith) (omega arith)
      (omega arith)

some_block : new_heap.free_list ≢ 0
some_block = omega (arith, new_heap-IsHeap.listed.head, new_heap-IsHeap.tiled.some_address)

kmalloc_wraps_example :
    (p : ℕ) × (h' : Heap) × (kmalloc new_heap 0xfffffff8 ≡ some (p, h'))
    × (g : IsGiven new_heap whole_heap 0 p h') × (g.room < 0xfffffff8)
kmalloc_wraps_example =
    kmalloc_wraps new_heap whole_heap 0xfffffff8 new_heap-IsHeap some_block (omega arith)
      (omega arith)

kfree-IsFreed_example :
    (h' : Heap) × (kfree used_heap (used_heap.start_ptr + 32) ≡ some h')
    × IsFreed used_heap two_cells used_heap.start_ptr h'
kfree-IsFreed_example =
    kfree-IsFreed used_heap two_cells used_heap.start_ptr 112 used_heap-IsHeap
      (inl (refl, refl, refl))

kfree_refuses_example :
    (message : Message) × (kfree used_heap 5 ≡ some (note_error used_heap message))
    × Refusal used_heap.start_ptr two_cells 5 message
kfree_refuses_example =
    kfree_refuses used_heap two_cells 5 used_heap-IsHeap (omega arith) (λ b s live. omega arith)

new_sizes : SizesAreWords new_heap
unfolding init init_region initialize_block mark_free align_up
new_sizes a = ground arith

integrity_status_iff_example :
    (integrity_status new_heap ≡ true) ↔ ((cs : List Cell) × IsHeap new_heap cs)
integrity_status_iff_example = integrity_status_iff new_heap new_heap-IsHeap.tiled.fits new_sizes

Reachable-IsHeap_example :
    ((cs : List Cell) × IsHeap new_heap cs)
    × ((size : ℕ) → (p : ℕ) × (h' : Heap) × (kmalloc new_heap size ≡ some (p, h')))
    × ((count size : ℕ)
        → CanBeRounded count size
        → (p : ℕ) × (h' : Heap) × (kcalloc new_heap count size ≡ some (p, h')))
    × ((ptr : ℕ) → (h' : Heap) × (kfree new_heap ptr ≡ some h'))
Reachable-IsHeap_example =
    Reachable-IsHeap new_heap (Reachable.started blank 0x200000 (omega arith) (omega arith))

self_test_passes : self_test_verdict ≡ some true
unfolding run_self_test check_integrity_internal fault physical_walk free_walk listed_walk
    compare_walks free_list_contains contains_loop selftest_reuse selftest_end kmalloc kcalloc kfree
    alloc_loop take_block find_block_by_payload find_loop free_found bytes_free fold_free init
    init_region initialize_block mark_free mark_used is_free align_up max_walks block_is_sane
    zero_bytes clear_header clear_word written_word remove_free_block unlink_free insert_free_block
    insert_position fresh_free link_free can_split_block split_block split_writes join_writes
    try_coalesce_with_next coalesce for_range
self_test_passes = refl
