-- ===== src/Heap/Integrity.antt =====
-- `heap_check_integrity_internal` and the self-test of the heap. The walks count their rounds, and end
-- with an error where a list is longer than `max_walks`.
use termob_kernel.Base.{
  ℕ, zero, suc, Bool, true, false, not, ◌&&◌, ◌||◌, Option, none, some, leb, ◌==◌, if◌then◌else◌,
}
use termob_kernel.Base.Words.{add32}
use termob_kernel.Heap.{Heap, Message, note_error, end_address, is_free, max_walks, block_is_sane}
use termob_kernel.Heap.Calls.{kmalloc, kcalloc, kfree, bytes_free}

-- What a walk gives: why the heap is not sound, or where it has ended and how many blocks it counted.
pub data Walked : Type 0 where
  fails : Message → Walked
  ends : (expected count : ℕ) → Walked

-- The first loop: `expected` is where the next block must lie, `count` the number of free blocks.
unfoldable pub physical_walk : Heap → (walks block previous expected count : ℕ) → Walked
physical_walk h zero block previous expected count =
    if block == 0 then ends expected count else fails Message.physical_loop
physical_walk h (suc walks) block previous expected count =
    let next = (h.blocks block).next_phys in
    let free = is_free (h.blocks block) in
    let rest =
      physical_walk h walks next block (end_address h block)
        (if free then add32 count 1 else count) in
    if block == 0
    then ends expected count
    else if not (block_is_sane h block)
    then fails Message.invalid_block
    else if not (block == expected)
    then fails Message.non_contiguous
    else if not ((h.blocks block).prev_phys == previous)
    then fails Message.broken_prev_phys
    else if free && (not (next == 0) && is_free (h.blocks next))
    then fails Message.not_coalesced
    else rest

-- The second loop, over the free list.
unfoldable pub free_walk : Heap → (walks block previous count : ℕ) → Walked
free_walk h zero block previous count =
    if block == 0 then ends previous count else fails Message.free_list_loop
free_walk h (suc walks) block previous count =
    let rest = free_walk h walks (h.blocks block).next_free block (add32 count 1) in
    if block == 0
    then ends previous count
    else if not (block_is_sane h block) || not (is_free (h.blocks block))
    then fails Message.invalid_free_block
    else if not ((h.blocks block).prev_free == previous)
    then fails Message.broken_prev_free
    else if not (previous == 0) && leb block previous
    then fails Message.free_list_order
    else rest

unfoldable pub contains_loop : Heap → (walks block target : ℕ) → Bool
contains_loop h zero block target = false
contains_loop h (suc walks) block target =
    let rest = contains_loop h walks (h.blocks block).next_free target in
    if block == 0 then false else if block == target then true else rest

unfoldable pub free_list_contains : Heap → (target : ℕ) → Bool
free_list_contains h target =
    if target == 0 then false else contains_loop h (max_walks h) h.free_list target

-- The third loop: each free block is in the free list.
unfoldable pub listed_walk : Heap → (walks block : ℕ) → Option Message
listed_walk h zero block = if block == 0 then none else some Message.rewalk_loop
listed_walk h (suc walks) block =
    let rest = listed_walk h walks (h.blocks block).next_phys in
    if block == 0
    then none
    else if is_free (h.blocks block) && not (free_list_contains h block)
    then some Message.missing_block
    else rest

-- The two walks over the free blocks, and their comparison.
unfoldable pub compare_walks : Heap → (physical_free : ℕ) → Option Message
compare_walks h physical_free = elim (free_walk h (max_walks h) h.free_list 0 0) [
  | fails message ↦ some message
  | ends last listed ↦
      if not (listed == physical_free)
      then some Message.count_mismatch
      else listed_walk h (max_walks h) h.first_block
]

-- The reason why the heap is not sound.
unfoldable pub fault : Heap → Option Message
fault h = elim (physical_walk h (max_walks h) h.first_block 0 h.start_ptr 0) [
  | fails message ↦ some message
  | ends expected count ↦
      if not (expected == h.end_ptr) then some Message.end_mismatch else compare_walks h count
]

unfoldable pub check_integrity_internal : Heap → (log_errors : Bool) → Bool × Heap
check_integrity_internal h log_errors =
    if not h.ready || (h.first_block == 0) then (false, h) else elim (fault h) [
      | none ↦ (true, h)
      | some message ↦ (false, if log_errors then note_error h message else h)
    ]

-- `heap_integrity_status`, `heap_check_integrity`
unfoldable pub integrity_status : Heap → Bool
integrity_status h = (check_integrity_internal h false).0

unfoldable pub check_integrity : Heap → Bool × Heap
check_integrity h = check_integrity_internal h true

abbrev then_free : Option Heap → (ptr : ℕ) → Option Heap
then_free none ptr = none
then_free (some h) ptr = kfree h ptr

-- `if (ptr != 0) kfree(ptr)`
abbrev free_given : Option Heap → (ptr : ℕ) → Option Heap
free_given none ptr = none
free_given (some h) ptr = if ptr == 0 then some h else kfree h ptr

abbrev failed : Option Heap → Option (Bool × Heap)
failed none = none
failed (some h) = some (false, h)

-- The end of the self-test: everything is freed again, and as many bytes are free as before.
unfoldable pub selftest_end : (free_before : ℕ) → Option Heap → Option (Bool × Heap)
selftest_end free_before none = none
selftest_end free_before (some h) =
    let checked = check_integrity_internal h true in
    if not checked.0
    then some (false, checked.1)
    else if not (bytes_free checked.1 == free_before)
    then some (false, note_error checked.1 Message.selftest_space)
    else some (true, checked.1)

-- The part of the self-test behind its first three allocations.
unfoldable pub selftest_reuse : (free_before a b c : ℕ) → Heap → Option (Bool × Heap)
selftest_reuse free_before a b c h =
    if (a == 0) || ((b == 0) || (c == 0))
    then failed
        (free_given (free_given (free_given (some (note_error h Message.selftest_alloc)) a) b) c)
    else elim (kfree h b) [
      | none ↦ none
      | some freed ↦ elim (kmalloc freed 80) [
        | none ↦ none
        | some (d, h') ↦
            if d == 0
            then failed (then_free (then_free (some (note_error h' Message.selftest_reuse)) a) c)
            else selftest_end free_before (then_free (then_free (then_free (some h') d) c) a)
      ]
    ]

unfoldable pub run_self_test : Heap → Option (Bool × Heap)
run_self_test h =
    let checked = check_integrity_internal h true in
    if not h.ready
    then some (false, h)
    else if not checked.0
    then some (false, checked.1)
    else elim (kmalloc checked.1 64) [
      | none ↦ none
      | some (a, h1) ↦ elim (kmalloc h1 128) [
        | none ↦ none
        | some (b, h2) ↦ elim (kcalloc h2 16 8) [
          | none ↦ none
          | some (c, h3) ↦ selftest_reuse (bytes_free h) a b c h3
        ]
      ]
    ]
