-- ===== src/Heap/Calls.antt =====
-- The calls of the heap: `heap_init`, `kmalloc`, `kcalloc`, `kfree` and the numbers of blocks and bytes.
-- A result is none where a walk that the code does not bound is longer than `max_walks`.
use termob_kernel.Base.{
  ℕ, zero, suc, ◌-◌, ◌/◌, Bool, true, false, not, ◌||◌, Option, none, some, ltb, leb, ◌==◌,
  if◌then◌else◌,
}
use termob_kernel.Base.Words.{add32, sub32, mul32, u32_max}
use termob_kernel.Base.Arrays.{set}
use termob_kernel.Base.Bits.{align_up}
use termob_kernel.Heap.{
  Heap, HeapBlock, Message, heap_alignment, heap_size_bytes, header_size, note_error,
  payload_address, is_free, mark_used, zero_bytes, total_payload_bytes, max_walks, block_is_sane,
}
use termob_kernel.Heap.Blocks.{
  remove_free_block, insert_free_block, initialize_block, split_block, coalesce,
}

-- The first payload, before it is made to fit.
abbrev pub first_payload : (start stop : ℕ) → ℕ
first_payload start stop =
    let bytes = align_up (sub32 (sub32 stop start) header_size) heap_alignment in
    if ltb stop (add32 (add32 start header_size) bytes) then sub32 bytes heap_alignment else bytes

-- The rest of `heap_init`, once the region is known.
unfoldable pub init_region : Heap → (start stop : ℕ) → Heap
init_region h start stop =
    let off = record h {
      start_ptr = start;
      end_ptr = stop;
      first_block = 0;
      free_list = 0;
      ready = false;
      error_count = 0;
      error_flags = 0;
      last_error = Message.no_error;
    } in
    if leb stop (add32 start header_size) then off else record off {
      first_block = start;
      blocks = set h.blocks start (initialize_block (first_payload start stop) 0 0 true);
      free_list = start;
      ready = true;
    }

unfoldable pub init : Heap → (kernel_end : ℕ) → Heap
init h kernel_end =
    let start = align_up kernel_end heap_alignment in
    init_region h start (add32 start heap_size_bytes)

-- The body of the loop of `kmalloc` for a block that is large enough.
unfoldable pub take_block : Heap → (block aligned_size : ℕ) → Option (ℕ × Heap)
take_block h block aligned_size =
    let split = split_block (remove_free_block h block) block aligned_size in
    let listed = if split.0 == 0 then some split.1 else insert_free_block split.1 split.0 in
    elim listed [
      | none ↦ none
      | some h' ↦ some (
        payload_address block,
        record h' { blocks = set h'.blocks block (mark_used (h'.blocks block)) },
      )
    ]

unfoldable pub alloc_loop : Heap → (fuel block aligned_size : ℕ) → Option (ℕ × Heap)
alloc_loop h zero block aligned_size = if block == 0 then some (0, h) else none
alloc_loop h (suc fuel) block aligned_size =
    if block == 0
    then some (0, h)
    else if not (block_is_sane h block) || not (is_free (h.blocks block))
    then some (0, note_error h Message.alloc_corrupt)
    else if leb aligned_size (h.blocks block).size_bytes
    then take_block h block aligned_size
    else alloc_loop h fuel (h.blocks block).next_free aligned_size

unfoldable pub kmalloc : Heap → (size : ℕ) → Option (ℕ × Heap)
kmalloc h size =
    if not h.ready || (size == 0)
    then some (0, h)
    else alloc_loop h (max_walks h) h.free_list (align_up size heap_alignment)

unfoldable pub kcalloc : Heap → (count size : ℕ) → Option (ℕ × Heap)
kcalloc h count size =
    if (count == 0) || (size == 0)
    then some (0, h)
    else if ltb (u32_max / size) count
    then some (0, h)
    else elim (kmalloc h (mul32 count size)) [
      | none ↦ none
      | some (block, h') ↦
          if block == 0 then some (0, h') else some (block, zero_bytes h' block (mul32 count size))
    ]

-- The loop of `heap_find_block_by_payload`, which notes an error where a block is not sound.
unfoldable pub find_loop : Heap → (walks block ptr : ℕ) → ℕ × Heap
find_loop h zero block ptr = (0, h)
find_loop h (suc walks) block ptr =
    if block == 0
    then (0, h)
    else if not (block_is_sane h block)
    then (0, note_error h Message.lookup_corrupt)
    else if payload_address block == ptr
    then (block, h)
    else find_loop h walks (h.blocks block).next_phys ptr

unfoldable pub find_block_by_payload : Heap → (ptr : ℕ) → ℕ × Heap
find_block_by_payload h ptr =
    if not h.ready || (ptr == 0) then (0, h) else find_loop h (max_walks h) h.first_block ptr

-- The part of `kfree` behind the lookup.
unfoldable pub free_found : Heap → (block : ℕ) → Option Heap
free_found h block =
    if block == 0
    then some (note_error h Message.invalid_pointer)
    else if is_free (h.blocks block)
    then some (note_error h Message.double_free)
    else elim (insert_free_block h block) [ none ↦ none | some h' ↦ some (coalesce h' block).1 ]

unfoldable pub kfree : Heap → (ptr : ℕ) → Option Heap
kfree h ptr =
    let found = find_block_by_payload h ptr in
    if not h.ready || (ptr == 0) then some h else free_found found.1 found.0

-- The walks that count: `heap_total_block_count` and `heap_used_block_count`, 0 where a block is not sound.
unfoldable pub count_blocks : Heap → (counts : HeapBlock → Bool) → (walks block count : ℕ) → ℕ
count_blocks h counts zero block count = count
count_blocks h counts (suc walks) block count =
    let rest =
      count_blocks h counts walks (h.blocks block).next_phys
        (if counts (h.blocks block) then add32 count 1 else count) in
    if block == 0 then count else if not (block_is_sane h block) then 0 else rest

unfoldable pub total_block_count : Heap → ℕ
total_block_count h =
    if h.ready then count_blocks h (λ b. true) (max_walks h) h.first_block 0 else 0

unfoldable pub used_block_count : Heap → ℕ
used_block_count h =
    if h.ready then count_blocks h (λ b. not (is_free b)) (max_walks h) h.first_block 0 else 0

-- The walks over the free list: `heap_free_block_count`, `heap_largest_free_block` and `heap_bytes_free`.
unfoldable pub fold_free : Heap → (step : HeapBlock → ℕ → ℕ) → (walks block total : ℕ) → ℕ
fold_free h step zero block total = total
fold_free h step (suc walks) block total =
    let rest = fold_free h step walks (h.blocks block).next_free (step (h.blocks block) total) in
    if block == 0 then total else rest

unfoldable pub free_block_count : Heap → ℕ
free_block_count h =
    if h.ready then fold_free h (λ b n. add32 n 1) (max_walks h) h.free_list 0 else 0

unfoldable pub largest_free_block : Heap → ℕ
largest_free_block h =
    if h.ready
    then fold_free h (λ b n. if ltb n b.size_bytes then b.size_bytes else n) (max_walks h)
        h.free_list 0
    else 0

unfoldable pub bytes_free : Heap → ℕ
bytes_free h =
    if h.ready then fold_free h (λ b n. add32 n b.size_bytes) (max_walks h) h.free_list 0 else 0

unfoldable pub bytes_used : Heap → ℕ
bytes_used h =
    let total = total_payload_bytes h in
    if leb (bytes_free h) total then total - bytes_free h else 0
