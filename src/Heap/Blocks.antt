-- ===== src/Heap/Blocks.antt =====
-- The free list and the chain of blocks: `heap_remove_free_block`, `heap_insert_free_block`,
-- `heap_split_block` and `heap_coalesce`. A write through a pointer is one update of the store.
use termob_kernel.Base.{
  ℕ, zero, suc, ◌+◌, ◌-◌, Bool, true, false, not, ◌&&◌, ◌||◌, Option, none, some, ltb, leb, ◌==◌,
  if◌then◌else◌,
}
use termob_kernel.Base.Words.{add32, sub32}
use termob_kernel.Base.Arrays.{set}
use termob_kernel.Heap.{
  Heap, HeapBlock, Message, block_magic, header_size, min_split_bytes, note_error, payload_address,
  end_address, is_free, mark_free, max_walks, block_is_sane,
}

-- `block->field = value`
abbrev pub set_prev_phys : (ℕ → HeapBlock) → ℕ → ℕ → ℕ → HeapBlock
set_prev_phys m block value = set m block (record (m block) { prev_phys = value })

abbrev pub set_next_phys : (ℕ → HeapBlock) → ℕ → ℕ → ℕ → HeapBlock
set_next_phys m block value = set m block (record (m block) { next_phys = value })

abbrev pub set_prev_free : (ℕ → HeapBlock) → ℕ → ℕ → ℕ → HeapBlock
set_prev_free m block value = set m block (record (m block) { prev_free = value })

abbrev pub set_next_free : (ℕ → HeapBlock) → ℕ → ℕ → ℕ → HeapBlock
set_next_free m block value = set m block (record (m block) { next_free = value })

abbrev pub set_size : (ℕ → HeapBlock) → ℕ → ℕ → ℕ → HeapBlock
set_size m block value = set m block (record (m block) { size_bytes = value })

-- The same, where the pointer is not null.
abbrev pub link_next_free : (ℕ → HeapBlock) → ℕ → ℕ → ℕ → HeapBlock
link_next_free m block value = if block == 0 then m else set_next_free m block value

abbrev pub link_prev_free : (ℕ → HeapBlock) → ℕ → ℕ → ℕ → HeapBlock
link_prev_free m block value = if block == 0 then m else set_prev_free m block value

abbrev pub link_prev_phys : (ℕ → HeapBlock) → ℕ → ℕ → ℕ → HeapBlock
link_prev_phys m block value = if block == 0 then m else set_prev_phys m block value

-- The writes of `heap_remove_free_block` to the blocks.
unfoldable pub unlink_free : (ℕ → HeapBlock) → ℕ → ℕ → HeapBlock
unlink_free m block =
    let bypassed = link_next_free m (m block).prev_free (m block).next_free in
    let joined = link_prev_free bypassed (bypassed block).next_free (bypassed block).prev_free in
    set_next_free (set_prev_free joined block 0) block 0

unfoldable pub remove_free_block : Heap → ℕ → Heap
remove_free_block h block = if block == 0 then h else record h {
  blocks = unlink_free h.blocks block;
  free_list =
      if not ((h.blocks block).prev_free == 0)
      then h.free_list
      else if h.free_list == block
      then (h.blocks block).next_free
      else h.free_list;
}

-- The loop of `heap_insert_free_block`: the last block in front of the new one, and the one behind it.
unfoldable pub insert_position : (ℕ → HeapBlock) → (fuel block previous cursor : ℕ) → Option (ℕ × ℕ)
insert_position m zero block previous cursor =
    if not (cursor == 0) && ltb cursor block then none else some (previous, cursor)
insert_position m (suc fuel) block previous cursor =
    if not (cursor == 0) && ltb cursor block
    then insert_position m fuel block cursor (m cursor).next_free
    else some (previous, cursor)

-- The block with its flag set and no links.
unfoldable pub fresh_free : HeapBlock → HeapBlock
fresh_free b = record (mark_free b) { prev_free = 0; next_free = 0 }

unfoldable pub link_free : (ℕ → HeapBlock) → (block previous cursor : ℕ) → ℕ → HeapBlock
link_free m block previous cursor =
    let placed = set_next_free (set_prev_free m block previous) block cursor in
    link_prev_free (set_next_free placed previous block) cursor block

unfoldable pub insert_free_block : Heap → ℕ → Option Heap
insert_free_block h block =
    let m = set h.blocks block (fresh_free (h.blocks block)) in
    if block == 0
    then some h
    else if (h.free_list == 0) || ltb block h.free_list
    then some (record h {
      blocks = link_prev_free (set_next_free m block h.free_list) h.free_list block;
      free_list = block;
    })
    else elim (insert_position m (max_walks h) block h.free_list (m h.free_list).next_free) [
      | none ↦ none
      | some (previous, cursor) ↦ some (record h { blocks = link_free m block previous cursor })
    ]

unfoldable pub initialize_block :
    (size_bytes prev_phys next_phys : ℕ) → (is_free : Bool) → HeapBlock
initialize_block size_bytes prev_phys next_phys free =
    let b : HeapBlock = record {
      magic = block_magic;
      flags = 0;
      size_bytes = size_bytes;
      prev_phys = prev_phys;
      next_phys = next_phys;
      prev_free = 0;
      next_free = 0;
    } in
    if free then mark_free b else b

unfoldable pub can_split_block : Heap → (block requested_size : ℕ) → Bool
can_split_block h block requested_size =
    if (block == 0) || ltb (h.blocks block).size_bytes requested_size
    then false
    else leb (header_size + min_split_bytes) ((h.blocks block).size_bytes - requested_size)

abbrev pub split_address : (block requested_size : ℕ) → ℕ
split_address block requested_size = add32 (payload_address block) requested_size

-- The writes of `heap_split_block`, with the new block at `new`.
unfoldable pub split_writes : (ℕ → HeapBlock) → (block new requested_size : ℕ) → ℕ → HeapBlock
split_writes m block new requested_size =
    let payload = sub32 (sub32 (m block).size_bytes requested_size) header_size in
    let started = set m new (initialize_block payload block (m block).next_phys true) in
    let linked = link_prev_phys started (started block).next_phys new in
    set_size (set_next_phys linked block new) block requested_size

-- The new block, 0 where there is none.
unfoldable pub split_block : Heap → (block requested_size : ℕ) → ℕ × Heap
split_block h block requested_size =
    if can_split_block h block requested_size
    then (
      split_address block requested_size,
      record h {
        blocks = split_writes h.blocks block (split_address block requested_size) requested_size;
      },
    )
    else (0, h)

-- The writes of `heap_try_coalesce_with_next` behind the removal from the free list.
unfoldable pub join_writes : (ℕ → HeapBlock) → (block next : ℕ) → ℕ → HeapBlock
join_writes m block next =
    let grown =
      set_size m block (add32 (m block).size_bytes (add32 header_size (m next).size_bytes)) in
    let linked = set_next_phys grown block (grown next).next_phys in
    link_prev_phys linked (linked next).next_phys block

unfoldable pub try_coalesce_with_next : Heap → ℕ → Heap
try_coalesce_with_next h block =
    let next = (h.blocks block).next_phys in
    let removed = remove_free_block h next in
    if (block == 0) || not (is_free (h.blocks block))
    then h
    else if (next == 0) || not (is_free (h.blocks next))
    then h
    else if not (block_is_sane h next) || not (end_address h block == next)
    then note_error h Message.coalesce_corrupt
    else record removed { blocks = join_writes removed.blocks block next }

unfoldable pub coalesce : Heap → ℕ → ℕ × Heap
coalesce h block =
    let prev = (h.blocks block).prev_phys in
    let merged = if not (prev == 0) && is_free (h.blocks prev) then prev else block in
    if block == 0
    then (0, h)
    else (merged, try_coalesce_with_next (try_coalesce_with_next h merged) merged)
