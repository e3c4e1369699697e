-- ===== src/Heap.antt =====
-- src/kernel/core/heap.c: the kernel heap, one region cut into blocks. A block has a header of 32 bytes
-- in front of its payload; a pointer to a header is its address, 0 for null, and the headers are a
-- store from the address. All other bytes are a memory of their own; `heap_zero_bytes` writes to both,
-- so that a length behind the end of a payload destroys the headers there.
pub mod Blocks
pub mod Calls
pub mod Integrity
pub mod Linked
pub mod Tiling
pub mod FreeList
pub mod Insert
pub mod Splitting
pub mod Cutting
pub mod Flags
pub mod Alloc
pub mod Taking
pub mod Steps
pub mod FirstFit
pub mod Live
pub mod Given
pub mod Joining
pub mod Coalesce
pub mod Merged
pub mod Coalescing
pub mod Lookup
pub mod Freeing
pub mod Start
pub mod Sorted
pub mod Sound
pub mod Listing
pub mod Verdict
pub mod Accepted
pub mod Exact
pub mod Cleared
pub mod Zeroed
pub mod Reach
mod Tests
use termob_kernel.Base.{
  ℕ, zero, suc, ◌+◌, ◌-◌, ◌*◌, ◌/◌, ◌%◌, ◌^◌, Bool, true, false, not, ◌&&◌, ◌||◌, bit_and, bit_or,
  ltb, leb, ◌==◌, if◌then◌else◌,
}
use termob_kernel.Base.Words.{add32, sub32, not32}
use termob_kernel.Base.Arrays.{set, for_range}

abbrev pub heap_alignment : ℕ
heap_alignment = 16

abbrev pub heap_size_bytes : ℕ
heap_size_bytes = 1024 * 1024

abbrev pub block_magic : ℕ
block_magic = 0x48454150

abbrev pub flag_free : ℕ
flag_free = 1

-- sizeof(heap_block_t) is 28; TERMOB_HEAP_HEADER_SIZE rounds it up to a multiple of the alignment.
abbrev pub header_size : ℕ
header_size = 32

abbrev pub min_split_bytes : ℕ
min_split_bytes = 16

pub record HeapBlock : Type 0 where
  pub magic : ℕ
  pub flags : ℕ
  pub size_bytes : ℕ
  pub prev_phys : ℕ
  pub next_phys : ℕ
  pub prev_free : ℕ
  pub next_free : ℕ

-- The messages of `heap_note_error`, and "none".
pub data Message : Type 0 where
  no_error lookup_corrupt coalesce_corrupt alloc_corrupt invalid_pointer double_free : Message
  physical_loop invalid_block non_contiguous broken_prev_phys not_coalesced end_mismatch : Message
  free_list_loop invalid_free_block broken_prev_free free_list_order count_mismatch : Message
  rewalk_loop missing_block selftest_alloc selftest_reuse selftest_space : Message

-- TERMOB_HEAP_DIAG_…
abbrev pub diag_flag : Message → ℕ
diag_flag Message.no_error = 0
diag_flag Message.invalid_pointer = 1
diag_flag Message.double_free = 2
diag_flag Message.lookup_corrupt = 4
diag_flag Message.coalesce_corrupt = 4
diag_flag Message.alloc_corrupt = 4
diag_flag Message.selftest_alloc = 16
diag_flag Message.selftest_reuse = 16
diag_flag Message.selftest_space = 16
diag_flag _ = 8

pub record Heap : Type 0 where
  pub start_ptr : ℕ
  pub end_ptr : ℕ
  pub first_block : ℕ
  pub free_list : ℕ
  pub ready : Bool
  pub error_count : ℕ
  pub error_flags : ℕ
  pub last_error : Message
  pub blocks : ℕ → HeapBlock
  pub memory : ℕ → ℕ

unfoldable pub note_error : Heap → Message → Heap
note_error h message = record h {
  error_count = add32 h.error_count 1;
  error_flags = bit_or h.error_flags (diag_flag message);
  last_error = message;
}

abbrev pub payload_address : ℕ → ℕ
payload_address block = add32 block header_size

abbrev pub end_address : Heap → ℕ → ℕ
end_address h block = add32 (payload_address block) (h.blocks block).size_bytes

unfoldable pub is_free : HeapBlock → Bool
is_free b = not (bit_and b.flags flag_free == 0)

-- `heap_mark_block_free`, `heap_mark_block_used`
unfoldable pub mark_free : HeapBlock → HeapBlock
mark_free b = record b { flags = bit_or b.flags flag_free }

unfoldable pub mark_used : HeapBlock → HeapBlock
mark_used b = record b { flags = bit_and b.flags (not32 flag_free) }

-- The bits of the byte at `a`, if it is one of the `count` bytes from `dst` on, and else none.
abbrev pub written_byte : (dst count a : ℕ) → ℕ
written_byte dst count a = if ltb (sub32 a dst) count then 2 ^ 8 - 1 else 0

-- The same for the word at `a`, its first byte the lowest.
unfoldable pub written_word : (dst count a : ℕ) → ℕ
written_word dst count a =
    written_byte dst count a
    + written_byte dst count (add32 a 1) * 2 ^ 8
    + written_byte dst count (add32 a 2) * 2 ^ 16
    + written_byte dst count (add32 a 3) * 2 ^ 24

-- What zeros in those bytes leave of the word.
unfoldable pub clear_word : (dst count a w : ℕ) → ℕ
clear_word dst count a w =
    if written_word dst count a == 0 then w else bit_and w (not32 (written_word dst count a))

-- The header at `a`, its fields at their offsets.
unfoldable pub clear_header : (dst count a : ℕ) → HeapBlock → HeapBlock
clear_header dst count a b = record {
  magic = clear_word dst count a b.magic;
  flags = clear_word dst count (add32 a 4) b.flags;
  size_bytes = clear_word dst count (add32 a 8) b.size_bytes;
  prev_phys = clear_word dst count (add32 a 12) b.prev_phys;
  next_phys = clear_word dst count (add32 a 16) b.next_phys;
  prev_free = clear_word dst count (add32 a 20) b.prev_free;
  next_free = clear_word dst count (add32 a 24) b.next_free;
}

-- `heap_zero_bytes`: the bytes of the payloads and those of the headers that lie there.
unfoldable pub zero_bytes : Heap → (dst count : ℕ) → Heap
zero_bytes h dst count = record h {
  memory = for_range count 0 (λ i m. set m (add32 dst i) 0) h.memory;
  blocks = λ a. clear_header dst count a (h.blocks a);
}

unfoldable pub total_payload_bytes : Heap → ℕ
total_payload_bytes h =
    if not h.ready || leb h.end_ptr (add32 h.start_ptr header_size)
    then 0
    else sub32 (sub32 h.end_ptr h.start_ptr) header_size

abbrev pub pointer_within_region : Heap → ℕ → Bool
pointer_within_region h pointer = leb h.start_ptr pointer && ltb pointer h.end_ptr

-- `heap_max_walks`, the bound of the code's walks. It is the fuel of the loops that have none too.
unfoldable pub max_walks : Heap → ℕ
max_walks h =
    let total = sub32 h.end_ptr h.start_ptr in
    if total == 0 then 0 else add32 (total / heap_alignment) 1

unfoldable pub block_is_sane : Heap → ℕ → Bool
block_is_sane h block =
    if block == 0
    then false
    else if not (bit_and block (heap_alignment - 1) == 0)
    then false
    else if not (pointer_within_region h block) || ltb (payload_address block) block
    then false
    else if not ((h.blocks block).magic == block_magic)
    then false
    else if not (bit_and (h.blocks block).size_bytes (heap_alignment - 1) == 0)
    then false
    else not
        (ltb (end_address h block) (payload_address block) || ltb h.end_ptr (end_address h block))
