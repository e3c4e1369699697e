-- ===== src/Bootinfo.antt =====
-- src/kernel/core/bootinfo.c: the memory map that the boot loader hands over.
-- Memory is a function from the address to the byte there; reads are little-endian.
pub mod Valid
pub mod Parse
pub mod Terminates
mod Tests
use termob_kernel.Base.{
  ℕ, zero, suc, ◌+◌, ◌-◌, ◌*◌, ◌%◌, ◌^◌, Bool, true, false, not, ◌&&◌, ◌||◌, Option, none, some,
  ltb, leb, ◌==◌, if◌then◌else◌,
}
use termob_kernel.Base.Arrays.{set}
use termob_kernel.Base.Words.{add32, u32_max}
use termob_kernel.Base.Bits.{align_up}

abbrev pub Memory : Type 0
Memory = ℕ → ℕ

abbrev pub read32 : Memory → ℕ → ℕ
read32 m a = m a + m (add32 a 1) * 2 ^ 8 + m (add32 a 2) * 2 ^ 16 + m (add32 a 3) * 2 ^ 24

abbrev pub read64 : Memory → ℕ → ℕ
read64 m a = read32 m a + read32 m (add32 a 4) * 2 ^ 32

-- TERMOB_MULTIBOOT2_MAGIC, TERMOB_MEMORY_TYPE_AVAILABLE, TERMOB_BOOTINFO_MAX_MEMORY_RANGES
abbrev pub multiboot2_magic : ℕ
multiboot2_magic = 0x36d76289

abbrev pub memory_type_available : ℕ
memory_type_available = 1

abbrev pub max_memory_ranges : ℕ
max_memory_ranges = 64

pub record MmapEntry : Type 0 where
  pub addr : ℕ
  pub len : ℕ
  pub type : ℕ

pub record MemoryRange : Type 0 where
  pub base_addr : ℕ
  pub length : ℕ
  pub type : ℕ

pub record Bootinfo : Type 0 where
  pub ready : Bool
  pub info_address : ℕ
  pub info_size : ℕ
  pub ranges : ℕ → MemoryRange
  pub range_count : ℕ
  pub usable_bytes : ℕ
  pub highest_usable : ℕ

unfoldable pub reset : Bootinfo → Bootinfo
reset s = record s {
  ready = false;
  info_address = 0;
  info_size = 0;
  range_count = 0;
  usable_bytes = 0;
  highest_usable = 0;
}

-- The end of the entry, cut off at 4 GiB: `capped_end_address`.
unfoldable pub capped_end : MmapEntry → ℕ
capped_end e =
    let end_address = (e.addr + e.len) % 2 ^ 64 in
    if ltb end_address e.addr || ltb (2 ^ 32) end_address then 2 ^ 32 else end_address

-- `(uint32_t)(capped_end_address - entry->addr)`; the capped end is at least `addr` here.
unfoldable pub capped_length : MmapEntry → ℕ
capped_length e = (capped_end e + 2 ^ 64 - e.addr) % 2 ^ 64 % 2 ^ 32

-- The counters of usable memory, for an entry of the given length.
unfoldable pub count_available : Bootinfo → MmapEntry → ℕ → Bootinfo
count_available s e length =
    if e.type == memory_type_available
    then record s {
      usable_bytes =
          if ltb (u32_max - length) s.usable_bytes then u32_max else s.usable_bytes + length;
      highest_usable =
          let last = (capped_end e - 1) % 2 ^ 32 in
          if ltb s.highest_usable last then last else s.highest_usable;
    }
    else s

unfoldable pub append_range : Bootinfo → MemoryRange → Bootinfo
append_range s r = record s {
  ranges = set s.ranges s.range_count r;
  range_count = s.range_count + 1;
}

unfoldable pub store_memory_range : Bootinfo → MmapEntry → Bootinfo
store_memory_range s e =
    if leb max_memory_ranges s.range_count
    then s
    else if (e.len == 0) || leb (2 ^ 32) e.addr
    then s
    else if capped_length e == 0
    then s
    else count_available
        (append_range s
          (record { base_addr = e.addr % 2 ^ 32; length = capped_length e; type = e.type }))
        e (capped_length e)

-- A loop on fuel returns the state beside a flag that says whether the fuel was enough.
abbrev pub Looped : Type 0
Looped = Bool × Bootinfo

abbrev pub read_entry : Memory → ℕ → MmapEntry
read_entry m a = record {
  addr = read64 m a;
  len = read64 m (add32 a 8);
  type = read32 m (add32 a 16);
}

-- while (entry_cursor + entry_size <= tag_end) { store; entry_cursor += entry_size; }
unfoldable pub entry_loop : ℕ → Memory → (entry_size cursor tag_end : ℕ) → Bootinfo → Looped
entry_loop zero m entry_size cursor tag_end s = (false, s)
entry_loop (suc fuel) m entry_size cursor tag_end s = elim (leb (add32 cursor entry_size) tag_end) [
  | true ↦
      entry_loop fuel m entry_size (add32 cursor entry_size) tag_end
        (store_memory_range s (read_entry m cursor))
  | false ↦ (true, s)
]

-- One tag of type 6, the memory map; any other type leaves the state alone.
unfoldable pub handle_tag : ℕ → Memory → ℕ → Bootinfo → Looped
handle_tag fuel m tag s =
    if (read32 m tag == 6) && leb 24 (read32 m (add32 tag 8))
    then entry_loop fuel m (read32 m (add32 tag 8)) (add32 tag 16)
        (add32 tag (read32 m (add32 tag 4))) s
    else (true, s)

unfoldable pub tag_loop : ℕ → Memory → (tag info_end : ℕ) → Bootinfo → Looped
tag_loop zero m tag info_end s = (false, s)
tag_loop (suc fuel) m tag info_end s =
    elim (leb (add32 tag 8) info_end && not (read32 m tag == 0)) [
      | false ↦ (true, s)
      | true ↦
          let (done, s') = handle_tag fuel m tag s in
          elim (done && leb 8 (read32 m (add32 tag 4))) [
            | false ↦ (done, s')
            | true ↦ tag_loop fuel m (align_up (add32 tag (read32 m (add32 tag 4))) 8) info_end s'
          ]
    ]

unfoldable pub mark_ready : Looped → Looped
mark_ready (done, s) = (done, if not (s.range_count == 0) then record s { ready = true } else s)

unfoldable pub init : ℕ → Memory → (magic info_addr : ℕ) → Bootinfo → Looped
init fuel m magic info_addr old =
    let s = reset old in
    if not (magic == multiboot2_magic) || (info_addr == 0) || ltb (read32 m info_addr) 8
    then (true, s)
    else mark_ready (
        tag_loop fuel m (add32 info_addr 8) (add32 info_addr (read32 m info_addr))
          (record s { info_address = info_addr; info_size = read32 m info_addr }))

-- `none` is the return value 0.
abbrev pub memory_range_at : Bootinfo → ℕ → Option MemoryRange
memory_range_at s index =
    if not s.ready || leb s.range_count index then none else some (s.ranges index)
