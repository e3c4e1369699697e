-- ===== src/Bootinfo/Tests.antt =====
-- A boot structure with one memory map of one range, and instances of the theorems at it.
use termob_kernel.Base.{
  ◌+◌, ◌^◌, ◌<◌, ◌≡◌, refl, true, false, some, inl, arith, leb, ltb, ◌==◌, ◌&&◌, if◌then◌else◌,
}
use termob_kernel.Base.Bits.{align_up}
use termob_kernel.Bootinfo.{
  Memory, MmapEntry, Bootinfo, read32, multiboot2_magic, store_memory_range, init, reset, tag_loop,
  handle_tag, entry_loop, mark_ready, count_available, append_range, capped_end, capped_length,
  memory_range_at,
}
use termob_kernel.Bootinfo.Valid.{IsValid, available_bytes, store_memory_range-whole}
use termob_kernel.Bootinfo.Parse.{IsBytes, init-IsValid}
use termob_kernel.Bootinfo.Terminates.{Tags, init-terminates}

-- 64 bytes at 0x100: a map tag of 40 bytes whose entry is 1 MiB of available memory at 1 MiB, and a tag
-- of 16 bytes with a command line.
abbrev memory : Memory
memory a =
    if a == 0x100
    then 64
    else if a == 0x108
    then 6
    else if a == 0x10c
    then 40
    else if a == 0x110
    then 24
    else if a == 0x11a
    then 0x10
    else if a == 0x122
    then 0x10
    else if a == 0x128
    then 1
    else if a == 0x130
    then 1
    else if a == 0x134
    then 16
    else if leb 0x138 a && ltb a 0x13f
    then 0x61
    else 0

memory-IsBytes : IsBytes memory
memory-IsBytes a = ground arith

abbrev unset : Bootinfo
unset = record {
  ready = false;
  info_address = 0;
  info_size = 0;
  ranges = λ i. record { base_addr = 0; length = 0; type = 0 };
  range_count = 0;
  usable_bytes = 0;
  highest_usable = 0;
}

unset-IsValid : IsValid unset
unfolding available_bytes
unset-IsValid = record {
  bounded = omega arith;
  in_4g = λ i h. absurd (omega arith);
  nonempty = λ i h. absurd (omega arith);
  covered = λ i h t. absurd (omega arith);
  attained = inl refl;
  word = omega arith;
  usable = omega arith;
}

abbrev booted : Bootinfo
booted = (init 10 memory multiboot2_magic 0x100 unset).1

booted_range :
    memory_range_at booted 0 ≡ some (record { base_addr = 0x100000; length = 0x100000; type = 1 })
unfolding init reset tag_loop handle_tag entry_loop mark_ready count_available append_range
    store_memory_range capped_end capped_length align_up
booted_range = refl

abbrev entry : MmapEntry
entry = record { addr = 0x100000; len = 0x100000; type = 1 }

store_memory_range-whole_example :
    store_memory_range unset (record { addr = 0; len = 2 ^ 33; type = 1 }) ≡ unset
store_memory_range-whole_example =
    store_memory_range-whole unset (record { addr = 0; len = 2 ^ 33; type = 1 }) refl (omega arith)
      (omega arith)

init-IsValid_example : IsValid booted × (booted.ready ≡ true → 0 < booted.range_count)
init-IsValid_example = init-IsValid 10 multiboot2_magic 0x100 unset memory-IsBytes

memory-Tags : Tags memory (0x100 + read32 memory 0x100) (0x100 + 8)
unfolding align_up
memory-Tags =
    Tags.next (omega arith) (omega arith) (omega arith) (λ map. omega arith)
      (Tags.next (omega arith) (omega arith) (omega arith) (λ map. absurd (omega arith))
        (Tags.last (inl (omega arith))))

init-terminates_example :
    (init (0x100 + read32 memory 0x100 + 1) memory multiboot2_magic 0x100 unset).0 ≡ true
init-terminates_example =
    init-terminates memory multiboot2_magic 0x100 unset (omega arith) memory-Tags
