-- ===== src/Bootinfo/Parse.antt =====
-- Parsing the boot loader's structure: the loops keep the map valid, and they end.
use termob_kernel.Base.{
  ℕ, zero, suc, ◌^◌, ◌<◌, ◌≡◌, refl, ◌∙◌, true, false, inl, inr, arith, ltb, leb, ◌==◌, not, ◌&&◌,
  ◌||◌, Bool-cases,
}
use termob_kernel.Base.Words.{add32}
use termob_kernel.Bootinfo.{
  Memory, MmapEntry, Bootinfo, count_available, append_range, store_memory_range, read_entry,
  read32, entry_loop, handle_tag, tag_loop, init, reset, mark_ready, read64, multiboot2_magic,
  Looped,
}
use termob_kernel.Bootinfo.Valid.{IsValid, IsEntry, available_bytes, store_memory_range-IsValid}

-- Memory holds bytes.
abbrev pub IsBytes : Memory → Type 0
IsBytes m = (a : ℕ) → m a < 256

read32-lt : (m : Memory) (a : ℕ) → IsBytes m → read32 m a < 2 ^ 32
read32-lt m a h = omega (arith, h a, h (add32 a 1), h (add32 a 2), h (add32 a 3))

read64-lt : (m : Memory) (a : ℕ) → IsBytes m → read64 m a < 2 ^ 64
read64-lt m a h = omega (arith, read32-lt m a h, read32-lt m (add32 a 4) h)

read_entry-IsEntry : (m : Memory) (a : ℕ) → IsBytes m → IsEntry (read_entry m a)
read_entry-IsEntry m a h = record {
  addr_word = read64-lt m a h;
  len_word = read64-lt m (add32 a 8) h;
}

-- What every store keeps, the parsing loops keep.
module _ {m : Memory} (P : Bootinfo → Type 0)
    (keep : (s : Bootinfo) (e : MmapEntry) → IsEntry e → P s → P (store_memory_range s e))
    (bytes : IsBytes m) where
  entry_loop_inv :
      (fuel entry_size cursor tag_end : ℕ) (s : Bootinfo)
      → P s
      → P (entry_loop fuel m entry_size cursor tag_end s).1
  unfolding entry_loop
  entry_loop_inv zero entry_size cursor tag_end s v = v
  entry_loop_inv (suc fuel) entry_size cursor tag_end s v =
      elim (Bool-cases (leb (add32 cursor entry_size) tag_end)) [
        | inl more ↦
            rw (more, entry_loop)
              (entry_loop_inv fuel entry_size (add32 cursor entry_size) tag_end _
                (keep s (read_entry m cursor) (read_entry-IsEntry m cursor bytes) v))
        | inr done ↦ rw (done, entry_loop) v
      ]

  handle_tag_inv : (fuel tag : ℕ) (s : Bootinfo) → P s → P (handle_tag fuel m tag s).1
  unfolding handle_tag
  handle_tag_inv fuel tag s v =
      elim (Bool-cases ((read32 m tag == 6) && leb 24 (read32 m (add32 tag 8)))) [
        | inl map ↦ rw map (entry_loop_inv fuel _ _ _ s v)
        | inr other ↦ rw other v
      ]

  tag_loop_inv : (fuel tag info_end : ℕ) (s : Bootinfo) → P s → P (tag_loop fuel m tag info_end s).1
  unfolding tag_loop
  tag_loop_inv zero tag info_end s v = v
  tag_loop_inv (suc fuel) tag info_end s v =
      elim (Bool-cases (leb (add32 tag 8) info_end && not (read32 m tag == 0))) [
        | inl more ↦
            rw (more, tag_loop)
              (elim (Bool-cases ((handle_tag fuel m tag s).0 && leb 8 (read32 m (add32 tag 4)))) [
                | inl next ↦
                    rw (next, tag_loop)
                      (tag_loop_inv fuel _ info_end _ (handle_tag_inv fuel tag s v))
                | inr stop ↦ rw (stop, tag_loop) (handle_tag_inv fuel tag s v)
              ])
        | inr done ↦ rw (done, tag_loop) v
      ]

-- Nothing but the end of `bootinfo_init` sets the flag.
abbrev Parsed : Bootinfo → Type 0
Parsed s = IsValid s × (s.ready ≡ false)

ready-store_memory_range : (s : Bootinfo) (e : MmapEntry) → (store_memory_range s e).ready ≡ s.ready
unfolding store_memory_range count_available append_range
ready-store_memory_range s e = ground arith

store_memory_range-Parsed :
    (s : Bootinfo) (e : MmapEntry) → IsEntry e → Parsed s → Parsed (store_memory_range s e)
store_memory_range-Parsed s e w (v, off) =
    (store_memory_range-IsValid e v w, ready-store_memory_range s e ∙ off)

abbrev Finished : Bootinfo → Type 0
Finished s = IsValid s × (s.ready ≡ true → 0 < s.range_count)

mark_ready-Finished : (r : Looped) → Parsed r.1 → Finished (mark_ready r).1
unfolding mark_ready
mark_ready-Finished (done, s) (v, off) = elim (Bool-cases (s.range_count == 0)) [
  | inl none_found ↦ rw none_found (v, λ e. cc)
  | inr found ↦ rw found (
    record {
      bounded = v.bounded;
      in_4g = v.in_4g;
      nonempty = v.nonempty;
      covered = v.covered;
      attained = v.attained;
      word = v.word;
      usable = v.usable;
    },
    λ e. ground arith,
  )
]

empty-Parsed :
    (s : Bootinfo) (a n : ℕ) → Parsed (record (reset s) { info_address = a; info_size = n })
unfolding reset available_bytes
empty-Parsed s a n = (
  record {
    bounded = omega arith;
    in_4g = λ i h. absurd (omega arith);
    nonempty = λ i h. absurd (omega arith);
    covered = λ i h t. absurd (omega arith);
    attained = inl refl;
    word = omega arith;
    usable = omega arith;
  },
  refl,
)

-- After `bootinfo_init`, whatever the boot loader's structure holds and however far it was read, the
-- map has at most 64 ranges, none empty and all below 4 GiB; the highest usable address is that of the
-- last byte of the available ranges, 0 without any, and the usable bytes are their sum, held below
-- 4 GiB. The map is marked ready only if it has a range.
pub init-IsValid :
    {m : Memory} (fuel magic info_addr : ℕ) (old : Bootinfo)
    → IsBytes m
    → IsValid (init fuel m magic info_addr old).1
      × ((init fuel m magic info_addr old).1.ready ≡ true
          → 0 < (init fuel m magic info_addr old).1.range_count)
unfolding init reset
init-IsValid {m} fuel magic info_addr old bytes =
    elim (Bool-cases
      (not (magic == multiboot2_magic) || (info_addr == 0) || ltb (read32 m info_addr) 8)) [
        | inl bad ↦ rw bad (let (v, off) = empty-Parsed old 0 0 in (v, λ e. cc))
        | inr good ↦ rw good (
            mark_ready-Finished _ (
              tag_loop_inv Parsed store_memory_range-Parsed bytes fuel _ _ _
                (empty-Parsed old _ _)))
      ]
