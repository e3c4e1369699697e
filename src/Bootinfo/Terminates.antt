-- ===== src/Bootinfo/Terminates.antt =====
-- The parsing loops end on a structure whose tags stay inside it.
use termob_kernel.Base.{
  ℕ, zero, suc, ◌+◌, ◌^◌, ◌≤◌, ◌<◌, ◌≡◌, refl, ◌∙◌, Bool, true, false, not, ◌&&◌, ◌⊎◌, inl, inr,
  arith, leb, leb→le, ltb, ◌||◌, ◌==◌, Bool-cases,
}
use termob_kernel.Base.Words.{add32}
use termob_kernel.Base.Bits.{align_up, align_up_eight}
use termob_kernel.Bootinfo.{
  Memory, Bootinfo, read32, entry_loop, handle_tag, tag_loop, init, reset, mark_ready,
  multiboot2_magic, Looped,
}

module _ (m : Memory) where
  abbrev tag_size : ℕ → ℕ
  tag_size tag = read32 m (add32 tag 4)

  -- A chain of tags from `tag` on: each lies inside the structure, one that is a memory map has
  -- entries that are no larger than itself, and the last is an end tag or the end of the structure.
  pub data Tags (info_end : ℕ) : ℕ → Type 0 where
    last : {tag : ℕ} → (info_end < tag + 8) ⊎ (read32 m tag ≡ 0) → Tags info_end tag
    next :
        {tag : ℕ}
        → tag + 8 ≤ info_end
        → 8 ≤ tag_size tag
        → tag + tag_size tag ≤ info_end
        → (read32 m tag ≡ 6 → read32 m (add32 tag 8) ≤ tag_size tag)
        → Tags info_end (align_up (add32 tag (tag_size tag)) 8)
        → Tags info_end tag

  entry_loop_ends :
      (fuel entry_size cursor tag_end : ℕ) (s : Bootinfo)
      → 0 < entry_size
      → cursor + entry_size < 2 ^ 32
      → tag_end + entry_size < 2 ^ 32
      → 0 < fuel
      → tag_end < cursor + fuel
      → (entry_loop fuel m entry_size cursor tag_end s).0 ≡ true
  unfolding entry_loop
  entry_loop_ends zero entry_size cursor tag_end s pos c t f g = absurd (omega arith)
  entry_loop_ends (suc fuel) entry_size cursor tag_end s pos c t f g =
      elim (Bool-cases (leb (add32 cursor entry_size) tag_end)) [
        | inl more ↦
            let e : add32 cursor entry_size ≡ cursor + entry_size = omega arith in
            let le : add32 cursor entry_size ≤ tag_end = leb→le _ _ more in
            rw (more, entry_loop)
              (entry_loop_ends fuel entry_size (add32 cursor entry_size) tag_end _ pos (omega arith)
                t (omega arith) (omega arith))
        | inr done ↦ rw (done, entry_loop)
      ]

  handle_tag_ends :
      (fuel tag : ℕ) (s : Bootinfo)
      → tag + tag_size tag < 2 ^ 31
      → (read32 m tag ≡ 6 → read32 m (add32 tag 8) ≤ tag_size tag)
      → 0 < fuel
      → tag_size tag ≤ fuel
      → (handle_tag fuel m tag s).0 ≡ true
  unfolding handle_tag
  handle_tag_ends fuel tag s small entry pos enough =
      elim (Bool-cases ((read32 m tag == 6) && leb 24 (read32 m (add32 tag 8)))) [
        | inl map ↦
            let entries : read32 m (add32 tag 8) ≤ tag_size tag = entry (ground arith) in
            let large : 24 ≤ read32 m (add32 tag 8) = ground arith in
            rw map (
              entry_loop_ends fuel (read32 m (add32 tag 8)) (add32 tag 16)
                (add32 tag (tag_size tag)) s (omega arith) (omega arith) (omega arith) pos
                (omega arith))
        | inr other ↦ rw other
      ]

  -- The fuel `info_end + 1` is enough for a structure of such tags below 2 GiB.
  tag_loop_ends :
      {info_end : ℕ} (fuel tag : ℕ) (s : Bootinfo)
      → info_end < 2 ^ 31
      → Tags info_end tag
      → tag < 2 ^ 31 + 8
      → 0 < fuel
      → info_end < tag + fuel
      → (tag_loop fuel m tag info_end s).0 ≡ true
  unfolding tag_loop
  tag_loop_ends zero tag s below chain t pos f = absurd (omega arith)
  tag_loop_ends {info_end} (suc fuel) tag s below (last stop) t pos f =
      let out : (leb (add32 tag 8) info_end && not (read32 m tag == 0)) ≡ false = ground arith in
      rw (out, tag_loop)
  tag_loop_ends {info_end} (suc fuel) tag s below (next room size inside entry rest) t pos f =
      elim (Bool-cases (leb (add32 tag 8) info_end && not (read32 m tag == 0))) [
        | inl more ↦
            let ends = handle_tag_ends fuel tag s (omega arith) entry (omega arith) (omega arith) in
            let go_on : ((handle_tag fuel m tag s).0 && leb 8 (tag_size tag)) ≡ true =
              rw ends (ground arith) in
            let up = align_up_eight (add32 tag (tag_size tag)) in
            rw (more, go_on, tag_loop)
              (tag_loop_ends fuel (align_up (add32 tag (tag_size tag)) 8) _ below rest
                (omega (arith, up)) (omega arith) (omega (arith, up)))
        | inr done ↦ rw (done, tag_loop)
      ]

done-mark_ready : (r : Looped) → (mark_ready r).0 ≡ r.0
unfolding mark_ready
done-mark_ready (done, s) = refl

-- On a structure below 2 GiB whose tags lie one behind the other inside it, a memory map among them
-- with entries no larger than the tag, `bootinfo_init` ends: fuel beyond its last byte is never used up.
pub init-terminates :
    (m : Memory) (magic info_addr : ℕ) (old : Bootinfo)
    → info_addr + read32 m info_addr < 2 ^ 31
    → Tags m (info_addr + read32 m info_addr) (info_addr + 8)
    → (init (info_addr + read32 m info_addr + 1) m magic info_addr old).0 ≡ true
unfolding init mark_ready
init-terminates m magic info_addr old below tags = elim (Bool-cases bad) [
  | inl e ↦ rw e
  | inr e ↦
      rw (e, first, stop)
        (done-mark_ready (
            tag_loop (info_addr + read32 m info_addr + 1) m (info_addr + 8)
              (info_addr + read32 m info_addr) started)
          ∙ tag_loop_ends m (info_addr + read32 m info_addr + 1) (info_addr + 8) started below tags
              (omega arith) (omega arith) (omega arith))
]
  where
    started : Bootinfo
    started = record (reset old) { info_address = info_addr; info_size = read32 m info_addr }

    bad : Bool
    bad = not (magic == multiboot2_magic) || (info_addr == 0) || ltb (read32 m info_addr) 8

    first : add32 info_addr 8 ≡ info_addr + 8
    first = omega arith

    stop : add32 info_addr (read32 m info_addr) ≡ info_addr + read32 m info_addr
    stop = omega arith
