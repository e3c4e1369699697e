-- ===== src/Heap/Sound.antt =====
-- What the walks of `heap_check_integrity_internal` establish: a heap that passes them is sound.
use mathlib.Core.Path.{subst}
use termob_kernel.Base.{
  ℕ, zero, suc, ◌+◌, ◌-◌, ◌%◌, ◌^◌, ◌≤◌, ◌<◌, ◌≡◌, refl, sym, ap, ◌∙◌, Bool, true, false, not, ◌&&◌,
  arith, List, [], ◌∷◌, ◌==◌, Bool-cases, inl, inr, if◌then◌else◌,
}
use termob_kernel.Base.Bits.{bit_and_fifteen}
use termob_kernel.Base.Words.{add32}
use termob_kernel.Base.Lists.{length}
use termob_kernel.Heap.{Heap, is_free, block_is_sane, end_address}
use termob_kernel.Heap.Integrity.{Walked, physical_walk}
use termob_kernel.Heap.Linked.{first_of, Linked}
use termob_kernel.Heap.Tiling.{Cell, behind, end_of, addresses, frees, IsCell, Holds, Coalesced}
use termob_kernel.Heap.Splitting.{cell}

-- The sizes in the headers are words.
abbrev pub SizesAreWords : Heap → Type 0
SizesAreWords h = (a : ℕ) → (h.blocks a).size_bytes < 2 ^ 32

-- What a block that passes the code's test is.
record IsSane (h : Heap) (b : ℕ) : Type 0 where
  some_block : 0 < b
  low : h.start_ptr ≤ b
  aligned : b % 16 ≡ 0
  stop : b + 32 + (h.blocks b).size_bytes ≤ h.end_ptr
  cell : IsCell (h.blocks b) (cell (h.blocks b).size_bytes (is_free (h.blocks b)))
  end : end_address h b ≡ b + 32 + (h.blocks b).size_bytes

block_is_sane-IsSane :
    (h : Heap) (b : ℕ)
    → h.end_ptr < 2 ^ 32
    → (h.blocks b).size_bytes < 2 ^ 32
    → block_is_sane h b ≡ true
    → IsSane h b
unfolding block_is_sane
block_is_sane-IsSane h b fits word sane = record {
  some_block = ground arith;
  low = ground arith;
  aligned = ground (arith, bit_and_fifteen b);
  stop = ground arith;
  cell = record {
    magic = ground arith;
    free = refl;
    size = refl;
    aligned = ground (arith, bit_and_fifteen (h.blocks b).size_bytes);
  };
  end = ground arith;
}

-- The cells that the first walk has seen.
pub record PhysChain (h : Heap) (block prev expected count e n : ℕ) : Type 0 where
  pub cells : List Cell
  pub holds : Holds h.blocks expected cells
  pub linked :
      Linked
        (λ a. (h.blocks a).prev_phys)
        (λ a. (h.blocks a).next_phys)
        prev
        (addresses expected cells)
  pub head : block ≡ first_of (addresses expected cells) 0
  pub stop : end_of expected cells ≡ e
  pub counted : n ≡ count + length (frees expected cells)
  pub coalesced : Coalesced cells
  pub aligned : 0 < length cells → (expected % 16 ≡ 0) × (0 < expected)

abbrev pub PhysWalked : Heap → (block prev expected count : ℕ) → Walked → Type 0
PhysWalked h block prev expected count (Walked.fails message) = Unit
PhysWalked h block prev expected count (Walked.ends e n) = PhysChain h block prev expected count e n

no_cells :
    (h : Heap) (block prev expected count : ℕ)
    → block ≡ 0
    → PhysChain h block prev expected count expected count
no_cells h block prev expected count e = record {
  cells = [];
  holds = tt;
  linked = tt;
  head = e;
  stop = refl;
  counted = omega arith;
  coalesced = tt;
  aligned = λ some_cell. absurd (omega arith);
}

-- A free cell in front of others of which the first is in use.
Coalesced-cons :
    (h : Heap) (c : Cell) (at : ℕ) (cs : List Cell) (next : ℕ)
    → Coalesced cs
    → 0 < at
    → Holds h.blocks at cs
    → next ≡ first_of (addresses at cs) 0
    → (c.free && (not (next == 0) && is_free (h.blocks next))) ≡ false
    → Coalesced (c ∷ cs)
Coalesced-cons h c at [] next apart some_address holds e test = tt
Coalesced-cons h c at (d ∷ ds) next apart some_address (cell, holds) e test =
    let flag : is_free (h.blocks next) ≡ d.free = ap (λ x. is_free (h.blocks x)) e ∙ cell.free in
    (ground arith, apart)

one_more :
    (h : Heap) (block prev count : ℕ) (r : Walked)
    → IsSane h block
    → (h.blocks block).prev_phys ≡ prev
    → (is_free (h.blocks block)
        && (not ((h.blocks block).next_phys == 0) && is_free (h.blocks (h.blocks block).next_phys)))
      ≡ false
    → count < 2 ^ 32 - 1
    → PhysWalked h
        (h.blocks block).next_phys
        block
        (end_address h block)
        (if is_free (h.blocks block) then add32 count 1 else count)
        r
    → PhysWalked h block prev block count r
one_more h block prev count (Walked.fails message) sane back test small p = tt
one_more h block prev count (Walked.ends e n) sane back test small p =
    let c : Cell = cell (h.blocks block).size_bytes (is_free (h.blocks block)) in
    let place : end_address h block ≡ behind block c = sane.end in
    record {
      cells = c ∷ p.cells;
      holds = (sane.cell, subst (λ a. Holds h.blocks a p.cells) place p.holds);
      linked = (
        back,
        p.head ∙ ap (λ a. first_of (addresses a p.cells) 0) place,
        subst
            (λ a.
              Linked (λ x. (h.blocks x).prev_phys) (λ x. (h.blocks x).next_phys) block
                (addresses a p.cells))
            place p.linked,
      );
      head = refl;
      stop = ap (λ a. end_of a p.cells) (sym place) ∙ p.stop;
      counted =
          let moved = ap (λ a. length (frees a p.cells)) place in
          elim (Bool-cases (is_free (h.blocks block))) [
            | inl free ↦ ground (arith, p.counted, moved)
            | inr used ↦ ground (arith, p.counted, moved)
          ];
      coalesced =
          Coalesced-cons h c (end_address h block) p.cells (h.blocks block).next_phys p.coalesced
            (omega (arith, place)) p.holds p.head test;
      aligned = λ some_cell. (sane.aligned, sane.some_block);
    }

pub physical_walk-PhysWalked :
    (h : Heap) (walks block prev expected count : ℕ)
    → h.end_ptr < 2 ^ 32
    → SizesAreWords h
    → count + walks < 2 ^ 32
    → PhysWalked h block prev expected count (physical_walk h walks block prev expected count)
unfolding physical_walk
physical_walk-PhysWalked h zero block prev expected count fits words small =
    elim (Bool-cases (block == 0)) [
      | inl z ↦ rw z (no_cells h block prev expected count (ground arith))
      | inr more ↦ rw more tt
    ]
physical_walk-PhysWalked h (suc walks) block prev expected count fits words small =
    let free : Bool = is_free (h.blocks block) in
    let next : ℕ = (h.blocks block).next_phys in
    let later : Walked =
      physical_walk h walks next block (end_address h block)
        (if free then add32 count 1 else count) in
    let rest =
      physical_walk-PhysWalked h walks next block (end_address h block)
        (if free then add32 count 1 else count) fits words (ground arith) in
    elim (Bool-cases (block == 0)) [
      | inl z ↦ rw z (no_cells h block prev expected count (ground arith))
      | inr more ↦ elim (Bool-cases (block_is_sane h block)) [
        | inr bad ↦ rw (more, bad) tt
        | inl good ↦ elim (Bool-cases (block == expected)) [
          | inr off ↦ rw (more, good, off) tt
          | inl at ↦ elim (Bool-cases ((h.blocks block).prev_phys == prev)) [
            | inr broken ↦ rw (more, good, at, broken) tt
            | inl back ↦ elim (Bool-cases (free && (not (next == 0) && is_free (h.blocks next)))) [
              | inl side ↦ rw (more, good, at, back, side) tt
              | inr apart ↦
                  let e : expected ≡ block = ground arith in
                  let sane = block_is_sane-IsSane h block fits (words block) good in
                  let more' =
                    one_more h block prev count later sane (ground arith) apart (omega arith)
                      rest in
                  rw (more, good, at, back, apart)
                    (subst (λ x. PhysWalked h block prev x count later) (sym e) more')
            ]
          ]
        ]
      ]
    ]
