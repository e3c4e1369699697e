-- ===== src/Heap/Cleared.antt =====
-- Clearing the payload of a block in use leaves the headers of all blocks as they are.
use mathlib.Core.Path.{subst}
use termob_kernel.Base.{
  ℕ, ◌+◌, ◌^◌, ◌≤◌, ◌<◌, ◌≡◌, ◌⊎◌, inl, inr, refl, sym, ap, ◌∙◌, false, arith, List, [], ◌∷◌, ltb,
  Bool-cases,
}
use termob_kernel.Base.Words.{add32, sub32}
use termob_kernel.Heap.{Heap, HeapBlock, clear_word, written_word, clear_header, zero_bytes}
use termob_kernel.Heap.Linked.{Linked}
use termob_kernel.Heap.Tiling.{
  Cell, behind, end_of, addresses, frees, le-end_of, IsCell, Holds, IsHeap,
}
use termob_kernel.Heap.Live.{Live, Live-low, Live-high}

-- A header has the same content in two stores, at each of the addresses.
abbrev Same : (m m' : ℕ → HeapBlock) → List ℕ → Type 0
Same m m' [] = Unit
Same m m' (a ∷ nodes) = (m' a ≡ m a) × Same m m' nodes

untouched :
    (dst count a w : ℕ)
    → (a + 4 ≤ dst) ⊎ (dst + count ≤ a)
    → dst + count < 2 ^ 32
    → a + 4 < 2 ^ 32
    → clear_word dst count a w ≡ w
unfolding clear_word written_word
untouched dst count a w (inl front) fits fits' =
    let b0 : ltb (sub32 a dst) count ≡ false = ground arith in
    let b1 : ltb (sub32 (add32 a 1) dst) count ≡ false = ground arith in
    let b2 : ltb (sub32 (add32 a 2) dst) count ≡ false = ground arith in
    let b3 : ltb (sub32 (add32 a 3) dst) count ≡ false = ground arith in rw (b0, b1, b2, b3) refl
untouched dst count a w (inr back) fits fits' =
    let b0 : ltb (sub32 a dst) count ≡ false = ground arith in
    let b1 : ltb (sub32 (add32 a 1) dst) count ≡ false = ground arith in
    let b2 : ltb (sub32 (add32 a 2) dst) count ≡ false = ground arith in
    let b3 : ltb (sub32 (add32 a 3) dst) count ≡ false = ground arith in rw (b0, b1, b2, b3) refl

untouched_field :
    (dst count a k w : ℕ)
    → (a + 32 ≤ dst) ⊎ (dst + count ≤ a)
    → dst + count < 2 ^ 32
    → a + 32 < 2 ^ 32
    → k ≤ 24
    → clear_word dst count (add32 a k) w ≡ w
untouched_field dst count a k w apart fits fits' small =
    let at : add32 a k ≡ a + k = omega arith in
    ap (λ x. clear_word dst count x w) at
    ∙ untouched dst count (a + k) w
        (elim apart [ inl front ↦ inl (omega arith) | inr back ↦ inr (omega arith) ]) fits
        (omega arith)

clear_header-same :
    (dst count a : ℕ) (b : HeapBlock)
    → (a + 32 ≤ dst) ⊎ (dst + count ≤ a)
    → dst + count < 2 ^ 32
    → a + 32 < 2 ^ 32
    → clear_header dst count a b ≡ b
unfolding clear_header
clear_header-same dst count a b apart fits fits' =
    let field : (k w : ℕ) → k ≤ 24 → clear_word dst count (add32 a k) w ≡ w =
      λ k w small. untouched_field dst count a k w apart fits fits' small in
    let first : clear_word dst count a b.magic ≡ b.magic =
      untouched dst count a b.magic
        (elim apart [ inl front ↦ inl (omega arith) | inr back ↦ inr back ]) fits (omega arith) in
    rw
      (
        first,
        field 4 b.flags (omega arith),
        field 8 b.size_bytes (omega arith),
        field 12 b.prev_phys (omega arith),
        field 16 b.next_phys (omega arith),
        field 20 b.prev_free (omega arith),
        field 24 b.next_free (omega arith),
      )
      refl

-- The store after zeros to the bytes.
abbrev cleared : (ℕ → HeapBlock) → (dst count : ℕ) → ℕ → HeapBlock
cleared m dst count a = clear_header dst count a (m a)

module _ (m : ℕ → HeapBlock) (dst count : ℕ) (fits : dst + count < 2 ^ 32) where
  Same-behind :
      (at : ℕ) (cs : List Cell)
      → dst + count ≤ at
      → end_of at cs < 2 ^ 32
      → Same m (cleared m dst count) (addresses at cs)
  Same-behind at [] behind_all bound = tt
  Same-behind at (c ∷ cs) behind_all bound =
      let inside = le-end_of (behind at c) cs in
      (
        clear_header-same dst count at (m at) (inr behind_all) fits (omega arith),
        Same-behind (behind at c) cs (omega arith) bound,
      )

  Same-Live :
      (at : ℕ) (cs : List Cell) (b room : ℕ)
      → Live at cs b room
      → dst ≡ b + 32
      → count ≤ room
      → end_of at cs < 2 ^ 32
      → Same m (cleared m dst count) (addresses at cs)
  Same-Live at [] b room live place le bound = absurd live
  Same-Live at (c ∷ cs) b room (inl (used, e, z)) place le bound =
      let inside = le-end_of (behind at c) cs in
      (
        clear_header-same dst count at (m at) (inl (omega arith)) fits (omega arith),
        Same-behind (behind at c) cs (omega arith) bound,
      )
  Same-Live at (c ∷ cs) b room (inr live) place le bound =
      let inside = le-end_of (behind at c) cs in
      let low = Live-low (behind at c) cs b room live in
      (
        clear_header-same dst count at (m at) (inl (omega arith)) fits (omega arith),
        Same-Live (behind at c) cs b room live place le bound,
      )

module _ (m m' : ℕ → HeapBlock) where
  Holds-Same :
      (at : ℕ) (cs : List Cell) → Same m m' (addresses at cs) → Holds m at cs → Holds m' at cs
  Holds-Same at [] same h = tt
  Holds-Same at (c ∷ cs) (here, same) (cell, h) =
      (subst (λ b. IsCell b c) (sym here) cell, Holds-Same (behind at c) cs same h)

  Linked-Same :
      (prev next : HeapBlock → ℕ) (before : ℕ) (nodes : List ℕ)
      → Same m m' nodes
      → Linked (λ a. prev (m a)) (λ a. next (m a)) before nodes
      → Linked (λ a. prev (m' a)) (λ a. next (m' a)) before nodes
  Linked-Same prev next before [] same h = tt
  Linked-Same prev next before (a ∷ nodes) (here, same) (p, n, h) =
      (ap prev here ∙ p, ap next here ∙ n, Linked-Same prev next a nodes same h)

  frees-Same : (at : ℕ) (cs : List Cell) → Same m m' (addresses at cs) → Same m m' (frees at cs)
  frees-Same at [] same = tt
  frees-Same at (c ∷ cs) (here, same) = elim (Bool-cases c.free) [
    | inl free ↦ rw free (here, frees-Same (behind at c) cs same)
    | inr used ↦ rw used (frees-Same (behind at c) cs same)
  ]

-- A sound heap stays sound, with the same cells, where at most the payload of a block in use is cleared.
pub zero_bytes-IsHeap :
    (h : Heap) (cs : List Cell) (b room count : ℕ)
    → IsHeap h cs
    → Live h.start_ptr cs b room
    → count ≤ room
    → IsHeap (zero_bytes h (b + 32) count) cs
unfolding zero_bytes
zero_bytes-IsHeap h cs b room count heap live le =
    let stop = heap.tiled.stop in
    let high = Live-high h.start_ptr cs b room live in
    let m : ℕ → HeapBlock = h.blocks in
    let m' : ℕ → HeapBlock = cleared h.blocks (b + 32) count in
    let same =
      Same-Live m (b + 32) count (omega (arith, stop, heap.tiled.fits)) h.start_ptr cs b room live
        refl le (omega (arith, stop, heap.tiled.fits)) in
    record {
      tiled = record {
        ready = heap.tiled.ready;
        first = heap.tiled.first;
        some_address = heap.tiled.some_address;
        aligned = heap.tiled.aligned;
        stop = stop;
        fits = heap.tiled.fits;
        some_cell = heap.tiled.some_cell;
        holds = Holds-Same m m' h.start_ptr cs same heap.tiled.holds;
        linked =
            Linked-Same m m' (λ x. x.prev_phys) (λ x. x.next_phys) 0 (addresses h.start_ptr cs) same
              heap.tiled.linked;
      };
      listed = record {
        head = heap.listed.head;
        ascends = heap.listed.ascends;
        linked =
            Linked-Same m m' (λ x. x.prev_free) (λ x. x.next_free) 0 (frees h.start_ptr cs)
              (frees-Same m m' h.start_ptr cs same) heap.listed.linked;
      };
      coalesced = heap.coalesced;
    }
