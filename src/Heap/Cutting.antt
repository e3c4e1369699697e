-- ===== src/Heap/Cutting.antt =====
-- A heap after `heap_split_block`: one of its cells is cut in two.
use mathlib.Core.Path.{subst}
use termob_kernel.Base.{
  ℕ, ◌+◌, ◌-◌, ◌%◌, ◌≤◌, ◌<◌, ◌≡◌, ◌≢◌, refl, sym, ap, ◌∙◌, true, false, arith, List, [], ◌∷◌, ◌++◌,
  inl, inr,
}
use termob_kernel.Base.Lists.{length-append}
use termob_kernel.Heap.{Heap, HeapBlock, is_free}
use termob_kernel.Heap.Blocks.{can_split_block, split_address, split_writes, split_block}
use termob_kernel.Heap.Linked.{last_of-snoc, Ascends, Linked-insert}
use termob_kernel.Heap.Tiling.{
  Cell, behind, end_of, addresses, Holds, PhysLinked, IsTiled, IsTiled-IsAt, end_of-append,
  addresses-Ascends, Holds-append, Holds-join, Holds-frame,
}
use termob_kernel.Heap.FreeList.{SameRest, SameRest-lists}
use termob_kernel.Heap.Splitting.{
  cell, IsCell-SameCell, split_writes-SameCell, split_writes_links, split_writes_free,
  split_writes-IsCell, first_address, addresses_two, addresses_one,
}

-- A heap after a block was cut behind its first `n` bytes; `new` is where the other part begins.
pub record IsCut (h h' : Heap) (new : ℕ) (cs : List Cell) : Type 0 where
  pub rest : SameRest h h'
  pub list : h'.free_list ≡ h.free_list
  pub tiled : IsTiled h' cs
  pub made : is_free (h'.blocks new) ≡ true
  pub links :
      (a : ℕ)
      → a ≢ new
      → ((h'.blocks a).prev_free ≡ (h.blocks a).prev_free)
        × ((h'.blocks a).next_free ≡ (h.blocks a).next_free)

module _ (h : Heap) (xs : List Cell) (c : Cell) (ys : List Cell) (n : ℕ)
    (t : IsTiled h (xs ++ (c ∷ ys))) where
  abbrev pub here : ℕ
  here = end_of h.start_ptr xs

  abbrev pub there : ℕ
  there = here + 32 + n

  abbrev pub cut : List Cell
  cut = xs ++ (cell n c.free ∷ cell (c.size - n - 32) true ∷ ys)

  apart : n + 48 ≤ c.size → ((h.blocks here).next_phys ≢ there) × ((h.blocks here).next_phys ≢ here)
  apart room =
      let at = IsTiled-IsAt h xs c ys t in
      let some_address = t.some_address in
      elim (first_address (behind here c) ys) [
        | inl z ↦ (omega (arith, at.next, at.low), omega (arith, at.next, at.low))
        | inr e ↦ (omega (arith, at.next), omega (arith, at.next))
      ]

  cut-Holds :
      n + 48 ≤ c.size → n % 16 ≡ 0 → Holds (split_writes h.blocks here there n) h.start_ptr cut
  cut-Holds room even =
      let m' : ℕ → HeapBlock = split_writes h.blocks here there n in
      let at = IsTiled-IsAt h xs c ys t in
      let (apart', apart'') = apart room in
      let (front, (_, back)) = Holds-append h.blocks h.start_ptr xs (c ∷ ys) t.holds in
      let (cell1, cell2) =
        split_writes-IsCell h.blocks here there n c (omega arith) apart' apart'' at.cell room even
          (omega (arith, at.high, t.fits)) in
      let place : behind here c ≡ behind there (cell (c.size - n - 32) true) = omega arith in
      let back' =
        Holds-frame h.blocks m' (behind here c) ys
          (λ a low high d.
            IsCell-SameCell
              (split_writes-SameCell h.blocks here there n a (omega arith) (omega arith)))
          back in
      let front' =
        Holds-frame h.blocks m' h.start_ptr xs
          (λ a low high d.
            IsCell-SameCell
              (split_writes-SameCell h.blocks here there n a (omega arith) (omega arith)))
          front in
      Holds-join m' h.start_ptr xs (cell n c.free ∷ cell (c.size - n - 32) true ∷ ys) front'
        (cell1, (cell2, subst (λ a. Holds m' a ys) place back'))

  cut-PhysLinked :
      n + 48 ≤ c.size → PhysLinked (split_writes h.blocks here there n) (addresses h.start_ptr cut)
  cut-PhysLinked room =
      let m : ℕ → HeapBlock = h.blocks in
      let m' : ℕ → HeapBlock = split_writes m here there n in
      let at = IsTiled-IsAt h xs c ys t in
      let (apart', apart'') = apart room in
      let place : behind there (cell (c.size - n - 32) true) ≡ behind here c = omega arith in
      let front : List ℕ = addresses h.start_ptr xs ++ (here ∷ []) in
      let last = last_of-snoc 0 (addresses h.start_ptr xs) here in
      let two : addresses h.start_ptr cut ≡ front ++ (there ∷ addresses (behind here c) ys) =
        addresses_two h.start_ptr xs (cell n c.free) (cell (c.size - n - 32) true) ys
        ∙ ap (λ a. front ++ (there ∷ addresses a ys)) place in
      let links = λ (a : ℕ) (low : 0 < a).
        split_writes_links m here there n a low (omega arith) apart' apart'' in
      subst (PhysLinked m') (sym two) (
        Linked-insert (λ a. (m a).prev_phys) (λ a. (m a).next_phys) (λ a. (m' a).prev_phys)
          (λ a. (m' a).next_phys) 0 front there (addresses (behind here c) ys)
          (subst (Ascends 0) two (addresses-Ascends 0 h.start_ptr cut t.some_address))
          (λ a low. ground (arith, (links a low).0, at.next, last))
          (λ a low. ground (arith, (links a low).1, at.next, last))
          (subst (PhysLinked m) (addresses_one h.start_ptr xs c ys) t.linked))

  pub split_block-IsCut :
      n + 48 ≤ c.size
      → n % 16 ≡ 0
      → (h' : Heap) × (split_block h here n ≡ (there, h')) × IsCut h h' there cut
  unfolding split_block can_split_block
  split_block-IsCut room even =
      let at = IsTiled-IsAt h xs c ys t in
      let place : behind there (cell (c.size - n - 32) true) ≡ behind here c = omega arith in
      let address : split_address here n ≡ there = omega (arith, at.high, t.fits) in
      let splits : can_split_block h here n ≡ true =
        ground (arith, at.cell.size, at.low, t.some_address) in
      (
        record h { blocks = split_writes h.blocks here there n },
        rw (splits, address) refl,
        record {
          rest = SameRest-lists h _ _;
          list = refl;
          tiled = record {
            ready = t.ready;
            first = t.first;
            some_address = t.some_address;
            aligned = t.aligned;
            stop =
                end_of-append h.start_ptr xs (cell n c.free ∷ cell (c.size - n - 32) true ∷ ys)
                ∙ (ap (λ a. end_of a ys) place
                    ∙ (sym (end_of-append h.start_ptr xs (c ∷ ys)) ∙ t.stop));
            fits = t.fits;
            some_cell =
                omega (arith, length-append xs (cell n c.free ∷ cell (c.size - n - 32) true ∷ ys));
            holds = cut-Holds room even;
            linked = cut-PhysLinked room;
          };
          made =
              (split_writes-IsCell h.blocks here there n c (omega arith) (apart room).0
                (apart room).1 at.cell room even (omega (arith, at.high, t.fits))).1.free;
          links = λ a other. split_writes_free h.blocks here there n a other;
        },
      )

  -- A block that is not much larger stays whole.
  pub split_block-whole : c.size < n + 48 → n ≤ c.size → split_block h here n ≡ (0, h)
  unfolding split_block can_split_block
  split_block-whole tight room =
      let at = IsTiled-IsAt h xs c ys t in
      let keeps : can_split_block h here n ≡ false = ground (arith, at.cell.size) in rw keeps refl
