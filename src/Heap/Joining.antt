-- ===== src/Heap/Joining.antt =====
-- The writes of `heap_try_coalesce_with_next` make one cell of two neighbours.
use mathlib.Core.Path.{subst}
use mathlib.Core.List.{append_assoc}
use termob_kernel.Base.{
  ℕ, ◌+◌, ◌*◌, ◌≤◌, ◌<◌, ◌≡◌, ◌≢◌, sym, ap, ◌∙◌, true, not, arith, List, [], ◌∷◌, ◌++◌, ◌==◌, inl,
  inr, if◌then◌else◌, bit_and,
}
use termob_kernel.Base.Lists.{length, length-append}
use termob_kernel.Base.Words.{add32}
use termob_kernel.Heap.{Heap, HeapBlock, is_free, block_is_sane}
use termob_kernel.Heap.Blocks.{join_writes}
use termob_kernel.Heap.Linked.{first_of, last_of-snoc, Ascends, Linked-remove}
use termob_kernel.Heap.Tiling.{
  Cell, behind, end_of, addresses, IsCell, Holds, PhysLinked, IsTiled, IsTiled-IsAt, end_of-append,
  addresses-Ascends, Holds-append, Holds-join, Holds-frame, le-end_of, block_is_sane-IsAt,
}
use termob_kernel.Heap.Splitting.{
  cell, SameCell, IsCell-SameCell, first_address, addresses_two, addresses_one,
}

join_writes-SameCell :
    (m : ℕ → HeapBlock) (b next a : ℕ) → a ≢ b → SameCell (m a) (join_writes m b next a)
unfolding join_writes
join_writes-SameCell m b next a other = record {
  magic = ground arith;
  flags = ground arith;
  size = ground arith;
}

join_writes_here :
    (m : ℕ → HeapBlock) (b next : ℕ)
    → ((join_writes m b next b).magic ≡ (m b).magic)
      × ((join_writes m b next b).flags ≡ (m b).flags)
      × ((join_writes m b next b).size_bytes
          ≡ add32 (m b).size_bytes (add32 32 (m next).size_bytes))
unfolding join_writes
join_writes_here m b next = (ground arith, ground arith, ground arith)

join_writes_links :
    (m : ℕ → HeapBlock) (b next a : ℕ)
    → 0 < a
    → next ≢ b
    → (m next).next_phys ≢ next
    → ((join_writes m b next a).prev_phys
        ≡ (if a == (m next).next_phys then b else (m a).prev_phys))
      × ((join_writes m b next a).next_phys
          ≡ (if a == b then (m next).next_phys else (m a).next_phys))
unfolding join_writes
join_writes_links m b next a low apart apart' = (ground arith, ground arith)

pub join_writes_free :
    (m : ℕ → HeapBlock) (b next a : ℕ)
    → ((join_writes m b next a).prev_free ≡ (m a).prev_free)
      × ((join_writes m b next a).next_free ≡ (m a).next_free)
unfolding join_writes
join_writes_free m b next a = (ground arith, ground arith)

-- Two neighbours as one.
abbrev pub joined : Cell → Cell → Cell
joined c d = cell (c.size + 32 + d.size) true

-- The second of two cells as the one behind the first.
pub cells_two :
    (xs : List Cell) (c d : Cell) (ys : List Cell)
    → (xs ++ (c ∷ [])) ++ (d ∷ ys) ≡ xs ++ (c ∷ d ∷ ys)
cells_two xs c d ys = append_assoc xs (c ∷ []) (d ∷ ys)

pub end_of-snoc :
    (at : ℕ) (xs : List Cell) (c : Cell) → end_of at (xs ++ (c ∷ [])) ≡ behind (end_of at xs) c
end_of-snoc at xs c = end_of-append at xs (c ∷ [])

-- What is known of the second of two cells.
pub record IsSecond (h : Heap) (b : ℕ) (d : Cell) (ys : List Cell) : Type 0 where
  pub high : behind b d + 32 * length ys ≤ h.end_ptr
  pub cell : IsCell (h.blocks b) d
  pub next : (h.blocks b).next_phys ≡ first_of (addresses (behind b d) ys) 0
  pub sane : block_is_sane h b ≡ true

pub IsTiled-IsSecond :
    (h : Heap) (xs : List Cell) (c d : Cell) (ys : List Cell)
    → IsTiled h (xs ++ (c ∷ d ∷ ys))
    → IsSecond h (behind (end_of h.start_ptr xs) c) d ys
IsTiled-IsSecond h xs c d ys t =
    let t' = subst (IsTiled h) (sym (cells_two xs c d ys)) t in
    let at = IsTiled-IsAt h (xs ++ (c ∷ [])) d ys t' in
    subst (λ b. IsSecond h b d ys) (end_of-snoc h.start_ptr xs c)
      (record {
        high = at.high;
        cell = at.cell;
        next = at.next;
        sane = block_is_sane-IsAt h (xs ++ (c ∷ [])) d ys t';
      })

module _ (h : Heap) (xs : List Cell) (c d : Cell) (ys : List Cell)
    (t : IsTiled h (xs ++ (c ∷ d ∷ ys))) (free : c.free ≡ true) where
  abbrev pub here : ℕ
  here = end_of h.start_ptr xs

  abbrev pub there : ℕ
  there = behind here c

  abbrev m' : ℕ → HeapBlock
  m' = join_writes h.blocks here there

  join-Holds : Holds m' h.start_ptr (xs ++ (joined c d ∷ ys))
  unfolding is_free
  join-Holds =
      let at = IsTiled-IsAt h xs c (d ∷ ys) t in
      let second = IsTiled-IsSecond h xs c d ys t in
      let (front, (_, (_, back))) = Holds-append h.blocks h.start_ptr xs (c ∷ d ∷ ys) t.holds in
      let (magic, flags, size) = join_writes_here h.blocks here there in
      let one : IsCell (m' here) (joined c d) = record {
        magic = magic ∙ at.cell.magic;
        free = ap (λ f. not (bit_and f 1 == 0)) flags ∙ (at.cell.free ∙ free);
        size = omega (arith, size, at.cell.size, second.cell.size, second.high, t.fits);
        aligned = omega (arith, at.cell.aligned, second.cell.aligned);
      } in
      let place : behind there d ≡ behind here (joined c d) = omega arith in
      let front' =
        Holds-frame h.blocks m' h.start_ptr xs
          (λ a low high e.
            IsCell-SameCell (join_writes-SameCell h.blocks here there a (omega arith)))
          front in
      let back' =
        Holds-frame h.blocks m' (behind there d) ys
          (λ a low high e.
            IsCell-SameCell (join_writes-SameCell h.blocks here there a (omega arith)))
          back in
      Holds-join m' h.start_ptr xs (joined c d ∷ ys) front'
        (one, subst (λ a. Holds m' a ys) place back')

  join-PhysLinked : PhysLinked m' (addresses h.start_ptr (xs ++ (joined c d ∷ ys)))
  join-PhysLinked =
      let second = IsTiled-IsSecond h xs c d ys t in
      let front : List ℕ = addresses h.start_ptr xs ++ (here ∷ []) in
      let last = last_of-snoc 0 (addresses h.start_ptr xs) here in
      let place : behind there d ≡ behind here (joined c d) = omega arith in
      let one : addresses h.start_ptr (xs ++ (joined c d ∷ ys))
          ≡ front ++ addresses (behind there d) ys =
        addresses_one h.start_ptr xs (joined c d) ys
        ∙ ap (λ a. front ++ addresses a ys) (sym place) in
      let two = addresses_two h.start_ptr xs c d ys in
      let apart : (h.blocks there).next_phys ≢ there = elim (first_address (behind there d) ys) [
        | inl z ↦ omega (arith, second.next, z, t.some_address, le-end_of h.start_ptr xs)
        | inr e ↦ omega (arith, second.next, e)
      ] in
      let links =
        λ (a : ℕ) (low : 0 < a). join_writes_links h.blocks here there a low (omega arith) apart in
      subst (PhysLinked m') (sym one) (
        Linked-remove (λ a. (h.blocks a).prev_phys) (λ a. (h.blocks a).next_phys)
          (λ a. (m' a).prev_phys) (λ a. (m' a).next_phys) 0 front there
          (addresses (behind there d) ys)
          (subst (Ascends 0) two
            (addresses-Ascends 0 h.start_ptr (xs ++ (c ∷ d ∷ ys)) t.some_address))
          (λ a other low. ground (arith, (links a low).0, second.next, last))
          (λ a other low. ground (arith, (links a low).1, second.next, last))
          (subst (PhysLinked h.blocks) two t.linked))

  pub join-IsTiled : IsTiled (record h { blocks = m' }) (xs ++ (joined c d ∷ ys))
  join-IsTiled =
      let place : behind here (joined c d) ≡ behind there d = omega arith in
      record {
        ready = t.ready;
        first = t.first;
        some_address = t.some_address;
        aligned = t.aligned;
        stop =
            end_of-append h.start_ptr xs (joined c d ∷ ys)
            ∙ (ap (λ a. end_of a ys) place
                ∙ (sym (end_of-append h.start_ptr xs (c ∷ d ∷ ys)) ∙ t.stop));
        fits = t.fits;
        some_cell = omega (arith, length-append xs (joined c d ∷ ys));
        holds = join-Holds;
        linked = join-PhysLinked;
      }
