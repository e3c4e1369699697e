-- ===== src/Heap/Taking.antt =====
-- An allocation step by step: out of the list, cut, the rest into the list, marked as used.
use mathlib.Core.Path.{subst}
use termob_kernel.Base.{
  ℕ, ◌+◌, ◌-◌, ◌%◌, ◌≤◌, ◌<◌, ◌≡◌, refl, sym, ap, ◌∙◌, true, false, arith, some, List, ◌∷◌, ◌++◌,
  leb, ◌==◌, Bool-cases, inl, inr,
}
use termob_kernel.Base.Lists.{length, length-append}
use termob_kernel.Heap.{Heap, max_walks, payload_address}
use termob_kernel.Heap.Blocks.{remove_free_block, insert_free_block, split_block}
use termob_kernel.Heap.Calls.{take_block}
use termob_kernel.Heap.Linked.{Ascends, Ascends-Spares, Linked-Spares}
use termob_kernel.Heap.Tiling.{
  Cell, behind, end_of, frees, IsTiled, IsListed, IsHeap, Coalesced, frees-append, frees-Ascends,
  max_walks-IsTiled,
}
use termob_kernel.Heap.FreeList.{
  SameRest, SameRest-lists, SameRest-trans, remove_free_block-IsRelisted,
}
use termob_kernel.Heap.Insert.{insert_free_block-IsInserted}
use termob_kernel.Heap.Splitting.{cell}
use termob_kernel.Heap.Cutting.{IsCut, split_block-IsCut, split_block-whole}
use termob_kernel.Heap.Flags.{IsTiled-body}
use termob_kernel.Heap.Steps.{IsInserted-IsTiled}
use termob_kernel.Heap.Alloc.{
  length-frees, carve, mark_block_used, mark_block_used-IsTiled, mark_block_used-IsListed,
  Coalesced-carve,
}

-- A heap on the way: its cells and its free list.
record Between (h h' : Heap) (cs : List Cell) (nodes : List ℕ) : Type 0 where
  rest : SameRest h h'
  tiled : IsTiled h' cs
  listed : IsListed h' nodes

after_remove :
    (h : Heap) (cs : List Cell) (xs : List ℕ) (b : ℕ) (ys : List ℕ)
    → IsTiled h cs
    → IsListed h (xs ++ (b ∷ ys))
    → Between h (remove_free_block h b) cs (xs ++ ys)
after_remove h cs xs b ys t l =
    let r = remove_free_block-IsRelisted h xs b ys l in
    record {
      rest = r.rest;
      tiled = IsTiled-body h (remove_free_block h b) cs r.rest r.body t;
      listed = r.listed;
    }

-- The free part of a block that was cut gets into the free list.
after_cut :
    (h h' : Heap) (new : ℕ) (cs : List Cell) (xs ys : List ℕ)
    → IsCut h h' new cs
    → IsListed h (xs ++ ys)
    → Ascends 0 (xs ++ (new ∷ ys))
    → length xs ≤ max_walks h'
    → (h'' : Heap) × (insert_free_block h' new ≡ some h'') × Between h h'' cs (xs ++ (new ∷ ys))
after_cut h h' new cs xs ys c l up enough =
    let listed : IsListed h' (xs ++ ys) = record {
      head = c.list ∙ l.head;
      ascends = l.ascends;
      linked =
          Linked-Spares (λ a. (h.blocks a).prev_free) (λ a. (h.blocks a).next_free)
            (λ a. (h'.blocks a).prev_free) (λ a. (h'.blocks a).next_free) 0 new (xs ++ ys)
            (Ascends-Spares 0 xs new ys up) c.links l.linked;
    } in
    let (h'', done, i) = insert_free_block-IsInserted h' xs new ys listed up enough in
    (
      h'',
      done,
      record {
        rest = SameRest-trans c.rest i.rest;
        tiled = IsInserted-IsTiled h' h'' new (xs ++ (new ∷ ys)) cs i c.made c.tiled;
        listed = i.listed;
      },
    )

-- The last step of an allocation.
after_mark :
    (h h' : Heap) (xs : List Cell) (c : Cell) (ys : List Cell)
    → Between h h' (xs ++ (c ∷ ys)) (frees h.start_ptr (xs ++ (cell c.size false ∷ ys)))
    → Coalesced (xs ++ (cell c.size false ∷ ys))
    → IsHeap (mark_block_used h' (end_of h.start_ptr xs)) (xs ++ (cell c.size false ∷ ys))
after_mark h h' xs c ys b apart =
    let cs : List Cell = xs ++ (cell c.size false ∷ ys) in
    let listed = subst (λ s. IsListed h' (frees s cs)) (sym b.rest.start) b.listed in
    subst (λ s. IsHeap (mark_block_used h' (end_of s xs)) cs) b.rest.start
      (record {
        tiled = mark_block_used-IsTiled h' xs c ys b.tiled;
        listed =
            mark_block_used-IsListed h' (end_of h'.start_ptr xs) (frees h'.start_ptr cs) listed;
        coalesced = apart;
      })

-- The free list around a free cell.
pub frees_around :
    (at : ℕ) (xs : List Cell) (c : Cell) (ys : List Cell)
    → c.free ≡ true
    → frees at (xs ++ (c ∷ ys)) ≡ frees at xs ++ (end_of at xs ∷ frees (behind (end_of at xs) c) ys)
frees_around at xs c ys free = frees-append at xs (c ∷ ys) ∙ rw free refl

-- `take_block` gives the block's payload, and the heap's cells are as they should be.
unfoldable pub Takes : Heap → (b n : ℕ) → List Cell → Type 0
Takes h b n cs =
    (h' : Heap) × (take_block h b n ≡ some (payload_address b, h')) × SameRest h h' × IsHeap h' cs

module _ (h : Heap) (xs : List Cell) (c : Cell) (ys : List Cell) (n : ℕ)
    (heap : IsHeap h (xs ++ (c ∷ ys))) (free : c.free ≡ true) (room : n ≤ c.size) where
  abbrev at : ℕ
  at = end_of h.start_ptr xs

  abbrev removed : Heap
  removed = remove_free_block h at

  abbrev front : List ℕ
  front = frees h.start_ptr xs

  abbrev back : List ℕ
  back = frees (behind at c) ys

  removed-Between : Between h removed (xs ++ (c ∷ ys)) (front ++ back)
  removed-Between =
      after_remove h (xs ++ (c ∷ ys)) front at back heap.tiled
        (subst (IsListed h) (frees_around h.start_ptr xs c ys free) heap.listed)

  take_whole :
      c.size < n + 48
      → Coalesced (xs ++ (cell c.size false ∷ ys))
      → Takes h at n (xs ++ (cell c.size false ∷ ys))
  unfolding Takes take_block
  take_whole tight apart =
      let b = removed-Between in
      let whole =
        subst (λ s. split_block removed (end_of s xs) n ≡ (0, removed)) b.rest.start
          (split_block-whole removed xs c ys n b.tiled tight room) in
      let left = frees-append h.start_ptr xs (cell c.size false ∷ ys) in
      (
        mark_block_used removed at,
        rw (whole, take_block) refl,
        SameRest-trans b.rest (SameRest-lists removed _ _),
        after_mark h removed xs c ys
            (record {
              rest = b.rest;
              tiled = b.tiled;
              listed = subst (IsListed removed) (sym left) b.listed;
            })
            apart,
      )

  take_part :
      n + 48 ≤ c.size
      → n % 16 ≡ 0
      → Coalesced (xs ++ (cell n false ∷ cell (c.size - n - 32) true ∷ ys))
      → Takes h at n (xs ++ (cell n false ∷ cell (c.size - n - 32) true ∷ ys))
  unfolding Takes take_block
  take_part wide even apart =
      let b = removed-Between in
      let there : ℕ = at + 32 + n in
      let rest : Cell = cell (c.size - n - 32) true in
      let cs : List Cell = xs ++ (cell n c.free ∷ rest ∷ ys) in
      let (h2, split, cut) : (h' : Heap) × (split_block removed at n ≡ (there, h'))
          × IsCut removed h' there cs =
        subst
          (λ s.
            (h' : Heap) × (split_block removed (end_of s xs) n ≡ (end_of s xs + 32 + n, h'))
            × IsCut removed h' (end_of s xs + 32 + n) cs)
          b.rest.start (split_block-IsCut removed xs c ys n b.tiled wide even) in
      let place : behind there rest ≡ behind at c = omega arith in
      let left : frees h.start_ptr (xs ++ (cell n false ∷ rest ∷ ys)) ≡ front ++ (there ∷ back) =
        frees-append h.start_ptr xs (cell n false ∷ rest ∷ ys)
        ∙ ap (λ a. front ++ (there ∷ frees a ys)) place in
      let up =
        subst (Ascends 0) left (
          frees-Ascends 0 h.start_ptr (xs ++ (cell n false ∷ rest ∷ ys)) heap.tiled.some_address) in
      let short : length front ≤ max_walks h2 = omega (
        arith,
        length-frees h.start_ptr xs,
        max_walks-IsTiled h2 cs cut.tiled,
        length-append xs (cell n c.free ∷ rest ∷ ys),
      ) in
      let (h3, insert, b') = after_cut removed h2 there cs front back cut b.listed up short in
      let rest' = SameRest-trans b.rest b'.rest in
      let some_block : (there == 0) ≡ false = ground arith in
      (
        mark_block_used h3 at,
        rw (split, take_block, some_block, insert) refl,
        SameRest-trans rest' (SameRest-lists h3 _ _),
        after_mark h h3 xs (cell n c.free) (rest ∷ ys)
            (record {
              rest = rest';
              tiled = b'.tiled;
              listed = subst (IsListed h3) (sym left) b'.listed;
            })
            apart,
      )

  pub take_block-Takes : n % 16 ≡ 0 → Takes h at n (xs ++ (carve n c ++ ys))
  take_block-Takes even =
      let apart = Coalesced-carve n xs c ys free heap.coalesced in
      elim (Bool-cases (leb (n + 48) c.size)) [
        | inl wide ↦
            let e : carve n c ++ ys ≡ (cell n false ∷ cell (c.size - n - 32) true ∷ ys) =
              rw wide refl in
            subst (λ l. Takes h at n (xs ++ l)) (sym e)
              (take_part (ground arith) even (subst (λ l. Coalesced (xs ++ l)) e apart))
        | inr tight ↦
            let e : carve n c ++ ys ≡ (cell c.size false ∷ ys) = rw tight refl in
            subst (λ l. Takes h at n (xs ++ l)) (sym e)
              (take_whole (ground arith) (subst (λ l. Coalesced (xs ++ l)) e apart))
      ]
