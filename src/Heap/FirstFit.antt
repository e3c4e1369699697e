-- ===== src/Heap/FirstFit.antt =====
-- `kmalloc` on a sound heap takes the first free cell that is large enough.
use mathlib.Core.Path.{subst}
use termob_kernel.Base.{
  ℕ, zero, suc, ◌*◌, ◌/◌, ◌%◌, ◌≤◌, ◌<◌, ◌≡◌, refl, sym, ap, ◌∙◌, true, false, not, ◌&&◌, ◌||◌,
  arith, Option, none, some, List, [], ◌∷◌, ◌++◌, leb, leb→le, ◌==◌, Bool-cases, inl, inr,
  if◌then◌else◌,
}
use termob_kernel.Base.Lists.{length}
use termob_kernel.Heap.{Heap, max_walks, payload_address}
use termob_kernel.Heap.Calls.{alloc_loop, kmalloc}
use termob_kernel.Heap.Linked.{first_of}
use termob_kernel.Heap.Tiling.{
  Cell, behind, end_of, frees, IsListed, IsHeap, IsTiled-IsAt, end_of-append, block_is_sane-IsAt,
  max_walks-IsTiled,
}
use termob_kernel.Heap.FreeList.{SameRest}
use termob_kernel.Base.Bits.{align_up_sixteen}
use termob_kernel.Base.Words.{add32}
use termob_kernel.Heap.Linked.{Linked-tail}
use termob_kernel.Heap.Alloc.{carve}
use termob_kernel.Heap.Taking.{Takes, take_block-Takes, frees_around}
use mathlib.Core.List.{append_assoc}

-- The first cell that serves `n` bytes, from the address `at` on, and the cells afterwards.
unfoldable pub first_fit : (n at : ℕ) → List Cell → Option (ℕ × List Cell)
first_fit n at [] = none
first_fit n at (c ∷ cs) =
    let rest = first_fit n (behind at c) cs in
    if c.free && leb n c.size
    then some (at, carve n c ++ cs)
    else elim rest [ none ↦ none | some (b, cs') ↦ some (b, c ∷ cs') ]

-- What a call gives for such a choice: null where there is none.
abbrev pub Serves : Heap → Option (ℕ × Heap) → Option (ℕ × List Cell) → Type 0
Serves h result none = result ≡ some (0, h)
Serves h result (some (b, cs)) =
    (h' : Heap) × (result ≡ some (payload_address b, h')) × SameRest h h' × IsHeap h' cs

-- A choice among the cells behind others.
abbrev prepend : List Cell → Option (ℕ × List Cell) → Option (ℕ × List Cell)
prepend xs none = none
prepend xs (some (b, cs)) = some (b, xs ++ cs)

prepend_one :
    (xs : List Cell) (c : Cell) (r : Option (ℕ × List Cell))
    → prepend xs (elim r [ none ↦ none | some (b, cs) ↦ some (b, c ∷ cs) ])
      ≡ prepend (xs ++ (c ∷ [])) r
prepend_one xs c none = refl
prepend_one xs c (some (b, cs)) = ap (λ l. some (b, l)) (sym (append_assoc xs (c ∷ []) cs))

prepend_none : (r : Option (ℕ × List Cell)) → prepend [] r ≡ r
prepend_none none = refl
prepend_none (some (b, cs)) = refl

end_of-snoc :
    (at : ℕ) (xs : List Cell) (c : Cell) → end_of at (xs ++ (c ∷ [])) ≡ behind (end_of at xs) c
end_of-snoc at xs c = end_of-append at xs (c ∷ [])

-- The next free cell of the list.
next_free_of :
    (h : Heap) (xs : List Cell) (c : Cell) (ys : List Cell)
    → IsHeap h (xs ++ (c ∷ ys))
    → c.free ≡ true
    → (h.blocks (end_of h.start_ptr xs)).next_free
      ≡ first_of (frees (behind (end_of h.start_ptr xs) c) ys) 0
next_free_of h xs c ys heap free =
    let l = subst (IsListed h) (frees_around h.start_ptr xs c ys free) heap.listed in
    let (prev, next, rest) =
      Linked-tail (λ a. (h.blocks a).prev_free) (λ a. (h.blocks a).next_free) 0
        (frees h.start_ptr xs) (end_of h.start_ptr xs ∷ frees (behind (end_of h.start_ptr xs) c) ys)
        l.linked in
    next

-- The walk, with the cells `xs` behind it.
alloc_loop-Serves :
    (h : Heap) (fuel n : ℕ) (xs cs : List Cell)
    → IsHeap h (xs ++ cs)
    → n % 16 ≡ 0
    → length cs ≤ fuel
    → Serves h
        (alloc_loop h fuel (first_of (frees (end_of h.start_ptr xs) cs) 0) n)
        (prepend xs (first_fit n (end_of h.start_ptr xs) cs))
unfolding alloc_loop first_fit Takes
alloc_loop-Serves h zero n xs [] heap even enough = refl
alloc_loop-Serves h zero n xs (c ∷ cs) heap even enough = absurd (omega arith)
alloc_loop-Serves h (suc fuel) n xs [] heap even enough = refl
alloc_loop-Serves h (suc fuel) n xs (c ∷ cs) heap even enough =
    let b : ℕ = end_of h.start_ptr xs in
    let rest : (fuel' : ℕ)
        → length cs ≤ fuel'
        → Serves h (alloc_loop h fuel' (first_of (frees (behind b c) cs) 0) n) (
            prepend xs (elim (first_fit n (behind b c) cs) [
              | none ↦ none
              | some (b', cs') ↦ some (b', c ∷ cs')
            ])) =
      λ fuel' enough'.
        subst (Serves h (alloc_loop h fuel' (first_of (frees (behind b c) cs) 0) n))
          (sym (prepend_one xs c (first_fit n (behind b c) cs)))
          (subst
            (λ a.
              Serves h (alloc_loop h fuel' (first_of (frees a cs) 0) n)
                (prepend (xs ++ (c ∷ [])) (first_fit n a cs)))
            (end_of-snoc h.start_ptr xs c)
            (alloc_loop-Serves h fuel' n (xs ++ (c ∷ [])) cs
              (subst (IsHeap h) (sym (append_assoc xs (c ∷ []) cs)) heap) even enough')) in
    elim (Bool-cases c.free) [
      | inr used ↦ rw used (rest (suc fuel) (omega arith))
      | inl free ↦
          let spot = IsTiled-IsAt h xs c cs heap.tiled in
          let sane = block_is_sane-IsAt h xs c cs heap.tiled in
          let flag = spot.cell.free ∙ free in
          let some_block : (b == 0) ≡ false = ground (arith, heap.tiled.some_address, spot.low) in
          elim (Bool-cases (leb n c.size)) [
            | inl room ↦
                let room' : leb n (h.blocks b).size_bytes ≡ true =
                  ap (leb n) spot.cell.size ∙ room in
                rw (free, some_block, sane, flag, alloc_loop, room', room)
                  (take_block-Takes h xs c cs n heap free (leb→le n c.size room) even)
            | inr small ↦
                let small' : leb n (h.blocks b).size_bytes ≡ false =
                  ap (leb n) spot.cell.size ∙ small in
                rw
                  (
                    free,
                    alloc_loop,
                    some_block,
                    sane,
                    flag,
                    small',
                    small,
                    next_free_of h xs c cs heap free,
                  )
                  (rest fuel (omega arith))
          ]
    ]

-- What `kmalloc` looks for: `size` rounded up to 16, where that does not wrap around.
abbrev pub rounded : ℕ → ℕ
rounded size = add32 size 15 / 16 * 16

-- `kmalloc` on a sound heap gives the payload of the first free cell that serves the rounded size, cut
-- if there is room for another block, and the heap is sound again; where no cell serves, it gives null
-- and the heap stays as it is.
pub kmalloc-first_fit :
    (h : Heap) (cs : List Cell) (size : ℕ)
    → IsHeap h cs
    → 0 < size
    → Serves h (kmalloc h size) (first_fit (rounded size) h.start_ptr cs)
unfolding kmalloc
kmalloc-first_fit h cs size heap some_byte =
    let n : ℕ = rounded size in
    let starts : (not h.ready || (size == 0)) ≡ false = ground (arith, heap.tiled.ready) in
    let loop =
      alloc_loop-Serves h (max_walks h) n [] cs heap (omega arith)
        (omega (arith, max_walks-IsTiled h cs heap.tiled)) in
    let plain : prepend [] (first_fit n h.start_ptr cs) ≡ first_fit n h.start_ptr cs =
      prepend_none _ in
    let e : kmalloc h size ≡ alloc_loop h (max_walks h) h.free_list n =
      rw (starts, align_up_sixteen size) refl in
    let e' = e ∙ ap (λ a. alloc_loop h (max_walks h) a n) heap.listed.head in
    subst (λ r. Serves h r (first_fit n h.start_ptr cs)) (sym e') (subst (Serves h _) plain loop)
