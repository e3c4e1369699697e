-- ===== src/Heap/Lookup.antt =====
-- `heap_find_block_by_payload` on a sound heap.
use mathlib.Core.Path.{subst}
use mathlib.Core.List.{append_assoc}
use termob_kernel.Base.{
  ℕ, zero, suc, ◌+◌, ◌≤◌, ◌<◌, ◌≡◌, refl, sym, ap, ◌∙◌, false, not, ◌||◌, arith, List, [], ◌∷◌,
  ◌++◌, ◌==◌, Bool-cases, ◌⊎◌, inl, inr, if◌then◌else◌,
}
use termob_kernel.Base.Lists.{length}
use termob_kernel.Heap.{Heap, max_walks, payload_address}
use termob_kernel.Heap.Calls.{find_loop, find_block_by_payload}
use termob_kernel.Heap.Linked.{first_of}
use termob_kernel.Heap.Tiling.{
  Cell, behind, end_of, addresses, IsTiled, IsTiled-IsAt, block_is_sane-IsAt, max_walks-IsTiled,
  le-end_of,
}
use termob_kernel.Heap.Joining.{end_of-snoc}
use termob_kernel.Heap.Live.{Live}
use termob_kernel.Heap.Coalesce.{if_true, if_false}

-- The address of the cell whose payload a pointer is, 0 where there is none.
unfoldable pub owner : (at : ℕ) → List Cell → (ptr : ℕ) → ℕ
owner at [] ptr = 0
owner at (c ∷ cs) ptr = let rest = owner (behind at c) cs ptr in if at + 32 == ptr then at else rest

find_loop-owner :
    (h : Heap) (walks ptr : ℕ) (xs cs : List Cell)
    → IsTiled h (xs ++ cs)
    → length cs ≤ walks
    → find_loop h walks (first_of (addresses (end_of h.start_ptr xs) cs) 0) ptr
      ≡ (owner (end_of h.start_ptr xs) cs ptr, h)
unfolding find_loop owner
find_loop-owner h zero ptr xs [] t enough = refl
find_loop-owner h zero ptr xs (c ∷ cs) t enough = absurd (omega arith)
find_loop-owner h (suc walks) ptr xs [] t enough = refl
find_loop-owner h (suc walks) ptr xs (c ∷ cs) t enough =
    let b : ℕ = end_of h.start_ptr xs in
    let at = IsTiled-IsAt h xs c cs t in
    let sane = block_is_sane-IsAt h xs c cs t in
    let some_block : (b == 0) ≡ false = ground (arith, t.some_address, at.low) in
    let payload : payload_address b ≡ b + 32 = omega (arith, at.high, t.fits) in
    let rest =
      find_loop-owner h walks ptr (xs ++ (c ∷ [])) cs
        (subst (IsTiled h) (sym (append_assoc xs (c ∷ []) cs)) t) (omega arith) in
    let rest' =
      subst (λ a. find_loop h walks (first_of (addresses a cs) 0) ptr ≡ (owner a cs ptr, h))
        (end_of-snoc h.start_ptr xs c) rest in
    elim (Bool-cases (b + 32 == ptr)) [
      | inl found ↦ rw (some_block, sane, payload, find_loop, found) refl
      | inr other ↦ rw (some_block, sane, payload, find_loop, other, at.next) rest'
    ]

pub first_cell : (at : ℕ) (cs : List Cell) → 0 < length cs → first_of (addresses at cs) 0 ≡ at
first_cell at [] some_cell = absurd (omega arith)
first_cell at (c ∷ cs) some_cell = refl

pub find_block_by_payload-owner :
    (h : Heap) (cs : List Cell) (ptr : ℕ)
    → IsTiled h cs
    → 0 < ptr
    → find_block_by_payload h ptr ≡ (owner h.start_ptr cs ptr, h)
unfolding find_block_by_payload
find_block_by_payload-owner h cs ptr t some_address =
    let starts : (not h.ready || (ptr == 0)) ≡ false = ground (arith, t.ready) in
    let first : h.first_block ≡ first_of (addresses h.start_ptr cs) 0 =
      t.first ∙ sym (first_cell h.start_ptr cs t.some_cell) in
    if_false _ _ _ starts
    ∙ (ap (λ b. find_loop h (max_walks h) b ptr) first
        ∙ find_loop-owner h (max_walks h) ptr [] cs t (omega (arith, max_walks-IsTiled h cs t)))

-- A block in use as a cell among the others.
pub Live-split :
    (at : ℕ) (cs : List Cell) (b s : ℕ)
    → Live at cs b s
    → (xs : List Cell) × (c : Cell) × (ys : List Cell) × (cs ≡ xs ++ (c ∷ ys))
      × (b ≡ end_of at xs)
      × (c.free ≡ false)
      × (c.size ≡ s)
Live-split at [] b s live = absurd live
Live-split at (c ∷ cs) b s (inl (used, e, z)) = ([], c, cs, refl, sym e, used, z)
Live-split at (c ∷ cs) b s (inr live) =
    let (xs, d, ys, e, place, used, z) = Live-split (behind at c) cs b s live in
    (c ∷ xs, d, ys, ap (λ l. c ∷ l) e, place, used, z)

-- A pointer to the payload of a cell finds that cell.
pub owner-payload :
    (at : ℕ) (xs : List Cell) (c : Cell) (ys : List Cell)
    → owner at (xs ++ (c ∷ ys)) (end_of at xs + 32) ≡ end_of at xs
unfolding owner
owner-payload at [] c ys = ground arith
owner-payload at (x ∷ xs) c ys =
    let low = le-end_of (behind at x) xs in
    let other : (at + 32 == end_of (behind at x) xs + 32) ≡ false = ground (arith, low) in
    if_false _ _ _ other ∙ owner-payload (behind at x) xs c ys

-- Where no cell is found the pointer is no payload; else it is the payload of the cell.
pub owner-cases :
    (at : ℕ) (cs : List Cell) (ptr : ℕ)
    → (owner at cs ptr ≡ 0)
      ⊎ ((xs : List Cell) × (c : Cell) × (ys : List Cell) × (cs ≡ xs ++ (c ∷ ys))
          × (ptr ≡ end_of at xs + 32)
          × (owner at cs ptr ≡ end_of at xs))
unfolding owner
owner-cases at [] ptr = inl refl
owner-cases at (c ∷ cs) ptr = elim (Bool-cases (at + 32 == ptr)) [
  | inl found ↦ inr ([], c, cs, refl, ground arith, if_true _ _ _ found)
  | inr other ↦ elim (owner-cases (behind at c) cs ptr) [
    | inl z ↦ inl (if_false _ _ _ other ∙ z)
    | inr (xs, d, ys, e, place, own) ↦
        inr (c ∷ xs, d, ys, ap (λ l. c ∷ l) e, place, if_false _ _ _ other ∙ own)
  ]
]
