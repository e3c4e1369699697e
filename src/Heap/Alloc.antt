-- ===== src/Heap/Alloc.antt =====
-- `kmalloc` on a sound heap: the first free cell that is large enough, cut if there is room.
use mathlib.Core.Path.{subst}
use termob_kernel.Base.{
  ℕ, ◌+◌, ◌-◌, ◌≤◌, ◌≡◌, refl, sym, true, false, arith, List, [], ◌∷◌, ◌++◌, leb, if◌then◌else◌,
}
use termob_kernel.Base.Arrays.{set}
use termob_kernel.Base.Lists.{length}
use termob_kernel.Heap.{Heap, HeapBlock, mark_used}
use termob_kernel.Heap.Tiling.{Cell, behind, end_of, frees, IsTiled, IsListed, Coalesced}
use termob_kernel.Heap.FreeList.{SameRest-lists}
use termob_kernel.Heap.Splitting.{cell}
use termob_kernel.Heap.Flags.{
  IsTiled-flag, IsListed-keep, SameFlagged, mark_used-SameFlagged, set_other-SameBody,
}

pub length-frees : (at : ℕ) (cs : List Cell) → length (frees at cs) ≤ length cs
length-frees at [] = omega arith
length-frees at (c ∷ cs) = ground (arith, length-frees (behind at c) cs)

-- What an allocation of `n` bytes makes of a cell.
abbrev pub carve : (n : ℕ) → Cell → List Cell
carve n c =
    if leb (n + 48) c.size
    then cell n false ∷ cell (c.size - n - 32) true ∷ []
    else cell c.size false ∷ []

set_used_here : (m : ℕ → HeapBlock) (b : ℕ) → SameFlagged (m b) (set m b (mark_used (m b)) b) false
set_used_here m b =
    let e : set m b (mark_used (m b)) b ≡ mark_used (m b) = ground arith in
    subst (λ v. SameFlagged (m b) v false) (sym e) (mark_used-SameFlagged (m b))

set_used_links :
    (m : ℕ → HeapBlock) (b a : ℕ)
    → ((set m b (mark_used (m b)) a).prev_free ≡ (m a).prev_free)
      × ((set m b (mark_used (m b)) a).next_free ≡ (m a).next_free)
unfolding mark_used
set_used_links m b a = (ground arith, ground arith)

-- A heap with a block marked as used.
abbrev pub mark_block_used : Heap → ℕ → Heap
mark_block_used h b = record h { blocks = set h.blocks b (mark_used (h.blocks b)) }

pub mark_block_used-IsTiled :
    (h : Heap) (xs : List Cell) (c : Cell) (ys : List Cell)
    → IsTiled h (xs ++ (c ∷ ys))
    → IsTiled (mark_block_used h (end_of h.start_ptr xs)) (xs ++ (cell c.size false ∷ ys))
mark_block_used-IsTiled h xs c ys t =
    IsTiled-flag h (mark_block_used h (end_of h.start_ptr xs)) xs c ys false (SameRest-lists h _ _)
      (set_used_here h.blocks (end_of h.start_ptr xs))
      (λ a other. set_other-SameBody h.blocks (end_of h.start_ptr xs) a _ other) t

pub mark_block_used-IsListed :
    (h : Heap) (b : ℕ) (nodes : List ℕ) → IsListed h nodes → IsListed (mark_block_used h b) nodes
mark_block_used-IsListed h b nodes l =
    IsListed-keep h (mark_block_used h b) nodes refl (set_used_links h.blocks b) l

-- A taken cell parts free cells, never joins them.
pub Coalesced-carve :
    (n : ℕ) (xs : List Cell) (c : Cell) (ys : List Cell)
    → c.free ≡ true
    → Coalesced (xs ++ (c ∷ ys))
    → Coalesced (xs ++ (carve n c ++ ys))
Coalesced-carve n [] c [] free apart = ground arith
Coalesced-carve n [] c (y ∷ ys) free apart = ground arith
Coalesced-carve n (x ∷ []) c [] free apart = ground arith
Coalesced-carve n (x ∷ []) c (y ∷ ys) free apart = ground arith
Coalesced-carve n (x ∷ z ∷ xs) c ys free (one, apart) =
    (one, Coalesced-carve n (z ∷ xs) c ys free apart)
