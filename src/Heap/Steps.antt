-- ===== src/Heap/Steps.antt =====
-- What an insertion into the free list means for the cells.
use mathlib.Core.Path.{subst}
use termob_kernel.Base.{ℕ, ◌≡◌, sym, ◌∙◌, true, arith, List, ◌∷◌, ◌++◌, ◌==◌, Bool-cases, inl, inr}
use termob_kernel.Base.Arrays.{set}
use termob_kernel.Heap.{Heap, HeapBlock, is_free, mark_free}
use termob_kernel.Heap.Tiling.{Cell, end_of, IsCell, IsTiled}
use termob_kernel.Heap.Insert.{SameBody-trans, IsInserted}
use termob_kernel.Heap.Splitting.{cell}
use termob_kernel.Heap.Flags.{
  IsTiled-keep, IsTiled-flag, SameFlagged, mark_free-SameFlagged, set_other-SameBody,
  IsCell-SameBody, SameFlagged-SameBody,
}

inserted-prev :
    (m : ℕ → HeapBlock) (b a : ℕ)
    → ((set m b (mark_free (m b)) a).prev_phys ≡ (m a).prev_phys)
      × ((set m b (mark_free (m b)) a).next_phys ≡ (m a).next_phys)
unfolding mark_free
inserted-prev m b a = (ground arith, ground arith)

inserted_cell :
    (m : ℕ → HeapBlock) (b a : ℕ) (c : Cell)
    → is_free (m b) ≡ true
    → IsCell (m a) c
    → IsCell (set m b (mark_free (m b)) a) c
inserted_cell m b a c free h = elim (Bool-cases (a == b)) [
  | inr other ↦ IsCell-SameBody (m a) _ c (set_other-SameBody m b a _ (ground arith)) h
  | inl e ↦
      let e' : a ≡ b = ground arith in
      let here : set m b (mark_free (m b)) b ≡ mark_free (m b) = ground arith in
      let own = mark_free-SameFlagged (m b) in
      let old : IsCell (m b) c = subst (λ x. IsCell (m x) c) e' h in
      subst (λ x. IsCell (set m b (mark_free (m b)) x) c) (sym e')
        (subst (λ v. IsCell v c) (sym here)
          (record {
            magic = own.magic ∙ old.magic;
            free = own.flag ∙ (sym free ∙ old.free);
            size = own.size ∙ old.size;
            aligned = old.aligned;
          }))
]

-- A block that is marked as free already.
pub IsInserted-IsTiled :
    (h h' : Heap) (b : ℕ) (nodes : List ℕ) (cs : List Cell)
    → IsInserted h h' b nodes
    → is_free (h.blocks b) ≡ true
    → IsTiled h cs
    → IsTiled h' cs
IsInserted-IsTiled h h' b nodes cs i free t =
    let m : ℕ → HeapBlock = set h.blocks b (mark_free (h.blocks b)) in
    IsTiled-keep h h' cs i.rest
      (λ a c cell.
        IsCell-SameBody (m a) (h'.blocks a) c (i.body a) (inserted_cell h.blocks b a c free cell))
      (λ a. let (p, n) = inserted-prev h.blocks b a in ((i.body a).prev ∙ p, (i.body a).next ∙ n)) t

-- A cell that becomes free.
pub IsInserted-free :
    (h h' : Heap) (xs : List Cell) (c : Cell) (ys : List Cell) (nodes : List ℕ)
    → IsInserted h h' (end_of h.start_ptr xs) nodes
    → IsTiled h (xs ++ (c ∷ ys))
    → IsTiled h' (xs ++ (cell c.size true ∷ ys))
IsInserted-free h h' xs c ys nodes i t =
    let b : ℕ = end_of h.start_ptr xs in
    let m : ℕ → HeapBlock = set h.blocks b (mark_free (h.blocks b)) in
    let here : m b ≡ mark_free (h.blocks b) = ground arith in
    let own =
      subst (λ v. SameFlagged (h.blocks b) v true) (sym here)
        (mark_free-SameFlagged (h.blocks b)) in
    IsTiled-flag h h' xs c ys true i.rest
      (SameFlagged-SameBody (h.blocks b) (m b) (h'.blocks b) true own (i.body b))
      (λ a other. SameBody-trans (set_other-SameBody h.blocks b a _ other) (i.body a)) t
