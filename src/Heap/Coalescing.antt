-- ===== src/Heap/Coalescing.antt =====
-- `heap_coalesce` at a cell that has been freed.
use mathlib.Core.Path.{subst}
use mathlib.Core.List.{append_assoc}
use termob_kernel.Base.{
  ℕ, ◌≡◌, refl, sym, ap, ◌∙◌, true, false, not, ◌&&◌, arith, List, [], ◌∷◌, ◌++◌, ◌==◌, Bool-cases,
  ◌⊎◌, inl, inr, if◌then◌else◌,
}
use termob_kernel.Heap.{Heap, is_free}
use termob_kernel.Heap.Blocks.{try_coalesce_with_next, coalesce}
use termob_kernel.Heap.Linked.{last_of, last_of-snoc}
use termob_kernel.Heap.Tiling.{
  Cell, end_of, addresses, frees, IsTiled, IsListed, Coalesced, IsTiled-IsAt, addresses-append,
}
use termob_kernel.Heap.Splitting.{cell}
use termob_kernel.Heap.Joining.{cells_two}
use termob_kernel.Heap.Coalesce.{again, again-HeadIsFree, if_true, if_false, Becomes}
use termob_kernel.Heap.Merged.{
  try_twice, SameLive, SameLive-prefix, again_twice-SameLive, again_twice-Coalesced,
  again_behind-Coalesced, Coalesced-front, Coalesced-behind, Coalesced-tail,
}

Last-cases : (xs : List Cell) → (xs ≡ []) ⊎ ((ws : List Cell) × (w : Cell) × (xs ≡ ws ++ (w ∷ [])))
Last-cases [] = inl refl
Last-cases (x ∷ xs) = elim (Last-cases xs) [
  | inl e ↦ inr ([], x, ap (λ l. x ∷ l) e)
  | inr (ws, w, e) ↦ inr (x ∷ ws, w, ap (λ l. x ∷ l) e)
]

-- A heap around a cell that has been freed, before and after the joins.
pub record IsMerged (h h' : Heap) (cs : List Cell) : Type 0 where
  pub cells : List Cell
  pub becomes : Becomes h h' cells
  pub same : SameLive h.start_ptr cs cells
  pub coalesced : Coalesced cells

-- The call where the block in front is in use or there is none.
merge_here :
    (h : Heap) (xs : List Cell) (c : Cell) (ys : List Cell)
    → IsTiled h (xs ++ (cell c.size true ∷ ys))
    → IsListed h (frees h.start_ptr (xs ++ (cell c.size true ∷ ys)))
    → Coalesced (xs ++ again (again (cell c.size true ∷ ys)))
    → (merged : ℕ) → merged ≡ end_of h.start_ptr xs
    → IsMerged h
        (try_coalesce_with_next (try_coalesce_with_next h merged) merged)
        (xs ++ (cell c.size true ∷ ys))
merge_here h xs c ys t l apart merged e = record {
  cells = xs ++ again (again (cell c.size true ∷ ys));
  becomes = try_twice h merged xs (cell c.size true ∷ ys) e refl t l;
  same =
      SameLive-prefix h.start_ptr xs (cell c.size true ∷ ys) _
        (again_twice-SameLive (end_of h.start_ptr xs) (cell c.size true ∷ ys) refl);
  coalesced = apart;
}

-- The call where the block in front is free: that block takes in the others.
merge_front :
    (h : Heap) (ws : List Cell) (w c : Cell) (ys : List Cell)
    → IsTiled h (ws ++ (w ∷ cell c.size true ∷ ys))
    → IsListed h (frees h.start_ptr (ws ++ (w ∷ cell c.size true ∷ ys)))
    → Coalesced (ws ++ (w ∷ c ∷ ys))
    → w.free ≡ true
    → (merged : ℕ) → merged ≡ end_of h.start_ptr ws
    → IsMerged h
        (try_coalesce_with_next (try_coalesce_with_next h merged) merged)
        (ws ++ (w ∷ cell c.size true ∷ ys))
merge_front h ws w c ys t l apart free merged e =
    let zs : List Cell = w ∷ cell c.size true ∷ ys in
    record {
      cells = ws ++ again (again zs);
      becomes = try_twice h merged ws zs e free t l;
      same =
          SameLive-prefix h.start_ptr ws zs _
            (again_twice-SameLive (end_of h.start_ptr ws) zs free);
      coalesced =
          Coalesced-front ws w (c ∷ ys) (again (again zs)) apart free
            (again-HeadIsFree (again zs) (again-HeadIsFree zs free))
            (again_behind-Coalesced w c ys free (Coalesced-tail ws (w ∷ c ∷ ys) apart));
    }

-- The block at which the joins are tried.
chosen :
    (h : Heap) (b merged : ℕ)
    → (b == 0) ≡ false
    → (if not ((h.blocks b).prev_phys == 0) && is_free (h.blocks (h.blocks b).prev_phys)
        then (h.blocks b).prev_phys
        else b)
      ≡ merged
    → (coalesce h b).1 ≡ try_coalesce_with_next (try_coalesce_with_next h merged) merged
unfolding coalesce
chosen h b merged some_block e =
    ap (λ (p : ℕ × Heap). p.1) (if_false (b == 0) _ _ some_block)
    ∙ ap (λ m. try_coalesce_with_next (try_coalesce_with_next h m) m) e

-- `heap_coalesce` at a cell behind the cells `xs` that has just been freed.
abbrev pub Coalesces : (h : Heap) (c : Cell) (ys xs : List Cell) → Type 0
Coalesces h c ys xs =
    IsTiled h (xs ++ (cell c.size true ∷ ys))
    → IsListed h (frees h.start_ptr (xs ++ (cell c.size true ∷ ys)))
    → Coalesced (xs ++ (c ∷ ys))
    → (b : ℕ) → b ≡ end_of h.start_ptr xs
    → IsMerged h (coalesce h b).1 (xs ++ (cell c.size true ∷ ys))

coalesce_first : (h : Heap) (c : Cell) (ys : List Cell) → Coalesces h c ys []
coalesce_first h c ys t l apart b e =
    let at = IsTiled-IsAt h [] (cell c.size true) ys t in
    let prev : (h.blocks b).prev_phys ≡ 0 = ap (λ x. (h.blocks x).prev_phys) e ∙ at.prev in
    let some_block : (b == 0) ≡ false = ground (arith, t.some_address) in
    let alone : (not ((h.blocks b).prev_phys == 0) && is_free (h.blocks (h.blocks b).prev_phys))
        ≡ false =
      ground arith in
    let choice = chosen h b b some_block (if_false _ _ _ alone) in
    subst (λ h'. IsMerged h h' (cell c.size true ∷ ys)) (sym choice)
      (merge_here h [] c ys t l (again_twice-Coalesced c ys apart) b e)

coalesce_behind :
    (h : Heap) (c : Cell) (ys ws : List Cell) (w : Cell) → Coalesces h c ys (ws ++ (w ∷ []))
coalesce_behind h c ys ws w t l apart b e =
    let freed : Cell = cell c.size true in
    let xs : List Cell = ws ++ (w ∷ []) in
    let two = cells_two ws w freed ys in
    let at = IsTiled-IsAt h xs freed ys t in
    let front = IsTiled-IsAt h ws w (freed ∷ ys) (subst (IsTiled h) two t) in
    let prev : (h.blocks b).prev_phys ≡ end_of h.start_ptr ws =
      ap (λ x. (h.blocks x).prev_phys) e
      ∙ (at.prev
          ∙ (ap (last_of 0) (addresses-append h.start_ptr ws (w ∷ []))
              ∙ last_of-snoc 0 (addresses h.start_ptr ws) (end_of h.start_ptr ws))) in
    let some_block : (b == 0) ≡ false = ground (arith, t.some_address, at.low) in
    let some_front : ((h.blocks b).prev_phys == 0) ≡ false =
      ground (arith, t.some_address, front.low) in
    let flag : is_free (h.blocks (h.blocks b).prev_phys) ≡ w.free =
      ap (λ x. is_free (h.blocks x)) prev ∙ front.cell.free in
    let apart' = subst Coalesced (cells_two ws w c ys) apart in
    elim (Bool-cases w.free) [
      | inl free ↦
          let joins : (not ((h.blocks b).prev_phys == 0)
                && is_free (h.blocks (h.blocks b).prev_phys))
              ≡ true =
            ground arith in
          let choice = chosen h b (h.blocks b).prev_phys some_block (if_true _ _ _ joins) in
          subst (λ h'. IsMerged h h' (xs ++ (freed ∷ ys))) (sym choice)
            (subst (IsMerged h _) (sym two) (
              merge_front h ws w c ys (subst (IsTiled h) two t)
                (subst (λ cs. IsListed h (frees h.start_ptr cs)) two l) apart' free
                (h.blocks b).prev_phys prev))
      | inr used ↦
          let alone : (not ((h.blocks b).prev_phys == 0)
                && is_free (h.blocks (h.blocks b).prev_phys))
              ≡ false =
            ground arith in
          let choice = chosen h b b some_block (if_false _ _ _ alone) in
          let joined_part = again_twice-Coalesced c ys (Coalesced-tail xs (c ∷ ys) apart) in
          let parted =
            subst Coalesced (sym (append_assoc ws (w ∷ []) (again (again (freed ∷ ys))))) (
              Coalesced-behind ws w (c ∷ ys) (again (again (freed ∷ ys))) apart' used
                joined_part) in
          subst (λ h'. IsMerged h h' (xs ++ (freed ∷ ys))) (sym choice)
            (merge_here h xs c ys t l parted b e)
    ]

pub coalesce-IsMerged : (h : Heap) (c : Cell) (ys xs : List Cell) → Coalesces h c ys xs
coalesce-IsMerged h c ys xs = elim (Last-cases xs) [
  | inl nil ↦ subst (Coalesces h c ys) (sym nil) (coalesce_first h c ys)
  | inr (ws, w, snoc) ↦ subst (Coalesces h c ys) (sym snoc) (coalesce_behind h c ys ws w)
]
