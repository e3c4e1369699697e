-- ===== src/Heap/Accepted.antt =====
-- A sound heap passes the walks of `heap_check_integrity_internal`.
use mathlib.Core.Path.{subst}
use termob_kernel.Base.{
  ℕ, zero, suc, ◌+◌, ◌^◌, ◌≤◌, ◌<◌, ◌≡◌, sym, ap, ◌∙◌, true, false, not, ◌&&◌, ◌||◌, arith, List,
  [], ◌∷◌, ◌++◌, leb, ◌==◌, Bool-cases, inl, inr, if◌then◌else◌,
}
use termob_kernel.Base.Words.{add32}
use termob_kernel.Base.Lists.{length}
use termob_kernel.Heap.{Heap, is_free, block_is_sane, end_address}
use termob_kernel.Heap.Integrity.{Walked, physical_walk, free_walk}
use termob_kernel.Heap.Linked.{first_of, last_of, last_of-snoc, Ascends, Linked}
use termob_kernel.Heap.Tiling.{
  Cell, behind, end_of, addresses, frees, IsTiled, Coalesced, IsTiled-IsAt, block_is_sane-IsAt,
  addresses-append,
}
use termob_kernel.Heap.Joining.{IsTiled-IsSecond, end_of-snoc}
use termob_kernel.Heap.Coalesce.{if_true, if_false}
use mathlib.Core.List.{append_assoc}

Coalesced-rest : (c : Cell) (cs : List Cell) → Coalesced (c ∷ cs) → Coalesced cs
Coalesced-rest c [] apart = tt
Coalesced-rest c (d ∷ ds) (one, apart) = apart

-- A free cell has no free neighbour behind it.
no_neighbour :
    (h : Heap) (xs : List Cell) (c : Cell) (cs : List Cell)
    → IsTiled h (xs ++ (c ∷ cs))
    → Coalesced (c ∷ cs)
    → (next : ℕ) → next ≡ first_of (addresses (behind (end_of h.start_ptr xs) c) cs) 0
    → (c.free && (not (next == 0) && is_free (h.blocks next))) ≡ false
no_neighbour h xs c [] t apart next e = ground arith
no_neighbour h xs c (d ∷ ds) t (one, apart) next e =
    let second = IsTiled-IsSecond h xs c d ds t in
    let flag : is_free (h.blocks next) ≡ d.free =
      ap (λ x. is_free (h.blocks x)) e ∙ second.cell.free in
    ground arith

plus_none : (n : ℕ) → n ≡ n + 0
plus_none n = omega arith

pub physical_walk-ends :
    (h : Heap) (walks prev count : ℕ) (xs cs : List Cell)
    → IsTiled h (xs ++ cs)
    → Coalesced cs
    → prev ≡ last_of 0 (addresses h.start_ptr xs)
    → length cs ≤ walks
    → count + length cs < 2 ^ 32
    → physical_walk h walks
        (first_of (addresses (end_of h.start_ptr xs) cs) 0)
        prev
        (end_of h.start_ptr xs)
        count
      ≡ Walked.ends
          (end_of (end_of h.start_ptr xs) cs)
          (count + length (frees (end_of h.start_ptr xs) cs))
unfolding physical_walk
physical_walk-ends h zero prev count xs [] t apart e enough small =
    ap (Walked.ends (end_of h.start_ptr xs)) (plus_none count)
physical_walk-ends h zero prev count xs (c ∷ cs) t apart e enough small = absurd (omega arith)
physical_walk-ends h (suc walks) prev count xs [] t apart e enough small =
    ap (Walked.ends (end_of h.start_ptr xs)) (plus_none count)
physical_walk-ends h (suc walks) prev count xs (c ∷ cs) t apart e enough small =
    let b : ℕ = end_of h.start_ptr xs in
    let at = IsTiled-IsAt h xs c cs t in
    let sane = block_is_sane-IsAt h xs c cs t in
    let some_block : (b == 0) ≡ false = ground (arith, t.some_address, at.low) in
    let same : (b == b) ≡ true = ground arith in
    let back : ((h.blocks b).prev_phys == prev) ≡ true = ground (arith, at.prev) in
    let alone = no_neighbour h xs c cs t apart (h.blocks b).next_phys at.next in
    let alone' : (is_free (h.blocks b)
          && (not ((h.blocks b).next_phys == 0) && is_free (h.blocks (h.blocks b).next_phys)))
        ≡ false =
      ap
        (λ f. f && (not ((h.blocks b).next_phys == 0) && is_free (h.blocks (h.blocks b).next_phys)))
        at.cell.free
      ∙ alone in
    let stop : end_address h b ≡ behind b c = omega (arith, at.cell.size, at.high, t.fits) in
    let count' : ℕ = if is_free (h.blocks b) then add32 count 1 else count in
    let counted : count' ≡ (if c.free then count + 1 else count) = ground (arith, at.cell.free) in
    let place = end_of-snoc h.start_ptr xs c in
    let last : b ≡ last_of 0 (addresses h.start_ptr (xs ++ (c ∷ []))) = sym (
      ap (last_of 0) (addresses-append h.start_ptr xs (c ∷ []))
      ∙ last_of-snoc 0 (addresses h.start_ptr xs) b) in
    let rest =
      physical_walk-ends h walks b count' (xs ++ (c ∷ [])) cs
        (subst (IsTiled h) (sym (append_assoc xs (c ∷ []) cs)) t) (Coalesced-rest c cs apart) last
        (omega arith) (ground arith) in
    let rest' =
      subst
        (λ a.
          physical_walk h walks (first_of (addresses a cs) 0) b a count'
          ≡ Walked.ends (end_of a cs) (count' + length (frees a cs)))
        place rest in
    let total : count' + length (frees (behind b c) cs) ≡ count + length (frees b (c ∷ cs)) =
      ground arith in
    let moved =
      ap (λ n. physical_walk h walks n b (end_address h b) count') at.next
      ∙ ap (λ a. physical_walk h walks (first_of (addresses (behind b c) cs) 0) b a count') stop in
    rw (some_block, sane, same, back, alone')
      (moved ∙ (rest' ∙ ap (Walked.ends (end_of (behind b c) cs)) total))

pub free_walk-ends :
    (h : Heap) (walks prev count : ℕ) (xs cs : List Cell)
    → IsTiled h (xs ++ cs)
    → Linked
        (λ a. (h.blocks a).prev_free)
        (λ a. (h.blocks a).next_free)
        prev
        (frees (end_of h.start_ptr xs) cs)
    → Ascends prev (frees (end_of h.start_ptr xs) cs)
    → length cs ≤ walks
    → count + length cs < 2 ^ 32
    → (last : ℕ) × (free_walk h walks (first_of (frees (end_of h.start_ptr xs) cs) 0) prev count
        ≡ Walked.ends last (count + length (frees (end_of h.start_ptr xs) cs)))
unfolding free_walk
free_walk-ends h zero prev count xs [] t l up enough small =
    (prev, ap (Walked.ends prev) (plus_none count))
free_walk-ends h zero prev count xs (c ∷ cs) t l up enough small = absurd (omega arith)
free_walk-ends h (suc walks) prev count xs [] t l up enough small =
    (prev, ap (Walked.ends prev) (plus_none count))
free_walk-ends h (suc walks) prev count xs (c ∷ cs) t l up enough small =
    let b : ℕ = end_of h.start_ptr xs in
    let Rest : (walks prev count : ℕ) → Type 0 = λ w p n.
      (last : ℕ) × (free_walk h w (first_of (frees (behind b c) cs) 0) p n
        ≡ Walked.ends last (n + length (frees (behind b c) cs))) in
    let place = end_of-snoc h.start_ptr xs c in
    let t' = subst (IsTiled h) (sym (append_assoc xs (c ∷ []) cs)) t in
    let rest : (w p n : ℕ)
        → Linked (λ a. (h.blocks a).prev_free) (λ a. (h.blocks a).next_free) p
            (frees (behind b c) cs)
        → Ascends p (frees (behind b c) cs)
        → length cs ≤ w
        → n + length cs < 2 ^ 32
        → Rest w p n =
      λ w p n l' up' enough' small'.
        subst
          (λ a.
            (last : ℕ) × (free_walk h w (first_of (frees a cs) 0) p n
              ≡ Walked.ends last (n + length (frees a cs))))
          place
          (free_walk-ends h w p n (xs ++ (c ∷ [])) cs t'
            (subst
              (λ a.
                Linked (λ a. (h.blocks a).prev_free) (λ a. (h.blocks a).next_free) p (frees a cs))
              (sym place) l')
            (subst (λ a. Ascends p (frees a cs)) (sym place) up') enough' small') in
    elim (Bool-cases c.free) [
      | inr used ↦
          let same = if_false c.free (b ∷ frees (behind b c) cs) (frees (behind b c) cs) used in
          subst
            (λ f.
              (last : ℕ) × (free_walk h (suc walks) (first_of f 0) prev count
                ≡ Walked.ends last (count + length f)))
            (sym same)
            (rest (suc walks) prev count (subst (Linked _ _ prev) same l)
              (subst (Ascends prev) same up) (omega arith) (omega arith))
      | inl free ↦
          let same = if_true c.free (b ∷ frees (behind b c) cs) (frees (behind b c) cs) free in
          let (back, next, l') =
            subst (Linked (λ a. (h.blocks a).prev_free) (λ a. (h.blocks a).next_free) prev) same
              l in
          let (lt, up') = subst (Ascends prev) same up in
          let at = IsTiled-IsAt h xs c cs t in
          let sane = block_is_sane-IsAt h xs c cs t in
          let some_block : (b == 0) ≡ false = ground (arith, t.some_address, at.low) in
          let good : (not (block_is_sane h b) || not (is_free (h.blocks b))) ≡ false =
            ground (arith, at.cell.free ∙ free) in
          let back' : ((h.blocks b).prev_free == prev) ≡ true = ground arith in
          let order : (not (prev == 0) && leb b prev) ≡ false = ground arith in
          let (last, e) = rest walks b (add32 count 1) l' up' (omega arith) (omega arith) in
          let total : add32 count 1 + length (frees (behind b c) cs)
              ≡ count + length (b ∷ frees (behind b c) cs) =
            omega arith in
          let moved = ap (λ n. free_walk h walks n b (add32 count 1)) next in
          subst
            (λ f.
              (last : ℕ) × (free_walk h (suc walks) (first_of f 0) prev count
                ≡ Walked.ends last (count + length f)))
            (sym same)
            (last, rw (some_block, good, back', order) (moved ∙ (e ∙ ap (Walked.ends last) total)))
    ]
