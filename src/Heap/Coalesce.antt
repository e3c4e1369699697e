-- ===== src/Heap/Coalesce.antt =====
-- `heap_coalesce` on a sound heap with a newly freed cell: no free cells are neighbours any more, and
-- the blocks in use are the same.
use mathlib.Core.Path.{subst}
use mathlib.Core.List.{append_assoc}
use termob_kernel.Base.{
  ℕ, ◌≡◌, refl, sym, ap, ◌∙◌, Bool, true, false, not, ◌||◌, arith, List, [], ◌∷◌, ◌++◌, ◌==◌,
  Bool-cases, inl, inr, if◌then◌else◌,
}
use termob_kernel.Heap.{Heap, is_free, block_is_sane, end_address}
use termob_kernel.Heap.Blocks.{remove_free_block, join_writes, try_coalesce_with_next}
use termob_kernel.Heap.Tiling.{
  Cell, behind, end_of, frees, IsTiled, IsListed, IsTiled-IsAt, frees-append,
}
use termob_kernel.Heap.FreeList.{
  SameRest, SameRest-refl, SameRest-lists, SameRest-trans, remove_free_block-IsRelisted,
}
use termob_kernel.Heap.Flags.{IsTiled-body, IsListed-keep}
use termob_kernel.Heap.Joining.{joined, IsTiled-IsSecond, join_writes_free, join-IsTiled}

-- The first of these cells takes in the next, if that is free.
abbrev pub again : List Cell → List Cell
again [] = []
again (c ∷ []) = c ∷ []
again (c ∷ d ∷ ds) = if d.free then joined c d ∷ ds else c ∷ d ∷ ds

abbrev pub HeadIsFree : List Cell → Type 0
HeadIsFree [] = ⊥
HeadIsFree (c ∷ cs) = c.free ≡ true

pub if_true : {A : Type 0} (b : Bool) (x y : A) → b ≡ true → (if b then x else y) ≡ x
if_true b x y e = ap (λ b'. if b' then x else y) e

pub if_false : {A : Type 0} (b : Bool) (x y : A) → b ≡ false → (if b then x else y) ≡ y
if_false b x y e = ap (λ b'. if b' then x else y) e

pub again-HeadIsFree : (cs : List Cell) → HeadIsFree cs → HeadIsFree (again cs)
again-HeadIsFree [] h = h
again-HeadIsFree (c ∷ []) h = h
again-HeadIsFree (c ∷ d ∷ ds) h = elim (Bool-cases d.free) [
  | inl free ↦ rw free refl
  | inr used ↦ rw used h
]

-- A heap after a step that leaves its cells as given, which may be free side by side.
pub record Becomes (h h' : Heap) (cs : List Cell) : Type 0 where
  pub rest : SameRest h h'
  pub tiled : IsTiled h' cs
  pub listed : IsListed h' (frees h.start_ptr cs)

-- The free list around two free neighbours.
frees_two :
    (at : ℕ) (xs : List Cell) (c d : Cell) (ys : List Cell)
    → c.free ≡ true
    → d.free ≡ true
    → frees at (xs ++ (c ∷ d ∷ ys))
      ≡ (frees at xs ++ (end_of at xs ∷ []))
        ++ (behind (end_of at xs) c ∷ frees (behind (behind (end_of at xs) c) d) ys)
frees_two at xs c d ys free free' =
    let b : ℕ = end_of at xs in
    let rest =
      if_true d.free (behind b c ∷ frees (behind (behind b c) d) ys)
        (frees (behind (behind b c) d) ys) free' in
    frees-append at xs (c ∷ d ∷ ys)
    ∙ (ap (λ l. frees at xs ++ l)
          (if_true c.free (b ∷ frees (behind b c) (d ∷ ys)) _ free ∙ ap (λ l. b ∷ l) rest)
        ∙ sym (append_assoc (frees at xs) (b ∷ []) _))

frees-joined :
    (at : ℕ) (xs : List Cell) (c d : Cell) (ys : List Cell)
    → frees at (xs ++ (joined c d ∷ ys))
      ≡ (frees at xs ++ (end_of at xs ∷ [])) ++ frees (behind (behind (end_of at xs) c) d) ys
frees-joined at xs c d ys =
    let place : behind (end_of at xs) (joined c d) ≡ behind (behind (end_of at xs) c) d =
      omega arith in
    frees-append at xs (joined c d ∷ ys)
    ∙ (ap (λ a. frees at xs ++ (end_of at xs ∷ frees a ys)) place
        ∙ sym (append_assoc (frees at xs) (end_of at xs ∷ []) _))

-- Two free neighbours, the second at `next`.
coalesced_with : Heap → (b next : ℕ) → Heap
coalesced_with h b next = record (remove_free_block h next) {
  blocks = join_writes (remove_free_block h next).blocks b next;
}

join_writes-Becomes :
    (h : Heap) (xs : List Cell) (c d : Cell) (ys : List Cell)
    → c.free ≡ true
    → d.free ≡ true
    → IsTiled h (xs ++ (c ∷ d ∷ ys))
    → IsListed h (frees h.start_ptr (xs ++ (c ∷ d ∷ ys)))
    → Becomes h
        (coalesced_with h (end_of h.start_ptr xs) (behind (end_of h.start_ptr xs) c))
        (xs ++ (joined c d ∷ ys))
unfolding coalesced_with
join_writes-Becomes h xs c d ys free free' t l =
    let b : ℕ = end_of h.start_ptr xs in
    let next : ℕ = behind b c in
    let removed : Heap = remove_free_block h next in
    let front : List ℕ = frees h.start_ptr xs ++ (b ∷ []) in
    let back : List ℕ = frees (behind next d) ys in
    let r =
      remove_free_block-IsRelisted h front next back
        (subst (IsListed h) (frees_two h.start_ptr xs c d ys free free') l) in
    let t' = IsTiled-body h removed (xs ++ (c ∷ d ∷ ys)) r.rest r.body t in
    record {
      rest = SameRest-trans r.rest (SameRest-lists removed _ _);
      tiled =
          subst
            (λ s.
              IsTiled
                (record removed {
                  blocks = join_writes removed.blocks (end_of s xs) (behind (end_of s xs) c);
                })
                (xs ++ (joined c d ∷ ys)))
            r.rest.start (join-IsTiled removed xs c d ys t' free);
      listed = subst (IsListed _) (sym (frees-joined h.start_ptr xs c d ys)) (
          IsListed-keep removed (record removed { blocks = join_writes removed.blocks b next })
            (front ++ back) refl (join_writes_free removed.blocks b next) r.listed);
    }

join_step :
    (h : Heap) (xs : List Cell) (c d : Cell) (ys : List Cell)
    → c.free ≡ true
    → d.free ≡ true
    → IsTiled h (xs ++ (c ∷ d ∷ ys))
    → IsListed h (frees h.start_ptr (xs ++ (c ∷ d ∷ ys)))
    → Becomes h (try_coalesce_with_next h (end_of h.start_ptr xs)) (xs ++ (joined c d ∷ ys))
unfolding try_coalesce_with_next coalesced_with
join_step h xs c d ys free free' t l =
    let b : ℕ = end_of h.start_ptr xs in
    let next : ℕ = (h.blocks b).next_phys in
    let at = IsTiled-IsAt h xs c (d ∷ ys) t in
    let second = IsTiled-IsSecond h xs c d ys t in
    let place : next ≡ behind b c = at.next in
    let mine : ((b == 0) || not (is_free (h.blocks b))) ≡ false =
      ground (arith, t.some_address, at.low, at.cell.free ∙ free) in
    let flag : is_free (h.blocks next) ≡ true =
      ap (λ x. is_free (h.blocks x)) place ∙ (second.cell.free ∙ free') in
    let theirs : ((next == 0) || not (is_free (h.blocks next))) ≡ false = ground arith in
    let sane : block_is_sane h next ≡ true = ap (block_is_sane h) place ∙ second.sane in
    let stop : end_address h b ≡ next = omega (arith, at.cell.size, at.high, t.fits) in
    let fits : (not (block_is_sane h next) || not (end_address h b == next)) ≡ false =
      ground arith in
    let e : try_coalesce_with_next h b ≡ coalesced_with h b next =
      if_false _ _ _ mine ∙ (if_false _ _ _ theirs ∙ if_false _ _ _ fits) in
    subst (λ h'. Becomes h h' (xs ++ (joined c d ∷ ys))) (sym e)
      (subst (λ x. Becomes h (coalesced_with h b x) (xs ++ (joined c d ∷ ys))) (sym place)
        (join_writes-Becomes h xs c d ys free free' t l))

pub try_coalesce_with_next-Becomes :
    (h : Heap) (b : ℕ) (xs zs : List Cell)
    → b ≡ end_of h.start_ptr xs
    → HeadIsFree zs
    → IsTiled h (xs ++ zs)
    → IsListed h (frees h.start_ptr (xs ++ zs))
    → Becomes h (try_coalesce_with_next h b) (xs ++ again zs)
unfolding try_coalesce_with_next
try_coalesce_with_next-Becomes h b xs [] e free t l = absurd free
try_coalesce_with_next-Becomes h b xs (c ∷ []) e free t l =
    let at = IsTiled-IsAt h xs c [] t in
    let next : ((h.blocks b).next_phys == 0) ≡ true =
      ground (arith, ap (λ x. (h.blocks x).next_phys) e, at.next) in
    let same : try_coalesce_with_next h b ≡ h = ground arith in
    subst (λ h'. Becomes h h' (xs ++ (c ∷ []))) (sym same)
      (record { rest = SameRest-refl h; tiled = t; listed = l })
try_coalesce_with_next-Becomes h b xs (c ∷ d ∷ ys) e free t l = elim (Bool-cases d.free) [
  | inl free' ↦
      subst (λ zs. Becomes h (try_coalesce_with_next h b) (xs ++ zs))
        (sym (if_true d.free _ _ free'))
        (subst (λ x. Becomes h (try_coalesce_with_next h x) (xs ++ (joined c d ∷ ys))) (sym e)
          (join_step h xs c d ys free free' t l))
  | inr used ↦
      let at = IsTiled-IsAt h xs c (d ∷ ys) t in
      let second = IsTiled-IsSecond h xs c d ys t in
      let next = ap (λ x. (h.blocks x).next_phys) e ∙ at.next in
      let flag = ap (λ x. is_free (h.blocks x)) next ∙ (second.cell.free ∙ used) in
      let same : try_coalesce_with_next h b ≡ h = ground arith in
      subst (λ zs. Becomes h (try_coalesce_with_next h b) (xs ++ zs))
        (sym (if_false d.free _ _ used))
        (subst (λ h'. Becomes h h' (xs ++ (c ∷ d ∷ ys))) (sym same)
          (record { rest = SameRest-refl h; tiled = t; listed = l }))
]
