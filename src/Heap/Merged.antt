-- ===== src/Heap/Merged.antt =====
-- `heap_coalesce` around a newly freed cell: no free cells are neighbours any more, and the blocks in
-- use are the same.
use mathlib.Core.Path.{subst}
use termob_kernel.Base.{
  ℕ, ◌≡◌, sym, ap, ◌∙◌, true, false, arith, List, [], ◌∷◌, ◌++◌, Bool-cases, inl, inr,
}
use termob_kernel.Heap.{Heap}
use termob_kernel.Heap.Blocks.{try_coalesce_with_next}
use termob_kernel.Heap.Tiling.{Cell, behind, end_of, frees, IsTiled, IsListed, Coalesced}
use termob_kernel.Heap.FreeList.{SameRest-trans}
use termob_kernel.Heap.Splitting.{cell}
use termob_kernel.Heap.Joining.{joined}
use termob_kernel.Heap.Live.{Live}
use termob_kernel.Heap.Coalesce.{
  again, HeadIsFree, again-HeadIsFree, if_true, if_false, Becomes, try_coalesce_with_next-Becomes,
}

pub try_twice :
    (h : Heap) (b : ℕ) (xs zs : List Cell)
    → b ≡ end_of h.start_ptr xs
    → HeadIsFree zs
    → IsTiled h (xs ++ zs)
    → IsListed h (frees h.start_ptr (xs ++ zs))
    → Becomes h (try_coalesce_with_next (try_coalesce_with_next h b) b) (xs ++ again (again zs))
try_twice h b xs zs e free t l =
    let h1 : Heap = try_coalesce_with_next h b in
    let r = try_coalesce_with_next-Becomes h b xs zs e free t l in
    let r' =
      try_coalesce_with_next-Becomes h1 b xs (again zs)
        (e ∙ ap (λ s. end_of s xs) (sym r.rest.start)) (again-HeadIsFree zs free) r.tiled
        (subst (λ s. IsListed h1 (frees s (xs ++ again zs))) (sym r.rest.start) r.listed) in
    record {
      rest = SameRest-trans r.rest r'.rest;
      tiled = r'.tiled;
      listed =
          subst (λ s. IsListed (try_coalesce_with_next h1 b) (frees s (xs ++ again (again zs))))
            r.rest.start r'.listed;
    }

-- The same blocks are in use.
pub record SameLive (at : ℕ) (cs cs' : List Cell) : Type 0 where
  pub there : (b s : ℕ) → Live at cs b s → Live at cs' b s
  pub back : (b s : ℕ) → Live at cs' b s → Live at cs b s

SameLive-trans :
    {at : ℕ} {cs ds es : List Cell} → SameLive at cs ds → SameLive at ds es → SameLive at cs es
SameLive-trans u v = record {
  there = λ b s live. v.there b s (u.there b s live);
  back = λ b s live. u.back b s (v.back b s live);
}

pub SameLive-prefix :
    (at : ℕ) (xs cs cs' : List Cell)
    → SameLive (end_of at xs) cs cs'
    → SameLive at (xs ++ cs) (xs ++ cs')
SameLive-prefix at [] cs cs' same = same
SameLive-prefix at (x ∷ xs) cs cs' same =
    let rest = SameLive-prefix (behind at x) xs cs cs' same in
    record {
      there = λ b s live. elim live [ inl own ↦ inl own | inr l ↦ inr (rest.there b s l) ];
      back = λ b s live. elim live [ inl own ↦ inl own | inr l ↦ inr (rest.back b s l) ];
    }

SameLive-refl : (at : ℕ) (cs : List Cell) → SameLive at cs cs
SameLive-refl at cs = record { there = λ b s live. live; back = λ b s live. live }

again-SameLive : (at : ℕ) (cs : List Cell) → HeadIsFree cs → SameLive at cs (again cs)
again-SameLive at [] free = absurd free
again-SameLive at (c ∷ []) free = SameLive-refl at (c ∷ [])
again-SameLive at (c ∷ d ∷ ds) free = elim (Bool-cases d.free) [
  | inr used ↦
      subst (SameLive at (c ∷ d ∷ ds)) (sym (if_false d.free _ _ used))
        (SameLive-refl at (c ∷ d ∷ ds))
  | inl free' ↦
      let place : behind (behind at c) d ≡ behind at (joined c d) = omega arith in
      subst (SameLive at (c ∷ d ∷ ds)) (sym (if_true d.free _ _ free')) (record {
        there = λ b s live. elim live [
          | inl (used, _, _) ↦ absurd (ground arith)
          | inr (inl (used, _, _)) ↦ absurd (ground arith)
          | inr (inr l) ↦ inr (subst (λ a. Live a ds b s) place l)
        ];
        back = λ b s live. elim live [
          | inl (used, _, _) ↦ absurd (ground arith)
          | inr l ↦ inr (inr (subst (λ a. Live a ds b s) (sym place) l))
        ];
      })
]

pub again_twice-SameLive :
    (at : ℕ) (cs : List Cell) → HeadIsFree cs → SameLive at cs (again (again cs))
again_twice-SameLive at cs free =
    SameLive-trans (again-SameLive at cs free)
      (again-SameLive at (again cs) (again-HeadIsFree cs free))

-- Two joins at a cell that was used, or at the free one in front of it, are enough.
pub again_twice-Coalesced :
    (c : Cell) (ys : List Cell)
    → Coalesced (c ∷ ys)
    → Coalesced (again (again (cell c.size true ∷ ys)))
again_twice-Coalesced c [] apart = tt
again_twice-Coalesced c (d ∷ []) apart = ground arith
again_twice-Coalesced c (d ∷ e ∷ es) apart = ground arith

pub again_behind-Coalesced :
    (w c : Cell) (ys : List Cell)
    → w.free ≡ true
    → Coalesced (w ∷ c ∷ ys)
    → Coalesced (again (again (w ∷ cell c.size true ∷ ys)))
again_behind-Coalesced w c [] free apart = tt
again_behind-Coalesced w c (d ∷ []) free apart = ground arith
again_behind-Coalesced w c (d ∷ e ∷ es) free apart = ground arith

-- A free cell that takes the place of another.
pub Coalesced-front :
    (xs : List Cell) (w : Cell) (ys zs : List Cell)
    → Coalesced (xs ++ (w ∷ ys))
    → w.free ≡ true
    → HeadIsFree zs
    → Coalesced zs
    → Coalesced (xs ++ zs)
Coalesced-front [] w ys zs apart free head apart' = apart'
Coalesced-front (x ∷ []) w ys [] apart free head apart' = absurd head
Coalesced-front (x ∷ []) w ys (z ∷ zs) apart free head apart' = (ground arith, apart')
Coalesced-front (x ∷ y ∷ xs) w ys zs (one, apart) free head apart' =
    (one, Coalesced-front (y ∷ xs) w ys zs apart free head apart')

-- A cell that comes behind a used one.
pub Coalesced-behind :
    (xs : List Cell) (w : Cell) (ys zs : List Cell)
    → Coalesced (xs ++ (w ∷ ys))
    → w.free ≡ false
    → Coalesced zs
    → Coalesced (xs ++ (w ∷ zs))
Coalesced-behind [] w ys [] apart used apart' = tt
Coalesced-behind [] w ys (z ∷ zs) apart used apart' = (ground arith, apart')
Coalesced-behind (x ∷ []) w ys zs (one, apart) used apart' =
    (one, Coalesced-behind [] w ys zs apart used apart')
Coalesced-behind (x ∷ y ∷ xs) w ys zs (one, apart) used apart' =
    (one, Coalesced-behind (y ∷ xs) w ys zs apart used apart')

pub Coalesced-tail : (xs ys : List Cell) → Coalesced (xs ++ ys) → Coalesced ys
Coalesced-tail [] ys apart = apart
Coalesced-tail (x ∷ []) [] apart = tt
Coalesced-tail (x ∷ []) (y ∷ ys) (one, apart) = apart
Coalesced-tail (x ∷ y ∷ xs) ys (one, apart) = Coalesced-tail (y ∷ xs) ys apart
