-- ===== src/Heap/Listing.antt =====
-- What the walks over the free list establish.
use mathlib.Core.Path.{subst}
use termob_kernel.Base.{
  ℕ, zero, suc, ◌+◌, ◌-◌, ◌^◌, ◌<◌, ◌≡◌, refl, sym, ap, ◌∙◌, true, false, not, ◌&&◌, ◌||◌, arith,
  none, List, [], ◌∷◌, leb, ◌==◌, Bool-cases, inl, inr,
}
use termob_kernel.Base.Words.{add32}
use termob_kernel.Base.Lists.{length}
use termob_kernel.Heap.{Heap, is_free, block_is_sane}
use termob_kernel.Heap.Integrity.{Walked, free_walk, contains_loop, free_list_contains, listed_walk}
use termob_kernel.Heap.Linked.{first_of, Ascends, Linked}
use termob_kernel.Heap.Tiling.{Cell, behind, addresses, frees, Holds}
use termob_kernel.Heap.Splitting.{cell}
use termob_kernel.Heap.Coalesce.{if_true, if_false}
use termob_kernel.Heap.Sorted.{In}

-- The nodes of the free list that the second walk has seen.
pub record FreeChain (h : Heap) (block prev count n : ℕ) : Type 0 where
  pub nodes : List ℕ
  pub linked : Linked (λ a. (h.blocks a).prev_free) (λ a. (h.blocks a).next_free) prev nodes
  pub head : block ≡ first_of nodes 0
  pub ascends : Ascends prev nodes
  pub counted : n ≡ count + length nodes

abbrev pub FreeWalked : Heap → (block prev count : ℕ) → Walked → Type 0
FreeWalked h block prev count (Walked.fails message) = Unit
FreeWalked h block prev count (Walked.ends last n) = FreeChain h block prev count n

no_nodes : (h : Heap) (block prev count : ℕ) → block ≡ 0 → FreeChain h block prev count count
no_nodes h block prev count e = record {
  nodes = [];
  linked = tt;
  head = e;
  ascends = tt;
  counted = omega arith;
}

one_more_node :
    (h : Heap) (block prev count : ℕ) (r : Walked)
    → (h.blocks block).prev_free ≡ prev
    → prev < block
    → count < 2 ^ 32 - 1
    → FreeWalked h (h.blocks block).next_free block (add32 count 1) r
    → FreeWalked h block prev count r
one_more_node h block prev count (Walked.fails message) back order small p = tt
one_more_node h block prev count (Walked.ends last n) back order small p = record {
  nodes = block ∷ p.nodes;
  linked = (back, p.head, p.linked);
  head = refl;
  ascends = (order, p.ascends);
  counted = omega (arith, p.counted);
}

pub free_walk-FreeWalked :
    (h : Heap) (walks block prev count : ℕ)
    → count + walks < 2 ^ 32
    → FreeWalked h block prev count (free_walk h walks block prev count)
unfolding free_walk
free_walk-FreeWalked h zero block prev count small = elim (Bool-cases (block == 0)) [
  | inl z ↦ rw z (no_nodes h block prev count (ground arith))
  | inr more ↦ rw more tt
]
free_walk-FreeWalked h (suc walks) block prev count small =
    let rest =
      free_walk-FreeWalked h walks (h.blocks block).next_free block (add32 count 1) (omega arith) in
    elim (Bool-cases (block == 0)) [
      | inl z ↦ rw z (no_nodes h block prev count (ground arith))
      | inr more ↦
          elim (Bool-cases (not (block_is_sane h block) || not (is_free (h.blocks block)))) [
            | inl bad ↦ rw (more, bad) tt
            | inr good ↦ elim (Bool-cases ((h.blocks block).prev_free == prev)) [
              | inr broken ↦ rw (more, good, broken) tt
              | inl back ↦ elim (Bool-cases (not (prev == 0) && leb block prev)) [
                | inl early ↦ rw (more, good, back, early) tt
                | inr order ↦
                    rw (more, good, back, order)
                      (one_more_node h block prev count _ (ground arith) (ground arith)
                        (omega arith) rest)
              ]
            ]
          ]
    ]

-- The third walk.
pub contains_loop-In :
    (h : Heap) (walks block target prev : ℕ) (nodes : List ℕ)
    → Linked (λ a. (h.blocks a).prev_free) (λ a. (h.blocks a).next_free) prev nodes
    → Ascends prev nodes
    → block ≡ first_of nodes 0
    → contains_loop h walks block target ≡ true
    → In target nodes
unfolding contains_loop
contains_loop-In h zero block target prev nodes l up e found = absurd (ground arith)
contains_loop-In h (suc walks) block target prev [] l up e found = absurd (ground arith)
contains_loop-In h (suc walks) block target prev (x ∷ nodes) (back, next, l) (lt, up) e found =
    elim (Bool-cases (block == target)) [
      | inl here ↦ inl (ground arith)
      | inr other ↦
          let next' : (h.blocks block).next_free ≡ first_of nodes 0 =
            ap (λ a. (h.blocks a).next_free) e ∙ next in
          inr (
            contains_loop-In h walks (h.blocks block).next_free target x nodes l up next'
              (ground arith))
    ]

pub listed_walk-In :
    (h : Heap) (walks block prev at : ℕ) (cs : List Cell) (nodes : List ℕ)
    → listed_walk h walks block ≡ none
    → block ≡ first_of (addresses at cs) 0
    → 0 < at
    → Holds h.blocks at cs
    → Linked (λ a. (h.blocks a).prev_phys) (λ a. (h.blocks a).next_phys) prev (addresses at cs)
    → ((a : ℕ) → free_list_contains h a ≡ true → In a nodes)
    → (a : ℕ) → In a (frees at cs)
    → In a nodes
unfolding listed_walk
listed_walk-In h walks block prev at [] nodes e head low holds l has a here = absurd here
listed_walk-In h zero block prev at (c ∷ cs) nodes e head low holds l has a here =
    absurd (ground arith)
listed_walk-In h (suc walks) block prev at (c ∷ cs) nodes e head low (cell, holds) (back, next, l)
      has a here =
    let flag : is_free (h.blocks block) ≡ c.free =
      ap (λ x. is_free (h.blocks x)) head ∙ cell.free in
    let next' : (h.blocks block).next_phys ≡ first_of (addresses (behind at c) cs) 0 =
      ap (λ x. (h.blocks x).next_phys) head ∙ next in
    let some_block : (block == 0) ≡ false = ground arith in
    let on : listed_walk h walks (h.blocks block).next_phys ≡ none = ground arith in
    let rest =
      listed_walk-In h walks (h.blocks block).next_phys at (behind at c) cs nodes on next'
        (omega arith) holds l has a in
    elim (Bool-cases c.free) [
      | inr used ↦ rest (subst (In a) (if_false c.free _ _ used) here)
      | inl free ↦
          let listed : free_list_contains h block ≡ true = ground arith in
          elim (subst (In a) (if_true c.free _ _ free) here) [
            | inl same ↦ has a (ap (free_list_contains h) (same ∙ sym head) ∙ listed)
            | inr later ↦ rest later
          ]
    ]
