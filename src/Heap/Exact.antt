-- ===== src/Heap/Exact.antt =====
-- `heap_integrity_status` accepts exactly the sound heaps.
use mathlib.Core.Path.{subst}
use termob_kernel.Base.{
  ℕ, zero, suc, ◌^◌, ◌≤◌, ◌<◌, ◌≡◌, ◌↔◌, refl, sym, ap, ◌∙◌, true, false, not, ◌&&◌, ◌||◌, arith,
  none, List, [], ◌∷◌, ◌++◌, ◌==◌, Bool-cases, Option-cases, inl, inr,
}
use termob_kernel.Base.Lists.{length}
use termob_kernel.Heap.{Heap, is_free, max_walks}
use termob_kernel.Heap.Integrity.{
  Walked, physical_walk, free_walk, contains_loop, free_list_contains, listed_walk, compare_walks,
  fault, integrity_status, check_integrity_internal,
}
use termob_kernel.Heap.Linked.{first_of, Ascends, Linked}
use termob_kernel.Heap.Tiling.{
  Cell, behind, end_of, addresses, frees, IsTiled, IsHeap, IsTiled-IsAt, max_walks-IsTiled,
}
use termob_kernel.Heap.Sorted.{In, In-above}
use termob_kernel.Heap.Joining.{end_of-snoc}
use termob_kernel.Heap.Alloc.{length-frees}
use termob_kernel.Heap.Taking.{frees_around}
use termob_kernel.Heap.Coalesce.{if_false}
use mathlib.Core.List.{append_assoc}
use termob_kernel.Heap.Lookup.{first_cell}
use termob_kernel.Heap.Sound.{SizesAreWords}
use termob_kernel.Heap.Verdict.{max_walks_small, fault-none, Passed-IsHeap}
use termob_kernel.Heap.Accepted.{physical_walk-ends, free_walk-ends}

contains_loop-finds :
    (h : Heap) (walks target prev : ℕ) (nodes : List ℕ)
    → Linked (λ a. (h.blocks a).prev_free) (λ a. (h.blocks a).next_free) prev nodes
    → Ascends prev nodes
    → length nodes ≤ walks
    → In target nodes
    → contains_loop h walks (first_of nodes 0) target ≡ true
unfolding contains_loop
contains_loop-finds h walks target prev [] l up enough here = absurd here
contains_loop-finds h zero target prev (x ∷ nodes) l up enough here = absurd (omega arith)
contains_loop-finds h (suc walks) target prev (x ∷ nodes) (back, next, l) (lt, up) enough here =
    let some_node : (x == 0) ≡ false = ground arith in
    elim (Bool-cases (x == target)) [
      | inl found ↦ rw (some_node, found) refl
      | inr other ↦ elim here [
        | inl e ↦ absurd (ground arith)
        | inr later ↦
            rw (some_node, other)
              (ap (λ n. contains_loop h walks n target) next
                ∙ contains_loop-finds h walks target x nodes l up (omega arith) later)
      ]
    ]

In-append : (a : ℕ) (xs ys : List ℕ) → In a ys → In a (xs ++ ys)
In-append a [] ys here = here
In-append a (x ∷ xs) ys here = inr (In-append a xs ys here)

listed_walk-none :
    (h : Heap) (walks : ℕ) (xs cs : List Cell)
    → IsTiled h (xs ++ cs)
    → ((a : ℕ) → In a (frees h.start_ptr (xs ++ cs)) → free_list_contains h a ≡ true)
    → length cs ≤ walks
    → listed_walk h walks (first_of (addresses (end_of h.start_ptr xs) cs) 0) ≡ none
unfolding listed_walk
listed_walk-none h zero xs [] t has enough = refl
listed_walk-none h zero xs (c ∷ cs) t has enough = absurd (omega arith)
listed_walk-none h (suc walks) xs [] t has enough = refl
listed_walk-none h (suc walks) xs (c ∷ cs) t has enough =
    let b : ℕ = end_of h.start_ptr xs in
    let at = IsTiled-IsAt h xs c cs t in
    let some_block : (b == 0) ≡ false = ground (arith, t.some_address, at.low) in
    let same = append_assoc xs (c ∷ []) cs in
    let rest =
      subst (λ a. listed_walk h walks (first_of (addresses a cs) 0) ≡ none)
        (end_of-snoc h.start_ptr xs c)
        (listed_walk-none h walks (xs ++ (c ∷ [])) cs (subst (IsTiled h) (sym same) t)
          (λ a here. has a (subst (λ l. In a (frees h.start_ptr l)) same here)) (omega arith)) in
    let rest' = ap (listed_walk h walks) at.next ∙ rest in
    let mine : c.free ≡ true → free_list_contains h b ≡ true = λ free. has b (
      subst (In b) (sym (frees_around h.start_ptr xs c cs free))
        (In-append b (frees h.start_ptr xs) (b ∷ frees (behind b c) cs) (inl refl))) in
    let listed : (is_free (h.blocks b) && not (free_list_contains h b)) ≡ false =
      elim (Bool-cases c.free) [
        | inl free ↦ ground (arith, mine free)
        | inr used ↦ ground (arith, at.cell.free ∙ used)
      ] in
    rw (some_block, listed) rest'

compare_walks_passes :
    (h : Heap) (last n : ℕ)
    → free_walk h (max_walks h) h.free_list 0 0 ≡ Walked.ends last n
    → listed_walk h (max_walks h) h.first_block ≡ none
    → compare_walks h n ≡ none
unfolding compare_walks
compare_walks_passes h last n walked listed =
    let same : (n == n) ≡ true = ground arith in rw (walked, compare_walks, same) listed

fault_passes :
    (h : Heap) (stop n : ℕ)
    → physical_walk h (max_walks h) h.first_block 0 h.start_ptr 0 ≡ Walked.ends stop n
    → stop ≡ h.end_ptr
    → compare_walks h n ≡ none
    → fault h ≡ none
unfolding fault
fault_passes h stop n walked e compared =
    let same : (stop == h.end_ptr) ≡ true = ground arith in rw (walked, fault, same) compared

accepted : (h : Heap) (cs : List Cell) → IsHeap h cs → fault h ≡ none
unfolding free_list_contains
accepted h cs heap =
    let t = heap.tiled in
    let few = max_walks-IsTiled h cs t in
    let small = max_walks_small h in
    let first : h.first_block ≡ first_of (addresses h.start_ptr cs) 0 =
      t.first ∙ sym (first_cell h.start_ptr cs t.some_cell) in
    let physical =
      ap (λ b. physical_walk h (max_walks h) b 0 h.start_ptr 0) first
      ∙ physical_walk-ends h (max_walks h) 0 0 [] cs t heap.coalesced refl (omega arith)
          (omega arith) in
    let (last, walked) =
      free_walk-ends h (max_walks h) 0 0 [] cs t heap.listed.linked heap.listed.ascends
        (omega arith) (omega arith) in
    let free = ap (λ b. free_walk h (max_walks h) b 0 0) heap.listed.head ∙ walked in
    let has : (a : ℕ) → In a (frees h.start_ptr cs) → free_list_contains h a ≡ true = λ a here.
      let some_node : (a == 0) ≡ false =
        ground (arith, In-above 0 a (frees h.start_ptr cs) heap.listed.ascends here) in
      if_false _ _ _ some_node
      ∙ (ap (λ b. contains_loop h (max_walks h) b a) heap.listed.head
          ∙ contains_loop-finds h (max_walks h) a 0 (frees h.start_ptr cs) heap.listed.linked
              heap.listed.ascends (omega (arith, length-frees h.start_ptr cs)) here) in
    let listed =
      ap (listed_walk h (max_walks h)) first
      ∙ listed_walk-none h (max_walks h) [] cs t has (omega arith) in
    fault_passes h _ _ physical t.stop (compare_walks_passes h last _ free listed)

-- The check of a heap whose end is an address and whose headers hold 32-bit sizes succeeds exactly if
-- the heap is sound: its region is tiled by blocks, no two free blocks are neighbours, and the free list
-- consists of the free blocks in the order of their addresses.
pub integrity_status_iff :
    (h : Heap)
    → h.end_ptr < 2 ^ 32
    → SizesAreWords h
    → (integrity_status h ≡ true) ↔ ((cs : List Cell) × IsHeap h cs)
unfolding integrity_status check_integrity_internal
integrity_status_iff h fits words = (
  λ passes. elim (Bool-cases (not h.ready || (h.first_block == 0))) [
    | inl off ↦ absurd (ground arith)
    | inr on ↦ elim (Option-cases (fault h)) [
      | inr (message, bad) ↦ absurd (ground arith)
      | inl good ↦ Passed-IsHeap h fits words (ground arith) (ground arith) (fault-none h good)
    ]
  ],
  λ (cs, heap).
      let on : (not h.ready || (h.first_block == 0)) ≡ false =
        ground (arith, heap.tiled.ready, heap.tiled.first, heap.tiled.some_address) in
      rw (on, integrity_status, check_integrity_internal, accepted h cs heap) refl,
)
