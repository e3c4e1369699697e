-- ===== src/Heap/Verdict.antt =====
-- A heap that `heap_integrity_status` accepts is sound.
use mathlib.Core.Path.{subst}
use termob_kernel.Base.{
  ℕ, ◌^◌, ◌<◌, ◌≡◌, refl, sym, ap, ◌∙◌, true, false, arith, none, List, [], ◌∷◌, ◌==◌, ◌⊎◌, inl,
  inr,
}
use termob_kernel.Base.Lists.{length}
use termob_kernel.Heap.{Heap, Message, max_walks}
use termob_kernel.Heap.Integrity.{
  Walked, physical_walk, free_walk, free_list_contains, listed_walk, compare_walks, fault,
}
use termob_kernel.Heap.Linked.{first_of}
use termob_kernel.Heap.Tiling.{Cell, addresses, frees, IsListed, IsHeap, frees-Ascends}
use termob_kernel.Heap.Sorted.{In, Ascends-unique}
use termob_kernel.Heap.Sound.{SizesAreWords, PhysChain, PhysWalked, physical_walk-PhysWalked}
use termob_kernel.Heap.Listing.{
  FreeChain, FreeWalked, free_walk-FreeWalked, contains_loop-In, listed_walk-In,
}

pub max_walks_small : (h : Heap) → max_walks h < 2 ^ 29
unfolding max_walks
max_walks_small h = ground arith

Walked-cases :
    (r : Walked)
    → ((message : Message) × (r ≡ Walked.fails message))
      ⊎ ((e : ℕ) × (n : ℕ) × (r ≡ Walked.ends e n))
Walked-cases (Walked.fails message) = inl (message, refl)
Walked-cases (Walked.ends e n) = inr (e, n, refl)

-- The walks that a heap has passed.
pub record Passed (h : Heap) : Type 0 where
  last : ℕ
  count : ℕ
  physical :
      physical_walk h (max_walks h) h.first_block 0 h.start_ptr 0 ≡ Walked.ends h.end_ptr count
  free : free_walk h (max_walks h) h.free_list 0 0 ≡ Walked.ends last count
  listed : listed_walk h (max_walks h) h.first_block ≡ none

compare_walks-none :
    (h : Heap) (count : ℕ)
    → compare_walks h count ≡ none
    → (last : ℕ) × (free_walk h (max_walks h) h.free_list 0 0 ≡ Walked.ends last count)
      × (listed_walk h (max_walks h) h.first_block ≡ none)
unfolding compare_walks
compare_walks-none h count e = elim (Walked-cases (free_walk h (max_walks h) h.free_list 0 0)) [
  | inl (message, bad) ↦ absurd (ground arith)
  | inr (last, n, ends) ↦
      let same : n ≡ count = ground arith in (last, ends ∙ ap (Walked.ends last) same, ground arith)
]

pub fault-none : (h : Heap) → fault h ≡ none → Passed h
unfolding fault
fault-none h e = elim (Walked-cases (physical_walk h (max_walks h) h.first_block 0 h.start_ptr 0)) [
  | inl (message, bad) ↦ absurd (ground arith)
  | inr (stop, count, ends) ↦
      let same : stop ≡ h.end_ptr = ground arith in
      let compared : compare_walks h count ≡ none = ground arith in
      let (last, free, listed) = compare_walks-none h count compared in
      record {
        last = last;
        count = count;
        physical = ends ∙ ap (λ a. Walked.ends a count) same;
        free = free;
        listed = listed;
      }
]

first_cell :
    (block at : ℕ) (cs : List Cell)
    → (block == 0) ≡ false
    → block ≡ first_of (addresses at cs) 0
    → (0 < length cs) × (block ≡ at)
first_cell block at [] some_block e = absurd (ground arith)
first_cell block at (c ∷ cs) some_block e = (omega arith, e)

-- A heap that passes is one of these cells.
pub Passed-IsHeap :
    (h : Heap)
    → h.end_ptr < 2 ^ 32
    → SizesAreWords h
    → h.ready ≡ true
    → (h.first_block == 0) ≡ false
    → Passed h
    → (cs : List Cell) × IsHeap h cs
unfolding free_list_contains
Passed-IsHeap h fits words ready some_block p =
    let few = max_walks_small h in
    let phys : PhysChain h h.first_block 0 h.start_ptr 0 h.end_ptr p.count =
      subst (PhysWalked h h.first_block 0 h.start_ptr 0) p.physical (
        physical_walk-PhysWalked h (max_walks h) h.first_block 0 h.start_ptr 0 fits words
          (omega arith)) in
    let list : FreeChain h h.free_list 0 0 p.count =
      subst (FreeWalked h h.free_list 0 0) p.free
        (free_walk-FreeWalked h (max_walks h) h.free_list 0 0 (omega arith)) in
    let (some_cell, first) = first_cell h.first_block h.start_ptr phys.cells some_block phys.head in
    let (aligned, low) = phys.aligned some_cell in
    let has : (a : ℕ) → free_list_contains h a ≡ true → In a list.nodes = λ a found.
      contains_loop-In h (max_walks h) h.free_list a 0 list.nodes list.linked list.ascends list.head
        (ground arith) in
    let members =
      listed_walk-In h (max_walks h) h.first_block 0 h.start_ptr phys.cells list.nodes p.listed
        phys.head low phys.holds phys.linked has in
    let same =
      Ascends-unique 0 0 (frees h.start_ptr phys.cells) list.nodes
        (frees-Ascends 0 h.start_ptr phys.cells low) list.ascends members
        (omega (arith, phys.counted, list.counted)) in
    (
      phys.cells,
      record {
        tiled = record {
          ready = ready;
          first = first;
          some_address = low;
          aligned = aligned;
          stop = phys.stop;
          fits = fits;
          some_cell = some_cell;
          holds = phys.holds;
          linked = phys.linked;
        };
        listed =
            subst (IsListed h) (sym same)
              (record { head = list.head; ascends = list.ascends; linked = list.linked });
        coalesced = phys.coalesced;
      },
    )
