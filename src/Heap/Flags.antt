-- ===== src/Heap/Flags.antt =====
-- Changes of the headers that keep the tiling: of flags, and of the links of the free list.
use mathlib.Core.Path.{subst}
use termob_kernel.Base.{
  ℕ, ◌%◌, ◌^◌, ◌<◌, ◌≡◌, ◌≢◌, refl, sym, ap, ◌∙◌, Bool, true, false, not, arith, List, ◌∷◌, ◌++◌,
  ◌==◌, Bool-cases, inl, inr, bit_and,
}
use termob_kernel.Base.Arrays.{set}
use termob_kernel.Base.Lists.{length-append}
use termob_kernel.Heap.{Heap, HeapBlock, is_free, mark_free, mark_used}
use termob_kernel.Heap.Linked.{Linked-same}
use termob_kernel.Heap.Tiling.{
  Cell, behind, end_of, addresses, IsCell, Holds, PhysLinked, IsTiled, IsListed, end_of-append,
  addresses-append, Holds-append, Holds-join, Holds-frame,
}
use termob_kernel.Heap.FreeList.{SameRest, SameBody}
use termob_kernel.Heap.Splitting.{cell, IsCell-SameCell, mark_free-is_free, mark_used-is_free}

pub IsCell-SameBody : (b b' : HeapBlock) (c : Cell) → SameBody b b' → IsCell b c → IsCell b' c
IsCell-SameBody b b' c same =
    IsCell-SameCell (record { magic = same.magic; flags = same.flags; size = same.size })

-- A tiling looks only at the cells and at the links of the chain.
pub IsTiled-keep :
    (h h' : Heap) (cs : List Cell)
    → SameRest h h'
    → ((a : ℕ) (c : Cell) → IsCell (h.blocks a) c → IsCell (h'.blocks a) c)
    → ((a : ℕ)
        → ((h'.blocks a).prev_phys ≡ (h.blocks a).prev_phys)
          × ((h'.blocks a).next_phys ≡ (h.blocks a).next_phys))
    → IsTiled h cs
    → IsTiled h' cs
IsTiled-keep h h' cs rest keep links t = record {
  ready = rest.ready ∙ t.ready;
  first = rest.first ∙ (t.first ∙ sym rest.start);
  some_address = subst (λ a. 0 < a) (sym rest.start) t.some_address;
  aligned = ap (λ a. a % 16) rest.start ∙ t.aligned;
  stop = ap (λ a. end_of a cs) rest.start ∙ (t.stop ∙ sym rest.stop);
  fits = subst (λ a. a < 2 ^ 32) (sym rest.stop) t.fits;
  some_cell = t.some_cell;
  holds =
      subst (λ a. Holds h'.blocks a cs) (sym rest.start)
        (Holds-frame h.blocks h'.blocks h.start_ptr cs (λ a low high c. keep a c) t.holds);
  linked =
      subst (λ a. PhysLinked h'.blocks (addresses a cs)) (sym rest.start)
        (Linked-same (λ a. (h.blocks a).prev_phys) (λ a. (h.blocks a).next_phys)
          (λ a. (h'.blocks a).prev_phys) (λ a. (h'.blocks a).next_phys) 0 (addresses h.start_ptr cs)
          links t.linked);
}

pub IsTiled-body :
    (h h' : Heap) (cs : List Cell)
    → SameRest h h'
    → ((a : ℕ) → SameBody (h.blocks a) (h'.blocks a))
    → IsTiled h cs
    → IsTiled h' cs
IsTiled-body h h' cs rest body t =
    IsTiled-keep h h' cs rest (λ a c. IsCell-SameBody (h.blocks a) (h'.blocks a) c (body a))
      (λ a. ((body a).prev, (body a).next)) t

pub IsListed-keep :
    (h h' : Heap) (nodes : List ℕ)
    → h'.free_list ≡ h.free_list
    → ((a : ℕ)
        → ((h'.blocks a).prev_free ≡ (h.blocks a).prev_free)
          × ((h'.blocks a).next_free ≡ (h.blocks a).next_free))
    → IsListed h nodes
    → IsListed h' nodes
IsListed-keep h h' nodes list links l = record {
  head = list ∙ l.head;
  ascends = l.ascends;
  linked =
      Linked-same (λ a. (h.blocks a).prev_free) (λ a. (h.blocks a).next_free)
        (λ a. (h'.blocks a).prev_free) (λ a. (h'.blocks a).next_free) 0 nodes links l.linked;
}

-- What a change of one block's flag leaves alone.
pub record SameFlagged (b b' : HeapBlock) (free : Bool) : Type 0 where
  pub magic : b'.magic ≡ b.magic
  pub flag : is_free b' ≡ free
  pub size : b'.size_bytes ≡ b.size_bytes
  pub prev : b'.prev_phys ≡ b.prev_phys
  pub next : b'.next_phys ≡ b.next_phys

-- A cell becomes free or used.
pub IsTiled-flag :
    (h h' : Heap) (xs : List Cell) (c : Cell) (ys : List Cell) (free : Bool)
    → SameRest h h'
    → SameFlagged (h.blocks (end_of h.start_ptr xs)) (h'.blocks (end_of h.start_ptr xs)) free
    → ((a : ℕ) → a ≢ end_of h.start_ptr xs → SameBody (h.blocks a) (h'.blocks a))
    → IsTiled h (xs ++ (c ∷ ys))
    → IsTiled h' (xs ++ (cell c.size free ∷ ys))
IsTiled-flag h h' xs c ys free rest own others t =
    let b : ℕ = end_of h.start_ptr xs in
    let (front, (here, back)) = Holds-append h.blocks h.start_ptr xs (c ∷ ys) t.holds in
    let same = λ (a : ℕ) (other : a ≢ b) (d : Cell).
      IsCell-SameBody (h.blocks a) (h'.blocks a) d (others a other) in
    let front' =
      Holds-frame h.blocks h'.blocks h.start_ptr xs (λ a low high d. same a (omega arith) d)
        front in
    let back' =
      Holds-frame h.blocks h'.blocks (behind b c) ys (λ a low high d. same a (omega arith) d)
        back in
    let here' : IsCell (h'.blocks b) (cell c.size free) = record {
      magic = own.magic ∙ here.magic;
      free = own.flag;
      size = own.size ∙ here.size;
      aligned = here.aligned;
    } in
    let links : (a : ℕ)
        → ((h'.blocks a).prev_phys ≡ (h.blocks a).prev_phys)
          × ((h'.blocks a).next_phys ≡ (h.blocks a).next_phys) =
      λ a. elim (Bool-cases (a == b)) [
        | inl e ↦
            let e' : a ≡ b = ground arith in
            subst
              (λ x.
                ((h'.blocks x).prev_phys ≡ (h.blocks x).prev_phys)
                × ((h'.blocks x).next_phys ≡ (h.blocks x).next_phys))
              (sym e') (own.prev, own.next)
        | inr e ↦ let o = others a (ground arith) in (o.prev, o.next)
      ] in
    let one =
      addresses-append h.start_ptr xs (c ∷ ys)
      ∙ sym (addresses-append h.start_ptr xs (cell c.size free ∷ ys)) in
    record {
      ready = rest.ready ∙ t.ready;
      first = rest.first ∙ (t.first ∙ sym rest.start);
      some_address = subst (λ a. 0 < a) (sym rest.start) t.some_address;
      aligned = ap (λ a. a % 16) rest.start ∙ t.aligned;
      stop =
          ap (λ a. end_of a (xs ++ (cell c.size free ∷ ys))) rest.start
          ∙ (end_of-append h.start_ptr xs (cell c.size free ∷ ys)
              ∙ (sym (end_of-append h.start_ptr xs (c ∷ ys)) ∙ (t.stop ∙ sym rest.stop)));
      fits = subst (λ a. a < 2 ^ 32) (sym rest.stop) t.fits;
      some_cell = omega (arith, length-append xs (cell c.size free ∷ ys));
      holds =
          subst (λ a. Holds h'.blocks a (xs ++ (cell c.size free ∷ ys))) (sym rest.start)
            (Holds-join h'.blocks h.start_ptr xs (cell c.size free ∷ ys) front' (here', back'));
      linked =
          subst (λ a. PhysLinked h'.blocks (addresses a (xs ++ (cell c.size free ∷ ys))))
            (sym rest.start)
            (subst (PhysLinked h'.blocks) one (
              Linked-same (λ a. (h.blocks a).prev_phys) (λ a. (h.blocks a).next_phys)
                (λ a. (h'.blocks a).prev_phys) (λ a. (h'.blocks a).next_phys) 0
                (addresses h.start_ptr (xs ++ (c ∷ ys))) links t.linked));
    }

pub mark_used-SameFlagged : (b : HeapBlock) → SameFlagged b (mark_used b) false
unfolding mark_used
mark_used-SameFlagged b = record {
  magic = refl;
  flag = mark_used-is_free b;
  size = refl;
  prev = refl;
  next = refl;
}

pub mark_free-SameFlagged : (b : HeapBlock) → SameFlagged b (mark_free b) true
unfolding mark_free
mark_free-SameFlagged b = record {
  magic = refl;
  flag = mark_free-is_free b;
  size = refl;
  prev = refl;
  next = refl;
}

pub set_other-SameBody :
    (m : ℕ → HeapBlock) (b a : ℕ) (v : HeapBlock) → a ≢ b → SameBody (m a) (set m b v a)
set_other-SameBody m b a v other = record {
  magic = ground arith;
  flags = ground arith;
  size = ground arith;
  prev = ground arith;
  next = ground arith;
}

pub SameFlagged-SameBody :
    (b c d : HeapBlock) (free : Bool) → SameFlagged b c free → SameBody c d → SameFlagged b d free
unfolding is_free
SameFlagged-SameBody b c d free s t = record {
  magic = t.magic ∙ s.magic;
  flag = ap (λ f. not (bit_and f 1 == 0)) t.flags ∙ s.flag;
  size = t.size ∙ s.size;
  prev = t.prev ∙ s.prev;
  next = t.next ∙ s.next;
}
