-- ===== src/Heap/Tiling.antt =====
-- What a heap is: its region is tiled by cells, each a header and a payload, and the free list is the
-- list of the free cells in the order of their addresses.
use mathlib.Core.Path.{subst}
use termob_kernel.Base.{
  ℕ, ◌+◌, ◌*◌, ◌%◌, ◌^◌, ◌≤◌, ◌<◌, ◌≡◌, refl, ap, Bool, true, false, ◌&&◌, arith, List, [], ◌∷◌,
  ◌++◌, Bool-cases, inl, inr, if◌then◌else◌,
}
use termob_kernel.Base.Bits.{bit_and_fifteen}
use termob_kernel.Base.Lists.{length}
use termob_kernel.Heap.{Heap, HeapBlock, block_magic, is_free, max_walks, block_is_sane}
use termob_kernel.Heap.Linked.{first_of, last_of, Ascends, Linked, Linked-tail}

-- A block as the heap's client sees it.
pub record Cell : Type 0 where
  pub size : ℕ
  pub free : Bool

abbrev pub behind : ℕ → Cell → ℕ
behind at c = at + 32 + c.size

abbrev pub end_of : (at : ℕ) → List Cell → ℕ
end_of at [] = at
end_of at (c ∷ cs) = end_of (behind at c) cs

-- The addresses of the cells, and those of the free cells.
abbrev pub addresses : (at : ℕ) → List Cell → List ℕ
addresses at [] = []
addresses at (c ∷ cs) = at ∷ addresses (behind at c) cs

abbrev pub frees : (at : ℕ) → List Cell → List ℕ
frees at [] = []
frees at (c ∷ cs) = if c.free then at ∷ frees (behind at c) cs else frees (behind at c) cs

-- A header that describes a cell.
pub record IsCell (b : HeapBlock) (c : Cell) : Type 0 where
  pub magic : b.magic ≡ block_magic
  pub free : is_free b ≡ c.free
  pub size : b.size_bytes ≡ c.size
  pub aligned : c.size % 16 ≡ 0

abbrev pub Holds : (ℕ → HeapBlock) → (at : ℕ) → List Cell → Type 0
Holds m at [] = Unit
Holds m at (c ∷ cs) = IsCell (m at) c × Holds m (behind at c) cs

abbrev pub PhysLinked : (ℕ → HeapBlock) → List ℕ → Type 0
PhysLinked m nodes = Linked (λ a. (m a).prev_phys) (λ a. (m a).next_phys) 0 nodes

abbrev pub FreeLinked : (ℕ → HeapBlock) → List ℕ → Type 0
FreeLinked m nodes = Linked (λ a. (m a).prev_free) (λ a. (m a).next_free) 0 nodes

-- The region of a heap is tiled by these cells.
pub record IsTiled (h : Heap) (cs : List Cell) : Type 0 where
  pub ready : h.ready ≡ true
  pub first : h.first_block ≡ h.start_ptr
  pub some_address : 0 < h.start_ptr
  pub aligned : h.start_ptr % 16 ≡ 0
  pub stop : end_of h.start_ptr cs ≡ h.end_ptr
  pub fits : h.end_ptr < 2 ^ 32
  pub some_cell : 0 < length cs
  pub holds : Holds h.blocks h.start_ptr cs
  pub linked : PhysLinked h.blocks (addresses h.start_ptr cs)

-- The free list consists of these blocks.
pub record IsListed (h : Heap) (nodes : List ℕ) : Type 0 where
  pub head : h.free_list ≡ first_of nodes 0
  pub ascends : Ascends 0 nodes
  pub linked : FreeLinked h.blocks nodes

-- No two free cells are neighbours.
abbrev pub Coalesced : List Cell → Type 0
Coalesced [] = Unit
Coalesced (c ∷ []) = Unit
Coalesced (c ∷ d ∷ cs) = ((c.free && d.free) ≡ false) × Coalesced (d ∷ cs)

-- A sound heap.
pub record IsHeap (h : Heap) (cs : List Cell) : Type 0 where
  pub tiled : IsTiled h cs
  pub listed : IsListed h (frees h.start_ptr cs)
  pub coalesced : Coalesced cs

pub end_of-append : (at : ℕ) (xs ys : List Cell) → end_of at (xs ++ ys) ≡ end_of (end_of at xs) ys
end_of-append at [] ys = refl
end_of-append at (x ∷ xs) ys = end_of-append (behind at x) xs ys

pub addresses-append :
    (at : ℕ) (xs ys : List Cell)
    → addresses at (xs ++ ys) ≡ addresses at xs ++ addresses (end_of at xs) ys
addresses-append at [] ys = refl
addresses-append at (x ∷ xs) ys = ap (λ l. at ∷ l) (addresses-append (behind at x) xs ys)

pub frees-append :
    (at : ℕ) (xs ys : List Cell) → frees at (xs ++ ys) ≡ frees at xs ++ frees (end_of at xs) ys
frees-append at [] ys = refl
frees-append at (x ∷ xs) ys = ground (arith, frees-append (behind at x) xs ys)

pub le-end_of : (at : ℕ) (cs : List Cell) → at + 32 * length cs ≤ end_of at cs
le-end_of at [] = omega arith
le-end_of at (c ∷ cs) = omega (arith, le-end_of (behind at c) cs)

pub addresses-Ascends : (low at : ℕ) (cs : List Cell) → low < at → Ascends low (addresses at cs)
addresses-Ascends low at [] lt = tt
addresses-Ascends low at (c ∷ cs) lt = (lt, addresses-Ascends at (behind at c) cs (omega arith))

pub frees-Ascends : (low at : ℕ) (cs : List Cell) → low < at → Ascends low (frees at cs)
frees-Ascends low at [] lt = tt
frees-Ascends low at (c ∷ cs) lt = elim (Bool-cases c.free) [
  | inl free ↦ rw free (lt, frees-Ascends at (behind at c) cs (omega arith))
  | inr used ↦ rw used (frees-Ascends low (behind at c) cs (omega arith))
]

module _ (m : ℕ → HeapBlock) where
  pub Holds-append :
      (at : ℕ) (xs ys : List Cell)
      → Holds m at (xs ++ ys)
      → Holds m at xs × Holds m (end_of at xs) ys
  Holds-append at [] ys h = (tt, h)
  Holds-append at (x ∷ xs) ys (c, h) =
      let (front, back) = Holds-append (behind at x) xs ys h in ((c, front), back)

  pub Holds-join :
      (at : ℕ) (xs ys : List Cell)
      → Holds m at xs
      → Holds m (end_of at xs) ys
      → Holds m at (xs ++ ys)
  Holds-join at [] ys h h' = h'
  Holds-join at (x ∷ xs) ys (c, h) h' = (c, Holds-join (behind at x) xs ys h h')

  pub Holds-aligned :
      (at : ℕ) (cs : List Cell) → at % 16 ≡ 0 → Holds m at cs → end_of at cs % 16 ≡ 0
  Holds-aligned at [] e h = e
  Holds-aligned at (c ∷ cs) e (cell, h) =
      Holds-aligned (behind at c) cs (omega (arith, cell.aligned)) h

  -- Only the headers of the cells themselves matter.
  pub Holds-frame :
      (m' : ℕ → HeapBlock) (at : ℕ) (cs : List Cell)
      → ((a : ℕ) → at ≤ a → a < end_of at cs → (c : Cell) → IsCell (m a) c → IsCell (m' a) c)
      → Holds m at cs
      → Holds m' at cs
  Holds-frame m' at [] same h = tt
  Holds-frame m' at (c ∷ cs) same (cell, h) =
      let inside = le-end_of (behind at c) cs in
      (
        same at (omega arith) (omega arith) c cell,
        Holds-frame m' (behind at c) cs (λ a low. same a (omega arith)) h,
      )

-- What is known of a cell in the middle of the heap.
pub record IsAt (h : Heap) (xs : List Cell) (c : Cell) (ys : List Cell) : Type 0 where
  pub low : h.start_ptr ≤ end_of h.start_ptr xs
  pub high : behind (end_of h.start_ptr xs) c + 32 * length ys ≤ h.end_ptr
  pub aligned : end_of h.start_ptr xs % 16 ≡ 0
  pub cell : IsCell (h.blocks (end_of h.start_ptr xs)) c
  pub prev : (h.blocks (end_of h.start_ptr xs)).prev_phys ≡ last_of 0 (addresses h.start_ptr xs)
  pub next :
      (h.blocks (end_of h.start_ptr xs)).next_phys
      ≡ first_of (addresses (behind (end_of h.start_ptr xs) c) ys) 0

pub IsTiled-IsAt :
    (h : Heap) (xs : List Cell) (c : Cell) (ys : List Cell)
    → IsTiled h (xs ++ (c ∷ ys))
    → IsAt h xs c ys
IsTiled-IsAt h xs c ys t =
    let (front, back) = Holds-append h.blocks h.start_ptr xs (c ∷ ys) t.holds in
    let split = subst (PhysLinked h.blocks) (addresses-append h.start_ptr xs (c ∷ ys)) t.linked in
    let (prev, next, rest) =
      Linked-tail (λ a. (h.blocks a).prev_phys) (λ a. (h.blocks a).next_phys) 0
        (addresses h.start_ptr xs) (addresses (end_of h.start_ptr xs) (c ∷ ys)) split in
    let before = le-end_of h.start_ptr xs in
    record {
      low = omega arith;
      high = omega (
        arith,
        le-end_of (behind (end_of h.start_ptr xs) c) ys,
        end_of-append h.start_ptr xs (c ∷ ys),
        t.stop,
      );
      aligned = Holds-aligned h.blocks h.start_ptr xs t.aligned front;
      cell = back.0;
      prev = prev;
      next = next;
    }

-- Every cell of a heap passes the code's test.
pub block_is_sane-IsAt :
    (h : Heap) (xs : List Cell) (c : Cell) (ys : List Cell)
    → IsTiled h (xs ++ (c ∷ ys))
    → block_is_sane h (end_of h.start_ptr xs) ≡ true
unfolding block_is_sane
block_is_sane-IsAt h xs c ys t =
    let at = IsTiled-IsAt h xs c ys t in
    let b : ℕ = end_of h.start_ptr xs in
    ground (
      arith,
      t.some_address,
      t.fits,
      at.low,
      at.high,
      at.aligned,
      at.cell.magic,
      at.cell.size,
      at.cell.aligned,
      bit_and_fifteen b,
      bit_and_fifteen (h.blocks b).size_bytes,
    )

-- The bound of the walks is more than the number of cells.
pub max_walks-IsTiled : (h : Heap) (cs : List Cell) → IsTiled h cs → length cs < max_walks h
unfolding max_walks
max_walks-IsTiled h cs t =
    let inside = le-end_of h.start_ptr cs in ground (arith, inside, t.stop, t.fits, t.some_cell)
