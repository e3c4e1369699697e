-- ===== src/Heap/Given.antt =====
-- What `kmalloc` gives its callers.
use mathlib.Core.Path.{subst}
use termob_kernel.Base.{
  ℕ, ◌+◌, ◌%◌, ◌^◌, ◌≤◌, ◌<◌, ◌≡◌, ◌≢◌, refl, sym, ap, ◌∙◌, true, arith, Option, none, some, List,
  [], ◌∷◌, leb, Bool-cases, ◌⊎◌, inl, inr, if◌then◌else◌,
}
use termob_kernel.Heap.{Heap, HeapBlock, payload_address}
use termob_kernel.Heap.Calls.{kmalloc}
use termob_kernel.Heap.Tiling.{Cell, behind, end_of, frees, Holds, IsHeap}
use termob_kernel.Heap.Linked.{first_of}
use termob_kernel.Heap.Splitting.{cell}
use termob_kernel.Heap.FirstFit.{first_fit, Serves, rounded, kmalloc-first_fit}
use termob_kernel.Heap.Live.{Live, Apart, Live-low, Live-high, Gains, Promises, first_fit-Promises}

Live-aligned :
    (m : ℕ → HeapBlock) (at : ℕ) (cs : List Cell) (b s : ℕ)
    → at % 16 ≡ 0
    → Holds m at cs
    → Live at cs b s
    → b % 16 ≡ 0
Live-aligned m at [] b s even h live = absurd live
Live-aligned m at (c ∷ cs) b s even (cell, h) (inl (used, e, z)) = omega arith
Live-aligned m at (c ∷ cs) b s even (cell, h) (inr live) =
    Live-aligned m (behind at c) cs b s (omega (arith, cell.aligned)) h live

-- A block that has been handed out.
pub record IsGiven (h : Heap) (cs : List Cell) (size p : ℕ) (h' : Heap) : Type 0 where
  pub cells : List Cell
  pub heap : IsHeap h' cells
  pub start : h'.start_ptr ≡ h.start_ptr
  pub block : ℕ
  pub room : ℕ
  pub payload : p ≡ block + 32
  pub aligned : p % 16 ≡ 0
  pub enough : size ≤ room
  pub inside : (h.start_ptr ≤ block) × (block + 32 + room ≤ h.end_ptr)
  pub live : Live h.start_ptr cells block room
  pub keeps : (b s : ℕ) → Live h.start_ptr cs b s → Live h.start_ptr cells b s
  pub apart : (b s : ℕ) → Live h.start_ptr cs b s → Apart block room b s

given :
    (h : Heap) (cs : List Cell) (size want b : ℕ) (cs' : List Cell)
    → want ≤ rounded size
    → IsHeap h cs
    → Gains (rounded size) h.start_ptr cs b cs'
    → Serves h (kmalloc h size) (some (b, cs'))
    → (p : ℕ) × (h' : Heap) × (kmalloc h size ≡ some (p, h')) × IsGiven h cs want p h'
given h cs size want b cs' le heap p (h', e, rest, heap') =
    let stop : end_of h.start_ptr cs' ≡ h.end_ptr =
      ap (λ a. end_of a cs') (sym rest.start) ∙ (heap'.tiled.stop ∙ rest.stop) in
    let low = Live-low h.start_ptr cs' b p.s p.live in
    let high = Live-high h.start_ptr cs' b p.s p.live in
    let even =
      Live-aligned h'.blocks h.start_ptr cs' b p.s heap.tiled.aligned
        (subst (λ a. Holds h'.blocks a cs') rest.start heap'.tiled.holds) p.live in
    let fits = heap.tiled.fits in
    (
      payload_address b,
      h',
      e,
      record {
        cells = cs';
        heap = heap';
        start = rest.start;
        block = b;
        room = p.s;
        payload = omega arith;
        aligned = omega arith;
        enough = omega (arith, p.enough);
        inside = (low, omega arith);
        live = p.live;
        keeps = p.keeps;
        apart = p.apart;
      },
    )

Fit-cases :
    (r : Option (ℕ × List Cell)) → (r ≡ none) ⊎ ((b : ℕ) × (cs : List Cell) × (r ≡ some (b, cs)))
Fit-cases none = inl refl
Fit-cases (some (b, cs)) = inr (b, cs, refl)

-- The choice of a call, where there is one.
chosen_given :
    (h : Heap) (cs : List Cell) (size want b : ℕ) (cs' : List Cell)
    → want ≤ rounded size
    → 0 < size
    → IsHeap h cs
    → first_fit (rounded size) h.start_ptr cs ≡ some (b, cs')
    → (p : ℕ) × (h' : Heap) × (kmalloc h size ≡ some (p, h')) × IsGiven h cs want p h'
chosen_given h cs size want b cs' le some_byte heap e =
    given h cs size want b cs' le heap
      (subst (Promises (rounded size) h.start_ptr cs) e
        (first_fit-Promises (rounded size) h.start_ptr cs))
      (subst (Serves h (kmalloc h size)) e (kmalloc-first_fit h cs size heap some_byte))

-- On a sound heap `kmalloc` of 1 to 0xFFFFFFF0 bytes fails, or gives a payload that is a multiple of
-- 16, has the bytes, lies inside the heap and has no byte in common with any block in use; the blocks
-- in use stay in use, and the heap stays sound.
pub kmalloc-IsGiven :
    (h : Heap) (cs : List Cell) (size : ℕ)
    → IsHeap h cs
    → 0 < size
    → size ≤ 0xfffffff0
    → (kmalloc h size ≡ some (0, h))
      ⊎ ((p : ℕ) × (h' : Heap) × (kmalloc h size ≡ some (p, h')) × IsGiven h cs size p h')
kmalloc-IsGiven h cs size heap some_byte small =
    elim (Fit-cases (first_fit (rounded size) h.start_ptr cs)) [
      | inl nowhere ↦
          inl
            (subst (Serves h (kmalloc h size)) nowhere (kmalloc-first_fit h cs size heap some_byte))
      | inr (b, cs', e) ↦ inr (chosen_given h cs size size b cs' (omega arith) some_byte heap e)
    ]

no_free_cell : (at : ℕ) (cs : List Cell) → first_fit 0 at cs ≡ none → first_of (frees at cs) 0 ≡ 0
unfolding first_fit
no_free_cell at [] e = refl
no_free_cell at (c ∷ cs) e = elim (Bool-cases c.free) [
  | inl free ↦ absurd (ground arith)
  | inr used ↦
      let any : leb 0 c.size ≡ true = ground arith in
      let rest : first_fit 0 (behind at c) cs ≡ none =
        elim (Fit-cases (first_fit 0 (behind at c) cs)) [
          | inl nowhere ↦ nowhere
          | inr (b, cs', fit) ↦ absurd (ground arith)
        ] in
      ap (λ f. first_of (if f then at ∷ frees (behind at c) cs else frees (behind at c) cs) 0) used
      ∙ no_free_cell (behind at c) cs rest
]

-- A size above 0xFFFFFFF0 wraps around to 0 when it is rounded up: on a sound heap with any free block
-- the call succeeds, with a block that has fewer bytes than were asked for.
pub kmalloc_wraps :
    (h : Heap) (cs : List Cell) (size : ℕ)
    → IsHeap h cs
    → h.free_list ≢ 0
    → 0xfffffff0 < size
    → size < 2 ^ 32
    → (p : ℕ) × (h' : Heap) × (kmalloc h size ≡ some (p, h'))
      × (g : IsGiven h cs 0 p h') × (g.room < size)
kmalloc_wraps h cs size heap some_free large word =
    let none_wanted : rounded size ≡ 0 = omega arith in
    elim (Fit-cases (first_fit (rounded size) h.start_ptr cs)) [
      | inl nowhere ↦ absurd (
          some_free (
            heap.listed.head
            ∙ no_free_cell h.start_ptr cs
                (subst (λ n. first_fit n h.start_ptr cs ≡ none) none_wanted nowhere)))
      | inr (b, cs', e) ↦
          let (p, h', call, g) =
            chosen_given h cs size 0 b cs' (omega arith) (omega arith) heap e in
          let fits = heap.tiled.fits in (p, h', call, g, omega (arith, g.inside.1))
    ]
