-- ===== src/Heap/Reach.antt =====
-- Every heap that calls can lead to is sound, unless the size of a kcalloc wraps around.
use mathlib.Core.Path.{subst}
use termob_kernel.Base.{
  ℕ, ◌+◌, ◌*◌, ◌^◌, ◌≤◌, ◌<◌, ◌⊎◌, ◌≡◌, sym, ap, ◌∙◌, true, not, ◌||◌, arith, Option, none, some,
  List, ◌==◌, Bool-cases, inl, inr,
}
use termob_kernel.Heap.{Heap, Message, heap_size_bytes, note_error, payload_address}
use termob_kernel.Heap.Calls.{init, kmalloc, kcalloc, kfree, free_found}
use termob_kernel.Heap.Tiling.{Cell, end_of, IsTiled, IsHeap}
use termob_kernel.Heap.FirstFit.{first_fit, Serves, rounded, kmalloc-first_fit}
use termob_kernel.Heap.Coalesce.{if_true}
use termob_kernel.Heap.Zeroed.{kcalloc_overflows, kcalloc-IsGiven}
use termob_kernel.Heap.Live.{Live}
use termob_kernel.Heap.Lookup.{owner-cases}
use termob_kernel.Heap.Freeing.{live_at, refuse_free, kfree_is, refuse_null, kfree-IsFreed}
use termob_kernel.Heap.Start.{init-IsHeap}

-- A heap that is sound with some cells.
abbrev pub Sound : Heap → Type 0
Sound h = (cs : List Cell) × IsHeap h cs

note_error-IsHeap :
    (h : Heap) (cs : List Cell) (message : Message) → IsHeap h cs → IsHeap (note_error h message) cs
unfolding note_error
note_error-IsHeap h cs message heap = record {
  tiled = record {
    ready = heap.tiled.ready;
    first = heap.tiled.first;
    some_address = heap.tiled.some_address;
    aligned = heap.tiled.aligned;
    stop = heap.tiled.stop;
    fits = heap.tiled.fits;
    some_cell = heap.tiled.some_cell;
    holds = heap.tiled.holds;
    linked = heap.tiled.linked;
  };
  listed = record {
    head = heap.listed.head;
    ascends = heap.listed.ascends;
    linked = heap.listed.linked;
  };
  coalesced = heap.coalesced;
}

Serves-Sound :
    (h : Heap) (cs : List Cell) (result : Option (ℕ × Heap)) (r : Option (ℕ × List Cell))
    → IsHeap h cs
    → Serves h result r
    → (p : ℕ) × (h' : Heap) × (result ≡ some (p, h')) × Sound h'
Serves-Sound h cs result none heap e = (0, h, e, (cs, heap))
Serves-Sound h cs result (some (b, cs')) heap (h', e, rest, heap') =
    (payload_address b, h', e, (cs', heap'))

kmalloc-Sound :
    (h : Heap) (size : ℕ)
    → Sound h
    → (p : ℕ) × (h' : Heap) × (kmalloc h size ≡ some (p, h')) × Sound h'
unfolding kmalloc
kmalloc-Sound h size (cs, heap) = elim (Bool-cases (size == 0)) [
  | inl nothing ↦
      let off : (not h.ready || (size == 0)) ≡ true = ground arith in
      (0, h, if_true _ _ _ off, (cs, heap))
  | inr some_byte ↦
      Serves-Sound h cs (kmalloc h size) (first_fit (rounded size) h.start_ptr cs) heap
        (kmalloc-first_fit h cs size heap (ground arith))
]

-- The product of the arguments is not one of those that the code rounds up to 0.
abbrev pub CanBeRounded : (count size : ℕ) → Type 0
CanBeRounded count size = (count * size ≤ 0xfffffff0) ⊎ (2 ^ 32 ≤ count * size)

kcalloc-Sound :
    (h : Heap) (count size : ℕ)
    → Sound h
    → CanBeRounded count size
    → (p : ℕ) × (h' : Heap) × (kcalloc h count size ≡ some (p, h')) × Sound h'
unfolding kcalloc
kcalloc-Sound h count size (cs, heap) (inr large) =
    (0, h, kcalloc_overflows h count size large, (cs, heap))
kcalloc-Sound h count size (cs, heap) (inl small) =
    elim (Bool-cases ((count == 0) || (size == 0))) [
      | inl nothing ↦ (0, h, if_true _ _ _ nothing, (cs, heap))
      | inr some_bytes ↦
          elim (kcalloc-IsGiven h cs count size heap (ground arith) (ground arith) small) [
            | inl failed ↦ (0, h, failed, (cs, heap))
            | inr (p, h', e, g, zeroed) ↦ (p, h', e, (g.cells, g.heap))
          ]
    ]

kfree-Sound : (h : Heap) (ptr : ℕ) → Sound h → (h' : Heap) × (kfree h ptr ≡ some h') × Sound h'
unfolding kfree
kfree-Sound h ptr (cs, heap) = elim (Bool-cases (ptr == 0)) [
  | inl null ↦
      let off : (not h.ready || (ptr == 0)) ≡ true = ground arith in
      (h, if_true _ _ _ off, (cs, heap))
  | inr some_address ↦
      let call = kfree_is h cs ptr heap (ground arith) in
      elim (owner-cases h.start_ptr cs ptr) [
        | inl z ↦ (
          note_error h Message.invalid_pointer,
          call ∙ (ap (free_found h) z ∙ refuse_null h),
          (cs, note_error-IsHeap h cs Message.invalid_pointer heap),
        )
        | inr (xs, c, ys, e, place, own) ↦ elim (Bool-cases c.free) [
          | inl free ↦ (
            note_error h Message.double_free,
            call
                ∙ (ap (free_found h) own
                    ∙ refuse_free h xs c ys (subst (IsTiled h) e heap.tiled) free),
            (cs, note_error-IsHeap h cs Message.double_free heap),
          )
          | inr used ↦
              let live =
                subst (λ l. Live h.start_ptr l (end_of h.start_ptr xs) c.size) (sym e)
                  (live_at h.start_ptr xs c ys used) in
              let (h', done, freed) = kfree-IsFreed h cs (end_of h.start_ptr xs) c.size heap live in
              (h', ap (kfree h) place ∙ done, (freed.cells, freed.heap))
        ]
      ]
]

-- The heaps that the calls lead to, with any sizes and any pointers. The exception is a size of kcalloc
-- that wraps to 0 when it is rounded up: that call clears bytes behind its block.
pub data Reachable : Heap → Type 0 where
  started :
      (h : Heap) (kernel_end : ℕ)
      → 0 < kernel_end
      → kernel_end + 15 + heap_size_bytes < 2 ^ 32
      → Reachable (init h kernel_end)
  allocated :
      (h h' : Heap) (size p : ℕ) → Reachable h → kmalloc h size ≡ some (p, h') → Reachable h'
  cleared :
      (h h' : Heap) (count size p : ℕ)
      → Reachable h
      → CanBeRounded count size
      → kcalloc h count size ≡ some (p, h')
      → Reachable h'
  freed : (h h' : Heap) (ptr : ℕ) → Reachable h → kfree h ptr ≡ some h' → Reachable h'

same_heap :
    (r : Option (ℕ × Heap)) (p q : ℕ) (g h : Heap) → r ≡ some (p, g) → r ≡ some (q, h) → g ≡ h
same_heap r p q g h e e' = ground (arith, sym e ∙ e')

same_result : (r : Option Heap) (g h : Heap) → r ≡ some g → r ≡ some h → g ≡ h
same_result r g h e e' = ground (arith, sym e ∙ e')

Reachable-Sound : (h : Heap) → Reachable h → Sound h
Reachable-Sound h (Reachable.started h0 kernel_end low fits) =
    (_, init-IsHeap h0 kernel_end low fits)
Reachable-Sound h (Reachable.allocated g _ size p reach e) =
    let (q, g', e', sound) = kmalloc-Sound g size (Reachable-Sound g reach) in
    subst Sound (same_heap (kmalloc g size) q p g' h e' e) sound
Reachable-Sound h (Reachable.cleared g _ count size p reach can e) =
    let (q, g', e', sound) = kcalloc-Sound g count size (Reachable-Sound g reach) can in
    subst Sound (same_heap (kcalloc g count size) q p g' h e' e) sound
Reachable-Sound h (Reachable.freed g _ ptr reach e) =
    let (g', e', sound) = kfree-Sound g ptr (Reachable-Sound g reach) in
    subst Sound (same_result (kfree g ptr) g' h e' e) sound

-- Every heap that calls lead to from `heap_init` on is sound, with whatever sizes and pointers, except
-- that the product of `kcalloc` is not from 0xFFFFFFF1 to 0xFFFFFFFF; and on it each such call returns.
pub Reachable-IsHeap :
    (h : Heap)
    → Reachable h
    → ((cs : List Cell) × IsHeap h cs)
      × ((size : ℕ) → (p : ℕ) × (h' : Heap) × (kmalloc h size ≡ some (p, h')))
      × ((count size : ℕ)
          → CanBeRounded count size
          → (p : ℕ) × (h' : Heap) × (kcalloc h count size ≡ some (p, h')))
      × ((ptr : ℕ) → (h' : Heap) × (kfree h ptr ≡ some h'))
Reachable-IsHeap h reach =
    let sound = Reachable-Sound h reach in
    (
      sound,
      λ size. let (p, h', e, _) = kmalloc-Sound h size sound in (p, h', e),
      λ count size can. let (p, h', e, _) = kcalloc-Sound h count size sound can in (p, h', e),
      λ ptr. let (h', e, _) = kfree-Sound h ptr sound in (h', e),
    )
