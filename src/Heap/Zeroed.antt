-- ===== src/Heap/Zeroed.antt =====
-- `kcalloc`: a block as `kmalloc` gives it, and its bytes are zero.
use mathlib.Core.Path.{subst}
use native.Mathlib.Nat.{mul-pos, le-div_iff_mul-le}
use termob_kernel.Base.{
  ℕ, ◌+◌, ◌*◌, ◌/◌, ◌^◌, ◌≤◌, ◌<◌, ◌≡◌, ◌⊎◌, refl, sym, ap, false, ◌||◌, inl, inr, arith, some,
  List, ltb, ltb-false, ◌==◌, Bool-cases,
}
use termob_kernel.Base.Arrays.{set, for_range_inv}
use termob_kernel.Base.Words.{add32, mul32, u32_max}
use termob_kernel.Heap.{Heap, zero_bytes}
use termob_kernel.Heap.Calls.{kcalloc}
use termob_kernel.Heap.Tiling.{Cell, IsHeap}
use termob_kernel.Heap.Live.{Live}
use termob_kernel.Heap.Given.{IsGiven, kmalloc-IsGiven}
use termob_kernel.Heap.Cleared.{zero_bytes-IsHeap}

-- The first `n` bytes behind `p` are zero.
abbrev pub IsZeroed : (memory : ℕ → ℕ) → (p n : ℕ) → Type 0
IsZeroed memory p n = (i : ℕ) → i < n → memory (p + i) ≡ 0

zero_bytes-IsZeroed : (h : Heap) (p n : ℕ) → p + n < 2 ^ 32 → IsZeroed (zero_bytes h p n).memory p n
unfolding zero_bytes
zero_bytes-IsZeroed h p n fits =
    for_range_inv (λ k m. IsZeroed m p k) (λ i m. set m (add32 p i) 0) n
      (λ i m lt zeroed j le.
        let at : add32 p i ≡ p + i = omega arith in
        elim (Bool-cases (p + j == add32 p i)) [
          | inl here ↦ rw here
          | inr other ↦ rw other (zeroed j (ground arith))
        ])
      n 0 h.memory (omega arith) (λ i lt. absurd (omega arith))

-- A product behind the words is refused.
pub kcalloc_overflows :
    (h : Heap) (count size : ℕ) → 2 ^ 32 ≤ count * size → kcalloc h count size ≡ some (0, h)
unfolding kcalloc
kcalloc_overflows h count size large = elim (Bool-cases ((count == 0) || (size == 0))) [
  | inl nothing ↦ rw nothing refl
  | inr some_bytes ↦ elim (Bool-cases (ltb (u32_max / size) count)) [
    | inl wide ↦ rw (some_bytes, wide) refl
    | inr fits ↦
        let bound : count * size ≤ u32_max =
          (le-div_iff_mul-le (ground arith)).0 (ltb-false _ _ fits) in
        absurd (omega (arith, bound, large))
  ]
]

cleared_given :
    (h h' : Heap) (cs : List Cell) (n p : ℕ)
    → IsHeap h cs
    → IsGiven h cs n p h'
    → IsGiven h cs n p (zero_bytes h' p n) × IsZeroed (zero_bytes h' p n).memory p n
unfolding zero_bytes
cleared_given h h' cs n p heap g =
    let live = subst (λ a. Live a g.cells g.block g.room) (sym g.start) g.live in
    let heap' = g.heap in
    (
      record {
        cells = g.cells;
        heap =
            subst (λ q. IsHeap (zero_bytes h' q n) g.cells) (sym g.payload)
              (zero_bytes-IsHeap h' g.cells g.block g.room n g.heap live g.enough);
        start = g.start;
        block = g.block;
        room = g.room;
        payload = g.payload;
        aligned = g.aligned;
        enough = g.enough;
        inside = g.inside;
        live = g.live;
        keeps = g.keeps;
        apart = g.apart;
      },
      zero_bytes-IsZeroed h' p n (omega (arith, g.payload, g.enough, g.inside, heap.tiled.fits)),
    )

-- On a sound heap `kcalloc` of 1 to 0xFFFFFFF0 bytes in all fails and changes nothing, or gives a payload
-- that is a multiple of 16, has the bytes, lies inside the heap and has no byte in common with any block
-- in use; the blocks in use stay in use, the heap stays sound, and the bytes asked for are zero.
pub kcalloc-IsGiven :
    (h : Heap) (cs : List Cell) (count size : ℕ)
    → IsHeap h cs
    → 0 < count
    → 0 < size
    → count * size ≤ 0xfffffff0
    → (kcalloc h count size ≡ some (0, h))
      ⊎ ((p : ℕ) × (h' : Heap) × (kcalloc h count size ≡ some (p, h'))
          × IsGiven h cs (count * size) p h'
          × IsZeroed h'.memory p (count * size))
unfolding kcalloc
kcalloc-IsGiven h cs count size heap some_count some_size small =
    let product : mul32 count size ≡ count * size = omega (arith, small) in
    let some_byte = mul-pos some_count some_size in
    let some_bytes : ((count == 0) || (size == 0)) ≡ false = ground arith in
    let le : count ≤ u32_max / size = (le-div_iff_mul-le some_size).1 (omega (arith, small)) in
    let fits : ltb (u32_max / size) count ≡ false = ground arith in
    elim (kmalloc-IsGiven h cs (count * size) heap some_byte small) [
      | inl failed ↦ inl (rw (some_bytes, fits, product, failed, kcalloc) refl)
      | inr (p, h', e, g) ↦
          let given : (p == 0) ≡ false = ground (arith, g.payload) in
          let done = cleared_given h h' cs (count * size) p heap g in
          inr (
            p,
            zero_bytes h' p (count * size),
            rw (some_bytes, fits, product, e, kcalloc, given)
                (ap (λ n. some (p, zero_bytes h' p n)) product),
            done.0,
            done.1,
          )
    ]
