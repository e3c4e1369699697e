-- ===== src/Heap/Start.antt =====
-- `heap_init` makes a sound heap of one free block.
use mathlib.Core.Path.{subst}
use termob_kernel.Base.{
  ℕ, ◌+◌, ◌-◌, ◌%◌, ◌^◌, ◌<◌, ◌≡◌, refl, sym, ap, ◌∙◌, true, false, arith, List, [], ◌∷◌, leb,
}
use termob_kernel.Base.Arrays.{set}
use termob_kernel.Base.Bits.{align_up, align_up_sixteen}
use termob_kernel.Base.Words.{add32, sub32}
use termob_kernel.Heap.{Heap, HeapBlock, heap_size_bytes, mark_free}
use termob_kernel.Heap.Blocks.{initialize_block}
use termob_kernel.Heap.Calls.{first_payload, init_region, init}
use termob_kernel.Heap.Tiling.{Cell, IsCell, IsHeap}
use termob_kernel.Heap.Splitting.{cell, initialize_block-IsCell}

-- The one cell of a new heap.
abbrev pub whole_heap : List Cell
whole_heap = cell (heap_size_bytes - 32) true ∷ []

first_payload_lem :
    (start stop : ℕ)
    → stop ≡ start + heap_size_bytes
    → stop < 2 ^ 32
    → first_payload start stop ≡ heap_size_bytes - 32
first_payload_lem start stop e fits =
    let bytes : align_up (sub32 (sub32 stop start) 32) 16 ≡ heap_size_bytes - 32 =
      align_up_sixteen (sub32 (sub32 stop start) 32) ∙ omega arith in
    ground (arith, bytes)

new_links :
    (size : ℕ)
    → ((initialize_block size 0 0 true).prev_phys ≡ 0)
      × ((initialize_block size 0 0 true).next_phys ≡ 0)
      × ((initialize_block size 0 0 true).prev_free ≡ 0)
      × ((initialize_block size 0 0 true).next_free ≡ 0)
unfolding initialize_block mark_free
new_links size = (refl, refl, refl, refl)

init_region-IsHeap :
    (h : Heap) (start stop : ℕ)
    → stop ≡ start + heap_size_bytes
    → stop < 2 ^ 32
    → 0 < start
    → start % 16 ≡ 0
    → IsHeap (init_region h start stop) whole_heap
unfolding init_region
init_region-IsHeap h start stop e fits some_address even =
    let on : leb stop (add32 start 32) ≡ false = ground arith in
    let payload = first_payload_lem start stop e fits in
    let made : HeapBlock = initialize_block (first_payload start stop) 0 0 true in
    let here : set h.blocks start made start ≡ made = ground arith in
    let one : IsCell made (cell (heap_size_bytes - 32) true) =
      subst (λ n. IsCell (initialize_block n 0 0 true) (cell (heap_size_bytes - 32) true))
        (sym payload) (initialize_block-IsCell (heap_size_bytes - 32) 0 0 refl) in
    let (pp, np, pf, nf) = new_links (first_payload start stop) in
    rw on (record {
      tiled = record {
        ready = refl;
        first = refl;
        some_address = some_address;
        aligned = even;
        stop = omega arith;
        fits = fits;
        some_cell = omega arith;
        holds = (subst (λ b. IsCell b (cell (heap_size_bytes - 32) true)) (sym here) one, tt);
        linked = (ap (λ b. b.prev_phys) here ∙ pp, ap (λ b. b.next_phys) here ∙ np, tt);
      };
      listed = record {
        head = refl;
        ascends = (some_address, tt);
        linked = (ap (λ b. b.prev_free) here ∙ pf, ap (λ b. b.next_free) here ∙ nf, tt);
      };
      coalesced = tt;
    })

-- `heap_init` makes a sound heap of one free block behind the kernel's end, where the region of 1 MiB
-- lies below 4 GiB.
pub init-IsHeap :
    (h : Heap) (kernel_end : ℕ)
    → 0 < kernel_end
    → kernel_end + 15 + heap_size_bytes < 2 ^ 32
    → IsHeap (init h kernel_end) whole_heap
unfolding init
init-IsHeap h kernel_end some_address fits =
    let start = align_up_sixteen kernel_end in
    init_region-IsHeap h (align_up kernel_end 16) (add32 (align_up kernel_end 16) heap_size_bytes)
      (omega arith) (omega arith) (omega arith) (omega arith)
