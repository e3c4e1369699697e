-- ===== src/Heap/Splitting.antt =====
-- `heap_split_block` cuts a cell in two.
use mathlib.Core.Path.{subst}
use mathlib.Core.List.{append_assoc}
use termob_kernel.Base.{
  ℕ, ◌+◌, ◌-◌, ◌%◌, ◌^◌, ◌≤◌, ◌<◌, ◌≡◌, ◌≢◌, refl, sym, ap, ◌∙◌, Bool, true, false, not, arith,
  List, [], ◌∷◌, ◌++◌, ◌==◌, ◌⊎◌, inl, inr, if◌then◌else◌, bit_and, bit_or,
}
use termob_kernel.Base.Bits.{bit_and_one, bit_or_one, bit_and_not_one}
use termob_kernel.Base.Words.{sub32, not32}
use termob_kernel.Heap.{HeapBlock, is_free, mark_free, mark_used}
use termob_kernel.Heap.Blocks.{initialize_block, split_writes}
use termob_kernel.Heap.Linked.{first_of}
use termob_kernel.Heap.Tiling.{Cell, behind, end_of, addresses, IsCell, addresses-append}

abbrev pub cell : (size : ℕ) → (free : Bool) → Cell
cell size free = record { size = size; free = free }

-- A block after its flag has been set, and after it has been cleared.
pub mark_free-is_free : (b : HeapBlock) → is_free (mark_free b) ≡ true
unfolding is_free mark_free
mark_free-is_free b = ground (arith, bit_and_one (bit_or b.flags 1), bit_or_one b.flags)

pub mark_used-is_free : (b : HeapBlock) → is_free (mark_used b) ≡ false
unfolding is_free mark_used
mark_used-is_free b =
    ground (arith, bit_and_one (bit_and b.flags (not32 1)), bit_and_not_one b.flags)

mark_free-magic : (b : HeapBlock) → (mark_free b).magic ≡ b.magic
unfolding mark_free
mark_free-magic b = refl

mark_free-size : (b : HeapBlock) → (mark_free b).size_bytes ≡ b.size_bytes
unfolding mark_free
mark_free-size b = refl

-- The same cell.
pub record SameCell (b b' : HeapBlock) : Type 0 where
  pub magic : b'.magic ≡ b.magic
  pub flags : b'.flags ≡ b.flags
  pub size : b'.size_bytes ≡ b.size_bytes

pub IsCell-SameCell : {b b' : HeapBlock} {c : Cell} → SameCell b b' → IsCell b c → IsCell b' c
unfolding is_free
IsCell-SameCell same c = record {
  magic = same.magic ∙ c.magic;
  free = ap (λ f. not (bit_and f 1 == 0)) same.flags ∙ c.free;
  size = same.size ∙ c.size;
  aligned = c.aligned;
}

pub split_writes-SameCell :
    (m : ℕ → HeapBlock) (b new n a : ℕ)
    → a ≢ b
    → a ≢ new
    → SameCell (m a) (split_writes m b new n a)
unfolding split_writes
split_writes-SameCell m b new n a other other' = record {
  magic = ground arith;
  flags = ground arith;
  size = ground arith;
}

pub split_writes_links :
    (m : ℕ → HeapBlock) (b new n a : ℕ)
    → 0 < a
    → b ≢ new
    → (m b).next_phys ≢ new
    → (m b).next_phys ≢ b
    → ((split_writes m b new n a).prev_phys
        ≡ (if a == new then b else if a == (m b).next_phys then new else (m a).prev_phys))
      × ((split_writes m b new n a).next_phys
          ≡ (if a == new then (m b).next_phys else if a == b then new else (m a).next_phys))
unfolding split_writes initialize_block mark_free
split_writes_links m b new n a low apart apart' apart'' = (ground arith, ground arith)

pub split_writes_free :
    (m : ℕ → HeapBlock) (b new n a : ℕ)
    → a ≢ new
    → ((split_writes m b new n a).prev_free ≡ (m a).prev_free)
      × ((split_writes m b new n a).next_free ≡ (m a).next_free)
unfolding split_writes
split_writes_free m b new n a other = (ground arith, ground arith)

split_writes_new :
    (m : ℕ → HeapBlock) (b new n : ℕ)
    → b ≢ new
    → (m b).next_phys ≢ new
    → SameCell
        (initialize_block (sub32 (sub32 (m b).size_bytes n) 32) b (m b).next_phys true)
        (split_writes m b new n new)
unfolding split_writes
split_writes_new m b new n apart apart' = record {
  magic = ground arith;
  flags = ground arith;
  size = ground arith;
}

pub initialize_block-IsCell :
    (size prev next : ℕ)
    → size % 16 ≡ 0
    → IsCell (initialize_block size prev next true) (cell size true)
unfolding initialize_block
initialize_block-IsCell size prev next even = record {
  magic = mark_free-magic _;
  free = mark_free-is_free _;
  size = mark_free-size _;
  aligned = even;
}

split_writes_old :
    (m : ℕ → HeapBlock) (b new n : ℕ)
    → b ≢ new
    → (m b).next_phys ≢ b
    → ((split_writes m b new n b).magic ≡ (m b).magic)
      × ((split_writes m b new n b).flags ≡ (m b).flags)
      × ((split_writes m b new n b).size_bytes ≡ n)
unfolding split_writes
split_writes_old m b new n apart apart' = (ground arith, ground arith, ground arith)

pub split_writes-IsCell :
    (m : ℕ → HeapBlock) (b new n : ℕ) (c : Cell)
    → b ≢ new
    → (m b).next_phys ≢ new
    → (m b).next_phys ≢ b
    → IsCell (m b) c
    → n + 48 ≤ c.size
    → n % 16 ≡ 0
    → c.size < 2 ^ 32
    → IsCell (split_writes m b new n b) (cell n c.free)
      × IsCell (split_writes m b new n new) (cell (c.size - n - 32) true)
unfolding is_free
split_writes-IsCell m b new n c apart apart' apart'' h room even small =
    let (magic, flags, size) = split_writes_old m b new n apart apart'' in
    let left : sub32 (sub32 (m b).size_bytes n) 32 ≡ c.size - n - 32 = omega (arith, h.size) in
    let made = IsCell-SameCell (split_writes_new m b new n apart apart') (
      initialize_block-IsCell (sub32 (sub32 (m b).size_bytes n) 32) b (m b).next_phys
        (omega (arith, left, h.aligned))) in
    (
      record {
        magic = magic ∙ h.magic;
        free = ap (λ f. not (bit_and f 1 == 0)) flags ∙ h.free;
        size = size;
        aligned = even;
      },
      subst (λ s. IsCell (split_writes m b new n new) (cell s true)) left made,
    )

pub first_address :
    (at : ℕ) (cs : List Cell)
    → (first_of (addresses at cs) 0 ≡ 0) ⊎ (first_of (addresses at cs) 0 ≡ at)
first_address at [] = inl refl
first_address at (c ∷ cs) = inr refl

-- The addresses of a heap around two neighbouring cells.
pub addresses_two :
    (start : ℕ) (xs : List Cell) (c d : Cell) (ys : List Cell)
    → addresses start (xs ++ (c ∷ d ∷ ys))
      ≡ (addresses start xs ++ (end_of start xs ∷ []))
        ++ (behind (end_of start xs) c ∷ addresses (behind (behind (end_of start xs) c) d) ys)
addresses_two start xs c d ys =
    addresses-append start xs (c ∷ d ∷ ys) ∙ sym (append_assoc (addresses start xs) _ _)

pub addresses_one :
    (start : ℕ) (xs : List Cell) (c : Cell) (ys : List Cell)
    → addresses start (xs ++ (c ∷ ys))
      ≡ (addresses start xs ++ (end_of start xs ∷ [])) ++ addresses (behind (end_of start xs) c) ys
addresses_one start xs c ys =
    addresses-append start xs (c ∷ ys) ∙ sym (append_assoc (addresses start xs) _ _)
