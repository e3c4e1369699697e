-- ===== src/Heap/FreeList.antt =====
-- `heap_remove_free_block` and `heap_insert_free_block` take a block out of the free list and put one
-- in at its place, and leave the chain of blocks alone.
use termob_kernel.Base.{
  ℕ, ◌<◌, ◌≡◌, ◌≢◌, refl, ◌∙◌, false, arith, List, [], ◌∷◌, ◌++◌, ◌==◌, if◌then◌else◌,
}
use termob_kernel.Heap.{Heap, HeapBlock}
use termob_kernel.Heap.Blocks.{unlink_free, remove_free_block}
use termob_kernel.Heap.Linked.{
  first_of, last_of, last_of-le, Ascends, Ascends-weaken, Ascends-front, Ascends-tail, Linked-tail,
  Linked-remove,
}
use termob_kernel.Heap.Tiling.{IsListed}

-- All of a header but the links of the free list.
pub record SameBody (b b' : HeapBlock) : Type 0 where
  pub magic : b'.magic ≡ b.magic
  pub flags : b'.flags ≡ b.flags
  pub size : b'.size_bytes ≡ b.size_bytes
  pub prev : b'.prev_phys ≡ b.prev_phys
  pub next : b'.next_phys ≡ b.next_phys

unlink_free-SameBody : (m : ℕ → HeapBlock) (b a : ℕ) → SameBody (m a) (unlink_free m b a)
unfolding unlink_free
unlink_free-SameBody m b a = record {
  magic = ground arith;
  flags = ground arith;
  size = ground arith;
  prev = ground arith;
  next = ground arith;
}

unlink_free_links :
    (m : ℕ → HeapBlock) (b a : ℕ)
    → a ≢ b
    → 0 < a
    → (m b).prev_free ≢ b
    → ((unlink_free m b a).prev_free
        ≡ (if a == (m b).next_free then (m b).prev_free else (m a).prev_free))
      × ((unlink_free m b a).next_free
          ≡ (if a == (m b).prev_free then (m b).next_free else (m a).next_free))
unfolding unlink_free
unlink_free_links m b a other some_address apart = (ground arith, ground arith)

-- All of a heap but its headers and the head of the free list.
pub record SameRest (h h' : Heap) : Type 0 where
  pub start : h'.start_ptr ≡ h.start_ptr
  pub stop : h'.end_ptr ≡ h.end_ptr
  pub first : h'.first_block ≡ h.first_block
  pub ready : h'.ready ≡ h.ready
  pub error_count : h'.error_count ≡ h.error_count
  pub error_flags : h'.error_flags ≡ h.error_flags
  pub last_error : h'.last_error ≡ h.last_error
  pub memory : h'.memory ≡ h.memory

pub SameRest-refl : (h : Heap) → SameRest h h
SameRest-refl h = record {
  start = refl;
  stop = refl;
  first = refl;
  ready = refl;
  error_count = refl;
  error_flags = refl;
  last_error = refl;
  memory = refl;
}

pub SameRest-lists :
    (h : Heap) (m : ℕ → HeapBlock) (list : ℕ)
    → SameRest h (record h { blocks = m; free_list = list })
SameRest-lists h m list = record {
  start = refl;
  stop = refl;
  first = refl;
  ready = refl;
  error_count = refl;
  error_flags = refl;
  last_error = refl;
  memory = refl;
}

pub SameRest-trans : {h h' h'' : Heap} → SameRest h h' → SameRest h' h'' → SameRest h h''
SameRest-trans s t = record {
  start = t.start ∙ s.start;
  stop = t.stop ∙ s.stop;
  first = t.first ∙ s.first;
  ready = t.ready ∙ s.ready;
  error_count = t.error_count ∙ s.error_count;
  error_flags = t.error_flags ∙ s.error_flags;
  last_error = t.last_error ∙ s.last_error;
  memory = t.memory ∙ s.memory;
}

-- A heap after a change of its free list.
pub record IsRelisted (h h' : Heap) (nodes : List ℕ) : Type 0 where
  pub rest : SameRest h h'
  pub body : (a : ℕ) → SameBody (h.blocks a) (h'.blocks a)
  pub listed : IsListed h' nodes

-- Without a node an ascending list still ascends.
Ascends-remove :
    (low : ℕ) (xs : List ℕ) (b : ℕ) (ys : List ℕ)
    → Ascends low (xs ++ (b ∷ ys))
    → Ascends low (xs ++ ys)
Ascends-remove low [] b ys (lt, up) = Ascends-weaken ys (omega arith) up
Ascends-remove low (x ∷ xs) b ys (lt, up) = (lt, Ascends-remove x xs b ys up)

first_of-remove :
    (h : Heap) (xs : List ℕ) (b : ℕ) (ys : List ℕ)
    → IsListed h (xs ++ (b ∷ ys))
    → (remove_free_block h b).free_list ≡ first_of (xs ++ ys) 0
unfolding remove_free_block
first_of-remove h [] b ys l = ground (arith, l.head, l.ascends, l.linked)
first_of-remove h (x ∷ xs) b ys l =
    let (prev, next, rest) =
      Linked-tail (λ a. (h.blocks a).prev_free) (λ a. (h.blocks a).next_free) 0 (x ∷ xs) (b ∷ ys)
        l.linked in
    let some_node : 0 < last_of x xs =
      omega (arith, l.ascends.0, last_of-le x xs (Ascends-front x xs (b ∷ ys) l.ascends.1)) in
    ground (arith, l.head)

pub remove_free_block-IsRelisted :
    (h : Heap) (xs : List ℕ) (b : ℕ) (ys : List ℕ)
    → IsListed h (xs ++ (b ∷ ys))
    → IsRelisted h (remove_free_block h b) (xs ++ ys)
unfolding remove_free_block
remove_free_block-IsRelisted h xs b ys l =
    let (prev, next, rest) =
      Linked-tail (λ a. (h.blocks a).prev_free) (λ a. (h.blocks a).next_free) 0 xs (b ∷ ys)
        l.linked in
    let (lt, up) = Ascends-tail 0 xs (b ∷ ys) l.ascends in
    let some_address : (b == 0) ≡ false = ground arith in
    let apart : (h.blocks b).prev_free ≢ b = omega (arith, prev) in
    record {
      rest = rw some_address (SameRest-lists h _ _);
      body = λ a. rw some_address (unlink_free-SameBody h.blocks b a);
      listed = record {
        head = first_of-remove h xs b ys l;
        ascends = Ascends-remove 0 xs b ys l.ascends;
        linked = rw some_address (
            Linked-remove (λ a. (h.blocks a).prev_free) (λ a. (h.blocks a).next_free)
              (λ a. (unlink_free h.blocks b a).prev_free)
              (λ a. (unlink_free h.blocks b a).next_free) 0 xs b ys l.ascends
              (λ a other low.
                ground (arith, (unlink_free_links h.blocks b a other low apart).0, prev, next))
              (λ a other low.
                ground (arith, (unlink_free_links h.blocks b a other low apart).1, prev, next))
              l.linked);
      };
    }
