-- ===== src/Heap/Insert.antt =====
-- `heap_insert_free_block` puts a block into the free list at its place.
use termob_kernel.Base.{
  ℕ, zero, suc, ◌≤◌, ◌<◌, ◌≡◌, ◌≢◌, refl, sym, ap, ◌∙◌, false, ◌||◌, arith, some, List, [], ◌∷◌,
  ◌++◌, ltb, ◌==◌, if◌then◌else◌,
}
use termob_kernel.Base.Arrays.{set}
use termob_kernel.Base.Lists.{length}
use termob_kernel.Heap.{Heap, HeapBlock, mark_free, max_walks}
use termob_kernel.Heap.Blocks.{
  set_next_free, link_prev_free, insert_position, fresh_free, link_free, insert_free_block,
}
use termob_kernel.Heap.Linked.{
  first_of, last_of, last_of-le, first_of-other, Ascends, Ascends-front, Ascends-tail, Linked,
  Linked-insert,
}
use termob_kernel.Heap.Tiling.{IsListed}
use termob_kernel.Heap.FreeList.{SameBody, SameRest, SameRest-lists}

insert_position_lem :
    (m m' : ℕ → HeapBlock) (fuel block previous cursor : ℕ) (xs ys : List ℕ)
    → ((a : ℕ) → a < block → (m' a).next_free ≡ (m a).next_free)
    → Linked (λ a. (m a).prev_free) (λ a. (m a).next_free) previous (xs ++ ys)
    → cursor ≡ first_of (xs ++ ys) 0
    → Ascends previous (xs ++ (block ∷ ys))
    → length xs ≤ fuel
    → insert_position m' fuel block previous cursor ≡ some (last_of previous xs, first_of ys 0)
unfolding insert_position
insert_position_lem m m' zero block previous cursor [] [] same h e up enough = ground arith
insert_position_lem m m' zero block previous cursor [] (y ∷ ys) same h e up enough = ground arith
insert_position_lem m m' zero block previous cursor (x ∷ xs) ys same h e up enough =
    absurd (omega arith)
insert_position_lem m m' (suc fuel) block previous cursor [] [] same h e up enough = ground arith
insert_position_lem m m' (suc fuel) block previous cursor [] (y ∷ ys) same h e up enough =
    ground arith
insert_position_lem m m' (suc fuel) block previous cursor (x ∷ xs) ys same (p, n, h) e (lt, up)
      enough =
    let (behind, _) = Ascends-tail x xs (block ∷ ys) up in
    let low = last_of-le x xs (Ascends-front x xs (block ∷ ys) up) in
    let next : (m' x).next_free ≡ first_of (xs ++ ys) 0 = same x (omega arith) ∙ n in
    let rest =
      insert_position_lem m m' fuel block x (m' x).next_free xs ys same h next up (omega arith) in
    ground arith

link_free_links :
    (m : ℕ → HeapBlock) (b previous cursor a : ℕ)
    → 0 < a
    → previous ≢ b
    → cursor ≢ b
    → ((link_free m b previous cursor a).prev_free
        ≡ (if a == b then previous else if a == cursor then b else (m a).prev_free))
      × ((link_free m b previous cursor a).next_free
          ≡ (if a == b then cursor else if a == previous then b else (m a).next_free))
unfolding link_free
link_free_links m b previous cursor a low apart apart' = (ground arith, ground arith)

link_free-SameBody :
    (m : ℕ → HeapBlock) (b previous cursor a : ℕ) → SameBody (m a) (link_free m b previous cursor a)
unfolding link_free
link_free-SameBody m b previous cursor a = record {
  magic = ground arith;
  flags = ground arith;
  size = ground arith;
  prev = ground arith;
  next = ground arith;
}

-- A heap after the insertion of a block, which is marked as free.
pub record IsInserted (h h' : Heap) (b : ℕ) (nodes : List ℕ) : Type 0 where
  pub rest : SameRest h h'
  pub body : (a : ℕ) → SameBody (set h.blocks b (mark_free (h.blocks b)) a) (h'.blocks a)
  pub listed : IsListed h' nodes

set_fresh-SameBody :
    (m : ℕ → HeapBlock) (b a : ℕ)
    → SameBody (set m b (mark_free (m b)) a) (set m b (fresh_free (m b)) a)
unfolding fresh_free
set_fresh-SameBody m b a = record {
  magic = ground arith;
  flags = ground arith;
  size = ground arith;
  prev = ground arith;
  next = ground arith;
}

pub SameBody-trans : {b c d : HeapBlock} → SameBody b c → SameBody c d → SameBody b d
SameBody-trans s t = record {
  magic = t.magic ∙ s.magic;
  flags = t.flags ∙ s.flags;
  size = t.size ∙ s.size;
  prev = t.prev ∙ s.prev;
  next = t.next ∙ s.next;
}

-- The writes of an insertion in front of the list.
abbrev head_writes : (ℕ → HeapBlock) → (b list : ℕ) → ℕ → HeapBlock
head_writes m b list = link_prev_free (set_next_free (set m b (fresh_free (m b))) b list) list b

head_writes_links :
    (m : ℕ → HeapBlock) (b list a : ℕ)
    → 0 < a
    → list ≢ b
    → ((head_writes m b list a).prev_free
        ≡ (if a == b then 0 else if a == list then b else (m a).prev_free))
      × ((head_writes m b list a).next_free ≡ (if a == b then list else (m a).next_free))
unfolding fresh_free
head_writes_links m b list a low apart = (ground arith, ground arith)

head_writes-SameBody :
    (m : ℕ → HeapBlock) (b list a : ℕ)
    → SameBody (set m b (mark_free (m b)) a) (head_writes m b list a)
unfolding fresh_free
head_writes-SameBody m b list a = record {
  magic = ground arith;
  flags = ground arith;
  size = ground arith;
  prev = ground arith;
  next = ground arith;
}

-- The block becomes the first of the list.
insert_at_head :
    (h : Heap) (b : ℕ) (ys : List ℕ)
    → IsListed h ys
    → Ascends 0 (b ∷ ys)
    → (h' : Heap) × (insert_free_block h b ≡ some h') × IsInserted h h' b (b ∷ ys)
unfolding insert_free_block fresh_free
insert_at_head h b ys l up =
    let list : ℕ = h.free_list in
    let m' : ℕ → HeapBlock = head_writes h.blocks b list in
    let apart : list ≢ b = λ e. first_of-other b b ys up.1 up.0 (omega arith) (sym e ∙ l.head) in
    let links = λ (a : ℕ) (low : 0 < a). head_writes_links h.blocks b list a low apart in
    (
      record h { blocks = m'; free_list = b },
      ground (arith, l.head),
      record {
        rest = SameRest-lists h m' b;
        body = head_writes-SameBody h.blocks b list;
        listed = record {
          head = refl;
          ascends = up;
          linked =
              Linked-insert (λ a. (h.blocks a).prev_free) (λ a. (h.blocks a).next_free)
                (λ a. (m' a).prev_free) (λ a. (m' a).next_free) 0 [] b ys up
                (λ a low. ground (arith, (links a low).0, l.head))
                (λ a low. ground (arith, (links a low).1, l.head)) l.linked;
        };
      },
    )

-- The block gets into the middle or to the end of the list.
insert_behind :
    (h : Heap) (x : ℕ) (xs : List ℕ) (b : ℕ) (ys : List ℕ)
    → IsListed h ((x ∷ xs) ++ ys)
    → Ascends 0 ((x ∷ xs) ++ (b ∷ ys))
    → length xs ≤ max_walks h
    → (h' : Heap) × (insert_free_block h b ≡ some h') × IsInserted h h' b ((x ∷ xs) ++ (b ∷ ys))
unfolding insert_free_block fresh_free
insert_behind h x xs b ys l (lt, up) enough =
    let m : ℕ → HeapBlock = set h.blocks b (fresh_free (h.blocks b)) in
    let previous : ℕ = last_of x xs in
    let m' : ℕ → HeapBlock = link_free m b previous (first_of ys 0) in
    let h' : Heap = record h { blocks = m' } in
    let (_, next, linked) = l.linked in
    let (below, up') = Ascends-tail x xs (b ∷ ys) up in
    let low = last_of-le x xs (Ascends-front x xs (b ∷ ys) up) in
    let apart = first_of-other b b ys up' (omega arith) (omega arith) in
    let position =
      insert_position_lem h.blocks m (max_walks h) b x (m x).next_free xs ys
        (λ a under. ground arith) linked (ground (arith, next)) up enough in
    let branch : ((h.free_list == 0) || ltb b h.free_list) ≡ false = ground (arith, l.head) in
    let found : insert_position m (max_walks h) b h.free_list (m h.free_list).next_free
        ≡ some (previous, first_of ys 0) =
      ap (λ a. insert_position m (max_walks h) b a (m a).next_free) l.head ∙ position in
    let some_block : (b == 0) ≡ false = ground arith in
    let links = λ (a : ℕ) (low' : 0 < a).
      link_free_links m b previous (first_of ys 0) a low' (omega arith) (λ e. apart (sym e)) in
    (
      h',
      rw (some_block, branch, found) refl,
      record {
        rest = SameRest-lists h m' h.free_list;
        body = λ a.
            SameBody-trans (set_fresh-SameBody h.blocks b a)
              (link_free-SameBody m b previous (first_of ys 0) a);
        listed = record {
          head = l.head;
          ascends = (lt, up);
          linked =
              Linked-insert (λ a. (h.blocks a).prev_free) (λ a. (h.blocks a).next_free)
                (λ a. (m' a).prev_free) (λ a. (m' a).next_free) 0 (x ∷ xs) b ys (lt, up)
                (λ a low'. ground (arith, (links a low').0))
                (λ a low'. ground (arith, (links a low').1)) l.linked;
        };
      },
    )

-- `heap_insert_free_block` puts the block into its place between two parts of the list.
pub insert_free_block-IsInserted :
    (h : Heap) (xs : List ℕ) (b : ℕ) (ys : List ℕ)
    → IsListed h (xs ++ ys)
    → Ascends 0 (xs ++ (b ∷ ys))
    → length xs ≤ max_walks h
    → (h' : Heap) × (insert_free_block h b ≡ some h') × IsInserted h h' b (xs ++ (b ∷ ys))
insert_free_block-IsInserted h [] b ys l up enough = insert_at_head h b ys l up
insert_free_block-IsInserted h (x ∷ xs) b ys l up enough =
    insert_behind h x xs b ys l up (omega arith)
