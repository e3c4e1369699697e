-- ===== src/Heap/Freeing.antt =====
-- `kfree` on a sound heap: a block in use becomes free, and any other pointer is refused.
use mathlib.Core.Path.{subst}
use termob_kernel.Base.{
  ℕ, ◌+◌, ◌≤◌, ◌<◌, ◌≡◌, ◌≢◌, refl, sym, ap, ◌∙◌, true, false, not, ◌||◌, arith, some, List, [],
  ◌∷◌, ◌++◌, ◌==◌, Bool-cases, inl, inr,
}
use termob_kernel.Base.Lists.{length, length-append}
use termob_kernel.Heap.{Heap, Message, max_walks, note_error}
use termob_kernel.Heap.Blocks.{coalesce}
use termob_kernel.Heap.Calls.{free_found, kfree}
use termob_kernel.Heap.Linked.{Ascends}
use termob_kernel.Heap.Tiling.{
  Cell, behind, end_of, frees, IsTiled, IsListed, IsHeap, IsTiled-IsAt, max_walks-IsTiled,
  frees-append, frees-Ascends, le-end_of,
}
use termob_kernel.Heap.FreeList.{SameRest, SameRest-trans}
use termob_kernel.Heap.Insert.{insert_free_block-IsInserted}
use termob_kernel.Heap.Splitting.{cell}
use termob_kernel.Heap.Steps.{IsInserted-free}
use termob_kernel.Heap.Alloc.{length-frees}
use termob_kernel.Heap.Taking.{frees_around}
use termob_kernel.Heap.Live.{Live, Live-low}
use termob_kernel.Heap.Coalesce.{if_false}
use termob_kernel.Heap.Merged.{SameLive}
use termob_kernel.Heap.Coalescing.{IsMerged, coalesce-IsMerged}
use termob_kernel.Heap.Lookup.{
  owner, find_block_by_payload-owner, Live-split, owner-payload, owner-cases,
}

-- The blocks in use around a cell that is freed.
Live-freed :
    (at : ℕ) (xs : List Cell) (c : Cell) (ys : List Cell) (b s : ℕ)
    → Live at (xs ++ (cell c.size true ∷ ys)) b s
    → Live at (xs ++ (c ∷ ys)) b s × (b ≢ end_of at xs)
Live-freed at [] c ys b s (inl (used, e, z)) = absurd (ground arith)
Live-freed at [] c ys b s (inr live) = (inr live, omega (arith, Live-low (behind at c) ys b s live))
Live-freed at (x ∷ xs) c ys b s (inl (used, e, z)) =
    (inl (used, e, z), omega (arith, le-end_of (behind at x) xs))
Live-freed at (x ∷ xs) c ys b s (inr live) =
    let (live', other) = Live-freed (behind at x) xs c ys b s live in (inr live', other)

Live-kept :
    (at : ℕ) (xs : List Cell) (c : Cell) (ys : List Cell) (b s : ℕ)
    → Live at (xs ++ (c ∷ ys)) b s
    → b ≢ end_of at xs
    → Live at (xs ++ (cell c.size true ∷ ys)) b s
Live-kept at [] c ys b s (inl (used, e, z)) other = absurd (other (sym e))
Live-kept at [] c ys b s (inr live) other = inr live
Live-kept at (x ∷ xs) c ys b s (inl own) other = inl own
Live-kept at (x ∷ xs) c ys b s (inr live) other =
    inr (Live-kept (behind at x) xs c ys b s live other)

-- The heap after the block with its header at `b` was given back.
pub record IsFreed (h : Heap) (cs : List Cell) (b : ℕ) (h' : Heap) : Type 0 where
  pub cells : List Cell
  pub heap : IsHeap h' cells
  pub rest : SameRest h h'
  pub gone : (b' s' : ℕ) → Live h.start_ptr cells b' s' → Live h.start_ptr cs b' s' × (b' ≢ b)
  pub stays : (b' s' : ℕ) → Live h.start_ptr cs b' s' → b' ≢ b → Live h.start_ptr cells b' s'

merged-IsFreed :
    (h h1 h2 : Heap) (xs : List Cell) (c : Cell) (ys : List Cell)
    → SameRest h h1
    → IsMerged h1 h2 (xs ++ (cell c.size true ∷ ys))
    → IsFreed h (xs ++ (c ∷ ys)) (end_of h.start_ptr xs) h2
merged-IsFreed h h1 h2 xs c ys rest m =
    let same = subst (λ s. SameLive s (xs ++ (cell c.size true ∷ ys)) m.cells) rest.start m.same in
    record {
      cells = m.cells;
      heap = record {
        tiled = m.becomes.tiled;
        listed =
            subst (λ s. IsListed h2 (frees s m.cells)) (sym m.becomes.rest.start) m.becomes.listed;
        coalesced = m.coalesced;
      };
      rest = SameRest-trans rest m.becomes.rest;
      gone = λ b' s' live. Live-freed h.start_ptr xs c ys b' s' (same.back b' s' live);
      stays = λ b' s' live other. same.there b' s' (Live-kept h.start_ptr xs c ys b' s' live other);
    }

-- The part behind the lookup, at a cell in use.
free_found-IsFreed :
    (h : Heap) (xs : List Cell) (c : Cell) (ys : List Cell)
    → IsHeap h (xs ++ (c ∷ ys))
    → c.free ≡ false
    → (h' : Heap) × (free_found h (end_of h.start_ptr xs) ≡ some h')
      × IsFreed h (xs ++ (c ∷ ys)) (end_of h.start_ptr xs) h'
unfolding free_found
free_found-IsFreed h xs c ys heap used =
    let b : ℕ = end_of h.start_ptr xs in
    let freed : Cell = cell c.size true in
    let at = IsTiled-IsAt h xs c ys heap.tiled in
    let front : List ℕ = frees h.start_ptr xs in
    let back : List ℕ = frees (behind b c) ys in
    let parts : frees h.start_ptr (xs ++ (c ∷ ys)) ≡ front ++ back =
      frees-append h.start_ptr xs (c ∷ ys) ∙ ap (λ l. front ++ l) (if_false c.free _ _ used) in
    let whole = frees_around h.start_ptr xs freed ys refl in
    let up =
      subst (Ascends 0) whole
        (frees-Ascends 0 h.start_ptr (xs ++ (freed ∷ ys)) heap.tiled.some_address) in
    let short : length front ≤ max_walks h = omega (
      arith,
      length-frees h.start_ptr xs,
      max_walks-IsTiled h (xs ++ (c ∷ ys)) heap.tiled,
      length-append xs (c ∷ ys),
    ) in
    let (h1, inserts, i) =
      insert_free_block-IsInserted h front b back (subst (IsListed h) parts heap.listed) up short in
    let tiled = IsInserted-free h h1 xs c ys (front ++ (b ∷ back)) i heap.tiled in
    let listed =
      subst (λ s. IsListed h1 (frees s (xs ++ (freed ∷ ys)))) (sym i.rest.start)
        (subst (IsListed h1) (sym whole) i.listed) in
    let merged =
      coalesce-IsMerged h1 c ys xs tiled listed heap.coalesced b
        (ap (λ s. end_of s xs) (sym i.rest.start)) in
    let some_block : (b == 0) ≡ false = ground (arith, heap.tiled.some_address, at.low) in
    let flag = at.cell.free ∙ used in
    (
      (coalesce h1 b).1,
      rw (some_block, flag, inserts) refl,
      merged-IsFreed h h1 (coalesce h1 b).1 xs c ys i.rest merged,
    )

Frees : Heap → List Cell → (b : ℕ) → Type 0
Frees h cs b = (h' : Heap) × (kfree h (b + 32) ≡ some h') × IsFreed h cs b h'

kfree_at :
    (h : Heap) (xs : List Cell) (c : Cell) (ys : List Cell)
    → IsHeap h (xs ++ (c ∷ ys))
    → c.free ≡ false
    → Frees h (xs ++ (c ∷ ys)) (end_of h.start_ptr xs)
unfolding Frees kfree
kfree_at h xs c ys heap used =
    let b : ℕ = end_of h.start_ptr xs in
    let (h', e, freed) = free_found-IsFreed h xs c ys heap used in
    let looked =
      find_block_by_payload-owner h (xs ++ (c ∷ ys)) (b + 32) heap.tiled (omega arith)
      ∙ ap (λ a. (a, h)) (owner-payload h.start_ptr xs c ys) in
    let starts : (not h.ready || (b + 32 == 0)) ≡ false = ground (arith, heap.tiled.ready) in
    (h', if_false _ _ _ starts ∙ (ap (λ (r : ℕ × Heap). free_found r.1 r.0) looked ∙ e), freed)

-- `kfree` of the payload of a block in use: the call succeeds and the heap is sound again, without free
-- neighbours; the block is no longer in use, all the others still are, and no error is noted.
pub kfree-IsFreed :
    (h : Heap) (cs : List Cell) (b s : ℕ)
    → IsHeap h cs
    → Live h.start_ptr cs b s
    → (h' : Heap) × (kfree h (b + 32) ≡ some h') × IsFreed h cs b h'
unfolding Frees
kfree-IsFreed h cs b s heap live =
    let (xs, c, ys, e, place, used, z) = Live-split h.start_ptr cs b s live in
    subst (λ l. Frees h l b) (sym e)
      (subst (Frees h (xs ++ (c ∷ ys))) (sym place)
        (kfree_at h xs c ys (subst (IsHeap h) e heap) used))

-- A free block at the pointer, or none.
pub data Refusal (at : ℕ) (cs : List Cell) (ptr : ℕ) : Message → Type 0 where
  no_cell : owner at cs ptr ≡ 0 → Refusal at cs ptr Message.invalid_pointer
  free_cell :
      (xs : List Cell) (c : Cell) (ys : List Cell)
      → cs ≡ xs ++ (c ∷ ys)
      → c.free ≡ true
      → ptr ≡ end_of at xs + 32
      → Refusal at cs ptr Message.double_free

pub refuse_free :
    (h : Heap) (xs : List Cell) (c : Cell) (ys : List Cell)
    → IsTiled h (xs ++ (c ∷ ys))
    → c.free ≡ true
    → free_found h (end_of h.start_ptr xs) ≡ some (note_error h Message.double_free)
unfolding free_found
refuse_free h xs c ys t free =
    let at = IsTiled-IsAt h xs c ys t in
    let some_block : (end_of h.start_ptr xs == 0) ≡ false =
      ground (arith, t.some_address, at.low) in
    let flag = at.cell.free ∙ free in rw (some_block, flag) refl

pub refuse_null : (h : Heap) → free_found h 0 ≡ some (note_error h Message.invalid_pointer)
unfolding free_found
refuse_null h = refl

pub live_at :
    (at : ℕ) (xs : List Cell) (c : Cell) (ys : List Cell)
    → c.free ≡ false
    → Live at (xs ++ (c ∷ ys)) (end_of at xs) c.size
live_at at [] c ys used = inl (used, refl, refl)
live_at at (x ∷ xs) c ys used = inr (live_at (behind at x) xs c ys used)

-- The call by what the lookup finds.
pub kfree_is :
    (h : Heap) (cs : List Cell) (ptr : ℕ)
    → IsHeap h cs
    → 0 < ptr
    → kfree h ptr ≡ free_found h (owner h.start_ptr cs ptr)
unfolding kfree
kfree_is h cs ptr heap some_address =
    let starts : (not h.ready || (ptr == 0)) ≡ false = ground (arith, heap.tiled.ready) in
    let looked = find_block_by_payload-owner h cs ptr heap.tiled some_address in
    if_false _ _ _ starts ∙ ap (λ (r : ℕ × Heap). free_found r.1 r.0) looked

-- `kfree` of any other pointer than null and the payloads of the blocks in use changes nothing but the
-- diagnostics: a double free is noted where the pointer is the payload of a free block, and else an
-- invalid pointer.
pub kfree_refuses :
    (h : Heap) (cs : List Cell) (ptr : ℕ)
    → IsHeap h cs
    → 0 < ptr
    → ((b s : ℕ) → Live h.start_ptr cs b s → ptr ≢ b + 32)
    → (message : Message) × (kfree h ptr ≡ some (note_error h message))
      × Refusal h.start_ptr cs ptr message
kfree_refuses h cs ptr heap some_address foreign =
    let call = kfree_is h cs ptr heap some_address in
    elim (owner-cases h.start_ptr cs ptr) [
      | inl z ↦
          (Message.invalid_pointer, call ∙ (ap (free_found h) z ∙ refuse_null h), Refusal.no_cell z)
      | inr (xs, c, ys, e, place, own) ↦ elim (Bool-cases c.free) [
        | inl free ↦ (
          Message.double_free,
          call
              ∙ (ap (free_found h) own
                  ∙ refuse_free h xs c ys (subst (IsTiled h) e heap.tiled) free),
          Refusal.free_cell xs c ys e free place,
        )
        | inr used ↦ absurd (
            foreign (end_of h.start_ptr xs) c.size
              (subst (λ l. Live h.start_ptr l (end_of h.start_ptr xs) c.size) (sym e)
                (live_at h.start_ptr xs c ys used))
              place)
      ]
    ]
