-- ===== src/Pmm/Clients.antt =====
-- Runs of clients that take frames and give back those that they own; and what freeing address 0
-- does.
use termob_kernel.Base.{
  ℕ, zero, suc, ◌-◌, ◌*◌, ◌/◌, ◌<◌, ◌≡◌, ap, ◌∙◌, Bool, true, false, not, ◌&&◌, ◌||◌, some, inl,
  inr, arith, ◌==◌, Bool-cases,
}
use termob_kernel.Pmm.{
  Pmm, frame_size, frame_is_used, find_free, take_frame, alloc_frame, free_frame,
}
use termob_kernel.Pmm.Frames.{IsValid}
use termob_kernel.Pmm.Count.{mark_frame_free_frame}
use termob_kernel.Pmm.Alloc.{
  alloc_frame-Taken, take_frame-Taken, free_frame_lem, count_free-zero_used,
}

-- The allocator beside the set of frames that clients own.
pub record World : Type 0 where
  pub pmm : Pmm
  pub owned : ℕ → Bool

pub data Step : World → World → Type 0 where
  take :
      (w : World)
      → 0 < w.pmm.free_frames
      → Step w (record {
        pmm = (alloc_frame w.pmm).1;
        owned = λ j. ((alloc_frame w.pmm).0 / frame_size == j) || w.owned j;
      })
  give :
      (w : World) (f : ℕ)
      → w.owned f ≡ true
      → Step w (record {
        pmm = free_frame w.pmm (f * frame_size);
        owned = λ j. not (f == j) && w.owned j;
      })

pub data Reach (w : World) : World → Type 0 where
  here : Reach w w
  next : {u t : World} → Reach w u → Step u t → Reach w t

-- What clients own is in use.
pub record IsSafe (w : World) : Type 0 where
  pub valid : IsValid w.pmm
  pub ready : w.pmm.ready ≡ true
  pub in_use :
      (j : ℕ) → w.owned j ≡ true → (j < w.pmm.total_frames) × (frame_is_used w.pmm j ≡ true)

free_frame_frame :
    (s : Pmm) (address : ℕ)
    → ((free_frame s address).total_frames ≡ s.total_frames)
      × ((free_frame s address).ready ≡ s.ready)
unfolding free_frame
free_frame_frame s address = ground (arith, mark_frame_free_frame s (address / 4096))

Step-IsSafe : {w u : World} → Step w u → IsSafe w → IsSafe u
Step-IsSafe (take w some_free) h =
    let (f, t) = alloc_frame-Taken h.valid h.ready some_free in
    let index : (alloc_frame w.pmm).0 / 4096 ≡ f = omega (arith, t.at) in
    record {
      valid = t.valid;
      ready = ground (arith, t.ready, h.ready);
      in_use = λ j o. ground (arith, t.now j, t.total, t.inside, h.in_use j, index);
    }
Step-IsSafe (give w f own) h =
    let (valid, now, count) = free_frame_lem (f * frame_size) h.valid h.ready in
    let (total, ready) = free_frame_frame w.pmm (f * frame_size) in
    let index : f * 4096 / 4096 ≡ f = omega arith in
    record {
      valid = valid;
      ready = ground (arith, ready, h.ready);
      in_use = λ j o. ground (arith, now j, total, h.in_use j, index);
    }

Reach-IsSafe : {w u : World} → IsSafe w → Reach w u → IsSafe u
Reach-IsSafe h here = h
Reach-IsSafe h (next r st) = Step-IsSafe st (Reach-IsSafe h r)

-- After any run in which clients give back only what they own, the allocator never hands out a
-- frame that is still owned, and whatever is owned is in use.
pub no_double_allocation :
    {w u : World}
    → IsSafe w
    → Reach w u
    → (0 < u.pmm.free_frames → u.owned ((alloc_frame u.pmm).0 / frame_size) ≡ false)
      × ((j : ℕ) → u.owned j ≡ true → frame_is_used u.pmm j ≡ true)
no_double_allocation {u} h r =
    let safe = Reach-IsSafe h r in
    (
      λ some_free.
          let (f, t) = alloc_frame-Taken safe.valid safe.ready some_free in
          let index : (alloc_frame u.pmm).0 / 4096 ≡ f = omega (arith, t.at) in
          ground (arith, t.was_free, index, safe.in_use f),
      λ j o. (safe.in_use j o).1,
    )

find_free-first :
    (s : Pmm) (rounds i : ℕ)
    → 0 < rounds
    → frame_is_used s i ≡ false
    → find_free s rounds i ≡ some i
unfolding find_free
find_free-first s zero i pos free = absurd (omega arith)
find_free-first s (suc rounds) i pos free = rw free

-- With the cursor at a free frame 0, that frame is taken.
alloc_frame-zero :
    {t : Pmm}
    → IsValid t
    → t.ready ≡ true
    → 0 < t.total_frames
    → t.next_search_frame ≡ 0
    → frame_is_used t 0 ≡ false
    → alloc_frame t ≡ take_frame t 0
unfolding alloc_frame
alloc_frame-zero {t} v on some_frame cursor free = elim (Bool-cases (t.free_frames == 0)) [
  | inl none_free ↦
      ground (arith, v.counted, count_free-zero_used (frame_is_used t) t.total_frames 0)
  | inr some_free ↦
      let found : find_free t (t.total_frames - t.next_search_frame) t.next_search_frame ≡ some 0 =
        ap (λ n. find_free t (t.total_frames - n) n) cursor
        ∙ find_free-first t (t.total_frames - 0) 0 (omega arith) free in
      let started : (not t.ready || (t.free_frames == 0)) ≡ false = ground arith in
      rw (started, found, alloc_frame)
]

free_frame_zero_cursor :
    (s : Pmm) → s.ready ≡ true → 0 < s.total_frames → (free_frame s 0).next_search_frame ≡ 0
unfolding free_frame
free_frame_zero_cursor s on some_frame = ground arith

-- Address 0, which `pmm_alloc_frame` returns on failure, is freed like any other: the next
-- allocation then succeeds with address 0.
pub alloc_frame-free_frame_zero :
    {s : Pmm}
    → IsValid s
    → s.ready ≡ true
    → 0 < s.total_frames
    → ((alloc_frame (free_frame s 0)).0 ≡ 0)
      × (frame_is_used (free_frame s 0) 0 ≡ false)
      × (frame_is_used (alloc_frame (free_frame s 0)).1 0 ≡ true)
alloc_frame-free_frame_zero {s} v on some_frame =
    let (valid, now, count) = free_frame_lem 0 v on in
    let (total, ready) = free_frame_frame s 0 in
    let inside : 0 < (free_frame s 0).total_frames = omega (arith, total) in
    let free : frame_is_used (free_frame s 0) 0 ≡ false = ground (arith, now 0) in
    let taken = take_frame-Taken 0 valid inside free in
    let e =
      alloc_frame-zero valid (ready ∙ on) inside (free_frame_zero_cursor s on some_frame) free in
    (
      ap (λ (r : ℕ × Pmm). r.0) e ∙ omega (arith, taken.at),
      free,
      ap (λ (r : ℕ × Pmm). frame_is_used r.1 0) e ∙ ground (arith, taken.now 0),
    )
