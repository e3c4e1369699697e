-- ===== src/Pmm/Count.antt =====
-- Marking keeps the bitmap valid: the count of free frames stays right.
use termob_kernel.Base.{
  ℕ, zero, suc, ◌+◌, ◌/◌, ◌%◌, ◌≤◌, ◌<◌, ◌≡◌, refl, sym, ap, ◌∙◌, Bool, true, false, not, ◌&&◌,
  ◌||◌, inl, inr, arith, leb, ◌==◌, Bool-cases,
}
use termob_kernel.Pmm.{Pmm, frame_is_used, mark_frame_used, mark_frame_free}
use termob_kernel.Pmm.Bytes.{set-lt, clear-lt}
use termob_kernel.Pmm.Frames.{
  count_free, IsValid, mask_lem, used-mark_frame_used, used-mark_frame_free,
}

pub count_free_ext :
    (u w : ℕ → Bool) (n : ℕ) → ((j : ℕ) → j < n → u j ≡ w j) → count_free u n ≡ count_free w n
unfolding count_free
count_free_ext u w zero h = refl
count_free_ext u w (suc n) h =
    rw (h n (omega arith), count_free_ext u w n (λ j p. h j (omega arith)))

pub count_free-le : (u : ℕ → Bool) (n : ℕ) → count_free u n ≤ n
unfolding count_free
count_free-le u zero = omega arith
count_free-le u (suc n) = ground (arith, count_free-le u n)

pub count_free-zero : (u : ℕ → Bool) (n : ℕ) → ((j : ℕ) → j < n → u j ≡ true) → count_free u n ≡ 0
unfolding count_free
count_free-zero u zero h = refl
count_free-zero u (suc n) h = ground (arith, h n, count_free-zero u n (λ j p. h j (omega arith)))

count_take :
    (u w : ℕ → Bool) (i n : ℕ)
    → i < n
    → u i ≡ false
    → ((j : ℕ) → w j ≡ ((i == j) || u j))
    → count_free w n + 1 ≡ count_free u n
unfolding count_free
count_take u w i zero h free same = absurd (omega arith)
count_take u w i (suc n) h free same = elim (Bool-cases (i == n)) [
  | inl e ↦
      let at : i ≡ n = ground arith in
      let rest : count_free w n ≡ count_free u n =
        count_free_ext w u n (λ j p. ground (arith, same j)) in
      let gone : u n ≡ false = ap u (sym at) ∙ free in ground (arith, rest, same n, gone)
  | inr e ↦ ground (arith, same n, count_take u w i n (ground arith) free same)
]

count_give :
    (u w : ℕ → Bool) (i n : ℕ)
    → i < n
    → u i ≡ true
    → ((j : ℕ) → w j ≡ (not (i == j) && u j))
    → count_free w n ≡ count_free u n + 1
unfolding count_free
count_give u w i zero h used same = absurd (omega arith)
count_give u w i (suc n) h used same = elim (Bool-cases (i == n)) [
  | inl e ↦
      let at : i ≡ n = ground arith in
      let rest : count_free w n ≡ count_free u n =
        count_free_ext w u n (λ j p. ground (arith, same j)) in
      let taken : u n ≡ true = ap u (sym at) ∙ used in ground (arith, rest, same n, taken)
  | inr e ↦ ground (arith, same n, count_give u w i n (ground arith) used same)
]

-- What marking leaves alone.
pub mark_frame_used_frame :
    (s : Pmm) (i : ℕ)
    → ((mark_frame_used s i).total_frames ≡ s.total_frames)
      × ((mark_frame_used s i).next_search_frame ≡ s.next_search_frame)
      × ((mark_frame_used s i).ready ≡ s.ready)
      × ((mark_frame_used s i).bitmap_address ≡ s.bitmap_address)
      × ((mark_frame_used s i).bitmap_size_bytes ≡ s.bitmap_size_bytes)
unfolding mark_frame_used
mark_frame_used_frame s i = ground arith

pub mark_frame_free_frame :
    (s : Pmm) (i : ℕ)
    → ((mark_frame_free s i).total_frames ≡ s.total_frames)
      × ((mark_frame_free s i).next_search_frame ≡ s.next_search_frame)
      × ((mark_frame_free s i).ready ≡ s.ready)
      × ((mark_frame_free s i).bitmap_address ≡ s.bitmap_address)
      × ((mark_frame_free s i).bitmap_size_bytes ≡ s.bitmap_size_bytes)
unfolding mark_frame_free
mark_frame_free_frame s i = ground arith

mark_frame_used-bytes : {s : Pmm} (i k : ℕ) → IsValid s → (mark_frame_used s i).bitmap k < 256
unfolding mark_frame_used
mark_frame_used-bytes {s} i k v = ground (
  arith,
  v.bytes k,
  mask_lem i,
  set-lt (s.bitmap (i / 8)) (i % 8) 0 (v.bytes (i / 8)) (omega arith) (omega arith),
)

mark_frame_free-bytes : {s : Pmm} (i k : ℕ) → IsValid s → (mark_frame_free s i).bitmap k < 256
unfolding mark_frame_free
mark_frame_free-bytes {s} i k v = ground (
  arith,
  v.bytes k,
  mask_lem i,
  clear-lt (s.bitmap (i / 8)) (i % 8) 0 (v.bytes (i / 8)) (omega arith) (omega arith),
)

-- A frame of the machine that was free is one free frame less.
pub free-mark_frame_used :
    {s : Pmm} (i : ℕ)
    → IsValid s
    → i < s.total_frames
    → frame_is_used s i ≡ false
    → (mark_frame_used s i).free_frames + 1 ≡ s.free_frames
unfolding mark_frame_used
free-mark_frame_used {s} i v h free = ground (
  arith,
  v.counted,
  count_take (frame_is_used s) (frame_is_used (mark_frame_used s i)) i s.total_frames h free
      (λ j. used-mark_frame_used i j v h),
)

-- A frame of the machine that was used is one free frame more.
pub free-mark_frame_free :
    {s : Pmm} (i : ℕ)
    → IsValid s
    → i < s.total_frames
    → frame_is_used s i ≡ true
    → (mark_frame_free s i).free_frames ≡ s.free_frames + 1
unfolding mark_frame_free
free-mark_frame_free {s} i v h used =
    ground (arith, v.total, v.counted, count_free-le (frame_is_used s) s.total_frames)

pub mark_frame_used_same :
    (s : Pmm) (i : ℕ) → (leb s.total_frames i || frame_is_used s i) ≡ true → mark_frame_used s i ≡ s
unfolding mark_frame_used
mark_frame_used_same s i e = rw e

pub mark_frame_free_same :
    (s : Pmm) (i : ℕ)
    → (leb s.total_frames i || not (frame_is_used s i)) ≡ true
    → mark_frame_free s i ≡ s
unfolding mark_frame_free
mark_frame_free_same s i e = rw e

pub mark_frame_used-IsValid : {s : Pmm} (i : ℕ) → IsValid s → IsValid (mark_frame_used s i)
mark_frame_used-IsValid {s} i v = elim (Bool-cases (leb s.total_frames i || frame_is_used s i)) [
  | inl same ↦ rw (mark_frame_used_same s i same) v
  | inr change ↦
      let inside : i < s.total_frames = ground arith in
      let free : frame_is_used s i ≡ false = ground arith in
      let (total, cursor, ready, address, size) = mark_frame_used_frame s i in
      let counted =
        count_take (frame_is_used s) (frame_is_used (mark_frame_used s i)) i s.total_frames inside
          free (λ j. used-mark_frame_used i j v inside) in
      record {
        bytes = λ k. mark_frame_used-bytes i k v;
        counted = ground (arith, total, counted, free-mark_frame_used i v inside free);
        total = omega (arith, v.total, total);
        cursor = omega (arith, v.cursor, total, cursor);
      }
]

pub mark_frame_free-IsValid : {s : Pmm} (i : ℕ) → IsValid s → IsValid (mark_frame_free s i)
mark_frame_free-IsValid {s} i v =
    elim (Bool-cases (leb s.total_frames i || not (frame_is_used s i))) [
      | inl same ↦ rw (mark_frame_free_same s i same) v
      | inr change ↦
          let inside : i < s.total_frames = ground arith in
          let used : frame_is_used s i ≡ true = ground arith in
          let (total, cursor, ready, address, size) = mark_frame_free_frame s i in
          let counted =
            count_give (frame_is_used s) (frame_is_used (mark_frame_free s i)) i s.total_frames
              inside used (λ j. used-mark_frame_free i j v inside) in
          record {
            bytes = λ k. mark_frame_free-bytes i k v;
            counted = ground (arith, total, counted, free-mark_frame_free i v inside used);
            total = omega (arith, v.total, total);
            cursor = omega (arith, v.cursor, total, cursor);
          }
    ]
