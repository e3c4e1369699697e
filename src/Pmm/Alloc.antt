-- ===== src/Pmm/Alloc.antt =====
-- `pmm_alloc_frame` and `pmm_free_frame` over the set of used frames.
use termob_kernel.Base.{
  ℕ, zero, suc, ◌+◌, ◌-◌, ◌*◌, ◌/◌, ◌%◌, ◌≤◌, ◌<◌, ◌≡◌, ◌↔◌, refl, sym, ap, ◌∙◌, Bool, true, false,
  not, ◌&&◌, ◌||◌, inl, inr, none, some, bit_and, arith, leb, ltb, ◌==◌, Bool-cases, Option-cases,
  if◌then◌else◌, ltb→lt,
}
use termob_kernel.Base.Words.{add32}
use termob_kernel.Base.Bits.{bit_and_page}
use termob_kernel.Pmm.{
  Pmm, frame_size, frame_is_used, mark_frame_free, find_free, take_frame, alloc_frame, free_frame,
}
use termob_kernel.Pmm.Frames.{count_free, IsValid, used-mark_frame_used, used-mark_frame_free}
use termob_kernel.Pmm.Count.{
  count_free-zero, mark_frame_used_frame, free-mark_frame_used, free-mark_frame_free,
  mark_frame_used-IsValid, mark_frame_free-IsValid, mark_frame_free_same,
}

find_free-some :
    {f : ℕ} (s : Pmm) (rounds i : ℕ)
    → find_free s rounds i ≡ some f
    → (i ≤ f) × (f < i + rounds) × (frame_is_used s f ≡ false)
unfolding find_free
find_free-some s zero i e = absurd (cc)
find_free-some {f} s (suc rounds) i e = elim (Bool-cases (frame_is_used s i)) [
  | inl used ↦
      let (low, high, free) = find_free-some s rounds (i + 1) (rw (used, find_free) at e) in
      (omega arith, omega arith, free)
  | inr free ↦ ground arith
]

find_free-none :
    (s : Pmm) (rounds i : ℕ)
    → find_free s rounds i ≡ none
    → (j : ℕ) → i ≤ j
    → j < i + rounds
    → frame_is_used s j ≡ true
unfolding find_free
find_free-none s zero i e j low high = absurd (omega arith)
find_free-none s (suc rounds) i e j low high = elim (Bool-cases (frame_is_used s i)) [
  | inl used ↦ elim (Bool-cases (i == j)) [
    | inl here ↦ let at : i ≡ j = ground arith in ap (frame_is_used s) (sym at) ∙ used
    | inr later ↦
        find_free-none s rounds (i + 1) (rw (used, find_free) at e) j (ground arith) (omega arith)
  ]
  | inr free ↦ ground arith
]

pub count_free-zero_used : (u : ℕ → Bool) (n j : ℕ) → count_free u n ≡ 0 → j < n → u j ≡ true
unfolding count_free
count_free-zero_used u zero j e h = absurd (omega arith)
count_free-zero_used u (suc n) j e h = elim (Bool-cases (n == j)) [
  | inl here ↦ let at : n ≡ j = ground arith in ap u (sym at) ∙ ground arith
  | inr later ↦ count_free-zero_used u n j (ground arith) (ground arith)
]

-- `frame` of `s` was free and is used in `s'`, at the returned address; no other frame changed.
pub record Taken (s : Pmm) (frame address : ℕ) (s' : Pmm) : Type 0 where
  pub at : address ≡ frame * frame_size
  pub inside : frame < s.total_frames
  pub was_free : frame_is_used s frame ≡ false
  pub now : (j : ℕ) → frame_is_used s' j ≡ ((frame == j) || frame_is_used s j)
  pub count : s'.free_frames + 1 ≡ s.free_frames
  pub total : s'.total_frames ≡ s.total_frames
  pub ready : s'.ready ≡ s.ready
  pub valid : IsValid s'

used_cursor :
    (s : Pmm) (n j : ℕ) → frame_is_used (record s { next_search_frame = n }) j ≡ frame_is_used s j
unfolding frame_is_used
used_cursor s n j = refl

cursor-IsValid :
    {s : Pmm} (n : ℕ)
    → IsValid s
    → n ≤ s.total_frames
    → IsValid (record s { next_search_frame = n })
unfolding frame_is_used
cursor-IsValid n v h = record { bytes = v.bytes; counted = v.counted; total = v.total; cursor = h }

pub take_frame-Taken :
    {s : Pmm} (f : ℕ)
    → IsValid s
    → f < s.total_frames
    → frame_is_used s f ≡ false
    → Taken s f (take_frame s f).0 (take_frame s f).1
unfolding take_frame
take_frame-Taken {s} f v h free =
    let (total, cursor, ready, address, size) = mark_frame_used_frame s f in
    record {
      at = omega (arith, v.total);
      inside = h;
      was_free = free;
      now = λ j. used_cursor _ _ j ∙ used-mark_frame_used f j v h;
      count = free-mark_frame_used f v h free;
      total = total;
      ready = ready;
      valid =
          cursor-IsValid (add32 f 1) (mark_frame_used-IsValid f v) (omega (arith, v.total, total));
    }

-- While a frame is free, an allocation succeeds: it returns the address of a frame that was free,
-- marks it used, changes no other frame, lowers the count by one and keeps the allocator valid.
pub alloc_frame-Taken :
    {s : Pmm}
    → IsValid s
    → s.ready ≡ true
    → 0 < s.free_frames
    → (frame : ℕ) × Taken s frame (alloc_frame s).0 (alloc_frame s).1
unfolding alloc_frame
alloc_frame-Taken {s} v on some_free =
    let on_and_free : (not s.ready || (s.free_frames == 0)) ≡ false = ground arith in
    rw on_and_free
      (elim (Option-cases
        (find_free s (s.total_frames - s.next_search_frame) s.next_search_frame)) [
          | inr (f, e) ↦
              let (low, high, free) = find_free-some s _ _ e in
              rw (e, alloc_frame) (f, take_frame-Taken f v (omega (arith, v.cursor)) free)
          | inl e ↦ elim (Option-cases (find_free s s.next_search_frame 0)) [
            | inr (f, e') ↦
                let (low, high, free) = find_free-some s _ _ e' in
                rw (e, e', alloc_frame) (f, take_frame-Taken f v (omega (arith, v.cursor)) free)
            | inl e' ↦
                let all_used : count_free (frame_is_used s) s.total_frames ≡ 0 =
                  count_free-zero _ _ (λ j h. elim (Bool-cases (ltb j s.next_search_frame)) [
                    | inl below ↦ find_free-none s _ _ e' j (omega arith) (ground arith)
                    | inr above ↦ find_free-none s _ _ e j (ground arith) (ground (arith, v.cursor))
                  ]) in
                absurd (omega (arith, v.counted, all_used))
          ]
        ])

-- A ready allocator returns 0 and stays as it is exactly when every frame is in use.
pub alloc_frame_fails_iff :
    {s : Pmm}
    → IsValid s
    → s.ready ≡ true
    → (alloc_frame s ≡ (0, s)) ↔ ((j : ℕ) → j < s.total_frames → frame_is_used s j ≡ true)
unfolding alloc_frame
alloc_frame_fails_iff {s} v on = (
  λ e j h.
      count_free-zero_used (frame_is_used s) s.total_frames j
        (elim (Bool-cases (s.free_frames == 0)) [
          | inl none_free ↦ ground (arith, v.counted)
          | inr some_free ↦
              let (f, t) = alloc_frame-Taken v on (ground arith) in
              absurd (omega (arith, t.count, ap (λ (r : ℕ × Pmm). r.1.free_frames) e))
        ])
        h,
  λ all.
      let none_free : (s.free_frames == 0) ≡ true =
        ground (arith, v.counted, count_free-zero (frame_is_used s) s.total_frames all) in
      ground arith,
)

-- `s'` is `s` with frame `f` free.
abbrev Released : Pmm → ℕ → Pmm → Type 0
Released s f s' =
    IsValid s'
    × ((j : ℕ) → frame_is_used s' j ≡ (not (f == j) && frame_is_used s j))
    × (s'.free_frames ≡ (if frame_is_used s f then s.free_frames + 1 else s.free_frames))

released : {s : Pmm} (f : ℕ) → IsValid s → f < s.total_frames → Released s f (mark_frame_free s f)
released {s} f v h = (
  mark_frame_free-IsValid f v,
  λ j. used-mark_frame_free f j v h,
  elim (Bool-cases (frame_is_used s f)) [
    | inl used ↦ rw used (free-mark_frame_free f v h used)
    | inr free ↦
        let same = mark_frame_free_same s f (ground arith) in
        rw free (ap (λ (t : Pmm). t.free_frames) same)
  ],
)

lower_cursor-Released :
    (s s' : Pmm) (f : ℕ)
    → Released s f s'
    → Released s f (if ltb f s'.next_search_frame then record s' { next_search_frame = f } else s')
lower_cursor-Released s s' f (v, now, count) = elim (Bool-cases (ltb f s'.next_search_frame)) [
  | inl below ↦ rw below (
    cursor-IsValid f v (omega (arith, v.cursor, ltb→lt _ _ below)),
    λ j. used_cursor s' f j ∙ now j,
    count,
  )
  | inr above ↦ rw above (v, now, count)
]

free_frame_same :
    (s : Pmm) (address : ℕ)
    → ((address % 4096 == 0) && ltb (address / 4096) s.total_frames) ≡ false
    → free_frame s address ≡ s
unfolding free_frame
free_frame_same s address h = ground (arith, bit_and_page address)

-- What `pmm_free_frame` does at each address. A whole frame of the machine becomes free, no other
-- frame changes, and the count grows only if it was in use; any other address changes nothing.
pub free_frame_lem :
    {s : Pmm} (address : ℕ)
    → IsValid s
    → s.ready ≡ true
    → IsValid (free_frame s address)
      × ((j : ℕ)
          → frame_is_used (free_frame s address) j ≡ (
              not (
                (address % frame_size == 0)
                && ltb (address / frame_size) s.total_frames
                && (address / frame_size == j))
              && frame_is_used s j))
      × ((free_frame s address).free_frames ≡ (
          if (address % frame_size == 0)
            && ltb (address / frame_size) s.total_frames
            && frame_is_used s (address / frame_size)
          then s.free_frames + 1
          else s.free_frames))
unfolding free_frame
free_frame_lem {s} address v on =
    let aligned : bit_and address 4095 ≡ address % 4096 = bit_and_page address in
    elim (Bool-cases ((address % 4096 == 0) && ltb (address / 4096) s.total_frames)) [
      | inl whole ↦
          let inside : address / 4096 < s.total_frames = ground arith in
          let go_on : (not s.ready || not (bit_and address 4095 == 0)) ≡ false = ground arith in
          let within : leb s.total_frames (address / 4096) ≡ false = ground arith in
          let page : (address % 4096 == 0) ≡ true = ground arith in
          let small : ltb (address / 4096) s.total_frames ≡ true = ground arith in
          rw (go_on, within, page, small)
            (lower_cursor-Released s _ (address / 4096) (released (address / 4096) v inside))
      | inr ignored ↦
          let same : free_frame s address ≡ s = free_frame_same s address ignored in
          rw same (v, λ j. ground arith, ground arith)
    ]
