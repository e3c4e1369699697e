-- ===== src/Klog/Contents.antt =====
-- The log as the sequence of its characters: it keeps the last 4095 of all that was written.
use termob_kernel.Base.{
  ℕ, suc, ◌+◌, ◌-◌, ◌≤◌, ◌<◌, ◌≡◌, refl, sym, ap, ◌∙◌, List, [], ◌∷◌, ◌++◌, arith, inl, inr, ltb,
  Bool-cases, ltb-false, ltb→lt, if◌then◌else◌,
}
use termob_kernel.Base.Arrays.{set, for_range_inv}
use termob_kernel.Base.Lists.{
  slice, slice-snoc, slice_ext, length-slice, length-append, keep_last, keep_last-append,
  keep_last-le, keep_last-suc,
}
use mathlib.Core.Path.{ap₂}
use mathlib.Core.List.{append_assoc, append-nil}
use termob_kernel.Klog.{Klog, klog_capacity, shift_left, append_char, init, write, writeline}

-- What `klog_dump_to_terminal` prints.
abbrev pub contents : Klog → List ℕ
contents s = slice s.buffer 0 s.length

-- The terminating NUL stands behind the text, inside the buffer.
pub record IsValid (s : Klog) : Type 0 where
  pub fits : s.length ≤ klog_capacity - 1
  pub ends : s.buffer s.length ≡ 0

shift_left_lem :
    (n : ℕ) (buffer : ℕ → ℕ) (j : ℕ)
    → shift_left n buffer j ≡ (if ltb j n then buffer (j + 1) else buffer j)
unfolding shift_left
shift_left_lem n buffer j =
    (for_range_inv
        (λ i b. (1 ≤ i) × ((j : ℕ) → b j ≡ (if ltb (j + 1) i then buffer (j + 1) else buffer j)))
        (λ i b. set b (i - 1) (b i)) (1 + n)
        (λ i b lt (pos, same). (omega arith, λ j. ground (arith, same j, same i))) n 1 buffer refl
        (omega arith, λ j. ground arith)).1
      j
    ∙ ground arith

module _ (b : ℕ → ℕ) (c : ℕ) where
  append-room :
      (n : ℕ)
      → n < klog_capacity - 1
      → slice (set (set b n c) (n + 1) 0) 0 (n + 1)
        ≡ keep_last (klog_capacity - 1) (slice b 0 n ++ (c ∷ []))
  append-room n h =
      let new : ℕ → ℕ = set (set b n c) (n + 1) 0 in
      let e : n + 1 ≡ suc n = omega arith in
      let same : slice new 0 n ≡ slice b 0 n = slice_ext new b 0 0 n (λ k p. ground arith) in
      let last : new (0 + n) ≡ c = ground arith in
      ap (slice new 0) e
      ∙ slice-snoc new 0 n
      ∙ ap₂ (λ l x. l ++ (x ∷ [])) same last
      ∙ sym (
          keep_last-le (klog_capacity - 1) (slice b 0 n ++ (c ∷ []))
            (omega (arith, length-append (slice b 0 n) (c ∷ []), length-slice b 0 n)))

  append-full :
      (m n : ℕ)
      → n ≡ suc m
      → slice (set (set (shift_left m b) m c) (m + 1) 0) 0 n
        ≡ keep_last (suc m) (slice b 0 n ++ (c ∷ []))
  append-full m n e =
      let new : ℕ → ℕ = set (set (shift_left m b) m c) (m + 1) 0 in
      let moved : slice new 0 m ≡ slice b (0 + 1) m =
        slice_ext new b 0 (0 + 1) m (λ k p. ground (arith, shift_left_lem m b (0 + k))) in
      let last : new (0 + m) ≡ c = ground arith in
      rw e (
        slice-snoc new 0 m
        ∙ ap₂ (λ l x. l ++ (x ∷ [])) moved last
        ∙ sym (
            keep_last-suc (suc m) (b 0) (slice b (0 + 1) m ++ (c ∷ [])) (
              omega (arith, length-append (slice b (0 + 1) m) (c ∷ []), length-slice b (0 + 1) m))))

-- A character goes behind the text; when the buffer is full, the oldest one makes room.
contents-append_char :
    {s : Klog} (c : ℕ)
    → IsValid s
    → contents (append_char s c) ≡ keep_last (klog_capacity - 1) (contents s ++ (c ∷ []))
unfolding append_char
contents-append_char {s} c v = elim (Bool-cases (ltb s.length 4095)) [
  | inl room ↦ rw room (append-room s.buffer c s.length (ltb→lt _ _ room))
  | inr full ↦
      rw full (append-full s.buffer c 4094 s.length (omega (arith, v.fits, ltb-false _ _ full)))
]

append_char-IsValid : {s : Klog} (c : ℕ) → IsValid s → IsValid (append_char s c)
unfolding append_char
append_char-IsValid c v = ground arith

-- `klog_init` makes the log valid and empty, whatever the buffer held.
pub init-IsValid : (s : Klog) → IsValid (init s) × (contents (init s) ≡ [])
unfolding init
init-IsValid s = (omega arith, refl)

-- `klog_write` keeps the buffer terminated and in bounds, and the log then holds the last 4095
-- characters of its old contents followed by the text.
pub write_lem :
    (s : Klog) (text : List ℕ)
    → IsValid s
    → IsValid (write s text)
      × (contents (write s text) ≡ keep_last (klog_capacity - 1) (contents s ++ text))
unfolding write
write_lem s [] v = (
  v,
  rw append-nil (
      sym
        (keep_last-le 4095 (contents s) (omega (arith, v.fits, length-slice s.buffer 0 s.length)))),
)
write_lem s (c ∷ text) v =
    let (v', e) = write_lem (append_char s c) text (append_char-IsValid c v) in
    (
      v',
      e
          ∙ ap (λ l. keep_last 4095 (l ++ text)) (contents-append_char c v)
          ∙ keep_last-append 4095 (contents s ++ (c ∷ [])) text
          ∙ ap (keep_last 4095) (append_assoc (contents s) (c ∷ []) text),
    )

-- `klog_writeline` does the same for the text and a line feed.
pub writeline_lem :
    (s : Klog) (text : List ℕ)
    → IsValid s
    → IsValid (writeline s text)
      × (contents (writeline s text)
          ≡ keep_last (klog_capacity - 1) (contents s ++ (text ++ (10 ∷ []))))
unfolding writeline
writeline_lem s text v =
    let (v', e) = write_lem s text v in
    (
      append_char-IsValid 10 v',
      contents-append_char 10 v'
          ∙ ap (λ l. keep_last 4095 (l ++ (10 ∷ []))) e
          ∙ keep_last-append 4095 (contents s ++ text) (10 ∷ [])
          ∙ ap (keep_last 4095) (append_assoc (contents s) text (10 ∷ [])),
    )
