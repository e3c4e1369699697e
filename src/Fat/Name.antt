-- ===== src/Fat/Name.antt =====
-- Names: the 8.3 name of an entry as text, and the comparison of names. A C string is the list of its
-- characters up to the terminating zero.
use termob_kernel.Base.{
  ℕ, zero, suc, ◌+◌, ◌-◌, ◌/◌, ◌%◌, ◌^◌, ◌≤◌, ◌<◌, ◌≡◌, ◌↔◌, ◌⊎◌, refl, ap, Bool, true, false, not,
  ◌&&◌, ◌||◌, inl, inr, arith, bit_and, List, [], ◌∷◌, ◌++◌, ltb, leb, ◌==◌, Bool-cases,
  if◌then◌else◌,
}
use termob_kernel.Base.Lists.{length, length-append, slice, length-slice}

-- The length of `bytes[from…from + n - 1]` without the spaces at its end.
unfoldable pub trim_end : (ℕ → ℕ) → (from n : ℕ) → ℕ
trim_end bytes from zero = 0
trim_end bytes from (suc n) =
    let rest = trim_end bytes from n in if bytes (from + n) == 32 then rest else suc n

-- A character that is not printable becomes `_`.
unfoldable pub clean : ℕ → ℕ
clean c = if ltb c 32 || ltb 126 c then 95 else c

abbrev pub name_char : (ℕ → ℕ) → ℕ → ℕ
name_char raw i = clean (if (i == 0) && (raw i == 0x05) then 0xe5 else raw i)

abbrev pub or_question : List ℕ → List ℕ
or_question [] = 63 ∷ []
or_question (c ∷ cs) = c ∷ cs

unfoldable pub copy_83_name : (ℕ → ℕ) → List ℕ
copy_83_name raw =
    let ext = trim_end raw 8 3 in
    or_question (
      slice (name_char raw) 0 (trim_end raw 0 8)
      ++ (if ext == 0 then [] else 46 ∷ slice (λ i. clean (raw i)) 8 ext))

unfoldable pub ascii_upper : ℕ → ℕ
ascii_upper c = if leb 97 c && leb c 122 then c - 32 else c

unfoldable pub name_equals_case_insensitive : List ℕ → List ℕ → Bool
name_equals_case_insensitive [] [] = true
name_equals_case_insensitive [] (y ∷ ys) = false
name_equals_case_insensitive (x ∷ xs) [] = false
name_equals_case_insensitive (x ∷ xs) (y ∷ ys) =
    let rest = name_equals_case_insensitive xs ys in
    if not (ascii_upper x == ascii_upper y) then false else rest

-- The loop of `fat_short_name_checksum`, from byte `i` on.
unfoldable pub checksum_loop : (ℕ → ℕ) → (rounds i checksum : ℕ) → ℕ
checksum_loop raw zero i checksum = checksum
checksum_loop raw (suc rounds) i checksum =
    checksum_loop raw rounds (i + 1)
      (((if not (bit_and checksum 1 == 0) then 0x80 else 0) + checksum / 2 + raw i) % 2 ^ 8)

unfoldable pub short_name_checksum : (ℕ → ℕ) → ℕ
short_name_checksum raw = checksum_loop raw 11 0 0

-- Every character can be printed.
abbrev pub AllPrintable : List ℕ → Type 0
AllPrintable [] = Unit
AllPrintable (c ∷ cs) = (32 ≤ c) × (c ≤ 126) × AllPrintable cs

AllPrintable-append : (xs ys : List ℕ) → AllPrintable xs → AllPrintable ys → AllPrintable (xs ++ ys)
AllPrintable-append [] ys h h' = h'
AllPrintable-append (x ∷ xs) ys (low, high, rest) h' =
    (low, high, AllPrintable-append xs ys rest h')

clean-printable : (c : ℕ) → (32 ≤ clean c) × (clean c ≤ 126)
unfolding clean
clean-printable c = ground arith

slice-AllPrintable :
    (f : ℕ → ℕ) (i n : ℕ) → ((j : ℕ) → (32 ≤ f j) × (f j ≤ 126)) → AllPrintable (slice f i n)
slice-AllPrintable f i zero h = tt
slice-AllPrintable f i (suc n) h =
    let (low, high) = h i in (low, high, slice-AllPrintable f (i + 1) n h)

trim_end-le : (bytes : ℕ → ℕ) (from n : ℕ) → trim_end bytes from n ≤ n
unfolding trim_end
trim_end-le bytes from zero = omega arith
trim_end-le bytes from (suc n) = ground (arith, trim_end-le bytes from n)

or_question_lem :
    (cs : List ℕ)
    → AllPrintable cs
    → length cs ≤ 12
    → AllPrintable (or_question cs) × (1 ≤ length (or_question cs)) × (length (or_question cs) ≤ 12)
or_question_lem [] printable short = ((omega arith, omega arith, tt), omega arith, omega arith)
or_question_lem (c ∷ cs) printable short = (printable, omega arith, short)

-- The 8.3 name of an entry, whatever its bytes are, has one to twelve characters, so that it fits the
-- buffer of 13 bytes with its zero, and all of them can be printed.
pub copy_83_name-AllPrintable :
    (raw : ℕ → ℕ)
    → AllPrintable (copy_83_name raw)
      × (1 ≤ length (copy_83_name raw))
      × (length (copy_83_name raw) ≤ 12)
unfolding copy_83_name
copy_83_name-AllPrintable raw =
    let base : ℕ = trim_end raw 0 8 in
    let ext : ℕ = trim_end raw 8 3 in
    let base_short = trim_end-le raw 0 8 in
    let ext_short = trim_end-le raw 8 3 in
    let chars : List ℕ = slice (name_char raw) 0 base in
    let printable : AllPrintable chars = slice-AllPrintable _ 0 base (λ j. clean-printable _) in
    let measured : length chars ≡ base = length-slice (name_char raw) 0 base in
    elim (Bool-cases (ext == 0)) [
      | inl no_ext ↦ rw no_ext (
          or_question_lem (chars ++ []) (AllPrintable-append chars [] printable tt)
            (omega (arith, length-append chars [])))
      | inr some_ext ↦
          let ending : List ℕ = slice (λ i. clean (raw i)) 8 ext in
          let measured' : length ending ≡ ext = length-slice (λ i. clean (raw i)) 8 ext in
          rw some_ext (
            or_question_lem (chars ++ (46 ∷ ending))
              (AllPrintable-append chars (46 ∷ ending) printable
                (omega arith, omega arith, slice-AllPrintable _ 8 ext (λ j. clean-printable _)))
              (omega (arith, length-append chars (46 ∷ ending))))
    ]

-- The same character, or the two cases of one of the 26 letters.
abbrev pub SameLetter : ℕ → ℕ → Type 0
SameLetter a b =
    (a ≡ b) ⊎ ((k : ℕ) × (k < 26) × (((a ≡ 65 + k) × (b ≡ 97 + k)) ⊎ ((a ≡ 97 + k) × (b ≡ 65 + k))))

abbrev pub SameName : List ℕ → List ℕ → Type 0
SameName [] [] = Unit
SameName [] (y ∷ ys) = ⊥
SameName (x ∷ xs) [] = ⊥
SameName (x ∷ xs) (y ∷ ys) = SameLetter x y × SameName xs ys

ascii_upper-SameLetter : (a b : ℕ) → ascii_upper a ≡ ascii_upper b → SameLetter a b
unfolding ascii_upper
ascii_upper-SameLetter a b e = elim (Bool-cases (a == b)) [
  | inl same ↦ inl (ground arith)
  | inr other ↦ elim (Bool-cases (leb 97 a && leb a 122)) [
    | inl small ↦ inr (a - 97, ground arith, inr (ground arith, ground arith))
    | inr large ↦ inr (b - 97, ground arith, inl (ground arith, ground arith))
  ]
]

SameLetter-ascii_upper : (a b : ℕ) → SameLetter a b → ascii_upper a ≡ ascii_upper b
unfolding ascii_upper
SameLetter-ascii_upper a b (inl e) = ap ascii_upper e
SameLetter-ascii_upper a b (inr (k, letter, inl (large, small))) = ground arith
SameLetter-ascii_upper a b (inr (k, letter, inr (small, large))) = ground arith

-- Two names are equal for the file system exactly if they have the same length and at each place the
-- same character or the two cases of one of the letters A to Z.
pub name_equals_case_insensitive_iff :
    (xs ys : List ℕ) → (name_equals_case_insensitive xs ys ≡ true) ↔ SameName xs ys
unfolding name_equals_case_insensitive
name_equals_case_insensitive_iff [] [] = (λ e. tt, λ u. refl)
name_equals_case_insensitive_iff [] (y ∷ ys) = (λ e. absurd (ground arith), λ z. absurd z)
name_equals_case_insensitive_iff (x ∷ xs) [] = (λ e. absurd (ground arith), λ z. absurd z)
name_equals_case_insensitive_iff (x ∷ xs) (y ∷ ys) =
    let (there, back) = name_equals_case_insensitive_iff xs ys in
    (
      λ e. (ascii_upper-SameLetter x y (ground arith), there (ground arith)),
      λ (letter, rest).
          let same = SameLetter-ascii_upper x y letter in let more = back rest in ground arith,
    )
