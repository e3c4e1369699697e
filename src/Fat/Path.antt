-- ===== src/Fat/Path.antt =====
-- The components of a path. A path is the list of its characters; a cursor into it is what is left.
use mathlib.Core.Path.{subst}
use termob_kernel.Base.{
  ℕ, ◌+◌, ◌≤◌, ◌<◌, ◌≡◌, ◌≢◌, refl, ap, ◌∙◌, Bool, true, false, not, ◌&&◌, ◌||◌, Option, none, some,
  ◌⊎◌, inl, inr, arith, List, [], ◌∷◌, ◌++◌, ltb, leb, ◌==◌, Bool-cases, if◌then◌else◌,
}
use termob_kernel.Base.Lists.{length}

-- `/`
abbrev pub separator : ℕ
separator = 47

unfoldable pub skip_path_separators : List ℕ → List ℕ
skip_path_separators [] = []
skip_path_separators (c ∷ cs) =
    let rest = skip_path_separators cs in if c == separator then rest else c ∷ cs

-- `char` is signed: a byte from 128 on is negative, so it fails the first test.
unfoldable pub is_valid_path_char : ℕ → Bool
is_valid_path_char c = leb 32 c && (leb c 126 && not (c == separator))

-- The copying loop of `fat_parse_path_component` with `length` characters copied: the characters
-- that are still copied, and what is left.
unfoldable pub copy_loop : (size length : ℕ) → List ℕ → Option (List ℕ × List ℕ)
copy_loop size length [] = some ([], [])
copy_loop size length (c ∷ cs) =
    let rest = copy_loop size (length + 1) cs in
    if c == separator
    then some ([], c ∷ cs)
    else if not (is_valid_path_char c) || leb size (length + 1)
    then none
    else elim rest [ none ↦ none | some (component, left) ↦ some (c ∷ component, left) ]

abbrev pub is_empty : List ℕ → Bool
is_empty [] = true
is_empty (c ∷ cs) = false

-- The component, what is left of the path, and whether there is more.
unfoldable pub parse_path_component : List ℕ → (size : ℕ) → Option (List ℕ × List ℕ × Bool)
parse_path_component path size =
    let cursor = skip_path_separators path in
    if ltb size 2
    then none
    else if is_empty cursor
    then some ([], cursor, false)
    else elim (copy_loop size 0 cursor) [
      | none ↦ none
      | some (component, left) ↦
          let rest = skip_path_separators left in some (component, rest, not (is_empty rest))
    ]

List-cases : (cs : List ℕ) → (cs ≡ []) ⊎ ((c : ℕ) × (rest : List ℕ) × (cs ≡ c ∷ rest))
List-cases [] = inl refl
List-cases (c ∷ cs) = inr (c, cs, refl)

-- A list of separators.
abbrev pub AllSeparators : List ℕ → Type 0
AllSeparators [] = Unit
AllSeparators (c ∷ cs) = (c ≡ separator) × AllSeparators cs

-- The characters of a component can be printed and are no separators.
abbrev pub Allowed : ℕ → Type 0
Allowed c = (32 ≤ c) × (c ≤ 126) × (c ≢ separator)

abbrev pub AllValid : List ℕ → Type 0
AllValid [] = Unit
AllValid (c ∷ cs) = Allowed c × AllValid cs

abbrev pub Starts : List ℕ → Type 0
Starts [] = Unit
Starts (c ∷ cs) = c ≢ separator

-- A path is its leading separators and what is left of it.
pub skip_path_separators_lem :
    (path : List ℕ)
    → (seps : List ℕ) × (AllSeparators seps)
      × (path ≡ seps ++ skip_path_separators path)
      × (Starts (skip_path_separators path))
unfolding skip_path_separators
skip_path_separators_lem [] = ([], tt, refl, tt)
skip_path_separators_lem (c ∷ cs) = elim (Bool-cases (c == separator)) [
  | inl sep ↦
      let (seps, all, e, starts) = skip_path_separators_lem cs in
      let at : c ≡ separator = ground arith in
      rw sep (c ∷ seps, (at, all), ap (λ l. c ∷ l) e, starts)
  | inr other ↦ rw other ([], tt, refl, ground arith)
]

-- Why the loop stops with an error behind a component: at a character that cannot be printed, or where
-- the buffer has no room for one more and the zero.
abbrev pub Blocked : (size copied : ℕ) → List ℕ → Type 0
Blocked size copied [] = ⊥
Blocked size copied (c ∷ cs) = (c ≢ separator) × ((c < 32) ⊎ ((126 < c) ⊎ (size ≤ copied + 1)))

-- The end of a component: the end of the path or a separator.
abbrev pub Ends : List ℕ → Type 0
Ends [] = Unit
Ends (c ∷ cs) = c ≡ separator

-- The loop splits what it reads into the component and the rest, which is empty or starts with a
-- separator; where it fails, a component of valid characters has another character behind it that is
-- not valid or has no room.
abbrev Split : (size n : ℕ) → List ℕ → Option (List ℕ × List ℕ) → Type 0
Split size n cs none =
    (component : List ℕ) × (left : List ℕ) × (cs ≡ component ++ left)
    × AllValid component
    × Blocked size (n + length component) left
Split size n cs (some (component, left)) =
    (cs ≡ component ++ left)
    × AllValid component
    × Ends left
    × (0 < length component → n + length component < size)
    × (Starts cs → 0 < length cs → 0 < length component)

is_valid_path_char-Allowed : (c : ℕ) → is_valid_path_char c ≡ true → Allowed c
unfolding is_valid_path_char
is_valid_path_char-Allowed c h = (ground arith, ground arith, ground arith)

Split-cons :
    (size n c : ℕ) (cs : List ℕ) (rest : Option (List ℕ × List ℕ))
    → is_valid_path_char c ≡ true
    → n + 1 < size
    → Split size (n + 1) cs rest
    → Split size n
        (c ∷ cs)
        (elim rest [ none ↦ none | some (component, left) ↦ some (c ∷ component, left) ])
Split-cons size n c cs none valid room (component, left, e, all, blocked) =
    let place : n + 1 + length component ≡ n + length (c ∷ component) = omega arith in
    (
      c ∷ component,
      left,
      ap (λ l. c ∷ l) e,
      (is_valid_path_char-Allowed c valid, all),
      subst (λ k. Blocked size k left) place blocked,
    )
Split-cons size n c cs (some ([], left)) valid room (e, all, ends, fits, starts) = (
  ap (λ l. c ∷ l) e,
  (is_valid_path_char-Allowed c valid, all),
  ends,
  λ _. omega arith,
  λ _ _. omega arith,
)
Split-cons size n c cs (some (x ∷ component, left)) valid room (e, all, ends, fits, starts) = (
  ap (λ l. c ∷ l) e,
  (is_valid_path_char-Allowed c valid, all),
  ends,
  λ _. omega (arith, fits (omega arith)),
  λ _ _. omega arith,
)

refused_here :
    (size n c : ℕ) (cs : List ℕ)
    → (c == separator) ≡ false
    → (not (is_valid_path_char c) || leb size (n + 1)) ≡ true
    → Blocked size (n + 0) (c ∷ cs)
unfolding is_valid_path_char
refused_here size n c cs other refused = (
  ground arith,
  elim (Bool-cases (ltb c 32)) [
    | inl low ↦ inl (ground arith)
    | inr printable ↦ elim (Bool-cases (ltb 126 c)) [
      | inl high ↦ inr (inl (ground arith))
      | inr plain ↦ inr (inr (ground arith))
    ]
  ],
)

copy_loop-Split : (size n : ℕ) (cs : List ℕ) → Split size n cs (copy_loop size n cs)
unfolding copy_loop
copy_loop-Split size n [] = (refl, tt, tt, λ h. absurd (omega arith), λ _ h. h)
copy_loop-Split size n (c ∷ cs) = elim (Bool-cases (c == separator)) [
  | inl sep ↦ rw sep (
    refl,
    tt,
    ground arith,
    λ h. absurd (omega arith),
    λ starts h. absurd (starts (ground arith)),
  )
  | inr other ↦ elim (Bool-cases (not (is_valid_path_char c) || leb size (n + 1))) [
    | inl refused ↦
        let blocked = refused_here size n c cs other refused in
        rw (other, refused) ([], c ∷ cs, refl, tt, blocked)
    | inr accepted ↦
        rw (other, accepted)
          (Split-cons size n c cs (copy_loop size (n + 1) cs) (ground arith) (ground arith)
            (copy_loop-Split size (n + 1) cs))
  ]
]

-- What a result says of the path: behind leading separators stands the whole component, then more
-- separators, then what is left. It is refused where the buffer has less than two characters, or where
-- what follows the separators is no component that fits.
abbrev pub Parsed : (size : ℕ) (path : List ℕ) → Option (List ℕ × List ℕ × Bool) → Type 0
Parsed size path none =
    (size < 2)
    ⊎ ((before : List ℕ) × (component : List ℕ) × (left : List ℕ) × (path
          ≡ before ++ (component ++ left))
        × AllSeparators before
        × AllValid component
        × Blocked size (length component) left)
Parsed size path (some (component, left, has_more)) =
    (before : List ℕ) × (after : List ℕ) × (path ≡ before ++ (component ++ (after ++ left)))
    × AllSeparators before
    × AllSeparators after
    × AllValid component
    × (length component < size)
    × Ends (after ++ left)
    × Starts left
    × (has_more ≡ not (is_empty left))
    × (component ≡ [] → left ≡ [])

Parsed-copy :
    (size : ℕ) (path seps cursor : List ℕ) (result : Option (List ℕ × List ℕ))
    → 2 ≤ size
    → AllSeparators seps
    → path ≡ seps ++ cursor
    → Starts cursor
    → 0 < length cursor
    → Split size 0 cursor result
    → Parsed size path (elim result [
      | none ↦ none
      | some (component, left) ↦
          some (component, skip_path_separators left, not (is_empty (skip_path_separators left)))
    ])
Parsed-copy size path seps cursor none room all e starts some_char
      (component, left, split, valid, blocked) =
    let none_copied : 0 + length component ≡ length component = omega arith in
    inr (
      seps,
      component,
      left,
      e ∙ ap (λ l. seps ++ l) split,
      all,
      valid,
      subst (λ k. Blocked size k left) none_copied blocked,
    )
Parsed-copy size path seps cursor (some (component, left)) room all e starts some_char
      (split, valid, ends, fits, first) =
    let (after, all', e', starts') = skip_path_separators_lem left in
    let some_component : 0 < length component = first starts some_char in
    (
      seps,
      after,
      e ∙ ap (λ l. seps ++ l) (split ∙ ap (λ l. component ++ l) e'),
      all,
      all',
      valid,
      omega (arith, fits some_component),
      subst Ends e' ends,
      starts',
      refl,
      λ nil. absurd (omega (arith, some_component, ap length nil)),
    )

-- `fat_parse_path_component` splits the path into separators, a component that fits its buffer, more
-- separators and the rest. The component is all that stands before the next separator or the end of
-- the path, of printable characters, and empty only where the path ends. It refuses a path only
-- where there is no such component: at a character that cannot be printed, where the buffer has no
-- room for the next one and the zero, or where it has less than two characters.
pub parse_path_component-Parsed :
    (path : List ℕ) (size : ℕ) → Parsed size path (parse_path_component path size)
unfolding parse_path_component
parse_path_component-Parsed path size = elim (Bool-cases (ltb size 2)) [
  | inl small ↦ rw small (inl (ground arith))
  | inr room ↦
      let (seps, all, e, starts) = skip_path_separators_lem path in
      elim (List-cases (skip_path_separators path)) [
        | inl at_end ↦
            rw (room, at_end)
              (
                seps,
                [],
                e ∙ ap (λ l. seps ++ l) at_end,
                all,
                tt,
                tt,
                ground arith,
                tt,
                tt,
                refl,
                λ _. refl,
              )
        | inr (c, cs, more) ↦
            let split = copy_loop-Split size 0 (skip_path_separators path) in
            let some_char : 0 < length (skip_path_separators path) = rw more (omega arith) in
            let open_end : is_empty (skip_path_separators path) ≡ false = rw more refl in
            rw (room, open_end)
              (Parsed-copy size path seps (skip_path_separators path)
                (copy_loop size 0 (skip_path_separators path)) (ground arith) all e starts some_char
                split)
      ]
]
