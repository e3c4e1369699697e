-- ===== src/Heap/Linked.antt =====
-- Doubly linked lists of ascending addresses, given by their two link fields: what taking a node out
-- and putting one in does to the list. Both the chain of blocks and the free list are such lists.
use termob_kernel.Base.{
  ℕ, ◌≤◌, ◌<◌, ◌≡◌, ◌≢◌, refl, ◌∙◌, arith, List, [], ◌∷◌, ◌++◌, ◌==◌, if◌then◌else◌,
}

-- The first and the last address, or another where there is none.
abbrev pub first_of : List ℕ → ℕ → ℕ
first_of [] other = other
first_of (a ∷ nodes) other = a

abbrev pub last_of : ℕ → List ℕ → ℕ
last_of other [] = other
last_of other (a ∷ nodes) = last_of a nodes

abbrev pub Ascends : (low : ℕ) → List ℕ → Type 0
Ascends low [] = Unit
Ascends low (a ∷ nodes) = (low < a) × Ascends a nodes

abbrev pub Linked : (prev next : ℕ → ℕ) → (before : ℕ) → List ℕ → Type 0
Linked prev next before [] = Unit
Linked prev next before (a ∷ nodes) =
    (prev a ≡ before) × (next a ≡ first_of nodes 0) × Linked prev next a nodes

pub Ascends-weaken :
    {low low' : ℕ} (nodes : List ℕ) → low' ≤ low → Ascends low nodes → Ascends low' nodes
Ascends-weaken [] le up = tt
Ascends-weaken (a ∷ nodes) le (lt, up) = (omega arith, up)

pub last_of-le : (low : ℕ) (nodes : List ℕ) → Ascends low nodes → low ≤ last_of low nodes
last_of-le low [] up = omega arith
last_of-le low (a ∷ nodes) (lt, up) = let le = last_of-le a nodes up in omega arith

-- Two parts of an ascending list.
pub Ascends-tail : (low : ℕ) (xs ys : List ℕ) → Ascends low (xs ++ ys) → Ascends (last_of low xs) ys
Ascends-tail low [] ys up = up
Ascends-tail low (x ∷ xs) ys (lt, up) = Ascends-tail x xs ys up

pub Ascends-front : (low : ℕ) (xs ys : List ℕ) → Ascends low (xs ++ ys) → Ascends low xs
Ascends-front low [] ys up = tt
Ascends-front low (x ∷ xs) ys (lt, up) = (lt, Ascends-front x xs ys up)

pub Ascends-join :
    (low : ℕ) (xs ys : List ℕ)
    → Ascends low xs
    → Ascends (last_of low xs) ys
    → Ascends low (xs ++ ys)
Ascends-join low [] ys up up' = up'
Ascends-join low (x ∷ xs) ys (lt, up) up' = (lt, Ascends-join x xs ys up up')

pub Linked-tail :
    (prev next : ℕ → ℕ) (before : ℕ) (xs ys : List ℕ)
    → Linked prev next before (xs ++ ys)
    → Linked prev next (last_of before xs) ys
Linked-tail prev next before [] ys h = h
Linked-tail prev next before (x ∷ xs) ys (p, n, h) = Linked-tail prev next x xs ys h

-- Links above `low` are all that the list sees.
pub Linked-frame :
    (prev next prev' next' : ℕ → ℕ) (low before : ℕ) (nodes : List ℕ)
    → Ascends low nodes
    → ((a : ℕ) → low < a → (prev' a ≡ prev a) × (next' a ≡ next a))
    → Linked prev next before nodes
    → Linked prev' next' before nodes
Linked-frame prev next prev' next' low before [] up same h = tt
Linked-frame prev next prev' next' low before (a ∷ nodes) (lt, up) same (p, n, h) = (
  (same a lt).0 ∙ p,
  (same a lt).1 ∙ n,
  Linked-frame prev next prev' next' a a nodes up (λ b lt'. same b (omega arith)) h,
)

-- No node behind `low` is one in front of it.
pub first_of-other :
    (low x : ℕ) (ys : List ℕ) → Ascends low ys → 0 < x → x ≤ low → x ≢ first_of ys 0
first_of-other low x [] up some_address le = omega arith
first_of-other low x (y ∷ ys) (lt, up) some_address le = omega arith

module _ (prev next prev' next' : ℕ → ℕ) where
  -- Taking out a node that is the first of the list.
  remove_first :
      (before b : ℕ) (ys : List ℕ)
      → Ascends before (b ∷ ys)
      → ((a : ℕ) → a ≢ b → 0 < a → prev' a ≡ (if a == first_of ys 0 then before else prev a))
      → ((a : ℕ) → a ≢ b → 0 < a → next' a ≡ (if a == before then first_of ys 0 else next a))
      → Linked prev next b ys
      → Linked prev' next' before ys
  remove_first before b [] up hp hn h = tt
  remove_first before b (y ∷ ys) (lt, (lt', up)) hp hn (p, n, h) = (
    ground (arith, hp y),
    ground (arith, hn y),
    Linked-frame prev next prev' next' y y ys up
        (λ a above. (ground (arith, hp a), ground (arith, hn a))) h,
  )

  -- Taking out a node: its neighbours are linked to each other.
  pub Linked-remove :
      (before : ℕ) (xs : List ℕ) (b : ℕ) (ys : List ℕ)
      → Ascends before (xs ++ (b ∷ ys))
      → ((a : ℕ)
          → a ≢ b
          → 0 < a
          → prev' a ≡ (if a == first_of ys 0 then last_of before xs else prev a))
      → ((a : ℕ)
          → a ≢ b
          → 0 < a
          → next' a ≡ (if a == last_of before xs then first_of ys 0 else next a))
      → Linked prev next before (xs ++ (b ∷ ys))
      → Linked prev' next' before (xs ++ ys)
  Linked-remove before [] b ys up hp hn (p, n, h) = remove_first before b ys up hp hn h
  Linked-remove before (x ∷ []) b ys (lt, (lt', up)) hp hn (p, n, h) =
      let other = first_of-other b x ys up (omega arith) (omega arith) in
      (ground (arith, hp x), ground (arith, hn x), remove_first x b ys (lt', up) hp hn h.2)
  Linked-remove before (x ∷ z ∷ xs) b ys (lt, (lt', up)) hp hn (p, n, h) =
      let (behind, up') = Ascends-tail z xs (b ∷ ys) up in
      let first = last_of-le z xs (Ascends-front z xs (b ∷ ys) up) in
      let other = first_of-other b x ys up' (omega arith) (omega arith) in
      (ground (arith, hp x), ground (arith, hn x), Linked-remove x (z ∷ xs) b ys (lt', up) hp hn h)

  -- Putting in a node as the first of the list.
  insert_first :
      (before b : ℕ) (ys : List ℕ)
      → Ascends before (b ∷ ys)
      → ((a : ℕ)
          → 0 < a
          → prev' a ≡ (if a == b then before else if a == first_of ys 0 then b else prev a))
      → ((a : ℕ)
          → 0 < a
          → next' a ≡ (if a == b then first_of ys 0 else if a == before then b else next a))
      → Linked prev next before ys
      → Linked prev' next' before (b ∷ ys)
  insert_first before b [] (lt, up) hp hn h = (ground (arith, hp b), ground (arith, hn b), tt)
  insert_first before b (y ∷ ys) (lt, (lt', up)) hp hn (p, n, h) = (
    ground (arith, hp b),
    ground (arith, hn b),
    (
      ground (arith, hp y),
      ground (arith, hn y),
      Linked-frame prev next prev' next' y y ys up
          (λ a above. (ground (arith, hp a), ground (arith, hn a))) h,
    ),
  )

  -- Putting in a node between two parts.
  pub Linked-insert :
      (before : ℕ) (xs : List ℕ) (b : ℕ) (ys : List ℕ)
      → Ascends before (xs ++ (b ∷ ys))
      → ((a : ℕ)
          → 0 < a
          → prev' a
            ≡ (if a == b then last_of before xs else if a == first_of ys 0 then b else prev a))
      → ((a : ℕ)
          → 0 < a
          → next' a
            ≡ (if a == b then first_of ys 0 else if a == last_of before xs then b else next a))
      → Linked prev next before (xs ++ ys)
      → Linked prev' next' before (xs ++ (b ∷ ys))
  Linked-insert before [] b ys up hp hn h = insert_first before b ys up hp hn h
  Linked-insert before (x ∷ []) b ys (lt, (lt', up)) hp hn (p, n, h) =
      let other = first_of-other b x ys up (omega arith) (omega arith) in
      (ground (arith, hp x), ground (arith, hn x), insert_first x b ys (lt', up) hp hn h)
  Linked-insert before (x ∷ z ∷ xs) b ys (lt, (lt', up)) hp hn (p, n, h) =
      let (behind, up') = Ascends-tail z xs (b ∷ ys) up in
      let first = last_of-le z xs (Ascends-front z xs (b ∷ ys) up) in
      let other = first_of-other b x ys up' (omega arith) (omega arith) in
      (ground (arith, hp x), ground (arith, hn x), Linked-insert x (z ∷ xs) b ys (lt', up) hp hn h)

pub last_of-snoc : (other : ℕ) (xs : List ℕ) (b : ℕ) → last_of other (xs ++ (b ∷ [])) ≡ b
last_of-snoc other [] b = refl
last_of-snoc other (x ∷ xs) b = last_of-snoc x xs b

-- A list that leaves a node out.
abbrev pub Spares : ℕ → List ℕ → Type 0
Spares b [] = Unit
Spares b (a ∷ nodes) = (a ≢ b) × Spares b nodes

Ascends-above : (low b : ℕ) (nodes : List ℕ) → b ≤ low → Ascends low nodes → Spares b nodes
Ascends-above low b [] le up = tt
Ascends-above low b (a ∷ nodes) le (lt, up) =
    (omega arith, Ascends-above a b nodes (omega arith) up)

pub Ascends-Spares :
    (low : ℕ) (xs : List ℕ) (b : ℕ) (ys : List ℕ)
    → Ascends low (xs ++ (b ∷ ys))
    → Spares b (xs ++ ys)
Ascends-Spares low [] b ys (lt, up) = Ascends-above b b ys (omega arith) up
Ascends-Spares low (x ∷ xs) b ys (lt, up) =
    let (below, _) = Ascends-tail x xs (b ∷ ys) up in
    let le = last_of-le x xs (Ascends-front x xs (b ∷ ys) up) in
    (omega arith, Ascends-Spares x xs b ys up)

-- Links of other nodes are all that such a list sees.
pub Linked-Spares :
    (prev next prev' next' : ℕ → ℕ) (before b : ℕ) (nodes : List ℕ)
    → Spares b nodes
    → ((a : ℕ) → a ≢ b → (prev' a ≡ prev a) × (next' a ≡ next a))
    → Linked prev next before nodes
    → Linked prev' next' before nodes
Linked-Spares prev next prev' next' before b [] out same h = tt
Linked-Spares prev next prev' next' before b (a ∷ nodes) (other, out) same (p, n, h) = (
  (same a other).0 ∙ p,
  (same a other).1 ∙ n,
  Linked-Spares prev next prev' next' a b nodes out same h,
)

pub Linked-same :
    (prev next prev' next' : ℕ → ℕ) (before : ℕ) (nodes : List ℕ)
    → ((a : ℕ) → (prev' a ≡ prev a) × (next' a ≡ next a))
    → Linked prev next before nodes
    → Linked prev' next' before nodes
Linked-same prev next prev' next' before [] same h = tt
Linked-same prev next prev' next' before (a ∷ nodes) same (p, n, h) =
    ((same a).0 ∙ p, (same a).1 ∙ n, Linked-same prev next prev' next' a nodes same h)
