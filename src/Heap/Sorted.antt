-- ===== src/Heap/Sorted.antt =====
-- Ascending lists of addresses with the same members.
use termob_kernel.Base.{
  ℕ, ◌≤◌, ◌<◌, ◌≡◌, refl, ap, ◌∙◌, arith, List, [], ◌∷◌, ◌==◌, Bool-cases, ◌⊎◌, inl, inr,
}
use termob_kernel.Base.Lists.{length}
use termob_kernel.Heap.Linked.{Ascends}

abbrev pub In : ℕ → List ℕ → Type 0
In a [] = ⊥
In a (x ∷ xs) = (a ≡ x) ⊎ In a xs

pub In-above : (low a : ℕ) (xs : List ℕ) → Ascends low xs → In a xs → low < a
In-above low a [] up here = absurd here
In-above low a (x ∷ xs) (lt, up) (inl e) = omega arith
In-above low a (x ∷ xs) (lt, up) (inr later) = omega (arith, In-above x a xs up later)

-- Members behind the first of a list are members of what is behind the same first of another.
In-tail :
    (x y : ℕ) (xs ys : List ℕ)
    → Ascends x xs
    → y ≤ x
    → ((a : ℕ) → In a xs → In a (y ∷ ys))
    → (a : ℕ) → In a xs
    → In a ys
In-tail x y xs ys up le sub a here = elim (sub a here) [
  | inl e ↦ absurd (omega (arith, In-above x a xs up here))
  | inr later ↦ later
]

In-skip :
    (x y : ℕ) (xs ys : List ℕ)
    → Ascends x xs
    → y < x
    → ((a : ℕ) → In a (x ∷ xs) → In a (y ∷ ys))
    → (a : ℕ) → In a (x ∷ xs)
    → In a ys
In-skip x y xs ys up lt sub = In-tail y y (x ∷ xs) ys (lt, up) (omega arith) sub

length-subset :
    (low low' : ℕ) (xs ys : List ℕ)
    → Ascends low xs
    → Ascends low' ys
    → ((a : ℕ) → In a xs → In a ys)
    → length xs ≤ length ys
length-subset low low' [] ys up up' sub = omega arith
length-subset low low' (x ∷ xs) [] up up' sub = absurd (sub x (inl refl))
length-subset low low' (x ∷ xs) (y ∷ ys) (lt, up) (lt', up') sub = elim (Bool-cases (x == y)) [
  | inl same ↦
      let e : x ≡ y = ground arith in
      omega (
        arith,
        length-subset x y xs ys up up'
            (In-tail x y xs ys up (omega arith) λ a here. sub a (inr here)),
      )
  | inr other ↦
      let behind : y < x = elim (sub x (inl refl)) [
        | inl e ↦ absurd (ground arith)
        | inr later ↦ In-above y x ys up' later
      ] in
      omega
        (arith, length-subset y y (x ∷ xs) ys (behind, up) up' (In-skip x y xs ys up behind sub))
]

-- An ascending list of members of another is that list, where it has the same length.
pub Ascends-unique :
    (low low' : ℕ) (xs ys : List ℕ)
    → Ascends low xs
    → Ascends low' ys
    → ((a : ℕ) → In a xs → In a ys)
    → length xs ≡ length ys
    → xs ≡ ys
Ascends-unique low low' [] [] up up' sub e = refl
Ascends-unique low low' [] (y ∷ ys) up up' sub e = absurd (omega arith)
Ascends-unique low low' (x ∷ xs) [] up up' sub e = absurd (omega arith)
Ascends-unique low low' (x ∷ xs) (y ∷ ys) (lt, up) (lt', up') sub e = elim (Bool-cases (x == y)) [
  | inl same ↦
      let e' : x ≡ y = ground arith in
      let rest =
        Ascends-unique x y xs ys up up'
          (In-tail x y xs ys up (omega arith) λ a here. sub a (inr here)) (omega arith) in
      ap (λ a. a ∷ xs) e' ∙ ap (λ l. y ∷ l) rest
  | inr other ↦
      let behind : y < x = elim (sub x (inl refl)) [
        | inl e' ↦ absurd (ground arith)
        | inr later ↦ In-above y x ys up' later
      ] in
      absurd (
        omega
          (arith, length-subset y y (x ∷ xs) ys (behind, up) up' (In-skip x y xs ys up behind sub)))
]
