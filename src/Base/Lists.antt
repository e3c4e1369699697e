-- ===== src/Base/Lists.antt =====
-- Lists measured by native numbers, and the part of a C array as a list.
use Prim.Native.Nat.{ℕ, zero, suc, ◌+◌, ◌-◌, ◌≤◌, ◌<◌}
use mathlib.Core.Path.{◌≡◌, refl, sym, ap, ap₂, ◌∙◌}
use mathlib.Core.List.{List, [], ◌∷◌, ◌++◌}
use native.Mathlib.Omega.{arith}

module _ {ℓ} {A : Type ℓ} where
  abbrev pub length : List A → ℕ
  length [] = 0
  length (x ∷ xs) = suc (length xs)

  pub length-append : (xs ys : List A) → length (xs ++ ys) ≡ length xs + length ys
  length-append [] ys = omega arith
  length-append (x ∷ xs) ys = omega (arith, length-append xs ys)

  abbrev pub drop : ℕ → List A → List A
  drop zero xs = xs
  drop (suc n) [] = []
  drop (suc n) (x ∷ xs) = drop n xs

  -- The last `n` elements.
  abbrev pub keep_last : ℕ → List A → List A
  keep_last n xs = drop (length xs - n) xs

  -- The elements `a[i]`, …, `a[i + n - 1]`.
  abbrev pub slice : (ℕ → A) → ℕ → ℕ → List A
  slice a i zero = []
  slice a i (suc n) = a i ∷ slice a (i + 1) n

drop-nil {ℓ} : (A : Type ℓ) (n : ℕ) → drop {A = A} n [] ≡ []
drop-nil A zero = refl
drop-nil A (suc n) = refl

module _ {ℓ} {A : Type ℓ} where
  drop-append : (k : ℕ) (xs ys : List A) → k ≤ length xs → drop k xs ++ ys ≡ drop k (xs ++ ys)
  drop-append zero xs ys h = refl
  drop-append (suc k) [] ys h = absurd (omega arith)
  drop-append (suc k) (x ∷ xs) ys h = drop-append k xs ys (omega arith)

  drop-drop : (k n : ℕ) (xs : List A) → drop k (drop n xs) ≡ drop (n + k) xs
  drop-drop k zero xs = ap (λ m. drop m xs) (omega arith)
  drop-drop k (suc n) [] = drop-nil A k ∙ sym (drop-nil A (suc n + k))
  drop-drop k (suc n) (x ∷ xs) =
      let e : suc (n + k) ≡ suc n + k = omega arith in
      drop-drop k n xs ∙ ap (λ m. drop m (x ∷ xs)) e

  length-drop : (k : ℕ) (xs : List A) → length (drop k xs) ≡ length xs - k
  length-drop zero xs = omega arith
  length-drop (suc k) [] = omega arith
  length-drop (suc k) (x ∷ xs) = omega (arith, length-drop k xs)

  -- What was dropped before does not matter afterwards.
  pub keep_last-append :
      (n : ℕ) (xs ys : List A) → keep_last n (keep_last n xs ++ ys) ≡ keep_last n (xs ++ ys)
  keep_last-append n xs ys =
      let e : keep_last n xs ++ ys ≡ drop (length xs - n) (xs ++ ys) =
        drop-append (length xs - n) xs ys (omega arith) in
      rw (e, drop-drop)
        (ap (λ m. drop m (xs ++ ys))
          (omega (arith, length-append xs ys, length-drop (length xs - n) (xs ++ ys))))

  pub keep_last-le : (n : ℕ) (xs : List A) → length xs ≤ n → keep_last n xs ≡ xs
  keep_last-le n xs h = let e : length xs - n ≡ 0 = omega arith in rw e

  pub keep_last-suc : (n : ℕ) (x : A) (xs : List A) → length xs ≡ n → keep_last n (x ∷ xs) ≡ xs
  keep_last-suc n x xs h = let e : suc (length xs) - n ≡ 1 = omega arith in rw e

  pub slice-snoc : (a : ℕ → A) (i n : ℕ) → slice a i (suc n) ≡ slice a i n ++ (a (i + n) ∷ [])
  slice-snoc a i zero = let e : i + 0 ≡ i = omega arith in rw e
  slice-snoc a i (suc n) =
      let e : i + 1 + n ≡ i + suc n = omega arith in
      ap (λ l. a i ∷ l) (slice-snoc a (i + 1) n ∙ rw e)

  pub length-slice : (a : ℕ → A) (i n : ℕ) → length (slice a i n) ≡ n
  length-slice a i zero = refl
  length-slice a i (suc n) = ap suc (length-slice a (i + 1) n)

  -- The `n` elements from `i` on of one array are those from `i'` on of another.
  pub slice_ext :
      (a b : ℕ → A) (i i' n : ℕ)
      → ((k : ℕ) → k < n → a (i + k) ≡ b (i' + k))
      → slice a i n ≡ slice b i' n
  slice_ext a b i i' zero h = refl
  slice_ext a b i i' (suc n) h =
      ap₂ (λ x l. x ∷ l) (ground (arith, h 0))
        (slice_ext a b (i + 1) (i' + 1) n λ k p. ground (arith, h (suc k)))
