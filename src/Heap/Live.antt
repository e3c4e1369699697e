-- ===== src/Heap/Live.antt =====
-- What the clients see of the heap: the blocks that are in use.
use mathlib.Core.Path.{subst}
use termob_kernel.Base.{
  ℕ, ◌+◌, ◌-◌, ◌≤◌, ◌≡◌, refl, sym, true, false, ◌&&◌, arith, Option, none, some, List, [], ◌∷◌,
  ◌++◌, leb, leb→le, Bool-cases, ◌⊎◌, inl, inr,
}
use termob_kernel.Heap.Tiling.{Cell, behind, end_of, le-end_of}
use termob_kernel.Heap.Splitting.{cell}
use termob_kernel.Heap.Alloc.{carve}
use termob_kernel.Heap.FirstFit.{first_fit}

-- A block of `s` bytes is in use, with its header at `b`.
abbrev pub Live : (at : ℕ) → List Cell → (b s : ℕ) → Type 0
Live at [] b s = ⊥
Live at (c ∷ cs) b s = ((c.free ≡ false) × (at ≡ b) × (c.size ≡ s)) ⊎ Live (behind at c) cs b s

-- Two blocks, headers included, that have no byte in common.
abbrev pub Apart : (b s b' s' : ℕ) → Type 0
Apart b s b' s' = (b' + 32 + s' ≤ b) ⊎ (b + 32 + s ≤ b')

pub Live-low : (at : ℕ) (cs : List Cell) (b s : ℕ) → Live at cs b s → at ≤ b
Live-low at [] b s live = absurd live
Live-low at (c ∷ cs) b s (inl (used, e, z)) = omega arith
Live-low at (c ∷ cs) b s (inr live) = omega (arith, Live-low (behind at c) cs b s live)

pub Live-high : (at : ℕ) (cs : List Cell) (b s : ℕ) → Live at cs b s → b + 32 + s ≤ end_of at cs
Live-high at [] b s live = absurd live
Live-high at (c ∷ cs) b s (inl (used, e, z)) = omega (arith, le-end_of (behind at c) cs)
Live-high at (c ∷ cs) b s (inr live) = Live-high (behind at c) cs b s live

-- What a choice of the first fit promises: a new block that is large enough and clear of all blocks in
-- use, and these stay.
pub record Gains (n at : ℕ) (cs : List Cell) (b : ℕ) (cs' : List Cell) : Type 0 where
  pub s : ℕ
  pub enough : n ≤ s
  pub live : Live at cs' b s
  pub keeps : (b' s' : ℕ) → Live at cs b' s' → Live at cs' b' s'
  pub apart : (b' s' : ℕ) → Live at cs b' s' → Apart b s b' s'

abbrev pub Promises : (n at : ℕ) → List Cell → Option (ℕ × List Cell) → Type 0
Promises n at cs none = Unit
Promises n at cs (some (b, cs')) = Gains n at cs b cs'

carve-Gains :
    (n at : ℕ) (c : Cell) (cs : List Cell)
    → c.free ≡ true
    → n ≤ c.size
    → Gains n at (c ∷ cs) at (carve n c ++ cs)
carve-Gains n at c cs free room =
    let old : (b' s' : ℕ) → Live at (c ∷ cs) b' s' → Live (behind at c) cs b' s' =
      λ b' s' live. elim live [ inl (used, _, _) ↦ absurd (ground arith) | inr l ↦ l ] in
    elim (Bool-cases (leb (n + 48) c.size)) [
      | inl wide ↦
          let place : behind (at + 32 + n) (cell (c.size - n - 32) true) ≡ behind at c =
            omega (arith, leb→le (n + 48) c.size wide) in
          rw wide (record {
            s = n;
            enough = omega arith;
            live = inl (refl, refl, refl);
            keeps =
                λ b' s' live. inr (inr (subst (λ a. Live a cs b' s') (sym place) (old b' s' live)));
            apart =
                λ b' s' live. inr (omega (arith, Live-low (behind at c) cs b' s' (old b' s' live)));
          })
      | inr tight ↦ rw tight (record {
        s = c.size;
        enough = room;
        live = inl (refl, refl, refl);
        keeps = λ b' s' live. inr (old b' s' live);
        apart = λ b' s' live. inr (omega (arith, Live-low (behind at c) cs b' s' (old b' s' live)));
      })
    ]

behind-Promises :
    (n at : ℕ) (c : Cell) (cs : List Cell) (r : Option (ℕ × List Cell))
    → Promises n (behind at c) cs r
    → Promises n at (c ∷ cs) (elim r [ none ↦ none | some (b, cs') ↦ some (b, c ∷ cs') ])
behind-Promises n at c cs none p = tt
behind-Promises n at c cs (some (b, cs')) p = record {
  s = p.s;
  enough = p.enough;
  live = inr p.live;
  keeps = λ b' s' live. elim live [ inl own ↦ inl own | inr l ↦ inr (p.keeps b' s' l) ];
  apart = λ b' s' live. elim live [
    | inl (used, e, z) ↦ inl (omega (arith, Live-low (behind at c) cs' b p.s p.live))
    | inr l ↦ p.apart b' s' l
  ];
}

pub first_fit-Promises : (n at : ℕ) (cs : List Cell) → Promises n at cs (first_fit n at cs)
unfolding first_fit
first_fit-Promises n at [] = tt
first_fit-Promises n at (c ∷ cs) =
    let rest =
      behind-Promises n at c cs (first_fit n (behind at c) cs)
        (first_fit-Promises n (behind at c) cs) in
    elim (Bool-cases (c.free && leb n c.size)) [
      | inl fits ↦ rw fits (carve-Gains n at c cs (ground arith) (ground arith))
      | inr small ↦ rw small rest
    ]
