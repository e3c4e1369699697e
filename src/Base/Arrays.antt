-- ===== src/Base/Arrays.antt =====
-- C arrays as functions from the index, and loops that count upwards.
use Prim.Native.Nat.{ℕ, zero, suc, ◌+◌, ◌<◌}
use mathlib.Core.Path.{◌≡◌}
use native.Mathlib.Omega.{arith}
use termob_kernel.Base.Tests.{◌==◌, if◌then◌else◌}

-- `a[i] = v`
abbrev pub set {ℓ} : {A : Type ℓ} → (ℕ → A) → ℕ → A → ℕ → A
set a i v j = if j == i then v else a j

-- for (i = start; i < start + rounds; i++) s = body(i, s)
unfoldable pub for_range {ℓ} : {S : Type ℓ} → ℕ → ℕ → (ℕ → S → S) → S → S
for_range zero start body s = s
for_range (suc rounds) start body s = for_range rounds (start + 1) body (body start s)

-- The invariant rule of the loop.
pub for_range_inv {ℓ κ} :
    {S : Type ℓ} (P : ℕ → S → Type κ) (body : ℕ → S → S) (stop : ℕ)
    → ((i : ℕ) (s : S) → i < stop → P i s → P (i + 1) (body i s))
    → (rounds start : ℕ) (s : S) → start + rounds ≡ stop
    → P start s
    → P stop (for_range rounds start body s)
unfolding for_range
for_range_inv P body stop keep zero start s e h = let e' : start ≡ stop = omega arith in rw (← e') h
for_range_inv P body stop keep (suc rounds) start s e h =
    for_range_inv P body stop keep rounds (start + 1) (body start s) (omega arith)
      (keep start s (omega arith) h)
