-- ===== src/Base/Bits.antt =====
-- Laws of `bit_and` at variables, and the alignment of words.
use Prim.Native.Nat.{
  ℕ, zero, suc, ◌+◌, ◌*◌, ◌/◌, ◌%◌, ◌^◌, ◌≤◌, ◌<◌, min, bit_and, bit_or, digits, bit_and-bitwise,
  bit_or-bitwise,
}
use mathlib.Core.Path.{◌≡◌, refl, sym, ap, ap₂, ◌∙◌}
use native.Mathlib.Nat.{mul-one}
use mathlib.Core.Bool.{Bool, true, false}
use termob_kernel.Base.Tests.{if◌then◌else◌}
use native.Mathlib.Omega.{arith}
use termob_kernel.Base.Words.{add32, sub32, not32}

-- Whether a test passes at every number below a bound; such a check runs by evaluation.
unfoldable pub holds_below : (ℕ → Bool) → ℕ → Bool
holds_below test zero = true
holds_below test (suc bound) = if test bound then holds_below test bound else false

pub holds_below_at :
    (test : ℕ → Bool) (bound k : ℕ) → k < bound → holds_below test bound ≡ true → test k ≡ true
unfolding holds_below
holds_below_at test zero k small checked = absurd (omega arith)
holds_below_at test (suc bound) k small checked = ground (arith, holds_below_at test bound k)

-- The digits of a conjunction, on a given fuel.
abbrev conjoin : ℕ → ℕ → ℕ → ℕ
conjoin fuel x y = digits (λ _. zero) min fuel x y

-- Fuel that is no less than the first number is enough. `m` bounds that number in the induction.
conjoin_fuel : (m x fuel y : ℕ) → x ≤ m → x ≤ fuel → conjoin fuel x y ≡ bit_and x y
conjoin_fuel m zero zero y small enough = sym (bit_and-bitwise zero y)
conjoin_fuel m zero (suc fuel) y small enough = sym (bit_and-bitwise zero y)
conjoin_fuel zero (suc x) fuel y small enough = absurd (omega arith)
conjoin_fuel (suc m) (suc x) zero y small enough = absurd (omega arith)
conjoin_fuel (suc m) (suc x) (suc fuel) y small enough =
    let half_small : suc x / 2 ≤ m = omega arith in
    let given = conjoin_fuel m (suc x / 2) fuel (y / 2) half_small (omega arith) in
    let own = conjoin_fuel m (suc x / 2) x (y / 2) half_small (omega arith) in
    omega (arith, bit_and-bitwise (suc x) y, given, own)

-- The lowest digit of a conjunction, and the rest.
pub bit_and_step : (x y : ℕ) → bit_and x y ≡ bit_and (x / 2) (y / 2) * 2 + min (x % 2) (y % 2)
bit_and_step zero y = omega (arith, bit_and-bitwise zero y, bit_and-bitwise zero (y / 2))
bit_and_step (suc x) y = omega (
  arith,
  bit_and-bitwise (suc x) y,
  conjoin_fuel x (suc x / 2) x (y / 2) (omega arith) (omega arith),
)

-- 2 ^ k and 2 ^ k - 1 by recursion
unfoldable pub pow2 : ℕ → ℕ
pow2 zero = 1
pow2 (suc k) = pow2 k * 2

unfoldable pub ones : ℕ → ℕ
ones zero = 0
ones (suc k) = ones k * 2 + 1

-- A mask of ones keeps a number that fits under it.
pub bit_and-ones : (k x : ℕ) → x < pow2 k → bit_and x (ones k) ≡ x
unfolding pow2 ones
bit_and-ones zero zero h = refl
bit_and-ones zero (suc x) h = absurd (omega arith)
bit_and-ones (suc k) x h =
    let half : (ones k * 2 + 1) / 2 ≡ ones k = omega arith in
    rw (bit_and_step x (ones k * 2 + 1), half, bit_and-ones k (x / 2) (omega arith)) (omega arith)

bit_and_fields :
    (k q r m : ℕ) → r < pow2 k → bit_and (q * pow2 k + r) (m * pow2 k) ≡ bit_and q m * pow2 k
unfolding pow2
bit_and_fields zero q r m h = simp mul-one (ap₂ bit_and (omega arith) refl)
bit_and_fields (suc k) q r m h =
    ground
      (arith, bit_and_step (q * (pow2 k * 2) + r) (m * (pow2 k * 2)), bit_and_fields k q (r / 2) m)

-- A mask of ones above `k` zeros clears the `k` low bits.
pub bit_and-high :
    (k j q r : ℕ)
    → q < pow2 j
    → r < pow2 k
    → bit_and (q * pow2 k + r) (ones j * pow2 k) ≡ q * pow2 k
bit_and-high k j q r h h' = rw (bit_and_fields k q r (ones j) h', bit_and-ones j q h)

-- `(value + (alignment - 1)) & ~(alignment - 1)`
unfoldable pub align_up : ℕ → ℕ → ℕ
align_up value alignment = bit_and (add32 value (sub32 alignment 1)) (not32 (sub32 alignment 1))

-- `value & ~(alignment - 1)`
unfoldable pub align_down : ℕ → ℕ → ℕ
align_down value alignment = bit_and value (not32 (sub32 alignment 1))

pub align_down_page : (x : ℕ) → x < 2 ^ 32 → align_down x 4096 ≡ x / 4096 * 4096
unfolding align_down pow2 ones
align_down_page x h =
    ap (λ y. bit_and y 0xfffff000) (omega arith)
    ∙ bit_and-high 12 20 (x / 4096) (x % 4096) (omega arith) (omega arith)

pub align_up_page : (x : ℕ) → align_up x 4096 ≡ add32 x 4095 / 4096 * 4096
unfolding align_up align_down
align_up_page x = align_down_page (add32 x 4095) (omega arith)

bit_and-none : (m x : ℕ) → x ≤ m → bit_and x 0 ≡ 0
bit_and-none m zero small = bit_and-bitwise zero 0
bit_and-none zero (suc x) small = absurd (omega arith)
bit_and-none (suc m) (suc x) small =
    omega (arith, bit_and_step (suc x) 0, bit_and-none m (suc x / 2) (omega arith))

-- A mask of ones keeps the `k` low bits.
pub bit_and-low : (k q r : ℕ) → r < pow2 k → bit_and (q * pow2 k + r) (ones k) ≡ r
unfolding pow2 ones
bit_and-low zero q r h = omega (arith, bit_and-none (q * 1 + r) (q * 1 + r) (omega arith))
bit_and-low (suc k) q r h =
    ground (arith, bit_and_step (q * (pow2 k * 2) + r) (ones k * 2 + 1), bit_and-low k q (r / 2))

pub bit_and_seven : (x : ℕ) → bit_and x 7 ≡ x % 8
unfolding pow2 ones
bit_and_seven x = ap (λ y. bit_and y 7) (omega arith) ∙ bit_and-low 3 (x / 8) (x % 8) (omega arith)

pub align_up_eight : (x : ℕ) → align_up x 8 ≡ add32 x 7 / 8 * 8
unfolding align_up pow2 ones
align_up_eight x =
    ap (λ y. bit_and y 0xfffffff8) (omega arith)
    ∙ bit_and-high 3 29 (add32 x 7 / 8) (add32 x 7 % 8) (omega arith) (omega arith)

pub bit_and_fifteen : (x : ℕ) → bit_and x 15 ≡ x % 16
unfolding pow2 ones
bit_and_fifteen x =
    ap (λ y. bit_and y 15) (omega arith) ∙ bit_and-low 4 (x / 16) (x % 16) (omega arith)

pub bit_and_one : (x : ℕ) → bit_and x 1 ≡ x % 2
unfolding pow2 ones
bit_and_one x = ap (λ y. bit_and y 1) (omega arith) ∙ bit_and-low 1 (x / 2) (x % 2) (omega arith)

-- The lowest bit after it was set or cleared.
pub bit_or_one : (x : ℕ) → bit_or x 1 % 2 ≡ 1
bit_or_one zero = refl
bit_or_one (suc x) = omega (arith, bit_or-bitwise (suc x) 1)

pub bit_and_not_one : (x : ℕ) → bit_and x (not32 1) % 2 ≡ 0
bit_and_not_one x = omega (arith, bit_and_step x (not32 1))

pub bit_and_page : (x : ℕ) → bit_and x 4095 ≡ x % 4096
unfolding pow2 ones
bit_and_page x =
    ap (λ y. bit_and y 4095) (omega arith) ∙ bit_and-low 12 (x / 4096) (x % 4096) (omega arith)

pub align_down_sixteen : (x : ℕ) → x < 2 ^ 32 → align_down x 16 ≡ x / 16 * 16
unfolding align_down pow2 ones
align_down_sixteen x h =
    ap (λ y. bit_and y 0xfffffff0) (omega arith)
    ∙ bit_and-high 4 28 (x / 16) (x % 16) (omega arith) (omega arith)

pub align_up_sixteen : (x : ℕ) → align_up x 16 ≡ add32 x 15 / 16 * 16
unfolding align_up align_down
align_up_sixteen x = align_down_sixteen (add32 x 15) (omega arith)
