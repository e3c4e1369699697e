-- ===== src/Pmm/Bytes.antt =====
-- What setting and clearing one bit of a byte does to each bit, by a check of all bytes.
use Prim.Native.Nat.{ℕ, ◌-◌, ◌%◌, ◌^◌, ◌<◌, bit_and, bit_or}
use mathlib.Core.Path.{◌≡◌, refl}
use mathlib.Core.Bool.{Bool, true, false, not, ◌&&◌, ◌||◌}
use native.Mathlib.Omega.{arith}
use termob_kernel.Base.Tests.{ltb, ◌==◌, ltb→lt, ==_iff}
use termob_kernel.Base.Bits.{holds_below, holds_below_at}

abbrev pub bit : ℕ → ℕ → Bool
bit byte j = not (bit_and byte (2 ^ j) == 0)

iff : Bool → Bool → Bool
iff true b = b
iff false b = not b

iff_sound : (a b : Bool) → iff a b ≡ true → a ≡ b
unfolding iff
iff_sound true true h = refl
iff_sound true false h = ground arith
iff_sound false true h = ground arith
iff_sound false false h = refl

both : (a b : Bool) → (a && b) ≡ true → (a ≡ true) × (b ≡ true)
both true true h = (refl, refl)
both true false h = ground arith
both false b h = ground arith

-- The check of one byte, at bits `i` and `j`.
check : ℕ → ℕ → ℕ → Bool
check b i j =
    iff (bit (bit_or b (2 ^ i)) j) ((i == j) || bit b j)
    && (iff (bit (bit_and b (255 - 2 ^ i)) j) (not (i == j) && bit b j)
        && (ltb (bit_or b (2 ^ i)) 256 && ltb (bit_and b (255 - 2 ^ i)) 256))

check_all : holds_below (λ b. holds_below (λ i. holds_below (check b i) 8) 8) 256 ≡ true
unfolding holds_below check iff
check_all = refl

module _ (b i j : ℕ) (hb : b < 256) (hi : i < 8) (hj : j < 8) where
  checked : check b i j ≡ true
  checked = holds_below_at (check b i) 8 j hj (
      holds_below_at (λ i. holds_below (check b i) 8) 8 i hi
        (holds_below_at (λ b. holds_below (λ i. holds_below (check b i) 8) 8) 256 b hb check_all))

  parts :
      (bit (bit_or b (2 ^ i)) j ≡ ((i == j) || bit b j))
      × (bit (bit_and b (255 - 2 ^ i)) j ≡ (not (i == j) && bit b j))
      × (bit_or b (2 ^ i) < 256)
      × (bit_and b (255 - 2 ^ i) < 256)
  unfolding check
  parts =
      let (set_ok, rest) = both _ _ checked in
      let (clear_ok, small) = both _ _ rest in
      let (set_small, clear_small) = both _ _ small in
      (iff_sound _ _ set_ok, iff_sound _ _ clear_ok, ltb→lt _ _ set_small, ltb→lt _ _ clear_small)

  -- Setting bit `i` sets that bit and leaves the others.
  pub bit-set : bit (bit_or b (2 ^ i)) j ≡ ((i == j) || bit b j)
  bit-set = parts.0

  -- Clearing bit `i` clears that bit and leaves the others.
  pub bit-clear : bit (bit_and b (255 - 2 ^ i)) j ≡ (not (i == j) && bit b j)
  bit-clear = parts.1

  pub set-lt : bit_or b (2 ^ i) < 256
  set-lt = parts.2

  pub clear-lt : bit_and b (255 - 2 ^ i) < 256
  clear-lt = parts.3

mask_table : holds_below (λ k. (2 ^ k % 256) == 2 ^ k) 8 ≡ true
unfolding holds_below
mask_table = refl

pub mask_fits : (k : ℕ) → k < 8 → 2 ^ k % 256 ≡ 2 ^ k
mask_fits k h = (==_iff _ _).0 (holds_below_at (λ k. (2 ^ k % 256) == 2 ^ k) 8 k h mask_table)

all_bits_table : holds_below (bit 255) 8 ≡ true
unfolding holds_below
all_bits_table = refl

pub bit_all : (k : ℕ) → k < 8 → bit 255 k ≡ true
bit_all k h = holds_below_at (bit 255) 8 k h all_bits_table
