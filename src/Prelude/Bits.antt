-- ===== src/Prelude/Bits.antt =====
-- Facts about the bit operations at variables, from the digits that they stand for.
use Prim.Native.Nat.{
  ℕ, zero, suc, ◌%◌, ◌*◌, ◌/◌, ◌≤◌, ◌<◌, ◌+◌, ◌^◌, min, max, bit_and, bit_or, digits,
  bit_and-bitwise, bit_or-bitwise,
}
use mathlib.Core.Path.{◌≡◌, ap, ◌∙◌}
use native.Mathlib.Omega.{arith}
use native.Mathlib.Nat.{pow-suc, mul_assoc, zero-mod}

-- Each digit of the conjunction is at most the mask's.
masked_digits : (rounds a mask : ℕ) → digits (λ _. zero) min rounds a mask ≤ mask
masked_digits zero zero mask = omega arith
masked_digits zero (suc a) mask = omega arith
masked_digits (suc rounds) zero mask = omega arith
masked_digits (suc rounds) (suc a) mask = omega (arith, masked_digits rounds (suc a / 2) (mask / 2))

-- A masked value does not exceed its mask.
pub bit_and-le : (a mask : ℕ) → bit_and a mask ≤ mask
bit_and-le a mask = omega (arith, bit_and-bitwise a mask, masked_digits a a mask)

double_half : (high : ℕ) → high * 2 / 2 ≡ high
double_half high = omega arith

-- With no digit in common, the disjunction is the sum.
joined_digits :
    (rounds k low high : ℕ)
    → low ≤ rounds
    → low < 2 ^ k
    → digits (λ b. b) max rounds low (high * 2 ^ k) ≡ low + high * 2 ^ k
joined_digits zero k zero high fuel below = omega arith
joined_digits zero k (suc low) high fuel below = absurd (omega arith)
joined_digits (suc rounds) k zero high fuel below = omega arith
joined_digits (suc rounds) zero (suc low) high fuel below = absurd (omega arith)
joined_digits (suc rounds) (suc k) (suc low) high fuel below =
    let doubled : high * 2 ^ suc k ≡ (high * 2 ^ k) * 2 = simp (pow-suc, mul_assoc) in
    let narrow : suc low < 2 ^ k * 2 = rw (← pow-suc 2 k) below in
    rw doubled (
      omega (
        arith,
        ap (λ b. digits (λ b. b) max rounds (suc low / 2) b) (double_half (high * 2 ^ k)),
        joined_digits rounds k (suc low / 2) high (omega arith) (omega arith),
      ))

-- Joining a part below bit `k` with a part from bit `k` on is addition.
pub bit_or-disjoint :
    (k low high : ℕ) → low < 2 ^ k → bit_or low (high * 2 ^ k) ≡ low + high * 2 ^ k
bit_or-disjoint k low high below =
    bit_or-bitwise low (high * 2 ^ k) ∙ joined_digits low k low high (omega arith) below

-- A mask of `k` ones.
abbrev pub ones : ℕ → ℕ
ones zero = 0
ones (suc k) = ones k * 2 + 1

half_ones : (k : ℕ) → ones (suc k) / 2 ≡ ones k
half_ones k = omega arith

remainder_step : (a k : ℕ) → a / 2 % 2 ^ k * 2 + a % 2 ≡ a % 2 ^ suc k
remainder_step a k = let doubled : 2 ^ suc k ≡ 2 ^ k * 2 = pow-suc 2 k in rw doubled (grind arith)

low_digits : (rounds k a : ℕ) → a ≤ rounds → digits (λ _. zero) min rounds a (ones k) ≡ a % 2 ^ k
low_digits zero k a fuel = omega (arith, zero-mod (2 ^ k))
low_digits (suc rounds) k zero fuel = omega (arith, zero-mod (2 ^ k))
low_digits (suc rounds) zero (suc a) fuel = omega (arith, masked_digits (suc rounds) (suc a) 0)
low_digits (suc rounds) (suc k) (suc a) fuel = omega (
  arith,
  ap (λ m. digits (λ _. zero) min rounds (suc a / 2) m) (half_ones k),
  low_digits rounds k (suc a / 2) (omega arith),
  remainder_step (suc a) k,
)

-- A mask of ones takes the remainder.
pub bit_and-ones : (k a : ℕ) → bit_and a (ones k) ≡ a % 2 ^ k
bit_and-ones k a = bit_and-bitwise a (ones k) ∙ low_digits a k a (omega arith)
