-- ===== src/Prelude/Bits.antt =====
-- The bit operations on fields of a word: `(hi << k) | lo` is a sum, and a mask of `k` ones is a
-- remainder. Both follow from the recursion on binary digits that the native operations stand for.
use Prim.Native.Nat.{
  ℕ, zero, suc, ◌+◌, ◌*◌, ◌/◌, ◌%◌, ◌^◌, ◌≤◌, ◌<◌, ◌-◌, min, max, bit_and, bit_or, digits,
  bit_and-bitwise, bit_or-bitwise,
}
use mathlib.Core.Path.{◌≡◌, ◌∙◌, refl, ap}
use native.Mathlib.Nat.{pow-suc, one-le-pow}
use native.Mathlib.Omega.{arith}

module _ (unit : ℕ → ℕ) (op : ℕ → ℕ → ℕ) where
  spent : (fuel b : ℕ) → digits unit op fuel 0 b ≡ unit b
  spent zero b = refl
  spent (suc fuel) b = refl

  -- Two supplies of fuel give one result where each covers the first operand.
  supplies :
      (first second a b : ℕ)
      → a ≤ first
      → a ≤ second
      → digits unit op first a b ≡ digits unit op second a b
  supplies first second zero b p q = omega (arith, spent first b, spent second b)
  supplies zero second (suc a) b p q = absurd (omega arith)
  supplies (suc first) zero (suc a) b p q = absurd (omega arith)
  supplies (suc first) (suc second) (suc a) b p q =
      ap (λ (t : ℕ). t * 2 + op (suc a % 2) (b % 2))
        (supplies first second (suc a / 2) (b / 2) (omega arith) (omega arith))

-- The lowest digit apart.
bit_or_low : (a b : ℕ) → bit_or a b ≡ bit_or (a / 2) (b / 2) * 2 + max (a % 2) (b % 2)
bit_or_low zero b = omega (arith, bit_or-bitwise 0 b, bit_or-bitwise 0 (b / 2))
bit_or_low (suc a) b = omega (
  arith,
  bit_or-bitwise (suc a) b,
  bit_or-bitwise (suc a / 2) (b / 2),
  supplies (λ y. y) max a (suc a / 2) (suc a / 2) (b / 2) (omega arith) (omega arith),
)

bit_and_low : (a b : ℕ) → bit_and a b ≡ bit_and (a / 2) (b / 2) * 2 + min (a % 2) (b % 2)
bit_and_low zero b = omega (arith, bit_and-bitwise 0 b, bit_and-bitwise 0 (b / 2))
bit_and_low (suc a) b = omega (
  arith,
  bit_and-bitwise (suc a) b,
  bit_and-bitwise (suc a / 2) (b / 2),
  supplies (λ y. 0) min a (suc a / 2) (suc a / 2) (b / 2) (omega arith) (omega arith),
)

halve_field : (q k : ℕ) → q * 2 ^ suc k ≡ 2 * (q * 2 ^ k)
halve_field q k = omega (arith, ap (λ (t : ℕ). q * t) (pow-suc 2 k))

or_zero : (k a : ℕ) → a ≤ k → bit_or a 0 ≡ a
or_zero k zero h = omega (arith, bit_or-bitwise 0 0)
or_zero zero (suc a) h = absurd (omega arith)
or_zero (suc k) (suc a) h = omega (arith, bit_or_low (suc a) 0, or_zero k (suc a / 2) (omega arith))

and_zero : (k a : ℕ) → a ≤ k → bit_and a 0 ≡ 0
and_zero k zero h = omega (arith, bit_and-bitwise 0 0)
and_zero zero (suc a) h = absurd (omega arith)
and_zero (suc k) (suc a) h =
    omega (arith, bit_and_low (suc a) 0, and_zero k (suc a / 2) (omega arith))

-- `(hi << k) | lo`
pub bit_or-shifted : (k hi lo : ℕ) → lo < 2 ^ k → bit_or (hi * 2 ^ k) lo ≡ hi * 2 ^ k + lo
bit_or-shifted zero hi lo h =
    let none_left : lo ≡ 0 = omega arith in ground (arith, none_left, or_zero hi hi (omega arith))
bit_or-shifted (suc k) hi lo h = ground (
  arith,
  bit_or_low (hi * 2 ^ suc k) lo,
  halve_field hi k,
  pow-suc 2 k,
  bit_or-shifted k hi (lo / 2) (omega (arith, pow-suc 2 k)),
)

-- `((hi << k) + lo) & ((1 << k) - 1)`
pub bit_and-shifted : (k hi lo : ℕ) → lo < 2 ^ k → bit_and (hi * 2 ^ k + lo) (2 ^ k - 1) ≡ lo
bit_and-shifted zero hi lo h =
    omega (arith, and_zero (hi * 2 ^ 0 + lo) (hi * 2 ^ 0 + lo) (omega arith))
bit_and-shifted (suc k) hi lo h =
    let low = bit_and-shifted k hi (lo / 2) (omega (arith, pow-suc 2 k)) in
    ground (
      arith,
      low,
      halve_field hi k,
      pow-suc 2 k,
      one-le-pow k 2,
      bit_and_low (hi * 2 ^ suc k + lo) (2 ^ suc k - 1),
    )

-- `word & ((1 << k) - 1)`
pub bit_and-ones : (k word : ℕ) → bit_and word (2 ^ k - 1) ≡ word % 2 ^ k
bit_and-ones k word =
    ground (arith, one-le-pow k 2, bit_and-shifted k (word / 2 ^ k) (word % 2 ^ k))

pub bit_or-shifted_right : (k hi lo : ℕ) → lo < 2 ^ k → bit_or lo (hi * 2 ^ k) ≡ hi * 2 ^ k + lo
bit_or-shifted_right zero hi lo h =
    let none_left : lo ≡ 0 = omega arith in ground (arith, none_left, bit_or-bitwise 0 hi)
bit_or-shifted_right (suc k) hi lo h = ground (
  arith,
  bit_or_low lo (hi * 2 ^ suc k),
  halve_field hi k,
  pow-suc 2 k,
  bit_or-shifted_right k hi (lo / 2) (omega (arith, pow-suc 2 k)),
)

-- A mask of a field above `k` bits.
pub bit_and-field :
    (k a b lo : ℕ) → lo < 2 ^ k → bit_and (a * 2 ^ k + lo) (b * 2 ^ k) ≡ bit_and a b * 2 ^ k
bit_and-field zero a b lo h = let none_left : lo ≡ 0 = omega arith in ground (arith, none_left)
bit_and-field (suc k) a b lo h =
    let rest = bit_and-field k a b (lo / 2) (omega (arith, pow-suc 2 k)) in
    let half : (a * 2 ^ suc k + lo) / 2 ≡ a * 2 ^ k + lo / 2 = omega (arith, halve_field a k) in
    let other : b * 2 ^ suc k / 2 ≡ b * 2 ^ k = omega (arith, halve_field b k) in
    let even : b * 2 ^ suc k % 2 ≡ 0 = omega (arith, halve_field b k) in
    bit_and_low (a * 2 ^ suc k + lo) (b * 2 ^ suc k)
    ∙ rw (half, other, even, rest) (omega (arith, halve_field (bit_and a b) k))
