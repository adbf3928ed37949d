-- ===== src/Common/Or.antt =====
-- Inclusive or of numbers without a digit in common.
use Prim.Native.Nat.{
  ℕ, zero, suc, ◌+◌, ◌*◌, ◌/◌, ◌^◌, ◌≤◌, ◌<◌, max, bit_or, digits, bit_or-bitwise,
}
use mathlib.Core.Path.{◌≡◌, ap, sym, ◌∙◌}
use native.Mathlib.Nat.{pow-suc, mul_assoc}
use native.Mathlib.Omega.{arith}

abbrev or_digits : ℕ → ℕ → ℕ → ℕ
or_digits n a b = digits (λ b. b) max n a b

-- The lower number has fewer than `k` digits, and the higher one none below the `k`-th.
or_digits-above : (k n a b c : ℕ) → a ≤ n → a < 2 ^ k → b ≡ c * 2 ^ k → or_digits n a b ≡ a + b
or_digits-above k zero zero b c l h e = omega arith
or_digits-above k zero (suc a) b c l h e = absurd (omega arith)
or_digits-above k (suc n) zero b c l h e = omega arith
or_digits-above zero (suc n) (suc a) b c l h e = absurd (omega arith)
or_digits-above (suc k) (suc n) (suc a) b c l h e =
    let twice : b ≡ c * 2 ^ k * 2 = e ∙ ap (c *◌) (pow-suc 2 k) ∙ sym (mul_assoc c (2 ^ k) 2) in
    let half : b / 2 ≡ c * 2 ^ k = omega (arith, twice) in
    omega (
      arith,
      twice,
      or_digits-above k n (suc a / 2) (b / 2) c (omega arith) (omega (arith, pow-suc 2 k)) half,
    )

pub or-above : (k a b c : ℕ) → a < 2 ^ k → b ≡ c * 2 ^ k → bit_or a b ≡ a + b
or-above k a b c h e = (λ i. bit_or-bitwise a b i) ∙ or_digits-above k a a b c (omega arith) h e
