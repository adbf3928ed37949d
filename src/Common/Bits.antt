-- ===== src/Common/Bits.antt =====
-- Octets and masks: finite tables checked by evaluation, and the laws of exclusive or.
use Prim.Native.Nat.{ℕ, zero, suc, ◌+◌, ◌*◌, ◌/◌, ◌%◌, ◌<◌, bit_and, bit_or}
use mathlib.Core.Path.{◌≡◌, refl, ◌∙◌, ap₂}
use mathlib.Core.Bool.{Bool, true, ◌&&◌}
use native.Mathlib.Omega.{arith}
use go_dnp.Common.Tests.{◌==◌}

abbrev pub IsByte : ℕ → Type 0
IsByte b = b < 256

abbrev pub IsU16 : ℕ → Type 0
IsU16 n = n < 65536

-- Two functions agree on every number below a bound, by evaluation.
module _ (f g : ℕ → ℕ) where
  agrees : ℕ → Bool
  agrees zero = true
  agrees (suc n) = (f n == g n) && agrees n

  agrees_sound : (n : ℕ) → agrees n ≡ true → (i : ℕ) → i < n → f i ≡ g i
  unfolding agrees
  agrees_sound zero e i h = absurd (omega arith)
  agrees_sound (suc n) e i h = ground (arith, agrees_sound n (ground arith) i)

pub and_0x80 : (b : ℕ) → b < 256 → bit_and b 0x80 ≡ b / 128 * 128
unfolding agrees
and_0x80 = agrees_sound _ _ 256 refl

pub and_0x40 : (b : ℕ) → b < 256 → bit_and b 0x40 ≡ b / 64 % 2 * 64
unfolding agrees
and_0x40 = agrees_sound _ _ 256 refl

pub and_0x20 : (b : ℕ) → b < 256 → bit_and b 0x20 ≡ b / 32 % 2 * 32
unfolding agrees
and_0x20 = agrees_sound _ _ 256 refl

pub and_0x10 : (b : ℕ) → b < 256 → bit_and b 0x10 ≡ b / 16 % 2 * 16
unfolding agrees
and_0x10 = agrees_sound _ _ 256 refl

pub and_0x0f : (b : ℕ) → b < 256 → bit_and b 0x0f ≡ b % 16
unfolding agrees
and_0x0f = agrees_sound _ _ 256 refl

pub and_0x3f : (b : ℕ) → b < 256 → bit_and b 0x3f ≡ b % 64
unfolding agrees
and_0x3f = agrees_sound _ _ 256 refl

pub and_0x07 : (b : ℕ) → b < 256 → bit_and b 0x07 ≡ b % 8
unfolding agrees
and_0x07 = agrees_sound _ _ 256 refl

-- A low nibble under a high nibble, and six low bits under two high ones.
or_nibble : (b : ℕ) → b < 256 → bit_or (b / 16 * 16) (b % 16) ≡ b
unfolding agrees
or_nibble = agrees_sound _ _ 256 refl

or_six : (b : ℕ) → b < 256 → bit_or (b / 64 * 64) (b % 64) ≡ b
unfolding agrees
or_six = agrees_sound _ _ 256 refl

pub or_high_six : (k n : ℕ) → k < 4 → n < 64 → bit_or (k * 64) n ≡ k * 64 + n
or_high_six k n p q = ap₂ bit_or (omega arith) (omega arith) ∙ or_six (k * 64 + n) (omega arith)

pub or_high_nibble : (k n : ℕ) → k < 16 → n < 16 → bit_or (k * 16) n ≡ k * 16 + n
or_high_nibble k n p q =
    ap₂ bit_or (omega arith) (omega arith) ∙ or_nibble (k * 16 + n) (omega arith)
