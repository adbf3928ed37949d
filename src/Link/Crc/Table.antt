-- ===== src/Link/Crc/Table.antt =====
-- The table computes what the bit-by-bit reference computes.
use Prim.Native.Nat.{digits, bit_and-bitwise}
use go_dnp.Common.{
  ℕ, zero, suc, ◌+◌, ◌*◌, ◌/◌, ◌%◌, ◌^◌, ◌<◌, min, bit_and, bit_xor, List, [], ◌∷◌, foldl, get_or,
  All, ◌≡◌, refl, sym, ap, ◌∙◌, arith, ◌!=◌, Bool-cases, inl, inr,
}
use go_dnp.Common.Bits.{IsByte}
use go_dnp.Common.Xor.{xor-mod, xor-div, xor_assoc, xor-lt, xor-zero, by_digit}
use go_dnp.Link.Crc.{
  crc_round, crc_rounds, build_crc_table, build_crc_table_from, crc_step, crc, crc_bitwise_step,
  crc_bitwise, crc_rev_poly,
}
use native.Mathlib.Nat.{pow-suc, zero-add}

and_digits-zero : (n a : ℕ) → digits (λ b. zero) min n a 0 ≡ 0
and_digits-zero zero a = refl
and_digits-zero (suc n) zero = refl
and_digits-zero (suc n) (suc a) = omega (arith, and_digits-zero n (suc a / 2))

bit_and-one : (a : ℕ) → bit_and a 1 ≡ a % 2
bit_and-one zero = refl
bit_and-one (suc a) = omega (arith, bit_and-bitwise (suc a) 1, and_digits-zero a (suc a / 2))

double_pow : (k h : ℕ) → h * 2 ^ suc k ≡ h * 2 ^ k * 2
double_pow k h = omega (arith, ap (λ (t : ℕ). h * t) (pow-suc 2 k))

-- Disjoint digits: exclusive or is addition.
xor-shifted : (k h l : ℕ) → l < 2 ^ k → bit_xor (h * 2 ^ k) l ≡ h * 2 ^ k + l
xor-shifted zero h zero p = omega (arith, xor-zero (h * 1))
xor-shifted zero h (suc l) p = absurd (omega arith)
xor-shifted (suc k) h l p = rw (double_pow k h) (
    by_digit _ _ (omega (arith, xor-mod (h * 2 ^ k * 2) l)) (
      omega (
        arith,
        xor-div (h * 2 ^ k * 2) l,
        ap (λ (t : ℕ). bit_xor t (l / 2)) halved,
        xor-shifted k h (l / 2) (omega (arith, pow-suc 2 k)),
      )))
  where
    halved : h * 2 ^ k * 2 / 2 ≡ h * 2 ^ k
    halved = omega arith

-- A round acts on the low octet; what stands above it is shifted along.
round-shifted : (x l : ℕ) → crc_round (bit_xor (x * 2) l) ≡ bit_xor x (crc_round l)
unfolding crc_round
round-shifted x l =
    rw (bit_and-one, bit_and-one l, xor-mod, xor-div, halved, lowest)
      (elim (Bool-cases (l % 2 != 0)) [
        | inl e ↦ rw e (xor_assoc x (l / 2) crc_rev_poly)
        | inr e ↦ rw e
      ])
  where
    halved : x * 2 / 2 ≡ x
    halved = omega arith

    lowest : (x * 2 + l) % 2 ≡ l % 2
    lowest = omega arith

rounds-shifted : (k h l : ℕ) → crc_rounds k (bit_xor (h * 2 ^ k) l) ≡ bit_xor h (crc_rounds k l)
unfolding crc_rounds
rounds-shifted zero h l = ap (λ t. bit_xor t l) (omega arith)
rounds-shifted (suc k) h l =
    rw (double_pow k h, round-shifted (h * 2 ^ k) l) (rounds-shifted k h (crc_round l))

lookup_from : (n i k : ℕ) → k < n → get_or (build_crc_table_from i n) k 0 ≡ crc_rounds 8 (i + k)
unfolding build_crc_table_from
lookup_from zero i k h = absurd (omega arith)
lookup_from (suc n) i zero h = ap (crc_rounds 8) (omega arith)
lookup_from (suc n) i (suc k) h =
    lookup_from n (i + 1) k (omega arith) ∙ ap (crc_rounds 8) (omega arith)

lookup : (i : ℕ) → i < 256 → get_or build_crc_table i 0 ≡ crc_rounds 8 i
unfolding build_crc_table
lookup i h = lookup_from 256 0 i h ∙ ap (crc_rounds 8) (zero-add i)

split_octet : (c b : ℕ) → bit_xor c b ≡ bit_xor (c / 256 * 2 ^ 8) (bit_xor (c % 256) b)
split_octet c b =
    ap (λ t. bit_xor t b) (omega (arith, xor-shifted 8 (c / 256) (c % 256) (omega arith)))
    ∙ xor_assoc (c / 256 * 2 ^ 8) (c % 256) b

crc_step-bitwise : (c b : ℕ) → b < 256 → crc_step c b ≡ crc_bitwise_step c b
unfolding crc_step crc_bitwise_step
crc_step-bitwise c b h =
    ap (bit_xor (c / 256)) (lookup (bit_xor (c % 256) b) (xor-lt 8 (c % 256) b (omega arith) h))
    ∙ sym (rounds-shifted 8 (c / 256) (bit_xor (c % 256) b))
    ∙ ap (crc_rounds 8) (sym (split_octet c b))

foldl-bitwise :
    (octets : List ℕ) (c : ℕ)
    → All IsByte octets
    → foldl crc_step c octets ≡ foldl crc_bitwise_step c octets
foldl-bitwise [] c h = refl
foldl-bitwise (b ∷ bs) c h =
    rw (crc_step-bitwise c b h.0) (foldl-bitwise bs (crc_bitwise_step c b) h.1)

-- On every sequence of octets the table-driven CRC equals the bit-by-bit reference.
pub crc-bitwise : (octets : List ℕ) → All IsByte octets → crc octets ≡ crc_bitwise octets
unfolding crc crc_bitwise
crc-bitwise octets h = rw (foldl-bitwise octets 0 h)
