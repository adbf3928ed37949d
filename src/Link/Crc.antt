-- ===== src/Link/Crc.antt =====
-- internal/link/crc.go: CRC-16/DNP by table, and the bit-by-bit reference. An octet is a number
-- below 256 and a uint16 one below 65536; `byte(crc)` is `% 256` and `>> k` is `/ 2 ^ k`.
mod Table
mod Tests
use go_dnp.Common.{
  ℕ, zero, suc, ◌+◌, ◌/◌, ◌%◌, bit_and, bit_xor, Bool, true, false, ◌&&◌, ◌==◌, ◌!=◌, if◌then◌else◌,
  List, [], ◌∷◌, ◌++◌, foldl, get_or,
}

abbrev pub crc_rev_poly : ℕ
crc_rev_poly = 0xa6bc

abbrev pub crc_xor_out : ℕ
crc_xor_out = 0xffff

-- One round of the inner loop, `for range 8`.
crc_round : ℕ → ℕ
crc_round crc = if bit_and crc 1 != 0 then bit_xor (crc / 2) crc_rev_poly else crc / 2

crc_rounds : ℕ → ℕ → ℕ
unfolding crc_round
crc_rounds zero crc = crc
crc_rounds (suc n) crc = crc_rounds n (crc_round crc)

-- `for i := range t`, from index `i` for `n` entries.
build_crc_table_from : ℕ → ℕ → List ℕ
unfolding crc_rounds
build_crc_table_from i zero = []
build_crc_table_from i (suc n) = crc_rounds 8 i ∷ build_crc_table_from (i + 1) n

build_crc_table : List ℕ
unfolding build_crc_table_from
build_crc_table = build_crc_table_from 0 256

crc_step : ℕ → ℕ → ℕ
crc_step crc b = bit_xor (crc / 256) (get_or build_crc_table (bit_xor (crc % 256) b) 0)

unfoldable pub crc : List ℕ → ℕ
unfolding crc_step build_crc_table
crc octets = bit_xor (foldl crc_step 0 octets) crc_xor_out

crc_bitwise_step : ℕ → ℕ → ℕ
unfolding crc_rounds
crc_bitwise_step crc b = crc_rounds 8 (bit_xor crc b)

unfoldable pub crc_bitwise : List ℕ → ℕ
unfolding crc_bitwise_step
crc_bitwise octets = bit_xor (foldl crc_bitwise_step 0 octets) crc_xor_out

-- The two octets that follow are the CRC, low octet first; a shorter slice is never valid.
unfoldable pub crc_valid : List ℕ → List ℕ → Bool
crc_valid octets [] = false
crc_valid octets (lo ∷ []) = false
crc_valid octets (lo ∷ hi ∷ _) =
    let want = crc octets in (lo == want % 256) && (hi == want / 256 % 256)

unfoldable pub append_crc : List ℕ → List ℕ → List ℕ
append_crc dst octets = let c = crc octets in dst ++ (c % 256 ∷ c / 256 % 256 ∷ [])
