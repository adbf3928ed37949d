-- ===== src/Link/Crc/Tests.antt =====
-- The check value of the catalogue: the CRC of the ASCII digits 1 to 9.
use go_dnp.Common.{ℕ, List, [], ◌∷◌, ◌≡◌, refl, arith}
use go_dnp.Link.Crc.Table.{crc-bitwise}
use go_dnp.Link.Crc.{crc, crc_bitwise}

abbrev digits : List ℕ
digits = 0x31 ∷ 0x32 ∷ 0x33 ∷ 0x34 ∷ 0x35 ∷ 0x36 ∷ 0x37 ∷ 0x38 ∷ 0x39 ∷ []

check_value : crc digits ≡ 0xea82
unfolding crc
check_value = refl

bitwise_check_value : crc_bitwise digits ≡ 0xea82
unfolding crc_bitwise
bitwise_check_value = refl

crc-bitwise_example : crc digits ≡ crc_bitwise digits
crc-bitwise_example = crc-bitwise digits (ground arith)
