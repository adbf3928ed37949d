-- ===== src/Link/Address.antt =====
-- Reserved and broadcast addresses, internal/link/frame.go. An address is a uint16.
use go_dnp.Common.{ℕ, ◌<◌, Bool, true, ◌&&◌, not, leb, ◌!=◌, ◌≡◌, ◌↔◌, arith}

abbrev pub broadcast_optional_confirm : ℕ
broadcast_optional_confirm = 0xffff

abbrev pub broadcast_mandatory_confirm : ℕ
broadcast_mandatory_confirm = 0xfffe

abbrev pub broadcast_no_confirm : ℕ
broadcast_no_confirm = 0xfffd

abbrev pub self_address : ℕ
self_address = 0xfffc

abbrev pub reserved_low : ℕ
reserved_low = 0xfff0

abbrev pub reserved_high : ℕ
reserved_high = 0xfffb

unfoldable pub is_broadcast : ℕ → Bool
is_broadcast addr = leb broadcast_no_confirm addr && leb addr broadcast_optional_confirm

unfoldable pub is_reserved : ℕ → Bool
is_reserved addr = leb reserved_low addr && leb addr reserved_high

unfoldable pub is_valid_source : ℕ → Bool
unfolding is_broadcast is_reserved
is_valid_source addr = not (is_reserved addr) && not (is_broadcast addr) && (addr != self_address)

-- Of the 16-bit addresses, exactly those below 0xfff0 may be a station's own.
pub is_valid_source-lt : (addr : ℕ) → addr < 65536 → (is_valid_source addr ≡ true) ↔ (addr < 0xfff0)
unfolding is_valid_source
is_valid_source-lt addr h = ground arith
