-- ===== src/Transport/Header.antt =====
-- The transport header octet, internal/transport/transport.go.
use go_dnp.Common.{ℕ, ◌+◌, ◌*◌, ◌%◌, ◌<◌, bit_and, bit_or, Bool, or_if, bit_of, ◌!=◌, ◌≡◌, arith}
use go_dnp.Common.Bits.{IsByte, or_high_six, and_0x80, and_0x40, and_0x3f}

pub record Header : Type 0 where
  pub fir : Bool
  pub fin : Bool
  pub seq : ℕ

abbrev pub seq_modulus : ℕ
seq_modulus = 64

unfoldable pub parse_header : ℕ → Header
parse_header b = record {
  fir = bit_and b 0x40 != 0;
  fin = bit_and b 0x80 != 0;
  seq = bit_and b 0x3f;
}

unfoldable pub header_byte : Header → ℕ
header_byte h = bit_or (or_if h.fir 0x40 (or_if h.fin 0x80 0)) (bit_and h.seq 0x3f)

flags-high :
    (fir fin : Bool) → or_if fir 0x40 (or_if fin 0x80 0) ≡ (bit_of fin * 2 + bit_of fir) * 64
flags-high fir fin = ground arith

pub header_byte-sum :
    (h : Header) → h.seq < 256 → header_byte h ≡ bit_of h.fin * 128 + bit_of h.fir * 64 + h.seq % 64
unfolding header_byte
header_byte-sum h s = ground (
  arith,
  flags-high h.fir h.fin,
  and_0x3f h.seq s,
  or_high_six (bit_of h.fin * 2 + bit_of h.fir) (h.seq % 64),
)

-- A header whose sequence number is below 64 comes back from its octet.
pub parse_header-header_byte : (h : Header) → h.seq < 64 → parse_header (header_byte h) ≡ h
unfolding parse_header
parse_header-header_byte h s =
    let b = header_byte h in ground (arith, header_byte-sum h, and_0x80 b, and_0x40 b, and_0x3f b)

-- Every octet comes back from the header that it is parsed to.
pub header_byte-parse_header : (b : ℕ) → IsByte b → header_byte (parse_header b) ≡ b
unfolding parse_header
header_byte-parse_header b h =
    ground (arith, header_byte-sum (parse_header b), and_0x80 b h, and_0x40 b h, and_0x3f b h)

pub parse_header-lt : (b : ℕ) → IsByte b → (parse_header b).seq < 64
unfolding parse_header
parse_header-lt b h = ground (arith, and_0x3f b h)
