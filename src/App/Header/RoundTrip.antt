-- ===== src/App/Header/RoundTrip.antt =====
-- Headers put together and taken apart.
use go_dnp.Common.{
  ℕ, ◌+◌, ◌*◌, ◌/◌, ◌%◌, ◌≤◌, ◌<◌, true, List, [], ◌∷◌, ◌++◌, length, take, All, ok, ◌≡◌, ap, arith,
  ◌⊎◌,
}
use go_dnp.Common.Bits.{IsByte, IsU16}
use go_dnp.Common.Or.{or-above}
use go_dnp.Link.Frame
use go_dnp.Link.Frame.ControlOctet
use go_dnp.App.Iin.{parse_iin, octets}
use go_dnp.App.Header.{
  Control, parse_control, control_byte, Header, is_response, size, parse_header, append_header,
}

-- The control octets of the application and the link layer are laid out alike.
as_link : Control → Frame.Control
as_link c = record { dir = c.fir; prm = c.fin; fcb = c.con; fcv = c.uns; func = c.seq }

from_link : Frame.Control → Control
from_link c = record { fir = c.dir; fin = c.prm; con = c.fcb; uns = c.fcv; seq = c.func }

pub control_back : (c : Control) → c.seq < 16 → parse_control (control_byte c) ≡ c
unfolding parse_control control_byte Frame.parse_control Frame.control_byte from_link as_link
control_back c h = ap from_link (ControlOctet.parse_control-control_byte (as_link c) h)

octet_back : (b : ℕ) → IsByte b → control_byte (parse_control b) ≡ b
unfolding parse_control control_byte Frame.parse_control Frame.control_byte as_link
octet_back b h = ControlOctet.control_byte-parse_control b h

parse_iin-sum : (a b : ℕ) → IsByte a → IsByte b → parse_iin a b ≡ a + b * 256
unfolding parse_iin
parse_iin-sum a b h k = omega (arith, or-above 8 a (b * 256 % 65536) b (omega arith) (omega arith))

iin_back : (i : ℕ) → IsU16 i → parse_iin (i % 256) (i / 256 % 256) ≡ i
iin_back i h = omega (arith, parse_iin-sum (i % 256) (i / 256 % 256) (omega arith) (omega arith))

byte_back : (b : ℕ) → IsByte b → b % 256 ≡ b
byte_back b h = omega arith

-- A header that fits the wire; a request has no indications.
pub record IsWire (h : Header) : Type 0 where
  pub seq_fits : h.control.seq < 16
  pub func_fits : IsByte h.func
  pub iin_fits : IsU16 h.iin
  pub iin_used : (is_response h ≡ true) ⊎ (h.iin ≡ 0)

-- A header whose fields fit the wire, and which has indications only in a response, is read back from
-- the front of any buffer that starts with its octets, with the number of octets taken.
pub parse_header-append_header :
    (h : Header) (rest : List ℕ)
    → IsWire h
    → parse_header (append_header [] h ++ rest) ≡ ok (h, size h)
unfolding parse_header append_header size octets is_response
parse_header-append_header h rest w = ground (
  arith,
  byte_back h.func w.func_fits,
  control_back h.control w.seq_fits,
  iin_back h.iin w.iin_fits,
)

-- Whatever header is read from a buffer of octets is written back as the octets that it took.
pub append_header-parse_header :
    (buf : List ℕ) (h : Header) (n : ℕ)
    → All IsByte buf
    → parse_header buf ≡ ok (h, n)
    → (n ≡ size h) × (n ≤ length buf) × (append_header [] h ≡ take n buf)
unfolding parse_header append_header size octets is_response
append_header-parse_header [] h n v e = cc
append_header-parse_header (a ∷ []) h n v e = cc
append_header-parse_header (a ∷ b ∷ []) h n v e =
    ground (arith, octet_back a v.0, byte_back b v.1.0)
append_header-parse_header (a ∷ b ∷ c ∷ []) h n v e =
    ground (arith, octet_back a v.0, byte_back b v.1.0)
append_header-parse_header (a ∷ b ∷ c ∷ d ∷ rest) h n v e =
    ground (arith, octet_back a v.0, byte_back b v.1.0, parse_iin-sum c d v.1.1.0 v.1.1.1.0)
