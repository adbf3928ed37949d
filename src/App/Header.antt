-- ===== src/App/Header.antt =====
-- The fragment header, internal/app/header.go: the control octet, the function code and, in a response,
-- the internal indications.
pub mod RoundTrip
mod Tests
use go_dnp.Common.{
  ℕ, ◌%◌, bit_and, bit_or, Bool, ◌&&◌, ltb, ◌!=◌, if◌then◌else◌, List, [], ◌∷◌, ◌++◌, length,
  get_or, or_if, not, Result, ok, err,
}
use go_dnp.App.FuncCode
use go_dnp.App.Errors.{Error, short_fragment}
use go_dnp.App.Iin.{parse_iin, octets}

abbrev pub request_header_size : ℕ
request_header_size = 2

abbrev pub response_header_size : ℕ
response_header_size = 4

pub record Control : Type 0 where
  pub fir : Bool
  pub fin : Bool
  pub con : Bool
  pub uns : Bool
  pub seq : ℕ

unfoldable pub parse_control : ℕ → Control
parse_control b = record {
  fir = bit_and b 0x80 != 0;
  fin = bit_and b 0x40 != 0;
  con = bit_and b 0x20 != 0;
  uns = bit_and b 0x10 != 0;
  seq = bit_and b 0x0f;
}

unfoldable pub control_byte : Control → ℕ
control_byte c =
    let b = or_if c.uns 0x10 (or_if c.con 0x20 (or_if c.fin 0x40 (or_if c.fir 0x80 0))) in
    bit_or b (bit_and c.seq 0x0f)

unfoldable pub single : Control → Bool
single c = c.fir && c.fin

pub record Header : Type 0 where
  pub control : Control
  pub func : ℕ
  pub iin : ℕ

unfoldable pub is_response : Header → Bool
is_response h = FuncCode.is_response h.func

unfoldable pub size : Header → ℕ
unfolding is_response
size h = if is_response h then response_header_size else request_header_size

-- The header at the front of a buffer and the octets that it occupies.
unfoldable pub parse_header : List ℕ → Result Error (Header × ℕ)
unfolding is_response
parse_header buf =
    let h : Header = record {
      control = parse_control (get_or buf 0 0);
      func = get_or buf 1 0;
      iin = 0;
    } in
    if ltb (length buf) request_header_size
    then err short_fragment
    else if not (is_response h)
    then ok (h, request_header_size)
    else if ltb (length buf) response_header_size
    then err short_fragment
    else ok (record h { iin = parse_iin (get_or buf 2 0) (get_or buf 3 0) }, response_header_size)

unfoldable pub append_header : List ℕ → Header → List ℕ
unfolding is_response
append_header dst h =
    let out = dst ++ (control_byte h.control ∷ h.func % 256 ∷ []) in
    let (iin1, iin2) = octets h.iin in if is_response h then out ++ (iin1 ∷ iin2 ∷ []) else out
