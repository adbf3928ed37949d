-- ===== src/App/Header/Tests.antt =====
-- A response that reports a restart.
use go_dnp.Common.{ℕ, true, false, List, [], ◌∷◌, ok, ◌≡◌, refl}
use go_dnp.App.FuncCode
use go_dnp.App.Iin.{parse_iin}
use go_dnp.App.Header.{Header, is_response, parse_header, parse_control}

abbrev response : Header
response = record {
  control = record { fir = true; fin = true; con = false; uns = false; seq = 3 };
  func = 129;
  iin = 0x0080;
}

abbrev response_octets : List ℕ
response_octets = 0xc3 ∷ 0x81 ∷ 0x80 ∷ 0x00 ∷ 0x01 ∷ []

parsed : parse_header response_octets ≡ ok (response, 4)
unfolding parse_header is_response parse_control parse_iin FuncCode.is_response
parsed = refl
