-- ===== src/Link/Frame/Tests.antt =====
-- Concrete frames.
use go_dnp.Common.{
  ℕ, List, [], ◌∷◌, ◌≡◌, refl, true, false, ok, err, ◌+◌, ◌≤◌, ◌++◌, length, take, arith,
}
use go_dnp.Link.Frame.RoundTrip.{with_len, decode-encode}
use go_dnp.Link.Frame.Sound.{encode-decode}
use go_dnp.Link.Frame.{
  Header, encode, decode, decode_header, decode_blocks, short_frame, control_byte, parse_control,
  frame_size, payload_len,
}
use go_dnp.Link.Crc.{append_crc, crc_valid, crc}

abbrev reset_header : Header
reset_header = record {
  control = record { dir = true; prm = true; fcb = false; fcv = false; func = 0 };
  dest = 1;
  src = 1024;
  len = 5;
}

abbrev reset_octets : List ℕ
reset_octets = 0x05 ∷ 0x64 ∷ 0x05 ∷ 0xc0 ∷ 0x01 ∷ 0x00 ∷ 0x00 ∷ 0x04 ∷ 0xe9 ∷ 0x21 ∷ []

encode_reset : encode [] reset_header [] ≡ ok reset_octets
unfolding encode control_byte append_crc crc
encode_reset = refl

decode_reset : decode reset_octets ≡ ok (record { header = reset_header; payload = [] }, 10)
unfolding decode decode_header decode_blocks parse_control crc_valid crc frame_size payload_len
decode_reset = refl

decode_short : decode (0x05 ∷ 0x64 ∷ []) ≡ err short_frame
unfolding decode decode_header
decode_short = refl

-- The same control octet both ways.

decode-encode_example :
    (octets : List ℕ) × (encode [] reset_header (1 ∷ 2 ∷ []) ≡ ok octets)
    × (length octets ≡ frame_size 2)
    × (decode (octets ++ (7 ∷ []))
        ≡ ok (record { header = with_len reset_header 2; payload = 1 ∷ 2 ∷ [] }, frame_size 2))
decode-encode_example =
    decode-encode reset_header (1 ∷ 2 ∷ []) (7 ∷ [])
      (record { func_fits = omega arith; dest_fits = omega arith; src_fits = omega arith })
      (omega arith)

encode-decode_example :
    (reset_header.len ≡ 5 + 0)
    × (10 ≤ 10)
    × (10 ≡ frame_size 0)
    × (encode [] reset_header [] ≡ ok (take 10 reset_octets))
encode-decode_example =
    encode-decode reset_octets (record { header = reset_header; payload = [] }) 10 (ground arith)
      decode_reset
