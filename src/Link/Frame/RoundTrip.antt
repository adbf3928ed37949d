-- ===== src/Link/Frame/RoundTrip.antt =====
-- Decoding what was encoded.
use go_dnp.Common.{
  ℕ, ◌+◌, ◌≤◌, ◌<◌, List, [], ◌++◌, length, drop, length-append, append_assoc, ok, ◌≡◌, refl, ap,
  ◌∙◌, arith, le→ltb-false,
}
use go_dnp.Common.Bits.{IsU16}
use go_dnp.Link.Crc.{append_crc}
use go_dnp.Link.Frame.{
  Header, payload_len, frame_size, header_octets, encode, decode_header, decode,
}
use go_dnp.Link.Frame.ControlOctet.{parse_control-control_byte}
use go_dnp.Link.Frame.Blocks.{
  crc_octets, append_crc_lem, crc_valid-crc_octets, body_octets, append_blocks-body,
  length-body_octets, take-block, decode_blocks-body,
}

-- A header whose fields fit the wire; the function code has four bits there.
pub record IsWire (h : Header) : Type 0 where
  pub func_fits : h.control.func < 16
  pub dest_fits : IsU16 h.dest
  pub src_fits : IsU16 h.src

-- The octets of a frame.
abbrev pub frame_octets : Header → List ℕ → List ℕ
frame_octets h payload =
    let octets = header_octets h (length payload) in
    octets ++ (crc_octets octets ++ body_octets (length payload) payload)

-- `encode` appends the octets of the frame to `dst`, unless the payload is too long.
pub encode-frame_octets :
    (dst : List ℕ) (h : Header) (payload : List ℕ)
    → length payload ≤ 250
    → encode dst h payload ≡ ok (dst ++ frame_octets h payload)
unfolding encode
encode-frame_octets dst h payload fits =
    let octets = header_octets h (length payload) in
    rw (le→ltb-false 250 (length payload) fits) (
      ap ok (
        append_blocks-body (length payload) (append_crc (dst ++ octets) octets) payload
        ∙ ap (λ t. t ++ body_octets (length payload) payload)
            (append_crc_lem (dst ++ octets) octets)
        ∙ append_assoc (dst ++ octets) (crc_octets octets) _
        ∙ append_assoc dst octets _))

pub length-frame_octets :
    (h : Header) (payload : List ℕ) → length (frame_octets h payload) ≡ frame_size (length payload)
unfolding frame_size header_octets
length-frame_octets h payload =
    omega (arith, length-body_octets (length payload) payload (omega arith))

-- The header that `decode` finds: its length octet counts the payload.
abbrev pub with_len : Header → ℕ → Header
with_len h n = record h { len = 5 + n }

pub decode_header-frame_octets :
    (h : Header) (n : ℕ) (rest : List ℕ)
    → IsWire h
    → n ≤ 250
    → decode_header (header_octets h n ++ (crc_octets (header_octets h n) ++ rest))
      ≡ ok (with_len h n)
unfolding decode_header header_octets
decode_header-frame_octets h n rest w fits = ground (
  arith,
  crc_valid-crc_octets (header_octets h n) [],
  parse_control-control_byte h.control w.func_fits,
)

header_front :
    (h : Header) (payload rest : List ℕ)
    → IsWire h
    → length payload ≤ 250
    → decode_header (frame_octets h payload ++ rest) ≡ ok (with_len h (length payload))
header_front h payload rest w fits =
    let n = length payload in
    let octets = header_octets h n in
    rw
      (
        append_assoc octets (crc_octets octets ++ body_octets n payload) rest,
        append_assoc (crc_octets octets) (body_octets n payload) rest,
      )
      (decode_header-frame_octets h n (body_octets n payload ++ rest) w fits)

pub payload_len-with_len : (h : Header) (n : ℕ) → payload_len (with_len h n) ≡ n
unfolding payload_len
payload_len-with_len h n = omega arith

drop_header :
    (h : Header) (payload : List ℕ)
    → drop 10 (frame_octets h payload) ≡ body_octets (length payload) payload
unfolding header_octets
drop_header h payload = refl

-- `decode` reads the frame back and takes its octets alone, whatever follows them.
pub decode-frame_octets :
    (h : Header) (payload rest : List ℕ)
    → IsWire h
    → length payload ≤ 250
    → decode (frame_octets h payload ++ rest)
      ≡ ok (
        record { header = with_len h (length payload); payload = payload },
        frame_size (length payload),
      )
unfolding decode
decode-frame_octets h payload rest w fits =
    let n = length payload in
    let front = frame_octets h payload in
    rw (
      header_front h payload rest w fits,
      payload_len-with_len h n,
      le→ltb-false (length (front ++ rest)) (frame_size n)
          (omega (arith, length-append front rest, length-frame_octets h payload)),
      take-block front rest (length-frame_octets h payload),
      drop_header h payload,
      decode_blocks-body n n 0 payload [] (omega arith) (omega arith),
    )

-- A frame whose header fields fit the wire and whose payload has at most 250 octets is encoded, to
-- the octets that `frame_size` counts, and `decode` reads header and payload back from the front of
-- any buffer that starts with them; the header then carries the payload's length.
pub decode-encode :
    (h : Header) (payload rest : List ℕ)
    → IsWire h
    → length payload ≤ 250
    → (octets : List ℕ) × (encode [] h payload ≡ ok octets)
      × (length octets ≡ frame_size (length payload))
      × (decode (octets ++ rest)
          ≡ ok (
            record { header = with_len h (length payload); payload = payload },
            frame_size (length payload),
          ))
decode-encode h payload rest w fits = (
  frame_octets h payload,
  encode-frame_octets [] h payload fits,
  length-frame_octets h payload,
  decode-frame_octets h payload rest w fits,
)
