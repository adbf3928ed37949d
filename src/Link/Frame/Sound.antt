-- ===== src/Link/Frame/Sound.antt =====
-- What `decode` accepts is exactly what `encode` writes.
use native.Mathlib.Nat.{sub-zero}
use go_dnp.Common.{
  ℕ, ◌+◌, ◌-◌, ◌≤◌, ◌<◌, List, [], ◌∷◌, ◌++◌, length, take, drop, length-take, length-drop, ok, ◌≡◌,
  refl, sym, ap, ◌∙◌, arith, ap₂, drop-drop, take-take, drop-take, All, take-append-drop,
}
use go_dnp.Common.Bits.{IsByte}
use go_dnp.Link.Crc.{crc_valid}
use go_dnp.Link.Frame.{
  Header, Frame, payload_len, body_size, frame_size, header_octets, encode, decode_header,
  decode_blocks, decode,
}
use go_dnp.Link.Frame.ControlOctet.{control_byte-parse_control}
use go_dnp.Link.Frame.Blocks.{crc_octets, body_octets}
use go_dnp.Link.Frame.BlocksSound.{Blocks, decode_blocks-Blocks}
use go_dnp.Link.Frame.RoundTrip.{frame_octets, encode-frame_octets}

-- A header that decodes is the image of its fields, its CRC included.
record HeaderFits (buf : List ℕ) (h : Header) : Type 0 where
  octets : take 8 buf ≡ header_octets h (payload_len h)
  crcs : take 2 (drop 8 buf) ≡ crc_octets (take 8 buf)
  least : 5 ≤ h.len
  most : h.len < 256
  enough : 10 ≤ length buf

decode_header-HeaderFits :
    (buf : List ℕ) (h : Header) → All IsByte buf → decode_header buf ≡ ok h → HeaderFits buf h
unfolding decode_header header_octets payload_len crc_valid
decode_header-HeaderFits (b0 ∷ b1 ∷ b2 ∷ b3 ∷ b4 ∷ b5 ∷ b6 ∷ b7 ∷ b8 ∷ b9 ∷ rest) h bytes e =
    record {
      octets = ground (arith, control_byte-parse_control b3 bytes.1.1.1.0);
      crcs = ground arith;
      least = ground arith;
      most = ground arith;
      enough = omega arith;
    }
decode_header-HeaderFits _ h bytes e = cc

pub decode-inv :
    (buf : List ℕ) (f : Frame) (n : ℕ)
    → decode buf ≡ ok (f, n)
    → (decode_header buf ≡ ok f.header)
      × (n ≡ frame_size (payload_len f.header))
      × (n ≤ length buf)
      × (decode_blocks (payload_len f.header) (payload_len f.header) 0 (drop 10 (take n buf)) []
          ≡ ok f.payload)
unfolding decode
decode-inv buf f n e = ground arith

-- The octets taken, cut into header, header CRC and body.
header_cut :
    (n : ℕ) (buf : List ℕ)
    → 10 ≤ n
    → take n buf ≡ take 8 buf ++ (take 2 (drop 8 buf) ++ drop 10 (take n buf))
header_cut n buf h =
    let front = take n buf in
    sym (take-append-drop 8 front)
    ∙ ap (take 8 front ++◌) (sym (take-append-drop 2 (drop 8 front)))
    ∙ ap (λ t. take 8 front ++ (take 2 (drop 8 front) ++ t)) (drop-drop 8 2 front)
    ∙ ap₂ (λ s t. s ++ (t ++ drop 10 front)) (take-take 8 n buf (omega arith))
        (ap (take 2) (drop-take 8 n buf) ∙ take-take 2 (n - 8) (drop 8 buf) (omega arith))

frame_octets-take :
    (buf : List ℕ) (f : Frame) (n : ℕ)
    → 10 ≤ n
    → HeaderFits buf f.header
    → Blocks (payload_len f.header) (payload_len f.header) (drop 10 (take n buf)) [] f.payload
    → take n buf ≡ frame_octets f.header f.payload
frame_octets-take buf f n h fits blocks =
    header_cut n buf h
    ∙ ap₂ ◌++◌ octets (
        ap₂ ◌++◌ (fits.crcs ∙ ap crc_octets octets)
          (blocks.written ∙ ap₂ body_octets (sym counted) (sym blocks.joined)))
  where
    counted : length f.payload ≡ payload_len f.header
    counted = ap length blocks.joined ∙ blocks.counted

    octets : take 8 buf ≡ header_octets f.header (length f.payload)
    octets = fits.octets ∙ ap (header_octets f.header) (sym counted)

payload_len_lem : (h : Header) → payload_len h ≡ h.len - 5
unfolding payload_len
payload_len_lem h = refl

frame_size_lem : (n : ℕ) → frame_size n ≡ 10 + body_size n
unfolding frame_size
frame_size_lem n = refl

-- Whatever `decode` accepts from a buffer of octets is what `encode` writes for the decoded frame:
-- the header's length octet counts the payload, and the octets taken are the frame's encoding.
pub encode-decode :
    (buf : List ℕ) (f : Frame) (n : ℕ)
    → All IsByte buf
    → decode buf ≡ ok (f, n)
    → (f.header.len ≡ 5 + length f.payload)
      × (n ≤ length buf)
      × (n ≡ frame_size (length f.payload))
      × (encode [] f.header f.payload ≡ ok (take n buf))
encode-decode buf f n bytes e = (
  omega (arith, counted, payload_len_lem f.header, fits.least),
  inv.2,
  inv.1 ∙ ap frame_size (sym counted),
  encode-frame_octets [] f.header f.payload
        (omega (arith, counted, payload_len_lem f.header, fits.most))
      ∙ ap ok (
          sym (
            frame_octets-take buf f n (omega (arith, inv.1, frame_size_lem (payload_len f.header)))
              fits blocks)),
)
  where
    inv :
        (decode_header buf ≡ ok f.header)
        × (n ≡ frame_size (payload_len f.header))
        × (n ≤ length buf)
        × (decode_blocks (payload_len f.header) (payload_len f.header) 0 (drop 10 (take n buf)) []
            ≡ ok f.payload)
    inv = decode-inv buf f n e

    fits : HeaderFits buf f.header
    fits = decode_header-HeaderFits buf f.header bytes inv.0

    blocks :
        Blocks (payload_len f.header) (payload_len f.header) (drop 10 (take n buf)) [] f.payload
    blocks = rw sub-zero at (
        decode_blocks-Blocks (payload_len f.header) (payload_len f.header) 0 _ _ _ inv.3
          (omega arith)
          (omega (
            arith,
            length-drop 10 (take n buf),
            length-take n buf,
            inv.1,
            inv.2,
            frame_size_lem (payload_len f.header),
            ap body_size (sub-zero (payload_len f.header)),
          )))

    counted : length f.payload ≡ payload_len f.header
    counted = ap length blocks.joined ∙ blocks.counted
