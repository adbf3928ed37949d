-- ===== src/Link/Frame.antt =====
-- internal/link/frame.go: the control octet, the frame header, and frames cut into blocks of 16
-- octets that each carry a CRC.
pub mod ControlOctet
pub mod Blocks
pub mod BlocksSound
pub mod RoundTrip
pub mod Sound
mod Tests
use go_dnp.Common.{
  ℕ, zero, suc, ◌+◌, ◌-◌, ◌*◌, ◌/◌, ◌%◌, min, bit_and, bit_or, Bool, not, ◌&&◌, ◌||◌, ltb, ◌==◌,
  ◌!=◌, if◌then◌else◌, List, [], ◌∷◌, ◌++◌, length, get_or, take, drop, or_if, le16, read_le16,
  Result, ok, err, ◌>>=◌,
}
use go_dnp.Link.Crc.{crc_valid, append_crc}

abbrev pub start_byte0 : ℕ
start_byte0 = 0x05

abbrev pub start_byte1 : ℕ
start_byte1 = 0x64

abbrev pub header_size : ℕ
header_size = 10

abbrev pub block_size : ℕ
block_size = 16

abbrev pub crc_size : ℕ
crc_size = 2

abbrev pub min_length : ℕ
min_length = 5

abbrev pub max_length : ℕ
max_length = 255

abbrev pub max_payload : ℕ
max_payload = max_length - min_length

abbrev pub max_frame_size : ℕ
max_frame_size = header_size + max_payload + 16 * crc_size

pub record Control : Type 0 where
  pub dir : Bool
  pub prm : Bool
  pub fcb : Bool
  pub fcv : Bool
  pub func : ℕ  -- Function, a uint8

unfoldable pub control_byte : Control → ℕ
control_byte c =
    let b = or_if c.fcv 0x10 (or_if c.fcb 0x20 (or_if c.prm 0x40 (or_if c.dir 0x80 0))) in
    bit_or b (bit_and c.func 0x0f)

unfoldable pub parse_control : ℕ → Control
parse_control b = record {
  dir = bit_and b 0x80 != 0;
  prm = bit_and b 0x40 != 0;
  fcb = bit_and b 0x20 != 0;
  fcv = bit_and b 0x10 != 0;
  func = bit_and b 0x0f;
}

-- The data-flow-control bit of a frame from a secondary station.
unfoldable pub dfc : Control → Bool
dfc c = not c.prm && c.fcv

pub record Header : Type 0 where
  pub control : Control
  pub dest : ℕ
  pub src : ℕ
  pub len : ℕ

-- `int(h.Length) - MinLength`; a decoded header has `min_length ≤ len`.
unfoldable pub payload_len : Header → ℕ
payload_len h = h.len - min_length

pub record Frame : Type 0 where
  pub header : Header
  pub payload : List ℕ

pub data FrameError : Type 0 where
  short_frame bad_start header_crc : FrameError
  bad_length : (len : ℕ) → FrameError
  body_crc : (offset : ℕ) → FrameError
  payload_too_long : (octets : ℕ) → FrameError

unfoldable pub body_size : ℕ → ℕ
body_size n =
    if n == 0 then 0 else (let blocks = (n + block_size - 1) / block_size in n + blocks * crc_size)

unfoldable pub frame_size : ℕ → ℕ
unfolding body_size
frame_size n = header_size + body_size n

-- The eight octets in front of the header CRC, for a payload of `n` octets.
unfoldable pub header_octets : Header → ℕ → List ℕ
header_octets h n =
    start_byte0
    ∷ start_byte1
    ∷ (min_length + n) % 256
    ∷ control_byte h.control
    ∷ (le16 h.dest ++ le16 h.src)

-- The loop over the payload, `rest` being what it has not reached; it ends when nothing is left.
unfoldable pub append_blocks : ℕ → List ℕ → List ℕ → List ℕ
append_blocks zero dst rest = dst
append_blocks (suc rounds) dst [] = dst
append_blocks (suc rounds) dst (x ∷ xs) =
    let block = take block_size (x ∷ xs) in
    append_blocks rounds (append_crc (dst ++ block) block) (drop block_size (x ∷ xs))

unfoldable pub encode : List ℕ → Header → List ℕ → Result FrameError (List ℕ)
unfolding header_octets append_blocks
encode dst h payload =
    let octets = header_octets h (length payload) in
    if ltb max_payload (length payload)
    then err (payload_too_long (length payload))
    else ok (append_blocks (length payload) (append_crc (dst ++ octets) octets) payload)

unfoldable pub decode_header : List ℕ → Result FrameError Header
decode_header buf =
    if ltb (length buf) header_size
    then err short_frame
    else if (get_or buf 0 0 != start_byte0) || (get_or buf 1 0 != start_byte1)
    then err bad_start
    else if not (crc_valid (take 8 buf) (take 2 (drop 8 buf)))
    then err header_crc
    else if ltb (get_or buf 2 0) min_length
    then err (bad_length (get_or buf 2 0))
    else ok (record {
      control = parse_control (get_or buf 3 0);
      dest = read_le16 (drop 4 buf);
      src = read_le16 (drop 6 buf);
      len = get_or buf 2 0;
    })

-- The loop over the blocks at the offset `off`; it ends when `off` reaches the payload's length.
unfoldable pub decode_blocks : ℕ → ℕ → ℕ → List ℕ → List ℕ → Result FrameError (List ℕ)
decode_blocks zero total off body payload = ok payload
decode_blocks (suc rounds) total off body payload =
    let n = min block_size (total - off) in
    let block = take n body in
    let rest =
      decode_blocks rounds total (off + block_size) (drop (n + crc_size) body) (payload ++ block) in
    if ltb off total
    then (if crc_valid block (take crc_size (drop n body)) then rest else err (body_crc off))
    else ok payload

-- The frame at the front of a buffer and the octets that it takes.
unfoldable pub decode : List ℕ → Result FrameError (Frame × ℕ)
decode buf = do
  h ← decode_header buf
  let n = payload_len h
  let total = frame_size n
  if ltb (length buf) total then err short_frame else do
    payload ← decode_blocks n n 0 (drop header_size (take total buf)) []
    ok (record { header = h; payload = payload }, total)
