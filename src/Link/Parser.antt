-- ===== src/Link/Parser.antt =====
-- internal/link/parser.go: the resynchronizing stream parser. `held` is `buf[r:w]`, so `w` is
-- `read + length held`; the array outside that range is never read. The counters do not wrap.
pub mod Progress
pub mod Capacity
pub mod Arrival
pub mod Stream
pub mod Whole
mod Tests
use go_dnp.Common.{
  ℕ, zero, suc, ◌+◌, ◌-◌, min, Bool, true, false, ◌&&◌, ◌||◌, ltb, ◌==◌, ◌!=◌, if◌then◌else◌,
  Option, none, some, List, [], ◌∷◌, ◌++◌, length, get_or, take, drop, Result, ok, err,
}
use go_dnp.Link.Frame.{
  Frame, FrameError, short_frame, bad_start, header_crc, bad_length, body_crc, payload_too_long,
  start_byte0, start_byte1, header_size, max_frame_size, decode,
}
use mathlib.Core.Option

pub record Stats : Type 0 where
  pub frames_decoded : ℕ
  pub bytes_discarded : ℕ
  pub header_crc_errors : ℕ
  pub body_crc_errors : ℕ
  pub bad_lengths : ℕ
  pub resyncs : ℕ

pub record Parser : Type 0 where
  pub read : ℕ
  pub held : List ℕ
  pub stats : Stats

abbrev pub parser_buf_size : ℕ
parser_buf_size = max_frame_size + max_frame_size

abbrev pub new_parser : Parser
new_parser = record {
  read = 0;
  held = [];
  stats = record {
    frames_decoded = 0;
    bytes_discarded = 0;
    header_crc_errors = 0;
    body_crc_errors = 0;
    bad_lengths = 0;
    resyncs = 0;
  };
}

-- The write offset.
abbrev pub written : Parser → ℕ
written p = p.read + length p.held

unfoldable pub slide : Parser → Parser
slide p = if p.read == 0 then p else record p { read = 0 }

-- The octets accepted, and whether some were refused (ErrBufferFull).
unfoldable pub write : Parser → List ℕ → Parser × ℕ × Bool
unfolding slide
write p b =
    let p' = if ltb (parser_buf_size - written p) (length b) then slide p else p in
    let n = min (parser_buf_size - written p') (length b) in
    (record p' { held = p'.held ++ take n b }, n, ltb n (length b))

-- Go's bytes.Index for the two octets of the delimiter.
unfoldable pub index_delimiter : List ℕ → Option ℕ
index_delimiter [] = none
index_delimiter (a ∷ []) = none
index_delimiter (a ∷ b ∷ rest) =
    let later = Option.map suc (index_delimiter (b ∷ rest)) in
    if (a == start_byte0) && (b == start_byte1) then some 0 else later

unfoldable pub ends_in_start : List ℕ → Bool
ends_in_start [] = false
ends_in_start (a ∷ []) = a == start_byte0
ends_in_start (a ∷ b ∷ rest) = ends_in_start (b ∷ rest)

-- `r += n`, counted as discarded.
unfoldable pub discard : ℕ → Parser → Parser
discard n p = record p {
  read = p.read + n;
  held = drop n p.held;
  stats = record p.stats { bytes_discarded = p.stats.bytes_discarded + n };
}

-- How many octets `resync` discards: up to the delimiter, or all but a trailing start octet.
unfoldable pub resync_length : List ℕ → ℕ
resync_length held = elim (index_delimiter held) [
  | none ↦ length held - (if ends_in_start held then 1 else 0)
  | some i ↦ i
]

unfoldable pub resync : Parser → Parser
unfolding slide discard resync_length
resync p = slide (
    discard (resync_length p.held)
      (record p { stats = record p.stats { resyncs = p.stats.resyncs + 1 } }))

unfoldable pub count_error : FrameError → Stats → Stats
count_error short_frame s = s
count_error bad_start s = s
count_error header_crc s = record s { header_crc_errors = s.header_crc_errors + 1 }
count_error (bad_length len) s = record s { bad_lengths = s.bad_lengths + 1 }
count_error (body_crc offset) s = record s { body_crc_errors = s.body_crc_errors + 1 }
count_error (payload_too_long octets) s = s

-- The outcome of one pass through the loop of `Next`; `again` is its `continue`.
pub data Outcome : Type 0 where
  got : Frame → Outcome
  need_more : Outcome
  again : Outcome

-- The switch on what `decode` answered.
unfoldable pub on_decoded : Parser → Result FrameError (Frame × ℕ) → Parser × Outcome
unfolding discard count_error
on_decoded p (ok (f, n)) = (
  record p {
    read = p.read + n;
    held = drop n p.held;
    stats = record p.stats { frames_decoded = p.stats.frames_decoded + 1 };
  },
  got f,
)
on_decoded p (err short_frame) = (p, need_more)
on_decoded p (err e) = (resync (discard 1 (record p { stats = count_error e p.stats })), again)

unfoldable pub round : Parser → Parser × Outcome
unfolding on_decoded
round p =
    if ltb (length p.held) header_size
    then (p, need_more)
    else if (get_or p.held 0 0 != start_byte0) || (get_or p.held 1 0 != start_byte1)
    then (resync p, again)
    else on_decoded p (decode p.held)

-- A pass that says `continue` goes on with the rest of the loop.
abbrev pub resume : (Parser → Parser × Outcome) → Parser × Outcome → Parser × Outcome
resume rest (p, got f) = (p, got f)
resume rest (p, need_more) = (p, need_more)
resume rest (p, again) = rest p

-- The loop on fuel; `again` as its outcome says that the fuel ran out.
unfoldable pub next_loop : ℕ → Parser → Parser × Outcome
next_loop zero p = (p, again)
next_loop (suc fuel) p = resume (next_loop fuel) (round p)

-- Each pass takes an octet at least, so a pass for each octet and one more are enough.
unfoldable pub next : Parser → Parser × Outcome
next p = next_loop (length p.held + 1) p

-- The inner loop of `Drain`: the frames that the held octets yield, until more are needed. The
-- callback's errors are its own; the fuel bounds the number of frames.
abbrev pub collect : (Parser → List Frame × Parser) → Parser × Outcome → List Frame × Parser
collect rest (p, got f) = (f ∷ (rest p).0, (rest p).1)
collect rest (p, need_more) = ([], p)
collect rest (p, again) = ([], p)

unfoldable pub drain_held : ℕ → Parser → List Frame × Parser
drain_held zero p = ([], p)
drain_held (suc fuel) p = collect (drain_held fuel) (next p)
