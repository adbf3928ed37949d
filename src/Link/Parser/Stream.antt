-- ===== src/Link/Parser/Stream.antt =====
-- Frames on a noisy line come out in order.
use go_dnp.Common.{
  ℕ, zero, suc, ◌+◌, ◌≤◌, ◌<◌, List, [], ◌∷◌, ◌++◌, length, All, map, ◌≡◌, refl, ap, ap₂, arith,
  lt→ltb,
}
use go_dnp.Link.Frame.{Header, Frame}
use go_dnp.Link.Frame.RoundTrip.{IsWire, frame_octets, with_len}
use go_dnp.Link.Parser.{
  Parser, Outcome, got, need_more, again, round, next_loop, next, drain_held, collect,
}
use native.Mathlib.Numerals.{add-one}
use go_dnp.Link.Parser.Arrival.{NoStart, Found, next-noise}

got-injective : {f g : Frame} → got f ≡ got g → f ≡ g
got-injective e = cc

next-short : (p : Parser) → length p.held < 10 → next p ≡ (p, need_more)
unfolding next next_loop round
next-short p h = rw (add-one, lt→ltb (length p.held) 10 h)

-- A frame on the line, and the noise in front of it.
pub record Packet : Type 0 where
  pub noise : List ℕ
  pub header : Header
  pub payload : List ℕ

pub record IsSendable (k : Packet) : Type 0 where
  pub quiet : All NoStart k.noise
  pub wire : IsWire k.header
  pub fits : length k.payload ≤ 250

abbrev pub sent_frame : Packet → Frame
sent_frame k = record { header = with_len k.header (length k.payload); payload = k.payload }

-- The octets on the line, `tail` being what has arrived of the next frame.
abbrev pub line : List Packet → List ℕ → List ℕ
line [] tail = tail
line (k ∷ ks) tail = k.noise ++ (frame_octets k.header k.payload ++ line ks tail)

abbrev pub noise_length : List Packet → ℕ
noise_length [] = 0
noise_length (k ∷ ks) = length k.noise + noise_length ks

one_more :
    (fuel : ℕ) (p : Parser) (r : Parser × Outcome) (k : Packet) (ks : List Packet) (tail : List ℕ)
    → Found p (sent_frame k) (length k.noise) (line ks tail) r
    → ((drain_held fuel r.0).0 ≡ map sent_frame ks)
      × ((drain_held fuel r.0).1.held ≡ tail)
      × ((drain_held fuel r.0).1.stats.bytes_discarded
          ≡ r.0.stats.bytes_discarded + noise_length ks)
    → ((collect (drain_held fuel) r).0 ≡ sent_frame k ∷ map sent_frame ks)
      × ((collect (drain_held fuel) r).1.held ≡ tail)
      × ((collect (drain_held fuel) r).1.stats.bytes_discarded
          ≡ p.stats.bytes_discarded + (length k.noise + noise_length ks))
one_more fuel p (q, got f) k ks tail found (a, b, c) =
    (ap₂ ◌∷◌ (got-injective found.outcome) a, b, omega (arith, c, found.discarded))
one_more fuel p (q, need_more) k ks tail found rest = cc found.outcome
one_more fuel p (q, again) k ks tail found rest = cc found.outcome

-- From frames that fit the wire, with noise between them that holds no start octet and at most nine
-- octets of a further frame behind them, and with more fuel than there are frames, the parser yields
-- exactly the frames that were sent, in order. It counts exactly the noise as discarded, and it keeps
-- the octets behind them.
pub drain_held-line :
    (ks : List Packet) (tail : List ℕ) (fuel : ℕ) (p : Parser)
    → All IsSendable ks
    → length tail < 10
    → length ks < fuel
    → p.held ≡ line ks tail
    → ((drain_held fuel p).0 ≡ map sent_frame ks)
      × ((drain_held fuel p).1.held ≡ tail)
      × ((drain_held fuel p).1.stats.bytes_discarded ≡ p.stats.bytes_discarded + noise_length ks)
unfolding drain_held
drain_held-line ks tail zero p sendable short enough e = absurd (omega arith)
drain_held-line [] tail (suc fuel) p sendable short enough e =
    rw (next-short p (omega (arith, ap length e))) (refl, e, omega arith)
drain_held-line (k ∷ ks) tail (suc fuel) p sendable short enough e =
    one_more fuel p (next p) k ks tail found
      (drain_held-line ks tail fuel (next p).0 sendable.1 short (omega arith) found.left)
  where
    s : IsSendable k
    s = sendable.0

    found : Found p (sent_frame k) (length k.noise) (line ks tail) (next p)
    found = next-noise k.header k.payload (line ks tail) s.wire s.fits k.noise p s.quiet e
