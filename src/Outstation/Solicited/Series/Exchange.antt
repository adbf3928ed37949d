-- ===== src/Outstation/Solicited/Series/Exchange.antt =====
-- A response goes out as its series, and is over when the last fragment is confirmed, if it has to be.
use go_dnp.Common.{
  ℕ, zero, suc, ◌+◌, ◌%◌, ◌<◌, Bool, true, false, not, ◌&&◌, ◌||◌, ◌==◌, if◌then◌else◌, List, [],
  ◌∷◌, ◌++◌, append_assoc, length, drop, ◌≡◌, refl, ap, ap₂, ◌∙◌, arith,
}
use go_dnp.App.Iin
use go_dnp.App.Iin.{iin_broadcast}
use go_dnp.App.Header.{Control}
use go_dnp.Outstation.EventBuffer
use go_dnp.Outstation.EventBuffer.{EventBuffer}
use go_dnp.Outstation.Solicited.Series.{
  Notes, recorder, series, round, exchange, confirms_last, Sent, Done,
}
use go_dnp.Outstation.Solicited.{Session, finish_response, advance_response}
use go_dnp.Outstation.Solicited.Series.Rounds.{
  next_control-Control, gone_out, waiting, Going, round-Going,
}
use go_dnp.Outstation.Solicited.Series.Steps.{rest_at, round-Sent, round-Done}

module _ {D V : Type 0} where
  exchange-over :
      (bs : List (List ℕ)) (s : Session D V Notes) (b : List ℕ) (now : ℕ)
      → s.awaiting_confirm ≡ false
      → drop s.pending_index s.pending_bodies ≡ b ∷ bs
      → Done s
          (exchange (length (b ∷ bs)) s now)
          (series s.pending_seq (confirms_last s) s.pending_index (b ∷ bs))
  unfolding exchange series
  exchange-over [] s b now h d = round-Done s now b h d
  exchange-over (c ∷ bs) s b now h d =
      let k = round-Sent s now b c bs h d in
      let r = exchange-over bs (round s now) c now k.free (
        rest_at s.pending_bodies (round s now).pending_bodies s.pending_index
          (round s now).pending_index b (c ∷ bs) k.bodies k.index d) in
      record {
        line = joined k r;
        free = r.free;
        bodies = r.bodies;
        events =
            r.events
            ∙ ap₂ (λ has es. if has then (EventBuffer.confirm es).0 else es) k.has k.events;
      }
    where
      q : Session D V Notes
      q = round s now

      first : Control × List ℕ
      first = (
        record {
          fir = s.pending_index == 0;
          fin = false;
          con = true;
          uns = false;
          seq = (s.pending_seq + s.pending_index) % 16;
        },
        b,
      )

      later : ℕ → Bool → ℕ → Notes
      later seq con i = series seq con i (c ∷ bs)

      same :
          Sent s q first
          → later q.pending_seq (confirms_last q) q.pending_index
            ≡ later s.pending_seq (confirms_last s) (s.pending_index + 1)
      same k =
          ap (λ seq. later seq (confirms_last q) q.pending_index) k.seq
          ∙ ap₂ (λ con i. later s.pending_seq con i) k.last k.index

      joined :
          Sent s q first
          → Done q
              (exchange (length (c ∷ bs)) q now)
              (later q.pending_seq (confirms_last q) q.pending_index)
          → (exchange (length (c ∷ bs)) q now).line
            ≡ s.line ++ (first ∷ later s.pending_seq (confirms_last s) (s.pending_index + 1))
      joined k r =
          r.line
          ∙ ap₂ (λ l xs. l ++ xs) k.line (same k)
          ∙ append_assoc s.line (first ∷ [])
              (later s.pending_seq (confirms_last s) (s.pending_index + 1))

  -- A fragment that goes out takes no event with it: the events wait for its confirmation.
  sent-events :
      (s : Session D V Notes) (now : ℕ) (b : List ℕ) (bs : List (List ℕ))
      → s.awaiting_confirm ≡ false
      → drop s.pending_index s.pending_bodies ≡ b ∷ bs
      → (advance_response recorder s now).0.dev.events ≡ s.dev.events
  unfolding finish_response
  sent-events s now b bs h d =
      let g = round-Going s now b bs h d in
      let k = g.control_is ∙ next_control-Control s b bs (length bs == 0) d refl in
      ap (λ q. q.dev.events) g.sends
      ∙ choose g g.c.con s.pending_has_events (ap (λ c. c.con) k) refl
    where
      broadcast : Bool
      broadcast = Iin.has s.dev.iin iin_broadcast && s.broadcast_confirm

      choose :
          (g : Going s now b) (con has : Bool)
          → con ≡ (not (length bs == 0) || (has || broadcast))
          → s.pending_has_events ≡ has
          → (if con
              then waiting s g.c g.w g.dev now
              else finish_response (gone_out s g.w g.dev)).dev.events
            ≡ s.dev.events
      choose g true has p q = g.events
      choose g false true p q = absurd (ground (arith, p))
      choose g false false p q =
          ap (λ has. if has then (EventBuffer.confirm g.dev.events).0 else g.dev.events) q
          ∙ g.events

  exchange-events :
      (k : ℕ) (bs : List (List ℕ)) (s : Session D V Notes) (b : List ℕ) (now : ℕ)
      → s.awaiting_confirm ≡ false
      → drop s.pending_index s.pending_bodies ≡ b ∷ bs
      → k < length (b ∷ bs)
      → (advance_response recorder (exchange k s now) now).0.dev.events ≡ s.dev.events
  unfolding exchange
  exchange-events zero bs s b now h d l = sent-events s now b bs h d
  exchange-events (suc k) [] s b now h d l = absurd (omega (arith, l))
  exchange-events (suc k) (c ∷ bs) s b now h d l =
      let x = round-Sent s now b c bs h d in
      exchange-events k bs (round s now) c now x.free
        (rest_at s.pending_bodies (round s now).pending_bodies s.pending_index
          (round s now).pending_index b (c ∷ bs) x.bodies x.index d)
        (omega (arith, l))
      ∙ x.events

  -- Of a response of which some bodies are still to be sent and no fragment awaits a confirmation: when the
  -- master has confirmed each fragment that asks for it, the line has taken exactly the series of these bodies,
  -- in order, each once - a confirmation asked for of each fragment but the last, and of the last if the response
  -- carries events or answers a broadcast that is to be confirmed -, the response is over, and its events, if it
  -- carries any, are removed. They are not removed before: when any of the fragments, the last one included, has
  -- gone out and is not yet confirmed, the events are still those at the start.
  pub exchange-Done :
      (bs : List (List ℕ)) (s : Session D V Notes) (b : List ℕ) (now k : ℕ)
      → s.awaiting_confirm ≡ false
      → drop s.pending_index s.pending_bodies ≡ b ∷ bs
      → k < length (b ∷ bs)
      → Done s
          (exchange (length (b ∷ bs)) s now)
          (series s.pending_seq (confirms_last s) s.pending_index (b ∷ bs))
        × ((advance_response recorder (exchange k s now) now).0.dev.events ≡ s.dev.events)
  exchange-Done bs s b now k h d l =
      (exchange-over bs s b now h d, exchange-events k bs s b now h d l)
