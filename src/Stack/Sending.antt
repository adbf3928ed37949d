-- ===== src/Stack/Sending.antt =====
-- internal/stack/stack.go: Send, SendTo, pump, OnTimeout, SendLinkStatusRequest and write.
use go_dnp.Common.{
  ℕ, zero, suc, ◌+◌, Bool, true, false, not, if◌then◌else◌, Option, none, some, List, [], ◌∷◌,
  length, ok, err,
}
use go_dnp.Link.Frame.{Frame, encode}
use go_dnp.Link.Primary
use go_dnp.Link.Primary.{Primary, SendError, Action, no_frame}
use go_dnp.Transport.Segmenter
use go_dnp.Transport.Segmenter.{Segmenter, segments_for}
use go_dnp.Stack.{
  Stack, busy, Error, empty_fragment, in_flight, refused, write_failed, link_send, encoding, Writer,
}

abbrev pub is_failed : Action → Bool
is_failed Action.failed = true
is_failed Action.none = false
is_failed Action.transmit = false
is_failed Action.complete = false

abbrev pub is_transmit : Action → Bool
is_transmit Action.transmit = true
is_transmit Action.failed = false
is_transmit Action.none = false
is_transmit Action.complete = false

-- How a pass of `pumpFrames` ends: `more` is its next iteration.
pub data Pumped : Type 0 where
  more : Pumped
  stopped : Option Error → Pumped

module _ {W : Type 0} (out : Writer W) where
  unfoldable pub write : W → Frame → W × Option Error
  write w f = elim (encode [] f.header f.payload) [
    | err e ↦ (w, some (encoding e))
    | ok octets ↦
        let (w', fine) = out.put w octets in (w', if fine then none else some write_failed)
  ]

  -- What follows a segment that the primary was given: its error, its refusal, the frame's writing, and
  -- whether a confirmation is due.
  unfoldable pub after_send : Stack → W → (Frame × Action) × SendError → (Stack × W) × Pumped
  after_send s w ((f, action), SendError.nil) =
      if is_failed action
      then ((s, w), stopped (some refused))
      else (let (w', e) = write w f in
          elim e [
            | some x ↦ ((s, w'), stopped (some x))
            | none ↦
                if is_transmit action
                then ((record s { awaiting = true }, w'), stopped none)
                else ((s, w'), more)
          ])
  after_send s w (_, SendError.payload_too_long n) =
      ((s, w), stopped (some (link_send (SendError.payload_too_long n))))
  after_send s w (_, SendError.busy st) = ((s, w), stopped (some (link_send (SendError.busy st))))
  after_send s w (_, SendError.data_flow_control) =
      ((s, w), stopped (some (link_send SendError.data_flow_control)))

  unfoldable pub pump_round : Stack → W → (Stack × W) × Pumped
  pump_round s w =
      if not s.seg.live
      then ((record s { awaiting = false }, w), stopped none)
      else if s.pri.flow_control
      then ((s, w), stopped none)
      else (let (seg, octets, emitted) = Segmenter.next s.seg [] in
          let ((p, f, action), e) = Primary.send (record s.pri { remote_addr = s.dest }) octets in
          if not emitted
          then ((record s { seg = seg; awaiting = false }, w), stopped none)
          else after_send
              (record s { seg = seg; pri = record p { remote_addr = s.pri.remote_addr } }) w
              ((f, action), e))

  -- The loop of `pumpFrames`, on fuel; `more` at its end says that the fuel ran out.
  abbrev pub pump_on :
      (Stack × W → (Stack × W) × Pumped) → (Stack × W) × Pumped → (Stack × W) × Pumped
  pump_on rest (sw, more) = rest sw
  pump_on rest (sw, stopped e) = (sw, stopped e)

  unfoldable pub pump_loop : ℕ → Stack × W → (Stack × W) × Pumped
  pump_loop zero sw = (sw, more)
  pump_loop (suc fuel) (s, w) = pump_on (pump_loop fuel) (pump_round s w)

  -- A pass for each segment and one more are enough.
  abbrev pub error_of : Pumped → Option Error
  error_of more = none
  error_of (stopped e) = e

  abbrev pub or_error : Option Error → Bool → Option Error
  or_error (some e) fine = some e
  or_error none fine = if fine then none else some write_failed

  unfoldable pub pump : Stack → W → (Stack × W) × Option Error
  pump s w =
      let run = pump_loop (segments_for (length s.seg.frag) + 2) (s, out.begin w) in
      let (w', fine) = out.finish run.0.1 in ((run.0.0, w'), or_error (error_of run.1) fine)

  unfoldable pub send_to : Stack → W → ℕ → List ℕ → (Stack × W) × Option Error
  send_to s w dest [] = ((s, w), some empty_fragment)
  send_to s w dest (b ∷ bs) =
      if busy s
      then ((s, w), some in_flight)
      else pump (record s { dest = dest; seg = Segmenter.reset s.seg (b ∷ bs) }) w

  unfoldable pub send : Stack → W → List ℕ → (Stack × W) × Option Error
  send s w fragment = send_to s w s.cfg.remote_addr fragment

  -- The timer of the session has run out: whether the transmission failed for good, and an error.
  abbrev pub timed_out : Stack → W → Frame × Action → (Stack × W) × Bool × Option Error
  timed_out s w (f, Action.transmit) = let (w', e) = write w f in ((s, w'), false, e)
  timed_out s w (f, Action.failed) =
      ((record s { awaiting = false; seg = Segmenter.clear s.seg }, w), true, none)
  timed_out s w (f, Action.none) = ((record s { awaiting = false }, w), false, none)
  timed_out s w (f, Action.complete) = ((record s { awaiting = false }, w), false, none)

  unfoldable pub on_timeout : Stack → W → (Stack × W) × Bool × Option Error
  on_timeout s w =
      let (p, f, action) = Primary.on_timeout s.pri in
      if not s.awaiting
      then ((s, w), false, none)
      else timed_out (record s { pri = p }) w (f, action)

  -- What the primary's action on a reply leads to.
  unfoldable pub after_reply : Stack → W → Frame × Action → (Stack × W) × Option Error
  after_reply s w (next, Action.transmit) = let (w', e) = write w next in ((s, w'), e)
  after_reply s w (next, Action.complete) = pump (record s { awaiting = false }) w
  after_reply s w (next, Action.failed) =
      ((record s { awaiting = false; seg = Segmenter.clear s.seg }, w), none)
  after_reply s w (next, Action.none) = ((s, w), none)

  abbrev pub requested : Stack → W → Frame × Action → (Stack × W) × Option Error
  requested s w (f, Action.transmit) =
      let (w', e) = write w f in ((record s { awaiting = true }, w'), e)
  requested s w (f, Action.none) = ((s, w), none)
  requested s w (f, Action.complete) = ((s, w), none)
  requested s w (f, Action.failed) = ((s, w), none)

  unfoldable pub send_link_status_request : Stack → W → (Stack × W) × Option Error
  send_link_status_request s w =
      let ((p, f, action), e) = Primary.request_link_status s.pri in
      if s.awaiting then ((s, w), none) else elim e [
        | SendError.nil ↦ requested (record s { pri = p }) w (f, action)
        | SendError.payload_too_long n ↦
            ((record s { pri = p }, w), some (link_send (SendError.payload_too_long n)))
        | SendError.busy st ↦ ((record s { pri = p }, w), some (link_send (SendError.busy st)))
        | SendError.data_flow_control ↦
            ((record s { pri = p }, w), some (link_send SendError.data_flow_control))
      ]
