-- ===== src/Stack/Busy/Sends.antt =====
-- What sending, a timeout and a status request keep.
use go_dnp.Common.{
  ℕ, zero, suc, ◌+◌, Bool, true, false, not, if◌then◌else◌, Option, none, some, List, [], ◌∷◌,
  length, ◌≡◌, ◌≢◌, refl, sym, ◌∙◌, inl, inr, arith,
}
use go_dnp.Link.Frame.{Frame}
use go_dnp.Link.Primary
use go_dnp.Link.Primary.{Primary, Action, SendError, is_busy}
use go_dnp.Transport.Segmenter
use go_dnp.Transport.Segmenter.{Segmenter, segments_for}
use go_dnp.Stack.{Stack, busy, Error, refused, in_flight, Writer}
use go_dnp.Stack.Sending.{
  Pumped, more, stopped, is_failed, is_transmit, write, after_send, pump_round, pump_on, pump_loop,
  error_of, or_error, pump, send_to, timed_out, on_timeout, after_reply, requested,
  send_link_status_request,
}
use go_dnp.Stack.Busy.{Agrees, Idles, idles, Acts, send-Acts, Left, Retries, on_timeout-Retries}

pub choose :
    {W : Type 0} (b : Bool) (x y : (Stack × W) × Option Error)
    → (x.1 ≡ none → Agrees x.0.0)
    → (b ≡ false → y.1 ≡ none → Agrees y.0.0)
    → (if b then x else y).1 ≡ none
    → Agrees (if b then x else y).0.0
choose true x y k l e = k e
choose false x y k l e = l refl e

module _ {W : Type 0} (out : Writer W) where
  -- After a pass of the loop: between exchanges if it goes on, in agreement if it ends well.
  abbrev Keeps : (Stack × W) × Pumped → Type 0
  Keeps (sw, more) = Idles sw.0
  Keeps (sw, stopped none) = Agrees sw.0
  Keeps (sw, stopped (some e)) = Unit {0}

  after_send-Keeps :
      (s : Stack) (w : W) (x : (Frame × Action) × SendError)
      → s.awaiting ≡ false
      → (x.1 ≡ SendError.nil → Acts s.pri x.0.1)
      → Keeps (after_send out s w x)
  unfolding after_send
  after_send-Keeps s w ((f, a), SendError.nil) i acts = told (write out w f).1 a (acts refl)
    where
      told :
          (e : Option Error) (a : Action)
          → Acts s.pri a
          → Keeps (
              if is_failed a then ((s, w), stopped (some refused)) else elim e [
                | some x ↦ ((s, (write out w f).0), stopped (some x))
                | none ↦
                    if is_transmit a
                    then ((record s { awaiting = true }, (write out w f).0), stopped none)
                    else ((s, (write out w f).0), more)
              ])
      told (some x) Action.transmit c = tt
      told none Action.transmit (inl c) = cc
      told none Action.transmit (inr c) = sym c.1
      told (some x) Action.complete c = tt
      told none Action.complete (inl c) = (i, c.1)
      told none Action.complete (inr c) = cc
      told e Action.failed c = tt
      told e Action.none (inl c) = cc
      told e Action.none (inr c) = cc
  after_send-Keeps s w (x, SendError.payload_too_long n) i acts = tt
  after_send-Keeps s w (x, SendError.busy st) i acts = tt
  after_send-Keeps s w (x, SendError.data_flow_control) i acts = tt

  pump_round-Keeps : (s : Stack) (w : W) → Idles s → Keeps (pump_round out s w)
  unfolding pump_round is_busy
  pump_round-Keeps s w i =
      let (seg, octets, emitted) = Segmenter.next s.seg [] in
      let r = Primary.send (record s.pri { remote_addr = s.dest }) octets in
      let s' = record s { seg = seg; pri = record r.0.0 { remote_addr = s.pri.remote_addr } } in
      pick (after_send out s' w ((r.0.1, r.0.2), r.1)) seg s.seg.live s.pri.flow_control emitted (
        after_send-Keeps s' w ((r.0.1, r.0.2), r.1) i.0
          (send-Acts (record s.pri { remote_addr = s.dest }) octets i.1))
    where
      pick :
          (x : (Stack × W) × Pumped) (seg : Segmenter) (live flow emitted : Bool)
          → Keeps x
          → Keeps (
              if not live
              then ((record s { awaiting = false }, w), stopped none)
              else if flow
              then ((s, w), stopped none)
              else if not emitted
              then ((record s { seg = seg; awaiting = false }, w), stopped none)
              else x)
      pick x seg false flow emitted k = sym i.1
      pick x seg true true emitted k = i.0 ∙ sym i.1
      pick x seg true false false k = sym i.1
      pick x seg true false true k = k

  pump_loop-Keeps : (fuel : ℕ) (s : Stack) (w : W) → Idles s → Keeps (pump_loop out fuel (s, w))
  unfolding pump_loop
  pump_loop-Keeps zero s w i = i
  pump_loop-Keeps (suc fuel) s w i =
      go_on (pump_round out s w) (pump_round-Keeps s w i) (pump_loop-Keeps fuel)
    where
      go_on :
          (r : (Stack × W) × Pumped)
          → Keeps r
          → ((s : Stack) (w : W) → Idles s → Keeps (pump_loop out fuel (s, w)))
          → Keeps (pump_on out (pump_loop out fuel) r)
      go_on ((s, w), more) k rest = rest s w k
      go_on ((s, w), stopped none) k rest = k
      go_on ((s, w), stopped (some e)) k rest = k

  pump-Agrees : (s : Stack) (w : W) → Idles s → (pump out s w).1 ≡ none → Agrees (pump out s w).0.0
  unfolding pump
  pump-Agrees s w i e =
      let fuel = segments_for (length s.seg.frag) + 2 in
      let run = pump_loop out fuel (s, out.begin w) in
      over run (out.finish run.0.1).1 (pump_loop-Keeps fuel s (out.begin w) i) e
    where
      over :
          (r : (Stack × W) × Pumped) (fine : Bool)
          → Keeps r
          → or_error out (error_of out r.1) fine ≡ none
          → Agrees r.0.0
      over ((s, w), more) fine k e = k.0 ∙ sym k.1
      over ((s, w), stopped none) fine k e = k
      over ((s, w), stopped (some x)) fine k e = cc

  pub send_to-Agrees :
      (s : Stack) (w : W) (dest : ℕ) (fragment : List ℕ)
      → Agrees s
      → (send_to out s w dest fragment).1 ≡ none
      → Agrees (send_to out s w dest fragment).0.0
  unfolding send_to
  send_to-Agrees s w dest [] a e = cc
  send_to-Agrees s w dest (b ∷ bs) a e =
      let s' = record s { dest = dest; seg = Segmenter.reset s.seg (b ∷ bs) } in
      choose {W = W} (busy s) ((s, w), some in_flight) (pump out s' w) (λ _. a)
        (λ c. pump-Agrees s' w ((idles s a c).0, (idles s a c).1)) e

  timed_out-Agrees :
      (s : Stack) (w : W) (f : Frame) (a : Action)
      → s.awaiting ≡ true
      → Retries s.pri a
      → Agrees (timed_out out s w (f, a)).0.0
  timed_out-Agrees s w f Action.transmit i (inl c) = i ∙ sym c.1
  timed_out-Agrees s w f Action.transmit i (inr c) = cc
  timed_out-Agrees s w f Action.failed i (inl c) = cc
  timed_out-Agrees s w f Action.failed i (inr c) = sym c.1
  timed_out-Agrees s w f Action.none i (inl c) = cc
  timed_out-Agrees s w f Action.none i (inr c) = cc
  timed_out-Agrees s w f Action.complete i (inl c) = cc
  timed_out-Agrees s w f Action.complete i (inr c) = cc

  pub on_timeout-Agrees : (s : Stack) (w : W) → Agrees s → Agrees (on_timeout out s w).0.0
  unfolding on_timeout
  on_timeout-Agrees s w a = split s.awaiting refl
    where
      r : Primary × Frame × Action
      r = Primary.on_timeout s.pri

      split :
          (b : Bool)
          → s.awaiting ≡ b
          → Agrees
              (if not b
                then ((s, w), false, none)
                else timed_out out (record s { pri = r.0 }) w (r.1, r.2)).0.0
      split false e = a
      split true e =
          timed_out-Agrees (record s { pri = r.0 }) w r.1 r.2 e
            (on_timeout-Retries s.pri (sym a ∙ e))

  pub after_reply-Agrees :
      (s : Stack) (w : W) (f : Frame) (a : Action) (before : Bool)
      → s.awaiting ≡ before
      → Left before (s.pri, f, a)
      → (before ≡ false → a ≡ Action.none)
      → (after_reply out s w (f, a)).1 ≡ none
      → Agrees (after_reply out s w (f, a)).0.0
  unfolding after_reply
  after_reply-Agrees s w f Action.none before i l idle e = i ∙ sym (left_none l)
    where
      left_none : Left before (s.pri, f, Action.none) → is_busy s.pri ≡ before
      left_none l = ground arith
  after_reply-Agrees s w f Action.transmit true i l idle e = i ∙ sym (left_transmit l)
    where
      left_transmit : Left true (s.pri, f, Action.transmit) → is_busy s.pri ≡ true
      left_transmit l = ground arith
  after_reply-Agrees s w f Action.transmit false i l idle e = absurd (clash (idle refl))
    where
      clash : Action.transmit ≢ Action.none
      clash c = cc
  after_reply-Agrees s w f Action.complete before i l idle e =
      pump-Agrees (record s { awaiting = false }) w (refl, left_complete l) e
    where
      left_complete : Left before (s.pri, f, Action.complete) → is_busy s.pri ≡ false
      left_complete l = ground arith
  after_reply-Agrees s w f Action.failed before i l idle e = sym (left_failed l)
    where
      left_failed : Left before (s.pri, f, Action.failed) → is_busy s.pri ≡ false
      left_failed l = ground arith

  requested-Agrees :
      (s : Stack) (w : W) (f : Frame)
      → is_busy s.pri ≡ true
      → Agrees (requested out s w (f, Action.transmit)).0.0
  requested-Agrees s w f b = sym b

  pub send_link_status_request-Agrees :
      (s : Stack) (w : W)
      → Agrees s
      → (send_link_status_request out s w).1 ≡ none
      → Agrees (send_link_status_request out s w).0.0
  unfolding send_link_status_request Primary.request_link_status is_busy Primary.frame
  send_link_status_request-Agrees s w a e = ground (arith, a, e)
