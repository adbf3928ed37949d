-- ===== src/Stack/Busy.antt =====
-- A stack waits for a confirmation exactly while its primary waits for a reply: what the primary's
-- events leave.
pub mod Sends
pub mod Receives
pub mod Loops
use go_dnp.Common.{
  ℕ, zero, suc, ◌+◌, Bool, true, false, not, bool_ne, ◌&&◌, ◌||◌, Bool-cases, ltb, leb, ◌==◌, ◌!=◌,
  if◌then◌else◌, Option, none, some, Option-cases, List, [], ◌∷◌, length, ok, err, ◌≡◌, ◌≢◌, ◌⊎◌,
  refl, sym, ap, ◌∙◌, inl, inr, arith,
}
use go_dnp.Link.Address.{self_address, is_valid_source}
use go_dnp.Link.Frame.{Frame, dfc}
use go_dnp.Link.Primary
use go_dnp.Link.Primary.{Primary, Action, SendError, is_busy}
use go_dnp.Link.Secondary
use go_dnp.Link.Secondary.{Secondary, SecResult}
use go_dnp.Transport.Segmenter
use go_dnp.Transport.Segmenter.{Segmenter, segments_for}
use go_dnp.Transport.Reassembler
use go_dnp.Stack.{Stack, busy, reset, Error, refused, in_flight, Writer, Received, addressed_to_us}
use go_dnp.Stack.Sending.{
  Pumped, more, stopped, is_failed, is_transmit, write, after_send, pump_round, pump_on, pump_loop,
  error_of, or_error, pump, send_to, timed_out, on_timeout, after_reply, requested,
  send_link_status_request,
}
use go_dnp.Stack.Receiving.{
  report, deliver, reply_out, unless_error, on_request, on_reply, on_frame, drain_loop, drain_next,
  drain_on, drain, receive_loop, receive,
}

abbrev pub Agrees : Stack → Type 0
Agrees s = s.awaiting ≡ is_busy s.pri

-- Between two exchanges.
abbrev pub Idles : Stack → Type 0
Idles s = s.awaiting ≡ false × is_busy s.pri ≡ false

pub idles : (s : Stack) → Agrees s → busy s ≡ false → Idles s
unfolding busy
idles s a b = (ground arith, ground arith)

-- What the primary answers, at the frame that it hands on.
abbrev pub Acts : Primary → Action → Type 0
Acts p a = (a ≡ Action.complete × is_busy p ≡ false) ⊎ (a ≡ Action.transmit × is_busy p ≡ true)

pub send-Acts :
    (p : Primary) (payload : List ℕ)
    → is_busy p ≡ false
    → (Primary.send p payload).1 ≡ SendError.nil
    → Acts (Primary.send p payload).0.0 (Primary.send p payload).0.2
unfolding Primary.send Primary.send_pending is_busy Primary.frame
send-Acts p payload b e = ground arith

-- A passed event of the primary and the state that it left.
abbrev pub Left : Bool → Primary × Frame × Action → Type 0
Left before r =
    (r.2 ≡ Action.none × is_busy r.0 ≡ before)
    ⊎ ((r.2 ≡ Action.transmit × is_busy r.0 ≡ true)
        ⊎ ((r.2 ≡ Action.complete × is_busy r.0 ≡ false)
            ⊎ (r.2 ≡ Action.failed × is_busy r.0 ≡ false)))

pub on_frame-Left : (p : Primary) (f : Frame) → Left (is_busy p) (Primary.on_frame p f)
unfolding Primary.on_frame Primary.on_reply Primary.on_link_reset_reply Primary.on_confirm_reply
    Primary.on_status_reply Primary.send_pending Primary.fail Primary.frame is_busy
on_frame-Left p f = ground arith

pub on_frame-idle :
    (p : Primary) (f : Frame) → is_busy p ≡ false → (Primary.on_frame p f).2 ≡ Action.none
unfolding Primary.on_frame Primary.on_reply Primary.on_link_reset_reply Primary.on_confirm_reply
    Primary.on_status_reply Primary.send_pending Primary.fail Primary.frame is_busy
on_frame-idle p f b = ground arith

abbrev pub Retries : Primary → Action → Type 0
Retries p a = (a ≡ Action.transmit × is_busy p ≡ true) ⊎ (a ≡ Action.failed × is_busy p ≡ false)

pub on_timeout-Retries :
    (p : Primary) → is_busy p ≡ true → Retries (Primary.on_timeout p).0 (Primary.on_timeout p).2
unfolding Primary.on_timeout Primary.fail is_busy
on_timeout-Retries p b = ground arith

pub request-Left :
    (p : Primary)
    → (Primary.request_link_status p).1 ≡ SendError.nil
    → ((Primary.request_link_status p).0.2 ≡ Action.transmit)
      × (is_busy (Primary.request_link_status p).0.0 ≡ true)
unfolding Primary.request_link_status Primary.frame is_busy
request-Left p e = ground arith
