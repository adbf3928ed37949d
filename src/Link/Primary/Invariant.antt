-- ===== src/Link/Primary/Invariant.antt =====
-- What holds of the primary between events.
use go_dnp.Common.{ℕ, ◌≤◌, true, false, List, length, ◌≡◌, arith}
use go_dnp.Link.Frame.{Frame}
use go_dnp.Link.Secondary.{
  func_reset_link_states, func_confirmed_user_data, func_request_link_status,
}
use go_dnp.Link.Primary.{
  Primary, idle, wait_link_reset, wait_confirm, wait_status, reset, send, request_link_status,
  on_frame, on_timeout,
}

-- The frame that a retransmission repeats belongs to the exchange in progress, and the frame count
-- bit on it is the one that the next acknowledgement will toggle.
pub record Inv (p : Primary) : Type 0 where
  pub rested : p.state ≡ idle → p.retries ≡ 0
  pub bounded : p.retries ≤ p.max_retries
  pub queued : length p.pending ≤ 250
  pub resetting :
      p.state ≡ wait_link_reset
      → (p.link_up ≡ false) × (p.last_sent.header.control.func ≡ func_reset_link_states)
  pub confirming :
      p.state ≡ wait_confirm
      → (p.link_up ≡ true)
        × (p.last_sent.header.control.func ≡ func_confirmed_user_data)
        × (p.last_sent.header.control.fcb ≡ p.fcb)
        × (p.last_sent.header.control.fcv ≡ true)
        × (p.last_sent.payload ≡ p.pending)
  pub polling : p.state ≡ wait_status → p.last_sent.header.control.func ≡ func_request_link_status

pub data Event : Type 0 where
  resets : Event
  sends : List ℕ → Event
  polls : Event
  receives : Frame → Event
  times_out : Event

pub step : Primary → Event → Primary
step p resets = reset p
step p (sends payload) = (send p payload).0.0
step p polls = (request_link_status p).0.0
step p (receives f) = (on_frame p f).0
step p times_out = (on_timeout p).0

-- Every event keeps the invariant: a reset, a send, a status request, a received frame, a timeout.
pub step-Inv : (p : Primary) (e : Event) → Inv p → Inv (step p e)
unfolding step reset send request_link_status on_frame on_timeout
step-Inv p resets v = record {
  rested = ground arith;
  bounded = ground arith;
  queued = ground arith;
  resetting = ground arith;
  confirming = ground arith;
  polling = ground arith;
}
step-Inv p (sends payload) v = ground arith
step-Inv p polls v = ground arith
step-Inv p (receives f) v = ground arith
step-Inv p times_out v = ground arith
