-- ===== src/Link/Primary/Cases.antt =====
-- The primary's handlers at each event of a confirmed exchange.
use go_dnp.Common.{ℕ, ◌+◌, ◌≤◌, ◌<◌, Bool, true, false, not, List, [], length, ◌≡◌, ◌≢◌, arith}
use go_dnp.Link.Frame.{Frame}
use go_dnp.Link.Primary.{
  Primary, idle, wait_link_reset, wait_confirm, Action, send, on_frame, on_timeout, frame, no_frame,
}
use go_dnp.Link.Secondary.{
  reply, Secondary, func_ack, func_reset_link_states, func_confirmed_user_data,
}

abbrev pub data_frame : Primary → Bool → List ℕ → Frame
data_frame p fcb payload = frame p func_confirmed_user_data fcb true payload

abbrev pub reset_frame : Primary → Frame
reset_frame p = frame p func_reset_link_states false false []

module _ (p : Primary) where
  module _ (payload : List ℕ) (i : p.state ≡ idle) (free : p.flow_control ≡ false)
      (fits : length payload ≤ 250) (confirms : p.use_confirms ≡ true) where
    pub send-linked :
        p.link_up ≡ true
        → (send p payload).0 ≡ (
          record p {
            retries = 0;
            pending = payload;
            state = wait_confirm;
            last_sent = data_frame p p.fcb payload;
          },
          data_frame p p.fcb payload,
          Action.transmit,
        )
    unfolding send
    send-linked up = ground arith

    pub send-unlinked :
        p.link_up ≡ false
        → (send p payload).0 ≡ (
          record p {
            retries = 0;
            pending = payload;
            state = wait_link_reset;
            last_sent = reset_frame p;
          },
          reset_frame p,
          Action.transmit,
        )
    unfolding send
    send-unlinked down = ground arith

  -- An acknowledgement with DFC clear, as every secondary here sends it.
  pub on_frame-reset_ack :
      (s : Secondary) (dest : ℕ)
      → p.state ≡ wait_link_reset
      → on_frame p (reply s func_ack dest) ≡ (
        record p {
          flow_control = false;
          link_up = true;
          fcb = true;
          retries = 0;
          state = wait_confirm;
          last_sent = data_frame p true p.pending;
        },
        data_frame p true p.pending,
        Action.transmit,
      )
  unfolding on_frame reply
  on_frame-reset_ack s dest e = ground arith

  pub on_frame-data_ack :
      (s : Secondary) (dest : ℕ)
      → p.state ≡ wait_confirm
      → on_frame p (reply s func_ack dest) ≡ (
        record p { flow_control = false; fcb = not p.fcb; state = idle; pending = []; retries = 0 },
        no_frame,
        Action.complete,
      )
  unfolding on_frame reply
  on_frame-data_ack s dest e = ground arith

  pub on_timeout_again :
      p.state ≢ idle
      → p.retries < p.max_retries
      → on_timeout p ≡ (record p { retries = p.retries + 1 }, p.last_sent, Action.transmit)
  unfolding on_timeout
  on_timeout_again e h = ground arith

  pub on_timeout_last :
      p.state ≢ idle
      → p.max_retries ≤ p.retries
      → on_timeout p ≡ (
        record p { state = idle; link_up = false; flow_control = false; pending = []; retries = 0 },
        no_frame,
        Action.failed,
      )
  unfolding on_timeout
  on_timeout_last e h = ground arith

  pub on_timeout_idle : p.state ≡ idle → on_timeout p ≡ (p, no_frame, Action.none)
  unfolding on_timeout
  on_timeout_idle e = ground arith
