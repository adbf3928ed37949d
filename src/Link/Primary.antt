-- ===== src/Link/Primary.antt =====
-- internal/link/primary.go: the transmitting half of the link layer. Nil payloads are empty ones,
-- as `pending` is only read where a payload was queued.
pub mod Invariant
pub mod Cases
pub mod Retries
mod Tests
use go_dnp.Common.{
  ℕ, zero, suc, ◌+◌, ◌%◌, Bool, true, false, not, ◌||◌, ltb, leb, ◌==◌, if◌then◌else◌, List, [],
  ◌∷◌, length,
}
use go_dnp.Link.Frame.{Control, Header, Frame, min_length, max_payload, dfc}
use go_dnp.Link.Secondary.{
  func_reset_link_states, func_confirmed_user_data, func_unconfirmed_user_data,
  func_request_link_status, func_ack, func_nack, func_link_status, func_not_supported,
}

pub data Action : Type 0 where
  none transmit complete failed : Action

pub data PriState : Type 0 where
  idle wait_link_reset wait_confirm wait_status : PriState

pub data SendError : Type 0 where
  nil : SendError
  payload_too_long : (octets : ℕ) → SendError
  busy : PriState → SendError
  data_flow_control : SendError

pub record Primary : Type 0 where
  pub local_addr : ℕ
  pub remote_addr : ℕ
  pub is_master : Bool
  pub use_confirms : Bool
  pub max_retries : ℕ
  pub state : PriState
  pub link_up : Bool
  pub fcb : Bool
  pub retries : ℕ
  pub pending : List ℕ
  pub last_sent : Frame
  pub flow_control : Bool

-- The frame that stands beside an action which sends none, `Frame{}`.
abbrev pub no_frame : Frame
no_frame = record {
  header = record {
    control = record { dir = false; prm = false; fcb = false; fcv = false; func = 0 };
    dest = 0;
    src = 0;
    len = 0;
  };
  payload = [];
}

-- What an event returns, behind the new state.
abbrev pub Reaction : Type 0
Reaction = Primary × Frame × Action

abbrev pub is_idle : PriState → Bool
is_idle idle = true
is_idle wait_link_reset = false
is_idle wait_confirm = false
is_idle wait_status = false

unfoldable pub is_busy : Primary → Bool
is_busy p = not (is_idle p.state)

unfoldable pub reset : Primary → Primary
reset p = record p {
  state = idle;
  link_up = false;
  fcb = false;
  retries = 0;
  pending = [];
  flow_control = false;
}

unfoldable pub frame : Primary → ℕ → Bool → Bool → List ℕ → Frame
frame p fn fcb fcv payload = record {
  header = record {
    control = record { dir = p.is_master; prm = true; fcb = fcb; fcv = fcv; func = fn };
    dest = p.remote_addr;
    src = p.local_addr;
    len = (min_length + length payload) % 256;
  };
  payload = payload;
}

-- `f := p.frame(…); p.lastSent = f`, and what is returned with it.
abbrev emit : Primary → Frame → Action → Reaction
emit p f action = (record p { last_sent = f }, f, action)

unfoldable pub send_pending : Primary → Reaction
unfolding frame
send_pending p =
    let q = record p { state = wait_confirm } in
    emit q (frame q func_confirmed_user_data q.fcb true q.pending) transmit

unfoldable pub fail : Primary → Reaction
fail p = (
  record p { state = idle; link_up = false; flow_control = false; pending = []; retries = 0 },
  no_frame,
  failed,
)

unfoldable pub send : Primary → List ℕ → Reaction × SendError
unfolding is_busy frame send_pending
send p payload =
    if ltb max_payload (length payload)
    then ((p, no_frame, failed), payload_too_long (length payload))
    else if is_busy p
    then ((p, no_frame, failed), busy p.state)
    else if p.flow_control
    then ((p, no_frame, failed), data_flow_control)
    else (let q = record p { retries = 0 } in
        let r = record q { pending = payload } in
        if not q.use_confirms
        then (emit q (frame q func_unconfirmed_user_data false false payload) complete, nil)
        else if not r.link_up
        then (
          emit (record r { state = wait_link_reset })
              (frame r func_reset_link_states false false []) transmit,
          nil,
        )
        else (send_pending r, nil))

unfoldable pub request_link_status : Primary → Reaction × SendError
unfolding is_busy frame
request_link_status p =
    if is_busy p
    then ((p, no_frame, none), busy p.state)
    else (let q = record p { state = wait_status; retries = 0 } in
        (emit q (frame q func_request_link_status false false []) transmit, nil))

-- The three cases of the switch on the state, each a switch on the reply's function code.
unfoldable pub on_link_reset_reply : Primary → ℕ → Reaction
unfolding send_pending fail
on_link_reset_reply p func =
    if func == func_ack
    then send_pending (record p { link_up = true; fcb = true; retries = 0 })
    else if (func == func_nack) || (func == func_not_supported)
    then fail p
    else (p, no_frame, none)

unfoldable pub on_confirm_reply : Primary → ℕ → Reaction
unfolding frame fail
on_confirm_reply p func =
    if func == func_ack
    then (record p { fcb = not p.fcb; state = idle; pending = []; retries = 0 }, no_frame, complete)
    else if func == func_nack
    then (let q = record p { link_up = false; state = wait_link_reset; retries = 0 } in
        emit q (frame q func_reset_link_states false false []) transmit)
    else if func == func_not_supported
    then fail p
    else (p, no_frame, none)

unfoldable pub on_status_reply : Primary → ℕ → Reaction
unfolding fail
on_status_reply p func =
    if (func == func_link_status) || (func == func_ack)
    then (record p { state = idle; retries = 0 }, no_frame, complete)
    else if (func == func_nack) || (func == func_not_supported)
    then fail p
    else (p, no_frame, none)

unfoldable pub on_reply : PriState → Primary → ℕ → Reaction
unfolding on_link_reset_reply on_confirm_reply on_status_reply
on_reply idle p func = (p, no_frame, none)
on_reply wait_link_reset p func = on_link_reset_reply p func
on_reply wait_confirm p func = on_confirm_reply p func
on_reply wait_status p func = on_status_reply p func

unfoldable pub on_frame : Primary → Frame → Reaction
unfolding on_reply dfc
on_frame p f =
    let c = f.header.control in
    let q = if is_idle p.state then p else record p { flow_control = dfc c } in
    if c.prm
    then (p, no_frame, none)
    else if ltb 0 (length f.payload)
    then (p, no_frame, none)
    else on_reply q.state q c.func

unfoldable pub on_timeout : Primary → Reaction
unfolding fail
on_timeout p =
    if is_idle p.state
    then (p, no_frame, none)
    else if leb p.max_retries p.retries
    then fail p
    else (record p { retries = p.retries + 1 }, p.last_sent, transmit)
