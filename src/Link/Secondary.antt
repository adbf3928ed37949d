-- ===== src/Link/Secondary.antt =====
-- internal/link/secondary.go: the receiving half of the link layer. A nil slice is `none` in the
-- result's `payload`; a decoded frame's payload is never nil.
pub mod Cases
pub mod Peer
mod Tests
use go_dnp.Common.{
  ℕ, ◌+◌, ◌<◌, Bool, true, false, not, ◌&&◌, ◌||◌, bool_ne, ltb, ◌==◌, if◌then◌else◌, Option, none,
  some, List, [], ◌∷◌, length,
}
use go_dnp.Link.Frame.{Control, Header, Frame, min_length}
use go_dnp.Link.Address.{is_broadcast}

abbrev pub func_reset_link_states : ℕ
func_reset_link_states = 0

abbrev pub func_test_link_states : ℕ
func_test_link_states = 2

abbrev pub func_confirmed_user_data : ℕ
func_confirmed_user_data = 3

abbrev pub func_unconfirmed_user_data : ℕ
func_unconfirmed_user_data = 4

abbrev pub func_request_link_status : ℕ
func_request_link_status = 9

abbrev pub func_ack : ℕ
func_ack = 0

abbrev pub func_nack : ℕ
func_nack = 1

abbrev pub func_link_status : ℕ
func_link_status = 11

abbrev pub func_not_supported : ℕ
func_not_supported = 15

pub record Secondary : Type 0 where
  pub local_addr : ℕ
  pub is_master : Bool
  pub is_reset : Bool
  pub expect_fcb : Bool

pub record SecResult : Type 0 where
  pub reply : Option Frame
  pub payload : Option (List ℕ)
  pub discarded : Bool

abbrev pub no_result : SecResult
no_result = record { reply = none; payload = none; discarded = false }

unfoldable pub valid_control : Control → Bool
valid_control c =
    if (c.func == func_test_link_states) || (c.func == func_confirmed_user_data)
    then c.fcv
    else if (c.func == func_reset_link_states)
        || (c.func == func_unconfirmed_user_data)
        || (c.func == func_request_link_status)
    then not c.fcv
    else true

unfoldable pub valid_length : Control → List ℕ → Bool
valid_length c payload =
    if (c.func == func_confirmed_user_data) || (c.func == func_unconfirmed_user_data)
    then ltb 0 (length payload)
    else if (c.func == func_reset_link_states)
        || (c.func == func_test_link_states)
        || (c.func == func_request_link_status)
    then length payload == 0
    else true

unfoldable pub reset : Secondary → Secondary
reset s = record s { is_reset = false; expect_fcb = false }

unfoldable pub reply : Secondary → ℕ → ℕ → Frame
reply s fn dest = record {
  header = record {
    control = record { dir = s.is_master; prm = false; fcb = false; fcv = false; func = fn };
    dest = dest;
    src = s.local_addr;
    len = min_length;
  };
  payload = [];
}

unfoldable pub on_broadcast : Frame → SecResult
on_broadcast f =
    let func = f.header.control.func in
    if (func == func_confirmed_user_data) || (func == func_unconfirmed_user_data)
    then record no_result { payload = some f.payload }
    else record no_result { discarded = true }

-- The switch on the function code of a frame for this station.
unfoldable pub on_addressed : Secondary → Frame → Secondary × SecResult
unfolding reply
on_addressed s f =
    let func = f.header.control.func in
    let fcb = f.header.control.fcb in
    let answer = λ (fn : ℕ). record no_result { reply = some (reply s fn f.header.src) } in
    if func == func_reset_link_states
    then (record s { is_reset = true; expect_fcb = true }, answer func_ack)
    else if func == func_test_link_states
    then (if not s.is_reset
        then (s, answer func_nack)
        else if bool_ne fcb s.expect_fcb
        then (s, answer func_nack)
        else (record s { expect_fcb = not s.expect_fcb }, answer func_ack))
    else if func == func_confirmed_user_data
    then (if not s.is_reset
        then (s, record (answer func_nack) { discarded = true })
        else if bool_ne fcb s.expect_fcb
        then (s, record (answer func_ack) { discarded = true })
        else (
          record s { expect_fcb = not s.expect_fcb },
          record (answer func_ack) { payload = some f.payload },
        ))
    else if func == func_unconfirmed_user_data
    then (s, record no_result { payload = some f.payload })
    else if func == func_request_link_status
    then (s, answer func_link_status)
    else (s, answer func_not_supported)

unfoldable pub on_frame : Secondary → Frame → Secondary × SecResult
unfolding valid_control valid_length on_broadcast is_broadcast
on_frame s f =
    let c = f.header.control in
    if not c.prm
    then (s, no_result)
    else if not (valid_control c) || not (valid_length c f.payload)
    then (s, record no_result { discarded = true })
    else if is_broadcast f.header.dest
    then (s, on_broadcast f)
    else on_addressed s f
