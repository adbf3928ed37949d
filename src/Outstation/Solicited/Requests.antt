-- ===== src/Outstation/Solicited/Requests.antt =====
-- How the outstation dispatches a request, outstation/session.go: handle and what it calls, with the events of
-- `serve`. Secure authentication is off; the request handlers are arguments, as is the sizer of objects.
use go_dnp.Common.{
  ℕ, Bool, true, false, not, ◌&&◌, ◌||◌, ltb, ◌==◌, ◌!=◌, if◌then◌else◌, Option, none, some, List,
  [], ◌∷◌, length, Result, ok, err,
}
use go_dnp.App.Errors.{Error, bad_qualifier, unknown_object}
use go_dnp.App.FuncCode.{
  func_confirm, func_read, func_write, func_immed_freeze, func_immed_freeze_nr, func_freeze_clear,
  func_freeze_clear_nr, func_freeze_at_time, func_freeze_at_time_nr, func_select, func_auth_request,
  func_auth_request_no_ack, func_delay_measure, func_abort_file, func_activate_config, no_reply,
  requires_objects, is_one_of, func_operate, func_direct_operate, func_direct_operate_nr,
  func_cold_restart, func_warm_restart, func_initialize_data, func_initialize_appl, func_start_appl,
  func_stop_appl, func_save_config, func_enable_unsolicited, func_disable_unsolicited,
  func_assign_class, func_record_current_time, func_open_file, func_close_file, func_delete_file,
  func_get_file_info, func_authenticate_file,
}
use go_dnp.App.Iin
use go_dnp.App.Iin.{
  iin_broadcast, iin_no_func_code_support, iin_object_unknown, iin_parameter_error,
}
use go_dnp.App.Qualifier.{consistent}
use go_dnp.App.Object.{ObjectHeader}
use go_dnp.App.Header.{Header, is_response, parse_header}
use go_dnp.App.Fragment.{Fragment, Status, nil, failed, out_of_fuel}
use go_dnp.Link.Address.{broadcast_mandatory_confirm}
use go_dnp.Stack.{Received}
use go_dnp.Outstation.Command.{bytes_equal}
use go_dnp.Outstation.Unsolicited
use go_dnp.Outstation.Unsolicited.{Reporter, poll_unsolicited, on_unsolicited_confirm}
use go_dnp.Outstation.Solicited.{
  Device, Session, Line, abandon_response, on_confirm, send_fragments, respond,
}

-- What a handler answers: nothing, the bodies of a response and whether they carry events, or an error.
pub data Answer (R : Type 0) : Type 0 where
  silent : Answer R
  answers : (bodies : List (List ℕ)) (has_events : Bool) → Answer R
  fails : R → Answer R

-- The handlers: that of each function code that has one, the freezes, and what the tick does to the device.
pub record Handlers (D V R : Type 0) : Type 0 where
  pub act : Device D V → ℕ → Received → Fragment → Device D V × Answer R
  pub freeze : Device D V → Fragment → (clearing : Bool) → Device D V
  pub freeze_at_time : Device D V → Fragment → Device D V
  pub tick : Device D V → ℕ → Device D V

abbrev handled : List ℕ
handled =
    func_confirm ∷ func_read ∷ func_write ∷ func_delay_measure ∷ func_auth_request
    ∷ func_auth_request_no_ack ∷ func_authenticate_file ∷ func_initialize_data
    ∷ func_initialize_appl ∷ func_start_appl ∷ func_stop_appl ∷ func_save_config
    ∷ func_activate_config ∷ func_record_current_time ∷ func_open_file ∷ func_close_file
    ∷ func_delete_file ∷ func_get_file_info ∷ func_abort_file ∷ func_cold_restart
    ∷ func_warm_restart ∷ func_enable_unsolicited ∷ func_disable_unsolicited ∷ func_assign_class
    ∷ func_select ∷ func_operate ∷ func_direct_operate ∷ func_direct_operate_nr ∷ func_immed_freeze
    ∷ func_immed_freeze_nr ∷ func_freeze_clear ∷ func_freeze_clear_nr ∷ func_freeze_at_time
    ∷ func_freeze_at_time_nr ∷ []

unfoldable pub handles_func : ℕ → Bool
handles_func f = is_one_of f handled

unfoldable pub all_consistent : List ObjectHeader → Bool
all_consistent [] = true
all_consistent (h ∷ hs) = consistent h.qualifier && all_consistent hs

abbrev is_held : Option Received → Bool
is_held none = false
is_held (some r) = true

abbrev pub is_unknown_object : Status → Bool
is_unknown_object nil = false
is_unknown_object (failed (unknown_object g v)) = true
is_unknown_object (failed e) = false
is_unknown_object out_of_fuel = false

module _ {D V W : Type 0} where
  unfoldable pub set_iin : Session D V W → ℕ → Session D V W
  set_iin s mask = record s { dev = record s.dev { iin = Iin.set s.dev.iin mask } }

  unfoldable pub is_repeat_request : Session D V W → Received → ℕ → Bool
  is_repeat_request s r seq =
      s.last.valid
      && (r.source == s.last.source)
      && (seq == s.last.seq)
      && bytes_equal r.fragment s.last.frag

  unfoldable pub remember_request : Session D V W → Received → ℕ → Session D V W
  remember_request s r seq = record s {
    last = record {
      valid = true;
      source = r.source;
      seq = seq;
      frag = r.fragment;
      bodies = [];
      events = false;
      errors = 0;
    };
  }

  abbrev deferred : Session D V W → Received → Result Error (Header × ℕ) → Session D V W × Bool
  deferred s r (err e) = (s, false)
  deferred s r (ok (h, n)) =
      if is_response h || (h.func == func_confirm)
      then (s, false)
      else if h.func != func_read
      then (record s { deferred_read = none }, false)
      else (record s { deferred_read = some r }, true)

  -- Whether a read is held back while an unsolicited response awaits its confirmation.
  unfoldable pub defer_read : Session D V W → Received → Session D V W × Bool
  defer_read s r =
      if not s.unsol.awaiting || r.broadcast
      then (s, false)
      else deferred s r (parse_header r.fragment)

  -- The part of the session that unsolicited reporting works on, and what becomes of it.
  abbrev pub reporting : Session D V W → Unsolicited.Session V
  reporting s = record {
    cfg = s.unsol_cfg;
    unsol = s.unsol;
    events = s.dev.events;
    classes = s.dev.unsol_classes;
    connected = s.connected;
    responding = ltb 0 (length s.pending_bodies);
    deferred = is_held s.deferred_read;
  }

  abbrev pub reported : Session D V W → Unsolicited.Session V → Session D V W
  reported s q = record s { unsol = q.unsol; dev = record s.dev { events = q.events } }

module _ {D V W R : Type 0} (line : Line R W) where
  unfoldable pub replay_response : Session D V W → Received → ℕ → ℕ → Session D V W × Option R
  unfolding set_iin
  replay_response s r seq now =
      let q = record s {
        awaiting_confirm = false;
        pending_bodies = [];
        pending_index = 0;
        dev = record s.dev { iin = Iin.set s.dev.iin s.last.errors };
      } in
      let sent = send_fragments line q r seq s.last.bodies s.last.events now in
      if r.broadcast || (length s.last.bodies == 0) then (s, none) else sent

  -- A null response, if the request takes one.
  unfoldable pub answer_null : Session D V W → Received → Header → ℕ → Session D V W × Option R
  answer_null s r h now =
      let sent = respond line s r h.control.seq [] now in
      if no_reply h.func || r.broadcast then (s, none) else sent

  abbrev pub rejected :
      Session D V W → Received → Status → ℕ → Result Error (Header × ℕ) → Session D V W × Option R
  rejected s r e now (err x) = (set_iin s iin_parameter_error, none)
  rejected s r e now (ok (h, n)) =
      let indicated =
        if not (handles_func h.func)
        then set_iin s iin_no_func_code_support
        else if is_unknown_object e
        then set_iin s iin_object_unknown
        else set_iin s iin_parameter_error in
      let sent = respond line indicated r h.control.seq [] now in
      if is_response h
      then (set_iin s iin_parameter_error, none)
      else if (h.func == func_confirm)
          || no_reply h.func
          || r.broadcast
          || not h.control.fir
          || not h.control.fin
      then (indicated, none)
      else sent

  unfoldable pub reject_malformed : Session D V W → Received → Status → ℕ → Session D V W × Option R
  reject_malformed s r e now = rejected s r e now (parse_header r.fragment)

  -- An authentication request, authentication being off.
  unfoldable pub on_authentication :
      Session D V W → Received → Header → ℕ → Session D V W × Option R
  on_authentication s r h now =
      let q = set_iin s iin_no_func_code_support in
      let sent = respond line q r h.control.seq [] now in
      if no_reply h.func then (q, none) else sent

  abbrev pub answered :
      Session D V W → Received → ℕ → ℕ → Device D V × Answer R → Session D V W × Option R
  answered s r seq now (dev, silent) = (record s { dev = dev }, none)
  answered s r seq now (dev, answers bodies has_events) =
      send_fragments line (record s { dev = dev }) r seq bodies has_events now
  answered s r seq now (dev, fails e) = (record s { dev = dev }, some e)

  module _ (acts : Handlers D V R) (out : Reporter W V R) where
    abbrev pub confirmed : Session D V W → Header → Session D V W
    confirmed s h =
        if h.control.uns
        then reported s (on_unsolicited_confirm out (reporting s) h.control.seq)
        else on_confirm s h.control.seq

    -- The switch of `handle`.
    unfoldable pub dispatch : Session D V W → Received → Fragment → ℕ → Session D V W × Option R
    dispatch s r frag now =
        let h = frag.header in
        let clearing = (h.func == func_freeze_clear) || (h.func == func_freeze_clear_nr) in
        let frozen = answer_null (record s { dev = acts.freeze s.dev frag clearing }) r h now in
        let later = answer_null (record s { dev = acts.freeze_at_time s.dev frag }) r h now in
        let unknown = set_iin s iin_no_func_code_support in
        let refused = respond line unknown r h.control.seq [] now in
        let done = answered s r h.control.seq now (acts.act s.dev now r frag) in
        if h.func == func_confirm
        then (confirmed s h, none)
        else if (h.func == func_immed_freeze) || (h.func == func_immed_freeze_nr) || clearing
        then frozen
        else if (h.func == func_freeze_at_time) || (h.func == func_freeze_at_time_nr)
        then later
        else if handles_func h.func
        then done
        else if r.broadcast
        then (unknown, none)
        else refused

    -- A request that is new: the old response is abandoned, and a broadcast is noted.
    unfoldable pub begin_request : Session D V W → Received → Fragment → Session D V W
    begin_request s r frag =
        let q =
          if frag.header.func == func_confirm
          then s
          else abandon_response (remember_request s r frag.header.control.seq) in
        let noted = set_iin q iin_broadcast in
        if r.broadcast
        then record noted { broadcast_confirm = r.dest == broadcast_mandatory_confirm }
        else q

    unfoldable pub act_on : Session D V W → Received → Fragment → ℕ → Session D V W × Option R
    act_on s r frag now =
        let q = begin_request s r frag in
        let empty = answer_null (set_iin q iin_parameter_error) r frag.header now in
        let done = dispatch q r frag now in
        if requires_objects frag.header.func && (length frag.objects == 0) then empty else done

    -- A request that could be parsed.
    unfoldable pub on_request : Session D V W → Received → Fragment → ℕ → Session D V W × Option R
    on_request s r frag now =
        let h = frag.header in
        let inconsistent = reject_malformed s r (failed (bad_qualifier 0)) now in
        let authentication = on_authentication s r h now in
        let replayed = replay_response s r h.control.seq now in
        let fresh = act_on s r frag now in
        if not h.control.fir || not h.control.fin
        then (set_iin s iin_parameter_error, none)
        else if (h.func == func_confirm) && ltb 0 (length frag.objects)
        then (s, none)
        else if (h.func != func_confirm) && (h.control.con || h.control.uns)
        then (s, none)
        else if not (all_consistent frag.objects)
        then inconsistent
        else if (h.func == func_auth_request) || (h.func == func_auth_request_no_ack)
        then authentication
        else if (h.func != func_confirm) && is_repeat_request s r h.control.seq
        then replayed
        else fresh
