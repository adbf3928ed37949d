-- ===== src/Outstation/Solicited/Tests.antt =====
-- An outstation whose response awaits its confirmation when requests come.
use go_dnp.Common.{
  ℕ, ◌+◌, true, false, none, List, [], ◌∷◌, length, ◌≡◌, ◌⊎◌, ◌↔◌, refl, inr, arith,
}
use go_dnp.App.FuncCode.{is_response, no_reply, requires_objects}
use go_dnp.App.Fragment.{Fragment, failed}
use go_dnp.Stack.{Received}
use go_dnp.App.Errors.{unknown_object}
use go_dnp.App.Header.{parse_header, parse_control}
use go_dnp.Outstation.Command.{bytes_equal}
use go_dnp.Outstation.EventBuffer
use go_dnp.Outstation.EventBuffer.{Event}
use go_dnp.Outstation.EventBuffer.Capacity.{Accounted, Increasing}
use go_dnp.Outstation.Unsolicited.{Reporter}
use go_dnp.Outstation.Solicited.{
  Session, finish_response, abandon_response, on_confirm, advance_response, send_fragments, respond,
}
use go_dnp.Outstation.Solicited.Requests.{
  Handlers, silent, answers, is_repeat_request, set_iin, handles_func, reject_malformed, on_request,
  all_consistent, act_on, begin_request, remember_request, dispatch, replay_response,
}
use go_dnp.Outstation.Solicited.Pacing.{IsSound}
use go_dnp.Outstation.Solicited.Pacing.Handling.{Keeps, on_request-IsSound}
use go_dnp.Outstation.Solicited.Pacing.Repeating.{is_turned_away}
use go_dnp.Outstation.Solicited.Pacing.Confirming.{
  removed_by, on_confirm-IsSound, on_request-repeat,
}
use go_dnp.Outstation.Solicited.Series.{Notes, recorder, series, exchange, confirms_last, Done}
use go_dnp.Outstation.Solicited.Series.Exchange.{exchange-Done}
use go_dnp.Outstation.Solicited.Samples.{device, session}

-- Both fragments were sent, and the last awaits its confirmation.
abbrev waiting : Session ℕ ℕ Notes
waiting = record session { awaiting_confirm = true; confirm_seq = 4; pending_index = 2 }

device-Accounted : Accounted device.events 0
unfolding Increasing
device-Accounted = record {
  room = omega arith;
  bounded = omega arith;
  ordered = (omega arith, (omega arith, omega arith));
  accounted = refl;
}

waiting-IsSound : IsSound 0 waiting
waiting-IsSound = record {
  paced = record { bounded = omega arith; waits = inr (inr refl) };
  events = device-Accounted;
}

-- Handlers that answer with an empty response, and others that count the requests outside.
abbrev quiet : Handlers ℕ ℕ (Unit {0})
quiet = record {
  act = λ d now r f. (d, answers ([] ∷ []) false);
  freeze = λ d f clearing. d;
  freeze_at_time = λ d f. d;
  tick = λ d now. d;
}

abbrev counting : Handlers ℕ ℕ (Unit {0})
counting = record quiet { act = λ d now r f. (record d { outside = d.outside + 1 }, silent) }

abbrev reporter : Reporter Notes ℕ (Unit {0})
reporter = record {
  fits = λ es. true;
  build = λ es. ([], []);
  indications = λ b. 0;
  send = λ w octets. (w, none);
}

abbrev request : ℕ → Fragment
request seq = record {
  header = record {
    control = record { fir = true; fin = true; con = false; uns = false; seq = seq };
    func = 1;
    iin = 0;
  };
  objects = [];
  raw = [];
}

abbrev received : List ℕ → Received
received octets = record { fragment = octets; source = 1; dest = 4; broadcast = false }

quiet-Keeps : Keeps recorder 0 quiet
quiet-Keeps = record {
  act = λ d now r f k v. v;
  freeze = λ d f clearing v. v;
  freeze_at_time = λ d f v. v;
}

on_request-IsSound_example :
    IsSound 0
      (on_request recorder quiet reporter waiting (received (0xc5 ∷ 1 ∷ [])) (request 5) 100).0
on_request-IsSound_example =
    on_request-IsSound recorder 0 quiet reporter quiet-Keeps waiting (received (0xc5 ∷ 1 ∷ []))
      (request 5) 100 refl refl waiting-IsSound

on_confirm-IsSound_example : IsSound (0 + removed_by waiting 4) (on_confirm waiting 4)
on_confirm-IsSound_example = on_confirm-IsSound 0 waiting 4 waiting-IsSound

-- A delay measurement, which reaches the handler.
abbrev measurement : Fragment
measurement = record (request 5) { header = record (request 5).header { func = 23 } }

-- It comes, is acted on, and comes again when other handlers would count it again. A request from another
-- source is not its repeat.
on_request-repeat_example :
    (let r = received (0xc5 ∷ 23 ∷ []) in
      let r' = record (received (0xc5 ∷ 23 ∷ [])) { source = 2 } in
      let q = (on_request recorder counting reporter waiting r measurement 100).0 in
      (on_request recorder counting reporter q r measurement 200
        ≡ on_request recorder quiet reporter q r measurement 200)
      × (is_turned_away measurement ≡ true
          ⊎ ((is_repeat_request q r' 5 ≡ true) ↔ (
              (2 ≡ r.source) × (5 ≡ measurement.header.control.seq) × (r'.fragment ≡ r.fragment)))))
on_request-repeat_example =
    on_request-repeat recorder reporter (received (0xc5 ∷ 23 ∷ [])) measurement counting quiet
      waiting 100 200 (record (received (0xc5 ∷ 23 ∷ [])) { source = 2 }) 5 refl

-- It was counted once.
counted_run :
    (let r = received (0xc5 ∷ 23 ∷ []) in
      let q = (on_request recorder counting reporter waiting r measurement 100).0 in
      (on_request recorder counting reporter q r measurement 200).0.dev.outside)
    ≡ 1
unfolding on_request all_consistent is_repeat_request act_on begin_request remember_request
    abandon_response dispatch requires_objects handles_func replay_response bytes_equal
    EventBuffer.unselect set_iin
counted_run = refl

-- The second fragment, the last, has gone out and is not confirmed: the events are as before.
exchange-Done_example :
    Done session
      (exchange 2 session 100)
      (series 3 (confirms_last session) 0 ((1 ∷ []) ∷ (2 ∷ []) ∷ []))
    × ((advance_response recorder (exchange 1 session 100) 100).0.dev.events ≡ session.dev.events)
exchange-Done_example = exchange-Done ((2 ∷ []) ∷ []) session (1 ∷ []) 100 1 refl refl (omega arith)

-- A malformed request, with an object of an unknown kind, while the confirmation is awaited: the null response
-- takes the place of the one that carries the events, and the confirmation of that no longer removes them.
rejected_run :
    length
      (on_confirm
        (reject_malformed recorder waiting
          (received (0xc5 ∷ 1 ∷ []))
          (failed (unknown_object 200 1))
          100).0
        4).dev.events.events
    ≡ 2
unfolding reject_malformed parse_header on_confirm respond send_fragments advance_response set_iin
    handles_func is_response no_reply parse_control
rejected_run = refl

confirmed_run : length (on_confirm waiting 4).dev.events.events ≡ 0
unfolding on_confirm finish_response EventBuffer.confirm EventBuffer.keep_where_not
confirmed_run = refl
