-- ===== src/Outstation/Solicited/Pacing/Handling.antt =====
-- No request removes an event: only a confirmation does.
use go_dnp.Common.{
  ℕ, Bool, true, false, not, ◌&&◌, ◌||◌, ltb, ◌==◌, ◌!=◌, if◌then◌else◌, Option, none, List, [],
  ◌∷◌, length, Result, ok, err, ◌≡◌, refl, arith,
}
use go_dnp.App.Errors.{Error, bad_qualifier}
use go_dnp.App.FuncCode.{
  func_confirm, func_cold_restart, func_auth_request, func_auth_request_no_ack, no_reply,
}
use go_dnp.App.Header.{Header, is_response, parse_header}
use go_dnp.App.Fragment.{Fragment, Status, failed}
use go_dnp.App.Iin.{
  iin_broadcast, iin_no_func_code_support, iin_object_unknown, iin_parameter_error,
}
use go_dnp.Link.Address.{broadcast_mandatory_confirm}
use go_dnp.Stack.{Received}
use go_dnp.Outstation.EventBuffer.Capacity.{Accounted}
use go_dnp.Outstation.Unsolicited.{Reporter}
use go_dnp.Outstation.Solicited.{Device, Session, Line, abandon_response, respond}
use go_dnp.Outstation.Solicited.Requests.{
  Answer, silent, answers, fails, Handlers, set_iin, handles_func, all_consistent,
  is_repeat_request, is_unknown_object, remember_request, replay_response, answer_null, rejected,
  reject_malformed, on_authentication, answered, dispatch, begin_request, act_on, on_request,
}
use go_dnp.Outstation.Solicited.Pacing.{
  IsSound, begun-IsSound, pick-IsSound, abandon-IsSound, send_fragments-IsSound,
}

module _ {D V W : Type 0} (gone : ℕ) where
  set_iin-IsSound : (s : Session D V W) (mask : ℕ) → IsSound gone s → IsSound gone (set_iin s mask)
  unfolding set_iin
  set_iin-IsSound s mask h = record {
    paced = record { bounded = h.paced.bounded; waits = h.paced.waits };
    events = h.events;
  }

  -- Another state of the device, whose events are accounted for too.
  device-IsSound :
      (s : Session D V W) (d : Device D V)
      → Accounted d.events gone
      → IsSound gone s
      → IsSound gone (record s { dev = d })
  device-IsSound s d v h = record {
    paced = record { bounded = h.paced.bounded; waits = h.paced.waits };
    events = v;
  }

  remember-IsSound :
      (s : Session D V W) (r : Received) (seq : ℕ)
      → IsSound gone s
      → IsSound gone (remember_request s r seq)
  unfolding remember_request
  remember-IsSound s r seq h = record {
    paced = record { bounded = h.paced.bounded; waits = h.paced.waits };
    events = h.events;
  }

module _ {D V W R : Type 0} (line : Line R W) (gone : ℕ) where
  pick_first :
      (b : Bool) (x y : Session D V W × Option R)
      → IsSound gone x.0
      → IsSound gone y.0
      → IsSound gone (if◌then◌else◌ {A = Session D V W × Option R} b x y).0
  pick_first true x y h k = h
  pick_first false x y h k = k

  respond-IsSound :
      (s : Session D V W) (r : Received) (seq : ℕ) (body : List ℕ) (now : ℕ)
      → IsSound gone s
      → IsSound gone (respond line s r seq body now).0
  unfolding respond
  respond-IsSound s r seq body now h =
      send_fragments-IsSound line gone s r seq (body ∷ []) false now h

  answer_null-IsSound :
      (s : Session D V W) (r : Received) (h : Header) (now : ℕ)
      → IsSound gone s
      → IsSound gone (answer_null line s r h now).0
  unfolding answer_null
  answer_null-IsSound s r h now k =
      pick_first _ (s, none) _ k (respond-IsSound s r h.control.seq [] now k)

  replay-IsSound :
      (s : Session D V W) (r : Received) (seq now : ℕ)
      → IsSound gone s
      → IsSound gone (replay_response line s r seq now).0
  unfolding replay_response
  replay-IsSound s r seq now h =
      pick_first _ (s, none) _ h
        (send_fragments-IsSound line gone _ r seq s.last.bodies s.last.events now
          (begun-IsSound gone _ refl h.events))

  authentication-IsSound :
      (s : Session D V W) (r : Received) (h : Header) (now : ℕ)
      → IsSound gone s
      → IsSound gone (on_authentication line s r h now).0
  unfolding on_authentication
  authentication-IsSound s r h now k =
      let k' = set_iin-IsSound gone s _ k in
      pick_first _ (set_iin s _, none) _ k' (respond-IsSound _ r h.control.seq [] now k')

  rejected-IsSound :
      (s : Session D V W) (r : Received) (e : Status) (now : ℕ) (p : Result Error (Header × ℕ))
      → IsSound gone s
      → IsSound gone (rejected line s r e now p).0
  rejected-IsSound s r e now (err x) k = set_iin-IsSound gone s _ k
  rejected-IsSound s r e now (ok (h, n)) k =
      pick_first (is_response h) (set_iin s iin_parameter_error, none) _
        (set_iin-IsSound gone s _ k)
        (pick_first
          ((h.func == func_confirm)
            || no_reply h.func
            || r.broadcast
            || not h.control.fir
            || not h.control.fin)
          (indicated, none) _ sound (respond-IsSound indicated r h.control.seq [] now sound))
    where
      known : Session D V W
      known =
          if is_unknown_object e
          then set_iin s iin_object_unknown
          else set_iin s iin_parameter_error

      indicated : Session D V W
      indicated = if not (handles_func h.func) then set_iin s iin_no_func_code_support else known

      sound : IsSound gone indicated
      sound =
          pick-IsSound gone (not (handles_func h.func)) (set_iin s iin_no_func_code_support) known
            (set_iin-IsSound gone s _ k)
            (pick-IsSound gone (is_unknown_object e) (set_iin s iin_object_unknown)
              (set_iin s iin_parameter_error) (set_iin-IsSound gone s _ k)
              (set_iin-IsSound gone s _ k))

  answered-IsSound :
      (s : Session D V W) (r : Received) (seq now : ℕ) (x : Device D V × Answer R)
      → IsSound gone s
      → Accounted x.0.events gone
      → IsSound gone (answered line s r seq now x).0
  answered-IsSound s r seq now (d, silent) h v = device-IsSound gone s d v h
  answered-IsSound s r seq now (d, answers bodies has) h v =
      send_fragments-IsSound line gone _ r seq bodies has now (device-IsSound gone s d v h)
  answered-IsSound s r seq now (d, fails e) h v = device-IsSound gone s d v h

  -- Handlers that remove no event, but for a cold restart, which empties the buffer.
  pub record Keeps (acts : Handlers D V R) : Type 0 where
    pub act :
        (d : Device D V) (now : ℕ) (r : Received) (f : Fragment)
        → (f.header.func == func_cold_restart) ≡ false
        → Accounted d.events gone
        → Accounted (acts.act d now r f).0.events gone
    pub freeze :
        (d : Device D V) (f : Fragment) (clearing : Bool)
        → Accounted d.events gone
        → Accounted (acts.freeze d f clearing).events gone
    pub freeze_at_time :
        (d : Device D V) (f : Fragment)
        → Accounted d.events gone
        → Accounted (acts.freeze_at_time d f).events gone

  module _ (acts : Handlers D V R) (out : Reporter W V R) (keeps : Keeps acts) where
    begin-IsSound :
        (s : Session D V W) (r : Received) (f : Fragment)
        → IsSound gone s
        → IsSound gone (begin_request line acts out s r f)
    unfolding begin_request
    begin-IsSound s r f h = noted r.broadcast
      where
        q : Session D V W
        q =
            if f.header.func == func_confirm
            then s
            else abandon_response (remember_request s r f.header.control.seq)

        k : IsSound gone q
        k =
            pick-IsSound gone (f.header.func == func_confirm) _ _ h
              (abandon-IsSound gone _ (remember-IsSound gone s r f.header.control.seq h))

        marked : Session D V W
        marked = record (set_iin q iin_broadcast) {
          broadcast_confirm = r.dest == broadcast_mandatory_confirm;
        }

        mark : IsSound gone marked
        mark =
            let m = set_iin-IsSound gone q iin_broadcast k in
            record {
              paced = record { bounded = m.paced.bounded; waits = m.paced.waits };
              events = m.events;
            }

        noted : (b : Bool) → IsSound gone (if b then marked else q)
        noted true = mark
        noted false = k

    dispatch-IsSound :
        (s : Session D V W) (r : Received) (f : Fragment) (now : ℕ)
        → (f.header.func == func_confirm) ≡ false
        → (f.header.func == func_cold_restart) ≡ false
        → IsSound gone s
        → IsSound gone (dispatch line acts out s r f now).0
    unfolding dispatch
    dispatch-IsSound s r f now c k h =
        let refused = set_iin-IsSound gone s _ h in
        not_confirm (f.header.func == func_confirm) c _ _ (
          pick_first _ _ _
            (answer_null-IsSound _ r f.header now
              (device-IsSound gone s _ (keeps.freeze s.dev f _ h.events) h))
            (pick_first _ _ _
              (answer_null-IsSound _ r f.header now
                (device-IsSound gone s _ (keeps.freeze_at_time s.dev f h.events) h))
              (pick_first _ _ _
                (answered-IsSound s r f.header.control.seq now (acts.act s.dev now r f) h
                  (keeps.act s.dev now r f k h.events))
                (pick_first _ (_, none) _ refused
                  (respond-IsSound _ r f.header.control.seq [] now refused)))))
      where
        not_confirm :
            (b : Bool)
            → b ≡ false
            → (x y : Session D V W × Option R) → IsSound gone y.0
            → IsSound gone (if◌then◌else◌ {A = Session D V W × Option R} b x y).0
        not_confirm true e x y k = absurd (ground (arith, e))
        not_confirm false e x y k = k

    act_on-IsSound :
        (s : Session D V W) (r : Received) (f : Fragment) (now : ℕ)
        → (f.header.func == func_confirm) ≡ false
        → (f.header.func == func_cold_restart) ≡ false
        → IsSound gone s
        → IsSound gone (act_on line acts out s r f now).0
    unfolding act_on
    act_on-IsSound s r f now c k h =
        let q = begin-IsSound s r f h in
        pick_first _ _ _ (answer_null-IsSound _ r f.header now (set_iin-IsSound gone _ _ q))
          (dispatch-IsSound _ r f now c k q)

    -- A request other than a confirmation and a cold restart, whatever becomes of it - rejected, answered again,
    -- acted on -, removes no event if the handlers remove none, and keeps the pacing: no more fragments are sent
    -- than there are, and when all were sent the last awaits its confirmation.
    pub on_request-IsSound :
        (s : Session D V W) (r : Received) (f : Fragment) (now : ℕ)
        → (f.header.func == func_confirm) ≡ false
        → (f.header.func == func_cold_restart) ≡ false
        → IsSound gone s
        → IsSound gone (on_request line acts out s r f now).0
    unfolding on_request reject_malformed
    on_request-IsSound s r f now c k h =
        pick_first (not o.control.fir || not o.control.fin) (set_iin s iin_parameter_error, none)
          plain (set_iin-IsSound gone s _ h)
          (pick_first ((o.func == func_confirm) && ltb 0 (length f.objects)) (s, none) proper h
            (pick_first ((o.func != func_confirm) && (o.control.con || o.control.uns)) (s, none)
              consistent h
              (pick_first (not (all_consistent f.objects)) refused known
                (rejected-IsSound s r bad now (parse_header r.fragment) h)
                (pick_first ((o.func == func_auth_request) || (o.func == func_auth_request_no_ack))
                  _ acted (authentication-IsSound s r o now h)
                  (pick_first ((o.func != func_confirm) && is_repeat_request s r o.control.seq) _ _
                    (replay-IsSound s r o.control.seq now h) (act_on-IsSound s r f now c k h))))))
      where
        o : Header
        o = f.header

        bad : Status
        bad = failed (bad_qualifier 0)

        refused : Session D V W × Option R
        refused = rejected line s r bad now (parse_header r.fragment)

        acted : Session D V W × Option R
        acted =
            if (o.func != func_confirm) && is_repeat_request s r o.control.seq
            then replay_response line s r o.control.seq now
            else act_on line acts out s r f now

        known : Session D V W × Option R
        known =
            if (o.func == func_auth_request) || (o.func == func_auth_request_no_ack)
            then on_authentication line s r o now
            else acted

        consistent : Session D V W × Option R
        consistent = if not (all_consistent f.objects) then refused else known

        proper : Session D V W × Option R
        proper =
            if (o.func != func_confirm) && (o.control.con || o.control.uns)
            then (s, none)
            else consistent

        plain : Session D V W × Option R
        plain = if (o.func == func_confirm) && ltb 0 (length f.objects) then (s, none) else proper
