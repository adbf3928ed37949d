-- ===== src/Outstation/Solicited/Pacing/Remembering.antt =====
-- What the session remembers of the last request it acted on: whatever comes of the request, the session knows it
-- again. Outstation/session.go: rememberRequest, isRepeatRequest.
use go_dnp.Common.{
  ℕ, Bool, true, false, ◌||◌, leb, ◌==◌, if◌then◌else◌, Option, none, some, List, [], ◌∷◌, ◌++◌,
  length, get_or, ◌≡◌, refl, arith,
}
use go_dnp.App.FuncCode.{
  func_immed_freeze, func_immed_freeze_nr, func_freeze_clear, func_freeze_clear_nr,
  func_freeze_at_time, func_freeze_at_time_nr, func_confirm, func_response,
}
use go_dnp.App.Iin.{iin_broadcast, iin_no_func_code_support, iin_parameter_error}
use go_dnp.App.Header.{Control, Header, append_header}
use go_dnp.App.Fragment.{Fragment}
use go_dnp.Link.Address.{broadcast_mandatory_confirm}
use go_dnp.Stack.{Received}
use go_dnp.Outstation.Unsolicited.{Reporter}
use go_dnp.Outstation.Solicited.{
  Device, Session, Line, current_iin, finish_response, abandon_response, next_control, after_send,
  send_next, advance_response, send_fragments, respond,
}
use go_dnp.Outstation.Solicited.Requests.{
  Answer, silent, answers, fails, Handlers, set_iin, handles_func, remember_request,
  replay_response, answer_null, answered, dispatch, begin_request, act_on,
}
use go_dnp.Outstation.Solicited.Pacing.Known.{Key, key_of, Knows}

module _ {D V W : Type 0} where
  pick_key :
      (k : Key) (b : Bool) (x y : Session D V W)
      → Knows k x
      → Knows k y
      → Knows k (if b then x else y)
  pick_key k true x y h l = h
  pick_key k false x y h l = l

  abandon-Knows : (k : Key) (s : Session D V W) → Knows k s → Knows k (abandon_response s)
  unfolding abandon_response
  abandon-Knows k s h = pick_key k (length s.pending_bodies == 0) _ _ h (record { same = h.same })

  set_iin-Knows : (k : Key) (s : Session D V W) (mask : ℕ) → Knows k s → Knows k (set_iin s mask)
  unfolding set_iin
  set_iin-Knows k s mask h = record { same = h.same }

  device-Knows :
      (k : Key) (s : Session D V W) (d : Device D V) → Knows k s → Knows k (record s { dev = d })
  device-Knows k s d h = record { same = h.same }

module _ {D V W R : Type 0} (line : Line R W) (k : Key) where
  pick_first :
      (b : Bool) (x y : Session D V W × Option R)
      → Knows k x.0
      → Knows k y.0
      → Knows k (if◌then◌else◌ {A = Session D V W × Option R} b x y).0
  pick_first true x y h l = h
  pick_first false x y h l = l

  after_send-Knows :
      (s : Session D V W) (c : Control) (now : ℕ) (x : W × Option R)
      → Knows k s
      → Knows k (after_send line s c now x).0
  unfolding finish_response
  after_send-Knows s c now (w, some e) h = record { same = h.same }
  after_send-Knows s c now (w, none) h =
      pick_key k c.con _ _ (record { same = h.same }) (record { same = h.same })

  send_next-Knows : (s : Session D V W) (now : ℕ) → Knows k s → Knows k (send_next line s now).0
  unfolding send_next
  send_next-Knows s now h =
      let c = next_control line s in
      let r = current_iin s.cfg s.dev s.indications now in
      after_send-Knows (record s { dev = r.0 }) c now
        (line.send_to s.line s.pending_dest (
          append_header [] (record { control = c; func = func_response; iin = r.1 })
          ++ get_or s.pending_bodies s.pending_index []))
        (record { same = h.same })

  advance-Knows :
      (s : Session D V W) (now : ℕ) → Knows k s → Knows k (advance_response line s now).0
  unfolding advance_response finish_response
  advance-Knows s now h =
      pick_first (length s.pending_bodies == 0) (s, none) _ h
        (pick_first (s.awaiting_confirm || line.busy s.line) (s, none) _ h
          (pick_first (leb (length s.pending_bodies) s.pending_index) (finish_response s, none)
            (send_next line s now) (record { same = h.same }) (send_next-Knows s now h)))

  send_fragments-Knows :
      (s : Session D V W) (r : Received) (seq : ℕ) (bodies : List (List ℕ)) (has : Bool) (now : ℕ)
      → Knows k s
      → Knows k (send_fragments line s r seq bodies has now).0
  unfolding send_fragments
  send_fragments-Knows s r seq bodies has now h =
      pick_first r.broadcast (s, none) _ h (advance-Knows _ now (record { same = h.same }))

  respond-Knows :
      (s : Session D V W) (r : Received) (seq : ℕ) (body : List ℕ) (now : ℕ)
      → Knows k s
      → Knows k (respond line s r seq body now).0
  unfolding respond
  respond-Knows s r seq body now h = send_fragments-Knows s r seq (body ∷ []) false now h

  answer_null-Knows :
      (s : Session D V W) (r : Received) (h : Header) (now : ℕ)
      → Knows k s
      → Knows k (answer_null line s r h now).0
  unfolding answer_null
  answer_null-Knows s r h now l =
      pick_first _ (s, none) _ l (respond-Knows s r h.control.seq [] now l)

  pub replay-Knows :
      (s : Session D V W) (r : Received) (seq now : ℕ)
      → Knows k s
      → Knows k (replay_response line s r seq now).0
  unfolding replay_response
  replay-Knows s r seq now h =
      pick_first _ (s, none) _ h
        (send_fragments-Knows _ r seq s.last.bodies s.last.events now (record { same = h.same }))

  answered-Knows :
      (s : Session D V W) (r : Received) (seq now : ℕ) (x : Device D V × Answer R)
      → Knows k s
      → Knows k (answered line s r seq now x).0
  answered-Knows s r seq now (d, silent) h = record { same = h.same }
  answered-Knows s r seq now (d, answers bodies has) h =
      send_fragments-Knows _ r seq bodies has now (record { same = h.same })
  answered-Knows s r seq now (d, fails e) h = record { same = h.same }

  module _ (acts : Handlers D V R) (out : Reporter W V R) where
    dispatch-Knows :
        (s : Session D V W) (r : Received) (f : Fragment) (now : ℕ)
        → (f.header.func == func_confirm) ≡ false
        → Knows k s
        → Knows k (dispatch line acts out s r f now).0
    unfolding dispatch
    dispatch-Knows s r f now c h =
        let o = f.header in
        let clearing = (o.func == func_freeze_clear) || (o.func == func_freeze_clear_nr) in
        let unknown = set_iin-Knows k s iin_no_func_code_support h in
        not_confirm (o.func == func_confirm) c _ _ (
          pick_first ((o.func == func_immed_freeze) || (o.func == func_immed_freeze_nr) || clearing)
            _ _ (answer_null-Knows _ r o now (device-Knows k s (acts.freeze s.dev f clearing) h))
            (pick_first ((o.func == func_freeze_at_time) || (o.func == func_freeze_at_time_nr)) _ _
              (answer_null-Knows _ r o now (device-Knows k s (acts.freeze_at_time s.dev f) h))
              (pick_first (handles_func o.func) _ _
                (answered-Knows s r o.control.seq now (acts.act s.dev now r f) h)
                (pick_first r.broadcast (_, none) _ unknown
                  (respond-Knows _ r o.control.seq [] now unknown)))))
      where
        not_confirm :
            (b : Bool)
            → b ≡ false
            → (x y : Session D V W × Option R) → Knows k y.0
            → Knows k (if◌then◌else◌ {A = Session D V W × Option R} b x y).0
        not_confirm true e x y l = absurd (ground (arith, e))
        not_confirm false e x y l = l

module _ {D V W R : Type 0} (line : Line R W) (acts : Handlers D V R) (out : Reporter W V R) where
  begin-Knows :
      (s : Session D V W) (r : Received) (f : Fragment)
      → (f.header.func == func_confirm) ≡ false
      → Knows (key_of r f.header.control.seq) (begin_request line acts out s r f)
  unfolding begin_request set_iin remember_request
  begin-Knows s r f c = noted r.broadcast
    where
      k : Key
      k = key_of r f.header.control.seq

      q : Session D V W
      q =
          if f.header.func == func_confirm
          then s
          else abandon_response (remember_request s r f.header.control.seq)

      begun :
          (b : Bool)
          → b ≡ false
          → Knows k (if b then s else abandon_response (remember_request s r f.header.control.seq))
      begun true e = absurd (ground (arith, e))
      begun false e = abandon-Knows k _ (record { same = refl })

      marked : Session D V W
      marked = record (set_iin q iin_broadcast) {
        broadcast_confirm = r.dest == broadcast_mandatory_confirm;
      }

      noted : (b : Bool) → Knows k (if b then marked else q)
      noted true = record { same = (begun (f.header.func == func_confirm) c).same }
      noted false = begun (f.header.func == func_confirm) c

  -- Whatever comes of a request that is acted on, but for a confirmation, it is remembered.
  pub act_on-Knows :
      (s : Session D V W) (r : Received) (f : Fragment) (now : ℕ)
      → (f.header.func == func_confirm) ≡ false
      → Knows (key_of r f.header.control.seq) (act_on line acts out s r f now).0
  unfolding act_on
  act_on-Knows s r f now c =
      let k = key_of r f.header.control.seq in
      let h = begin-Knows s r f c in
      pick_first line k _ _ _
        (answer_null-Knows line k _ r f.header now (set_iin-Knows k _ iin_parameter_error h))
        (dispatch-Knows line k acts out _ r f now c h)
