-- ===== src/Outstation/Unsolicited/Account.antt =====
-- What unsolicited reporting does to the events, and what a retry sends.
use go_dnp.Common.{
  ℕ, ◌+◌, ◌-◌, Bool, true, false, not, ◌&&◌, ◌||◌, ltb, leb, ◌==◌, if◌then◌else◌, Option, none,
  some, List, [], length, take, drop, ◌≡◌, subst, arith,
}
use go_dnp.Outstation.EventBuffer
use go_dnp.Outstation.EventBuffer.{Event, EventBuffer}
use go_dnp.Outstation.EventBuffer.Capacity.{
  Accounted, selects, confirms, unselects, releases, discards, step, removed, step-Accounted,
}
use go_dnp.Outstation.Unsolicited.{
  Session, Reporter, events_that_fit, unsolicited_fragment, given_up, on_unsolicited_timeout,
  after_retry, retry_unsolicited, prepare, after_report, send_unsolicited, since, report_events,
  hold_events, poll_unsolicited, on_unsolicited_confirm,
}

module _ {V : Type 0} where
  plus_none : {b : EventBuffer V} {gone : ℕ} → Accounted b (gone + 0) → Accounted b gone
  plus_none {b = b} {gone = gone} v = subst (Accounted b) same v
    where
      same : gone + 0 ≡ gone
      same = omega arith

  pub unselect-Accounted :
      (b : EventBuffer V) (gone : ℕ) → Accounted b gone → Accounted (EventBuffer.unselect b).0 gone
  unselect-Accounted b gone v = plus_none (unfold step removed in step-Accounted b unselects gone v)

  release-Accounted :
      (b : EventBuffer V) (es : List (Event V)) (gone : ℕ)
      → Accounted b gone
      → Accounted (EventBuffer.release b es).0 gone
  release-Accounted b es gone v =
      plus_none (unfold step removed in step-Accounted b (releases es) gone v)

  discard-Accounted :
      (b : EventBuffer V) (es : List (Event V)) (gone : ℕ)
      → Accounted b gone
      → Accounted (EventBuffer.discard b es).0 gone
  discard-Accounted b es gone v =
      plus_none (unfold step removed in step-Accounted b (discards es) gone v)

  select-Accounted :
      (b : EventBuffer V) (mask limit gone : ℕ)
      → Accounted b gone
      → Accounted (EventBuffer.select b mask limit).0 gone
  unfolding EventBuffer.select
  select-Accounted b mask limit gone v =
      plus_none
        (unfold step removed in step-Accounted b (selects limit (EventBuffer.in_class mask)) gone v)

module _ {W V E : Type 0} (out : Reporter W V E) (gone : ℕ) where
  Keeps : (Session V × W) × Option E → Type 0
  Keeps r = Accounted r.0.0.events gone

  pick :
      (b : Bool) (x y : (Session V × W) × Option E) → Keeps x → Keeps y → Keeps (if b then x else y)
  pick true x y k l = k
  pick false x y k l = l

  timeout-Accounted :
      (s : Session V) (now : ℕ)
      → Accounted s.events gone
      → Accounted (on_unsolicited_timeout out s now).events gone
  unfolding on_unsolicited_timeout
  timeout-Accounted s now v =
      choose (s.deferred && s.unsol.null_confirmed) (ltb s.cfg.max_retries (s.unsol.retries + 1))
    where
      q : Session V
      q = record s { unsol = record s.unsol { awaiting = false; retries = s.unsol.retries + 1 } }

      choose :
          (a b : Bool)
          → Accounted
              (if a then given_up out q now else if b then given_up out q now else q).events
              gone
      choose true b = unselect-Accounted s.events gone v
      choose false true = unselect-Accounted s.events gone v
      choose false false = v

  after_retry-Accounted :
      (s : Session V) (now : ℕ) (r : W × Option E)
      → Accounted s.events gone
      → Keeps (after_retry out s now r)
  unfolding Keeps
  after_retry-Accounted s now (w, some x) v = v
  after_retry-Accounted s now (w, none) v = v

  retry-Accounted :
      (s : Session V) (w : W) (now : ℕ)
      → Accounted s.events gone
      → Keeps (retry_unsolicited out s w now)
  unfolding retry_unsolicited
  retry-Accounted s w now v =
      after_retry-Accounted s now (out.send w (unsolicited_fragment out s s.unsol.last_body)) v

  after_report-Accounted :
      (s : Session V) (now : ℕ) (null : Bool) (body : List ℕ) (r : W × Option E)
      → Accounted s.events gone
      → Keeps (after_report out s now null body r)
  unfolding Keeps
  after_report-Accounted s now null body (w, some x) v = v
  after_report-Accounted s now null body (w, none) v = v

  prepare-Accounted :
      (s : Session V) (es : List (Event V)) (null : Bool)
      → Accounted s.events gone
      → Accounted (prepare out s es null).0.events gone
  unfolding prepare
  prepare-Accounted s es true v = v
  prepare-Accounted s es false v =
      let fit = events_that_fit out es in
      discard-Accounted (EventBuffer.release s.events (drop fit es)).0 (out.build (take fit es)).1
        gone (release-Accounted s.events (drop fit es) gone v)

  send-Accounted :
      (s : Session V) (w : W) (es : List (Event V)) (now : ℕ) (null : Bool)
      → Accounted s.events gone
      → Keeps (send_unsolicited out s w es now null)
  unfolding send_unsolicited
  send-Accounted s w es now null v =
      let (q, body) = prepare out s es null in
      after_report-Accounted q now null body (out.send w (unsolicited_fragment out q body))
        (prepare-Accounted s es null v)

  report-Accounted :
      (s : Session V) (w : W) (now : ℕ)
      → Accounted s.events gone
      → Keeps (report_events out s w now)
  unfolding report_events
  report-Accounted s w now v =
      let q = record s { unsol = record s.unsol { first_event_at = none } } in
      let (events, chosen) = EventBuffer.select q.events q.classes 64 in
      let q' = record q { events = events } in
      pick (length chosen == 0) ((q', w), none) (send_unsolicited out q' w chosen now false)
        (unfold Keeps in select-Accounted s.events s.classes 64 gone v)
        (send-Accounted q' w chosen now false (select-Accounted s.events s.classes 64 gone v))

  hold-Accounted :
      (s : Session V) (w : W) (now pending : ℕ)
      → Accounted s.events gone
      → Keeps (hold_events out s w now pending)
  unfolding hold_events Keeps
  hold-Accounted s w now pending v =
      let begun = since out s.unsol.first_event_at now in
      let held = record s { unsol = record s.unsol { first_event_at = some begun } } in
      let enough = ltb 0 s.cfg.max_events && leb s.cfg.max_events pending in
      pick (ltb 0 s.cfg.hold_time) _ _
        (pick (not enough && ltb (now - begun) s.cfg.hold_time) ((held, w), none)
          (report_events out held w now) v (report-Accounted held w now v))
        (report-Accounted s w now v)

  -- Whatever a poll does, selecting, sending, retrying or giving up, no event is removed by it: the number
  -- removed by confirmations stays, and all others are still held or counted as dropped.
  pub poll_unsolicited-Accounted :
      (s : Session V) (w : W) (now : ℕ)
      → Accounted s.events gone
      → Accounted (poll_unsolicited out s w now).0.0.events gone
  unfolding poll_unsolicited Keeps
  poll_unsolicited-Accounted s w now v =
      let pending = EventBuffer.count s.events s.classes in
      let idle : (Session V × W) × Option E = ((s, w), none) in
      let held = hold_events out s w now pending in
      let reporting =
        if (s.classes == 0) || ltb now s.unsol.next_allowed
        then idle
        else if pending == 0
        then idle
        else held in
      let null =
        if not s.unsol.null_sent || ltb s.unsol.next_allowed now
        then send_unsolicited out s w [] now true
        else idle in
      let again = retry_unsolicited out s w now in
      let fresh = if not s.unsol.null_confirmed then null else reporting in
      let ready =
        if s.responding
        then idle
        else if ltb 0 s.unsol.retries && s.unsol.retained
        then again
        else fresh in
      let late =
        if ltb now s.unsol.deadline then idle else ((on_unsolicited_timeout out s now, w), none) in
      pick (not s.cfg.enabled || not s.connected) idle (if s.unsol.awaiting then late else ready) v
        (pick s.unsol.awaiting late ready
          (pick (ltb now s.unsol.deadline) idle ((on_unsolicited_timeout out s now, w), none) v
            (timeout-Accounted s now v))
          (pick s.responding idle
            (if ltb 0 s.unsol.retries && s.unsol.retained then again else fresh) v
            (pick (ltb 0 s.unsol.retries && s.unsol.retained) again fresh
              (retry-Accounted s w now v)
              (pick (not s.unsol.null_confirmed) null reporting
                (pick (not s.unsol.null_sent || ltb s.unsol.next_allowed now)
                  (send_unsolicited out s w [] now true) idle (send-Accounted s w [] now true v) v)
                (pick ((s.classes == 0) || ltb now s.unsol.next_allowed) idle
                  (if pending == 0 then idle else held) v
                  (pick (pending == 0) idle held v (hold-Accounted s w now pending v)))))))

  -- A confirmation removes events only if it is awaited and answers a response with data; then it removes
  -- as many as were selected.
  pub on_unsolicited_confirm-Accounted :
      (s : Session V) (seq : ℕ)
      → Accounted s.events gone
      → (let matched = s.unsol.awaiting && (seq == s.unsol.await_seq) && s.unsol.null_confirmed in
          Accounted
            (on_unsolicited_confirm out s seq).events
            (gone + (if matched then (EventBuffer.confirm s.events).1 else 0)))
  unfolding on_unsolicited_confirm step removed
  on_unsolicited_confirm-Accounted s seq v =
      split s.unsol.awaiting (seq == s.unsol.await_seq) s.unsol.null_confirmed
    where
      q : Session V
      q = record s {
        unsol = record s.unsol { awaiting = false; retries = 0; retained = false; last_body = [] };
      }

      same : gone ≡ gone + 0
      same = omega arith

      split :
          (a b c : Bool)
          → Accounted
              (if not a || not b
                then s
                else if not c
                then record q { unsol = record q.unsol { null_confirmed = true } }
                else record q { events = (EventBuffer.confirm q.events).0 }).events
              (gone + (if a && b && c then (EventBuffer.confirm s.events).1 else 0))
      split false b c = subst (Accounted s.events) same v
      split true false c = subst (Accounted s.events) same v
      split true true false = subst (Accounted s.events) same v
      split true true true = step-Accounted s.events confirms gone v
