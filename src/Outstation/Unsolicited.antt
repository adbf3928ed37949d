-- ===== src/Outstation/Unsolicited.antt =====
-- Unsolicited reporting, outstation/unsolicited.go. Times are numbers, the zero time 0; counters of the
-- statistics and the log are left out. The builder of responses, the indications and the stack are arguments.
pub mod Fitting
pub mod Account
pub mod Retry
mod Tests
use go_dnp.Common.{
  ℕ, zero, suc, ◌+◌, ◌-◌, ◌/◌, ◌%◌, Bool, true, false, not, ◌&&◌, ◌||◌, ltb, leb, ◌==◌,
  if◌then◌else◌, Option, none, some, List, [], ◌∷◌, ◌++◌, length, take, drop,
}
use go_dnp.App.FuncCode.{func_unsolicited_response}
use go_dnp.App.Header.{append_header}
use go_dnp.Outstation.EventBuffer
use go_dnp.Outstation.EventBuffer.{Event, EventBuffer}

pub record UnsolState : Type 0 where
  pub seq : ℕ
  pub null_sent : Bool
  pub null_confirmed : Bool
  pub awaiting : Bool
  pub await_seq : ℕ
  pub deadline : ℕ
  pub retries : ℕ
  pub last_body : List ℕ
  pub retained : Bool
  pub next_allowed : ℕ
  pub first_event_at : Option ℕ

abbrev pub fresh : UnsolState
fresh = record {
  seq = 0;
  null_sent = false;
  null_confirmed = false;
  awaiting = false;
  await_seq = 0;
  deadline = 0;
  retries = 0;
  last_body = [];
  retained = false;
  next_allowed = 0;
  first_event_at = none;
}

pub record UnsolicitedConfig : Type 0 where
  pub enabled : Bool
  pub hold_time : ℕ
  pub max_events : ℕ
  pub confirm_timeout : ℕ
  pub max_retries : ℕ

-- A value below zero in the source is 0 here; times are milliseconds.
unfoldable pub apply_defaults : UnsolicitedConfig → UnsolicitedConfig
apply_defaults c = record c {
  confirm_timeout = if c.confirm_timeout == 0 then 5000 else c.confirm_timeout;
  max_retries = if c.max_retries == 0 then 3 else c.max_retries;
}

-- The part of the session that reports; `responding` says that fragments of a solicited response are
-- pending, `deferred` that a read is deferred.
pub record Session (V : Type 0) : Type 0 where
  pub cfg : UnsolicitedConfig
  pub unsol : UnsolState
  pub events : EventBuffer V
  pub classes : ℕ
  pub connected : Bool
  pub responding : Bool
  pub deferred : Bool

-- What the session calls: whether events fit one fragment, the octets that are built of them and the events
-- that could not be built, the indications, and the stack's Send.
pub record Reporter (W V E : Type 0) : Type 0 where
  pub fits : List (Event V) → Bool
  pub build : List (Event V) → List ℕ × List (Event V)
  pub indications : EventBuffer V → ℕ
  pub send : W → List ℕ → W × Option E

-- The binary search of `eventsThatFit`, on fuel.
unfoldable pub search_fit : (ℕ → Bool) → ℕ → ℕ → ℕ → ℕ
search_fit fits zero lo hi = lo
search_fit fits (suc fuel) lo hi =
    let mid = (lo + hi + 1) / 2 in
    let upper = search_fit fits fuel mid hi in
    let lower = search_fit fits fuel lo (mid - 1) in
    if ltb lo hi then (if fits mid then upper else lower) else lo

module _ {W V E : Type 0} (out : Reporter W V E) where
  -- Each round leaves fewer candidates, so a round for each event is enough.
  unfoldable pub events_that_fit : List (Event V) → ℕ
  events_that_fit es = search_fit (λ n. out.fits (take n es)) (length es) 1 (length es)

  unfoldable pub unsolicited_fragment : Session V → List ℕ → List ℕ
  unsolicited_fragment s body =
      append_header [] (record {
        control = record { fir = true; fin = true; con = true; uns = true; seq = s.unsol.seq };
        func = func_unsolicited_response;
        iin = out.indications s.events;
      })
      ++ body

  -- The end of an attempt to report.
  abbrev pub given_up : Session V → ℕ → Session V
  given_up s now = record s {
    events = (EventBuffer.unselect s.events).0;
    unsol = record s.unsol {
      retries = 0;
      retained = false;
      last_body = [];
      next_allowed = now + s.cfg.confirm_timeout;
    };
  }

  unfoldable pub on_unsolicited_timeout : Session V → ℕ → Session V
  on_unsolicited_timeout s now =
      let q = record s {
        unsol = record s.unsol { awaiting = false; retries = s.unsol.retries + 1 };
      } in
      if q.deferred && q.unsol.null_confirmed
      then given_up q now
      else if ltb q.cfg.max_retries q.unsol.retries
      then given_up q now
      else q

  -- What follows the stack's Send.
  abbrev pub waits : Session V → ℕ → Session V
  waits s now = record s {
    unsol = record s.unsol {
      awaiting = true;
      await_seq = s.unsol.seq;
      deadline = now + s.cfg.confirm_timeout;
    };
  }

  abbrev pub after_retry : Session V → ℕ → W × Option E → (Session V × W) × Option E
  after_retry s now (w, some x) = ((s, w), some x)
  after_retry s now (w, none) = ((waits s now, w), none)

  unfoldable pub retry_unsolicited : Session V → W → ℕ → (Session V × W) × Option E
  retry_unsolicited s w now =
      after_retry s now (out.send w (unsolicited_fragment s s.unsol.last_body))

  -- The events that are left out are handed back, and those that could not be built are discarded; then
  -- the next sequence number is taken. With the body.
  unfoldable pub prepare : Session V → List (Event V) → Bool → Session V × List ℕ
  prepare s es null =
      let fit = events_that_fit es in
      let kept = (EventBuffer.release s.events (drop fit es)).0 in
      let (body, unbuilt) = out.build (take fit es) in
      let left = if null then s.events else (EventBuffer.discard kept unbuilt).0 in
      (
        record s { events = left; unsol = record s.unsol { seq = (s.unsol.seq + 1) % 16 } },
        if null then (out.build []).0 else body,
      )

  abbrev pub after_report :
      Session V → ℕ → Bool → List ℕ → W × Option E → (Session V × W) × Option E
  after_report s now null body (w, some x) = ((s, w), some x)
  after_report s now null body (w, none) =
      let sent = waits s now in
      (
        (
          record sent {
            unsol = record sent.unsol {
              null_sent = sent.unsol.null_sent || null;
              last_body = body;
              retained = true;
            };
          },
          w,
        ),
        none,
      )

  unfoldable pub send_unsolicited :
      Session V → W → List (Event V) → ℕ → Bool → (Session V × W) × Option E
  send_unsolicited s w es now null =
      let (q, body) = prepare s es null in
      after_report q now null body (out.send w (unsolicited_fragment q body))

  -- When the oldest event appeared, and the time it has waited.
  abbrev pub since : Option ℕ → ℕ → ℕ
  since none now = now
  since (some at) now = at

  -- The last part of `pollUnsolicited`: the events are selected and sent.
  unfoldable pub report_events : Session V → W → ℕ → (Session V × W) × Option E
  report_events s w now =
      let q = record s { unsol = record s.unsol { first_event_at = none } } in
      let (events, chosen) = EventBuffer.select q.events q.classes 64 in
      let q' = record q { events = events } in
      if length chosen == 0 then ((q', w), none) else send_unsolicited q' w chosen now false

  -- The hold time, unless enough events have piled up.
  unfoldable pub hold_events : Session V → W → ℕ → ℕ → (Session V × W) × Option E
  hold_events s w now pending =
      let begun = since s.unsol.first_event_at now in
      let held = record s { unsol = record s.unsol { first_event_at = some begun } } in
      let enough = ltb 0 s.cfg.max_events && leb s.cfg.max_events pending in
      if ltb 0 s.cfg.hold_time
      then (if not enough && ltb (now - begun) s.cfg.hold_time
          then ((held, w), none)
          else report_events held w now)
      else report_events s w now

  unfoldable pub poll_unsolicited : Session V → W → ℕ → (Session V × W) × Option E
  poll_unsolicited s w now =
      let pending = EventBuffer.count s.events s.classes in
      if not s.cfg.enabled || not s.connected
      then ((s, w), none)
      else if s.unsol.awaiting
      then (if ltb now s.unsol.deadline
          then ((s, w), none)
          else ((on_unsolicited_timeout s now, w), none))
      else if s.responding
      then ((s, w), none)
      else if ltb 0 s.unsol.retries && s.unsol.retained
      then retry_unsolicited s w now
      else if not s.unsol.null_confirmed
      then (if not s.unsol.null_sent || ltb s.unsol.next_allowed now
          then send_unsolicited s w [] now true
          else ((s, w), none))
      else if (s.classes == 0) || ltb now s.unsol.next_allowed
      then ((s, w), none)
      else if pending == 0
      then ((s, w), none)
      else hold_events s w now pending

  unfoldable pub on_unsolicited_confirm : Session V → ℕ → Session V
  on_unsolicited_confirm s seq =
      let q = record s {
        unsol = record s.unsol { awaiting = false; retries = 0; retained = false; last_body = [] };
      } in
      if not s.unsol.awaiting || not (seq == s.unsol.await_seq)
      then s
      else if not s.unsol.null_confirmed
      then record q { unsol = record q.unsol { null_confirmed = true } }
      else record q { events = (EventBuffer.confirm q.events).0 }
