-- ===== src/Master/Session/Sending.antt =====
-- How a master's session sends, master/session.go: sendTask, runDueTask, the timeouts and the keep-alive.
use go_dnp.Common.{
  ℕ, ◌+◌, ◌-◌, ◌%◌, Bool, true, false, not, ◌||◌, ltb, ◌==◌, if◌then◌else◌, Option, none, some,
  List, [],
}
use go_dnp.App.Errors
use go_dnp.App.FuncCode.{func_confirm, func_auth_request}
use go_dnp.App.Header.{append_header}
use go_dnp.App.Fragment.{Builder, new_builder, set_header}
use go_dnp.Master.Task.{Job, Task, build}
use go_dnp.Master.Scheduler
use go_dnp.Master.Session.{
  Session, Line, Closures, Failure, timeout, unbuilt, unsent, complete_task, failed_with,
  fail_inflight,
}

module _ {C R W : Type 0} (line : Line R W) (own : Closures C R) where
  abbrev pub after_send : Session C R W → ℕ → W × Option R → Session C R W × Option (Failure R)
  after_send s now (w, some e) = (record s { line = w }, some (unsent e))
  after_send s now (w, none) = (
    record s {
      line = w;
      link_deadline = if line.pending w then now + s.cfg.link_timeout else s.link_deadline;
    },
    none,
  )

  unfoldable pub send : Session C R W → List ℕ → ℕ → Session C R W × Option (Failure R)
  send s frag now = after_send s now (line.send s.line frag)

  -- The header and what the task's `build` adds.
  abbrev headed : Job C → Builder × Option Errors.Error → Builder × Option Errors.Error
  headed job (b, some e) = (b, some e)
  headed job (b, none) = build own.build job b

  unfoldable pub request_fragment : Session C R W → Task C R → Builder × Option Errors.Error
  request_fragment s t = headed t.request.job (
      set_header (new_builder s.cfg.max_tx_fragment) (record {
        control = record { fir = true; fin = true; con = false; uns = false; seq = s.seq };
        func = t.request.func_code;
        iin = 0;
      }))

  -- The task is on the wire.
  unfoldable pub sent_task : Session C R W → Task C R → ℕ → Session C R W
  sent_task s t now =
      let q = record s { stats = record s.stats { tasks_run = s.stats.tasks_run + 1 } } in
      let t' = record t { seq = s.seq; started = false } in
      if t.request.no_response
      then complete_task (record q { inflight = none }) t' none now
      else record q { inflight = some (record t' { deadline = now + s.cfg.response_timeout }) }

  abbrev pub after_transmit : Task C R → ℕ → Session C R W × Option (Failure R) → Session C R W
  after_transmit t now (s, some e) = complete_task s t (some e) now
  after_transmit t now (s, none) = sent_task s t now

  abbrev pub transmit : Session C R W → Task C R → ℕ → Builder × Option Errors.Error → Session C R W
  transmit s t now (b, some e) = complete_task s t (some (unbuilt e)) now
  transmit s t now (b, none) = after_transmit t now (send s b.buf now)

  unfoldable pub send_task : Session C R W → Task C R → ℕ → Session C R W
  send_task s t now =
      let t' = record t { failure = none } in
      let q = record s {
        seq = if t.request.func_code == func_auth_request then s.seq else (s.seq + 1) % 16;
      } in
      transmit q t' now (request_fragment q t')

  abbrev pub send_popped :
      Session C R W → Option (Task C R × Scheduler.Scheduler C R) → ℕ → Session C R W
  send_popped s none now = s
  send_popped s (some (t, sched)) now = send_task (record s { sched = sched }) t now

  abbrev pub run_first : Session C R W → Option (Task C R) → ℕ → Session C R W
  run_first s none now = s
  run_first s (some t) now = if ltb now t.due then s else send_popped s (Scheduler.pop s.sched) now

  abbrev pub run_if_free : Session C R W → Option (Task C R) → ℕ → Session C R W
  run_if_free s (some t) now = s
  run_if_free s none now = run_first s (Scheduler.peek s.sched) now

  unfoldable pub run_due_task : Session C R W → ℕ → Session C R W
  run_due_task s now = run_if_free s s.inflight now

  -- A failure to send the confirmation is only logged.
  unfoldable pub send_confirm : Session C R W → ℕ → Bool → ℕ → Session C R W
  send_confirm s seq unsolicited now =
      (send s
        (append_header [] (record {
          control = record { fir = true; fin = true; con = false; uns = unsolicited; seq = seq };
          func = func_confirm;
          iin = 0;
        }))
        now).0

  -- The task in flight is late.
  abbrev pub time_out : Option (Task C R) → Session C R W → ℕ → Session C R W
  time_out none s now = s
  time_out (some t) s now =
      if ltb now t.deadline
      then s
      else failed_with (some t)
          (record s { stats = record s.stats { response_timeout = s.stats.response_timeout + 1 } })
          timeout now

  unfoldable pub check_timeout : Session C R W → ℕ → Session C R W
  check_timeout s now = time_out s.inflight s now

  abbrev pub is_busy : Option (Task C R) → Bool
  is_busy none = false
  is_busy (some t) = true

  -- Whether the tick was the link layer's.
  abbrev pub after_timeout : Session C R W → ℕ → (W × Bool) × Option R → Session C R W × Bool
  after_timeout s now ((w, failed), some e) = (record s { line = w }, false)
  after_timeout s now ((w, false), none) =
      (record s { line = w; link_deadline = now + s.cfg.link_timeout }, true)
  after_timeout s now ((w, true), none) =
      let q = record s {
        line = w;
        link_deadline = now + s.cfg.link_timeout;
        peer_silent = if is_busy s.inflight then s.peer_silent else true;
      } in
      (fail_inflight q timeout now, false)

  unfoldable pub check_link_timeout : Session C R W → ℕ → Session C R W × Bool
  check_link_timeout s now =
      if not (line.pending s.line) || ltb now s.link_deadline
      then (s, false)
      else after_timeout s now (line.on_timeout s.line)

  abbrev pub after_probe : Session C R W → ℕ → W × Option R → Session C R W
  after_probe s now (w, some e) = record s { line = w }
  after_probe s now (w, none) = record s { line = w; link_deadline = now + s.cfg.link_timeout }

  unfoldable pub check_keep_alive : Session C R W → ℕ → Session C R W
  check_keep_alive s now =
      if (s.cfg.keep_alive == 0) || is_busy s.inflight || line.busy s.line
      then s
      else if ltb (now - s.last_rx) s.cfg.keep_alive
      then s
      else after_probe (record s { last_rx = now }) now (line.send_link_status_request s.line)
