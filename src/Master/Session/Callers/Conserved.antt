-- ===== src/Master/Session/Callers/Conserved.antt =====
-- Whatever happens to a master's session, no caller is lost, and none is told twice.
use go_dnp.Common.{
  ℕ, ◌+◌, Bool, true, false, not, ◌&&◌, ◌==◌, if◌then◌else◌, Option, none, some, List, ◌≡◌, refl,
  ◌∙◌, arith,
}
use go_dnp.App.FuncCode.{func_response, func_unsolicited_response}
use go_dnp.App.Header.{is_response, Header}
use go_dnp.App.Fragment.{Fragment, Status, nil, failed, out_of_fuel, parse_fragment}
use go_dnp.Master.Task.{Task}
use go_dnp.Master.Session.{Session, Line, Closures, no_connection, malformed, fail_inflight}
use go_dnp.Master.Session.Sending.{
  run_due_task, check_timeout, check_link_timeout, check_keep_alive,
}
use go_dnp.Master.Session.Receiving.{observe_iin}
use go_dnp.Master.Session.Events.{
  Event, submits, receives, ticks, disconnects, connects, give_up_on, on_malformed, on_response,
  after_parse, on_fragment, fail_connection, after_link, on_tick, connect, on_event, when_apart,
  serve,
}
use go_dnp.Master.Session.Callers.{calls, total, enqueue-total}
use go_dnp.Master.Session.Callers.Answered.{Sent, failed_with-total}
use go_dnp.Master.Session.Callers.Responses.{startup-Sent, observe-Sent}
use go_dnp.Master.Session.Callers.Solicited.{on_solicited-total, on_unsolicited-total}
use go_dnp.Master.Session.Callers.Timers.{
  run_due_task-total, check_timeout-total, check_link-total, keep_alive-total,
}

-- How often a caller is the one whom an event adds; a session without a connection takes no tasks.
unfoldable pub submitted : {C R : Type 0} → ℕ → Bool → Event C R → ℕ
submitted c connected (submits t) = if connected then calls c t.done else 0
submitted c connected e = 0

module _ {C R W : Type 0} (line : Line R W) (own : Closures C R) (sizer : ℕ → ℕ → Option ℕ)
    (c : ℕ) where
  fail_connection-total :
      (s : Session C R W) (now : ℕ) → total c (fail_connection line own sizer s now) ≡ total c s
  unfolding fail_connection fail_inflight
  fail_connection-total s now =
      failed_with-total line own c (record s { connected = false }) s.inflight no_connection now
        refl
      ∙ (unfold total in refl)

  give_up-total :
      (f : Option (Task C R)) (s : Session C R W) (octets : List ℕ) (e : Status) (now : ℕ)
      → s.inflight ≡ f
      → total c (give_up_on line own sizer f s octets e now) ≡ total c s
  give_up-total none s octets e now h = refl
  give_up-total (some t) s octets e now h =
      pick _ _ (failed_with-total line own c s (some t) (malformed e) now h)
    where
      pick :
          (b : Bool) (x : Session C R W)
          → total c x ≡ total c s
          → total c (if b then x else s) ≡ total c s
      pick true x h = h
      pick false x h = refl

  malformed-total :
      (s : Session C R W) (octets : List ℕ) (e : Status) (now : ℕ)
      → total c (on_malformed line own sizer s octets e now) ≡ total c s
  unfolding on_malformed
  malformed-total s octets e now =
      let q : Session C R W = record s {
        stats = record s.stats { fragments_discarded = s.stats.fragments_discarded + 1 };
      } in
      give_up-total s.inflight q octets e now refl ∙ (unfold total in refl)

  response-total :
      (s : Session C R W) (frag : Fragment) (now : ℕ)
      → total c (on_response line own sizer s frag now) ≡ total c s
  unfolding on_response
  response-total s frag now = pick (not (is_response h)) _ _ refl (
      pick ((h.func == func_response) && not h.control.uns) _ _
        (on_solicited-total line own c seen frag now ∙ k.same)
        (pick ((h.func == func_unsolicited_response) && h.control.uns) _ _
          (on_unsolicited-total line own c seen frag now ∙ k.same) discarded))
    where
      h : Header
      h = frag.header

      d : Session C R W
      d = record s {
        stats = record s.stats { fragments_discarded = s.stats.fragments_discarded + 1 };
      }

      discarded : total c d ≡ total c s
      discarded = unfold total in refl

      seen : Session C R W
      seen = observe_iin line own s h.iin now

      k : Sent line own c s seen
      k = observe-Sent line own c s h.iin now

      pick :
          (b : Bool) (x y : Session C R W)
          → total c x ≡ total c s
          → total c y ≡ total c s
          → total c (if b then x else y) ≡ total c s
      pick true x y h k = h
      pick false x y h k = k

  parse-total :
      (s : Session C R W) (octets : List ℕ) (now : ℕ) (r : Fragment × Status)
      → total c (after_parse line own sizer s octets now r) ≡ total c s
  parse-total s octets now (frag, nil) = response-total s frag now
  parse-total s octets now (frag, failed e) = malformed-total s octets (failed e) now
  parse-total s octets now (frag, out_of_fuel) = malformed-total s octets out_of_fuel now

  tick-total : (s : Session C R W) (now : ℕ) → total c (on_tick line own sizer s now) ≡ total c s
  unfolding on_tick
  tick-total s now = linked (check_link_timeout line own s now) (check_link-total line own c s now)
    where
      linked :
          (r : Session C R W × Bool)
          → total c r.0 ≡ total c s
          → total c (after_link line own sizer r now) ≡ total c s
      linked (q, true) h = h
      linked (q, false) h = choose q.peer_silent
        where
          checked : Session C R W
          checked = check_timeout line own q now

          silent : total c (record q { peer_silent = false }) ≡ total c q
          silent = unfold total in refl

          choose :
              (b : Bool)
              → total c (
                  if b
                  then fail_connection line own sizer (record q { peer_silent = false }) now
                  else check_keep_alive line own checked now)
                ≡ total c s
          choose true = fail_connection-total (record q { peer_silent = false }) now ∙ silent ∙ h
          choose false =
              keep_alive-total line own c checked now ∙ check_timeout-total line own c q now ∙ h

  on_event-total :
      (s : Session C R W) (e : Event C R) (now : ℕ)
      → total c (on_event line own sizer s e now) ≡ total c s + submitted c true e
  unfolding on_event on_fragment submitted
  on_event-total s (submits t) now = enqueue-total c s t now
  on_event-total s (receives octets) now =
      let q : Session C R W = record s {
        last_rx = now;
        stats = record s.stats { fragments_rx = s.stats.fragments_rx + 1 };
      } in
      omega (
        arith,
        parse-total q octets now (parse_fragment sizer octets),
        same q (unfold total in refl),
      )
    where
      same : (q : Session C R W) → total c q ≡ total c s → total c q ≡ total c s
      same q e = e
  on_event-total s ticks now = omega (arith, tick-total s now)
  on_event-total s disconnects now = omega (arith, fail_connection-total s now)
  on_event-total s connects now = omega arith

  connect-total : (s : Session C R W) (now : ℕ) → total c (connect line own sizer s now) ≡ total c s
  unfolding connect
  connect-total s now =
      let q : Session C R W = record s {
        stats = record s.stats { connections = s.stats.connections + 1 };
        line = line.reset s.line;
        connected = true;
        last_rx = now;
      } in
      (startup-Sent line own c q now).same ∙ (unfold total in refl)

  apart-total :
      (s : Session C R W) (e : Event C R) (now : ℕ)
      → total c (when_apart line own sizer e s now) ≡ total c s + submitted c false e
  unfolding submitted
  apart-total s (submits t) now = omega arith
  apart-total s (receives octets) now = omega arith
  apart-total s ticks now = omega arith
  apart-total s disconnects now = omega arith
  apart-total s connects now = omega (arith, connect-total s now)

  -- Whatever happens to a session - a task submitted or due, a fragment of any octets, a timeout, the loss of the
  -- connection, a restart of the outstation - the tasks that a given caller waits for, queued or in flight, and
  -- the outcomes that it has been told are together as many as before, one more if it now submits a task.
  pub serve-total :
      (s : Session C R W) (e : Event C R) (now : ℕ)
      → total c (serve line own sizer s e now) ≡ total c s + submitted c s.connected e
  unfolding serve
  serve-total s e now = choose s.connected
    where
      q : Session C R W
      q = run_due_task line own s now

      choose :
          (b : Bool)
          → total c
              (if b then on_event line own sizer q e now else when_apart line own sizer e s now)
            ≡ total c s + submitted c b e
      choose true = omega (arith, on_event-total q e now, run_due_task-total line own c s now)
      choose false = apart-total s e now
