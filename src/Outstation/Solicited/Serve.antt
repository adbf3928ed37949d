-- ===== src/Outstation/Solicited/Serve.antt =====
-- The events of an outstation's connection, outstation/session.go: handle, resumeDeferredRead, the timers and
-- what `serve` does for each event. Restarts and updates that the application asks for, the freezes that fall due and the
-- timeout of a file transfer are what the handlers' tick does.
use go_dnp.Common.{
  ℕ, ◌+◌, Bool, true, false, not, ◌||◌, ltb, if◌then◌else◌, Option, none, some, List, [], ◌∷◌,
}
use go_dnp.App.Fragment.{Fragment, Status, nil, failed, out_of_fuel, parse_fragment}
use go_dnp.Stack.{Received}
use go_dnp.Outstation.Unsolicited
use go_dnp.Outstation.Unsolicited.{Reporter, fresh, poll_unsolicited}
use go_dnp.Outstation.Solicited.{Session, Line, clock_due, check_confirm_timeout, advance_response}
use go_dnp.Outstation.Solicited.Requests.{
  Handlers, defer_read, reporting, reported, reject_malformed, on_request,
}

module _ {D V W R : Type 0} (line : Line R W) (acts : Handlers D V R) (out : Reporter W V R)
    (sizer : ℕ → ℕ → Option ℕ) where
  abbrev pub parsed : Session D V W → Received → ℕ → Fragment × Status → Session D V W × Option R
  parsed s r now (frag, nil) = on_request line acts out s r frag now
  parsed s r now (frag, failed e) = reject_malformed line s r (failed e) now
  parsed s r now (frag, out_of_fuel) = reject_malformed line s r out_of_fuel now

  abbrev pub after_defer : Session D V W × Bool → Received → ℕ → Session D V W × Option R
  after_defer (s, true) r now = (s, none)
  after_defer (s, false) r now =
      parsed (record s { dev = (clock_due s.cfg s.dev now).0 }) r now
        (parse_fragment sizer r.fragment)

  unfoldable pub handle : Session D V W → Received → ℕ → Session D V W × Option R
  handle s r now = after_defer (defer_read s r) r now

  -- What follows if there is no error.
  abbrev pub unless_failed :
      Session D V W × Option R
      → (Session D V W → Session D V W × Option R)
      → Session D V W × Option R
  unless_failed (s, some e) k = (s, some e)
  unless_failed (s, none) k = k s

  abbrev pub advance : ℕ → Session D V W → Session D V W × Option R
  advance now s = advance_response line s now

  abbrev pub resumed : Option Received → Session D V W → ℕ → Session D V W × Option R
  resumed none s now = (s, none)
  resumed (some r) s now =
      let answered =
        unless_failed (handle (record s { deferred_read = none }) r now) (advance now) in
      if s.unsol.awaiting then (s, none) else answered

  unfoldable pub resume_deferred_read : Session D V W → ℕ → Session D V W × Option R
  resume_deferred_read s now = resumed s.deferred_read s now

  -- What is received: each fragment is handled, the first error ending that; then the response goes on.
  unfoldable pub handle_all : Session D V W → List Received → ℕ → Session D V W × Option R
  handle_all s [] now = (s, none)
  handle_all s (r ∷ rs) now = unless_failed (handle s r now) (λ q. handle_all q rs now)

  unfoldable pub on_data : Session D V W → List Received → ℕ → Session D V W × Option R
  on_data s rs now =
      unless_failed (unless_failed (handle_all s rs now) (advance now))
        (λ q. resume_deferred_read q now)

  abbrev pub after_timeout : Session D V W → ℕ → (W × Bool) × Option R → Session D V W
  after_timeout s now ((w, b), some e) = record s { line = w }
  after_timeout s now ((w, b), none) = record s {
    line = w;
    link_deadline = now + s.cfg.link_timeout;
  }

  unfoldable pub check_link_timeout : Session D V W → ℕ → Session D V W
  check_link_timeout s now =
      if not (line.pending s.line) || ltb now s.link_deadline
      then s
      else after_timeout s now (line.on_timeout s.line)

  abbrev polled : Session D V W → (Unsolicited.Session V × W) × Option R → Session D V W × Option R
  polled s ((q, w), e) = (record (reported s q) { line = w }, e)

  unfoldable pub poll : Session D V W → ℕ → Session D V W × Option R
  poll s now = polled s (poll_unsolicited out (reporting s) s.line now)

  unfoldable pub on_tick : Session D V W → ℕ → Session D V W × Option R
  on_tick s now =
      let q = check_confirm_timeout (check_link_timeout s now) now in
      let ticked = record q { dev = acts.tick (clock_due q.cfg q.dev now).0 now } in
      unless_failed (poll ticked now) (λ q. resume_deferred_read q now)

  -- A connection is established: what belonged to the last one is dropped, and the outstation announces itself.
  unfoldable pub connect : Session D V W → ℕ → Session D V W × Option R
  connect s now =
      let q = record s {
        connected = true;
        last = record s.last { valid = false };
        deferred_read = none;
        unsol = fresh;
      } in
      ((poll q now).0, none)
