-- ===== src/Master/Session/Events.antt =====
-- What drives a master's session, master/session.go: onFragment, and the events of `Run` and `serve`. The sizer
-- of objects is an argument.
use go_dnp.Common.{
  ℕ, ◌+◌, Bool, true, false, not, ◌&&◌, ◌==◌, if◌then◌else◌, Option, none, some, List, Result, ok,
  err,
}
use go_dnp.App.Errors.{Error}
use go_dnp.App.FuncCode.{func_response, func_unsolicited_response}
use go_dnp.App.Header.{Header, is_response, parse_header}
use go_dnp.App.Fragment.{Fragment, Status, nil, failed, out_of_fuel, parse_fragment}
use go_dnp.Master.Task.{Task}
use go_dnp.Master.Session.{
  Session, Line, Closures, no_connection, malformed, enqueue, failed_with, fail_inflight,
  startup_sequence,
}
use go_dnp.Master.Session.Sending.{
  run_due_task, check_timeout, check_link_timeout, check_keep_alive,
}
use go_dnp.Master.Session.Receiving.{observe_iin, on_solicited, on_unsolicited}

-- What happens to a session: a caller submits a task, a fragment is received, the timer fires, the connection
-- ends, and it is established again.
pub data Event (C R : Type 0) : Type 0 where
  submits : Task C R → Event C R
  receives : (octets : List ℕ) → Event C R
  ticks disconnects connects : Event C R

module _ {C R W : Type 0} (line : Line R W) (own : Closures C R) (sizer : ℕ → ℕ → Option ℕ) where
  -- Whether the header of a malformed response says that it answers the request in flight.
  abbrev answers : Result Error (Header × ℕ) → ℕ → Bool
  answers (err e) seq = false
  answers (ok (h, n)) seq = is_response h && (h.control.seq == seq)

  abbrev pub give_up_on : Option (Task C R) → Session C R W → List ℕ → Status → ℕ → Session C R W
  give_up_on none s octets e now = s
  give_up_on (some t) s octets e now =
      if answers (parse_header octets) t.seq then failed_with (some t) s (malformed e) now else s

  unfoldable pub on_malformed : Session C R W → List ℕ → Status → ℕ → Session C R W
  on_malformed s octets e now =
      give_up_on s.inflight
        (record s {
          stats = record s.stats { fragments_discarded = s.stats.fragments_discarded + 1 };
        })
        octets e now

  -- A fragment that can be parsed.
  unfoldable pub on_response : Session C R W → Fragment → ℕ → Session C R W
  on_response s frag now =
      let h = frag.header in
      let seen = observe_iin line own s h.iin now in
      if not (is_response h)
      then s
      else if (h.func == func_response) && not h.control.uns
      then on_solicited line own seen frag now
      else if (h.func == func_unsolicited_response) && h.control.uns
      then on_unsolicited line own seen frag now
      else record s {
        stats = record s.stats { fragments_discarded = s.stats.fragments_discarded + 1 };
      }

  abbrev pub after_parse : Session C R W → List ℕ → ℕ → Fragment × Status → Session C R W
  after_parse s octets now (frag, nil) = on_response s frag now
  after_parse s octets now (frag, failed e) = on_malformed s octets (failed e) now
  after_parse s octets now (frag, out_of_fuel) = on_malformed s octets out_of_fuel now

  unfoldable pub on_fragment : Session C R W → List ℕ → ℕ → Session C R W
  on_fragment s octets now =
      after_parse (record s { stats = record s.stats { fragments_rx = s.stats.fragments_rx + 1 } })
        octets now (parse_fragment sizer octets)

  unfoldable pub fail_connection : Session C R W → ℕ → Session C R W
  fail_connection s now = fail_inflight (record s { connected = false }) no_connection now

  -- The timer: the link layer's tick, or the end of a connection whose peer is silent, or the timeouts.
  abbrev pub after_link : Session C R W × Bool → ℕ → Session C R W
  after_link (s, true) now = s
  after_link (s, false) now =
      let checked = check_keep_alive line own (check_timeout line own s now) now in
      let ended = fail_connection (record s { peer_silent = false }) now in
      if s.peer_silent then ended else checked

  unfoldable pub on_tick : Session C R W → ℕ → Session C R W
  on_tick s now = after_link (check_link_timeout line own s now) now

  unfoldable pub connect : Session C R W → ℕ → Session C R W
  connect s now =
      startup_sequence
        (record s {
          stats = record s.stats { connections = s.stats.connections + 1 };
          line = line.reset s.line;
          connected = true;
          last_rx = now;
        })
        now

  unfoldable pub on_event : Session C R W → Event C R → ℕ → Session C R W
  on_event s (submits t) now = enqueue s t now
  on_event s (receives octets) now = on_fragment (record s { last_rx = now }) octets now
  on_event s ticks now = on_tick s now
  on_event s disconnects now = fail_connection s now
  on_event s connects now = s

  abbrev pub when_apart : Event C R → Session C R W → ℕ → Session C R W
  when_apart connects s now = connect s now
  when_apart e s now = s

  -- A pass of the loop of `serve`, or, while there is no connection, of `Run`: a task that is due is sent
  -- before the session waits for what happens.
  unfoldable pub serve : Session C R W → Event C R → ℕ → Session C R W
  serve s e now =
      let served = on_event (run_due_task line own s now) e now in
      if s.connected then served else when_apart e s now
