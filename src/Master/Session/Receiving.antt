-- ===== src/Master/Session/Receiving.antt =====
-- What a master's session does with the fragments it receives, and the events that drive it, master/session.go.
use go_dnp.Common.{
  ℕ, ◌+◌, ◌%◌, Bool, true, false, not, ◌&&◌, ◌||◌, ◌==◌, ◌!=◌, if◌then◌else◌, Option, none, some,
  [], ◌∷◌, ◌++◌,
}
use go_dnp.App.Iin
use go_dnp.App.Iin.{iin_need_time, iin_device_restart}
use go_dnp.App.Header.{Header}
use go_dnp.App.Fragment.{Fragment}
use go_dnp.Master.Task.{Job, call, Request, Next, no_next, follows, chosen, Task, new_task}
use go_dnp.Master.Session.{
  Session, Line, Closures, reported, handed, complete_task, startup_sequence,
}
use go_dnp.Master.Session.Sending.{send_task, send_confirm}

module _ {C R W : Type 0} (line : Line R W) (own : Closures C R) where
  unfoldable pub deliver : Session C R W → Fragment → Bool → Session C R W
  deliver s frag unsolicited = record s {
    out = s.out ++ (handed frag unsolicited s.synchronized ∷ []);
  }

  unfoldable pub observe_iin : Session C R W → ℕ → ℕ → Session C R W
  observe_iin s iin now =
      let q = record s { last_iin = iin; synchronized = not (Iin.has iin iin_need_time) } in
      if Iin.has iin iin_device_restart
      then (if s.startup_active
          then q
          else startup_sequence
              (record q { stats = record s.stats { restarts_seen = s.stats.restarts_seen + 1 } })
              now)
      else q

  -- The closures that a task has; those of the jobs that are known do nothing with a response.
  abbrev put_job : Task C R → C × Option R → Task C R
  put_job t (c, e) = record t { request = record t.request { job = call c }; failure = e }

  abbrev pub see_fragment : Job C → Task C R → Fragment → Task C R
  see_fragment (call c) t frag = put_job t (own.on_fragment c t.failure frag)
  see_fragment job t frag = t

  unfoldable pub ran_on_fragment : Task C R → Fragment → Task C R
  ran_on_fragment t frag = see_fragment t.request.job t frag

  abbrev pub see_done : Job C → Task C R → ℕ → Task C R
  see_done (call c) t iin = put_job t (own.on_done c t.failure iin)
  see_done job t iin = t

  unfoldable pub ran_on_done : Task C R → ℕ → Task C R
  ran_on_done t iin = see_done t.request.job t iin

  -- The task that follows.
  abbrev constructed : Option (Request C × Next C) → Option (Task C R)
  constructed none = none
  constructed (some (r, n)) = some (new_task r n)

  abbrev choose : Job C → Option (Task C R)
  choose (call c) = constructed (own.next c)
  choose job = none

  abbrev next_of : Next C → Job C → Option (Task C R)
  next_of no_next job = none
  next_of (follows r n) job = some (new_task r n)
  next_of chosen job = choose job

  unfoldable pub next_task : Task C R → Option (Task C R)
  next_task t = next_of t.next t.request.job

  -- The end of the response: the task has failed, or another follows it at once, or it is done.
  abbrev pub conclude : Option R → Option (Task C R) → Session C R W → Task C R → ℕ → Session C R W
  conclude (some e) n s t now = complete_task s t (some (reported e)) now
  conclude none none s t now = complete_task s t none now
  conclude none (some nt) s t now =
      send_task line own (complete_task s (record t { done = none }) none now)
        (record nt { done = t.done }) now

  unfoldable pub finish_task : Session C R W → Task C R → ℕ → ℕ → Session C R W
  finish_task s t iin now =
      let t' = ran_on_done t iin in
      conclude t'.failure (next_task t') (record s { inflight = none }) t' now

  unfoldable pub confirm_if : Bool → Session C R W → ℕ → Bool → ℕ → Session C R W
  confirm_if con s seq unsolicited now =
      let q = send_confirm line own s seq unsolicited now in if con then q else s

  -- A fragment that continues the series is accepted.
  unfoldable pub accept_fragment : Session C R W → Task C R → Fragment → ℕ → Session C R W
  accept_fragment s t frag now =
      let seq = frag.header.control.seq in
      let t' = ran_on_fragment (record t { started = true; resp_seq = seq }) frag in
      let q = confirm_if frag.header.control.con (deliver s frag false) seq false now in
      if frag.header.control.fin
      then finish_task q t' frag.header.iin now
      else record q { inflight = some (record t' { deadline = now + s.cfg.response_timeout }) }

  -- A fragment that repeats one is confirmed again.
  unfoldable pub repeat_fragment : Session C R W → Task C R → Fragment → ℕ → Session C R W
  repeat_fragment s t frag now =
      let c = frag.header.control in
      let q =
        confirm_if c.con
          (record s {
            stats = record s.stats { fragments_discarded = s.stats.fragments_discarded + 1 };
          })
          c.seq false now in
      record q { inflight = some (record t { deadline = now + s.cfg.response_timeout }) }

  unfoldable pub is_stale : Task C R → Header → Bool
  is_stale t h =
      let seq = h.control.seq in
      if not t.started || h.control.fir
      then seq != t.seq
      else (seq != (t.resp_seq + 1) % 16) && (seq != t.resp_seq)

  unfoldable pub is_repeat : Task C R → Header → Bool
  is_repeat t h =
      if not t.started
      then not h.control.fir
      else if h.control.fir
      then true
      else h.control.seq == t.resp_seq

  abbrev pub for_task : Option (Task C R) → Session C R W → Fragment → ℕ → Session C R W
  for_task none s frag now = s
  for_task (some t) s frag now =
      if is_stale t frag.header
      then s
      else if is_repeat t frag.header
      then repeat_fragment s t frag now
      else accept_fragment s t frag now

  unfoldable pub on_solicited : Session C R W → Fragment → ℕ → Session C R W
  on_solicited s frag now = for_task s.inflight s frag now

  unfoldable pub on_unsolicited : Session C R W → Fragment → ℕ → Session C R W
  on_unsolicited s frag now =
      let seq = frag.header.control.seq in
      let duplicate = s.has_unsol_seq && (seq == s.unsol_seq) in
      let q = record s {
        stats = record s.stats { unsolicited = s.stats.unsolicited + 1 };
        unsol_seq = seq;
        has_unsol_seq = true;
      } in
      let told = if duplicate then q else deliver q frag true in
      confirm_if frag.header.control.con told seq true now
