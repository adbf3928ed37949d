-- ===== src/Master/Session/Callers/Answered.antt =====
-- Each caller of a master's session is told the outcome of its task once.
use go_dnp.Common.{
  ℕ, ◌+◌, ◌%◌, Bool, true, false, ◌==◌, if◌then◌else◌, Option, none, some, List, ◌≡◌, refl, ap, ◌∙◌,
  arith,
}
use go_dnp.App.Errors
use go_dnp.App.FuncCode.{func_auth_request}
use go_dnp.App.Fragment.{Builder}
use go_dnp.Master.Task.{Task}
use go_dnp.Master.Session.{
  Session, Line, Closures, Failure, rescheduled, finish, complete_task, failed_with,
}
use go_dnp.Master.Session.Sending.{
  after_send, send, request_fragment, sent_task, after_transmit, transmit, send_task,
}
use go_dnp.Master.Session.Callers.{calls, flying, total, complete-total, flies-total}

module _ {C R W : Type 0} where
  finish-inflight :
      (s : Session C R W) (d : Option ℕ) (o : Option (Failure R))
      → (finish s d o).inflight ≡ s.inflight
  unfolding finish
  finish-inflight s none o = refl
  finish-inflight s (some d) o = refl

  rescheduled-inflight :
      (s : Session C R W) (t : Task C R) (now : ℕ) → (rescheduled s t now).inflight ≡ s.inflight
  unfolding rescheduled
  rescheduled-inflight s t now = ground arith

  pub complete-inflight :
      (s : Session C R W) (t : Task C R) (o : Option (Failure R)) (now : ℕ)
      → (complete_task s t o now).inflight ≡ s.inflight
  unfolding complete_task
  complete-inflight s t o now = finish-inflight _ t.done o ∙ rescheduled-inflight _ t now

module _ {C R W : Type 0} (line : Line R W) (own : Closures C R) (c : ℕ) where
  -- A session that only the stack has changed.
  pub record Sent (s q : Session C R W) : Type 0 where
    pub same : total c q ≡ total c s
    pub kept : q.inflight ≡ s.inflight

  after_send-Sent :
      (s : Session C R W) (now : ℕ) (r : W × Option R) → Sent s (after_send line own s now r).0
  unfolding total
  after_send-Sent s now (w, some e) = record { same = refl; kept = refl }
  after_send-Sent s now (w, none) = record { same = refl; kept = refl }

  pub send-Sent :
      (s : Session C R W) (frag : List ℕ) (now : ℕ) → Sent s (send line own s frag now).0
  unfolding send
  send-Sent s frag now = after_send-Sent s now (line.send s.line frag)

  none_flies : (s : Session C R W) → s.inflight ≡ none → flying c s.inflight ≡ 0
  unfolding flying
  none_flies s h = ap (flying c) h

  sent_task-total :
      (s : Session C R W) (t : Task C R) (now : ℕ)
      → s.inflight ≡ none
      → total c (sent_task line own s t now) ≡ total c s + calls c t.done
  unfolding sent_task total flying
  sent_task-total s t now h = choose t.request.no_response
    where
      q : Session C R W
      q = record s { stats = record s.stats { tasks_run = s.stats.tasks_run + 1 } }

      counts : total c q ≡ total c s
      counts = refl

      t' : Task C R
      t' = record t { seq = s.seq; started = false }

      f : Option (Task C R)
      f = some (record t' { deadline = now + s.cfg.response_timeout })

      choose :
          (b : Bool)
          → total c (
              if b
              then complete_task (record q { inflight = none }) t' none now
              else record q { inflight = f })
            ≡ total c s + calls c t.done
      choose true = omega (
        arith,
        complete-total c (record q { inflight = none }) t' none now,
        flies-total c q none,
        none_flies s h,
        counts,
      )
      choose false = omega (arith, flies-total c q f, none_flies s h, counts)

  transmit-total :
      (s : Session C R W) (t : Task C R) (now : ℕ) (r : Builder × Option Errors.Error)
      → s.inflight ≡ none
      → total c (transmit line own s t now r) ≡ total c s + calls c t.done
  transmit-total s t now (b, some e) h = complete-total c s t _ now
  transmit-total s t now (b, none) h = sent (send line own s b.buf now) (send-Sent s b.buf now)
    where
      sent :
          (r : Session C R W × Option (Failure R))
          → Sent s r.0
          → total c (after_transmit line own t now r) ≡ total c s + calls c t.done
      sent (q, some e) k = omega (arith, complete-total c q t (some e) now, k.same)
      sent (q, none) k = omega (arith, sent_task-total q t now (k.kept ∙ h), k.same)

  pub send_task-total :
      (s : Session C R W) (t : Task C R) (now : ℕ)
      → s.inflight ≡ none
      → total c (send_task line own s t now) ≡ total c s + calls c t.done
  unfolding send_task
  send_task-total s t now h =
      let t' : Task C R = record t { failure = none } in
      let q : Session C R W = record s {
        seq = if t.request.func_code == func_auth_request then s.seq else (s.seq + 1) % 16;
      } in
      omega (
        arith,
        transmit-total q t' now (request_fragment line own q t') h,
        same q (unfold total in refl),
      )
    where
      same : (q : Session C R W) → total c q ≡ total c s → total c q ≡ total c s
      same q e = e

  pub failed_with-total :
      (s : Session C R W) (f : Option (Task C R)) (e : Failure R) (now : ℕ)
      → s.inflight ≡ f
      → total c (failed_with f s e now) ≡ total c s
  unfolding flying
  failed_with-total s none e now h = refl
  failed_with-total s (some t) e now h = omega (
    arith,
    complete-total c (record s { inflight = none }) t (some e) now,
    flies-total c s none,
    flown t h,
    nothing,
  )
    where
      nothing : flying {C = C} {R = R} c none ≡ 0
      nothing = refl

      flown : (t : Task C R) → s.inflight ≡ some t → flying c s.inflight ≡ calls c t.done
      flown t h = ap (flying c) h
