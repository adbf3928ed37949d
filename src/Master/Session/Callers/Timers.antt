-- ===== src/Master/Session/Callers/Timers.antt =====
-- What the timer does for the callers of a master's session, and a task that is due.
use go_dnp.Common.{
  ℕ, ◌+◌, ◌-◌, Bool, true, false, not, ◌||◌, ltb, ◌==◌, if◌then◌else◌, Option, none, some, List, [],
  ◌∷◌, ◌≡◌, refl, ap, ◌∙◌, arith,
}
use go_dnp.Master.Task.{Task}
use go_dnp.Master.Scheduler
use go_dnp.Master.Session.{Session, Line, Closures, timeout, fail_inflight}
use go_dnp.Master.Session.Sending.{
  send_popped, run_first, run_if_free, run_due_task, time_out, check_timeout, is_busy,
  after_timeout, check_link_timeout, after_probe, check_keep_alive,
}
use go_dnp.Master.Session.Callers.{calls, queued, total, queued-take_least}
use go_dnp.Master.Session.Callers.Answered.{send_task-total, failed_with-total}

module _ {C R W : Type 0} (line : Line R W) (own : Closures C R) (c : ℕ) where
  pop-total :
      (s : Session C R W) (q : List (Task C R)) (n now : ℕ)
      → s.inflight ≡ none
      → s.sched.q ≡ q
      → total c (send_popped line own s (Scheduler.pop_list n q) now) ≡ total c s
  pop-total s [] n now h e = refl
  pop-total s (t ∷ ts) n now h e =
      let r = Scheduler.take_least t ts in
      omega (
        arith,
        send_task-total line own c (record s { sched = record { q = r.1; push_n = n } }) r.0 now h,
        queued-take_least c t ts,
        sum r.1,
        ap (queued c) e,
        front,
      )
    where
      sum :
          (q : List (Task C R))
          → total c (record s { sched = record { q = q; push_n = n } }) + queued c s.sched.q
            ≡ total c s + queued c q
      sum q = unfold total in omega arith

      front : queued c (t ∷ ts) ≡ calls c t.done + queued c ts
      front = unfold queued in refl

  pub run_due_task-total :
      (s : Session C R W) (now : ℕ) → total c (run_due_task line own s now) ≡ total c s
  unfolding run_due_task Scheduler.pop
  run_due_task-total s now = free s.inflight refl
    where
      pick :
          (b : Bool) (x : Session C R W)
          → total c x ≡ total c s
          → total c (if b then s else x) ≡ total c s
      pick true x h = refl
      pick false x h = h

      first :
          (f : Option (Task C R))
          → s.inflight ≡ none
          → total c (run_first line own s f now) ≡ total c s
      first none h = refl
      first (some t) h = pick (ltb now t.due) _ (pop-total s s.sched.q s.sched.push_n now h refl)

      free :
          (f : Option (Task C R))
          → s.inflight ≡ f
          → total c (run_if_free line own s f now) ≡ total c s
      free (some t) h = refl
      free none h = first (Scheduler.peek s.sched) h

  pub check_timeout-total :
      (s : Session C R W) (now : ℕ) → total c (check_timeout line own s now) ≡ total c s
  unfolding check_timeout
  check_timeout-total s now = late s.inflight refl
    where
      q : Session C R W
      q = record s { stats = record s.stats { response_timeout = s.stats.response_timeout + 1 } }

      same : total c q ≡ total c s
      same = unfold total in refl

      pick :
          (b : Bool) (x : Session C R W)
          → total c x ≡ total c s
          → total c (if b then s else x) ≡ total c s
      pick true x h = refl
      pick false x h = h

      late :
          (f : Option (Task C R)) → s.inflight ≡ f → total c (time_out line own f s now) ≡ total c s
      late none h = refl
      late (some t) h =
          pick (ltb now t.deadline) _ (failed_with-total line own c q (some t) timeout now h ∙ same)

  after_timeout-total :
      (s : Session C R W) (now : ℕ) (r : (W × Bool) × Option R)
      → total c (after_timeout line own s now r).0 ≡ total c s
  unfolding fail_inflight
  after_timeout-total s now ((w, b), some e) = unfold total in refl
  after_timeout-total s now ((w, false), none) = unfold total in refl
  after_timeout-total s now ((w, true), none) =
      let q : Session C R W = record s {
        line = w;
        link_deadline = now + s.cfg.link_timeout;
        peer_silent = if is_busy line own s.inflight then s.peer_silent else true;
      } in
      failed_with-total line own c q s.inflight timeout now refl ∙ (unfold total in refl)

  pub check_link-total :
      (s : Session C R W) (now : ℕ) → total c (check_link_timeout line own s now).0 ≡ total c s
  unfolding check_link_timeout
  check_link-total s now =
      pick (not (line.pending s.line) || ltb now s.link_deadline) _
        (after_timeout-total s now (line.on_timeout s.line))
    where
      pick :
          (b : Bool) (r : Session C R W × Bool)
          → total c r.0 ≡ total c s
          → total c (if◌then◌else◌ {A = Session C R W × Bool} b (s, false) r).0 ≡ total c s
      pick true r h = refl
      pick false r h = h

  pub keep_alive-total :
      (s : Session C R W) (now : ℕ) → total c (check_keep_alive line own s now) ≡ total c s
  unfolding check_keep_alive
  keep_alive-total s now =
      pick ((s.cfg.keep_alive == 0) || is_busy line own s.inflight || line.busy s.line) _ (
        pick (ltb (now - s.last_rx) s.cfg.keep_alive) _
          (probed (line.send_link_status_request s.line)))
    where
      pick :
          (b : Bool) (x : Session C R W)
          → total c x ≡ total c s
          → total c (if b then s else x) ≡ total c s
      pick true x h = refl
      pick false x h = h

      probed :
          (r : W × Option R)
          → total c (after_probe line own (record s { last_rx = now }) now r) ≡ total c s
      probed (w, some e) = unfold total in refl
      probed (w, none) = unfold total in refl
