-- ===== src/Master/Session/Callers/Responses.antt =====
-- What a response does for the callers of a master's session.
use go_dnp.Common.{
  ℕ, ◌+◌, Bool, true, false, not, if◌then◌else◌, List, [], ◌∷◌, ◌≡◌, refl, ◌∙◌, arith,
}
use go_dnp.App.Iin
use go_dnp.App.Iin.{iin_need_time, iin_device_restart}
use go_dnp.App.Fragment.{Fragment}
use go_dnp.Master.Task.{Next, no_next, follows, chosen, new_task}
use go_dnp.Master.Scheduler
use go_dnp.Master.Session.{
  Session, Line, Closures, enqueue, handed, startup_steps, startup_sequence, begin_with, follow_all,
  answer_all,
}
use go_dnp.Master.Session.Sending.{send_confirm}
use go_dnp.Master.Session.Receiving.{deliver, observe_iin, confirm_if}
use go_dnp.Master.Session.Callers.{
  calls, queued, told, told_by, told-append, total, answer_all-total, enqueue-total,
  queued-keep_periodic,
}
use go_dnp.Master.Session.Callers.Answered.{Sent, send-Sent}

module _ {C R W : Type 0} where
  answer_all-inflight : (ds : List ℕ) (s : Session C R W) → (answer_all ds s).inflight ≡ s.inflight
  unfolding answer_all
  answer_all-inflight [] s = refl
  answer_all-inflight (d ∷ ds) s = answer_all-inflight ds _

module _ {C R W : Type 0} (line : Line R W) (own : Closures C R) (c : ℕ) where
  begin-Sent :
      (n : Next C) (s q : Session C R W) (now : ℕ)
      → Sent line own c s q
      → Sent line own c s (begin_with n q now)
  unfolding calls
  begin-Sent no_next s q now h = h
  begin-Sent chosen s q now h = h
  begin-Sent (follows r n) s q now h = record {
    same = omega (
      arith,
      enqueue-total c (record q { startup_active = true }) (new_task r n) now,
      active,
      h.same,
    );
    kept = (unfold enqueue in h.kept);
  }
    where
      active : total c (record q { startup_active = true }) ≡ total c q
      active = unfold total in refl

  cleared-Sent :
      (s : Session C R W)
      → (let (sched, failed) = Scheduler.clear s.sched in
          Sent line own c s (answer_all failed (record s { sched = sched })))
  unfolding Scheduler.clear
  cleared-Sent s =
      let (kept, failed) = Scheduler.keep_periodic s.sched.q in
      let q : Session C R W = record s { sched = record { q = kept; push_n = s.sched.push_n } } in
      record {
        same = omega (arith, answer_all-total c failed q, queued-keep_periodic c s.sched.q, sum);
        kept = answer_all-inflight failed q;
      }
    where
      sum :
          total c (record s {
            sched = record { q = (Scheduler.keep_periodic s.sched.q).0; push_n = s.sched.push_n };
          })
            + queued c s.sched.q
          ≡ total c s + queued c (Scheduler.keep_periodic s.sched.q).0
      sum = unfold total in omega arith

  pub startup-Sent : (s : Session C R W) (now : ℕ) → Sent line own c s (startup_sequence s now)
  unfolding startup_sequence
  startup-Sent s now = begin-Sent (follow_all (startup_steps s.cfg)) s _ now (cleared-Sent s)

  pub observe-Sent :
      (s : Session C R W) (iin now : ℕ) → Sent line own c s (observe_iin line own s iin now)
  unfolding observe_iin
  observe-Sent s iin now = choose (Iin.has iin iin_device_restart) s.startup_active
    where
      q : Session C R W
      q = record s { last_iin = iin; synchronized = not (Iin.has iin iin_need_time) }

      again : Session C R W
      again = record q { stats = record s.stats { restarts_seen = s.stats.restarts_seen + 1 } }

      same : Sent line own c s q
      same = record { same = (unfold total in refl); kept = refl }

      choose :
          (b active : Bool)
          → Sent line own c s (if b then (if active then q else startup_sequence again now) else q)
      choose false active = same
      choose true true = same
      choose true false =
          let k = startup-Sent again now in
          record { same = k.same ∙ (unfold total in refl); kept = k.kept }

  pub confirm-Sent :
      (b : Bool) (s : Session C R W) (seq : ℕ) (u : Bool) (now : ℕ)
      → Sent line own c s (confirm_if line own b s seq u now)
  unfolding confirm_if send_confirm
  confirm-Sent true s seq u now = send-Sent line own c s _ now
  confirm-Sent false s seq u now = record { same = refl; kept = refl }

  pub deliver-total :
      (s : Session C R W) (frag : Fragment) (u : Bool)
      → total c (deliver line own s frag u) ≡ total c s
  unfolding deliver total told told_by
  deliver-total s frag u = omega (arith, told-append c s.out (handed frag u s.synchronized ∷ []))
