-- ===== src/Master/Session/Callers.antt =====
-- Who waits for a task of a master's session, and who has been told its outcome.
pub mod Answered
pub mod Responses
pub mod Solicited
pub mod Timers
pub mod Conserved
use go_dnp.Common.{
  ℕ, zero, suc, ◌+◌, Bool, true, false, not, ◌&&◌, ◌||◌, ltb, ◌==◌, if◌then◌else◌, Option, none,
  some, List, [], ◌∷◌, ◌++◌, ◌≡◌, refl, ◌∙◌, ap, arith,
}
use go_dnp.Master.Task.{Task}
use go_dnp.Master.Scheduler.{Scheduler, less, push, take_least, pop, waiting, keep_periodic}
use go_dnp.Master.Session.{
  Session, Failure, task_failed, Output, handed, answered, finish, rescheduled, complete_task,
  answer_all, failed_with, fails, is_set, counted, enqueue,
}

-- Whether a given caller is the one who waits, as a number.
unfoldable pub calls : ℕ → Option ℕ → ℕ
calls c none = 0
calls c (some d) = if c == d then 1 else 0

module _ (c : ℕ) where
  -- How often a caller is named, in a list and in what was told.
  unfoldable pub named : List ℕ → ℕ
  named [] = 0
  named (d ∷ ds) = calls c (some d) + named ds

  named-waiting : (d : Option ℕ) (ds : List ℕ) → named (waiting d ds) ≡ calls c d + named ds
  unfolding named calls
  named-waiting none ds = omega arith
  named-waiting (some d) ds = refl

module _ {R : Type 0} (c : ℕ) where
  unfoldable pub told_by : Output R → ℕ
  told_by (handed frag u s) = 0
  told_by (answered d outcome) = calls c (some d)

  unfoldable pub told : List (Output R) → ℕ
  told [] = 0
  told (o ∷ os) = told_by o + told os

  pub told-append : (os ps : List (Output R)) → told (os ++ ps) ≡ told os + told ps
  unfolding told
  told-append [] ps = omega arith
  told-append (o ∷ os) ps = omega (arith, told-append os ps)

module _ {C R : Type 0} (c : ℕ) where
  -- How often a caller waits for a queued task, and for that in flight.
  unfoldable pub queued : List (Task C R) → ℕ
  queued [] = 0
  queued (t ∷ ts) = calls c t.done + queued ts

  unfoldable pub flying : Option (Task C R) → ℕ
  flying none = 0
  flying (some t) = calls c t.done

  queued-append : (ts us : List (Task C R)) → queued (ts ++ us) ≡ queued ts + queued us
  unfolding queued
  queued-append [] us = omega arith
  queued-append (t ∷ ts) us = omega (arith, queued-append ts us)

  queued-chosen :
      (b : Bool) (t x : Task C R)
      → calls c (if b then x else t).done + calls c (if b then t else x).done
        ≡ calls c t.done + calls c x.done
  queued-chosen true t x = omega arith
  queued-chosen false t x = refl

  pub queued-take_least :
      (t : Task C R) (ts : List (Task C R))
      → calls c (take_least t ts).0.done + queued (take_least t ts).1 ≡ calls c t.done + queued ts
  unfolding queued take_least
  queued-take_least t [] = refl
  queued-take_least t (x ∷ xs) =
      omega (arith, queued-take_least (if less x t then x else t) xs, queued-chosen (less x t) t x)

  abbrev kept_or_failed : Bool → Task C R → List (Task C R) → List ℕ → List (Task C R) × List ℕ
  kept_or_failed b t kept failed = if b then (t ∷ kept, failed) else (kept, waiting t.done failed)

  kept-chosen :
      (b : Bool) (t : Task C R) (kept : List (Task C R)) (failed : List ℕ)
      → queued (kept_or_failed b t kept failed).0 + named c (kept_or_failed b t kept failed).1
        ≡ calls c t.done + queued kept + named c failed
  unfolding queued
  kept-chosen true t kept failed = refl
  kept-chosen false t kept failed = omega (arith, named-waiting c t.done failed)

  pub queued-keep_periodic :
      (ts : List (Task C R))
      → queued (keep_periodic ts).0 + named c (keep_periodic ts).1 ≡ queued ts
  unfolding queued keep_periodic named
  queued-keep_periodic [] = refl
  queued-keep_periodic (t ∷ ts) = omega (
    arith,
    kept-chosen (ltb 0 t.request.period) t (keep_periodic ts).0 (keep_periodic ts).1,
    queued-keep_periodic ts,
  )

  push-queued :
      (s : Scheduler C R) (t : Task C R) → queued (push s t).q ≡ queued s.q + calls c t.done
  unfolding push queued
  push-queued s t = omega (arith, queued-append s.q (record t { order = s.push_n + 1 } ∷ []))

module _ {C R W : Type 0} (c : ℕ) where
  -- How often a caller waits or has been told an outcome.
  unfoldable pub total : Session C R W → ℕ
  total s = queued c s.sched.q + flying c s.inflight + told c s.out

  finish-total :
      (s : Session C R W) (d : Option ℕ) (o : Option (Failure R))
      → total (finish s d o) ≡ total s + calls c d
  unfolding total finish calls told told_by
  finish-total s none o = omega arith
  finish-total s (some d) o = omega (arith, told-append c s.out (answered d o ∷ []))

  rescheduled-total :
      (s : Session C R W) (t : Task C R) (now : ℕ) → total (rescheduled s t now) ≡ total s
  unfolding rescheduled total calls
  rescheduled-total s t now = split (ltb 0 t.request.period)
    where
      again : Task C R
      again = record t { due = now + t.request.period; done = none }

      split :
          (b : Bool) → total (if b then record s { sched = push s.sched again } else s) ≡ total s
      split true = omega (arith, push-queued c s.sched again)
      split false = refl

  pub complete-total :
      (s : Session C R W) (t : Task C R) (o : Option (Failure R)) (now : ℕ)
      → total (complete_task s t o now) ≡ total s + calls c t.done
  unfolding complete_task
  complete-total s t o now =
      let ends = t.request.startup && (fails o || not (is_set t.next)) in
      let q : Session C R W = record s {
        startup_active = if ends then false else s.startup_active;
        stats = counted s.stats (fails o);
      } in
      omega (
        arith,
        finish-total (rescheduled q t now) t.done o,
        rescheduled-total q t now,
        same q (unfold total in refl),
      )
    where
      same : (q : Session C R W) → total q ≡ total s → total q ≡ total s
      same q e = e

  -- A task that is in flight is one that a caller waits for.
  pub flies-total :
      (s : Session C R W) (f : Option (Task C R))
      → total (record s { inflight = f }) + flying c s.inflight ≡ total s + flying c f
  unfolding total
  flies-total s f = omega arith

  pub answer_all-total :
      (ds : List ℕ) (s : Session C R W) → total (answer_all ds s) ≡ total s + named c ds
  unfolding answer_all total named told told_by
  answer_all-total [] s = omega arith
  answer_all-total (d ∷ ds) s = omega (
    arith,
    answer_all-total ds (record s { out = s.out ++ (answered d (some task_failed) ∷ []) }),
    told-append c s.out (answered d (some task_failed) ∷ []),
  )

  pub enqueue-total :
      (s : Session C R W) (t : Task C R) (now : ℕ)
      → total (enqueue s t now) ≡ total s + calls c t.done
  unfolding enqueue total
  enqueue-total s t now = omega (arith, push-queued c s.sched (record t { due = now }))
