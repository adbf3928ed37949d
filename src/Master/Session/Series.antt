-- ===== src/Master/Session/Series.antt =====
-- The fragments of a response that a master's session hands to the handler, against a reader of the series.
pub mod Agreement
pub mod Steps
pub mod Refinement
use go_dnp.Common.{
  ℕ, zero, suc, ◌+◌, ◌%◌, ◌<◌, Bool, true, false, not, ◌&&◌, ◌||◌, ltb, ◌==◌, ◌!=◌, if◌then◌else◌,
  Option, none, some, List, [], ◌∷◌, ◌++◌, map, append-nil, append_assoc, ◌≡◌, ◌⊎◌, inl, inr, refl,
  sym, ap, ◌∙◌, arith,
}
use go_dnp.App.Header.{Header}
use go_dnp.App.Fragment.{Fragment}
use go_dnp.Master.Task.{
  Job, clear_restart, unsolicited, scan, range_scan, restart, write_time, freeze, call, Next,
  no_next, Task,
}
use go_dnp.Master.Session.{
  Session, Line, Closures, Failure, Output, handed, answered, finish, rescheduled, complete_task,
}
use go_dnp.Master.Session.Sending.{after_send, send, send_confirm}
use go_dnp.Master.Session.Receiving.{
  deliver, see_fragment, ran_on_fragment, see_done, ran_on_done, conclude, next_task, finish_task,
  confirm_if, accept_fragment, repeat_fragment, is_stale, is_repeat, for_task, on_solicited,
}
use go_dnp.Master.Session.Callers.Answered.{complete-inflight}

-- Whether a fragment is the one at a position in the series that answers a request with a sequence number.
unfoldable pub continues : ℕ → ℕ → Fragment → Bool
continues seq n f =
    let c = f.header.control in (c.seq == (seq + n) % 16) && (if n == 0 then c.fir else not c.fir)

-- The fragments that a reader of the series takes of those it receives: from a position on, each that stands at
-- the next position, until one with FIN.
unfoldable pub accepted : ℕ → ℕ → List Fragment → List Fragment
accepted seq n [] = []
accepted seq n (f ∷ fs) =
    let later = accepted seq (n + 1) fs in
    let skipped = accepted seq n fs in
    if continues seq n f then f ∷ (if f.header.control.fin then [] else later) else skipped

module _ {R : Type 0} where
  -- What the handler has been handed.
  unfoldable pub delivered : List (Output R) → List Fragment
  delivered [] = []
  delivered (handed frag u b ∷ os) = frag ∷ delivered os
  delivered (answered caller o ∷ os) = delivered os

  pub delivered-append :
      (os ps : List (Output R)) → delivered (os ++ ps) ≡ delivered os ++ delivered ps
  unfolding delivered
  delivered-append [] ps = refl
  delivered-append (handed frag u b ∷ os) ps = ap (frag ∷◌) (delivered-append os ps)
  delivered-append (answered caller o ∷ os) ps = delivered-append os ps

module _ {C R W : Type 0} where
  finish-delivered :
      (s : Session C R W) (d : Option ℕ) (o : Option (Failure R))
      → delivered (finish s d o).out ≡ delivered s.out
  unfolding finish delivered
  finish-delivered s none o = refl
  finish-delivered s (some d) o = delivered-append s.out _ ∙ append-nil (delivered s.out)

  rescheduled-out : (s : Session C R W) (t : Task C R) (now : ℕ) → (rescheduled s t now).out ≡ s.out
  unfolding rescheduled
  rescheduled-out s t now = ground arith

  pub complete-delivered :
      (s : Session C R W) (t : Task C R) (o : Option (Failure R)) (now : ℕ)
      → delivered (complete_task s t o now).out ≡ delivered s.out
  unfolding complete_task
  complete-delivered s t o now =
      finish-delivered _ t.done o ∙ ap delivered (rescheduled-out _ t now)

module _ {C R W : Type 0} (line : Line R W) (own : Closures C R) where
  -- A task in flight whose response has been read up to a position.
  pub record Reading (s : Session C R W) (t : Task C R) (seq n : ℕ) : Type 0 where
    pub here : s.inflight ≡ some t
    pub alone : t.next ≡ no_next
    pub asked : t.seq ≡ seq
    pub fits : seq < 16
    pub begun : t.started ≡ ltb 0 n
    pub after : (n ≡ 0) ⊎ ((t.resp_seq + 1) % 16 ≡ (seq + n) % 16)

  pub stale-or-repeat :
      (s : Session C R W) (t : Task C R) (seq n : ℕ) (f : Fragment)
      → Reading s t seq n
      → (is_stale line own t f.header || is_repeat line own t f.header) ≡ not (continues seq n f)
  unfolding is_stale is_repeat continues
  stale-or-repeat s t seq n f r = ground (arith, r.asked, r.fits, r.begun, r.after)
