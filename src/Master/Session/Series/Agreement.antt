-- ===== src/Master/Session/Series/Agreement.antt =====
-- A master's session reads a response as the reader of the series does.
use go_dnp.Common.{ℕ, Bool, true, false, Option, none, some, [], ◌∷◌, ◌++◌, ◌≡◌, refl, ◌∙◌, arith}
use go_dnp.App.Fragment.{Fragment}
use go_dnp.Master.Task.{
  Job, clear_restart, unsolicited, scan, range_scan, restart, write_time, freeze, call, no_next,
  Task,
}
use go_dnp.Master.Session.{Session, Line, Closures}
use go_dnp.Master.Session.Sending.{after_send, send, send_confirm}
use go_dnp.Master.Session.Receiving.{
  deliver, see_fragment, see_done, ran_on_done, conclude, next_task, finish_task, confirm_if,
}
use go_dnp.Master.Session.Callers.Answered.{complete-inflight}
use go_dnp.Master.Session.Series.{delivered, delivered-append, complete-delivered}

module _ {C R W : Type 0} (line : Line R W) (own : Closures C R) where
  -- A session that differs in neither what is in flight nor what was delivered.
  pub record Quiet (s q : Session C R W) : Type 0 where
    pub kept : q.inflight ≡ s.inflight
    pub same : delivered q.out ≡ delivered s.out

  after_send-Quiet :
      (s : Session C R W) (now : ℕ) (r : W × Option R) → Quiet s (after_send line own s now r).0
  after_send-Quiet s now (w, some e) = record { kept = refl; same = refl }
  after_send-Quiet s now (w, none) = record { kept = refl; same = refl }

  pub confirm-Quiet :
      (b : Bool) (s : Session C R W) (seq : ℕ) (u : Bool) (now : ℕ)
      → Quiet s (confirm_if line own b s seq u now)
  unfolding confirm_if send_confirm send
  confirm-Quiet true s seq u now = after_send-Quiet s now (line.send s.line _)
  confirm-Quiet false s seq u now = record { kept = refl; same = refl }

  pub deliver-delivered :
      (s : Session C R W) (frag : Fragment) (u : Bool)
      → delivered (deliver line own s frag u).out ≡ delivered s.out ++ (frag ∷ [])
  unfolding deliver delivered
  deliver-delivered s frag u = delivered-append s.out _

  -- What the closures leave of a task.
  pub record Same (t u : Task C R) : Type 0 where
    pub next : u.next ≡ t.next
    pub seq : u.seq ≡ t.seq
    pub started : u.started ≡ t.started
    pub resp_seq : u.resp_seq ≡ t.resp_seq

  itself-Same : (t : Task C R) → Same t t
  itself-Same t = record { next = refl; seq = refl; started = refl; resp_seq = refl }

  pub see_fragment-Same :
      (job : Job C) (t : Task C R) (f : Fragment) → Same t (see_fragment line own job t f)
  see_fragment-Same clear_restart t f = itself-Same t
  see_fragment-Same (unsolicited e m) t f = itself-Same t
  see_fragment-Same (scan m) t f = itself-Same t
  see_fragment-Same (range_scan g v a b) t f = itself-Same t
  see_fragment-Same (restart w) t f = itself-Same t
  see_fragment-Same (write_time v m) t f = itself-Same t
  see_fragment-Same (freeze k) t f = itself-Same t
  see_fragment-Same (call k) t f = record {
    next = refl;
    seq = refl;
    started = refl;
    resp_seq = refl;
  }

  see_done-next :
      (job : Job C) (t : Task C R) (iin : ℕ) → (see_done line own job t iin).next ≡ t.next
  see_done-next clear_restart t iin = refl
  see_done-next (unsolicited e m) t iin = refl
  see_done-next (scan m) t iin = refl
  see_done-next (range_scan g v a b) t iin = refl
  see_done-next (restart w) t iin = refl
  see_done-next (write_time v m) t iin = refl
  see_done-next (freeze k) t iin = refl
  see_done-next (call k) t iin = refl

  -- A task that nothing follows ends with its response.
  pub record Ends (s q : Session C R W) : Type 0 where
    pub free : q.inflight ≡ none
    pub same : delivered q.out ≡ delivered s.out

  conclude-Ends :
      (e : Option R) (n : Option (Task C R)) (s : Session C R W) (t : Task C R) (now : ℕ)
      → n ≡ none
      → s.inflight ≡ none
      → Ends s (conclude line own e n s t now)
  conclude-Ends (some e) n s t now h k = record {
    free = complete-inflight s t _ now ∙ k;
    same = complete-delivered s t _ now;
  }
  conclude-Ends none none s t now h k = record {
    free = complete-inflight s t none now ∙ k;
    same = complete-delivered s t none now;
  }
  conclude-Ends none (some nt) s t now h k = absurd (ground (arith, h))

  pub finish-Ends :
      (s : Session C R W) (t : Task C R) (iin now : ℕ)
      → t.next ≡ no_next
      → Ends s (finish_task line own s t iin now)
  unfolding finish_task ran_on_done next_task
  finish-Ends s t iin now h =
      let t' = ran_on_done line own t iin in
      let e =
        conclude-Ends t'.failure (next_task line own t') (record s { inflight = none }) t' now
          (rw (see_done-next t.request.job t iin ∙ h) refl) refl in
      record { free = e.free; same = e.same }
