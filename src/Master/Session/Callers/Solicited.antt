-- ===== src/Master/Session/Callers/Solicited.antt =====
-- What a response to a request does for the callers of a master's session.
use go_dnp.Common.{
  ℕ, ◌+◌, Bool, true, false, ◌&&◌, ◌==◌, if◌then◌else◌, Option, none, some, ◌≡◌, refl, sym, ap, ◌∙◌,
  arith,
}
use go_dnp.App.Fragment.{Fragment}
use go_dnp.Master.Task.{
  Job, clear_restart, unsolicited, scan, range_scan, restart, write_time, freeze, call, Task,
}
use go_dnp.Master.Session.{Session, Line, Closures, reported, complete_task}
use go_dnp.Master.Session.Receiving.{
  deliver, see_fragment, ran_on_fragment, see_done, ran_on_done, conclude, next_task, finish_task,
  confirm_if, accept_fragment, repeat_fragment, is_stale, is_repeat, for_task, on_solicited,
  on_unsolicited,
}
use go_dnp.Master.Session.Callers.{calls, flying, total, complete-total, flies-total}
use go_dnp.Master.Session.Callers.Answered.{complete-inflight, Sent, send_task-total}
use go_dnp.Master.Session.Callers.Responses.{confirm-Sent, deliver-total}

module _ {C R W : Type 0} (line : Line R W) (own : Closures C R) (c : ℕ) where
  see_fragment-done :
      (job : Job C) (t : Task C R) (frag : Fragment)
      → (see_fragment line own job t frag).done ≡ t.done
  see_fragment-done clear_restart t frag = refl
  see_fragment-done (unsolicited e m) t frag = refl
  see_fragment-done (scan m) t frag = refl
  see_fragment-done (range_scan g v a b) t frag = refl
  see_fragment-done (restart w) t frag = refl
  see_fragment-done (write_time v m) t frag = refl
  see_fragment-done (freeze k) t frag = refl
  see_fragment-done (call k) t frag = refl

  see_done-done :
      (job : Job C) (t : Task C R) (iin : ℕ) → (see_done line own job t iin).done ≡ t.done
  see_done-done clear_restart t iin = refl
  see_done-done (unsolicited e m) t iin = refl
  see_done-done (scan m) t iin = refl
  see_done-done (range_scan g v a b) t iin = refl
  see_done-done (restart w) t iin = refl
  see_done-done (write_time v m) t iin = refl
  see_done-done (freeze k) t iin = refl
  see_done-done (call k) t iin = refl

  conclude-total :
      (e : Option R) (n : Option (Task C R)) (s : Session C R W) (t : Task C R) (now : ℕ)
      → s.inflight ≡ none
      → total c (conclude line own e n s t now) ≡ total c s + calls c t.done
  conclude-total (some e) n s t now h = complete-total c s t (some (reported e)) now
  conclude-total none none s t now h = complete-total c s t none now
  conclude-total none (some nt) s t now h =
      let quiet : Task C R = record t { done = none } in
      omega (
        arith,
        complete-total c s quiet none now,
        send_task-total line own c (complete_task s quiet none now) (record nt { done = t.done })
            now (complete-inflight s quiet none now ∙ h),
        nobody,
      )
    where
      nobody : calls c none ≡ 0
      nobody = unfold calls in refl

  finish_task-total :
      (s : Session C R W) (t : Task C R) (iin now : ℕ)
      → total c (finish_task line own s t iin now) + flying c s.inflight
        ≡ total c s + calls c t.done
  unfolding finish_task ran_on_done
  finish_task-total s t iin now =
      let t' = ran_on_done line own t iin in
      omega (
        arith,
        conclude-total t'.failure (next_task line own t') (record s { inflight = none }) t' now
            refl,
        flies-total c s none,
        nothing,
        ap (calls c) (see_done-done t.request.job t iin),
      )
    where
      nothing : flying {C = C} {R = R} c none ≡ 0
      nothing = unfold flying in refl

  pub in_flight :
      (s : Session C R W) (t : Task C R)
      → s.inflight ≡ some t
      → flying c s.inflight ≡ calls c t.done
  unfolding flying
  in_flight s t h = ap (flying c) h

  accept-total :
      (s : Session C R W) (t : Task C R) (frag : Fragment) (now : ℕ)
      → s.inflight ≡ some t
      → total c (accept_fragment line own s t frag now) ≡ total c s
  unfolding accept_fragment ran_on_fragment
  accept-total s t frag now h = choose frag.header.control.fin
    where
      seq : ℕ
      seq = frag.header.control.seq

      t' : Task C R
      t' = ran_on_fragment line own (record t { started = true; resp_seq = seq }) frag

      q : Session C R W
      q = confirm_if line own frag.header.control.con (deliver line own s frag false) seq false now

      k : Sent line own c (deliver line own s frag false) q
      k =
          confirm-Sent line own c frag.header.control.con (deliver line own s frag false) seq false
            now

      flies : flying c q.inflight ≡ calls c t'.done
      flies =
          in_flight q t (k.kept ∙ (unfold deliver in h))
          ∙ sym (
              ap (calls c) (
                see_fragment-done t.request.job (record t { started = true; resp_seq = seq }) frag))

      f : Task C R
      f = record t' { deadline = now + s.cfg.response_timeout }

      again : flying c (some f) ≡ calls c t'.done
      again = unfold flying in refl

      choose :
          (b : Bool)
          → total c (
              if b
              then finish_task line own q t' frag.header.iin now
              else record q { inflight = some f })
            ≡ total c s
      choose true = omega (
        arith,
        finish_task-total q t' frag.header.iin now,
        flies,
        k.same,
        deliver-total line own c s frag false,
      )
      choose false = omega (
        arith,
        flies-total c q (some f),
        flies,
        again,
        k.same,
        deliver-total line own c s frag false,
      )

  repeat-total :
      (s : Session C R W) (t : Task C R) (frag : Fragment) (now : ℕ)
      → s.inflight ≡ some t
      → total c (repeat_fragment line own s t frag now) ≡ total c s
  unfolding repeat_fragment
  repeat-total s t frag now h = omega (
    arith,
    flies-total c (confirm_if line own con d seq false now) (some f),
    in_flight (confirm_if line own con d seq false now) t (k.kept ∙ h),
    again,
    k.same,
    discarded,
  )
    where
      con : Bool
      con = frag.header.control.con

      seq : ℕ
      seq = frag.header.control.seq

      d : Session C R W
      d = record s {
        stats = record s.stats { fragments_discarded = s.stats.fragments_discarded + 1 };
      }

      discarded : total c d ≡ total c s
      discarded = unfold total in refl

      k : Sent line own c d (confirm_if line own con d seq false now)
      k = confirm-Sent line own c con d seq false now

      f : Task C R
      f = record t { deadline = now + s.cfg.response_timeout }

      again : flying c (some f) ≡ calls c t.done
      again = unfold flying in refl

  pub on_solicited-total :
      (s : Session C R W) (frag : Fragment) (now : ℕ)
      → total c (on_solicited line own s frag now) ≡ total c s
  unfolding on_solicited
  on_solicited-total s frag now = answer s.inflight refl
    where
      pick :
          (b : Bool) (x y : Session C R W)
          → total c x ≡ total c s
          → total c y ≡ total c s
          → total c (if b then x else y) ≡ total c s
      pick true x y h k = h
      pick false x y h k = k

      answer :
          (f : Option (Task C R))
          → s.inflight ≡ f
          → total c (for_task line own f s frag now) ≡ total c s
      answer none h = refl
      answer (some t) h = pick (is_stale line own t frag.header) _ _ refl (
          pick (is_repeat line own t frag.header) _ _ (repeat-total s t frag now h)
            (accept-total s t frag now h))

  pub on_unsolicited-total :
      (s : Session C R W) (frag : Fragment) (now : ℕ)
      → total c (on_unsolicited line own s frag now) ≡ total c s
  unfolding on_unsolicited
  on_unsolicited-total s frag now = choose (s.has_unsol_seq && (seq == s.unsol_seq))
    where
      seq : ℕ
      seq = frag.header.control.seq

      q : Session C R W
      q = record s {
        stats = record s.stats { unsolicited = s.stats.unsolicited + 1 };
        unsol_seq = seq;
        has_unsol_seq = true;
      }

      counted : total c q ≡ total c s
      counted = unfold total in refl

      choose :
          (b : Bool)
          → total c (
              confirm_if line own frag.header.control.con
                (if b then q else deliver line own q frag true)
                seq
                true
                now)
            ≡ total c s
      choose true = (confirm-Sent line own c frag.header.control.con q seq true now).same ∙ counted
      choose false =
          (confirm-Sent line own c frag.header.control.con (deliver line own q frag true) seq true
            now).same
          ∙ deliver-total line own c q frag true
          ∙ counted
