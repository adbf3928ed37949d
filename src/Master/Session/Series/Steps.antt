-- ===== src/Master/Session/Series/Steps.antt =====
-- What one fragment does to a master's session that reads a response.
use go_dnp.Common.{
  ℕ, ◌+◌, ◌%◌, Bool, true, false, not, ◌||◌, ltb, if◌then◌else◌, none, some, [], ◌∷◌, ◌++◌, ◌≡◌,
  inr, refl, ap, ◌∙◌, arith,
}
use go_dnp.App.Fragment.{Fragment}
use go_dnp.Master.Task.{Task}
use go_dnp.Master.Session.{Session, Line, Closures}
use go_dnp.Master.Session.Receiving.{
  deliver, see_fragment, ran_on_fragment, finish_task, confirm_if, accept_fragment, repeat_fragment,
  is_stale, is_repeat, for_task, on_solicited,
}
use go_dnp.Master.Session.Series.{continues, delivered, Reading, stale-or-repeat}
use go_dnp.Master.Session.Series.Agreement.{
  confirm-Quiet, deliver-delivered, Same, see_fragment-Same, finish-Ends,
}

module _ {C R W : Type 0} (line : Line R W) (own : Closures C R) where
  pub answers :
      (s : Session C R W) (t : Task C R) (f : Fragment) (now : ℕ)
      → s.inflight ≡ some t
      → on_solicited line own s f now ≡ for_task line own (some t) s f now
  unfolding on_solicited
  answers s t f now h = ap (λ x. for_task line own x s f now) h

  -- What a session has become that did not accept a fragment.
  pub record Skipped (s q : Session C R W) (seq n : ℕ) : Type 0 where
    pub task : Task C R
    pub reading : Reading line own q task seq n
    pub same : delivered q.out ≡ delivered s.out

  repeat-Skipped :
      (s : Session C R W) (t : Task C R) (seq n : ℕ) (f : Fragment) (now : ℕ)
      → Reading line own s t seq n
      → Skipped s (repeat_fragment line own s t f now) seq n
  unfolding repeat_fragment
  repeat-Skipped s t seq n f now r =
      let d : Session C R W = record s {
        stats = record s.stats { fragments_discarded = s.stats.fragments_discarded + 1 };
      } in
      let k = confirm-Quiet line own f.header.control.con d f.header.control.seq false now in
      record {
        task = record t { deadline = now + s.cfg.response_timeout };
        reading = record {
          here = refl;
          alone = r.alone;
          asked = r.asked;
          fits = r.fits;
          begun = r.begun;
          after = r.after;
        };
        same = k.same;
      }

  pub for_task-Skipped :
      (s : Session C R W) (t : Task C R) (seq n : ℕ) (f : Fragment) (now : ℕ)
      → Reading line own s t seq n
      → continues seq n f ≡ false
      → Skipped s (for_task line own (some t) s f now) seq n
  for_task-Skipped s t seq n f now r h =
      choose (is_stale line own t f.header) (is_repeat line own t f.header)
        (stale-or-repeat line own s t seq n f r ∙ ap not h)
    where
      choose :
          (a b : Bool)
          → (a || b) ≡ true
          → Skipped s
              (if a
                then s
                else if b
                then repeat_fragment line own s t f now
                else accept_fragment line own s t f now)
              seq
              n
      choose true b k = record { task = t; reading = r; same = refl }
      choose false true k = repeat-Skipped s t seq n f now r
      choose false false k = absurd (ground (arith, k))

  -- What a session has become that accepted a fragment: it reads on, or the task has ended.
  unfoldable pub Taken : Session C R W → Session C R W → Bool → ℕ → ℕ → Type 0
  Taken s q true seq n = q.inflight ≡ none
  Taken s q false seq n = (t : Task C R) × Reading line own q t seq (n + 1)

  accept-Taken :
      (s : Session C R W) (t : Task C R) (seq n : ℕ) (f : Fragment) (now : ℕ)
      → Reading line own s t seq n
      → continues seq n f ≡ true
      → (let q = accept_fragment line own s t f now in
          Taken s q f.header.control.fin seq n × (delivered q.out ≡ delivered s.out ++ (f ∷ [])))
  unfolding accept_fragment ran_on_fragment Taken
  accept-Taken s t seq n f now r h = choose f.header.control.fin
    where
      at : ℕ
      at = f.header.control.seq

      t0 : Task C R
      t0 = record t { started = true; resp_seq = at }

      t' : Task C R
      t' = see_fragment line own t.request.job t0 f

      m : Same line own t0 t'
      m = see_fragment-Same line own t.request.job t0 f

      given : Session C R W
      given = deliver line own s f false

      q : Session C R W
      q = confirm_if line own f.header.control.con given at false now

      told : delivered q.out ≡ delivered s.out ++ (f ∷ [])
      told =
          (confirm-Quiet line own f.header.control.con given at false now).same
          ∙ deliver-delivered line own s f false

      nth : at ≡ (seq + n) % 16
      nth = unfold continues in ground (arith, h)

      next : (t'.resp_seq + 1) % 16 ≡ (seq + (n + 1)) % 16
      next = omega (arith, nth, m.resp_seq)

      choose :
          (b : Bool)
          → (let p = if b then finish_task line own q t' f.header.iin now else record q {
            inflight = some (record t' { deadline = now + s.cfg.response_timeout });
          } in
              Taken s p b seq n × (delivered p.out ≡ delivered s.out ++ (f ∷ [])))
      choose true =
          let e = finish-Ends line own q t' f.header.iin now (m.next ∙ r.alone) in
          (e.free, e.same ∙ told)
      choose false = (
        (
          record t' { deadline = now + s.cfg.response_timeout },
          record {
            here = refl;
            alone = m.next ∙ r.alone;
            asked = m.seq ∙ r.asked;
            fits = r.fits;
            begun = m.started ∙ above n;
            after = inr next;
          },
        ),
        told,
      )
        where
          above : (n : ℕ) → true ≡ ltb 0 (n + 1)
          above n = ground arith

  pub for_task-Taken :
      (s : Session C R W) (t : Task C R) (seq n : ℕ) (f : Fragment) (now : ℕ)
      → Reading line own s t seq n
      → continues seq n f ≡ true
      → (let q = for_task line own (some t) s f now in
          Taken s q f.header.control.fin seq n × (delivered q.out ≡ delivered s.out ++ (f ∷ [])))
  for_task-Taken s t seq n f now r h =
      choose (is_stale line own t f.header) (is_repeat line own t f.header)
        (stale-or-repeat line own s t seq n f r ∙ ap not h)
    where
      choose :
          (a b : Bool)
          → (a || b) ≡ false
          → (let q =
                if a
                then s
                else if b
                then repeat_fragment line own s t f now
                else accept_fragment line own s t f now in
              Taken s q f.header.control.fin seq n
              × (delivered q.out ≡ delivered s.out ++ (f ∷ [])))
      choose true b k = absurd (ground (arith, k))
      choose false true k = absurd (ground (arith, k))
      choose false false k = accept-Taken s t seq n f now r h
