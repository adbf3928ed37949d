-- ===== src/Master/Session/Series/Refinement.antt =====
-- Whatever a master's session receives, it hands over what the reader of the series takes.
use go_dnp.Common.{
  ℕ, ◌+◌, ◌<◌, Bool, true, false, if◌then◌else◌, none, some, List, [], ◌∷◌, ◌++◌, map, append-nil,
  append_assoc, ◌≡◌, inl, refl, sym, ap, ◌∙◌, arith,
}
use go_dnp.App.Fragment.{Fragment}
use go_dnp.Master.Task.{no_next, Task}
use go_dnp.Master.Session.{Session, Line, Closures}
use go_dnp.Master.Session.Receiving.{for_task, on_solicited}
use go_dnp.Master.Session.Series.{continues, accepted, delivered, Reading}
use go_dnp.Master.Session.Series.Steps.{answers, for_task-Skipped, Taken, for_task-Taken}

module _ {C R W : Type 0} (line : Line R W) (own : Closures C R) where
  -- Fragments received one after the other, each with its time.
  unfoldable pub receive_all : Session C R W → List (Fragment × ℕ) → Session C R W
  receive_all s [] = s
  receive_all s ((f, now) ∷ fs) = receive_all (on_solicited line own s f now) fs

  abbrev pub fragments_of : List (Fragment × ℕ) → List Fragment
  fragments_of = map (λ p. p.0)

  idle-receive_all :
      (s : Session C R W) (fs : List (Fragment × ℕ)) → s.inflight ≡ none → receive_all s fs ≡ s
  unfolding receive_all on_solicited
  idle-receive_all s [] h = refl
  idle-receive_all s ((f, now) ∷ fs) h =
      ap (λ x. receive_all (for_task line own x s f now) fs) h ∙ idle-receive_all s fs h

  Delivers : Session C R W → ℕ → ℕ → List (Fragment × ℕ) → Type 0
  Delivers s seq n fs =
      delivered (receive_all s fs).out ≡ delivered s.out ++ accepted seq n (fragments_of fs)

  Reading-Delivers :
      (fs : List (Fragment × ℕ)) (s : Session C R W) (t : Task C R) (seq n : ℕ)
      → Reading line own s t seq n
      → Delivers s seq n fs
  unfolding Delivers receive_all accepted Taken
  Reading-Delivers [] s t seq n r = sym (append-nil (delivered s.out))
  Reading-Delivers ((f, now) ∷ fs) s t seq n r =
      ap (λ q. delivered (receive_all q fs).out) (answers line own s t f now r.here)
      ∙ choose (continues seq n f) refl (λ q t' k. Reading-Delivers fs q t' seq n k)
          (λ q t' k. Reading-Delivers fs q t' seq (n + 1) k)
    where
      q : Session C R W
      q = for_task line own (some t) s f now

      later : List Fragment
      later = accepted seq (n + 1) (fragments_of fs)

      ended :
          (b : Bool)
          → Taken line own s q b seq n
          → delivered q.out ≡ delivered s.out ++ (f ∷ [])
          → ((q : Session C R W) (t' : Task C R)
              → Reading line own q t' seq (n + 1)
              → Delivers q seq (n + 1) fs)
          → delivered (receive_all q fs).out ≡ delivered s.out ++ (f ∷ (if b then [] else later))
      ended true k e ih = ap (λ x. delivered x.out) (idle-receive_all q fs k) ∙ e
      ended false (t', k) e ih =
          ih q t' k ∙ ap (◌++ later) e ∙ append_assoc (delivered s.out) (f ∷ []) later

      choose :
          (b : Bool)
          → continues seq n f ≡ b
          → ((q : Session C R W) (t' : Task C R)
              → Reading line own q t' seq n
              → Delivers q seq n fs)
          → ((q : Session C R W) (t' : Task C R)
              → Reading line own q t' seq (n + 1)
              → Delivers q seq (n + 1) fs)
          → delivered (receive_all q fs).out
            ≡ delivered s.out
              ++ (if b
                  then f ∷ (if f.header.control.fin then [] else later)
                  else accepted seq n (fragments_of fs))
      choose true h ih ih' =
          let (taken, e) = for_task-Taken line own s t seq n f now r h in
          ended f.header.control.fin taken e ih'
      choose false h ih ih' =
          let k = for_task-Skipped line own s t seq n f now r h in
          ih q k.task k.reading ∙ ap (◌++ accepted seq n (fragments_of fs)) k.same

  -- A request that nothing follows is in flight, and none of its response has been received. Of whatever
  -- fragments come in answer, with any sequence numbers, repeated or out of order, the session hands over just
  -- those that the reader of the series takes: each that stands at the next position, once, until one with FIN.
  pub receive_all-accepted :
      (s : Session C R W) (t : Task C R) (fs : List (Fragment × ℕ))
      → s.inflight ≡ some t
      → t.next ≡ no_next
      → t.seq < 16
      → t.started ≡ false
      → delivered (receive_all s fs).out ≡ delivered s.out ++ accepted t.seq 0 (fragments_of fs)
  unfolding Delivers
  receive_all-accepted s t fs h a l b = Reading-Delivers fs s t t.seq 0 (record {
    here = h;
    alone = a;
    asked = refl;
    fits = l;
    begun = b ∙ ground arith;
    after = inl refl;
  })
