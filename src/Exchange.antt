-- ===== src/Exchange.antt =====
-- A master and an outstation: the response that the outstation sends, outstation/session.go, is what the master
-- reads, master/session.go.
mod Tests
use go_dnp.Common.{
  ℕ, suc, ◌+◌, ◌%◌, ◌<◌, Bool, true, false, not, ◌&&◌, ◌==◌, if◌then◌else◌, some, List, [], ◌∷◌,
  ◌++◌, map, length, drop, ◌≡◌, refl, sym, ap, ap₂, ◌∙◌, arith,
}
use go_dnp.App.Header.{Control}
use go_dnp.App.Fragment.{Fragment}
use go_dnp.Master.Task.{no_next, Task}
use go_dnp.Master.Session
use go_dnp.Master.Session.{Closures}
use go_dnp.Master.Session.Series.{continues, accepted, delivered}
use go_dnp.Master.Session.Series.Refinement.{receive_all, fragments_of, receive_all-accepted}
use go_dnp.Outstation.Solicited
use go_dnp.Outstation.Solicited.Series.{Notes, series, exchange, confirms_last}
use go_dnp.Outstation.Solicited.Series.Exchange.{exchange-Done}

abbrev pub controls_of : List Fragment → List Control
controls_of = map (λ f. f.header.control)

abbrev pub controls : Notes → List Control
controls = map (λ n. n.0)

abbrev head_of : List Control → Control
head_of [] = record { fir = false; fin = false; con = false; uns = false; seq = 0 }
head_of (c ∷ cs) = c

abbrev tail_of : List Control → List Control
tail_of [] = []
tail_of (c ∷ cs) = cs

continues_series :
    (seq i : ℕ) (fin con : Bool) (f : Fragment)
    → f.header.control
      ≡ record { fir = i == 0; fin = fin; con = con; uns = false; seq = (seq + i) % 16 }
    → continues seq i f ≡ true
unfolding continues
continues_series seq i fin con f h =
    ap (λ c. (c.seq == (seq + i) % 16) && (if i == 0 then c.fir else not c.fir)) h ∙ stands
  where
    stands :
        (((seq + i) % 16 == (seq + i) % 16) && (if i == 0 then i == 0 else not (i == 0))) ≡ true
    stands = ground arith

-- The reader of a series takes every fragment of it.
accepted-series :
    (bodies : List (List ℕ)) (fs : List Fragment) (seq i : ℕ) (con : Bool)
    → controls_of fs ≡ controls (series seq con i bodies)
    → accepted seq i fs ≡ fs
unfolding accepted series
accepted-series bodies [] seq i con h = refl
accepted-series [] (f ∷ fs) seq i con h = absurd (ground (arith, ap length h))
accepted-series (b ∷ []) (f ∷ []) seq i con h =
    let k = ap head_of h in
    taken (continues seq i f) f.header.control.fin (continues_series seq i true con f k)
      (ap (λ c. c.fin) k)
  where
    taken :
        (b fin : Bool)
        → b ≡ true
        → fin ≡ true
        → (if b then f ∷ (if fin then [] else []) else []) ≡ f ∷ []
    taken true true p q = refl
    taken true false p q = refl
    taken false fin p q = absurd (ground (arith, p))
accepted-series (b ∷ []) (f ∷ g ∷ fs) seq i con h = absurd (ground (arith, ap length h))
accepted-series (b ∷ c ∷ bs) (f ∷ fs) seq i con h =
    let k = ap head_of h in
    taken (continues seq i f) f.header.control.fin (continues_series seq i false true f k)
      (ap (λ c. c.fin) k)
    ∙ ap (f ∷◌) (accepted-series (c ∷ bs) fs seq (i + 1) con (ap tail_of h))
  where
    later : List Fragment
    later = accepted seq (i + 1) fs

    taken :
        (b fin : Bool)
        → b ≡ true
        → fin ≡ false
        → (if b then f ∷ (if fin then [] else later) else accepted seq i fs) ≡ f ∷ later
    taken true false p q = refl
    taken true true p q = absurd (ground (arith, q))
    taken false fin p q = absurd (ground (arith, p))

-- The series carries the bodies in order.
bodies-series :
    (seq : ℕ) (con : Bool) (i : ℕ) (bodies : List (List ℕ))
    → map (λ n. n.1) (series seq con i bodies) ≡ bodies
unfolding series
bodies-series seq con i [] = refl
bodies-series seq con i (b ∷ []) = refl
bodies-series seq con i (b ∷ c ∷ bs) = ap (b ∷◌) (bodies-series seq con (i + 1) (c ∷ bs))

module _ {D V C R W : Type 0} (line' : Session.Line R W) (own : Closures C R) where
  -- An outstation that is to send the bodies of a response, none of which has gone out, to a request with the
  -- sequence number of the task that a master has in flight, which nothing follows; the master confirms what
  -- asks for it. The line then holds as many fragments as there are bodies, with the bodies in order, and a
  -- master that receives fragments with their control octets hands over all of them, in order, each once.
  pub exchange-delivers :
      (o : Solicited.Session D V Notes) (b : List ℕ) (bs : List (List ℕ)) (at : ℕ)
      (m : Session.Session C R W) (t : Task C R) (fs : List (Fragment × ℕ))
      → o.awaiting_confirm ≡ false
      → o.pending_index ≡ 0
      → o.pending_bodies ≡ b ∷ bs
      → o.line ≡ []
      → m.inflight ≡ some t
      → t.next ≡ no_next
      → t.started ≡ false
      → t.seq < 16
      → o.pending_seq ≡ t.seq
      → controls_of (fragments_of line' own fs) ≡ controls (exchange (length (b ∷ bs)) o at).line
      → (map (λ n. n.1) (exchange (length (b ∷ bs)) o at).line ≡ b ∷ bs)
        × (delivered (receive_all line' own m fs).out
            ≡ delivered m.out ++ fragments_of line' own fs)
  exchange-delivers o b bs at m t fs free start whole empty flies alone new fits same heard =
      let first =
        exchange-Done bs o b at 0 free (ap₂ (λ i xs. drop i xs) start whole) (omega arith) in
      let done = first.0 in
      let line =
        done.line
        ∙ ap₂ (λ w i. w ++ series o.pending_seq (confirms_last o) i (b ∷ bs)) empty start
        ∙ ap (λ seq. series seq (confirms_last o) 0 (b ∷ bs)) same in
      (
        ap (λ w. map (λ n. n.1) w) line ∙ bodies-series t.seq (confirms_last o) 0 (b ∷ bs),
        receive_all-accepted line' own m t fs flies alone fits new
            ∙ ap (delivered m.out ++◌) (
                accepted-series (b ∷ bs) (fragments_of line' own fs) t.seq 0 (confirms_last o)
                  (heard ∙ ap controls line)),
      )
