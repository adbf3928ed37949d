-- ===== src/Master/Tests.antt =====
-- A master that receives a poll's response, with repeats and a stray fragment.
use go_dnp.Common.{ℕ, true, false, none, List, [], ◌∷◌, ◌++◌, ◌+◌, ◌≡◌, refl, arith}
use go_dnp.App.Fragment.{Fragment}
use go_dnp.Master.Scheduler.{pop}
use go_dnp.Master.Scheduler.Order.{Pops, pop-Pops}
use go_dnp.Master.Session.Events.{submits, serve}
use go_dnp.Master.Session.Callers.{total}
use go_dnp.Master.Session.Callers.Conserved.{submitted, serve-total}
use go_dnp.Master.Session.Series.{continues, accepted, delivered}
use go_dnp.Master.Session.Series.Refinement.{receive_all, fragments_of, receive_all-accepted}
use go_dnp.Master.Samples.{line, closures, poll, waiting, session, part}

-- The first fragment comes twice, one of another response between, and then the last.
abbrev heard : List (Fragment × ℕ)
heard =
    (part 3 true false, 20)
    ∷ (part 3 true false, 21)
    ∷ (part 9 true true, 22)
    ∷ (part 4 false true, 23)
    ∷ []

heard_run :
    accepted 3 0 (fragments_of line closures heard) ≡ part 3 true false ∷ part 4 false true ∷ []
unfolding accepted continues
heard_run = refl

pop-Pops_example : Pops waiting (pop waiting)
pop-Pops_example = pop-Pops waiting

serve-total_example :
    total 7 (serve line closures (λ g v. none) session (submits (poll 40 0)) 15)
    ≡ total 7 session + submitted 7 true (submits (poll 40 0))
serve-total_example = serve-total line closures (λ g v. none) 7 session (submits (poll 40 0)) 15

receive_all-accepted_example :
    delivered (receive_all line closures session heard).out
    ≡ delivered session.out ++ accepted 3 0 (fragments_of line closures heard)
receive_all-accepted_example =
    receive_all-accepted line closures session (poll 10 3) heard refl refl (omega arith) refl
