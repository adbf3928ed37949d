-- ===== src/Exchange/Tests.antt =====
-- The response of two bodies, and a master that has a poll in flight.
use go_dnp.Common.{ℕ, true, false, List, [], ◌∷◌, ◌++◌, map, ◌≡◌, refl, sym, ap, arith}
use go_dnp.App.Fragment.{Fragment}
use go_dnp.Master.Samples
use go_dnp.Master.Samples.{part, poll}
use go_dnp.Master.Session.Series.{delivered}
use go_dnp.Master.Session.Series.Refinement.{receive_all, fragments_of}
use go_dnp.Outstation.Solicited.{needs_confirm}
use go_dnp.Outstation.Solicited.Samples as Sender
use go_dnp.Outstation.Solicited.Series.{exchange, series}
use go_dnp.Outstation.Solicited.Series.Exchange.{exchange-Done}
use go_dnp.Exchange.{controls_of, controls, exchange-delivers}

abbrev heard : List (Fragment × ℕ)
heard = (part 3 true false, 20) ∷ (part 4 false true, 21) ∷ []

heard_line :
    controls_of (fragments_of Samples.line Samples.closures heard)
    ≡ controls (exchange 2 Sender.session 100).line
unfolding series needs_confirm
heard_line = sym (
    ap controls
      (exchange-Done ((2 ∷ []) ∷ []) Sender.session (1 ∷ []) 100 0 refl refl (omega arith)).0.line)

exchange-delivers_example :
    (map (λ n. n.1) (exchange 2 Sender.session 100).line ≡ (1 ∷ []) ∷ (2 ∷ []) ∷ [])
    × (delivered (receive_all Samples.line Samples.closures Samples.session heard).out
        ≡ delivered Samples.session.out ++ fragments_of Samples.line Samples.closures heard)
exchange-delivers_example =
    exchange-delivers Samples.line Samples.closures Sender.session (1 ∷ []) ((2 ∷ []) ∷ []) 100
      Samples.session (poll 10 3) heard refl refl refl refl refl refl refl (omega arith) refl
      heard_line
