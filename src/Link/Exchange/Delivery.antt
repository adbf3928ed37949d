-- ===== src/Link/Exchange/Delivery.antt =====
-- Exactly once: what the secondary hands up against what the primary reports.
use go_dnp.Common.{ℕ, true, false, none, List, [], ◌∷◌, ◌≡◌, ◌⊎◌, inl, inr, sym}
use mathlib.Core.Path.{subst₂}
use go_dnp.Link.Address.{is_broadcast}
use go_dnp.Link.Primary.{idle, wait_confirm}
use go_dnp.Link.Exchange.Stages.{
  Explains, nothing, Settings, Stage, resting, resetting, offering, accepted, Step-Settings,
}
use go_dnp.Link.Exchange.Steps.{Step-Stage}
use go_dnp.Link.Exchange.{System, Reach, here, next}

-- A start: the primary as constructed, with confirmations, towards one station.
pub record IsFresh (y : System) : Type 0 where
  pub confirms : y.pri.use_confirms ≡ true
  pub single : is_broadcast y.pri.remote_addr ≡ false
  pub rests : y.pri.state ≡ idle
  pub down : y.pri.link_up ≡ false
  pub empty_line : (y.forward ≡ none) × (y.back ≡ none)
  pub empty_logs : (y.outcomes ≡ []) × (y.delivered ≡ [])

IsFresh-Stage : {y : System} → IsFresh y → Stage y
IsFresh-Stage {y} f =
    resting f.rests f.empty_line.0 f.empty_line.1 (λ up. cc)
      (subst₂ Explains (sym f.empty_logs.0) (sym f.empty_logs.1) nothing)

Reach-Settings : {y z : System} → Reach y z → Settings y → Settings z
Reach-Settings here s = s
Reach-Settings (next r st) s = Step-Settings st (Reach-Settings r s)

Reach-Stage : {y z : System} → Reach y z → Settings y → Stage y → Stage z
Reach-Stage here c s = s
Reach-Stage (next r st) c s = Step-Stage st (Reach-Settings r c) (Reach-Stage r c s)

-- What the secondary has handed up at any time: the payloads that the outcomes explain, or those
-- and the one in progress, which is then waiting for its acknowledgement.
abbrev pub Delivered : System → Type 0
Delivered z =
    Explains z.outcomes z.delivered
    ⊎ ((ps : List (List ℕ)) × (z.pri.state ≡ wait_confirm)
        × (z.delivered ≡ z.pri.pending ∷ ps)
        × Explains z.outcomes ps)

Stage-Delivered : {z : System} → Stage z → Delivered z
Stage-Delivered (resting st fw bk up ex) = inl ex
Stage-Delivered (resetting st q l ln ack ex) = inl ex
Stage-Delivered (offering st q l b ln u r fcb ex) = inl ex
Stage-Delivered (accepted ps st q l ln u r fcb dl ex) = inr (ps, st, dl, ex)

-- One payload in progress at a time, a response timer that runs out only when nothing is on the line,
-- and a secondary that is not restarted: then, from a fresh start, however frames and acknowledgements
-- are lost and retransmitted, the secondary has handed up, in order, each payload that the primary
-- reported complete exactly once and each that it reported failed at most once, and besides these at
-- most the payload that now waits for its acknowledgement.
pub exactly_once : {y z : System} → IsFresh y → Reach y z → Delivered z
exactly_once f r =
    Stage-Delivered
      (Reach-Stage r (record { confirms = f.confirms; single = f.single }) (IsFresh-Stage f))
