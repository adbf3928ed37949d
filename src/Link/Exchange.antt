-- ===== src/Link/Exchange.antt =====
-- A primary and the secondary of its peer, joined by a line that may lose any frame. One payload is
-- in progress at a time, as in `Stack`, and the response timer runs out only when nothing is on
-- the line. The primary confirms (UseConfirms), and the peer's secondary is not restarted.
pub mod Stages
pub mod Steps
pub mod Delivery
mod Tests
use go_dnp.Common.{ℕ, ◌≤◌, ◌<◌, Bool, true, Option, List, [], ◌∷◌, ◌++◌, length, ◌≡◌}
use go_dnp.Link.Frame.{Frame}
use go_dnp.Link.Primary.{Primary, Reaction, Action, idle, send, on_frame, on_timeout}
use go_dnp.Link.Primary
use go_dnp.Link.Secondary.{Secondary, SecResult}
use go_dnp.Link.Secondary
use mathlib.Core.Option.{none, some}

-- What the primary reported of a payload.
pub data Outcome : Type 0 where
  completed abandoned : (payload : List ℕ) → Outcome

pub record System : Type 0 where
  pub pri : Primary
  pub sec : Secondary
  pub forward : Option Frame  -- on the way to the secondary
  pub back : Option Frame  -- on the way to the primary
  pub delivered : List (List ℕ)  -- what the secondary handed up, newest first
  pub outcomes : List Outcome  -- what the primary reported, newest first

-- The session's part: transmit what the primary returns, and note what it reports.
unfoldable pub react : System → Reaction → System
react y (p, f, Action.none) = record y { pri = p }
react y (p, f, Action.transmit) = record y { pri = p; forward = some f }
react y (p, f, Action.complete) = record y {
  pri = p;
  outcomes = completed y.pri.pending ∷ y.outcomes;
}
react y (p, f, Action.failed) = record y {
  pri = p;
  outcomes = abandoned y.pri.pending ∷ y.outcomes;
}

abbrev pub hand_up : Option (List ℕ) → List (List ℕ) → List (List ℕ)
hand_up none ps = ps
hand_up (some p) ps = p ∷ ps

unfoldable pub arrived : System → Secondary × SecResult → System
arrived y (s, result) = record y {
  sec = s;
  forward = none;
  back = result.reply;
  delivered = hand_up result.payload y.delivered;
}

pub data Step (y : System) : System → Type 0 where
  -- A caller sends only while the primary is idle and has not been told to wait.
  submit :
      (payload : List ℕ)
      → y.pri.state ≡ idle
      → y.pri.flow_control ≡ Bool.false
      → 0 < length payload
      → length payload ≤ 250
      → Step y (react y (send y.pri payload).0)
  arrive : (f : Frame) → y.forward ≡ some f → Step y (arrived y (Secondary.on_frame y.sec f))
  lose_forward : Step y (record y { forward = none })
  answer :
      (r : Frame) → y.back ≡ some r → Step y (react (record y { back = none }) (on_frame y.pri r))
  lose_back : Step y (record y { back = none })
  expire : y.forward ≡ none → y.back ≡ none → Step y (react y (on_timeout y.pri))

pub data Reach (y : System) : System → Type 0 where
  here : Reach y y
  next : {u v : System} → Reach y u → Step u v → Reach y v
