-- ===== src/Link/Exchange/Stages.antt =====
-- The stages of an exchange, and what the line may carry in each.
use go_dnp.Common.{
  ℕ, ◌<◌, true, false, not, Option, none, some, List, [], ◌∷◌, length, ◌≡◌, ◌⊎◌, refl, arith,
}
use go_dnp.Link.Address.{is_broadcast}
use go_dnp.Link.Frame.{Frame}
use go_dnp.Link.Primary.{idle, wait_link_reset, wait_confirm, send, on_frame, on_timeout, frame}
use go_dnp.Link.Secondary.{reply, func_ack, func_reset_link_states, func_confirmed_user_data}
use go_dnp.Link.Exchange.{
  System, Outcome, completed, abandoned, react, arrived, Step, submit, arrive, lose_forward, answer,
  lose_back, expire,
}

-- Each completed payload was handed up once, each abandoned one once or never, all in order.
pub data Explains : List Outcome → List (List ℕ) → Type 0 where
  nothing : Explains [] []
  once :
      {os : List Outcome} {ps : List (List ℕ)} (p : List ℕ)
      → Explains os ps
      → Explains (completed p ∷ os) (p ∷ ps)
  never :
      {os : List Outcome} {ps : List (List ℕ)} (p : List ℕ)
      → Explains os ps
      → Explains (abandoned p ∷ os) ps
  unheard :
      {os : List Outcome} {ps : List (List ℕ)} (p : List ℕ)
      → Explains os ps
      → Explains (abandoned p ∷ os) (p ∷ ps)

-- At most one frame is on the line, the one last sent or the acknowledgement of it.
pub data Line (y : System) : Type 0 where
  quiet : y.forward ≡ none → y.back ≡ none → Line y
  going : y.forward ≡ some y.pri.last_sent → y.back ≡ none → Line y
  coming : y.forward ≡ none → y.back ≡ some (reply y.sec func_ack y.pri.local_addr) → Line y

pub record Settings (y : System) : Type 0 where
  pub confirms : y.pri.use_confirms ≡ true
  pub single : is_broadcast y.pri.remote_addr ≡ false

-- The stages of an exchange.
pub data Stage (y : System) : Type 0 where
  resting :
      y.pri.state ≡ idle
      → y.forward ≡ none
      → y.back ≡ none
      → (y.pri.link_up ≡ true → (y.sec.is_reset ≡ true) × (y.sec.expect_fcb ≡ y.pri.fcb))
      → Explains y.outcomes y.delivered
      → Stage y
  resetting :
      y.pri.state ≡ wait_link_reset
      → 0 < length y.pri.pending
      → y.pri.last_sent ≡ frame y.pri func_reset_link_states false false []
      → Line y
      → (y.back ≡ none ⊎ (y.sec.is_reset ≡ true) × (y.sec.expect_fcb ≡ true))
      → Explains y.outcomes y.delivered
      → Stage y
  offering :
      y.pri.state ≡ wait_confirm
      → 0 < length y.pri.pending
      → y.pri.last_sent ≡ frame y.pri func_confirmed_user_data y.pri.fcb true y.pri.pending
      → y.back ≡ none
      → Line y
      → y.pri.link_up ≡ true
      → y.sec.is_reset ≡ true
      → y.sec.expect_fcb ≡ y.pri.fcb
      → Explains y.outcomes y.delivered
      → Stage y
  accepted :
      (ps : List (List ℕ))
      → y.pri.state ≡ wait_confirm
      → 0 < length y.pri.pending
      → y.pri.last_sent ≡ frame y.pri func_confirmed_user_data y.pri.fcb true y.pri.pending
      → Line y
      → y.pri.link_up ≡ true
      → y.sec.is_reset ≡ true
      → y.sec.expect_fcb ≡ not y.pri.fcb
      → y.delivered ≡ y.pri.pending ∷ ps
      → Explains y.outcomes ps
      → Stage y

pub Step-Settings : {y z : System} → Step y z → Settings y → Settings z
unfolding react arrived send on_frame on_timeout
Step-Settings (submit payload i c pos fits) s = ground arith
Step-Settings (arrive f e) s = ground arith
Step-Settings lose_forward s = ground arith
Step-Settings (answer r e) s = ground arith
Step-Settings lose_back s = ground arith
Step-Settings (expire a b) s = ground arith

some_eq : {f g : Frame} {o : Option Frame} → o ≡ some f → o ≡ some g → f ≡ g
some_eq a b = cc

-- What is on its way to the secondary is the frame last sent.
pub forward_eq : (y : System) (f : Frame) → Line y → y.forward ≡ some f → f ≡ y.pri.last_sent
forward_eq y f (quiet a b) e = cc
forward_eq y f (going a b) e = some_eq e a
forward_eq y f (coming a b) e = cc

-- What is on its way back is the acknowledgement.
pub back_eq :
    (y : System) (r : Frame)
    → Line y
    → y.back ≡ some r
    → (r ≡ reply y.sec func_ack y.pri.local_addr) × (y.forward ≡ none)
back_eq y r (quiet a b) e = cc
back_eq y r (going a b) e = cc
back_eq y r (coming a b) e = (some_eq e b, a)

pub Line-lose_forward : (y : System) → Line y → Line (record y { forward = none })
Line-lose_forward y (quiet a b) = quiet refl b
Line-lose_forward y (going a b) = quiet refl b
Line-lose_forward y (coming a b) = coming refl b

pub Line-lose_back : (y : System) → Line y → Line (record y { back = none })
Line-lose_back y (quiet a b) = quiet a refl
Line-lose_back y (going a b) = going a refl
Line-lose_back y (coming a b) = quiet a refl
