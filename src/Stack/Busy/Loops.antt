-- ===== src/Stack/Busy/Loops.antt =====
-- The same of all that a session does with a stack.
use go_dnp.Common.{
  ℕ, zero, suc, ◌+◌, Bool, true, false, ◌&&◌, ◌==◌, if◌then◌else◌, Option, none, some, List, [],
  ◌∷◌, length, drop, ◌≡◌, refl,
}
use go_dnp.Link.Parser
use go_dnp.Link.Parser.{Parser, Outcome, got, need_more, again}
use go_dnp.Link.Primary
use go_dnp.Link.Primary.{is_busy}
use go_dnp.Stack.{Stack, reset, Error, Writer, Received, parser_full}
use go_dnp.Stack.Sending.{send_to, on_timeout, send_link_status_request}
use go_dnp.Stack.Receiving.{
  on_frame, drain_loop, drain_next, drain_on, drain, receive_loop, receive,
}
use go_dnp.Stack.Busy.{Agrees}
use go_dnp.Stack.Busy.Sends.{send_to-Agrees, on_timeout-Agrees, send_link_status_request-Agrees}
use go_dnp.Stack.Busy.Receives.{on_frame-Agrees}

-- What a session does with a stack.
pub data Event : Type 0 where
  resets times_out requests_status : Event
  sends : (dest : ℕ) → (fragment : List ℕ) → Event
  receives : (octets : List ℕ) → Event

-- A run that ends without an error leaves the stack in agreement.
abbrev pub Fine : {W : Type 0} → (Stack × W) × Option Error → Type 0
Fine r = (r.1 ≡ none) → Agrees r.0.0

module _ {W : Type 0} (out : Writer W) (fn : Stack × W → Received → Stack × W) where
  unfoldable pub step : Event → Stack → W → (Stack × W) × Option Error
  step resets s w = ((reset s, w), none)
  step times_out s w = let (sw, failed, e) = on_timeout out s w in (sw, e)
  step requests_status s w = send_link_status_request out s w
  step (sends dest fragment) s w = send_to out s w dest fragment
  step (receives octets) s w = receive out fn s w octets

  module _ (keeps : (s : Stack) (w : W) (m : Received) → Agrees s → Agrees (fn (s, w) m).0) where
    drain_on-Fine :
        (rest : Stack × W → (Stack × W) × Option Error) (run : (Stack × W) × Option Error)
        → Fine run
        → ((sw : Stack × W) → Agrees sw.0 → Fine (rest sw))
        → Fine (drain_on out fn rest run)
    drain_on-Fine rest (sw, none) f g = g sw (f refl)
    drain_on-Fine rest (sw, some e) f g = f

    drain_loop-Fine : (fuel : ℕ) (sw : Stack × W) → Agrees sw.0 → Fine (drain_loop out fn fuel sw)
    unfolding drain_loop
    drain_loop-Fine zero sw a = λ _. a
    drain_loop-Fine (suc fuel) (s, w) a = next (Parser.next s.parser) (drain_loop-Fine fuel)
      where
        next :
            (r : Parser × Outcome)
            → ((sw : Stack × W) → Agrees sw.0 → Fine (drain_loop out fn fuel sw))
            → Fine (drain_next out fn (drain_loop out fn fuel) s w r)
        next (p, got f) rest =
            drain_on-Fine (drain_loop out fn fuel) (on_frame out fn (record s { parser = p }) w f)
              (on_frame-Agrees out fn keeps (record s { parser = p }) w f a) rest
        next (p, need_more) rest = λ _. a
        next (p, again) rest = λ _. a

    receive_loop-Fine :
        (fuel : ℕ) (sw : Stack × W) (octets : List ℕ)
        → Agrees sw.0
        → Fine (receive_loop out fn fuel sw octets)
    unfolding receive_loop drain
    receive_loop-Fine zero sw [] a = λ _. a
    receive_loop-Fine (suc fuel) sw [] a = λ _. a
    receive_loop-Fine zero sw (b ∷ bs) a = λ _. a
    receive_loop-Fine (suc fuel) (s, w) (b ∷ bs) a =
        let (p, n, full) = Parser.write s.parser (b ∷ bs) in
        let rest = drop n (b ∷ bs) in
        drain_on-Fine
          (λ sw.
            if full && (n == 0) then (sw, some parser_full) else receive_loop out fn fuel sw rest)
          (drain_loop out fn (length p.held + 1) (record s { parser = p }, w))
          (drain_loop-Fine (length p.held + 1) (record s { parser = p }, w) a)
          (λ sw b.
            blocked (full && (n == 0)) ((sw, some parser_full)) (receive_loop out fn fuel sw rest) b
              (receive_loop-Fine fuel sw rest b))
      where
        blocked :
            (c : Bool) (x y : (Stack × W) × Option Error)
            → Agrees x.0.0
            → Fine y
            → Fine (if c then x else y)
        blocked true x y a f = λ _. a
        blocked false x y a f = f

    -- Let the function that fragments are reported to keep the agreement between the stack's own mark and
    -- the state of its primary: that it waits for a confirmation exactly while the primary waits for a
    -- reply. Then every event that ends without an error keeps it, a reception of any octets included.
    pub step-Agrees :
        (e : Event) (s : Stack) (w : W) → Agrees s → (step e s w).1 ≡ none → Agrees (step e s w).0.0
    unfolding step reset receive Primary.reset is_busy
    step-Agrees resets s w a fine = refl
    step-Agrees times_out s w a fine = on_timeout-Agrees out s w a
    step-Agrees requests_status s w a fine = send_link_status_request-Agrees out s w a fine
    step-Agrees (sends dest fragment) s w a fine = send_to-Agrees out s w dest fragment a fine
    step-Agrees (receives octets) s w a fine =
        receive_loop-Fine (length octets) (s, w) octets a fine
