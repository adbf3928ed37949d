-- ===== src/Outstation/Solicited/Series.antt =====
-- The fragments of a response on a line that takes whatever is sent and notes of each fragment its control
-- octet and its body, with a master that confirms each fragment that asks for it.
pub mod Rounds
pub mod Steps
pub mod Exchange
use go_dnp.Common.{
  ℕ, zero, suc, ◌+◌, ◌-◌, ◌%◌, ◌≤◌, ◌<◌, Bool, true, false, not, ◌&&◌, ◌||◌, leb, ◌==◌,
  if◌then◌else◌, Option, none, some, List, [], ◌∷◌, ◌++◌, append_assoc, append-nil, length, get_or,
  drop, drop-drop, length-drop, ◌≡◌, refl, sym, ap, ap₂, ◌∙◌, arith,
}
use go_dnp.App.FuncCode
use go_dnp.App.FuncCode.{func_response}
use go_dnp.App.Iin
use go_dnp.App.Iin.{iin_broadcast}
use go_dnp.App.Header.{
  Control, parse_control, control_byte, response_header_size, is_response, append_header,
}
use go_dnp.App.Header.RoundTrip.{control_back}
use go_dnp.Outstation.EventBuffer
use go_dnp.Outstation.EventBuffer.{EventBuffer}
use go_dnp.Outstation.Solicited.{
  Config, Device, Session, Line, clock_due, current_iin, finish_response, on_confirm, needs_confirm,
  next_control, after_send, send_next, advance_response,
}

abbrev pub Notes : Type 0
Notes = List (Control × List ℕ)

abbrev pub notes : List ℕ → Control × List ℕ
notes frag = (parse_control (get_or frag 0 0), drop response_header_size frag)

abbrev pub recorder : Line (Unit {0}) Notes
recorder = record {
  send_to = λ w dest frag. (w ++ (notes frag ∷ []), none);
  pending = λ w. false;
  busy = λ w. false;
  on_timeout = λ w. ((w, false), none);
}

-- The series that carries some bodies from a position on: FIR on the first fragment of all, FIN on the last,
-- sequence numbers that count up from that of the request, and a confirmation asked for of each but the last,
-- and of the last if `con` says so.
unfoldable pub series : ℕ → Bool → ℕ → List (List ℕ) → Notes
series seq con i [] = []
series seq con i (b ∷ []) =
    (record { fir = i == 0; fin = true; con = con; uns = false; seq = (seq + i) % 16 }, b) ∷ []
series seq con i (b ∷ c ∷ bs) =
    (record { fir = i == 0; fin = false; con = true; uns = false; seq = (seq + i) % 16 }, b)
    ∷ series seq con (i + 1) (c ∷ bs)

pub notes-append_header :
    (c : Control) (iin : ℕ) (body : List ℕ)
    → c.seq < 16
    → notes (append_header [] (record { control = c; func = func_response; iin = iin }) ++ body)
      ≡ (c, body)
unfolding append_header is_response FuncCode.is_response
notes-append_header c iin body h = ap (λ k. (k, body)) (control_back c h)

-- What stands at a position of a list, and behind it.
pub get_or-drop :
    (i : ℕ) (xs : List (List ℕ)) (b : List ℕ) (bs : List (List ℕ))
    → drop i xs ≡ b ∷ bs
    → get_or xs i [] ≡ b
get_or-drop zero [] b bs h = absurd (ground (arith, h))
get_or-drop zero (x ∷ xs) b bs h = ap (λ l. get_or l 0 []) h
get_or-drop (suc i) [] b bs h = absurd (ground (arith, h))
get_or-drop (suc i) (x ∷ xs) b bs h = get_or-drop i xs b bs h

pub length-front :
    (i : ℕ) (xs : List (List ℕ)) (b : List ℕ) (bs : List (List ℕ))
    → drop i xs ≡ b ∷ bs
    → length xs ≡ i + 1 + length bs
length-front i xs b bs h = omega (arith, length-drop i xs, ap length h)

pub after-front :
    (i : ℕ) (xs : List (List ℕ)) (b : List ℕ) (bs : List (List ℕ))
    → drop i xs ≡ b ∷ bs
    → drop (i + 1) xs ≡ bs
after-front i xs b bs h = sym (drop-drop i 1 xs) ∙ ap (drop 1) h

module _ {D V : Type 0} where
  clock_due-keeps :
      (cfg : Config) (d : Device D V) (now : ℕ)
      → ((clock_due cfg d now).0.events ≡ d.events) × ((clock_due cfg d now).0.iin ≡ d.iin)
  unfolding clock_due
  clock_due-keeps cfg d now = ground arith

  pub current_iin-keeps :
      (cfg : Config) (d : Device D V) (i now : ℕ)
      → ((current_iin cfg d i now).0.events ≡ d.events) × ((current_iin cfg d i now).0.iin ≡ d.iin)
  unfolding current_iin
  current_iin-keeps cfg d i now = clock_due-keeps cfg d now

module _ {D V : Type 0} where
  -- A fragment goes out if it may, and the master confirms what is awaited.
  unfoldable pub round : Session D V Notes → ℕ → Session D V Notes
  round s now = let q = (advance_response recorder s now).0 in on_confirm q q.confirm_seq

  unfoldable pub exchange : ℕ → Session D V Notes → ℕ → Session D V Notes
  exchange zero s now = s
  exchange (suc n) s now = exchange n (round s now) now

  -- Whether the last fragment asks for a confirmation: if the response carries events, or answers a broadcast
  -- that is to be confirmed.
  abbrev pub confirms_last : Session D V Notes → Bool
  confirms_last s = s.pending_has_events || (Iin.has s.dev.iin iin_broadcast && s.broadcast_confirm)

  pub advance-sends :
      (s : Session D V Notes) (now : ℕ)
      → s.awaiting_confirm ≡ false
      → s.pending_index < length s.pending_bodies
      → advance_response recorder s now ≡ send_next recorder s now
  unfolding advance_response
  advance-sends s now h l =
      choose (length s.pending_bodies == 0) s.awaiting_confirm
        (leb (length s.pending_bodies) s.pending_index) refl h refl
    where
      next : Session D V Notes × Option (Unit {0})
      next = send_next recorder s now

      choose :
          (a b f : Bool)
          → (length s.pending_bodies == 0) ≡ a
          → b ≡ false
          → leb (length s.pending_bodies) s.pending_index ≡ f
          → (if a
              then (s, none)
              else if b || false
              then (s, none)
              else if f
              then (finish_response s, none)
              else next)
            ≡ next
      choose true b f p q r = absurd (ground (arith, p, l))
      choose false true f p q r = absurd (ground (arith, q))
      choose false false true p q r = absurd (ground (arith, r, l))
      choose false false false p q r = refl

  -- What a round leaves behind that sends one of several fragments, and one that sends the last.
  pub record Sent (s q : Session D V Notes) (x : Control × List ℕ) : Type 0 where
    pub line : q.line ≡ s.line ++ (x ∷ [])
    pub free : q.awaiting_confirm ≡ false
    pub seq : q.pending_seq ≡ s.pending_seq
    pub last : confirms_last q ≡ confirms_last s
    pub has : q.pending_has_events ≡ s.pending_has_events
    pub bodies : q.pending_bodies ≡ s.pending_bodies
    pub index : q.pending_index ≡ s.pending_index + 1
    pub events : q.dev.events ≡ s.dev.events

  -- A response that is over.
  pub record Done (s q : Session D V Notes) (xs : Notes) : Type 0 where
    pub line : q.line ≡ s.line ++ xs
    pub free : q.awaiting_confirm ≡ false
    pub bodies : q.pending_bodies ≡ []
    pub events :
        q.dev.events
        ≡ (if s.pending_has_events then (EventBuffer.confirm s.dev.events).0 else s.dev.events)
