-- ===== src/Outstation/Solicited/Pacing.antt =====
-- What holds of the series of a response at any moment, and of the events it carries.
pub mod Handling
pub mod Known
pub mod Remembering
pub mod Repeating
pub mod Confirming
use go_dnp.Common.{
  ℕ, zero, suc, ◌+◌, ◌-◌, ◌≤◌, ◌<◌, Bool, true, false, not, ◌&&◌, ◌||◌, ltb, leb, ◌==◌,
  if◌then◌else◌, Option, none, some, List, [], ◌∷◌, ◌++◌, length, get_or, ◌≡◌, ◌⊎◌, inl, inr, refl,
  subst, sym, ap, ◌∙◌, arith,
}
use go_dnp.App.FuncCode.{func_response}
use go_dnp.App.Iin
use go_dnp.App.Iin.{iin_broadcast}
use go_dnp.App.Header.{Control, append_header}
use go_dnp.Stack.{Received}
use go_dnp.Outstation.EventBuffer
use go_dnp.Outstation.EventBuffer.{EventBuffer}
use go_dnp.Outstation.EventBuffer.Capacity.{Accounted}
use go_dnp.Outstation.Unsolicited.Account.{unselect-Accounted}
use go_dnp.Outstation.Solicited.{
  Config, Device, Session, Line, clock_due, current_iin, finish_response, abandon_response,
  check_confirm_timeout, on_confirm, needs_confirm, next_control, after_send, send_next,
  advance_response, send_fragments, respond,
}

module _ {D V W : Type 0} where
  -- No more fragments were sent than there are, and when all were sent the last one awaits its confirmation.
  pub record IsPaced (s : Session D V W) : Type 0 where
    pub bounded : s.pending_index ≤ length s.pending_bodies
    pub waits :
        (s.pending_index < length s.pending_bodies)
        ⊎ ((length s.pending_bodies ≡ 0) ⊎ (s.awaiting_confirm ≡ true))

  -- The pacing, and the events all accounted for, a number of them as removed by confirmations.
  pub record IsSound (gone : ℕ) (s : Session D V W) : Type 0 where
    pub paced : IsPaced s
    pub events : Accounted s.dev.events gone

  pub done-IsSound :
      (gone : ℕ) (s : Session D V W)
      → s.pending_bodies ≡ []
      → s.pending_index ≡ 0
      → Accounted s.dev.events gone
      → IsSound gone s
  done-IsSound gone s h k v = record {
    paced = record { bounded = omega (arith, k); waits = inr (inl (ap length h)) };
    events = v;
  }

  -- A response of which nothing was sent.
  pub begun-IsSound :
      (gone : ℕ) (s : Session D V W)
      → s.pending_index ≡ 0
      → Accounted s.dev.events gone
      → IsSound gone s
  begun-IsSound gone s h v = record {
    paced = record { bounded = omega (arith, h); waits = begun (length s.pending_bodies) refl };
    events = v;
  }
    where
      begun :
          (n : ℕ)
          → length s.pending_bodies ≡ n
          → (s.pending_index < length s.pending_bodies)
            ⊎ ((length s.pending_bodies ≡ 0) ⊎ (s.awaiting_confirm ≡ true))
      begun zero k = inr (inl k)
      begun (suc n) k = inl (omega (arith, h, k))

  pub pick-IsSound :
      (gone : ℕ) (b : Bool) (x y : Session D V W)
      → IsSound gone x
      → IsSound gone y
      → IsSound gone (if b then x else y)
  pick-IsSound gone true x y h k = h
  pick-IsSound gone false x y h k = k

  pub abandon-IsSound :
      (gone : ℕ) (s : Session D V W) → IsSound gone s → IsSound gone (abandon_response s)
  unfolding abandon_response
  abandon-IsSound gone s h =
      pick-IsSound gone (length s.pending_bodies == 0) _ _ h
        (done-IsSound gone _ refl refl (dropped s.pending_has_events))
    where
      dropped :
          (b : Bool)
          → Accounted (if b then (EventBuffer.unselect s.dev.events).0 else s.dev.events) gone
      dropped true = unselect-Accounted s.dev.events gone h.events
      dropped false = h.events

  pub timeout-IsSound :
      (gone : ℕ) (s : Session D V W) (now : ℕ)
      → IsSound gone s
      → IsSound gone (check_confirm_timeout s now)
  unfolding check_confirm_timeout
  timeout-IsSound gone s now h =
      pick-IsSound gone (not s.awaiting_confirm || ltb now s.confirm_deadline) _ _ h
        (done-IsSound gone _ refl refl (unselect-Accounted s.dev.events gone h.events))

module _ {D V : Type 0} where
  pub clock_due-events :
      (cfg : Config) (d : Device D V) (now : ℕ) → (clock_due cfg d now).0.events ≡ d.events
  unfolding clock_due
  clock_due-events cfg d now = ground arith

  current_iin-events :
      (cfg : Config) (d : Device D V) (i now : ℕ) → (current_iin cfg d i now).0.events ≡ d.events
  unfolding current_iin
  current_iin-events cfg d i now = clock_due-events cfg d now

module _ {D V W R : Type 0} (line : Line R W) (gone : ℕ) where
  after_send-IsSound :
      (s : Session D V W) (c : Control) (now : ℕ) (r : W × Option R)
      → s.pending_index < length s.pending_bodies
      → (c.con || not s.pending_has_events) ≡ true
      → Accounted s.dev.events gone
      → IsSound gone (after_send line s c now r).0
  unfolding finish_response
  after_send-IsSound s c now (w, some e) l k v = record {
    paced = record { bounded = omega (arith, l); waits = inl l };
    events = v;
  }
  after_send-IsSound s c now (w, none) l k v = choose c.con s.pending_has_events k
    where
      q : Session D V W
      q = record s {
        line = w;
        link_deadline = if line.pending w then now + s.cfg.link_timeout else s.link_deadline;
        pending_index = s.pending_index + 1;
      }

      waiting : Session D V W
      waiting = record q {
        awaiting_confirm = true;
        confirm_seq = c.seq;
        confirm_deadline = now + s.cfg.confirm_timeout;
      }

      choose :
          (con has : Bool)
          → (con || not has) ≡ true
          → IsSound gone (
              if con then waiting else record q {
                pending_bodies = [];
                pending_index = 0;
                dev = record q.dev {
                  events = if has then (EventBuffer.confirm q.dev.events).0 else q.dev.events;
                  iin = (finish_response q).dev.iin;
                };
              })
      choose true has k = record {
        paced = record { bounded = omega (arith, l); waits = inr (inr refl) };
        events = v;
      }
      choose false true k = absurd (ground (arith, k))
      choose false false k = done-IsSound gone _ refl refl v

  -- Sending on removes no event.
  pub advance-IsSound :
      (s : Session D V W) (now : ℕ) → IsSound gone s → IsSound gone (advance_response line s now).0
  unfolding advance_response send_next next_control needs_confirm
  advance-IsSound s now h =
      choose (length s.pending_bodies == 0) s.awaiting_confirm (line.busy s.line)
        (leb (length s.pending_bodies) s.pending_index) refl refl refl
    where
      c : Control
      c = next_control line s

      dev : Device D V
      dev = (current_iin s.cfg s.dev s.indications now).0

      sent : s.pending_index < length s.pending_bodies → IsSound gone (send_next line s now).0
      sent l =
          after_send-IsSound (record s { dev = dev }) c now _ l
            (carries (s.pending_index == (length s.pending_bodies - 1)) s.pending_has_events _)
            (subst (λ b. Accounted b gone) (sym (current_iin-events s.cfg s.dev s.indications now))
              h.events)
        where
          carries : (a b c : Bool) → ((not a || b || c) || not b) ≡ true
          carries a b c = ground arith

      choose :
          (a b w f : Bool)
          → (length s.pending_bodies == 0) ≡ a
          → s.awaiting_confirm ≡ b
          → leb (length s.pending_bodies) s.pending_index ≡ f
          → IsSound gone
              (if◌then◌else◌ {A = Session D V W × Option R} a
                (s, none)
                (if b || w
                  then (s, none)
                  else if f
                  then (finish_response s, none)
                  else send_next line s now)).0
      choose true b w f p q r = h
      choose false true w f p q r = h
      choose false false true f p q r = h
      choose false false false true p q r = absurd (ground (arith, p, q, r, h.paced.waits))
      choose false false false false p q r = sent (ground (arith, r))

  pub send_fragments-IsSound :
      (s : Session D V W) (r : Received) (seq : ℕ) (bodies : List (List ℕ)) (has : Bool) (now : ℕ)
      → IsSound gone s
      → IsSound gone (send_fragments line s r seq bodies has now).0
  unfolding send_fragments
  send_fragments-IsSound s r seq bodies has now h =
      choose r.broadcast _ (advance-IsSound _ now (begun-IsSound gone _ refl h.events))
    where
      choose :
          (b : Bool) (x : Session D V W × Option R)
          → IsSound gone x.0
          → IsSound gone (if◌then◌else◌ {A = Session D V W × Option R} b (s, none) x).0
      choose true x k = h
      choose false x k = k
