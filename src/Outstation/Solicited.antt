-- ===== src/Outstation/Solicited.antt =====
-- The answers to requests, outstation/session.go: the state, the series of fragments of a response, its
-- confirmations. What the request handlers may change is a record of its own, `Device`, with `D` for the database
-- and the application; `W` is the stack and its connection, and `R` are the errors of both. Times are numbers;
-- log and counters are left out.
pub mod Requests
pub mod Serve
pub mod Pacing
pub mod Series
pub mod Samples
mod Tests
use go_dnp.Common.{
  ℕ, zero, suc, ◌+◌, ◌-◌, ◌%◌, bit_and, bit_or, Bool, true, false, not, ◌&&◌, ◌||◌, ltb, leb, ◌==◌,
  ◌!=◌, if◌then◌else◌, Option, none, some, List, [], ◌∷◌, ◌++◌, length, get_or,
}
use go_dnp.App.FuncCode.{func_response}
use go_dnp.App.Iin
use go_dnp.App.Iin.{
  iin_broadcast, iin_class1_events, iin_class2_events, iin_class3_events, iin_event_buffer_overflow,
  iin_need_time, request_error_mask,
}
use go_dnp.App.Header.{Control, append_header}
use go_dnp.Stack.{Received}
use go_dnp.Outstation.EventBuffer
use go_dnp.Outstation.EventBuffer.{EventBuffer}
use go_dnp.Outstation.Unsolicited.{UnsolState, UnsolicitedConfig}

pub record Config : Type 0 where
  pub confirm_timeout : ℕ
  pub link_timeout : ℕ
  pub sync_interval : ℕ
  pub holdover : ℕ

pub record Device (D V : Type 0) : Type 0 where
  pub events : EventBuffer V
  pub iin : ℕ
  pub unsol_classes : ℕ
  pub synchronized : Bool
  pub synced_at : ℕ
  pub outside : D

-- The last request that was acted on and what it was answered with.
pub record Last : Type 0 where
  pub valid : Bool
  pub source : ℕ
  pub seq : ℕ
  pub frag : List ℕ
  pub bodies : List (List ℕ)
  pub events : Bool
  pub errors : ℕ

pub record Session (D V W : Type 0) : Type 0 where
  pub cfg : Config
  pub line : W
  pub dev : Device D V
  pub indications : ℕ
  pub awaiting_confirm : Bool
  pub confirm_seq : ℕ
  pub confirm_deadline : ℕ
  pub pending_bodies : List (List ℕ)
  pub pending_index : ℕ
  pub pending_dest : ℕ
  pub pending_seq : ℕ
  pub pending_has_events : Bool
  pub last : Last
  pub broadcast_confirm : Bool
  pub deferred_read : Option Received
  pub unsol : UnsolState
  pub unsol_cfg : UnsolicitedConfig
  pub connected : Bool
  pub link_deadline : ℕ

-- The operations of the stack that the session calls.
pub record Line (R W : Type 0) : Type 0 where
  pub send_to : W → ℕ → List ℕ → W × Option R
  pub pending : W → Bool
  pub busy : W → Bool
  pub on_timeout : W → (W × Bool) × Option R

abbrev set_if : Bool → ℕ → ℕ → ℕ
set_if true mask iin = Iin.set iin mask
set_if false mask iin = iin

module _ {D V : Type 0} where
  -- Whether the clock needs setting again; the synchronization expires when the holdover has passed too. An
  -- interval that is negative in the source is 0 here, as is a negative holdover.
  unfoldable pub clock_due : Config → Device D V → ℕ → Device D V × Bool
  clock_due cfg d now =
      let since = now - d.synced_at in
      let expired = leb (cfg.sync_interval + cfg.holdover) since in
      if not d.synchronized then (d, true) else if cfg.sync_interval == 0 then (d, false) else (
        record d { synchronized = if expired then false else d.synchronized },
        leb cfg.sync_interval since,
      )

  unfoldable pub clock_set : Device D V → ℕ → Device D V
  clock_set d now = record d {
    synchronized = true;
    synced_at = now;
    iin = Iin.clear d.iin iin_need_time;
  }

  -- The indications to report; `indications` are the application's.
  unfoldable pub current_iin : Config → Device D V → ℕ → ℕ → Device D V × ℕ
  current_iin cfg d indications now =
      let classes = EventBuffer.classes d.events in
      let base = bit_or d.iin indications in
      let one = set_if (bit_and classes 2 != 0) iin_class1_events base in
      let two = set_if (bit_and classes 4 != 0) iin_class2_events one in
      let three = set_if (bit_and classes 8 != 0) iin_class3_events two in
      let over = set_if d.events.overflow iin_event_buffer_overflow three in
      let (d', due) = clock_due cfg d now in (d', set_if due iin_need_time over)

module _ {D V W : Type 0} where
  unfoldable pub finish_response : Session D V W → Session D V W
  finish_response s =
      let confirmed = (EventBuffer.confirm s.dev.events).0 in
      record s {
        pending_bodies = [];
        pending_index = 0;
        dev = record s.dev {
          events = if s.pending_has_events then confirmed else s.dev.events;
          iin = Iin.clear s.dev.iin (bit_or iin_broadcast request_error_mask);
        };
      }

  unfoldable pub abandon_response : Session D V W → Session D V W
  abandon_response s =
      let unselected = (EventBuffer.unselect s.dev.events).0 in
      if length s.pending_bodies == 0 then s else record s {
        dev = record s.dev { events = if s.pending_has_events then unselected else s.dev.events };
        awaiting_confirm = false;
        pending_bodies = [];
        pending_index = 0;
      }

  unfoldable pub check_confirm_timeout : Session D V W → ℕ → Session D V W
  check_confirm_timeout s now =
      if not s.awaiting_confirm || ltb now s.confirm_deadline then s else record s {
        awaiting_confirm = false;
        pending_bodies = [];
        pending_index = 0;
        dev = record s.dev { events = (EventBuffer.unselect s.dev.events).0 };
      }

  -- The confirmation of a solicited response.
  unfoldable pub on_confirm : Session D V W → ℕ → Session D V W
  unfolding finish_response
  on_confirm s seq =
      let q = record s { awaiting_confirm = false } in
      if not s.awaiting_confirm || not (seq == s.confirm_seq)
      then s
      else if leb (length s.pending_bodies) s.pending_index
      then finish_response q
      else q

module _ {D V W R : Type 0} (line : Line R W) where
  unfoldable pub needs_confirm : Session D V W → Bool → Bool
  needs_confirm s final =
      not final || s.pending_has_events || (Iin.has s.dev.iin iin_broadcast && s.broadcast_confirm)

  -- The control octet of the next fragment; `uint8` wraps.
  unfoldable pub next_control : Session D V W → Control
  next_control s =
      let i = s.pending_index in
      let final = i == (length s.pending_bodies - 1) in
      record {
        fir = i == 0;
        fin = final;
        con = needs_confirm s final;
        uns = false;
        seq = (s.pending_seq + i % 256) % 256 % 16;
      }

  -- What follows the stack's SendTo.
  abbrev pub after_send : Session D V W → Control → ℕ → W × Option R → Session D V W × Option R
  after_send s c now (w, some e) = (record s { line = w }, some e)
  after_send s c now (w, none) =
      let q = record s {
        line = w;
        link_deadline = if line.pending w then now + s.cfg.link_timeout else s.link_deadline;
        pending_index = s.pending_index + 1;
      } in
      let waits = record q {
        awaiting_confirm = true;
        confirm_seq = c.seq;
        confirm_deadline = now + s.cfg.confirm_timeout;
      } in
      (if c.con then waits else finish_response q, none)

  unfoldable pub send_next : Session D V W → ℕ → Session D V W × Option R
  unfolding next_control needs_confirm
  send_next s now =
      let c = next_control s in
      let (dev, iin) = current_iin s.cfg s.dev s.indications now in
      let q = record s { dev = dev } in
      after_send q c now (
        line.send_to s.line s.pending_dest (
          append_header [] (record { control = c; func = func_response; iin = iin })
          ++ get_or s.pending_bodies s.pending_index []))

  unfoldable pub advance_response : Session D V W → ℕ → Session D V W × Option R
  advance_response s now =
      let next = send_next s now in
      if length s.pending_bodies == 0
      then (s, none)
      else if s.awaiting_confirm || line.busy s.line
      then (s, none)
      else if leb (length s.pending_bodies) s.pending_index
      then (finish_response s, none)
      else next

  unfoldable pub send_fragments :
      Session D V W → Received → ℕ → List (List ℕ) → Bool → ℕ → Session D V W × Option R
  send_fragments s r seq bodies has_events now =
      let q = record s {
        pending_bodies = bodies;
        pending_index = 0;
        pending_dest = r.source;
        pending_seq = seq;
        pending_has_events = has_events;
        last = record s.last {
          bodies = bodies;
          events = has_events;
          errors = bit_and s.dev.iin request_error_mask;
        };
      } in
      let begun = advance_response q now in if r.broadcast then (s, none) else begun

  unfoldable pub respond : Session D V W → Received → ℕ → List ℕ → ℕ → Session D V W × Option R
  respond s r seq body now = send_fragments s r seq (body ∷ []) false now
