-- ===== src/Outstation/Solicited/Samples.antt =====
-- An outstation that is to send a response with events, in two fragments, on a line that notes what it takes.
use go_dnp.Common.{ℕ, true, false, none, [], ◌∷◌}
use go_dnp.Outstation.EventBuffer.{Event}
use go_dnp.Outstation.Unsolicited.{fresh}
use go_dnp.Outstation.Solicited.{Device, Session}
use go_dnp.Outstation.Solicited.Series.{Notes}

abbrev change : ℕ → Event ℕ
change seq = record { point_type = 1; class = 2; value = 5; selected = true; seq = seq }

abbrev pub device : Device ℕ ℕ
device = record {
  events = record {
    events = change 1 ∷ change 2 ∷ [];
    max = 10;
    overflow = false;
    drops = 0;
    drops_at_select = 0;
    next_seq = 2;
  };
  iin = 0;
  unsol_classes = 0;
  synchronized = true;
  synced_at = 0;
  outside = 0;
}

-- Two bodies are to be sent.
abbrev pub session : Session ℕ ℕ Notes
session = record {
  cfg = record { confirm_timeout = 5000; link_timeout = 1000; sync_interval = 0; holdover = 0 };
  line = [];
  dev = device;
  indications = 0;
  awaiting_confirm = false;
  confirm_seq = 0;
  confirm_deadline = 0;
  pending_bodies = (1 ∷ []) ∷ (2 ∷ []) ∷ [];
  pending_index = 0;
  pending_dest = 1;
  pending_seq = 3;
  pending_has_events = true;
  last = record {
    valid = true;
    source = 1;
    seq = 3;
    frag = 0xc3 ∷ 1 ∷ [];
    bodies = (1 ∷ []) ∷ (2 ∷ []) ∷ [];
    events = true;
    errors = 0;
  };
  broadcast_confirm = false;
  deferred_read = none;
  unsol = fresh;
  unsol_cfg = record {
    enabled = false;
    hold_time = 0;
    max_events = 0;
    confirm_timeout = 5000;
    max_retries = 3;
  };
  connected = true;
  link_deadline = 0;
}
