-- ===== src/Outstation/Unsolicited/Tests.antt =====
-- A session that reports each event in an octet, two at most in a fragment, on a line that takes all.
use go_dnp.Common.{ℕ, true, false, leb, none, List, [], ◌∷◌, ◌++◌, map, length, ◌≡◌, refl, arith}
use go_dnp.App.FuncCode.{is_response}
use go_dnp.App.Iin
use go_dnp.App.Header.{append_header, control_byte}
use go_dnp.Outstation.EventBuffer.{Event}
use go_dnp.Outstation.EventBuffer.Capacity.{Accounted, Increasing}
use go_dnp.Outstation.Unsolicited.{
  fresh, Session, Reporter, search_fit, events_that_fit, unsolicited_fragment, prepare,
  poll_unsolicited,
}
use go_dnp.Outstation.Unsolicited.Account.{poll_unsolicited-Accounted}
use go_dnp.Outstation.Unsolicited.Retry.{report_of}

abbrev reporter : Reporter (List ℕ) ℕ ℕ
reporter = record {
  fits = λ es. leb (length es) 2;
  build = λ es. (map (λ e. e.value) es, []);
  indications = λ b. 0;
  send = λ w octets. (w ++ octets, none);
}

abbrev change : ℕ → ℕ → Event ℕ
change seq value = record { point_type = 1; class = 2; value = value; selected = false; seq = seq }

abbrev three_changes : List (Event ℕ)
three_changes = change 1 7 ∷ change 2 8 ∷ change 3 9 ∷ []

abbrev session : Session ℕ
session = record {
  cfg = record {
    enabled = true;
    hold_time = 0;
    max_events = 0;
    confirm_timeout = 5000;
    max_retries = 3;
  };
  unsol = record fresh { null_sent = true; null_confirmed = true };
  events = record {
    events = three_changes;
    max = 10;
    overflow = false;
    drops = 0;
    drops_at_select = 0;
    next_seq = 3;
  };
  classes = 2;
  connected = true;
  responding = false;
  deferred = false;
}

session-Accounted : Accounted session.events 0
unfolding Increasing
session-Accounted = record {
  room = omega arith;
  bounded = omega arith;
  ordered = (omega arith, (omega arith, (omega arith, omega arith)));
  accounted = refl;
}

poll_unsolicited-Accounted_example :
    Accounted (poll_unsolicited reporter session [] 100).0.0.events 0
poll_unsolicited-Accounted_example =
    poll_unsolicited-Accounted reporter 0 session [] 100 session-Accounted

report_run : report_of reporter session three_changes false ≡ 0xf1 ∷ 130 ∷ 0 ∷ 0 ∷ 7 ∷ 8 ∷ []
unfolding prepare unsolicited_fragment events_that_fit search_fit append_header is_response
    control_byte Iin.octets
report_run = refl
