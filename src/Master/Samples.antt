-- ===== src/Master/Samples.antt =====
-- A master whose line notes the fragments it is given, and whose tasks have no closures of their own.
use go_dnp.Common.{ℕ, Bool, true, false, none, some, List, [], ◌∷◌, ◌++◌}
use go_dnp.App.Fragment.{Fragment}
use go_dnp.Master.Task.{Task, new_task, no_next, new_scan_task, class_all, class1}
use go_dnp.Master.Scheduler.{Scheduler}
use go_dnp.Master.Session.{Session, Line, Closures}

abbrev pub line : Line ℕ (List (List ℕ))
line = record {
  send = λ w octets. (w ++ (octets ∷ []), none);
  pending = λ w. false;
  busy = λ w. false;
  on_timeout = λ w. ((w, false), none);
  send_link_status_request = λ w. (w, none);
  reset = λ w. w;
}

abbrev pub closures : Closures ℕ ℕ
closures = record {
  build = λ c b. (b, none);
  on_fragment = λ c e f. (c, e);
  on_done = λ c e iin. (c, e);
  next = λ c. none;
}

abbrev pub poll : ℕ → ℕ → Task ℕ ℕ
poll due seq = record (new_task (new_scan_task class_all) no_next) {
  due = due;
  seq = seq;
  done = some 7;
}

abbrev pub waiting : Scheduler ℕ ℕ
waiting = record { q = poll 30 0 ∷ poll 20 0 ∷ poll 20 0 ∷ []; push_n = 3 }

abbrev pub session : Session ℕ ℕ (List (List ℕ))
session = record {
  cfg = record {
    response_timeout = 5000;
    link_timeout = 1000;
    keep_alive = 0;
    integrity_on_startup = true;
    disable_unsol_on_startup = true;
    unsol_class_mask = class1;
    max_tx_fragment = 2048;
  };
  line = [];
  seq = 3;
  unsol_seq = 0;
  has_unsol_seq = false;
  peer_silent = false;
  synchronized = true;
  sched = waiting;
  inflight = some (poll 10 3);
  stats = record {
    tasks_run = 1;
    tasks_succeeded = 0;
    tasks_failed = 0;
    response_timeout = 0;
    fragments_rx = 0;
    fragments_discarded = 0;
    unsolicited = 0;
    connections = 1;
    restarts_seen = 0;
  };
  connected = true;
  last_iin = 0;
  last_rx = 0;
  link_deadline = 0;
  startup_active = false;
  out = [];
}

-- A fragment of a response.
abbrev pub part : ℕ → Bool → Bool → Fragment
part seq fir fin = record {
  header = record {
    control = record { fir = fir; fin = fin; con = true; uns = false; seq = seq };
    func = 129;
    iin = 0;
  };
  objects = [];
  raw = [];
}
