-- ===== src/Master/Task.antt =====
-- The tasks of master/task.go. The closures of the tasks that other files construct are arguments: `C` is what
-- they have captured. Times are numbers.
use go_dnp.Common.{
  ℕ, zero, suc, ◌/◌, ◌%◌, bit_and, Bool, false, ◌==◌, ◌!=◌, if◌then◌else◌, Option, none, some, List,
  [], ◌∷◌,
}
use go_dnp.App.Errors
use go_dnp.App.FuncCode.{
  func_read, func_write, func_immed_freeze, func_freeze_clear, func_cold_restart, func_warm_restart,
  func_enable_unsolicited, func_disable_unsolicited,
}
use go_dnp.App.Qualifier.{make_qualifier, prefix_none, range_count8, range_start_stop8}
use go_dnp.App.Object.{ObjectHeader}
use go_dnp.App.Fragment.{Builder, add_object, read_all_objects, read_range}

abbrev pub priority_startup : ℕ
priority_startup = 0

abbrev pub priority_command : ℕ
priority_command = 1

abbrev pub priority_integrity : ℕ
priority_integrity = 2

abbrev pub priority_poll : ℕ
priority_poll = 3

abbrev pub class0 : ℕ
class0 = 1

abbrev pub class1 : ℕ
class1 = 2

abbrev pub class2 : ℕ
class2 = 4

abbrev pub class3 : ℕ
class3 = 8

abbrev pub class_123 : ℕ
class_123 = 14

abbrev pub class_all : ℕ
class_all = 15

-- What a task is for; `call` is a task with closures of its own.
pub data Job (C : Type 0) : Type 0 where
  clear_restart : Job C
  unsolicited : (enable : Bool) (mask : ℕ) → Job C
  scan : (mask : ℕ) → Job C
  range_scan : (group variation start stop : ℕ) → Job C
  restart : (warm : Bool) → Job C
  write_time : (variation millis : ℕ) → Job C
  freeze : (clearing : Bool) → Job C
  call : (captured : C) → Job C

-- What of a task is fixed when it is constructed.
pub record Request (C : Type 0) : Type 0 where
  pub job : Job C
  pub func_code : ℕ
  pub priority : ℕ
  pub no_response : Bool
  pub startup : Bool
  pub period : ℕ

-- `next`: not set, or a task that is known, or one that the closure constructs.
pub data Next (C : Type 0) : Type 0 where
  no_next : Next C
  follows : Request C → Next C → Next C
  chosen : Next C

-- `done` names the caller who waits; `R` are the errors of the closures and of the stack.
pub record Task (C R : Type 0) : Type 0 where
  pub failure : Option R
  pub request : Request C
  pub next : Next C
  pub due : ℕ
  pub deadline : ℕ
  pub seq : ℕ
  pub started : Bool
  pub resp_seq : ℕ
  pub done : Option ℕ
  pub order : ℕ

unfoldable pub scan_priority : ℕ → ℕ
scan_priority mask = if bit_and mask class0 != 0 then priority_integrity else priority_poll

module _ {C : Type 0} where
  -- A task as it is constructed.
  abbrev pub new_task : {R : Type 0} → Request C → Next C → Task C R
  new_task r n = record {
    failure = none;
    request = r;
    next = n;
    due = 0;
    deadline = 0;
    seq = 0;
    started = false;
    resp_seq = 0;
    done = none;
    order = 0;
  }

  abbrev new_request : Job C → ℕ → ℕ → Request C
  new_request job fc priority = record {
    job = job;
    func_code = fc;
    priority = priority;
    no_response = false;
    startup = false;
    period = 0;
  }

  unfoldable pub new_clear_restart_task : Request C
  new_clear_restart_task = new_request clear_restart func_write priority_startup

  unfoldable pub new_unsolicited_task : Bool → ℕ → Request C
  new_unsolicited_task enable mask =
      new_request (unsolicited enable mask)
        (if enable then func_enable_unsolicited else func_disable_unsolicited) priority_startup

  unfoldable pub new_scan_task : ℕ → Request C
  new_scan_task mask = new_request (scan mask) func_read (scan_priority mask)

  unfoldable pub new_range_scan_task : ℕ → ℕ → ℕ → ℕ → Request C
  new_range_scan_task group variation start stop =
      new_request (range_scan group variation start stop) func_read priority_poll

  unfoldable pub new_restart_task : Bool → Request C
  new_restart_task warm =
      new_request (restart warm) (if warm then func_warm_restart else func_cold_restart)
        priority_command

  -- `millis` is the time in the 48 bits of the protocol.
  unfoldable pub new_write_time_object_task : ℕ → ℕ → Request C
  new_write_time_object_task variation millis =
      new_request (write_time variation millis) func_write priority_startup

  unfoldable pub new_freeze_task : Bool → Request C
  new_freeze_task clearing =
      new_request (freeze clearing) (if clearing then func_freeze_clear else func_immed_freeze)
        priority_command

-- The loop over the classes of a mask: a header that reads all objects of group 60 for each.
abbrev and_then :
    Builder × Option Errors.Error
    → (Builder → Builder × Option Errors.Error)
    → Builder × Option Errors.Error
and_then (b, some e) k = (b, some e)
and_then (b, none) k = k b

unfoldable pub read_classes : ℕ → List (ℕ × ℕ) → Builder → Builder × Option Errors.Error
read_classes mask [] b = (b, none)
read_classes mask ((class, variation) ∷ cs) b =
    if bit_and mask class == 0
    then read_classes mask cs b
    else and_then (add_object b (read_all_objects 60 variation)) (read_classes mask cs)

abbrev pub event_rows : List (ℕ × ℕ)
event_rows = (class1, 2) ∷ (class2, 3) ∷ (class3, 4) ∷ []

abbrev pub scan_rows : List (ℕ × ℕ)
scan_rows = (class1, 2) ∷ (class2, 3) ∷ (class3, 4) ∷ (class0, 1) ∷ []

-- The object that clears the restart indication: one packed bit at index 7.
abbrev pub restart_bit : ObjectHeader
restart_bit = record {
  group = 80;
  variation = 1;
  qualifier = make_qualifier prefix_none range_start_stop8;
  range = record { spec = range_start_stop8; low = 7; stop = 7; count = 1 };
  payload = 0 ∷ [];
  offset = 0;
  data_offset = 0;
}

-- The lowest octets of a number, the lowest first.
abbrev pub low_octets : ℕ → ℕ → List ℕ
low_octets zero n = []
low_octets (suc k) n = n % 256 ∷ low_octets k (n / 256)

abbrev pub time_object : ℕ → ℕ → ObjectHeader
time_object variation millis = record {
  group = 50;
  variation = variation;
  qualifier = make_qualifier prefix_none range_count8;
  range = record { spec = range_count8; low = 0; stop = 0; count = 1 };
  payload = low_octets 6 millis;
  offset = 0;
  data_offset = 0;
}

-- `build`, the builds of other closures being an argument.
unfoldable pub build :
    {C : Type 0}
    → (C → Builder → Builder × Option Errors.Error)
    → Job C
    → Builder
    → Builder × Option Errors.Error
build other clear_restart b = add_object b restart_bit
build other (unsolicited enable mask) b = read_classes mask event_rows b
build other (scan mask) b = read_classes mask scan_rows b
build other (range_scan group variation start stop) b =
    add_object b (read_range group variation start stop)
build other (restart warm) b = (b, none)
build other (write_time variation millis) b = add_object b (time_object variation millis)
build other (freeze clearing) b = add_object b (read_all_objects 20 0)
build other (call c) b = other c b
