-- ===== src/Outstation/Command/Tests.antt =====
-- A device that counts the controls it is asked to operate, and an OPERATE that nothing selected.
use go_dnp.Common.{
  ℕ, ◌+◌, ◌≤◌, ◌||◌, true, false, none, some, List, [], ◌∷◌, map, drop, All, ◌≡◌, ◌⊎◌, ◌↔◌, refl,
}
use go_dnp.App.FuncCode.{func_operate, no_reply}
use go_dnp.App.Header.{size}
use go_dnp.App.Qualifier.{is_index, index_prefix, prefix_octets}
use go_dnp.App.Object.{ObjectHeader}
use go_dnp.App.Fragment.{Fragment}
use go_dnp.Stack.{Received}
use go_dnp.Outstation.Command.{
  Device, Session, clear, matches, next_seq, operate_direct, command_success, command_no_select,
  read_prefix, is_ok,
}
use go_dnp.Outstation.Command.Execute.{
  execute_commands, walk_headers, one_header, sized_header, walk_objects, one_object, judge,
  control_exists, run_recorded, run_command, record_command_event, all_ok, answer, on_select,
  on_command,
}
use go_dnp.Outstation.Command.Refusal.{IsRefused}
use go_dnp.Outstation.Command.Selecting.{execute_commands-select}
use go_dnp.Outstation.Command.SelectOperate.{Fits, operated, on_select-Fits, on_command-operate}

abbrev device : Device ℕ (List ℕ) ℕ ℕ
device = record {
  now = λ w. 5;
  lookup = λ group variation. some (record { is_command = true; size_octets = some 11 });
  parse_crob = λ octets. octets;
  code = λ octets. 3;
  parse_value = λ variation octets. 0;
  select_crob = λ w index c. (w, 0);
  operate_crob = λ w index c op. (w + 1, 0);
  select_analog = λ w index v variation. (w, 0);
  operate_analog = λ w index v variation op. (w + 1, 0);
  has_output = none;
  output_count = λ w pt. 0;
  raise_binary = λ w index state status now. w;
  raise_analog = λ w index v variation status now. w;
  respond = λ iin w r h body. ((iin, w), none);
}

abbrev fresh : Session
fresh = record {
  sel = record { active = false; objects = []; seq = 0; expires = 0 };
  iin = 0;
  max_controls = 0;
  select_timeout = 10;
}

abbrev close_point : ObjectHeader
close_point = record {
  group = 12;
  variation = 1;
  qualifier = 0x17;
  range = record { spec = 7; low = 0; stop = 0; count = 1 };
  payload = 4 ∷ 0x41 ∷ 1 ∷ 100 ∷ 0 ∷ 0 ∷ 0 ∷ 100 ∷ 0 ∷ 0 ∷ 0 ∷ 0 ∷ [];
  offset = 2;
  data_offset = 6;
}

abbrev control : List ℕ
control = 12 ∷ 1 ∷ 0x17 ∷ 1 ∷ 4 ∷ 0x41 ∷ 1 ∷ 100 ∷ 0 ∷ 0 ∷ 0 ∷ 100 ∷ 0 ∷ 0 ∷ 0 ∷ 0 ∷ []

abbrev request : ℕ → ℕ → Fragment
request func seq = record {
  header = record {
    control = record { fir = true; fin = true; con = false; uns = false; seq = seq };
    func = func;
    iin = 0;
  };
  objects = close_point ∷ [];
  raw = 0xc0 ∷ func ∷ control;
}

abbrev from_master : Received
from_master = record { fragment = []; source = 1; dest = 10; broadcast = false }

on_select-Fits_example :
    (let left = (on_select device fresh 0 from_master (request 3 0) control 5).0.0.sel in
      let run = execute_commands device fresh 0 (request 3 0) operate_direct command_success in
      (matches left control 1 9 ≡ command_success) ↔ (
        (all_ok device run.outcomes ≡ true)
        × (9 ≤ 5 + 10)
        × (1 ≡ next_seq 0)
        × (control ≡ control)))
on_select-Fits_example =
    on_select-Fits device fresh 0 from_master (request 3 0) control 5 control 1 9

on_command-operate_example :
    (let s' = record fresh { sel = clear fresh.sel } in
      let run = operated device fresh 0 from_master (request 4 1) in
      ((on_command device fresh 0 from_master (request 4 1)).0.0.sel ≡ clear fresh.sel)
      × (on_command device fresh 0 from_master (request 4 1)
          ≡ answer device (no_reply func_operate || false) s' from_master (request 4 1) run)
      × (Fits fresh.sel (drop (size (request 4 1).header) (request 4 1).raw) 1 5
          ⊎ (run.world ≡ 0 × All IsRefused run.outcomes)))
on_command-operate_example = on_command-operate device fresh 0 from_master (request 4 1) refl

-- The one command of it was refused, as there is no selection.
operated_run :
    map (λ o. o.status) (operated device fresh 0 from_master (request 4 1)).outcomes
    ≡ command_no_select ∷ []
unfolding execute_commands walk_headers one_header sized_header walk_objects one_object judge
    matches control_exists read_prefix is_ok run_recorded run_command record_command_event is_index
    index_prefix prefix_octets
operated_run = refl

-- No control has been operated, before the SELECT or after it.
abbrev Unmoved : ℕ → Type 0
Unmoved w = w ≡ 0

execute_commands-select_example :
    Unmoved (execute_commands device fresh 0 (request 3 0) operate_direct command_success).world
execute_commands-select_example =
    execute_commands-select device Unmoved fresh 0 (request 3 0) operate_direct command_success
      (λ w index c p. p) (λ w index v variation p. p) refl refl
