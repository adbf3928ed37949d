-- ===== src/Outstation/Command/Execute.antt =====
-- outstation/command.go: executeCommands and what it calls, onSelect and onCommand.
use go_dnp.Common.{
  ℕ, zero, suc, ◌+◌, ◌%◌, Bool, true, not, ◌&&◌, ◌||◌, ltb, ◌==◌, ◌!=◌, if◌then◌else◌, Option, none,
  some, List, [], ◌∷◌, ◌++◌, length, take, drop,
}
use go_dnp.App.FuncCode.{func_select, func_operate, func_direct_operate_nr, no_reply}
use go_dnp.App.Header.{size}
use go_dnp.App.Iin
use go_dnp.App.Iin.{iin_object_unknown, iin_parameter_error}
use go_dnp.App.Qualifier.{index_prefix, prefix_octets, is_index}
use go_dnp.App.Object.{ObjectHeader, append_object_header}
use go_dnp.App.Fragment.{Fragment}
use go_dnp.Stack.{Received}
use go_dnp.Outstation.Command.{
  OperateType, operate_direct, operate_direct_no_ack, operate_selected, command_success,
  command_not_supported, command_too_many_ops, is_ok, op_type, is_trip, is_close, Selection, clear,
  matches, Outcome, read_prefix, Descriptor, binary_output_status, analog_output_status, Device,
  Session, set_last,
}

module _ {W C V E : Type 0} (dev : Device W C V E) where
  unfoldable pub control_exists : W → ℕ → ℕ → Bool
  control_exists w group index =
      let pt = if group == 41 then analog_output_status else binary_output_status in
      let n = dev.output_count w pt in
      elim (dev.has_output) [ some has ↦ has w pt index | none ↦ (n == 0) || ltb index n ]

  unfoldable pub run_command : W → ℕ → ℕ → ℕ → List ℕ → Bool → OperateType → W × ℕ
  run_command w group variation index raw selecting op =
      if group == 12
      then (if variation != 1
          then (w, command_not_supported)
          else if selecting
          then dev.select_crob w index (dev.parse_crob raw)
          else dev.operate_crob w index (dev.parse_crob raw) op)
      else if group == 41
      then (if selecting
          then dev.select_analog w index (dev.parse_value variation raw) variation
          else dev.operate_analog w index (dev.parse_value variation raw) variation op)
      else (w, command_not_supported)

  unfoldable pub record_command_event : W → ℕ → ℕ → ℕ → List ℕ → ℕ → W
  record_command_event w group variation index raw status =
      let c = dev.code (dev.parse_crob raw) in
      let state =
        if not (is_close c) && not (is_trip c)
        then (op_type c == 0x03) || (op_type c == 0x01)
        else is_close c in
      if group == 12
      then (if variation != 1 then w else dev.raise_binary w index state status (dev.now w))
      else if group == 41
      then dev.raise_analog w index (dev.parse_value variation raw) variation status (dev.now w)
      else w

  -- A command that reaches the handler, and its event, if it operated.
  unfoldable pub run_recorded : W → ℕ → ℕ → ℕ → List ℕ → Bool → OperateType → W × ℕ
  run_recorded w group variation index raw selecting op =
      let (w', status) = run_command w group variation index raw selecting op in
      (if selecting then w' else record_command_event w' group variation index raw status, status)

  -- What executing has led to: over the headers, and within one.
  pub record Run : Type 0 where
    pub controls : ℕ
    pub iin : ℕ
    pub outcomes : List Outcome
    pub body : List ℕ
    pub world : W

  pub record Walk : Type 0 where
    pub off : ℕ
    pub echo : List ℕ
    pub echoed : ℕ
    pub run : Run

  -- The switch on one command object: the indications, the world and the status.
  unfoldable pub judge :
      Session → OperateType → Bool → ℕ → ObjectHeader → Run → ℕ → List ℕ → ℕ × W × ℕ
  judge s op selecting select_status h r wide raw =
      let index = wide % 65536 in
      let (w, status) = run_recorded r.world h.group h.variation index raw selecting op in
      if ltb 0xffff wide || not (control_exists r.world h.group index)
      then (Iin.set r.iin iin_parameter_error, r.world, command_not_supported)
      else if ltb 0 s.max_controls && ltb s.max_controls (r.controls + 1)
      then (r.iin, r.world, command_too_many_ops)
      else if is_ok select_status
      then (r.iin, w, status)
      else (r.iin, r.world, select_status)

  -- The body of the loop over a header's objects, each `prefix` and `octets` octets long.
  unfoldable pub one_object : Session → OperateType → Bool → ℕ → ObjectHeader → ℕ → ℕ → Walk → Walk
  one_object s op selecting select_status h prefix octets x =
      let wide = read_prefix (drop x.off h.payload) prefix in
      let raw = take octets (drop (x.off + prefix) h.payload) in
      let (iin, w, status) = judge s op selecting select_status h x.run wide raw in
      record {
        off = x.off + (prefix + octets);
        echo = set_last (x.echo ++ take (prefix + octets) (drop x.off h.payload)) status;
        echoed = x.echoed + 1;
        run = record x.run {
          controls = x.run.controls + 1;
          iin = iin;
          outcomes = x.run.outcomes ++ (record { index = wide; status = status } ∷ []);
          world = w;
        };
      }

  unfoldable pub walk_objects :
      Session → OperateType → Bool → ℕ → ObjectHeader → ℕ → ℕ → ℕ → Walk → Walk
  walk_objects s op selecting select_status h prefix octets zero x = x
  walk_objects s op selecting select_status h prefix octets (suc count) x =
      let rest =
        walk_objects s op selecting select_status h prefix octets count
          (one_object s op selecting select_status h prefix octets x) in
      if ltb (length h.payload) (x.off + prefix + octets) then x else rest

  -- A header whose objects have the size `octets`.
  unfoldable pub sized_header : Session → OperateType → Bool → ℕ → ObjectHeader → ℕ → Run → Run
  sized_header s op selecting select_status h octets r =
      let prefix = index_prefix h.qualifier in
      let start : Walk = record { off = 0; echo = []; echoed = 0; run = r } in
      let x =
        walk_objects s op selecting select_status h (prefix_octets prefix) octets h.range.count
          start in
      if not (is_index prefix)
      then record r { iin = Iin.set r.iin iin_parameter_error }
      else record x.run {
        body =
            append_object_header x.run.body
              (record h { range = record h.range { count = x.echoed }; payload = x.echo });
      }

  abbrev unknown : Run → Run
  unknown r = record r { iin = Iin.set r.iin iin_object_unknown }

  abbrev pub measured : Session → OperateType → Bool → ℕ → ObjectHeader → Run → Option ℕ → Run
  measured s op selecting select_status h r none = unknown r
  measured s op selecting select_status h r (some octets) =
      if octets == 0 then unknown r else sized_header s op selecting select_status h octets r

  abbrev pub described :
      Session → OperateType → Bool → ℕ → ObjectHeader → Run → Option Descriptor → Run
  described s op selecting select_status h r none = unknown r
  described s op selecting select_status h r (some d) =
      if not d.is_command
      then unknown r
      else measured s op selecting select_status h r d.size_octets

  -- The body of the loop over the headers.
  unfoldable pub one_header : Session → OperateType → Bool → ℕ → ObjectHeader → Run → Run
  one_header s op selecting select_status h r =
      if (h.group == 12) && (h.variation != 1)
      then unknown r
      else described s op selecting select_status h r (dev.lookup h.group h.variation)

  unfoldable pub walk_headers : Session → OperateType → Bool → ℕ → List ObjectHeader → Run → Run
  walk_headers s op selecting select_status [] r = r
  walk_headers s op selecting select_status (h ∷ hs) r =
      walk_headers s op selecting select_status hs (one_header s op selecting select_status h r)

  unfoldable pub execute_commands : Session → W → Fragment → OperateType → ℕ → Run
  execute_commands s w frag op select_status =
      walk_headers s op (frag.header.func == func_select) select_status frag.objects
        (record { controls = 0; iin = s.iin; outcomes = []; body = []; world = w })

  unfoldable pub all_ok : List Outcome → Bool
  all_ok [] = true
  all_ok (o ∷ os) = is_ok o.status && all_ok os

  -- The response to a command, unless there is none.
  unfoldable pub answer : Bool → Session → Received → Fragment → Run → (Session × W) × Option E
  answer silent s r frag run =
      let ((iin, w), e) = dev.respond run.iin run.world r frag.header run.body in
      if silent
      then ((record s { iin = run.iin }, run.world), none)
      else ((record s { iin = iin }, w), e)

  unfoldable pub on_select :
      Session → W → Received → Fragment → List ℕ → ℕ → (Session × W) × Option E
  on_select s w r frag objects now =
      let run = execute_commands s w frag operate_direct command_success in
      let taken : Selection = record {
        active = true;
        objects = objects;
        seq = frag.header.control.seq;
        expires = now + s.select_timeout;
      } in
      answer r.broadcast (record s { sel = if all_ok run.outcomes then taken else clear s.sel }) r
        frag run

  abbrev pub operate_type : ℕ → OperateType
  operate_type fc =
      if fc == func_operate
      then operate_selected
      else if fc == func_direct_operate_nr
      then operate_direct_no_ack
      else operate_direct

  -- OPERATE consumes the selection, whether it matched or not.
  unfoldable pub on_command : Session → W → Received → Fragment → (Session × W) × Option E
  on_command s w r frag =
      let now = dev.now w in
      let fc = frag.header.func in
      let objects = drop (size frag.header) frag.raw in
      let operating = fc == func_operate in
      let select_status =
        if operating then matches s.sel objects frag.header.control.seq now else command_success in
      let s' = if operating then record s { sel = clear s.sel } else s in
      let run = execute_commands s' w frag (operate_type fc) select_status in
      if fc == func_select
      then on_select s w r frag objects now
      else answer (no_reply fc || r.broadcast) s' r frag run
