-- ===== src/Outstation/Command/Selecting.antt =====
-- A SELECT moves nothing: it calls the handler's selections only.
use go_dnp.Common.{
  ℕ, zero, suc, ◌+◌, ◌%◌, Bool, true, false, not, ◌&&◌, ◌||◌, ltb, ◌==◌, ◌!=◌, if◌then◌else◌,
  Option, none, some, List, [], ◌∷◌, length, ◌≡◌, sym, subst,
}
use go_dnp.App.FuncCode.{func_select}
use go_dnp.App.Iin
use go_dnp.App.Iin.{iin_parameter_error}
use go_dnp.App.Object.{ObjectHeader}
use go_dnp.App.Fragment.{Fragment}
use go_dnp.App.Qualifier.{index_prefix, prefix_octets, is_index}
use go_dnp.Outstation.Command.{
  OperateType, command_not_supported, command_too_many_ops, is_ok, Descriptor, Device, Session,
}
use go_dnp.Outstation.Command.Execute.{
  Run, Walk, control_exists, run_command, run_recorded, judge, one_object, walk_objects,
  sized_header, measured, described, one_header, walk_headers, execute_commands,
}

module _ {W C V E : Type 0} (dev : Device W C V E) (P : W → Type 0)
    (crobs : (w : W) (index : ℕ) (c : C) → P w → P (dev.select_crob w index c).0)
    (analogs : (w : W) (index : ℕ) (v : V) (variation : ℕ)
      → P w
      → P (dev.select_analog w index v variation).0)
    (s : Session) (op : OperateType) (status : ℕ) where
  run_recorded-P :
      (w : W) (group variation index : ℕ) (raw : List ℕ)
      → P w
      → P (run_recorded dev w group variation index raw true op).0
  unfolding run_recorded run_command
  run_recorded-P w group variation index raw p = choose (group == 12) (variation != 1) (group == 41)
    where
      choose :
          (a b c : Bool)
          → P
              (if a
                then (if b
                    then (w, command_not_supported)
                    else dev.select_crob w index (dev.parse_crob raw))
                else if c
                then dev.select_analog w index (dev.parse_value variation raw) variation
                else (w, command_not_supported)).0
      choose true true c = p
      choose true false c = crobs w index (dev.parse_crob raw) p
      choose false b true = analogs w index (dev.parse_value variation raw) variation p
      choose false b false = p

  judge-P :
      (h : ObjectHeader) (r : Run dev) (wide : ℕ) (raw : List ℕ)
      → P r.world
      → P (judge dev s op true status h r wide raw).1
  unfolding judge
  judge-P h r wide raw p =
      choose (ltb 0xffff wide || not (control_exists dev r.world h.group (wide % 65536)))
        (ltb 0 s.max_controls && ltb s.max_controls (r.controls + 1)) (is_ok status)
    where
      ran : W × ℕ
      ran = run_recorded dev r.world h.group h.variation (wide % 65536) raw true op

      choose :
          (a b c : Bool)
          → P
              (if◌then◌else◌ {A = ℕ × W × ℕ} a
                (Iin.set r.iin iin_parameter_error, r.world, command_not_supported)
                (if b
                  then (r.iin, r.world, command_too_many_ops)
                  else if c
                  then (r.iin, ran.0, ran.1)
                  else (r.iin, r.world, status))).1
      choose true b c = p
      choose false true c = p
      choose false false true = run_recorded-P r.world h.group h.variation (wide % 65536) raw p
      choose false false false = p

  pick_walk :
      (b : Bool) (x y : Walk dev) → P x.run.world → P y.run.world → P (if b then x else y).run.world
  pick_walk true x y p q = p
  pick_walk false x y p q = q

  walk_objects-P :
      (h : ObjectHeader) (prefix octets count : ℕ) (x : Walk dev)
      → P x.run.world
      → P (walk_objects dev s op true status h prefix octets count x).run.world
  unfolding walk_objects one_object
  walk_objects-P h prefix octets zero x p = p
  walk_objects-P h prefix octets (suc count) x p =
      pick_walk (ltb (length h.payload) (x.off + prefix + octets)) x _ p (
        walk_objects-P h prefix octets count (one_object dev s op true status h prefix octets x)
          (judge-P h x.run _ _ p))

  pick_run : (b : Bool) (x y : Run dev) → P x.world → P y.world → P (if b then x else y).world
  pick_run true x y p q = p
  pick_run false x y p q = q

  described-P :
      (h : ObjectHeader) (r : Run dev) (d : Option Descriptor)
      → P r.world
      → P (described dev s op true status h r d).world
  unfolding sized_header
  described-P h r none p = p
  described-P h r (some d) p = pick_run (not d.is_command) _ _ p (sized d.size_octets)
    where
      sized : (o : Option ℕ) → P (measured dev s op true status h r o).world
      sized none = p
      sized (some octets) =
          let prefix = index_prefix h.qualifier in
          pick_run (octets == 0) _ _ p (
            pick_run (not (is_index prefix)) _ _ p (
              walk_objects-P h (prefix_octets prefix) octets h.range.count
                (record { off = 0; echo = []; echoed = 0; run = r }) p))

  walk_headers-P :
      (hs : List ObjectHeader) (r : Run dev)
      → P r.world
      → P (walk_headers dev s op true status hs r).world
  unfolding walk_headers one_header
  walk_headers-P [] r p = p
  walk_headers-P (h ∷ hs) r p = walk_headers-P hs (one_header dev s op true status h r) (
      pick_run ((h.group == 12) && (h.variation != 1)) _ _ p
        (described-P h r (dev.lookup h.group h.variation) p))

-- Whatever holds of the world outside and is kept by the handler's two selections is kept by executing
-- a SELECT, which so neither operates an output nor records an event.
pub execute_commands-select :
    {W C V E : Type 0} (dev : Device W C V E) (P : W → Type 0) (s : Session) (w : W)
    (frag : Fragment) (op : OperateType) (status : ℕ)
    → ((w : W) (index : ℕ) (c : C) → P w → P (dev.select_crob w index c).0)
    → ((w : W) (index : ℕ) (v : V) (variation : ℕ)
        → P w
        → P (dev.select_analog w index v variation).0)
    → frag.header.func ≡ func_select
    → P w
    → P (execute_commands dev s w frag op status).world
unfolding execute_commands
execute_commands-select dev P s w frag op status crobs analogs e p =
    subst
      (λ fc.
        P
          (walk_headers dev s op (fc == func_select) status frag.objects
            (record { controls = 0; iin = s.iin; outcomes = []; body = []; world = w })).world)
      (sym e)
      (walk_headers-P dev P crobs analogs s op status frag.objects
        (record { controls = 0; iin = s.iin; outcomes = []; body = []; world = w }) p)
