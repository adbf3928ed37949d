-- ===== src/Outstation/Command/Refusal.antt =====
-- A command whose selection does not match touches nothing.
use go_dnp.Common.{
  ℕ, zero, suc, ◌+◌, Bool, true, false, not, ◌&&◌, ltb, ◌==◌, ◌!=◌, if◌then◌else◌, Option, none,
  some, List, [], ◌∷◌, length, All, All-append, ◌≡◌, refl, ◌∙◌, arith,
}
use go_dnp.App.FuncCode.{func_select}
use go_dnp.App.Object.{ObjectHeader}
use go_dnp.App.Fragment.{Fragment}
use go_dnp.App.Qualifier.{index_prefix, prefix_octets, is_index}
use go_dnp.Outstation.Command.{OperateType, is_ok, Outcome, Descriptor, Device, Session}
use go_dnp.Outstation.Command.Execute.{
  Run, Walk, judge, one_object, walk_objects, sized_header, measured, described, one_header,
  walk_headers, execute_commands,
}

abbrev pub IsRefused : Outcome → Type 0
IsRefused o = is_ok o.status ≡ false

module _ {W C V E : Type 0} (dev : Device W C V E) (s : Session) (op : OperateType)
    (selecting : Bool) (status : ℕ) (bad : is_ok status ≡ false) where
  -- The world is as it was, and every outcome so far is a refusal.
  abbrev Untouched : W → Run dev → Type 0
  Untouched w r = r.world ≡ w × All IsRefused r.outcomes

  judge-refused :
      (h : ObjectHeader) (r : Run dev) (wide : ℕ) (raw : List ℕ)
      → ((judge dev s op selecting status h r wide raw).1 ≡ r.world)
        × (is_ok (judge dev s op selecting status h r wide raw).2 ≡ false)
  unfolding judge is_ok
  judge-refused h r wide raw = (ground (arith, bad), ground (arith, bad))

  one_object-Untouched :
      (h : ObjectHeader) (prefix octets : ℕ) (x : Walk dev) (w : W)
      → Untouched w x.run
      → Untouched w (one_object dev s op selecting status h prefix octets x).run
  unfolding one_object
  one_object-Untouched h prefix octets x w u = (
    (judge-refused h x.run _ _).0 ∙ u.0,
    All-append IsRefused x.run.outcomes _ u.1 ((judge-refused h x.run _ _).1, tt),
  )

  keep_one :
      (b : Bool) (w : W) (x y : Walk dev)
      → Untouched w x.run
      → Untouched w y.run
      → Untouched w (if b then x else y).run
  keep_one true w x y u v = u
  keep_one false w x y u v = v

  walk_objects-Untouched :
      (h : ObjectHeader) (prefix octets count : ℕ) (x : Walk dev) (w : W)
      → Untouched w x.run
      → Untouched w (walk_objects dev s op selecting status h prefix octets count x).run
  unfolding walk_objects
  walk_objects-Untouched h prefix octets zero x w u = u
  walk_objects-Untouched h prefix octets (suc count) x w u =
      keep_one (ltb (length h.payload) (x.off + prefix + octets)) w x _ u (
        walk_objects-Untouched h prefix octets count
          (one_object dev s op selecting status h prefix octets x) w
          (one_object-Untouched h prefix octets x w u))

  keep_run :
      (b : Bool) (w : W) (x y : Run dev)
      → Untouched w x
      → Untouched w y
      → Untouched w (if b then x else y)
  keep_run true w x y u v = u
  keep_run false w x y u v = v

  sized_header-Untouched :
      (h : ObjectHeader) (octets : ℕ) (r : Run dev) (w : W)
      → Untouched w r
      → Untouched w (sized_header dev s op selecting status h octets r)
  unfolding sized_header
  sized_header-Untouched h octets r w u =
      let prefix = index_prefix h.qualifier in
      let start : Walk dev = record { off = 0; echo = []; echoed = 0; run = r } in
      keep_run (not (is_index prefix)) w _ _ u
        (walk_objects-Untouched h (prefix_octets prefix) octets h.range.count start w u)

  described-Untouched :
      (h : ObjectHeader) (r : Run dev) (d : Option Descriptor) (w : W)
      → Untouched w r
      → Untouched w (described dev s op selecting status h r d)
  described-Untouched h r none w u = u
  described-Untouched h r (some d) w u = keep_run (not d.is_command) w _ _ u (sized d.size_octets)
    where
      sized : (o : Option ℕ) → Untouched w (measured dev s op selecting status h r o)
      sized none = u
      sized (some octets) = keep_run (octets == 0) w _ _ u (sized_header-Untouched h octets r w u)

  walk_headers-Untouched :
      (hs : List ObjectHeader) (r : Run dev) (w : W)
      → Untouched w r
      → Untouched w (walk_headers dev s op selecting status hs r)
  unfolding walk_headers one_header
  walk_headers-Untouched [] r w u = u
  walk_headers-Untouched (h ∷ hs) r w u =
      walk_headers-Untouched hs (one_header dev s op selecting status h r) w (
        keep_run ((h.group == 12) && (h.variation != 1)) w _ _ u
          (described-Untouched h r (dev.lookup h.group h.variation) w u))

module _ {W C V E : Type 0} (dev : Device W C V E) where
  -- Commands that are executed with a status other than success leave the device and everything else
  -- outside untouched, and every one of them is refused.
  pub execute_commands-IsRefused :
      (s : Session) (w : W) (frag : Fragment) (op : OperateType) (status : ℕ)
      → is_ok status ≡ false
      → (let run = execute_commands dev s w frag op status in
          run.world ≡ w × All IsRefused run.outcomes)
  unfolding execute_commands
  execute_commands-IsRefused s w frag op status bad =
      walk_headers-Untouched dev s op (frag.header.func == func_select) status bad frag.objects
        (record { controls = 0; iin = s.iin; outcomes = []; body = []; world = w }) w (refl, tt)
