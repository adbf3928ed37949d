-- ===== src/Outstation/EventBuffer/Tests.antt =====
-- A buffer for two events, both held, the older one selected.
use go_dnp.Common.{ℕ, ◌+◌, Bool, true, false, [], ◌∷◌, map, take, length, ◌≡◌, refl, arith}
use go_dnp.Outstation.EventBuffer.{
  Event, EventBuffer, select_where, confirm, release, selected_count, in_class,
}
use go_dnp.Outstation.EventBuffer.Capacity.{
  Increasing, Accounted, step, removed, step-Accounted, confirms, seqs,
}
use go_dnp.Outstation.EventBuffer.Overflow.{Indicates, step-Indicates}
use go_dnp.Outstation.EventBuffer.Selection.{
  waiting, marked, select_where_lem, release-select_where,
}
use go_dnp.Outstation.EventBuffer.Confirmation.{confirm_lem}

abbrev event : ℕ → Bool → Event ℕ
event n selected = record { point_type = 1; class = 2; value = 7; selected = selected; seq = n }

abbrev full : EventBuffer ℕ
full = record {
  events = event 3 true ∷ event 4 false ∷ [];
  max = 2;
  overflow = true;
  drops = 1;
  drops_at_select = 0;
  next_seq = 4;
}

full-Accounted : Accounted full 1
unfolding Increasing
full-Accounted = record {
  room = omega arith;
  bounded = omega arith;
  ordered = (omega arith, (omega arith, omega arith));
  accounted = omega arith;
}

step-Accounted_example : Accounted (step full confirms) (1 + removed full confirms)
step-Accounted_example = step-Accounted full confirms 1 full-Accounted

full-Indicates : Indicates full
full-Indicates = record { recorded = omega arith; indicated = λ h. refl }

step-Indicates_example : Indicates (step full confirms)
step-Indicates_example = step-Indicates full confirms (λ e. cc) (λ e. cc) full-Indicates

select_where_lem_example :
    (let (b', out) = select_where full 5 (in_class 2) in
      (out ≡ map marked (take 5 (waiting (in_class 2) full.events)))
      × (selected_count b' ≡ selected_count full + length out)
      × (seqs b'.events ≡ seqs full.events))
select_where_lem_example = select_where_lem full 5 (in_class 2)

abbrev untouched : EventBuffer ℕ
untouched = record full { events = event 3 false ∷ event 4 false ∷ [] }

release-select_where_example :
    (let (b', out) = select_where full 1 (in_class 2) in (release b' out).0.events ≡ full.events)
release-select_where_example = release-select_where full 1 1 (in_class 2) full-Accounted

confirm_lem_example :
    (let (b', gone) = confirm full in
      (gone ≡ selected_count full)
      × (length b'.events + gone ≡ length full.events)
      × (selected_count b' ≡ 0)
      × (waiting (in_class 2) b'.events ≡ waiting (in_class 2) full.events))
confirm_lem_example = confirm_lem full (in_class 2)
