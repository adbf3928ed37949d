-- ===== src/Outstation/EventBuffer/Overflow.antt =====
-- The overflow indication: what sets it and what keeps it.
use go_dnp.Common.{◌≤◌, ◌<◌, true, ◌≡◌, ◌≢◌, refl, arith}
use go_dnp.Outstation.EventBuffer.{
  EventBuffer, add, select_where, confirm, unselect, release, discard, reset, clear_overflow,
}
use go_dnp.Outstation.EventBuffer.Capacity.{
  Op, adds, selects, confirms, unselects, releases, discards, clears, resets, step,
}

module _ {ℓ} {V : Type ℓ} where
  -- An operation that loses events, so that `drops` grows, leaves the overflow indication set.
  pub drops-latched :
      (b : EventBuffer V) (op : Op V) → b.drops < (step b op).drops → (step b op).overflow ≡ true
  unfolding step add select_where confirm unselect release discard clear_overflow reset
  drops-latched b (adds e) h = ground arith
  drops-latched b (selects limit match) h = ground arith
  drops-latched b confirms h = ground arith
  drops-latched b unselects h = ground arith
  drops-latched b (releases events) h = ground arith
  drops-latched b (discards events) h = ground arith
  drops-latched b clears h = ground arith
  drops-latched b resets h = ground arith

  -- A loss since events were last selected, which no response has reported, is indicated.
  pub record Indicates (b : EventBuffer V) : Type 0 where
    pub recorded : b.drops_at_select ≤ b.drops
    pub indicated : b.drops_at_select < b.drops → b.overflow ≡ true

  -- Every operation but a restart and the application's own clearing, a confirmation included, keeps
  -- each loss since the last selection indicated.
  pub step-Indicates :
      (b : EventBuffer V) (op : Op V)
      → op ≢ clears
      → op ≢ resets
      → Indicates b
      → Indicates (step b op)
  unfolding step add select_where confirm unselect release discard
  step-Indicates b (adds e) c r v = ground arith
  step-Indicates b (selects limit match) c r v = ground arith
  step-Indicates b confirms c r v = ground arith
  step-Indicates b unselects c r v = ground arith
  step-Indicates b (releases events) c r v = ground arith
  step-Indicates b (discards events) c r v = ground arith
  step-Indicates b clears c r v = absurd (c refl)
  step-Indicates b resets c r v = absurd (r refl)
