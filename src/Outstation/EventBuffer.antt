-- ===== src/Outstation/EventBuffer.antt =====
-- outstation/eventbuffer.go: events are queued, selected into a response, and removed when the master
-- confirms it. The measurement fields, which the buffer never reads, are one `value` of any type. The
-- mutex makes each method one step. `drops` and `next_seq` do not wrap. `Overflowed` is the field.
pub mod Capacity
pub mod Overflow
pub mod Selection
pub mod Confirmation
mod Tests
use go_dnp.Common.{
  ℕ, zero, suc, ◌+◌, bit_and, bit_or, Bool, true, false, not, ◌&&◌, ◌||◌, ltb, leb, ◌==◌, ◌!=◌,
  if◌then◌else◌, List, [], ◌∷◌, ◌++◌, map, length, drop,
}

-- `Event`, its measurement fields being the value.
pub record Event {ℓ} (V : Type ℓ) : Type ℓ where
  pub point_type : ℕ
  pub class : ℕ
  pub value : V
  pub selected : Bool
  pub seq : ℕ

pub record EventBuffer {ℓ} (V : Type ℓ) : Type ℓ where
  pub events : List (Event V)
  pub max : ℕ
  pub overflow : Bool
  pub drops : ℕ
  pub drops_at_select : ℕ
  pub next_seq : ℕ

abbrev pub default_max_events : ℕ
default_max_events = 1000

module _ {ℓ} {V : Type ℓ} where
  -- `max_events` is what is configured; a negative one in the source is 0 here.
  abbrev pub new_event_buffer : ℕ → EventBuffer V
  new_event_buffer max_events = record {
    events = [];
    max = if max_events == 0 then default_max_events else max_events;
    overflow = false;
    drops = 0;
    drops_at_select = 0;
    next_seq = 0;
  }

  unfoldable pub add : EventBuffer V → Event V → EventBuffer V
  add b e =
      let q =
        if leb b.max (length b.events)
        then record b { events = drop 1 b.events; overflow = true; drops = b.drops + 1 }
        else b in
      record q {
        next_seq = q.next_seq + 1;
        events = q.events ++ (record e { seq = q.next_seq + 1 } ∷ []);
      }

  -- How many events satisfy a test: the loops of `Count` and `SelectedCount`.
  unfoldable pub count_where : (Event V → Bool) → List (Event V) → ℕ
  count_where test [] = 0
  count_where test (e ∷ es) = (if test e then 1 else 0) + count_where test es

  abbrev pub in_class : ℕ → Event V → Bool
  in_class mask e = bit_and e.class mask != 0

  unfoldable pub count : EventBuffer V → ℕ → ℕ
  count b mask = count_where (in_class mask) b.events

  unfoldable pub total : EventBuffer V → ℕ
  total b = length b.events

  unfoldable pub classes_of : ℕ → List (Event V) → ℕ
  classes_of mask [] = mask
  classes_of mask (e ∷ es) = classes_of (if e.selected then mask else bit_or mask e.class) es

  unfoldable pub classes : EventBuffer V → ℕ
  classes b = classes_of 0 b.events

  unfoldable pub clear_overflow : EventBuffer V → EventBuffer V
  clear_overflow b = record b { overflow = false }

  -- The loop of `selectWhere`, `limit` being how many more may be taken: the events as they are left,
  -- and the copies, which are made after the mark.
  abbrev pub take_first :
      Event V → List (Event V) × List (Event V) → List (Event V) × List (Event V)
  take_first e (es, out) = (record e { selected = true } ∷ es, record e { selected = true } ∷ out)

  abbrev pub skip_first :
      Event V → List (Event V) × List (Event V) → List (Event V) × List (Event V)
  skip_first e (es, out) = (e ∷ es, out)

  unfoldable pub mark : (Event V → Bool) → ℕ → List (Event V) → List (Event V) × List (Event V)
  mark match zero es = (es, [])
  mark match (suc limit) [] = ([], [])
  mark match (suc limit) (e ∷ es) =
      let taken = take_first e (mark match limit es) in
      let skipped = skip_first e (mark match (suc limit) es) in
      if e.selected || not (match e) then skipped else taken

  -- A limit that is negative in the source is 0 here.
  unfoldable pub select_where :
      EventBuffer V → ℕ → (Event V → Bool) → EventBuffer V × List (Event V)
  select_where b limit match =
      let run = mark match limit b.events in
      (record b { drops_at_select = b.drops; events = run.0 }, run.1)

  unfoldable pub select : EventBuffer V → ℕ → ℕ → EventBuffer V × List (Event V)
  select b mask limit = select_where b limit (in_class mask)

  unfoldable pub select_type : EventBuffer V → ℕ → ℕ → EventBuffer V × List (Event V)
  select_type b pt limit = select_where b limit (λ e. e.point_type == pt)

  unfoldable pub selected_count : EventBuffer V → ℕ
  selected_count b = count_where (λ e. e.selected) b.events

  -- The events that fail a test, in order.
  unfoldable pub keep_where_not : (Event V → Bool) → List (Event V) → List (Event V)
  keep_where_not test [] = []
  keep_where_not test (e ∷ es) =
      let rest = keep_where_not test es in if test e then rest else e ∷ rest

  unfoldable pub confirm : EventBuffer V → EventBuffer V × ℕ
  confirm b =
      let removed = count_where (λ e. e.selected) b.events in
      (
        record b {
          events = keep_where_not (λ e. e.selected) b.events;
          overflow = if ltb 0 removed && (b.drops == b.drops_at_select) then false else b.overflow;
        },
        removed,
      )

  -- The mark taken off the selected events that satisfy a test.
  unfoldable pub unmark : (Event V → Bool) → List (Event V) → List (Event V)
  unmark test [] = []
  unmark test (e ∷ es) =
      (if e.selected && test e then record e { selected = false } else e) ∷ unmark test es

  unfoldable pub unselect : EventBuffer V → EventBuffer V × ℕ
  unselect b =
      (record b { events = unmark (λ e. true) b.events }, count_where (λ e. e.selected) b.events)

  -- Whether an event's sequence number is one of those handed back.
  unfoldable pub is_listed : List (Event V) → Event V → Bool
  is_listed [] e = false
  is_listed (x ∷ xs) e = (x.seq == e.seq) || is_listed xs e

  unfoldable pub release : EventBuffer V → List (Event V) → EventBuffer V × ℕ
  release b events = (
    record b { events = unmark (is_listed events) b.events },
    count_where (λ e. e.selected && is_listed events e) b.events,
  )

  unfoldable pub discard : EventBuffer V → List (Event V) → EventBuffer V × ℕ
  discard b events =
      let n = count_where (λ e. is_listed events e && e.selected) b.events in
      let q = record b {
        events = keep_where_not (λ e. is_listed events e && e.selected) b.events;
      } in
      (if ltb 0 n then record q { overflow = true; drops = q.drops + n } else q, n)

  unfoldable pub reset : EventBuffer V → EventBuffer V
  reset b = record b { events = []; overflow = false }
