-- ===== src/Outstation/EventBuffer/Capacity.antt =====
-- What holds of the buffer after any operations: its bound, the order of its events, and that every
-- event queued is accounted for.
use go_dnp.Common.{
  ℕ, zero, suc, ◌+◌, ◌≤◌, ◌<◌, Bool, true, ◌&&◌, List, [], ◌∷◌, ◌++◌, map, length, length-append,
  length-drop, drop, ◌≡◌, refl, ap, subst, sym, arith,
}
use go_dnp.Outstation.EventBuffer.{
  Event, EventBuffer, add, mark, select_where, keep_where_not, count_where, confirm, unmark,
  unselect, is_listed, release, discard, reset, clear_overflow,
}

-- Sequence numbers above `lo` that strictly increase, up to `hi`.
unfoldable pub Increasing : ℕ → List ℕ → ℕ → Type 0
Increasing lo [] hi = lo ≤ hi
Increasing lo (n ∷ ns) hi = lo < n × Increasing n ns hi

Increasing-lower :
    (lo lo' : ℕ) (ns : List ℕ) (hi : ℕ) → lo ≤ lo' → Increasing lo' ns hi → Increasing lo ns hi
unfolding Increasing
Increasing-lower lo lo' [] hi h v = omega arith
Increasing-lower lo lo' (n ∷ ns) hi h v = (omega (arith, v.0), v.1)

Increasing-snoc :
    (lo : ℕ) (ns : List ℕ) (hi : ℕ)
    → Increasing lo ns hi
    → Increasing lo (ns ++ ((hi + 1) ∷ [])) (hi + 1)
unfolding Increasing
Increasing-snoc lo [] hi v = (omega arith, omega arith)
Increasing-snoc lo (n ∷ ns) hi v = (v.0, Increasing-snoc n ns hi v.1)

Increasing-drop :
    (lo : ℕ) (ns : List ℕ) (hi : ℕ) → Increasing lo ns hi → Increasing lo (drop 1 ns) hi
unfolding Increasing
Increasing-drop lo [] hi v = v
Increasing-drop lo (n ∷ ns) hi v = Increasing-lower lo n ns hi (omega (arith, v.0)) v.1

module _ {ℓ} {V : Type ℓ} where
  abbrev pub seqs : List (Event V) → List ℕ
  seqs es = map (λ e. e.seq) es

  -- Marking and unmarking change neither the events nor their order.
  pub mark-seqs :
      (match : Event V → Bool) (limit : ℕ) (es : List (Event V))
      → seqs (mark match limit es).0 ≡ seqs es
  unfolding mark
  mark-seqs match zero es = refl
  mark-seqs match (suc limit) [] = refl
  mark-seqs match (suc limit) (e ∷ es) =
      ground (arith, mark-seqs match limit es, mark-seqs match (suc limit) es)

  unmark-seqs : (test : Event V → Bool) (es : List (Event V)) → seqs (unmark test es) ≡ seqs es
  unfolding unmark
  unmark-seqs test [] = refl
  unmark-seqs test (e ∷ es) = ground (arith, unmark-seqs test es)

  length-seqs : (es : List (Event V)) → length (seqs es) ≡ length es
  length-seqs [] = refl
  length-seqs (e ∷ es) = ap suc (length-seqs es)

  keep-Increasing :
      (test : Event V → Bool) (lo : ℕ) (es : List (Event V)) (hi : ℕ)
      → Increasing lo (seqs es) hi
      → Increasing lo (seqs (keep_where_not test es)) hi
  unfolding Increasing keep_where_not
  keep-Increasing test lo [] hi v = v
  keep-Increasing test lo (e ∷ es) hi v =
      let rest = keep-Increasing test e.seq es hi v.1 in
      ground (arith, rest, Increasing-lower lo e.seq (seqs (keep_where_not test es)) hi)

  pub keep-count :
      (test : Event V → Bool) (es : List (Event V))
      → length (keep_where_not test es) + count_where test es ≡ length es
  unfolding keep_where_not count_where
  keep-count test [] = refl
  keep-count test (e ∷ es) = ground (arith, keep-count test es)

  same_length : (es es' : List (Event V)) → seqs es' ≡ seqs es → length es' ≡ length es
  same_length es es' e = omega (arith, ap length e, length-seqs es, length-seqs es')

-- The operations that change a buffer, with their arguments.
pub data Op {ℓ} (V : Type ℓ) : Type ℓ where
  adds : Event V → Op V
  selects : ℕ → (Event V → Bool) → Op V
  confirms : Op V
  unselects : Op V
  releases : List (Event V) → Op V
  discards : List (Event V) → Op V
  clears : Op V
  resets : Op V

module _ {ℓ} {V : Type ℓ} where
  unfoldable pub step : EventBuffer V → Op V → EventBuffer V
  step b (adds e) = add b e
  step b (selects limit match) = (select_where b limit match).0
  step b confirms = (confirm b).0
  step b unselects = (unselect b).0
  step b (releases events) = (release b events).0
  step b (discards events) = (discard b events).0
  step b clears = clear_overflow b
  step b resets = reset b

  -- How many events an operation removes that were not lost: confirmed, or emptied by a restart.
  unfoldable pub removed : EventBuffer V → Op V → ℕ
  removed b (adds e) = 0
  removed b (selects limit match) = 0
  removed b confirms = (confirm b).1
  removed b unselects = 0
  removed b (releases events) = 0
  removed b (discards events) = 0
  removed b clears = 0
  removed b resets = length b.events

  -- `gone` counts the events removed so far.
  pub record Accounted (b : EventBuffer V) (gone : ℕ) : Type 0 where
    pub room : 0 < b.max
    pub bounded : length b.events ≤ b.max
    pub ordered : Increasing 0 (seqs b.events) b.next_seq
    pub accounted : b.next_seq ≡ length b.events + b.drops + gone

  same-Accounted :
      (b : EventBuffer V) (es : List (Event V)) (gone : ℕ)
      → seqs es ≡ seqs b.events
      → Accounted b gone
      → Accounted (record b { events = es }) gone
  same-Accounted b es gone e v =
      let l = same_length b.events es e in
      record {
        room = v.room;
        bounded = omega (arith, l, v.bounded);
        ordered = subst (λ ns. Increasing 0 ns b.next_seq) (sym e) v.ordered;
        accounted = omega (arith, l, v.accounted);
      }

  map-snoc : (es : List (Event V)) (e : Event V) → seqs (es ++ (e ∷ [])) ≡ seqs es ++ (e.seq ∷ [])
  map-snoc [] e = refl
  map-snoc (x ∷ es) e = ap (x.seq ∷◌) (map-snoc es e)

  map-drop : (es : List (Event V)) → seqs (drop 1 es) ≡ drop 1 (seqs es)
  map-drop [] = refl
  map-drop (x ∷ es) = refl

  add-Accounted :
      (b : EventBuffer V) (e : Event V) (gone : ℕ) → Accounted b gone → Accounted (add b e) gone
  unfolding add
  add-Accounted b e gone v =
      let e' = record e { seq = b.next_seq + 1 } in
      ground (
        arith,
        length-append b.events (e' ∷ []),
        length-append (drop 1 b.events) (e' ∷ []),
        length-drop 1 b.events,
        map-snoc b.events e',
        map-snoc (drop 1 b.events) e',
        map-drop b.events,
        Increasing-snoc 0 (seqs b.events) b.next_seq v.ordered,
        Increasing-snoc 0 (drop 1 (seqs b.events)) b.next_seq
            (Increasing-drop 0 (seqs b.events) b.next_seq v.ordered),
      )

  confirm-Accounted :
      (b : EventBuffer V) (gone : ℕ)
      → Accounted b gone
      → Accounted (confirm b).0 (gone + (confirm b).1)
  unfolding confirm
  confirm-Accounted b gone v =
      let k = keep-count (λ e. e.selected) b.events in
      record {
        room = v.room;
        bounded = omega (arith, k, v.bounded);
        ordered = keep-Increasing (λ e. e.selected) 0 b.events b.next_seq v.ordered;
        accounted = omega (arith, k, v.accounted);
      }

  discard-Accounted :
      (b : EventBuffer V) (events : List (Event V)) (gone : ℕ)
      → Accounted b gone
      → Accounted (discard b events).0 gone
  unfolding discard
  discard-Accounted b events gone v =
      let test = λ (e : Event V). is_listed events e && e.selected in
      ground (arith, keep-count test b.events, keep-Increasing test 0 b.events b.next_seq v.ordered)

  plus_zero : (b : EventBuffer V) (gone : ℕ) → Accounted b gone → Accounted b (gone + 0)
  plus_zero b gone v = record {
    room = v.room;
    bounded = v.bounded;
    ordered = v.ordered;
    accounted = omega (arith, v.accounted);
  }

  -- Every operation keeps the number of events within the capacity and their sequence numbers strictly
  -- increasing, and each event ever queued is still held, or counted in `drops`, or removed by a
  -- confirmation or a restart.
  pub step-Accounted :
      (b : EventBuffer V) (op : Op V) (gone : ℕ)
      → Accounted b gone
      → Accounted (step b op) (gone + removed b op)
  unfolding step removed
  step-Accounted b (adds e) gone v = plus_zero (add b e) gone (add-Accounted b e gone v)
  step-Accounted b (selects limit match) gone v =
      unfold select_where in
      plus_zero _ gone (record {
        room = v.room;
        bounded = (same-Accounted b _ gone (mark-seqs match limit b.events) v).bounded;
        ordered = (same-Accounted b _ gone (mark-seqs match limit b.events) v).ordered;
        accounted = (same-Accounted b _ gone (mark-seqs match limit b.events) v).accounted;
      })
  step-Accounted b confirms gone v = confirm-Accounted b gone v
  step-Accounted b unselects gone v =
      unfold unselect in
      plus_zero _ gone (same-Accounted b _ gone (unmark-seqs (λ e. true) b.events) v)
  step-Accounted b (releases events) gone v =
      unfold release in
      plus_zero _ gone (same-Accounted b _ gone (unmark-seqs (is_listed events) b.events) v)
  step-Accounted b (discards events) gone v =
      plus_zero (discard b events).0 gone (discard-Accounted b events gone v)
  step-Accounted b clears gone v =
      unfold clear_overflow in
      plus_zero _ gone (record {
        room = v.room;
        bounded = v.bounded;
        ordered = v.ordered;
        accounted = v.accounted;
      })
  step-Accounted b resets gone v =
      unfold reset in
      (record {
        room = v.room;
        bounded = omega arith;
        ordered = unfold Increasing in omega arith;
        accounted = omega (arith, v.accounted);
      })
