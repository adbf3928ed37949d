-- ===== src/Outstation/EventBuffer/Selection.antt =====
-- What a selection takes, and how it is undone.
use go_dnp.Common.{
  ℕ, zero, suc, ◌+◌, ◌≤◌, Bool, true, false, not, ◌||◌, if◌then◌else◌, List, [], ◌∷◌, map, take,
  length, ◌≡◌, refl, sym, subst, arith,
}
use go_dnp.Outstation.EventBuffer.{
  Event, EventBuffer, mark, select_where, count_where, selected_count, unmark, unselect, is_listed,
  release,
}
use go_dnp.Outstation.EventBuffer.Capacity.{seqs, Increasing, Accounted, mark-seqs}

module _ {ℓ} {V : Type ℓ} where
  -- The events that a selection may take, oldest first.
  unfoldable pub waiting : (Event V → Bool) → List (Event V) → List (Event V)
  waiting match [] = []
  waiting match (e ∷ es) =
      let rest = waiting match es in if e.selected || not (match e) then rest else e ∷ rest

  abbrev pub marked : Event V → Event V
  marked e = record e { selected = true }

  mark-taken :
      (match : Event V → Bool) (limit : ℕ) (es : List (Event V))
      → (mark match limit es).1 ≡ map marked (take limit (waiting match es))
  unfolding mark waiting
  mark-taken match zero es = refl
  mark-taken match (suc limit) [] = refl
  mark-taken match (suc limit) (e ∷ es) =
      ground (arith, mark-taken match limit es, mark-taken match (suc limit) es)

  mark-count :
      (match : Event V → Bool) (limit : ℕ) (es : List (Event V))
      → (let run = mark match limit es in
          count_where (λ e. e.selected) run.0 ≡ count_where (λ e. e.selected) es + length run.1)
  unfolding mark count_where
  mark-count match zero es = omega arith
  mark-count match (suc limit) [] = omega arith
  mark-count match (suc limit) (e ∷ es) =
      ground (arith, mark-count match limit es, mark-count match (suc limit) es)

  -- A selection returns copies, marked, of the first events up to the limit that match and are not
  -- selected, oldest first. The buffer has that many more selected events, and it still holds all its
  -- events in their order.
  pub select_where_lem :
      (b : EventBuffer V) (limit : ℕ) (match : Event V → Bool)
      → (let (b', out) = select_where b limit match in
          (out ≡ map marked (take limit (waiting match b.events)))
          × (selected_count b' ≡ selected_count b + length out)
          × (seqs b'.events ≡ seqs b.events))
  unfolding select_where selected_count
  select_where_lem b limit match = (
    mark-taken match limit b.events,
    mark-count match limit b.events,
    mark-seqs match limit b.events,
  )

  unmark-mark :
      (match : Event V → Bool) (limit : ℕ) (es : List (Event V))
      → count_where (λ e. e.selected) es ≡ 0
      → unmark (λ e. true) (mark match limit es).0 ≡ es
  unfolding mark unmark count_where
  unmark-mark match zero [] h = refl
  unmark-mark match zero (e ∷ es) h = ground (arith, unmark-mark match zero es)
  unmark-mark match (suc limit) [] h = refl
  unmark-mark match (suc limit) (e ∷ es) h =
      ground (arith, unmark-mark match limit es, unmark-mark match (suc limit) es)

  -- If nothing was selected before, a selection whose confirmation does not come is undone: the events
  -- are those that were there, each waiting as before.
  pub unselect-select_where :
      (b : EventBuffer V) (limit : ℕ) (match : Event V → Bool)
      → selected_count b ≡ 0
      → (unselect (select_where b limit match).0).0.events ≡ b.events
  unfolding unselect select_where selected_count
  unselect-select_where b limit match h = unmark-mark match limit b.events h

  -- An event from before those that are listed is not one of them.
  is_listed-before :
      (match : Event V → Bool) (limit : ℕ) (e : Event V) (lo : ℕ) (es : List (Event V)) (hi : ℕ)
      → e.seq ≤ lo
      → Increasing lo (seqs es) hi
      → is_listed (mark match limit es).1 e ≡ false
  unfolding mark is_listed Increasing
  is_listed-before match zero e lo es hi h v = refl
  is_listed-before match (suc limit) e lo [] hi h v = refl
  is_listed-before match (suc limit) e lo (x ∷ es) hi h v = ground (
    arith,
    is_listed-before match limit e x.seq es hi (omega (arith, v.0)) v.1,
    is_listed-before match (suc limit) e x.seq es hi (omega (arith, v.0)) v.1,
  )

  unmark-later :
      (x : Event V) (xs : List (Event V)) (lo : ℕ) (es : List (Event V)) (hi : ℕ)
      → x.seq ≤ lo
      → Increasing lo (seqs es) hi
      → unmark (is_listed (x ∷ xs)) es ≡ unmark (is_listed xs) es
  unfolding unmark is_listed Increasing
  unmark-later x xs lo [] hi h v = refl
  unmark-later x xs lo (e ∷ es) hi h v =
      ground (arith, unmark-later x xs e.seq es hi (omega (arith, v.0)) v.1)

  unmark-listed :
      (match : Event V → Bool) (limit lo : ℕ) (es : List (Event V)) (hi : ℕ)
      → Increasing lo (seqs es) hi
      → (let run = mark match limit es in unmark (is_listed run.1) run.0 ≡ es)
  unfolding mark unmark is_listed Increasing
  unmark-listed match zero lo [] hi v = refl
  unmark-listed match zero lo (e ∷ es) hi v =
      ground (arith, unmark-listed match zero e.seq es hi v.1)
  unmark-listed match (suc limit) lo [] hi v = refl
  unmark-listed match (suc limit) lo (e ∷ es) hi v =
      let run = mark match limit es in
      let later : Increasing e.seq (seqs run.0) hi =
        subst (λ ns. Increasing e.seq ns hi) (sym (mark-seqs match limit es)) v.1 in
      ground (
        arith,
        unmark-later (marked e) run.1 e.seq run.0 hi (omega arith) later,
        unmark-listed match limit e.seq es hi v.1,
        unmark-listed match (suc limit) e.seq es hi v.1,
        is_listed-before match (suc limit) e e.seq es hi (omega arith) v.1,
      )

  -- Releasing all that a selection returned undoes it, whatever was selected before: the events are
  -- those that were there, with their marks.
  pub release-select_where :
      (b : EventBuffer V) (gone limit : ℕ) (match : Event V → Bool)
      → Accounted b gone
      → (let (b', out) = select_where b limit match in (release b' out).0.events ≡ b.events)
  unfolding release select_where
  release-select_where b gone limit match v =
      unmark-listed match limit 0 b.events b.next_seq v.ordered
