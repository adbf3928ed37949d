-- ===== src/Outstation/EventBuffer/Confirmation.antt =====
-- What a confirmation removes.
use go_dnp.Common.{◌+◌, Bool, List, [], ◌∷◌, length, ◌≡◌, refl, arith}
use go_dnp.Outstation.EventBuffer.{
  Event, EventBuffer, count_where, selected_count, keep_where_not, confirm,
}
use go_dnp.Outstation.EventBuffer.Capacity.{keep-count}
use go_dnp.Outstation.EventBuffer.Selection.{waiting}

module _ {ℓ} {V : Type ℓ} where
  keep-unselected :
      (es : List (Event V))
      → count_where (λ e. e.selected) (keep_where_not (λ e. e.selected) es) ≡ 0
  unfolding keep_where_not count_where
  keep-unselected [] = refl
  keep-unselected (e ∷ es) = ground (arith, keep-unselected es)

  keep-waiting :
      (match : Event V → Bool) (es : List (Event V))
      → waiting match (keep_where_not (λ e. e.selected) es) ≡ waiting match es
  unfolding keep_where_not waiting
  keep-waiting match [] = refl
  keep-waiting match (e ∷ es) = ground (arith, keep-waiting match es)

  -- A confirmation removes as many events as it says, the selected ones, and leaves none selected;
  -- whatever still waited for a selection, of any kind, still does, in the same order.
  pub confirm_lem :
      (b : EventBuffer V) (match : Event V → Bool)
      → (let (b', removed) = confirm b in
          (removed ≡ selected_count b)
          × (length b'.events + removed ≡ length b.events)
          × (selected_count b' ≡ 0)
          × (waiting match b'.events ≡ waiting match b.events))
  unfolding confirm selected_count
  confirm_lem b match = (
    refl,
    keep-count (λ e. e.selected) b.events,
    keep-unselected b.events,
    keep-waiting match b.events,
  )
