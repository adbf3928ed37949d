-- ===== src/Master/Scheduler/Order.antt =====
-- The order in which the scheduler hands out its tasks.
use mathlib.Core.List.Perm
use mathlib.Core.List.{Perm}
use go_dnp.Common.{
  ℕ, ◌≤◌, ◌<◌, Bool, true, false, if◌then◌else◌, Option, none, some, List, [], ◌∷◌, All, ◌≡◌, refl,
  ◌⊎◌, inr, arith,
}
use go_dnp.Master.Task.{Task}
use go_dnp.Master.Scheduler.{Scheduler, less, take_least, pop, pop_list}

abbrev Before : ℕ → ℕ → ℕ → ℕ → ℕ → ℕ → Type 0
Before d p o d' p' o' = (d < d') ⊎ ((d ≡ d') × ((p < p') ⊎ ((p ≡ p') × (o ≤ o'))))

Before-trans :
    (d p o d' p' o' d'' p'' o'' : ℕ)
    → Before d p o d' p' o'
    → Before d' p' o' d'' p'' o''
    → Before d p o d'' p'' o''
Before-trans d p o d' p' o' d'' p'' o'' h k = ground (arith, h, k)

module _ {C R : Type 0} where
  -- A task that may run before another: due earlier, or due at the same time and either of a higher priority
  -- or of the same and queued no later.
  pub Precedes : Task C R → Task C R → Type 0
  Precedes s t =
      (s.due < t.due)
      ⊎ ((s.due ≡ t.due)
          × ((s.request.priority < t.request.priority)
              ⊎ ((s.request.priority ≡ t.request.priority) × (s.order ≤ t.order))))

  Precedes-trans : (s t u : Task C R) → Precedes s t → Precedes t u → Precedes s u
  unfolding Precedes
  Precedes-trans s t u =
      Before-trans s.due s.request.priority s.order t.due t.request.priority t.order u.due
        u.request.priority u.order

  less-Precedes : (s t : Task C R) → less s t ≡ true → Precedes s t
  unfolding less Precedes
  less-Precedes s t h = ground (arith, h)

  not_less-Precedes : (s t : Task C R) → less s t ≡ false → Precedes t s
  unfolding less Precedes
  not_less-Precedes s t h = ground (arith, h)

  itself-Precedes : (t : Task C R) → Precedes t t
  unfolding Precedes
  itself-Precedes t = inr (refl, inr (refl, omega arith))

  -- What stands first among some tasks, and the others.
  record Least (ts : List (Task C R)) (r : Task C R × List (Task C R)) : Type 0 where
    same : Perm (r.0 ∷ r.1) ts
    first : All (Precedes r.0) ts

  chosen-Least :
      (b : Bool) (t x : Task C R) (xs : List (Task C R)) (r : Task C R × List (Task C R))
      → less x t ≡ b
      → Least ((if b then x else t) ∷ xs) r
      → Least (t ∷ x ∷ xs) (r.0, (if b then t else x) ∷ r.1)
  chosen-Least true t x xs r h l = record {
    same = Perm.trans (Perm.swap t r.0 r.1) (Perm.cons t l.same);
    first = (Precedes-trans r.0 x t l.first.0 (less-Precedes x t h), (l.first.0, l.first.1));
  }
  chosen-Least false t x xs r h l = record {
    same = Perm.trans (Perm.swap x r.0 r.1) (Perm.trans (Perm.cons x l.same) (Perm.swap t x xs));
    first = (l.first.0, (Precedes-trans r.0 t x l.first.0 (not_less-Precedes x t h), l.first.1));
  }

  take_least-Least : (t : Task C R) (xs : List (Task C R)) → Least (t ∷ xs) (take_least t xs)
  unfolding take_least
  take_least-Least t [] = record { same = Perm.rfl; first = (itself-Precedes t, tt) }
  take_least-Least t (x ∷ xs) =
      chosen-Least (less x t) t x xs (take_least (if less x t then x else t) xs) refl
        (take_least-Least (if less x t then x else t) xs)

  -- What a pop gives: nothing if nothing is queued, or a task that may run before all that are queued, with a
  -- scheduler that holds the others.
  pub Pops : Scheduler C R → Option (Task C R × Scheduler C R) → Type 0
  Pops s none = ◌≡◌ {A = List (Task C R)} s.q []
  Pops s (some (t, s')) = Perm (t ∷ s'.q) s.q × All (Precedes t) s.q × (s'.push_n ≡ s.push_n)

  pop_list-Pops :
      (n : ℕ) (ts : List (Task C R)) → Pops (record { q = ts; push_n = n }) (pop_list n ts)
  unfolding Pops
  pop_list-Pops n [] = refl
  pop_list-Pops n (t ∷ ts) = let l = take_least-Least t ts in (l.same, l.first, refl)

  -- A pop of the scheduler gives nothing only if nothing is queued; what it gives otherwise is due no later
  -- than any queued task, of the highest priority among those due then and queued first among those, and
  -- exactly the other tasks are left.
  pub pop-Pops : (s : Scheduler C R) → Pops s (pop s)
  unfolding pop
  pop-Pops s = pop_list-Pops s.push_n s.q
