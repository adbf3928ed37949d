-- ===== src/Master/Scheduler.antt =====
-- The scheduler of master/task.go. container/heap is modelled by what it documents: the head of the heap, which
-- Pop takes out, is an element that no other is less than; here it is looked for in a list.
pub mod Order
use go_dnp.Common.{
  ℕ, suc, ◌+◌, Bool, ltb, ◌==◌, ◌!=◌, if◌then◌else◌, Option, none, some, List, [], ◌∷◌, ◌++◌,
  length,
}
use go_dnp.Master.Task.{Task}

pub record Scheduler (C R : Type 0) : Type 0 where
  pub q : List (Task C R)
  pub push_n : ℕ

-- A caller who waits, if there is one, before others.
abbrev pub waiting : Option ℕ → List ℕ → List ℕ
waiting none rest = rest
waiting (some caller) rest = caller ∷ rest

module _ {C R : Type 0} where
  unfoldable pub less : Task C R → Task C R → Bool
  less s t =
      if s.due != t.due
      then ltb s.due t.due
      else if s.request.priority != t.request.priority
      then ltb s.request.priority t.request.priority
      else ltb s.order t.order

  unfoldable pub push : Scheduler C R → Task C R → Scheduler C R
  push s t = record { q = s.q ++ (record t { order = s.push_n + 1 } ∷ []); push_n = s.push_n + 1 }

  -- The least of a task and others, and those that are left.
  unfoldable pub take_least : Task C R → List (Task C R) → Task C R × List (Task C R)
  take_least t [] = (t, [])
  take_least t (x ∷ xs) =
      let (least, rest) = take_least (if less x t then x else t) xs in
      (least, (if less x t then t else x) ∷ rest)

  abbrev pub pop_list : ℕ → List (Task C R) → Option (Task C R × Scheduler C R)
  pop_list n [] = none
  pop_list n (t ∷ ts) =
      let (least, rest) = take_least t ts in some (least, record { q = rest; push_n = n })

  unfoldable pub pop : Scheduler C R → Option (Task C R × Scheduler C R)
  pop s = pop_list s.push_n s.q

  abbrev pub first_of : List (Task C R) → Option (Task C R)
  first_of [] = none
  first_of (t ∷ ts) = some (take_least t ts).0

  unfoldable pub peek : Scheduler C R → Option (Task C R)
  peek s = first_of s.q

  unfoldable pub len : Scheduler C R → ℕ
  len s = length s.q

  -- The loop of `clear`: the tasks that are kept, and the callers who are failed.
  unfoldable pub keep_periodic : List (Task C R) → List (Task C R) × List ℕ
  keep_periodic [] = ([], [])
  keep_periodic (t ∷ ts) =
      let (kept, failed) = keep_periodic ts in
      if ltb 0 t.request.period then (t ∷ kept, failed) else (kept, waiting t.done failed)

  unfoldable pub clear : Scheduler C R → Scheduler C R × List ℕ
  clear s =
      let (kept, failed) = keep_periodic s.q in (record { q = kept; push_n = s.push_n }, failed)
