-- ===== src/Multidrop/Arbiter.antt =====
-- The turn taking of masters on one line, multidrop/arbiter.go. A connection is a number, the clock too. Each
-- method is one step, as the mutex makes it; `acquire` is one pass of its loop, which `waits` until it
-- is woken. `timer` is when the timer will fire, if it is set; the period is positive.
pub mod Holding
mod Tests
use go_dnp.Common.{
  ℕ, ◌+◌, Bool, true, false, not, ◌&&◌, ◌||◌, ltb, leb, ◌==◌, if◌then◌else◌, Option, none, some,
}

pub record Arbiter : Type 0 where
  pub period : ℕ
  pub holder : Option ℕ
  pub until : ℕ
  pub timer : Option ℕ
  pub closed : Bool

pub data Answer : Type 0 where
  nil err_closed waits : Answer

unfoldable pub is_holder : Arbiter → ℕ → Bool
is_holder a c = elim (a.holder) [ none ↦ false | some h ↦ h == c ]

unfoldable pub is_free : Arbiter → Bool
is_free a = elim (a.holder) [ none ↦ true | some h ↦ false ]

unfoldable pub extend_locked : Arbiter → ℕ → Arbiter
extend_locked a now = record a { until = now + a.period; timer = some (now + a.period) }

unfoldable pub hold_locked : Arbiter → ℕ → ℕ → Arbiter
unfolding extend_locked
hold_locked a c now = extend_locked (record a { holder = some c }) now

unfoldable pub release_locked : Arbiter → Arbiter
release_locked a = record a { holder = none; timer = none }

unfoldable pub acquire : Arbiter → ℕ → ℕ → Arbiter × Answer
acquire a c now =
    if a.period == 0
    then (a, nil)
    else if a.closed
    then (a, err_closed)
    else if is_free a || is_holder a c || leb a.until now
    then (hold_locked a c now, nil)
    else (a, waits)

unfoldable pub observe : Arbiter → ℕ → Bool → ℕ → Arbiter
observe a c complete now =
    if a.period == 0
    then a
    else if not (is_holder a c)
    then a
    else if complete
    then release_locked a
    else extend_locked a now

unfoldable pub release : Arbiter → ℕ → Arbiter
release a c = if is_holder a c then release_locked a else a

unfoldable pub close : Arbiter → Arbiter
close a = release_locked (record a { closed = true })

-- The timer fires and wakes the waiters.
unfoldable pub wake : Arbiter → Arbiter
wake a = record a { timer = none }
