-- ===== src/Multidrop/Arbiter/Tests.antt =====
-- Two connections and a turnaround of 100.
use go_dnp.Common.{ℕ, false, some, ◌≡◌, ◌≢◌, refl, arith}
use go_dnp.Multidrop.Arbiter.{
  Arbiter, waits, acquire, is_holder, is_free, extend_locked, hold_locked, wake,
}
use go_dnp.Multidrop.Arbiter.Holding.{
  act, acquires, act-others, start, begins, passes, acts, fires, IsWatched, Reaches-IsWatched,
}

abbrev held : Arbiter
held = record { period = 100; holder = some 1; until = 140; timer = some 140; closed = false }

distinct : ◌≢◌ {A = ℕ} 1 2
distinct e = omega arith

act-others_example : (act held 2 acquires 90 ≡ held) × ((acquire held 2 90).1 ≡ waits)
act-others_example = act-others held 1 2 90 acquires refl distinct (omega arith) (omega arith) refl

-- One takes the line at 5, and nobody answers until 105.
abbrev late : Arbiter
late = wake (act (start 100) 1 acquires 5)

taken : (act (start 100) 1 acquires 5).timer ≡ some 105
unfolding act acquire hold_locked extend_locked is_holder is_free
taken = refl

Reaches-IsWatched_example : IsWatched 105 late
Reaches-IsWatched_example = Reaches-IsWatched (
    fires taken (omega arith)
      (passes {now = 5} (omega arith) (acts 1 acquires (passes {now = 0} (omega arith) begins))))
