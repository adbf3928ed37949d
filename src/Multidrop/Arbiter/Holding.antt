-- ===== src/Multidrop/Arbiter/Holding.antt =====
-- A hold keeps the line from the others while it lasts, and its end is not missed.
use go_dnp.Common.{
  ℕ, ◌≤◌, ◌<◌, Bool, false, none, some, ◌≡◌, ◌≢◌, ◌⊎◌, refl, sym, ◌∙◌, inl, inr, arith,
}
use go_dnp.Multidrop.Arbiter.{
  Arbiter, waits, is_holder, is_free, extend_locked, hold_locked, release_locked, acquire, observe,
  release, close, wake,
}

-- What a connection does.
pub data Act : Type 0 where
  acquires releases : Act
  observes : (complete : Bool) → Act

unfoldable pub act : Arbiter → ℕ → Act → ℕ → Arbiter
act a c acquires now = (acquire a c now).0
act a c releases now = release a c
act a c (observes complete) now = observe a c complete now

-- While a connection holds the line and its time has not run out, nothing that another connection
-- does changes anything, and one that asks for the line waits.
pub act-others :
    (a : Arbiter) (c d : ℕ) (now : ℕ) (e : Act)
    → a.holder ≡ some c
    → c ≢ d
    → now < a.until
    → 0 < a.period
    → a.closed ≡ false
    → (act a d e now ≡ a) × ((acquire a d now).1 ≡ waits)
unfolding act acquire observe release is_holder is_free
act-others a c d now acquires h n l p o =
    (ground (arith, h, n, l, p, o), ground (arith, h, n, l, p, o))
act-others a c d now releases h n l p o =
    (ground (arith, h, n, l, p, o), ground (arith, h, n, l, p, o))
act-others a c d now (observes complete) h n l p o =
    (ground (arith, h, n, l, p, o), ground (arith, h, n, l, p, o))

abbrev pub start : ℕ → Arbiter
start period = record { period = period; holder = none; until = 0; timer = none; closed = false }

-- The states that come about, and when: time passes, connections act, the line is closed, the timer fires
-- when it is due.
pub data Reaches (period : ℕ) : ℕ → Arbiter → Type 0 where
  begins : Reaches period 0 (start period)
  passes :
      {now later : ℕ} {a : Arbiter} → now ≤ later → Reaches period now a → Reaches period later a
  acts :
      {now : ℕ} {a : Arbiter}
      → (c : ℕ) → (e : Act) → Reaches period now a
      → Reaches period now (act a c e now)
  closes : {now : ℕ} {a : Arbiter} → Reaches period now a → Reaches period now (close a)
  fires :
      {now : ℕ} {a : Arbiter} {at : ℕ}
      → a.timer ≡ some at
      → at ≤ now
      → Reaches period now a
      → Reaches period now (wake a)

-- The line is free, or the timer will fire when the hold ends, or the hold has ended.
abbrev pub IsWatched : ℕ → Arbiter → Type 0
IsWatched now a = (a.holder ≡ none) ⊎ ((a.timer ≡ some a.until) ⊎ (a.until ≤ now))

some_inj : {x y : ℕ} → some x ≡ some y → x ≡ y
some_inj e = ground (arith, e)

act-IsWatched :
    (now : ℕ) (a : Arbiter) (c : ℕ) (e : Act) → IsWatched now a → IsWatched now (act a c e now)
unfolding act acquire observe release hold_locked extend_locked release_locked is_holder is_free
act-IsWatched now a c acquires w = ground (arith, w)
act-IsWatched now a c releases w = ground (arith, w)
act-IsWatched now a c (observes complete) w = ground (arith, w)

-- At every moment, whatever the connections have done: the line is free, or the timer will wake those
-- who wait when the hold ends, or the hold has ended.
pub Reaches-IsWatched : {period now : ℕ} {a : Arbiter} → Reaches period now a → IsWatched now a
unfolding close release_locked wake
Reaches-IsWatched begins = inl refl
Reaches-IsWatched (passes {now = now} {later = later} {a = a} l r) = later_too (Reaches-IsWatched r)
  where
    later_too : IsWatched now a → IsWatched later a
    later_too (inl f) = inl f
    later_too (inr (inl t)) = inr (inl t)
    later_too (inr (inr o)) = inr (inr (omega (arith, o, l)))
Reaches-IsWatched (acts {now = now} {a = a} c e r) = act-IsWatched now a c e (Reaches-IsWatched r)
Reaches-IsWatched (closes r) = inl refl
Reaches-IsWatched (fires {now = now} {a = a} {at = at} t l r) = fired (Reaches-IsWatched r)
  where
    fired : IsWatched now a → IsWatched now (wake a)
    fired (inl f) = inl f
    fired (inr (inl u)) = inr (inr (omega (arith, l, some_inj (sym t ∙ u))))
    fired (inr (inr o)) = inr (inr o)
