-- ===== src/Outstation/Unsolicited/Fitting.antt =====
-- The binary search for how many events fit one fragment.
use go_dnp.Common.{
  ℕ, zero, suc, ◌+◌, ◌-◌, ◌/◌, ◌≤◌, ◌<◌, Bool, true, false, ltb, ltb→lt, ltb-false→le, Bool-cases,
  List, length, take, ◌≡◌, ◌⊎◌, refl, sym, subst, inl, inr, arith,
}
use go_dnp.Outstation.EventBuffer.{Event}
use go_dnp.Outstation.Unsolicited.{Reporter, search_fit, events_that_fit}

-- The answer of a search: it fits, unless it is one, and one more does not, unless there are no more.
pub record Found (fits : ℕ → Bool) (lo hi n r : ℕ) : Type 0 where
  pub low : lo ≤ r
  pub high : r ≤ hi
  pub enough : (r ≡ 1) ⊎ (fits r ≡ true)
  pub most : (r ≡ n) ⊎ (fits (r + 1) ≡ false)

module _ (fits : ℕ → Bool) (n : ℕ) where
  search_fit-Found :
      (fuel lo hi : ℕ)
      → lo ≤ hi
      → hi ≤ lo + fuel
      → (lo ≡ 1) ⊎ (fits lo ≡ true)
      → (hi ≡ n) ⊎ (fits (hi + 1) ≡ false)
      → Found fits lo hi n (search_fit fits fuel lo hi)
  unfolding search_fit
  search_fit-Found zero lo hi l h a b =
      let same : hi ≡ lo = omega arith in
      record {
        low = omega arith;
        high = l;
        enough = a;
        most = subst (λ k. (k ≡ n) ⊎ (fits (k + 1) ≡ false)) same b;
      }
  search_fit-Found (suc fuel) lo hi l h a b = elim (Bool-cases (ltb lo hi)) [
    | inl e ↦
        split (ltb→lt lo hi e)
          (λ g.
            search_fit-Found fuel mid hi (omega (arith, ltb→lt lo hi e))
              (omega (arith, ltb→lt lo hi e)) (inr g) b)
          (λ g k.
            search_fit-Found fuel lo (mid - 1) (omega (arith, ltb→lt lo hi e))
              (omega (arith, ltb→lt lo hi e)) a k)
          e
    | inr e ↦
        let same : hi ≡ lo = omega (arith, ltb-false→le lo hi e) in
        rw e (record {
          low = omega arith;
          high = l;
          enough = a;
          most = subst (λ k. (k ≡ n) ⊎ (fits (k + 1) ≡ false)) same b;
        })
  ]
    where
      mid : ℕ
      mid = (lo + hi + 1) / 2

      below : lo < hi → mid - 1 + 1 ≡ mid
      below e = omega arith

      split :
          lo < hi
          → (fits mid ≡ true → Found fits mid hi n (search_fit fits fuel mid hi))
          → (fits mid ≡ false
              → (mid - 1 ≡ n) ⊎ (fits (mid - 1 + 1) ≡ false)
              → Found fits lo (mid - 1) n (search_fit fits fuel lo (mid - 1)))
          → ltb lo hi ≡ true
          → Found fits lo hi n (search_fit fits (suc fuel) lo hi)
      split c up down e = elim (Bool-cases (fits mid)) [
        | inl g ↦
            let f = up g in
            rw (e, g)
              (record {
                low = omega (arith, f.low);
                high = f.high;
                enough = f.enough;
                most = f.most;
              })
        | inr g ↦
            let f = down g (inr (subst (λ k. fits k ≡ false) (sym (below c)) g)) in
            rw (e, g)
              (record {
                low = f.low;
                high = omega (arith, f.high);
                enough = f.enough;
                most = f.most;
              })
      ]

-- Of events that there are some of, at least one is chosen and no more than there are; those chosen fit
-- one fragment, unless it is a single one, and one more would not fit, unless there are no more.
pub events_that_fit-Found :
    {W V E : Type 0} (out : Reporter W V E) (es : List (Event V))
    → 0 < length es
    → Found (λ n. out.fits (take n es)) 1 (length es) (length es) (events_that_fit out es)
unfolding events_that_fit
events_that_fit-Found out es some_events =
    search_fit-Found (λ n. out.fits (take n es)) (length es) (length es) 1 (length es) (omega arith)
      (omega arith) (inl refl) (inl refl)
