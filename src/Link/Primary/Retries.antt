-- ===== src/Link/Primary/Retries.antt =====
-- A peer that stays silent.
use go_dnp.Common.{
  ℕ, zero, suc, ◌+◌, ◌≤◌, false, [], ◌≡◌, ◌≢◌, ap, ◌∙◌, arith, ltb, ltb→lt, ltb-false→le,
  Bool-cases, if◌then◌else◌, inl, inr,
}
use go_dnp.Link.Primary.{Primary, idle, Action, on_timeout, no_frame, Reaction}
use go_dnp.Link.Primary.Cases.{on_timeout_again, on_timeout_last}

-- The state after a number of timeouts with nothing received between them.
pub time_outs : ℕ → Primary → Primary
time_outs zero p = p
time_outs (suc n) p = time_outs n (on_timeout p).0

retried : Primary → ℕ → Primary
retried p k = record p { retries = p.retries + k }

time_outs-retried :
    (k : ℕ) (p : Primary)
    → p.state ≢ idle
    → p.retries + k ≤ p.max_retries
    → time_outs k p ≡ retried p k
unfolding time_outs retried
time_outs-retried zero p busy h = ground arith
time_outs-retried (suc k) p busy h = rw (on_timeout_again p busy (omega arith)) (
    time_outs-retried k (record p { retries = p.retries + 1 }) busy (omega arith)
    ∙ ap (λ n. record p { retries = n }) (omega arith))

abbrev pub failed_reaction : Primary → Reaction
failed_reaction p = (
  record p { state = idle; link_up = false; flow_control = false; pending = []; retries = 0 },
  no_frame,
  Action.failed,
)

abbrev pub retry_reaction : Primary → ℕ → Reaction
retry_reaction p k = (record p { retries = p.retries + k + 1 }, p.last_sent, Action.transmit)

-- From a primary that waits for a reply, and while nothing is received: the timeout after `k` others
-- sends the last frame again as it was and changes nothing but the count, as long as the retries are
-- not used up, and the timeout after the last retry reports failure and leaves the primary idle, its
-- link down, nothing pending and no flow control.
pub silence :
    (p : Primary) (k : ℕ)
    → p.state ≢ idle
    → p.retries + k ≤ p.max_retries
    → on_timeout (time_outs k p)
      ≡ (if ltb (p.retries + k) p.max_retries then retry_reaction p k else failed_reaction p)
silence p k busy h = elim (Bool-cases (ltb (p.retries + k) p.max_retries)) [
  | inl e ↦
      rw (time_outs-retried k p busy h, e)
        (unfold retried in on_timeout_again (retried p k) busy (ltb→lt _ _ e))
  | inr e ↦
      rw (time_outs-retried k p busy h, e)
        (unfold retried in on_timeout_last (retried p k) busy (ltb-false→le _ _ e))
]
