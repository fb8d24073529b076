-- ===== src/Health/Threshold.antt =====
-- How many failures make an upstream unhealthy.
use astradns_agent.Common.{
  or_zero, ℕ, suc, ◌+◌, ◌<◌, ◌≡◌, ap, ap₂, ◌∙◌, Bool, true, false, some, List, [], ◌∷◌, Text,
  text_eq_refl, arith, lookup, lookup-insert, ltb, length, pos_part,
}
use astradns_agent.Health.{
  CheckerConfig, Checker, counted_failure, mark_unhealthy, record_failure, record_healthy,
}

-- Failures of one upstream in a row, each with whether it was a timeout.
pub failures : Checker → Text → List Bool → Checker
failures c label [] = c
failures c label (timed_out ∷ rest) = failures (record_failure c label timed_out) label rest

-- An upstream that has failed `n` times since it was healthy.
record HasFailed (c : Checker) (label : Text) (n : ℕ) : Type 0 where
  pub counted : or_zero (lookup label c.failure_counts) ≡ n
  pub judged : lookup label c.healthy ≡ some (ltb n (pos_part c.config.failure_threshold))

record_failure-config :
    (c : Checker) (label : Text) (timed_out : Bool)
    → (record_failure c label timed_out).config ≡ c.config
unfolding record_failure counted_failure mark_unhealthy
record_failure-config c label timed_out = ground arith

record_failure-HasFailed :
    (c : Checker) (label : Text) (timed_out : Bool) (n : ℕ)
    → HasFailed c label n
    → HasFailed (record_failure c label timed_out) label (suc n)
unfolding record_failure counted_failure mark_unhealthy
record_failure-HasFailed c label timed_out n f =
    let counts =
      lookup-insert label label (or_zero (lookup label c.failure_counts) + 1) c.failure_counts in
    let health = lookup-insert label label false c.healthy in
    let same = text_eq_refl label in
    record {
      counted = ground (arith, counts, same, f.counted);
      judged = ground (arith, counts, health, same, f.counted, f.judged);
    }

failures-HasFailed :
    (c : Checker) (label : Text) (bs : List Bool) (n : ℕ)
    → HasFailed c label n
    → lookup label (failures c label bs).healthy
      ≡ some (ltb (n + length bs) (pos_part c.config.failure_threshold))
unfolding failures
failures-HasFailed c label [] n f =
    f.judged ∙ ap (λ k. some (ltb k (pos_part c.config.failure_threshold))) (omega arith)
failures-HasFailed c label (b ∷ bs) n f =
    failures-HasFailed (record_failure c label b) label bs (suc n)
      (record_failure-HasFailed c label b n f)
    ∙ ap₂ (λ k (config : CheckerConfig). some (ltb k (pos_part config.failure_threshold)))
        (omega arith) (record_failure-config c label b)

-- After an answer of an upstream and failures in a row, timeouts or not, the upstream counts as
-- healthy exactly when the failures are fewer than the threshold, which is positive.
pub failures_lem :
    (c : Checker) (label : Text) (latency : ℕ) (bs : List Bool)
    → 0 < pos_part c.config.failure_threshold
    → lookup label (failures (record_healthy c label latency) label bs).healthy
      ≡ some (ltb (length bs) (pos_part c.config.failure_threshold))
unfolding record_healthy
failures_lem c label latency bs positive =
    failures-HasFailed (record_healthy c label latency) label bs 0 (record {
      counted = ground (arith, lookup-insert label label 0 c.failure_counts, text_eq_refl label);
      judged = ground (arith, lookup-insert label label true c.healthy, text_eq_refl label);
    })
    ∙ ap (λ k. some (ltb k (pos_part c.config.failure_threshold))) (omega arith)
