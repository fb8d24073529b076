-- ===== src/Proxy/Limiter/Run.antt =====
-- Requests over time: how many are let through.
use astradns_agent.Common.{
  ℕ, ◌+◌, ◌-◌, ◌*◌, ◌≤◌, ◌≡◌, ap, Bool, true, false, some, List, [], ◌∷◌, arith, if◌then◌else◌,
  Text,
}
use astradns_agent.Proxy.Limiter.{
  token, TokenBucket, bucket_allow, RequestLimiter, limiter_allow, global_allow,
}
use astradns_agent.Proxy.Limiter.Bucket.{IsFilled, cost, bucket_allow-balance}

-- Times that do not fall, from a time on, and the last of them.
abbrev pub Rising : ℕ → List ℕ → Type 0
Rising t [] = Unit {0}
Rising t (u ∷ us) = (t ≤ u) × Rising u us

abbrev pub last_time : ℕ → List ℕ → ℕ
last_time t [] = t
last_time t (u ∷ us) = last_time u us

last_time-le : (t : ℕ) (ts : List ℕ) → Rising t ts → t ≤ last_time t ts
last_time-le t [] r = omega arith
last_time-le t (u ∷ us) r = omega (arith, last_time-le u us r.1)

abbrev pub one_if : Bool → ℕ
one_if ok = if ok then 1 else 0

-- How many of the requests at these times a bucket lets through.
pub bucket_run : TokenBucket → List ℕ → ℕ
bucket_run b [] = 0
bucket_run b (t ∷ ts) = one_if (bucket_allow b t).1 + bucket_run (bucket_allow b t).0 ts

one_if-cost : (ok : Bool) (n : ℕ) → (one_if ok + n) * token ≡ cost ok + n * token
one_if-cost true n = omega arith
one_if-cost false n = omega arith

earned-add : (s t u rate : ℕ) → s ≤ t → t ≤ u → (t - s) * rate + (u - t) * rate ≡ (u - s) * rate
earned-add s t u rate h k =
    let whole : (t - s) + (u - t) ≡ u - s = omega arith in omega (arith, ap (λ n. n * rate) whole)

bucket_run-balance :
    (b : TokenBucket) (ts : List ℕ)
    → Rising b.last_refill ts
    → bucket_run b ts * token ≤ b.tokens + (last_time b.last_refill ts - b.last_refill) * b.rate
unfolding bucket_run
bucket_run-balance b [] r = omega arith
bucket_run-balance b (t ∷ ts) r =
    let (spent, now, rate, burst) = bucket_allow-balance b t r.0 in
    let rest : bucket_run (bucket_allow b t).0 ts * token
        ≤ (bucket_allow b t).0.tokens + (last_time t ts - t) * b.rate =
      rw (now, rate) at (bucket_run-balance (bucket_allow b t).0 ts (rw now r.1)) in
    omega (
      arith,
      spent,
      rest,
      one_if-cost (bucket_allow b t).1 (bucket_run (bucket_allow b t).0 ts),
      earned-add b.last_refill t (last_time t ts) b.rate r.0 (last_time-le t ts r.1),
    )

-- Over any times that do not fall, a bucket lets through no more requests than its burst and what
-- it earns from its last refill to the last of them.
pub bucket_run-bound :
    (b : TokenBucket) (ts : List ℕ)
    → IsFilled b
    → Rising b.last_refill ts
    → bucket_run b ts * token ≤ b.burst + (last_time b.last_refill ts - b.last_refill) * b.rate
bucket_run-bound b ts f r = omega (arith, bucket_run-balance b ts r)

-- Requests from sources over time, through the whole limiter.
pub limiter_run : RequestLimiter → List (Text × ℕ) → ℕ
limiter_run r [] = 0
limiter_run r ((source, t) ∷ requests) =
    one_if (limiter_allow r source t).1 + limiter_run (limiter_allow r source t).0 requests

abbrev pub times : List (Text × ℕ) → List ℕ
times [] = []
times ((source, t) ∷ requests) = t ∷ times requests

limiter_allow-global :
    (r : RequestLimiter) (b : TokenBucket) (source : Text) (t : ℕ)
    → r.global ≡ some b
    → ((limiter_allow r source t).0.global ≡ some (bucket_allow b t).0)
      × (one_if (limiter_allow r source t).1 ≤ one_if (bucket_allow b t).1)
unfolding limiter_allow global_allow
limiter_allow-global r b source t e = (ground arith, ground arith)

limiter_run-bucket_run :
    (r : RequestLimiter) (b : TokenBucket) (requests : List (Text × ℕ))
    → r.global ≡ some b
    → limiter_run r requests ≤ bucket_run b (times requests)
unfolding limiter_run bucket_run
limiter_run-bucket_run r b [] e = omega arith
limiter_run-bucket_run r b ((source, t) ∷ requests) e =
    let first = limiter_allow-global r b source t e in
    omega (
      arith,
      first.1,
      limiter_run-bucket_run (limiter_allow r source t).0 (bucket_allow b t).0 requests first.0,
    )

-- Whatever the sources, the limiter lets through no more requests than the burst of its global
-- bucket and what that bucket earns until the last of them. This supposes a global bucket that
-- holds no more than its burst, and times that do not fall.
pub limiter_run-bound :
    (r : RequestLimiter) (b : TokenBucket) (requests : List (Text × ℕ))
    → r.global ≡ some b
    → IsFilled b
    → Rising b.last_refill (times requests)
    → limiter_run r requests * token
      ≤ b.burst + (last_time b.last_refill (times requests) - b.last_refill) * b.rate
limiter_run-bound r b requests e f rising =
    omega
      (arith, limiter_run-bucket_run r b requests e, bucket_run-bound b (times requests) f rising)
