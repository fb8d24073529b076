-- ===== src/Proxy/Limiter/Bucket.antt =====
-- One token bucket.
use astradns_agent.Common.{ℕ, ◌+◌, ◌-◌, ◌*◌, ◌≤◌, ◌≡◌, ◌↔◌, Bool, true, arith, if◌then◌else◌}
use astradns_agent.Proxy.Limiter.{token, TokenBucket, rewind, refill, spend, bucket_allow}

-- A bucket holds no more than its burst.
abbrev pub IsFilled : TokenBucket → Type 0
IsFilled b = b.tokens ≤ b.burst

pub bucket_allow-IsFilled :
    (b : TokenBucket) (now : ℕ) → IsFilled b → IsFilled (bucket_allow b now).0
unfolding bucket_allow spend refill rewind
bucket_allow-IsFilled b now h = ground arith

-- What the bucket hands out and what it keeps never exceed what it had and what it has earned.
abbrev pub cost : Bool → ℕ
cost ok = if ok then token else 0

pub bucket_allow-balance :
    (b : TokenBucket) (now : ℕ)
    → b.last_refill ≤ now
    → let r = bucket_allow b now in
      (cost r.1 + r.0.tokens ≤ b.tokens + (now - b.last_refill) * b.rate)
      × (r.0.last_refill ≡ now)
      × (r.0.rate ≡ b.rate)
      × (r.0.burst ≡ b.burst)
unfolding bucket_allow spend refill rewind
bucket_allow-balance b now h = ground arith

-- A request is let through exactly when the tokens, with those earned since the last refill, make
-- one. This supposes that the bucket holds no more than its burst, that the burst makes one token,
-- and that the clock is not behind the last refill.
pub bucket_allow_iff :
    (b : TokenBucket) (now : ℕ)
    → b.last_refill ≤ now
    → IsFilled b
    → token ≤ b.burst
    → ((bucket_allow b now).1 ≡ true) ↔ (token ≤ b.tokens + (now - b.last_refill) * b.rate)
unfolding bucket_allow spend refill rewind
bucket_allow_iff b now h f one = (λ e. ground arith, λ earned. ground arith)
