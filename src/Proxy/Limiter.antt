-- ===== src/Proxy/Limiter.antt =====
-- The rate limiter of pkg/proxy/proxy.go: a token bucket for all requests, one for each source, and
-- one that the sources share which find no place. The proofs are in the modules below.
--
-- The source counts tokens in float64. Here a rate is a number of millionths of a request in a
-- second and tokens are counted in 10 ^ -15 of a request, so that the tokens of a nanosecond are a
-- whole number; the rounding of floats is not modelled. Each function holds its lock and is one
-- step. A pointer to a bucket is the place where the bucket stands.
pub mod Bucket
pub mod Run
pub mod Sources
pub mod Isolation
mod Tests
use astradns_agent.Common.{
  ℕ, ◌+◌, ◌-◌, ◌*◌, ◌%◌, ◌^◌, Bool, true, false, not, ◌==◌, ltb, leb, Option, none, some, List, [],
  Text, codes, text_eq, Dict, lookup, insert, retain, length, ℤ, pos_part, not_positive,
  if◌then◌else◌,
}

abbrev pub token : ℕ
token = 1000000000000000

pub record TokenBucket : Type 0 where
  pub rate : ℕ
  pub burst : ℕ
  pub tokens : ℕ
  pub last_refill : ℕ

unfoldable pub new_token_bucket : ℤ → ℤ → ℕ → Option TokenBucket
new_token_bucket rate_limit_rps burst now =
    if not_positive rate_limit_rps
    then none
    else if not_positive burst
    then none
    else some (record {
      rate = pos_part rate_limit_rps;
      burst = pos_part burst * token;
      tokens = pos_part burst * token;
      last_refill = now;
    })

-- The clock may stand behind the last refill.
unfoldable pub rewind : TokenBucket → ℕ → TokenBucket
rewind b now = if ltb now b.last_refill then record b { last_refill = now } else b

unfoldable pub refill : TokenBucket → ℕ → TokenBucket
refill b now =
    let elapsed = now - b.last_refill in
    let filled = b.tokens + elapsed * b.rate in
    if ltb 0 elapsed
    then record b { tokens = if ltb b.burst filled then b.burst else filled; last_refill = now }
    else b

unfoldable pub spend : TokenBucket → TokenBucket × Bool
spend b = if ltb b.tokens token then (b, false) else (record b { tokens = b.tokens - token }, true)

-- `(b *tokenBucket) Allow`
unfoldable pub bucket_allow : TokenBucket → ℕ → TokenBucket × Bool
bucket_allow b now = spend (refill (rewind b now) now)

pub record PerSourceLimiter : Type 0 where
  pub bucket : TokenBucket
  pub last_seen : ℕ

-- The fields that are set only where there is a limit for each source.
pub record PerSource : Type 0 where
  pub per_source_rate : ℤ
  pub per_source_burst : ℤ
  pub state_ttl : ℤ
  pub max_sources : ℤ
  pub overflow : TokenBucket
  pub sources : Dict PerSourceLimiter
  pub request_count : ℕ

pub record RequestLimiter : Type 0 where
  pub global : Option TokenBucket
  pub per_source : Option PerSource

-- The values of `ProxyConfig` that the limiter reads.
pub record LimiterConfig : Type 0 where
  pub global_rate_limit_rps : ℤ
  pub global_rate_limit_burst : ℤ
  pub per_source_rate_limit_rps : ℤ
  pub per_source_rate_limit_burst : ℤ
  pub per_source_rate_limit_state_ttl : ℤ
  pub per_source_rate_limit_max_sources : ℤ

abbrev pub per_source_of : LimiterConfig → Option TokenBucket → Option PerSource
per_source_of config none = none
per_source_of config (some overflow) = some (record {
  per_source_rate = config.per_source_rate_limit_rps;
  per_source_burst = config.per_source_rate_limit_burst;
  state_ttl = config.per_source_rate_limit_state_ttl;
  max_sources = config.per_source_rate_limit_max_sources;
  overflow = overflow;
  sources = [];
  request_count = 0;
})

abbrev pub limiter_of : Option TokenBucket → Option PerSource → Option RequestLimiter
limiter_of none none = none
limiter_of global per_source = some (record { global = global; per_source = per_source })

unfoldable pub new_request_limiter : LimiterConfig → ℕ → Option RequestLimiter
new_request_limiter config now =
    limiter_of (new_token_bucket config.global_rate_limit_rps config.global_rate_limit_burst now) (
      per_source_of config
        (new_token_bucket config.per_source_rate_limit_rps config.per_source_rate_limit_burst now))

-- What the loop of `cleanupExpiredLocked` leaves; the time to live is positive there.
unfoldable pub is_recent : ℤ → ℕ → Text → PerSourceLimiter → Bool
is_recent state_ttl now key entry = not (ltb (pos_part state_ttl) (now - entry.last_seen))

unfoldable pub cleanup_expired_locked : PerSource → ℕ → PerSource
cleanup_expired_locked r now =
    if not_positive r.state_ttl
    then r
    else record r { sources = retain (is_recent r.state_ttl now) r.sources }

-- Where the bucket stands that a request draws from.
pub data Place : Type 0 where
  shared : Place
  own : Text → Place

unfoldable pub source_key : Text → Text
source_key source = if text_eq source [] then codes "unknown" else source

-- `r.requestCount++`, and the sweep at every 256th request.
unfoldable pub count_request : PerSource → ℕ → PerSource
count_request r now =
    let count = (r.request_count + 1) % 2 ^ 64 in
    let counted : PerSource = record r { request_count = count } in
    if count % 256 == 0 then cleanup_expired_locked counted now else counted

unfoldable pub is_full : PerSource → Bool
is_full r = leb (pos_part r.max_sources) (length r.sources)

-- The end of `lookupPerSourceBucket`: a new bucket, where the rates allow one.
unfoldable pub add_source : PerSource → Text → ℕ → PerSource × Place
add_source r key now = elim (new_token_bucket r.per_source_rate r.per_source_burst now) [
  | none ↦ (r, shared)
  | some bucket ↦ (
    record r { sources = insert key (record { bucket = bucket; last_seen = now }) r.sources },
    own key,
  )
]

-- Its middle, for a source that is not known: the map may be full before a sweep and after it.
unfoldable pub find_place : PerSource → Text → ℕ → PerSource × Place
find_place r key now =
    let swept = cleanup_expired_locked r now in
    if is_full r
    then (if is_full swept then (swept, shared) else add_source swept key now)
    else add_source r key now

unfoldable pub seen_or_new : PerSource → Text → ℕ → Option PerSourceLimiter → PerSource × Place
seen_or_new r key now none = find_place r key now
seen_or_new r key now (some existing) =
    (record r { sources = insert key (record existing { last_seen = now }) r.sources }, own key)

unfoldable pub lookup_per_source_bucket : PerSource → Text → ℕ → PerSource × Place
lookup_per_source_bucket r source now =
    let key = source_key source in
    let counted = count_request r now in seen_or_new counted key now (lookup key counted.sources)

-- `bucket.Allow(now)`, at the place found.
unfoldable pub own_allow : PerSource → Text → ℕ → Option PerSourceLimiter → PerSource × Bool
own_allow r key now none = (r, false)
own_allow r key now (some entry) =
    let (bucket, ok) = bucket_allow entry.bucket now in
    (record r { sources = insert key (record entry { bucket = bucket }) r.sources }, ok)

unfoldable pub place_allow : PerSource → Place → ℕ → PerSource × Bool
place_allow r shared now =
    let (bucket, ok) = bucket_allow r.overflow now in (record r { overflow = bucket }, ok)
place_allow r (own key) now = own_allow r key now (lookup key r.sources)

unfoldable pub source_allow : Option PerSource → Text → ℕ → Option PerSource × Bool
source_allow none source now = (none, true)
source_allow (some r) source now =
    let (found, place) = lookup_per_source_bucket r source now in
    let (after, ok) = place_allow found place now in (some after, ok)

unfoldable pub global_allow : Option TokenBucket → ℕ → Option TokenBucket × Bool
global_allow none now = (none, true)
global_allow (some b) now = let (bucket, ok) = bucket_allow b now in (some bucket, ok)

-- `(r *requestLimiter) Allow`
unfoldable pub limiter_allow : RequestLimiter → Text → ℕ → RequestLimiter × Bool
limiter_allow r source now =
    let (global, ok) = global_allow r.global now in
    let (per_source, ok') = source_allow r.per_source source now in
    if not ok
    then (record r { global = global }, false)
    else (record { global = global; per_source = per_source }, ok')

unfoldable pub allow_request : Option RequestLimiter → Text → ℕ → Option RequestLimiter × Bool
allow_request none source now = (none, true)
allow_request (some r) source now =
    let (limiter, ok) = limiter_allow r source now in (some limiter, ok)
