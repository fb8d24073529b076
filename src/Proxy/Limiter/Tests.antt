-- ===== src/Proxy/Limiter/Tests.antt =====
-- The limiter at concrete values.
use astradns_agent.Common.{
  ℕ, ◌+◌, ◌-◌, ◌*◌, ◌≡◌, ◌≢◌, ◌≤◌, refl, Bool, Option, none, some, List, [], ◌∷◌, Text, codes,
  arith, second, lookup, insert, text_eq, pos,
}
use astradns_agent.Proxy.Limiter.{
  token, TokenBucket, bucket_allow, PerSource, RequestLimiter, source_key, source_allow,
  lookup_per_source_bucket, seen_or_new, find_place, add_source, is_full, count_request,
  place_allow, own_allow, spend, refill, rewind, new_token_bucket,
}
use astradns_agent.Proxy.Limiter.Run.{last_time, limiter_run, times, limiter_run-bound}
use astradns_agent.Proxy.Limiter.Sources.{IsBounded}
use astradns_agent.Proxy.Limiter.Isolation.{source_allow-others}

-- Two tokens a second, three at most, one left.
abbrev bucket_example : TokenBucket
bucket_example = record { rate = 2000000; burst = 3 * token; tokens = token; last_refill = 1000 }

abbrev sources_example : PerSource
sources_example = record {
  per_source_rate = pos 2000000;
  per_source_burst = pos 3;
  state_ttl = pos (300 * second);
  max_sources = pos 5;
  overflow = bucket_example;
  sources = (codes "10.0.0.1", record { bucket = bucket_example; last_seen = 1000 }) ∷ [];
  request_count = 0;
}

abbrev limiter_example : RequestLimiter
limiter_example = record { global = some bucket_example; per_source = some sources_example }

abbrev times_example : List ℕ
times_example = 1000 ∷ 2000 ∷ 2000 ∷ 500000000 ∷ []

abbrev requests_example : List (Text × ℕ)
requests_example = (codes "10.0.0.1", 1000) ∷ (codes "10.0.0.2", 2000) ∷ []

limiter_run-bound_example :
    limiter_run limiter_example requests_example * token
    ≤ bucket_example.burst
      + (last_time bucket_example.last_refill (times requests_example) - bucket_example.last_refill)
        * bucket_example.rate
limiter_run-bound_example =
    limiter_run-bound limiter_example bucket_example requests_example refl (omega arith)
      (omega arith, (omega arith, tt))

sources-IsBounded : IsBounded sources_example
unfolding lookup
sources-IsBounded = record { distinct = (refl, tt); bounded = omega arith }

-- What the limiter of the sources is after a request.
abbrev after_of : Option PerSource × Bool → PerSource
after_of (none, ok) = sources_example
after_of (some r, ok) = r

abbrev after_example : PerSource
after_example = after_of (source_allow (some sources_example) (codes "10.0.0.2") 2000)

source_allow-other_source :
    source_allow (some sources_example) (codes "10.0.0.2") 2000
    ≡ (some after_example, (source_allow (some sources_example) (codes "10.0.0.2") 2000).1)
unfolding source_allow
source_allow-other_source = refl

other_source-ne : source_key (codes "10.0.0.2") ≢ codes "10.0.0.1"
unfolding source_key text_eq
other_source-ne e = ground arith

still_there :
    lookup (codes "10.0.0.1") after_example.sources
    ≡ some (record { bucket = bucket_example; last_seen = 1000 })
unfolding source_allow lookup_per_source_bucket seen_or_new find_place add_source is_full
    count_request place_allow own_allow bucket_allow spend refill rewind new_token_bucket source_key
    lookup insert text_eq
still_there = refl

source_allow-others_example :
    lookup (codes "10.0.0.1") sources_example.sources
    ≡ some (record { bucket = bucket_example; last_seen = 1000 })
source_allow-others_example =
    source_allow-others sources_example after_example (codes "10.0.0.2") (codes "10.0.0.1") 2000
      (source_allow (some sources_example) (codes "10.0.0.2") 2000).1 _ sources-IsBounded
      other_source-ne source_allow-other_source still_there
