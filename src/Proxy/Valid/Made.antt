-- ===== src/Proxy/Valid/Made.antt =====
-- A new proxy is valid, whatever the configuration, and what changes it keeps it so.
use astradns_agent.Common.{
  ℕ, ◌≤◌, ◌≢◌, refl, Option, none, some, List, [], Text, arith, Bool-cases, inl, inr, if_cases, ℤ,
  not_positive, lookup,
}
use astradns_agent.Proxy.Cache.{CachedResponse, new_response_cache}
use astradns_agent.Proxy.Limiter.{
  TokenBucket, LimiterConfig, PerSource, new_token_bucket, per_source_of, limiter_of,
  new_request_limiter,
}
use astradns_agent.Proxy.Limiter.Sources.{IsBounded?}
use astradns_agent.Proxy.Pool.{EngineConnPool, new_engine_conn_pool, close}
use astradns_agent.Proxy.Server.{
  ProxyConfig, Proxy, or_refused, with_defaults, new_proxy, update_filter, close_pool, stop,
}
use astradns_agent.Proxy.Valid.Parts.{IsGoodCache, IsGoodLimiter, IsGoodPool, IsTight, IsFilled?}
use astradns_agent.Proxy.Valid.State.{IsValid}

le_same : (n : ℕ) → n ≤ n
le_same n = omega arith

new_token_bucket-IsFilled : (rate burst : ℤ) (now : ℕ) → IsFilled? (new_token_bucket rate burst now)
unfolding new_token_bucket
new_token_bucket-IsFilled rate burst now =
    if_cases IsFilled? (not_positive rate) (λ _. tt)
      λ _. if_cases IsFilled? (not_positive burst) (λ _. tt) λ _. le_same _

per_source_of-IsBounded :
    (c : LimiterConfig) (o : Option TokenBucket) → IsBounded? (per_source_of c o)
per_source_of-IsBounded c none = tt
per_source_of-IsBounded c (some b) = record { distinct = tt; bounded = omega arith }

limiter_of-IsGoodLimiter :
    (g : Option TokenBucket) (s : Option PerSource)
    → IsFilled? g
    → IsBounded? s
    → IsGoodLimiter (limiter_of g s)
limiter_of-IsGoodLimiter none none f b = tt
limiter_of-IsGoodLimiter none (some s) f b = (f, b)
limiter_of-IsGoodLimiter (some g) none f b = (f, b)
limiter_of-IsGoodLimiter (some g) (some s) f b = (f, b)

new_request_limiter-IsGoodLimiter :
    (c : LimiterConfig) (now : ℕ) → IsGoodLimiter (new_request_limiter c now)
unfolding new_request_limiter
new_request_limiter-IsGoodLimiter c now =
    limiter_of-IsGoodLimiter _ _ (new_token_bucket-IsFilled _ _ now) (per_source_of-IsBounded c _)

lookup-empty : (k : Text) (e : CachedResponse) → lookup k [] ≢ some e
unfolding lookup
lookup-empty k e h = ground arith

new_response_cache-IsGoodCache : (m d : ℤ) → IsGoodCache (new_response_cache m d)
unfolding new_response_cache
new_response_cache-IsGoodCache m d = elim (Bool-cases (not_positive m)) [
  | inl zero ↦ rw zero tt
  | inr positive ↦ rw positive (
    record { room = ground arith; bounded = omega arith; distinct = tt; named = tt },
    λ k e h. absurd (lookup-empty k e h),
  )
]

new_engine_conn_pool-IsTight :
    (addr : Text) (timeout size : ℤ) → IsTight (new_engine_conn_pool addr timeout size)
unfolding new_engine_conn_pool
new_engine_conn_pool-IsTight addr timeout size = record {
  udp_bounded = ground arith;
  tcp_bounded = ground arith;
  drained = λ h. cc;
}

or_refused-ne-success : (r : ℕ) → or_refused r ≢ 0
or_refused-ne-success r e = ground arith

-- Whatever the configuration, `New` yields a valid proxy.
pub new_proxy-IsValid : (config : ProxyConfig) (now : ℕ) → IsValid (new_proxy config now)
unfolding new_proxy with_defaults
new_proxy-IsValid config now = record {
  good = record {
    good_cache = new_response_cache-IsGoodCache _ _;
    good_limiter = new_request_limiter-IsGoodLimiter _ now;
    good_pool = new_engine_conn_pool-IsTight _ _ _;
    refuses = or_refused-ne-success config.domain_filter_deny_rcode;
  };
  queued = omega arith;
}

-- `UpdateFilter` keeps a valid proxy valid.
pub update_filter-IsValid :
    (p : Proxy) (allow deny : List Text) (rcode : ℕ)
    → IsValid p
    → IsValid (update_filter p allow deny rcode)
unfolding update_filter
update_filter-IsValid p allow deny rcode v = record {
  good = record {
    good_cache = v.good.good_cache;
    good_limiter = v.good.good_limiter;
    good_pool = v.good.good_pool;
    refuses = or_refused-ne-success rcode;
  };
  queued = v.queued;
}

close_pool-IsGoodPool : (o : Option EngineConnPool) → IsGoodPool o → IsGoodPool (close_pool o)
unfolding close
close_pool-IsGoodPool none g = tt
close_pool-IsGoodPool (some p) g = record {
  udp_bounded = omega arith;
  tcp_bounded = omega arith;
  drained = λ h. (refl, refl);
}

-- `Stop` keeps a valid proxy valid.
pub stop-IsValid : (p : Proxy) → IsValid p → IsValid (stop p)
unfolding stop
stop-IsValid p v =
    if_cases IsValid p.stopped (λ _. v)
      λ _. record {
        good = record {
          good_cache = v.good.good_cache;
          good_limiter = v.good.good_limiter;
          good_pool = close_pool-IsGoodPool p.pool v.good.good_pool;
          refuses = v.good.refuses;
        };
        queued = v.queued;
      }
