-- ===== src/Proxy/Handler/Keeps.antt =====
-- A query keeps the state valid.
use astradns_agent.Common.{◌≡◌, Bool, true, false, not, Option, none, some, Text, if_cases, arith}
use astradns_agent.Dns.{Msg, DnsLib}
use astradns_agent.Proxy.Message.{normalize_domain}
use astradns_agent.Proxy.Filter.{allowed}
use astradns_agent.Proxy.Cache.{get, store}
use astradns_agent.Proxy.Limiter.{allow_request}
use astradns_agent.Proxy.Pool.{Result, ok, err, exchange}
use astradns_agent.Proxy.Server.{QueryEvent, Proxy}
use astradns_agent.Proxy.Valid.{
  shared_of, IsGood, IsValid, store-IsGoodCache, allow_request-IsGoodLimiter, exchange-IsGoodPool,
}
use astradns_agent.Proxy.Handler.{
  World, RemoteAddr, source_ip, network_for_remote_addr, publish_event, write_msg, emit_query_event,
  emit_denied_event, try_fallback_upstreams, answer_engine, answer_fallback, answer_stale,
  answer_exchange, ask_engine, answer_cached, answer_filtered, answer_limited, handle_query,
}
use astradns_agent.Proxy.Handler.Counts.{handle_query-Reports}

-- Publishing an event changes no part.
shared_of-publish_event :
    (p : Proxy) (event : QueryEvent) → shared_of (publish_event p event) ≡ shared_of p
unfolding publish_event
shared_of-publish_event p event = ground arith

module _ (lib : DnsLib) (w : World) where
  emit_query_event-IsGood :
      (p : Proxy) (src : Text) (request response : Msg) (upstream : Text) (known hit : Bool)
      → IsGood (shared_of p)
      → IsGood (
          shared_of
            (emit_query_event lib w (write_msg p response) src request response upstream known hit))
  unfolding emit_query_event
  emit_query_event-IsGood p src request response upstream known hit g = rw shared_of-publish_event g

  store-IsGood :
      (p : Proxy) (request response : Msg)
      → IsGood (shared_of p)
      → IsGood
          (shared_of (record p { cache = store p.cache (some request) (some response) w.started }))
  store-IsGood p request response g = record {
    good_cache = store-IsGoodCache p.cache (some request) (some response) w.started g.good_cache;
    good_limiter = g.good_limiter;
    good_pool = g.good_pool;
    refuses = g.refuses;
  }

  answer_engine-IsGood :
      (p : Proxy) (src : Text) (request response : Msg)
      → IsGood (shared_of p)
      → IsGood (shared_of (answer_engine lib w p src request response))
  unfolding answer_engine
  answer_engine-IsGood p src request response g =
      emit_query_event-IsGood
        (record p { cache = store p.cache (some request) (some response) w.started }) src request
        response _ _ _ (store-IsGood p request response g)

  answer_stale-IsGood :
      (p : Proxy) (src : Text) (request : Msg) (stale : Option Msg)
      → IsGood (shared_of p)
      → IsGood (shared_of (answer_stale lib w p src request stale))
  unfolding answer_stale
  answer_stale-IsGood p src request (some stale) g =
      emit_query_event-IsGood p src request stale _ _ _ g
  answer_stale-IsGood p src request none g =
      fallback (try_fallback_upstreams lib w p.fallbacks request)
    where
      fallback : (o : Option Msg) → IsGood (shared_of (answer_fallback lib w p src request o))
      fallback none = unfold answer_fallback in answer_engine-IsGood p src request _ g
      fallback (some response) =
          unfold answer_fallback in
          emit_query_event-IsGood
            (record p { cache = store p.cache (some request) (some response) w.started }) src
            request response _ _ _ (store-IsGood p request response g)

  answer_exchange-IsGood :
      (p : Proxy) (src : Text) (request : Msg) (result : Result (Option Msg))
      → IsGood (shared_of p)
      → IsGood (shared_of (answer_exchange lib w p src request result))
  unfolding answer_exchange
  answer_exchange-IsGood p src request (ok (some response)) g =
      answer_engine-IsGood p src request response g
  answer_exchange-IsGood p src request (ok none) g = answer_stale-IsGood p src request _ g
  answer_exchange-IsGood p src request (err e) g = answer_stale-IsGood p src request _ g

  answer_cached-IsGood :
      (p : Proxy) (src network : Text) (request : Msg) (cached : Option Msg)
      → IsGood (shared_of p)
      → IsGood (shared_of (answer_cached lib w p src network request cached))
  unfolding answer_cached ask_engine
  answer_cached-IsGood p src network request none g =
      let asked = exchange w.engine p.pool network (some request) in
      answer_exchange-IsGood (record p { pool = asked.0 }) src request asked.1
        (record {
          good_cache = g.good_cache;
          good_limiter = g.good_limiter;
          good_pool = exchange-IsGoodPool w.engine p.pool network request g.good_pool;
          refuses = g.refuses;
        })
  answer_cached-IsGood p src network request (some cached) g =
      emit_query_event-IsGood p src request cached _ _ _ g

  answer_filtered-IsGood :
      (p : Proxy) (src network : Text) (request : Msg)
      → IsGood (shared_of p)
      → IsGood (shared_of (answer_filtered lib w p src network request))
  unfolding answer_filtered emit_denied_event
  answer_filtered-IsGood p src network request g =
      if_cases (λ q. IsGood (shared_of q))
        (not (allowed p.filter (normalize_domain (some request))))
        (λ _. rw shared_of-publish_event g)
        λ _. answer_cached-IsGood p src network request (get p.cache (some request) w.started) g

  answer_limited-IsGood :
      (p : Proxy) (src network : Text) (request : Msg) (admitted : Bool)
      → IsGood (shared_of p)
      → IsGood (shared_of (answer_limited lib w p src network request admitted))
  unfolding answer_limited
  answer_limited-IsGood p src network request false g =
      emit_query_event-IsGood p src request _ _ _ _ g
  answer_limited-IsGood p src network request true g =
      answer_filtered-IsGood p src network request g

  handle_query-IsGood :
      (p : Proxy) (remote : Option RemoteAddr) (request : Msg)
      → IsGood (shared_of p)
      → IsGood (shared_of (handle_query lib w p remote request))
  unfolding handle_query
  handle_query-IsGood p remote request g =
      let admission = allow_request p.limiter (source_ip remote) w.started in
      answer_limited-IsGood (record p { limiter = admission.0 }) (source_ip remote)
        (network_for_remote_addr remote) request admission.1
        (record {
          good_cache = g.good_cache;
          good_limiter =
              allow_request-IsGoodLimiter p.limiter (source_ip remote) w.started g.good_limiter;
          good_pool = g.good_pool;
          refuses = g.refuses;
        })

  -- Whatever the state and the network, `handleQuery` keeps a valid state valid: the cache and the
  -- sources of the limiter stay within their limits, with each key once and each entry timed; the
  -- global bucket keeps to its burst; the pool stays within its limit, and empty once it is
  -- closed; the event channel stays within its size.
  pub handle_query-IsValid :
      (p : Proxy) (remote : Option RemoteAddr) (request : Msg)
      → IsValid p
      → IsValid (handle_query lib w p remote request)
  handle_query-IsValid p remote request v =
      let more = handle_query-Reports lib w p remote request in
      record {
        good = handle_query-IsGood p remote request v.good;
        queued = omega (arith, more.fits v.queued, more.sized);
      }
