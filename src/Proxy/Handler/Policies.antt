-- ===== src/Proxy/Handler/Policies.antt =====
-- A query changes neither the filter nor the fallback upstreams.
use astradns_agent.Common.{
  ℕ, ◌≡◌, Bool, true, false, not, Option, none, some, List, Text, if_cases, arith,
}
use astradns_agent.Dns.{Msg, DnsLib}
use astradns_agent.Proxy.Message.{normalize_domain}
use astradns_agent.Proxy.Filter.{DomainFilter, allowed}
use astradns_agent.Proxy.Cache.{get}
use astradns_agent.Proxy.Limiter.{allow_request}
use astradns_agent.Proxy.Pool.{Result, ok, err, exchange}
use astradns_agent.Proxy.Server.{QueryEvent, Proxy}
use astradns_agent.Proxy.Handler.{
  World, RemoteAddr, source_ip, network_for_remote_addr, publish_event, emit_query_event,
  emit_denied_event, answer_engine, answer_fallback, answer_stale, answer_exchange, ask_engine,
  answer_cached, answer_filtered, answer_limited, handle_query,
}

-- What `UpdateFilter` and `UpdateFallbackUpstreams` set.
abbrev pub policy_of : Proxy → Option DomainFilter × ℕ × List Text
policy_of p = (p.filter, p.filter_rcode, p.fallbacks)

policy_of-publish_event :
    (p : Proxy) (event : QueryEvent) → policy_of (publish_event p event) ≡ policy_of p
unfolding publish_event
policy_of-publish_event p event = ground arith

module _ (lib : DnsLib) (w : World) where
  policy_of-answer_engine :
      (p : Proxy) (src : Text) (request response : Msg)
      → policy_of (answer_engine lib w p src request response) ≡ policy_of p
  unfolding answer_engine emit_query_event
  policy_of-answer_engine p src request response = policy_of-publish_event _ _

  policy_of-answer_fallback :
      (p : Proxy) (src : Text) (request : Msg) (o : Option Msg)
      → policy_of (answer_fallback lib w p src request o) ≡ policy_of p
  unfolding answer_fallback emit_query_event
  policy_of-answer_fallback p src request none = policy_of-answer_engine p src request _
  policy_of-answer_fallback p src request (some response) = policy_of-publish_event _ _

  policy_of-answer_stale :
      (p : Proxy) (src : Text) (request : Msg) (stale : Option Msg)
      → policy_of (answer_stale lib w p src request stale) ≡ policy_of p
  unfolding answer_stale emit_query_event
  policy_of-answer_stale p src request none = policy_of-answer_fallback p src request _
  policy_of-answer_stale p src request (some stale) = policy_of-publish_event _ _

  policy_of-answer_exchange :
      (p : Proxy) (src : Text) (request : Msg) (result : Result (Option Msg))
      → policy_of (answer_exchange lib w p src request result) ≡ policy_of p
  unfolding answer_exchange
  policy_of-answer_exchange p src request (ok (some response)) =
      policy_of-answer_engine p src request response
  policy_of-answer_exchange p src request (ok none) = policy_of-answer_stale p src request _
  policy_of-answer_exchange p src request (err e) = policy_of-answer_stale p src request _

  policy_of-answer_cached :
      (p : Proxy) (src network : Text) (request : Msg) (cached : Option Msg)
      → policy_of (answer_cached lib w p src network request cached) ≡ policy_of p
  unfolding answer_cached ask_engine emit_query_event
  policy_of-answer_cached p src network request none =
      let asked = exchange w.engine p.pool network (some request) in
      policy_of-answer_exchange (record p { pool = asked.0 }) src request asked.1
  policy_of-answer_cached p src network request (some cached) = policy_of-publish_event _ _

  policy_of-answer_filtered :
      (p : Proxy) (src network : Text) (request : Msg)
      → policy_of (answer_filtered lib w p src network request) ≡ policy_of p
  unfolding answer_filtered emit_denied_event
  policy_of-answer_filtered p src network request =
      if_cases (λ q. policy_of q ≡ policy_of p)
        (not (allowed p.filter (normalize_domain (some request))))
        (λ _. policy_of-publish_event _ _)
        λ _. policy_of-answer_cached p src network request (get p.cache (some request) w.started)

  policy_of-answer_limited :
      (p : Proxy) (src network : Text) (request : Msg) (admitted : Bool)
      → policy_of (answer_limited lib w p src network request admitted) ≡ policy_of p
  unfolding answer_limited emit_query_event
  policy_of-answer_limited p src network request false = policy_of-publish_event _ _
  policy_of-answer_limited p src network request true =
      policy_of-answer_filtered p src network request

  pub policy_of-handle_query :
      (p : Proxy) (remote : Option RemoteAddr) (request : Msg)
      → policy_of (handle_query lib w p remote request) ≡ policy_of p
  unfolding handle_query
  policy_of-handle_query p remote request =
      let admission = allow_request p.limiter (source_ip remote) w.started in
      policy_of-answer_limited (record p { limiter = admission.0 }) (source_ip remote)
        (network_for_remote_addr remote) request admission.1
