-- ===== src/Proxy/Handler.antt =====
-- pkg/proxy/proxy.go: a query, from its arrival to the event that reports it. The handler is one
-- step; how the calls of several handlers on the shared parts interleave is the subject of those
-- parts. The proofs are in the modules below.
mod Counts
pub mod Keeps
pub mod Policies
mod Answers
mod Faults
pub mod Samples
mod Tests
use astradns_agent.Common.{
  ℕ, ◌+◌, ◌-◌, ◌/◌, ◌≡◌, Bool, true, false, not, ltb, Option, none, some, List, [], ◌∷◌, ◌++◌, Text,
  codes, length, pos_part, microsecond, if◌then◌else◌,
}
use astradns_agent.Common.Net.{net_split_host_port}
use astradns_agent.Dns.{Msg, DnsLib, rcode_refused, rcode_server_failure}
use astradns_agent.Proxy.Message.{normalize_domain, query_type, response_code}
use astradns_agent.Proxy.Filter.{allowed, denied_upstream_label}
use astradns_agent.Proxy.Cache.{get, get_stale, store}
use astradns_agent.Proxy.Limiter.{allow_request}
use astradns_agent.Proxy.Pool.{EngineConnPool, Engine, Result, ok, err, exchange}
use astradns_agent.Proxy.Server.{
  QueryEvent, Proxy, rate_limit_overflow_upstream, cache_hit_upstream_label,
  cache_stale_upstream_label, fallback_upstream_label,
}

-- A `net.Addr`: its text, and whether it is a `*net.TCPAddr`.
pub record RemoteAddr : Type 0 where
  pub is_tcp : Bool
  pub text : Text

-- What surrounds a query: the clock when it arrives and when its event is made, the engine, and the
-- client that asks the fallback upstreams. `expired` says whether the time of the exchange has run
-- out when the engine's part of it is over; such a client then fails.
pub record World : Type 0 where
  pub started : ℕ
  pub finished : ℕ
  pub engine : Engine
  pub expired : Bool
  pub exchange_context : Bool → Text → Msg → Option (Option Msg)
  pub expired_fails : (upstream : Text) (m : Msg) → exchange_context true upstream m ≡ none

abbrev pub host_or : Text → Option (Text × Text) → Text
host_or text none = text
host_or text (some (host, port)) = host

-- `sourceIP`
unfoldable pub source_ip : Option RemoteAddr → Text
source_ip none = []
source_ip (some remote) = host_or remote.text (net_split_host_port remote.text)

unfoldable pub network_for_remote_addr : Option RemoteAddr → Text
network_for_remote_addr none = codes "udp"
network_for_remote_addr (some remote) = if remote.is_tcp then codes "tcp" else codes "udp"

-- `publishEvent`: `p.events <- event`, where the channel has room. A send to a closed channel
-- panics, also in a `select` with a `default`.
unfoldable pub publish_event : Proxy → QueryEvent → Proxy
publish_event p event =
    if p.events_closed
    then record p { panicked = true }
    else if ltb (length p.events) (pos_part p.config.event_chan_size)
    then record p { events = p.events ++ event ∷ [] }
    else record p {
      dropped = p.dropped + 1;
      drop_calls = if p.config.on_event_drop then p.drop_calls + 1 else p.drop_calls;
    }

-- `_ = w.WriteMsg(response)`
abbrev pub write_msg : Proxy → Msg → Proxy
write_msg p response = record p { written = response ∷ p.written }

module _ (lib : DnsLib) (w : World) where
  unfoldable pub event_of : Text → Msg → Msg → Text → Bool → Bool → Bool → QueryEvent
  event_of src request response upstream cache_hit_known cache_hit denied = record {
    timestamp = w.started;
    source_ip = src;
    domain = normalize_domain (some request);
    query_type = query_type lib (some request);
    response_code = response_code lib (some response);
    upstream = upstream;
    latency = (w.finished - w.started) / microsecond;
    cache_hit_known = cache_hit_known;
    cache_hit = cache_hit;
    denied = denied;
  }

  unfoldable pub emit_query_event : Proxy → Text → Msg → Msg → Text → Bool → Bool → Proxy
  emit_query_event p src request response upstream cache_hit_known cache_hit =
      publish_event p (event_of src request response upstream cache_hit_known cache_hit false)

  unfoldable pub emit_denied_event : Proxy → Text → Msg → Msg → Proxy
  emit_denied_event p src request response =
      publish_event p (event_of src request response denied_upstream_label false false true)

  -- The loop of `tryFallbackUpstreams`: the first upstream that answers.
  unfoldable pub try_fallback_upstreams : List Text → Msg → Option Msg
  try_fallback_upstreams [] request = none
  try_fallback_upstreams (upstream ∷ upstreams) request =
      let rest = try_fallback_upstreams upstreams request in
      elim (w.exchange_context w.expired upstream request) [
        | none ↦ rest
        | some none ↦ rest
        | some (some response) ↦ some response
      ]

  -- The end of `handleQuery`, with the engine's response or `SERVFAIL`.
  unfoldable pub answer_engine : Proxy → Text → Msg → Msg → Proxy
  answer_engine p src request response =
      let stored : Proxy = record p {
        cache = store p.cache (some request) (some response) w.started;
      } in
      emit_query_event (write_msg stored response) src request response p.config.engine_addr true
        false

  -- The fallback upstreams, or `SERVFAIL`.
  unfoldable pub answer_fallback : Proxy → Text → Msg → Option Msg → Proxy
  answer_fallback p src request none =
      answer_engine p src request (lib.set_rcode request rcode_server_failure)
  answer_fallback p src request (some response) =
      let stored : Proxy = record p {
        cache = store p.cache (some request) (some response) w.started;
      } in
      emit_query_event (write_msg stored response) src request response fallback_upstream_label true
        false

  unfoldable pub answer_stale : Proxy → Text → Msg → Option Msg → Proxy
  answer_stale p src request none =
      answer_fallback p src request (try_fallback_upstreams p.fallbacks request)
  answer_stale p src request (some stale) =
      emit_query_event (write_msg p stale) src request stale cache_stale_upstream_label true true

  -- `if err != nil || response == nil`
  unfoldable pub answer_exchange : Proxy → Text → Msg → Result (Option Msg) → Proxy
  answer_exchange p src request (ok (some response)) = answer_engine p src request response
  answer_exchange p src request (ok none) =
      answer_stale p src request (get_stale p.cache (some request) w.started)
  answer_exchange p src request (err e) =
      answer_stale p src request (get_stale p.cache (some request) w.started)

  unfoldable pub ask_engine : Proxy → Text → Text → Msg → Proxy
  ask_engine p src network request =
      let (pool, result) = exchange w.engine p.pool network (some request) in
      answer_exchange (record p { pool = pool }) src request result

  unfoldable pub answer_cached : Proxy → Text → Text → Msg → Option Msg → Proxy
  answer_cached p src network request none = ask_engine p src network request
  answer_cached p src network request (some cached) =
      emit_query_event (write_msg p cached) src request cached cache_hit_upstream_label true true

  unfoldable pub answer_filtered : Proxy → Text → Text → Msg → Proxy
  answer_filtered p src network request =
      if not (allowed p.filter (normalize_domain (some request)))
      then (let response = lib.set_rcode request p.filter_rcode in
          emit_denied_event (write_msg p response) src request response)
      else answer_cached p src network request (get p.cache (some request) w.started)

  unfoldable pub answer_limited : Proxy → Text → Text → Msg → Bool → Proxy
  answer_limited p src network request false =
      let response = lib.set_rcode request rcode_refused in
      emit_query_event (write_msg p response) src request response rate_limit_overflow_upstream
        false false
  answer_limited p src network request true = answer_filtered p src network request

  -- `handleQuery`
  unfoldable pub handle_query : Proxy → Option RemoteAddr → Msg → Proxy
  handle_query p remote request =
      let src = source_ip remote in
      let (limiter, admitted) = allow_request p.limiter src w.started in
      answer_limited (record p { limiter = limiter }) src (network_for_remote_addr remote) request
        admitted
