-- ===== src/Proxy/Server.antt =====
-- pkg/proxy/types.go, and of pkg/proxy/proxy.go the configuration, the state of the proxy, and the
-- operations on it that are not part of a query.
--
-- A rate is in millionths of a request in a second, as in the limiter. The event channel is the
-- list of its events, the first to be received first. The two servers are one flag.
use astradns_agent.Common.{
  ℕ, ◌*◌, Bool, true, false, ◌==◌, Option, none, some, List, [], Text, codes, text_eq, ℤ, pos,
  not_positive, second, minute, if◌then◌else◌,
}
use astradns_agent.Dns.{Msg, rcode_refused}
use astradns_agent.Proxy.Filter.{DomainFilter, new_domain_filter}
use astradns_agent.Proxy.Cache.{ResponseCache, new_response_cache}
use astradns_agent.Proxy.Limiter.{RequestLimiter, LimiterConfig, new_request_limiter}
use astradns_agent.Proxy.Pool.{EngineConnPool, new_engine_conn_pool, close}

-- Times in nanoseconds, the latency in microseconds.
pub record QueryEvent : Type 0 where
  pub timestamp : ℕ
  pub source_ip : Text
  pub domain : Text
  pub query_type : Text
  pub response_code : Text
  pub upstream : Text
  pub latency : ℕ
  pub cache_hit_known : Bool
  pub cache_hit : Bool
  pub denied : Bool

-- `on_event_drop` says whether the callback is set.
pub record ProxyConfig : Type 0 where
  pub limits : LimiterConfig
  pub open limits use *
  pub listen_addr : Text
  pub engine_addr : Text
  pub query_timeout : ℤ
  pub engine_connection_pool_size : ℤ
  pub event_chan_size : ℤ
  pub cache_max_entries : ℤ
  pub cache_default_ttl : ℤ
  pub on_event_drop : Bool
  pub domain_filter_allow : List Text
  pub domain_filter_deny : List Text
  pub domain_filter_deny_rcode : ℕ
  pub fallback_upstreams : List Text

abbrev pub rate_limit_overflow_upstream : Text
rate_limit_overflow_upstream = codes "rate-limit"

abbrev pub cache_hit_upstream_label : Text
cache_hit_upstream_label = codes "proxy-cache"

abbrev pub cache_stale_upstream_label : Text
cache_stale_upstream_label = codes "proxy-cache-stale"

abbrev pub fallback_upstream_label : Text
fallback_upstream_label = codes "fallback-direct"

-- `written` are the responses that were sent to clients, the last first, and `drop_calls` counts
-- the calls of `OnEventDrop`. `panicked` says that a handler has sent to the closed event channel,
-- which ends the program; nothing comes after that.
pub record Proxy : Type 0 where
  pub config : ProxyConfig
  pub events : List QueryEvent
  pub events_closed : Bool
  pub dropped : ℕ
  pub drop_calls : ℕ
  pub limiter : Option RequestLimiter
  pub filter : Option DomainFilter
  pub filter_rcode : ℕ
  pub fallbacks : List Text
  pub cache : Option ResponseCache
  pub pool : Option EngineConnPool
  pub serving : Bool
  pub stopped : Bool
  pub written : List Msg
  pub panicked : Bool

abbrev pub or_default : ℤ → ℕ → ℤ
or_default value default = if not_positive value then pos default else value

abbrev pub or_text : Text → Text → Text
or_text value default = if text_eq value [] then default else value

abbrev pub or_refused : ℕ → ℕ
or_refused rcode = if rcode == 0 then rcode_refused else rcode

unfoldable pub with_default_limits : LimiterConfig → LimiterConfig
with_default_limits c = record {
  global_rate_limit_rps = or_default c.global_rate_limit_rps 2000000000;
  global_rate_limit_burst = or_default c.global_rate_limit_burst 4000;
  per_source_rate_limit_rps = or_default c.per_source_rate_limit_rps 200000000;
  per_source_rate_limit_burst = or_default c.per_source_rate_limit_burst 400;
  per_source_rate_limit_state_ttl = or_default c.per_source_rate_limit_state_ttl (5 * minute);
  per_source_rate_limit_max_sources = or_default c.per_source_rate_limit_max_sources 10000;
}

unfoldable pub with_defaults : ProxyConfig → ProxyConfig
with_defaults c = record {
  limits = with_default_limits c.limits;
  listen_addr = or_text c.listen_addr (codes "0.0.0.0:5353");
  engine_addr = or_text c.engine_addr (codes "127.0.0.1:5354");
  query_timeout = or_default c.query_timeout (2 * second);
  engine_connection_pool_size = or_default c.engine_connection_pool_size 64;
  event_chan_size = or_default c.event_chan_size 10000;
  cache_max_entries = or_default c.cache_max_entries 10000;
  cache_default_ttl = or_default c.cache_default_ttl (30 * second);
  on_event_drop = c.on_event_drop;
  domain_filter_allow = c.domain_filter_allow;
  domain_filter_deny = c.domain_filter_deny;
  domain_filter_deny_rcode = c.domain_filter_deny_rcode;
  fallback_upstreams = c.fallback_upstreams;
}

-- `New`; `now` is the time at which the limiter is made.
unfoldable pub new_proxy : ProxyConfig → ℕ → Proxy
new_proxy given now =
    let config = with_defaults given in
    record {
      config = config;
      events = [];
      events_closed = false;
      dropped = 0;
      drop_calls = 0;
      limiter = new_request_limiter config.limits now;
      filter = new_domain_filter config.domain_filter_allow config.domain_filter_deny;
      filter_rcode = or_refused config.domain_filter_deny_rcode;
      fallbacks = config.fallback_upstreams;
      cache = new_response_cache config.cache_max_entries config.cache_default_ttl;
      pool = some (
          new_engine_conn_pool config.engine_addr config.query_timeout
            config.engine_connection_pool_size);
      serving = false;
      stopped = false;
      written = [];
      panicked = false;
    }

unfoldable pub update_filter : Proxy → List Text → List Text → ℕ → Proxy
update_filter p allow deny rcode = record p {
  filter = new_domain_filter allow deny;
  filter_rcode = or_refused rcode;
}

unfoldable pub update_fallback_upstreams : Proxy → List Text → Proxy
update_fallback_upstreams p upstreams = record p { fallbacks = upstreams }

-- The part of `Start` under the lock: `none` is the error "proxy already started".
unfoldable pub start : Proxy → Option Proxy
start p = if p.serving then none else some (record p { serving = true })

abbrev pub close_pool : Option EngineConnPool → Option EngineConnPool
close_pool none = none
close_pool (some pool) = some (close pool)

-- `Stop`, after the handlers in flight have ended.
unfoldable pub stop : Proxy → Proxy
stop p = if p.stopped then p else record p {
  serving = false;
  pool = close_pool p.pool;
  events_closed = true;
  stopped = true;
}
