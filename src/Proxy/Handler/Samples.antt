-- ===== src/Proxy/Handler/Samples.antt =====
-- Concrete settings, messages and networks, for the tests.
use astradns_agent.Common.{
  ℕ, ◌*◌, refl, true, false, Option, none, some, [], ◌∷◌, codes, second, if◌then◌else◌, pos,
}
use astradns_agent.Dns.{Msg, DnsLib}
use astradns_agent.Proxy.Cache.{ResponseCache}
use astradns_agent.Proxy.Pool.{Engine, new_engine_conn_pool}
use astradns_agent.Proxy.Server.{ProxyConfig, Proxy}
use astradns_agent.Proxy.Handler.{World, RemoteAddr}

abbrev pub dns_example : DnsLib
dns_example = record {
  set_rcode = λ q r. record {
    id = q.id;
    rcode = r;
    truncated = false;
    question = q.question;
    answer = [];
    ns = [];
    extra = [];
  };
  type_to_string = λ n. some (codes "A");
  rcode_to_string = λ n. some (codes "NOERROR");
  id-set_rcode = λ q r. refl;
  rcode-set_rcode = λ q r. refl;
}

abbrev pub config_example : ProxyConfig
config_example = record {
  limits = record {
    global_rate_limit_rps = pos 0;
    global_rate_limit_burst = pos 0;
    per_source_rate_limit_rps = pos 0;
    per_source_rate_limit_burst = pos 0;
    per_source_rate_limit_state_ttl = pos 0;
    per_source_rate_limit_max_sources = pos 0;
  };
  listen_addr = [];
  engine_addr = [];
  query_timeout = pos 0;
  engine_connection_pool_size = pos 0;
  event_chan_size = pos 0;
  cache_max_entries = pos 0;
  cache_default_ttl = pos 0;
  on_event_drop = true;
  domain_filter_allow = [];
  domain_filter_deny = codes "*.ads.com" ∷ [];
  domain_filter_deny_rcode = 0;
  fallback_upstreams = codes "9.9.9.9:53" ∷ [];
}

abbrev pub request_example : Msg
request_example = record {
  id = 7;
  rcode = 0;
  truncated = false;
  question = record { name = codes "a."; qtype = 1; qclass = 1 } ∷ [];
  answer = [];
  ns = [];
  extra = [];
}

abbrev pub again_example : Msg
again_example = record request_example { id = 8 }

abbrev pub response_example : Msg
response_example = record request_example { answer = record { header = some 60; body = 1 } ∷ [] }

-- An engine that answers, and one that cannot be reached.
abbrev pub answering : Engine
answering = record { dial = λ n. some 1; exchange_with_conn = λ c m. some (some response_example) }

abbrev pub broken : Engine
broken = record { dial = λ n. none; exchange_with_conn = λ c m. none }

abbrev pub at : Engine → ℕ → World
at engine now = record {
  started = now;
  finished = now;
  engine = engine;
  expired = true;
  exchange_context = λ late upstream m. if late then none else some (some response_example);
  expired_fails = λ upstream m. refl;
}

abbrev pub client : Option RemoteAddr
client = some (record { is_tcp = false; text = codes "10.0.0.1:4000" })

abbrev pub cache_example : ResponseCache
cache_example = record {
  entries = [];
  max_entries = 2;
  default_ttl = 30 * second;
  stale_ttl = 300 * second;
}

-- A proxy without a limiter and without a filter.
abbrev pub proxy_example : Proxy
proxy_example = record {
  config = config_example;
  events = [];
  events_closed = false;
  dropped = 0;
  drop_calls = 0;
  panicked = false;
  limiter = none;
  filter = none;
  filter_rcode = 5;
  fallbacks = codes "9.9.9.9:53" ∷ [];
  cache = some cache_example;
  pool = some (new_engine_conn_pool [] (pos 0) (pos 0));
  serving = true;
  stopped = false;
  written = [];
}
