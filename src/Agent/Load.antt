-- ===== src/Agent/Load.antt =====
-- cmd/agent/main.go: the configuration that is read from a file, what is filled in, and what the
-- health checker and the proxy are given of it. The proofs are in the module below.
pub mod Filled
pub mod Normal
use astradns_agent.Common.{
  ℕ, ◌+◌, Bool, true, false, not, ◌&&◌, ◌||◌, ◌==◌, ltb, leb, Option, none, some, is_some, List, [],
  ◌∷◌, ◌++◌, Text, codes, text_eq, to_lower, trim_space, trim_suffix_dot, decimal, map, ℤ, pos,
  negsuc, pos_part, not_positive, is_zero, to_int32, if◌then◌else◌,
}
use astradns_agent.Common.Net.{net_split_host_port, atoi}
use astradns_agent.Types.{EngineTypes, Upstream, CacheConfig, EngineConfig}
use astradns_agent.Agent.Names.{is_dns1123_subdomain}
use astradns_agent.Agent.Validate.{
  parse_upstream_transport, default_port_for_transport, is_supported_dnssec_mode, no_upstreams,
}
use astradns_agent.Health.{UpstreamTarget}

-- What reading the file yields: the two errors, and a parsed value.
pub data FileRead : Type 0 where
  not_exist read_error json_error : FileRead
  parsed : EngineConfig → FileRead

abbrev pub port_or : Text → ℤ → Text → Option ℤ → Text × ℤ
port_or default_host default_port host none = (default_host, default_port)
port_or default_host default_port host (some port) =
    (if text_eq host [] then default_host else host, port)

abbrev pub host_port_or : Text → ℤ → Option (Text × Text) → Text × ℤ
host_port_or default_host default_port none = (default_host, default_port)
host_port_or default_host default_port (some (host, port_text)) =
    port_or default_host default_port host (atoi port_text)

unfoldable pub split_host_port : Text → Text → ℤ → Text × ℤ
split_host_port addr default_host default_port =
    host_port_or default_host default_port (net_split_host_port addr)

-- `cpus` is `runtime.NumCPU()`.
unfoldable pub resolve_default_worker_threads : ℤ → ℤ
resolve_default_worker_threads cpus =
    let auto = to_int32 cpus in
    if not_positive auto then pos 2 else if ltb 256 (pos_part auto) then pos 256 else auto

-- `z == 0` gives way to a default.
abbrev pub nonzero_or : ℤ → ℤ → ℤ
nonzero_or z default = if is_zero z then default else z

abbrev pub default_cache : CacheConfig
default_cache = record {
  max_entries = pos 10000;
  positive_ttl_min = pos 30;
  positive_ttl_max = pos 300;
  negative_ttl = pos 30;
  prefetch_enabled = true;
  prefetch_threshold = pos 10;
}

module _ (t : EngineTypes) where
  unfoldable pub default_engine_config : ℤ → Text → EngineConfig
  default_engine_config cpus engine_addr =
      let (host, port) = split_host_port engine_addr (codes "127.0.0.1") (pos 5354) in
      record {
        listen_addr = host;
        listen_port = to_int32 port;
        worker_threads = resolve_default_worker_threads cpus;
        dnssec_mode = t.dnssec_mode_off;
        upstreams =
            record {
              address = codes "1.1.1.1";
              port = pos 53;
              transport = t.transport_dns;
              tls_server_name = [];
              weight = pos 1;
              preference = pos 100;
            }
            ∷ [];
        cache = default_cache;
        filter_allow = [];
        filter_deny = [];
        filter_action = [];
      }

  unfoldable pub default_tls_server_name : Text → Text
  default_tls_server_name address =
      let trimmed = trim_suffix_dot (trim_space address) in
      if text_eq trimmed []
      then []
      else if t.is_ip trimmed
      then []
      else if not (is_dns1123_subdomain (to_lower trimmed))
      then []
      else trimmed

  abbrev pub transport_or_dns : Option Text → Text
  transport_or_dns none = t.transport_dns
  transport_or_dns (some transport) = transport

  unfoldable pub filled_tls_server_name : Text → Text → Text → Text
  filled_tls_server_name transport address tls_server_name =
      let trimmed = trim_space tls_server_name in
      if text_eq transport t.transport_dns
      then []
      else if text_eq trimmed []
      then default_tls_server_name address
      else trimmed

  -- The loop over the upstreams.
  unfoldable pub filled_upstream : Upstream → Upstream
  filled_upstream u =
      let transport = transport_or_dns (parse_upstream_transport t u.transport) in
      record {
        address = u.address;
        port = nonzero_or u.port (pos (default_port_for_transport t transport));
        transport = transport;
        tls_server_name = filled_tls_server_name transport u.address u.tls_server_name;
        weight = nonzero_or u.weight (pos 1);
        preference = nonzero_or u.preference (pos 100);
      }

  unfoldable pub filled_cache : CacheConfig → CacheConfig → CacheConfig
  filled_cache defaults c = if is_zero c.max_entries then defaults else record c {
    positive_ttl_min = nonzero_or c.positive_ttl_min defaults.positive_ttl_min;
    positive_ttl_max = nonzero_or c.positive_ttl_max defaults.positive_ttl_max;
    negative_ttl = nonzero_or c.negative_ttl defaults.negative_ttl;
    prefetch_threshold = nonzero_or c.prefetch_threshold defaults.prefetch_threshold;
  }

  abbrev pub capped_threads : ℤ → ℤ
  capped_threads z = if ltb 256 (pos_part z) then pos 256 else z

  unfoldable pub filled_config : EngineConfig → EngineConfig → EngineConfig
  filled_config defaults cfg = record {
    listen_addr = if text_eq cfg.listen_addr [] then defaults.listen_addr else cfg.listen_addr;
    listen_port = nonzero_or cfg.listen_port defaults.listen_port;
    worker_threads = capped_threads (nonzero_or cfg.worker_threads defaults.worker_threads);
    dnssec_mode =
        if not (is_supported_dnssec_mode t cfg.dnssec_mode)
          || text_eq (trim_space cfg.dnssec_mode) []
        then defaults.dnssec_mode
        else cfg.dnssec_mode;
    upstreams =
        map filled_upstream
          (if no_upstreams cfg.upstreams then defaults.upstreams else cfg.upstreams);
    cache = filled_cache defaults.cache cfg.cache;
    filter_allow = cfg.filter_allow;
    filter_deny = cfg.filter_deny;
    filter_action = cfg.filter_action;
  }

  -- `loadEngineConfig`: `none` is an error.
  unfoldable pub load_engine_config : ℤ → Text → FileRead → Option EngineConfig
  load_engine_config cpus engine_addr not_exist = some (default_engine_config cpus engine_addr)
  load_engine_config cpus engine_addr read_error = none
  load_engine_config cpus engine_addr json_error = none
  load_engine_config cpus engine_addr (parsed cfg) =
      some (filled_config (default_engine_config cpus engine_addr) cfg)

  -- A port of an accepted configuration is not negative.
  abbrev pub target_of : Upstream → UpstreamTarget
  target_of u = record {
    address = u.address;
    port = pos_part u.port;
    transport = u.transport;
    tls_server_name = u.tls_server_name;
  }

  unfoldable pub upstream_targets_from_config : EngineConfig → List UpstreamTarget
  upstream_targets_from_config cfg = map target_of cfg.upstreams

  -- `fmt.Sprintf("%d", z)`
  abbrev pub signed_decimal : ℤ → Text
  signed_decimal (pos n) = decimal n
  signed_decimal (negsuc n) = codes "-" ++ decimal (n + 1)

  unfoldable pub fallback_addresses : List Upstream → List Text
  fallback_addresses [] = []
  fallback_addresses (u ∷ upstreams) =
      let rest = fallback_addresses upstreams in
      let port = nonzero_or u.port (pos 53) in
      if not (text_eq u.transport t.transport_dns)
      then rest
      else (u.address ++ (codes ":" ++ signed_decimal port)) ∷ rest

  unfoldable pub fallback_upstreams_from_config : EngineConfig → List Text
  fallback_upstreams_from_config cfg = fallback_addresses cfg.upstreams

  -- What the proxy is given of the action.
  abbrev pub filter_rcode_of : EngineConfig → ℕ
  filter_rcode_of cfg = if text_eq cfg.filter_action t.action_nxdomain then 3 else 5
