-- ===== src/Engines/Bind.antt =====
-- pkg/engine/bind: the configuration of its driver.
use astradns_agent.Common.{
  ℕ, ◌+◌, true, false, not, Option, none, some, List, [], ◌∷◌, codes, text_eq, map, ℤ,
  if◌then◌else◌,
}
use astradns_agent.Types.{EngineTypes, Upstream, EngineConfig}
use astradns_agent.Engines.{CompatError, transport_unsupported, Capabilities, Driver}
use astradns_agent.Engines.Normalize.{
  normalize_worker_threads, positive_or, normalize_upstream_transport, normalize_dnssec_mode,
  normalized_port,
}

module _ (t : EngineTypes) where
  unfoldable pub normalize_upstream : Upstream → Upstream
  normalize_upstream u =
      let transport = normalize_upstream_transport t u.transport in
      record {
        address = u.address;
        port = normalized_port t u.port transport;
        transport = transport;
        tls_server_name = if text_eq transport t.transport_dns then [] else u.tls_server_name;
        weight = positive_or u.weight 1;
        preference = positive_or u.preference 100;
      }

  unfoldable pub normalize_config : ℤ → EngineConfig → EngineConfig
  normalize_config cpus config = record config {
    worker_threads = normalize_worker_threads cpus config.worker_threads;
    dnssec_mode = normalize_dnssec_mode t config.dnssec_mode;
    upstreams = map normalize_upstream config.upstreams;
  }

  unfoldable pub check_upstreams : ℕ → List Upstream → Option CompatError
  check_upstreams i [] = none
  check_upstreams i (u ∷ upstreams) =
      let rest = check_upstreams (i + 1) upstreams in
      if not (text_eq u.transport t.transport_dns) then some (transport_unsupported i) else rest

  unfoldable pub validate_bind_compatibility : EngineConfig → Option CompatError
  validate_bind_compatibility config = check_upstreams 0 config.upstreams

  unfoldable pub bind_capabilities : Capabilities
  bind_capabilities = record {
    supports_hot_reload = true;
    supported_transports = t.transport_dns ∷ [];
    supported_dnssec_modes =
        t.dnssec_mode_off ∷ t.dnssec_mode_process ∷ t.dnssec_mode_validate ∷ [];
    supports_tls_server_name = false;
    supports_weighted_upstreams = false;
    supports_priority_upstreams = false;
  }

  unfoldable pub bind_driver : ℤ → Driver
  bind_driver cpus = record {
    file_name = codes "named.conf";
    normalize_config = normalize_config cpus;
    validate_compatibility = validate_bind_compatibility;
    capabilities = bind_capabilities;
    has_control = true;
  }
