-- ===== src/Engines/Unbound.antt =====
-- pkg/engine/unbound: the configuration of its driver.
use astradns_agent.Common.{
  ℕ, ◌+◌, Bool, true, false, not, ◌&&◌, ◌||◌, Option, none, some, List, [], ◌∷◌, codes, text_eq,
  map, ℤ, if◌then◌else◌,
}
use astradns_agent.Types.{EngineTypes, Upstream, EngineConfig}
use astradns_agent.Engines.{
  CompatError, transport_unsupported, mixed_transports, Capabilities, Driver,
}
use astradns_agent.Engines.Normalize.{
  normalize_worker_threads, positive_or, normalize_upstream_transport, normalize_dnssec_mode,
  normalized_port, normalized_tls_server_name,
}

module _ (t : EngineTypes) where
  unfoldable pub normalize_upstream : Upstream → Upstream
  normalize_upstream u =
      let transport = normalize_upstream_transport t u.transport in
      record {
        address = u.address;
        port = normalized_port t u.port transport;
        transport = transport;
        tls_server_name = normalized_tls_server_name t transport u.address u.tls_server_name;
        weight = positive_or u.weight 1;
        preference = positive_or u.preference 100;
      }

  unfoldable pub normalize_config : ℤ → EngineConfig → EngineConfig
  normalize_config cpus config = record config {
    worker_threads = normalize_worker_threads cpus config.worker_threads;
    dnssec_mode = normalize_dnssec_mode t config.dnssec_mode;
    upstreams = map normalize_upstream config.upstreams;
  }

  -- The loop over the upstreams, with the two flags, and the test after it.
  unfoldable pub check_upstreams : ℕ → Bool → Bool → List Upstream → Option CompatError
  check_upstreams i has_plain_dns has_dot [] =
      if has_plain_dns && has_dot then some mixed_transports else none
  check_upstreams i has_plain_dns has_dot (u ∷ upstreams) =
      let is_dot = text_eq u.transport t.transport_dot in
      let rest =
        check_upstreams (i + 1) (has_plain_dns || not is_dot) (has_dot || is_dot) upstreams in
      if text_eq u.transport t.transport_doh then some (transport_unsupported i) else rest

  unfoldable pub validate_unbound_compatibility : EngineConfig → Option CompatError
  validate_unbound_compatibility config = check_upstreams 0 false false config.upstreams

  unfoldable pub unbound_capabilities : Capabilities
  unbound_capabilities = record {
    supports_hot_reload = true;
    supported_transports = t.transport_dns ∷ t.transport_dot ∷ [];
    supported_dnssec_modes =
        t.dnssec_mode_off ∷ t.dnssec_mode_process ∷ t.dnssec_mode_validate ∷ [];
    supports_tls_server_name = true;
    supports_weighted_upstreams = true;
    supports_priority_upstreams = true;
  }

  unfoldable pub unbound_driver : ℤ → Driver
  unbound_driver cpus = record {
    file_name = codes "unbound.conf";
    normalize_config = normalize_config cpus;
    validate_compatibility = validate_unbound_compatibility;
    capabilities = unbound_capabilities;
    has_control = true;
  }
