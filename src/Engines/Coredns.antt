-- ===== src/Engines/Coredns.antt =====
-- pkg/engine/coredns: the configuration of its driver.
use astradns_agent.Common.{
  ℕ, ◌+◌, true, false, not, ◌||◌, ltb, Option, none, some, List, [], ◌∷◌, Text, codes, text_eq, any,
  map, length, ℤ, if◌then◌else◌,
}
use astradns_agent.Types.{EngineTypes, Upstream, EngineConfig}
use astradns_agent.Engines.{
  CompatError, transport_unsupported, dnssec_unsupported, several_tls_server_names, Capabilities,
  Driver,
}
use astradns_agent.Engines.Normalize.{
  normalize_worker_threads, positive_or, normalize_upstream_transport, normalize_dnssec_mode,
  normalized_port, normalized_tls_server_name,
}

module _ (t : EngineTypes) where
  unfoldable pub normalize_upstream : Upstream → Upstream
  normalize_upstream u =
      let transport = normalize_upstream_transport t u.transport in
      record {
        address = u.address;
        port = normalized_port t u.port transport;
        transport = transport;
        tls_server_name = normalized_tls_server_name t transport u.address u.tls_server_name;
        weight = positive_or u.weight 1;
        preference = positive_or u.preference 100;
      }

  unfoldable pub normalize_config : ℤ → EngineConfig → EngineConfig
  normalize_config cpus config = record config {
    worker_threads = normalize_worker_threads cpus config.worker_threads;
    dnssec_mode = normalize_dnssec_mode t config.dnssec_mode;
    upstreams = map normalize_upstream config.upstreams;
  }

  -- The set of server names is the list of its elements, each once.
  abbrev pub added_name : Upstream → List Text → List Text
  added_name u seen =
      if text_eq u.transport t.transport_dns
      then seen
      else if text_eq u.tls_server_name []
      then seen
      else if any (text_eq u.tls_server_name) seen
      then seen
      else u.tls_server_name ∷ seen

  unfoldable pub check_upstreams : ℕ → List Text → List Upstream → Option CompatError
  check_upstreams i seen [] = if ltb 1 (length seen) then some several_tls_server_names else none
  check_upstreams i seen (u ∷ upstreams) =
      let rest = check_upstreams (i + 1) (added_name u seen) upstreams in
      if text_eq u.transport t.transport_dns
        || (text_eq u.transport t.transport_dot || text_eq u.transport t.transport_doh)
      then rest
      else some (transport_unsupported i)

  unfoldable pub validate_coredns_compatibility : EngineConfig → Option CompatError
  validate_coredns_compatibility config =
      if not (text_eq config.dnssec_mode t.dnssec_mode_off)
      then some dnssec_unsupported
      else check_upstreams 0 [] config.upstreams

  unfoldable pub coredns_capabilities : Capabilities
  coredns_capabilities = record {
    supports_hot_reload = true;
    supported_transports = t.transport_dns ∷ t.transport_dot ∷ t.transport_doh ∷ [];
    supported_dnssec_modes = t.dnssec_mode_off ∷ [];
    supports_tls_server_name = true;
    supports_weighted_upstreams = true;
    supports_priority_upstreams = true;
  }

  unfoldable pub coredns_driver : ℤ → Driver
  coredns_driver cpus = record {
    file_name = codes "Corefile";
    normalize_config = normalize_config cpus;
    validate_compatibility = validate_coredns_compatibility;
    capabilities = coredns_capabilities;
    has_control = false;
  }
