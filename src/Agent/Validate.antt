-- ===== src/Agent/Validate.antt =====
-- cmd/agent/main.go: the configurations that the agent accepts. The proofs are in the modules below.
pub mod Accepts
mod Tests
use astradns_agent.Common.{
  ℕ, suc, ◌+◌, Bool, true, false, not, ◌&&◌, ◌||◌, ◌==◌, ltb, leb, Option, none, some, List, [],
  ◌∷◌, ◌++◌, Text, codes, text_eq, to_lower, trim_space, trim_suffix_dot, decimal, any, ℤ, pos,
  pos_part, not_positive, is_zero, if◌then◌else◌,
}
use astradns_agent.Types.{EngineTypes, Upstream, CacheConfig, EngineConfig}
use astradns_agent.Agent.Names.{is_valid_upstream_address, is_dns1123_subdomain}

-- The errors, with the index of the upstream or of the pattern.
pub data UpstreamError : Type 0 where
  address_spaces address_invalid transport_unknown port_range tls_name_unused tls_name_invalid
        weight_range preference_range duplicated :
      UpstreamError

pub data ConfigError : Type 0 where
  listen_addr_empty listen_port_range worker_threads_range dnssec_mode_unknown no_upstream :
      ConfigError
  of_upstream : ℕ → UpstreamError → ConfigError
  max_entries_range positive_ttl_min_range positive_ttl_max_range negative_ttl_range prefetch_range
        ttl_order :
      ConfigError
  empty_allow empty_deny : ℕ → ConfigError
  action_unknown : ConfigError

-- `value <= 0 || value > max`
abbrev pub out_of_range : ℤ → ℕ → Bool
out_of_range value max = not_positive value || ltb max (pos_part value)

-- `if bad { return error }`, before the rest.
unfoldable pub reject {ℓ} : {E : Type ℓ} → Bool → E → Option E → Option E
reject bad e rest = if bad then some e else rest

-- `for i, pattern := range patterns`, from an index on.
unfoldable pub reject_blank :
    (ℕ → ConfigError) → ℕ → List Text → Option ConfigError → Option ConfigError
reject_blank e i [] rest = rest
reject_blank e i (pattern ∷ patterns) rest =
    reject (text_eq (trim_space pattern) []) (e i) (reject_blank e (suc i) patterns rest)

abbrev pub no_upstreams : List Upstream → Bool
no_upstreams [] = true
no_upstreams (u ∷ upstreams) = false

module _ (t : EngineTypes) where
  -- `none` is `"", false`.
  unfoldable pub parse_upstream_transport : Text → Option Text
  parse_upstream_transport raw =
      let trimmed = to_lower (trim_space raw) in
      if text_eq trimmed [] || text_eq trimmed t.transport_dns
      then some t.transport_dns
      else if text_eq trimmed t.transport_dot
      then some t.transport_dot
      else if text_eq trimmed t.transport_doh
      then some t.transport_doh
      else none

  unfoldable pub default_port_for_transport : Text → ℕ
  default_port_for_transport transport =
      if text_eq transport t.transport_dot
      then 853
      else if text_eq transport t.transport_doh
      then 443
      else 53

  unfoldable pub is_supported_dnssec_mode : Text → Bool
  is_supported_dnssec_mode mode =
      let trimmed = to_lower (trim_space mode) in
      text_eq trimmed []
      || (text_eq trimmed t.dnssec_mode_off
          || (text_eq trimmed t.dnssec_mode_process || text_eq trimmed t.dnssec_mode_validate))

  -- `port` after its default.
  unfoldable pub effective_port : ℤ → Text → ℤ
  effective_port port transport =
      if is_zero port then pos (default_port_for_transport transport) else port

  -- `fmt.Sprintf("%s:%s:%d", transport, trimmedAddress, port)`, of a port in range.
  unfoldable pub upstream_key : Text → Text → ℕ → Text
  upstream_key transport address port =
      transport ++ (codes ":" ++ (address ++ (codes ":" ++ decimal port)))

  abbrev pub key_of_upstream : Upstream → Text → Text
  key_of_upstream u transport =
      upstream_key transport (trim_space u.address) (pos_part (effective_port u.port transport))

  -- One round of the loop from the transport on; `later` is the rest, given the key.
  unfoldable pub reject_of_transport :
      ℕ → List Text → Upstream → Option Text → (Text → Option ConfigError) → Option ConfigError
  reject_of_transport i seen u none later = some (of_upstream i transport_unknown)
  reject_of_transport i seen u (some transport) later =
      let tls_server_name = trim_space u.tls_server_name in
      let key = key_of_upstream u transport in
      reject (out_of_range (effective_port u.port transport) 65535) (of_upstream i port_range) (
        reject (text_eq transport t.transport_dns && not (text_eq tls_server_name []))
          (of_upstream i tls_name_unused)
          (reject
            (not (text_eq tls_server_name [])
              && not (is_dns1123_subdomain (trim_suffix_dot (to_lower tls_server_name))))
            (of_upstream i tls_name_invalid)
            (reject (out_of_range u.weight 100) (of_upstream i weight_range) (
              reject (out_of_range u.preference 1000) (of_upstream i preference_range)
                (reject (any (text_eq key) seen) (of_upstream i duplicated) (later key))))))

  -- The loop over the upstreams, from an index on; `seen` are the keys met before.
  unfoldable pub reject_upstreams :
      ℕ → List Text → List Upstream → Option ConfigError → Option ConfigError
  reject_upstreams i seen [] rest = rest
  reject_upstreams i seen (u ∷ upstreams) rest =
      let later : Text → Option ConfigError =
        λ key. reject_upstreams (suc i) (key ∷ seen) upstreams rest in
      reject (not (text_eq u.address (trim_space u.address))) (of_upstream i address_spaces) (
        reject (not (is_valid_upstream_address t.is_ip (trim_space u.address)))
          (of_upstream i address_invalid)
          (reject_of_transport i seen u (parse_upstream_transport u.transport) later))

  unfoldable pub reject_cache : CacheConfig → Option ConfigError → Option ConfigError
  reject_cache c rest = reject (not_positive c.max_entries) max_entries_range (
      reject (not_positive c.positive_ttl_min) positive_ttl_min_range (
        reject (not_positive c.positive_ttl_max) positive_ttl_max_range (
          reject (not_positive c.negative_ttl) negative_ttl_range (
            reject (not_positive c.prefetch_threshold) prefetch_range (
              reject (ltb (pos_part c.positive_ttl_max) (pos_part c.positive_ttl_min)) ttl_order
                rest)))))

  unfoldable pub reject_action : Text → Option ConfigError
  reject_action action =
      reject
        (not (text_eq action [])
          && (not (text_eq action t.action_refused) && not (text_eq action t.action_nxdomain)))
        action_unknown none

  -- `validateEngineConfig`: `none` is the nil error.
  unfoldable pub validate_engine_config : EngineConfig → Option ConfigError
  validate_engine_config cfg = reject (text_eq (trim_space cfg.listen_addr) []) listen_addr_empty (
      reject (out_of_range cfg.listen_port 65535) listen_port_range (
        reject (out_of_range cfg.worker_threads 256) worker_threads_range (
          reject (not (is_supported_dnssec_mode cfg.dnssec_mode)) dnssec_mode_unknown (
            reject (no_upstreams cfg.upstreams) no_upstream (
              reject_upstreams 0 [] cfg.upstreams (
                reject_cache cfg.cache (
                  reject_blank empty_allow 0 cfg.filter_allow (
                    reject_blank empty_deny 0 cfg.filter_deny
                      (reject_action cfg.filter_action)))))))))
