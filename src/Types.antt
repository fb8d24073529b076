-- ===== src/Types.antt =====
-- The part of github.com/astradns/astradns-types that the agent uses: the texts of the constants of
-- its package engine, as a parameter, and the fields of `EngineConfig` that the agent reads or sets.
pub mod Samples
use astradns_agent.Common.{ℕ, ◌≡◌, ◌≢◌, Bool, Option, List, [], Text, to_lower, trim_space, ℤ}

-- The names of the transports in the package engine of astradns-types, which are written in lower
-- case, differ and are not empty.
pub record Transports : Type 0 where
  pub transport_dns : Text
  pub transport_dot : Text
  pub transport_doh : Text
  pub dot-ne-doh : transport_dot ≢ transport_doh
  pub dns-ne-dot : transport_dns ≢ transport_dot
  pub dns-ne-doh : transport_dns ≢ transport_doh
  pub dot-ne-nil : transport_dot ≢ []
  pub doh-ne-nil : transport_doh ≢ []
  pub dns_plain : to_lower (trim_space transport_dns) ≡ transport_dns
  pub dot_plain : to_lower (trim_space transport_dot) ≡ transport_dot
  pub doh_plain : to_lower (trim_space transport_doh) ≡ transport_doh

-- All the constants, the modes and transports each different and written in lower case, and whether
-- `netip.ParseAddr` accepts a text.
pub record EngineTypes : Type 0 where
  pub transports : Transports
  pub open transports use *
  pub dnssec_mode_off : Text
  pub dnssec_mode_process : Text
  pub dnssec_mode_validate : Text
  pub action_refused : Text
  pub action_nxdomain : Text
  pub is_ip : Text → Bool
  pub off_plain : to_lower (trim_space dnssec_mode_off) ≡ dnssec_mode_off
  pub off-ne-nil : dnssec_mode_off ≢ []

pub record Upstream : Type 0 where
  pub address : Text
  pub port : ℤ
  pub transport : Text
  pub tls_server_name : Text
  pub weight : ℤ
  pub preference : ℤ

pub record CacheConfig : Type 0 where
  pub max_entries : ℤ
  pub positive_ttl_min : ℤ
  pub positive_ttl_max : ℤ
  pub negative_ttl : ℤ
  pub prefetch_enabled : Bool
  pub prefetch_threshold : ℤ

pub record EngineConfig : Type 0 where
  pub listen_addr : Text
  pub listen_port : ℤ
  pub worker_threads : ℤ
  pub dnssec_mode : Text
  pub upstreams : List Upstream
  pub cache : CacheConfig
  pub filter_allow : List Text
  pub filter_deny : List Text
  pub filter_action : Text
