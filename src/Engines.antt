-- ===== src/Engines.antt =====
-- pkg/engine: the drivers of the four resolvers, each in a module below, with what they share: the
-- normalisation of a configuration in Engines/Normalize and the subprocess in Engines/Process. The
-- proofs are in the other modules.
mod Tests
pub mod Normalize
pub mod Unbound
pub mod Bind
pub mod Powerdns
pub mod Coredns
pub mod Drivers
pub mod Process
pub mod Normal
pub mod Supported
pub mod Single
pub mod Status
pub mod Ops
pub mod Samples
pub mod LineWriter
use astradns_agent.Common.{ℕ, Bool, Option, List, Text}
use astradns_agent.Types.{EngineTypes, EngineConfig}

-- Why a driver refuses a configuration; the index is that of the upstream.
pub data CompatError : Type 0 where
  transport_unsupported : ℕ → CompatError
  mixed_transports dnssec_unsupported several_tls_server_names : CompatError

pub record Capabilities : Type 0 where
  pub supports_hot_reload : Bool
  pub supported_transports : List Text
  pub supported_dnssec_modes : List Text
  pub supports_tls_server_name : Bool
  pub supports_weighted_upstreams : Bool
  pub supports_priority_upstreams : Bool

-- What a driver adds to the subprocess. `has_control` says whether its reload runs a command.
pub record Driver : Type 0 where
  pub file_name : Text
  pub normalize_config : EngineConfig → EngineConfig
  pub validate_compatibility : EngineConfig → Option CompatError
  pub capabilities : Capabilities
  pub has_control : Bool
