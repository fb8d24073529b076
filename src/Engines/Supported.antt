-- ===== src/Engines/Supported.antt =====
-- A driver takes up a configuration only within what it advertises.
use astradns_agent.Common.{◌≡◌, true, Option, none, List, Text, All, any, text_eq, ℤ}
use astradns_agent.Types.{EngineTypes, Upstream, EngineConfig}
use astradns_agent.Engines.{Capabilities}
use astradns_agent.Engines.Unbound
use astradns_agent.Engines.Bind
use astradns_agent.Engines.Powerdns
use astradns_agent.Engines.Coredns
use astradns_agent.Engines.Drivers.{EngineType, driver_of}
use astradns_agent.Engines.Normal.{IsNormalConfig}
use astradns_agent.Engines.Process.{Directory, EngineError, Machine}

abbrev pub IsListed : List Text → Text → Type 0
IsListed texts s = any (text_eq s) texts ≡ true

-- The mode and each transport are listed.
pub record IsSupported (c : Capabilities) (cfg : EngineConfig) : Type 0 where
  pub dnssec : IsListed c.supported_dnssec_modes cfg.dnssec_mode
  pub transports : All (λ (u : Upstream). IsListed c.supported_transports u.transport) cfg.upstreams

module _ (t : EngineTypes) (cpus : ℤ) (e : EngineType) (dir : Directory) where
  -- The configuration `cfg`, normalised, as the driver supports it.
  pub record IsTakenUp (cfg kept : EngineConfig) : Type 0 where
    pub normalized : kept ≡ (driver_of t cpus e).normalize_config cfg
    pub normal : IsNormalConfig t kept
    pub supported : IsSupported (driver_of t cpus e).capabilities kept

  abbrev Supports : EngineConfig → Machine × Option EngineError → Type 0
  Supports cfg r = r.1 ≡ none → IsTakenUp cfg r.0.process.config
