-- ===== src/Engines/Drivers.antt =====
-- The drivers that the packages below pkg/engine register, one for each type of engine.
use astradns_agent.Common.{ℤ}
use astradns_agent.Types.{EngineTypes}
use astradns_agent.Engines.{Driver}
use astradns_agent.Engines.Unbound.{unbound_driver}
use astradns_agent.Engines.Bind.{bind_driver}
use astradns_agent.Engines.Powerdns.{powerdns_driver}
use astradns_agent.Engines.Coredns.{coredns_driver}

pub data EngineType : Type 0 where
  unbound bind powerdns coredns : EngineType

unfoldable pub driver_of : EngineTypes → ℤ → EngineType → Driver
driver_of t cpus unbound = unbound_driver t cpus
driver_of t cpus bind = bind_driver t cpus
driver_of t cpus powerdns = powerdns_driver t cpus
driver_of t cpus coredns = coredns_driver t cpus
