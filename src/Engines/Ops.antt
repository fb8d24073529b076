-- ===== src/Engines/Ops.antt =====
-- A driver with its process as the engine of the agent.
use astradns_agent.Common.{
  ℕ, ◌+◌, ◌≡◌, refl, Option, none, some, [], text_eq, text_eq_iff, arith, if◌then◌else◌, if_cases,
}
use astradns_agent.Types.{EngineConfig}
use astradns_agent.Agent.Reload.{EngineOps}
use astradns_agent.Engines.{Driver}
use astradns_agent.Engines.Process.{
  Host, Directory, EngineError, Process, Machine, configure, written, start, reload, stop,
}

-- A machine with the number of calls so far: the host of each call is given by its number.
pub record Hosted : Type 0 where
  pub machine : Machine
  pub calls : ℕ

abbrev pub counted : Hosted → Machine × Option EngineError → Hosted × Option EngineError
counted s (m, e) = (record { machine = m; calls = s.calls + 1 }, e)

-- The configuration of a driver that is configured.
abbrev pub configuration_of : Process → Option EngineConfig
configuration_of p = if text_eq p.config_path [] then none else some p.config

module _ (d : Driver) (dir : Directory) where
  configured-written :
      (h : Host) (cfg : EngineConfig) (m : Machine) (o : Option EngineError)
      → (written d dir h cfg m o).1 ≡ none
      → configuration_of (written d dir h cfg m o).0.process ≡ some cfg
  configured-written h cfg m (some e) = λ f. cc
  configured-written h cfg m none =
      if_cases Kept h.mkdir_error (λ _ f. cc)
        λ _.
          if_cases Kept h.write_error (λ _ f. cc)
            λ _ f.
              ground (arith, dir.join-ne-nil d.file_name, text_eq_iff (dir.join d.file_name) [])
    where
      Kept : Machine × Option EngineError → Type 0
      Kept r = r.1 ≡ none → configuration_of r.0.process ≡ some cfg

  pub configured-configure_lem :
      (h : Host) (cfg : EngineConfig) (m : Machine)
      → (configure d dir h cfg m).1 ≡ none
      → configuration_of (configure d dir h cfg m).0.process ≡ some (d.normalize_config cfg)
  unfolding configure
  configured-configure_lem h cfg m =
      if_cases
        (λ (r : Machine × Option EngineError).
          r.1 ≡ none → configuration_of r.0.process ≡ some (d.normalize_config cfg))
        h.ctx_over (λ _ f. cc) λ _. configured-written h (d.normalize_config cfg) m _

  pub reload-machine : (h : Host) (m : Machine) → (reload d dir h m).0 ≡ m
  unfolding reload
  reload-machine h m = ground arith

  -- `host` says what happens in each call.
  abbrev pub engine_ops : (ℕ → Host) → EngineOps Hosted EngineError
  engine_ops host = record {
    configure = λ cfg s. counted s (configure d dir (host s.calls) cfg s.machine);
    start = λ s. counted s (start (host s.calls) s.machine);
    reload = λ s. counted s (reload d dir (host s.calls) s.machine);
    stop = λ s. counted s (stop (host s.calls) s.machine);
    adapted = d.normalize_config;
    configured = λ s. configuration_of s.machine.process;
    configured-configure = λ cfg s f. configured-configure_lem (host s.calls) cfg s.machine f;
    configured-reload = λ s. rw (reload-machine (host s.calls) s.machine) refl;
  }
