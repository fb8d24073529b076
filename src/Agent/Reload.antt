-- ===== src/Agent/Reload.antt =====
-- cmd/agent/main.go: how the agent starts with a configuration, and how it takes up a new one: the
-- function that is given to the watcher, with its rollback. The proofs are in the modules below.
pub mod Outcomes
pub mod InStep
pub mod Follows
mod Tests
use astradns_agent.Common.{
  ℕ, ◌+◌, ◌≡◌, Bool, true, false, Option, none, some, List, [], ◌∷◌, Text, ℤ, pos, if◌then◌else◌,
}
use astradns_agent.Types.{EngineTypes, EngineConfig}
use astradns_agent.Health.{CheckerConfig, Metrics, Checker, Probes}
use astradns_agent.Health.Labels.{new_checker, update_upstreams}
use astradns_agent.Health.Passes.{check_all}
use astradns_agent.Proxy.Server.{
  ProxyConfig, Proxy, new_proxy, update_filter, update_fallback_upstreams,
}
use astradns_agent.Agent.Validate.{ConfigError, validate_engine_config}
use astradns_agent.Agent.Load.{
  FileRead, load_engine_config, upstream_targets_from_config, fallback_upstreams_from_config,
  filter_rcode_of,
}

-- What the agent asks of an engine, whose state is `S`: an operation fails with `some` error. An
-- engine takes up a configuration in a form of its own, and keeps it when it reloads.
pub record EngineOps (S E : Type 0) : Type 0 where
  pub configure : EngineConfig → S → S × Option E
  pub start : S → S × Option E
  pub reload : S → S × Option E
  pub stop : S → S × Option E
  pub adapted : EngineConfig → EngineConfig
  pub configured : S → Option EngineConfig
  pub configured-configure :
      (cfg : EngineConfig) (s : S)
      → (configure cfg s).1 ≡ none
      → configured (configure cfg s).0 ≡ some (adapted cfg)
  pub configured-reload : (s : S) → configured (reload s).0 ≡ configured s

-- What the reload reads of its surroundings: the file, the number of processors, the probes of the
-- upstreams, and whether the context is over once the engine has failed.
pub record Surroundings : Type 0 where
  pub file : FileRead
  pub cpus : ℤ
  pub probes : Probes
  pub canceled : Bool

pub data ReloadStatus : Type 0 where
  read_failed validation_failed canceled rollback_failed rolled_back applied : ReloadStatus

-- The settings that come from the environment: `proxy` without what the configuration decides.
pub record Settings : Type 0 where
  pub engine_addr : Text
  pub proxy : ProxyConfig
  pub probe_domain : Text
  pub probe_type : ℕ

pub record Agent (S : Type 0) : Type 0 where
  pub engine : S
  pub current_config : EngineConfig
  pub checker : Checker
  pub proxy : Proxy
  pub reload_total : ℕ
  pub reload_errors_total : ℕ

module _ {S E : Type 0} (t : EngineTypes) (ops : EngineOps S E) (settings : Settings) where
  abbrev pub reload_after : S × Option E → S × Option E
  reload_after (e, some err) = (e, some err)
  reload_after (e, none) = ops.reload e

  -- `applyConfigReload`
  unfoldable pub apply_config_reload : EngineConfig → S → S × Option E
  apply_config_reload cfg e = reload_after (ops.configure cfg e)

  -- The configuration of the proxy and of the checker, as `main` makes them.
  abbrev pub proxy_config_of : EngineConfig → ProxyConfig
  proxy_config_of cfg = record settings.proxy {
    event_chan_size = pos 10000;
    on_event_drop = true;
    domain_filter_allow = cfg.filter_allow;
    domain_filter_deny = cfg.filter_deny;
    domain_filter_deny_rcode = filter_rcode_of t cfg;
    fallback_upstreams = fallback_upstreams_from_config t cfg;
  }

  abbrev pub checker_config_of : EngineConfig → CheckerConfig
  checker_config_of cfg = record {
    upstreams = upstream_targets_from_config t cfg;
    interval_seconds = pos 10;
    timeout_seconds = pos 2;
    failure_threshold = pos 3;
    probe_domain = settings.probe_domain;
    probe_type = settings.probe_type;
  }

  abbrev pub no_gauges : Metrics
  no_gauges = record {
    upstream_healthy = [];
    upstream_failures_total = [];
    timeout_total = [];
    upstream_latency = [];
  }

  -- The part of `main` from the loaded configuration on, up to `CheckNow`; `now` is the time at
  -- which the limiter is made, and `none` is `os.Exit(1)`.
  abbrev pub started_agent : EngineConfig → Surroundings → ℕ → S × Option E → Option (Agent S)
  started_agent cfg w now (e, some err) = none
  started_agent cfg w now (e, none) = some (record {
    engine = e;
    current_config = cfg;
    checker =
        check_all t.transports w.probes
          (new_checker t.transports (checker_config_of cfg) (some no_gauges));
    proxy = new_proxy (proxy_config_of cfg) now;
    reload_total = 0;
    reload_errors_total = 0;
  })

  abbrev pub configured_agent : EngineConfig → Surroundings → ℕ → S × Option E → Option (Agent S)
  configured_agent cfg w now (e, some err) = none
  configured_agent cfg w now (e, none) = started_agent cfg w now (ops.start e)

  abbrev pub validated_agent :
      EngineConfig → Surroundings → ℕ → S → Option ConfigError → Option (Agent S)
  validated_agent cfg w now e (some err) = none
  validated_agent cfg w now e none = configured_agent cfg w now (ops.configure cfg e)

  abbrev pub loaded_agent : Surroundings → ℕ → S → Option EngineConfig → Option (Agent S)
  loaded_agent w now e none = none
  loaded_agent w now e (some cfg) = validated_agent cfg w now e (validate_engine_config t cfg)

  unfoldable pub boot : Surroundings → ℕ → S → Option (Agent S)
  boot w now e = loaded_agent w now e (load_engine_config t w.cpus settings.engine_addr w.file)

  abbrev pub count_error : Agent S → Agent S
  count_error a = record a { reload_errors_total = a.reload_errors_total + 1 }

  -- `UpdateUpstreams`, `CheckNow`, `UpdateFilter`, `UpdateFallbackUpstreams`, and the counter.
  unfoldable pub take_up : Agent S → EngineConfig → Probes → S → Agent S
  take_up a cfg probes e = record {
    engine = e;
    current_config = cfg;
    checker =
        check_all t.transports probes
          (update_upstreams t.transports a.checker (upstream_targets_from_config t cfg));
    proxy =
        update_fallback_upstreams
          (update_filter a.proxy cfg.filter_allow cfg.filter_deny (filter_rcode_of t cfg))
          (fallback_upstreams_from_config t cfg);
    reload_total = a.reload_total + 1;
    reload_errors_total = a.reload_errors_total;
  }

  abbrev pub rolled : Agent S → S × Option E → Agent S × ReloadStatus
  rolled a (e, some err) = (record a { engine = e }, rollback_failed)
  rolled a (e, none) = (record a { engine = e }, rolled_back)

  -- The reload from the engine's answer on.
  unfoldable pub finish_reload :
      Agent S → EngineConfig → Surroundings → S × Option E → Agent S × ReloadStatus
  finish_reload a cfg w (e, none) = (take_up a cfg w.probes e, applied)
  finish_reload a cfg w (e, some err) =
      if w.canceled
      then (record (count_error a) { engine = e }, canceled)
      else rolled (count_error a) (apply_config_reload a.current_config e)

  unfoldable pub reload_validated :
      Agent S → EngineConfig → Surroundings → Option ConfigError → Agent S × ReloadStatus
  reload_validated a cfg w (some err) = (count_error a, validation_failed)
  reload_validated a cfg w none = finish_reload a cfg w (apply_config_reload cfg a.engine)

  unfoldable pub reload_loaded :
      Agent S → Surroundings → Option EngineConfig → Agent S × ReloadStatus
  reload_loaded a w none = (count_error a, read_failed)
  reload_loaded a w (some cfg) = reload_validated a cfg w (validate_engine_config t cfg)

  -- The function that is given to `watcher.New`.
  unfoldable pub reload_config : Agent S → Surroundings → Agent S × ReloadStatus
  reload_config a w = reload_loaded a w (load_engine_config t w.cpus settings.engine_addr w.file)

  -- Reloads one after another.
  unfoldable pub reload_configs : Agent S → List Surroundings → Agent S
  reload_configs a [] = a
  reload_configs a (w ∷ ws) = reload_configs (reload_config a w).0 ws
