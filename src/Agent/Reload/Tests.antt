-- ===== src/Agent/Reload/Tests.antt =====
-- An agent with concrete files, engines and queries.
use astradns_agent.Common.{
  ℕ, true, arith, ◌≡◌, refl, false, none, some, Option, [], ◌∷◌, List, Text, codes, text_eq,
  to_lower, trim_space, trim_suffix_dot, decimal, digits, split, pos,
}
use astradns_agent.Types.{EngineConfig}
use astradns_agent.Types.Samples.{transports_example, types_example, engine_config_example}
use astradns_agent.Health.Samples.{silence}
use astradns_agent.Health.Labels.{new_checker}
use astradns_agent.Health.Passes.{check_all}
use astradns_agent.Proxy.Server.{new_proxy}
use astradns_agent.Proxy.Handler.Samples.{
  dns_example, config_example, request_example, answering, at, client,
}
use astradns_agent.Agent.Names.{
  is_valid_upstream_address, looks_like_invalid_ipv4_literal, count_dots, is_dns1123_subdomain,
  is_dns1123_label, label_bytes, is_lower_alpha, is_digit,
}
use astradns_agent.Agent.Validate.{
  reject, reject_blank, parse_upstream_transport, default_port_for_transport, effective_port,
  upstream_key, reject_of_transport, reject_upstreams, reject_cache, reject_action,
  is_supported_dnssec_mode, validate_engine_config,
}
use astradns_agent.Agent.Load.{
  parsed, load_engine_config, default_engine_config, filled_config, filled_upstream, filled_cache,
  filled_tls_server_name, default_tls_server_name,
}
use astradns_agent.Agent.Load.Normal.{IsNormal, load_engine_config-IsNormal}
use astradns_agent.Agent.Reload.{
  apply_config_reload, EngineOps, Surroundings, Settings, Agent, boot, checker_config_of,
  proxy_config_of, no_gauges, reload_config,
}
use astradns_agent.Agent.Reload.Outcomes.{Outcome, reload_config-Outcome}
use astradns_agent.Watcher.{FsOp, Occurrence, event, is_change}
use astradns_agent.Watcher.Changes.{changes}
use astradns_agent.Agent.Reload.Follows.{last, RunsWith, watched, watched-RunsWith}
use astradns_agent.Agent.Reload.InStep.{
  Event, reloads, answers, probes, stops, after_all, IsInStep, boot-after_all-IsInStep,
}
use astradns_agent.Engines.Drivers.{coredns, driver_of}
use astradns_agent.Engines.Process.{EngineError, new_engine}
use astradns_agent.Engines.Ops.{Hosted, engine_ops}
use astradns_agent.Engines.Samples.{host_example, dir_example}

abbrev addr_example : Text
addr_example = codes "127.0.0.1:5354"

abbrev loaded_example : EngineConfig
loaded_example =
    filled_config types_example (default_engine_config types_example (pos 4) addr_example)
      engine_config_example

loaded :
    load_engine_config types_example (pos 4) addr_example (parsed engine_config_example)
    ≡ some loaded_example
unfolding load_engine_config
loaded = refl

load_engine_config-IsNormal_example : IsNormal types_example loaded_example
load_engine_config-IsNormal_example =
    load_engine_config-IsNormal types_example (pos 4) addr_example (parsed engine_config_example)
      loaded_example loaded

loaded-accepted : validate_engine_config types_example loaded_example ≡ none
unfolding filled_config filled_upstream filled_cache filled_tls_server_name default_tls_server_name
    validate_engine_config reject reject_blank parse_upstream_transport default_port_for_transport
    effective_port upstream_key reject_of_transport reject_upstreams reject_cache reject_action
    is_supported_dnssec_mode is_valid_upstream_address looks_like_invalid_ipv4_literal count_dots
    is_dns1123_subdomain is_dns1123_label label_bytes is_lower_alpha is_digit text_eq to_lower
    trim_space trim_suffix_dot decimal digits split types_example transports_example
    default_engine_config
loaded-accepted = refl

abbrev surroundings_example : Surroundings
surroundings_example = record {
  file = parsed engine_config_example;
  cpus = pos 4;
  probes = silence;
  canceled = false;
}

abbrev settings_example : Settings
settings_example = record {
  engine_addr = addr_example;
  proxy = config_example;
  probe_domain = codes "example.com.";
  probe_type = 1;
}

abbrev ops_example : EngineOps Hosted EngineError
ops_example = engine_ops (driver_of types_example (pos 4) coredns) dir_example (λ n. host_example)

abbrev engine_example : Hosted
engine_example = record { machine = new_engine engine_config_example; calls = 0 }

-- An engine that always does as it is told.
abbrev quiet_ops : EngineOps (Option EngineConfig) Text
quiet_ops = record {
  configure = λ cfg s. (some cfg, none);
  start = λ s. (s, none);
  reload = λ s. (s, none);
  stop = λ s. (s, none);
  adapted = λ cfg. cfg;
  configured = λ s. s;
  configured-configure = λ cfg s e. refl;
  configured-reload = λ s. refl;
}

abbrev quiet_agent : Agent (Option EngineConfig)
quiet_agent = record {
  engine = some loaded_example;
  current_config = loaded_example;
  checker = check_all transports_example silence (
      new_checker transports_example
        (checker_config_of types_example quiet_ops settings_example loaded_example)
        (some (no_gauges types_example quiet_ops settings_example)));
  proxy = new_proxy (proxy_config_of types_example quiet_ops settings_example loaded_example) 1000;
  reload_total = 0;
  reload_errors_total = 0;
}

booted :
    boot types_example quiet_ops settings_example surroundings_example 1000 none ≡ some quiet_agent
unfolding boot load_engine_config types_example
booted = rw loaded-accepted refl

abbrev events_example : List (Event types_example quiet_ops settings_example)
events_example =
    answers dns_example (at answering 2000) client request_example
    ∷ (reloads surroundings_example ∷ (probes silence ∷ (stops ∷ [])))

boot-after_all-IsInStep_example :
    IsInStep types_example quiet_ops settings_example
      (after_all types_example quiet_ops settings_example quiet_agent events_example)
boot-after_all-IsInStep_example =
    boot-after_all-IsInStep types_example quiet_ops settings_example surroundings_example 1000 none
      quiet_agent events_example booted

abbrev agent_example : Agent Hosted
agent_example = record {
  engine = engine_example;
  current_config = loaded_example;
  checker = quiet_agent.checker;
  proxy = quiet_agent.proxy;
  reload_total = 0;
  reload_errors_total = 0;
}

reload_config-Outcome_example :
    Outcome types_example ops_example settings_example agent_example surroundings_example
      (reload_config types_example ops_example settings_example agent_example surroundings_example)
reload_config-Outcome_example =
    reload_config-Outcome types_example ops_example settings_example agent_example
      surroundings_example

abbrev write_example : FsOp
write_example = record {
  create = false;
  write = true;
  rename = false;
  remove = false;
  chmod = false;
}

abbrev occurrences_example : List (ℕ × Occurrence)
occurrences_example = (5, event write_example) ∷ ((9, event write_example) ∷ [])

abbrev files_example : ℕ → Surroundings
files_example time = surroundings_example

last-changed : last (changes occurrences_example) ≡ some 9
unfolding last changes is_change
last-changed = refl

quietly :
    (e : Option EngineConfig)
    → (apply_config_reload types_example quiet_ops settings_example loaded_example e).1 ≡ none
unfolding apply_config_reload
quietly e = refl

watched-RunsWith_example : RunsWith types_example quiet_ops settings_example loaded_example (
    watched types_example quiet_ops settings_example 10 files_example occurrences_example
      quiet_agent)
watched-RunsWith_example =
    watched-RunsWith types_example quiet_ops settings_example 10 files_example occurrences_example
      quiet_agent 9 loaded_example (omega arith) (tt, (tt, tt)) last-changed loaded loaded-accepted
      quietly
