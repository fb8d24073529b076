-- ===== src/Agent/Reload/Outcomes.antt =====
-- What each way in which a reload can end leaves behind.
use astradns_agent.Common.{
  ◌+◌, ◌≡◌, ◌≢◌, refl, sym, ap, ◌∙◌, Text, arith, true, false, Option, none, some, if_cases,
}
use mathlib.Core.Option.{some-ne-none}
use astradns_agent.Types.{EngineTypes, EngineConfig}
use astradns_agent.Agent.Validate.{ConfigError, validate_engine_config}
use astradns_agent.Agent.Load.{
  load_engine_config, upstream_targets_from_config, fallback_upstreams_from_config, filter_rcode_of,
}
use astradns_agent.Health.Labels.{is_label, labels_of}
use astradns_agent.Health.Removed.{is_label-check_all}
use astradns_agent.Proxy.Filter.{new_domain_filter}
use astradns_agent.Proxy.Server.{update_filter, update_fallback_upstreams}
use astradns_agent.Proxy.Handler.Policies.{policy_of}
use astradns_agent.Agent.Reload.{
  EngineOps, Surroundings, ReloadStatus, read_failed, validation_failed, canceled, rollback_failed,
  rolled_back, applied, Settings, Agent, reload_after, apply_config_reload, count_error, take_up,
  rolled, finish_reload, reload_validated, reload_loaded, reload_config,
}

module _ {S E : Type 0} (t : EngineTypes) (ops : EngineOps S E) (settings : Settings) where
  -- The agent answers and probes as before, and one error is counted.
  pub record IsKept (a b : Agent S) : Type 0 where
    pub current_config : b.current_config ≡ a.current_config
    pub checker : b.checker ≡ a.checker
    pub proxy : b.proxy ≡ a.proxy
    pub reload_total : b.reload_total ≡ a.reload_total
    pub reload_errors_total : b.reload_errors_total ≡ a.reload_errors_total + 1

  -- The engine has the configuration of the agent, in the engine's form.
  abbrev pub IsConfigured : Agent S → Type 0
  IsConfigured a = ops.configured a.engine ≡ some (ops.adapted a.current_config)

  -- The file holds this configuration, and it is valid.
  pub record IsOffered (w : Surroundings) (cfg : EngineConfig) : Type 0 where
    pub loaded : load_engine_config t w.cpus settings.engine_addr w.file ≡ some cfg
    pub valid : validate_engine_config t cfg ≡ none

  -- The engine refused what the file offers, and the agent stays as it was.
  abbrev pub IsRefused : Agent S → Surroundings → Agent S → Type 0
  IsRefused a w b =
      ((cfg : EngineConfig) × IsOffered w cfg
        × ((apply_config_reload t ops settings cfg a.engine).1 ≢ none))
      × IsKept a b

  -- What is taken up is what the file offers. The engine has it, the proxy filters, refuses and
  -- falls back as it says and is as before else, and the checker has its targets.
  pub record IsApplied (a b : Agent S) (w : Surroundings) : Type 0 where
    pub offered : IsOffered w b.current_config
    pub engine : IsConfigured b
    pub policy : policy_of b.proxy ≡ (
      new_domain_filter b.current_config.filter_allow b.current_config.filter_deny,
      filter_rcode_of t b.current_config,
      fallback_upstreams_from_config t b.current_config,
    )
    pub same_proxy : b.proxy ≡ record a.proxy {
      filter = b.proxy.filter;
      filter_rcode = b.proxy.filter_rcode;
      fallbacks = b.proxy.fallbacks;
    }
    pub targets :
        (j : Text)
        → is_label t.transports (labels_of t.transports b.checker.config.upstreams) j
          ≡ is_label t.transports
              (labels_of t.transports (upstream_targets_from_config t b.current_config))
              j
    pub reload_total : b.reload_total ≡ a.reload_total + 1
    pub reload_errors_total : b.reload_errors_total ≡ a.reload_errors_total

  abbrev pub Outcome : Agent S → Surroundings → Agent S × ReloadStatus → Type 0
  Outcome a w (b, read_failed) =
      (load_engine_config t w.cpus settings.engine_addr w.file ≡ none)
      × (b ≡ count_error t ops settings a)
  Outcome a w (b, validation_failed) =
      ((cfg : EngineConfig) × (load_engine_config t w.cpus settings.engine_addr w.file ≡ some cfg)
        × (validate_engine_config t cfg ≢ none))
      × (b ≡ count_error t ops settings a)
  Outcome a w (b, canceled) = (w.canceled ≡ true) × IsRefused a w b
  Outcome a w (b, rollback_failed) = (w.canceled ≡ false) × IsRefused a w b
  Outcome a w (b, rolled_back) = ((w.canceled ≡ false) × IsRefused a w b) × IsConfigured b
  Outcome a w (b, applied) = IsApplied a b w

  reload_after-configured :
      (cfg : EngineConfig) (r : S × Option E)
      → (r.1 ≡ none → ops.configured r.0 ≡ some (ops.adapted cfg))
      → (reload_after t ops settings r).1 ≡ none
      → ops.configured (reload_after t ops settings r).0 ≡ some (ops.adapted cfg)
  reload_after-configured cfg (e, some err) k h = cc
  reload_after-configured cfg (e, none) k h = ops.configured-reload e ∙ k refl

  pub apply_config_reload-configured :
      (cfg : EngineConfig) (e : S)
      → (apply_config_reload t ops settings cfg e).1 ≡ none
      → ops.configured (apply_config_reload t ops settings cfg e).0 ≡ some (ops.adapted cfg)
  unfolding apply_config_reload
  apply_config_reload-configured cfg e =
      reload_after-configured cfg (ops.configure cfg e) (ops.configured-configure cfg e)

  -- What the reload counts and replaces when the engine fails leaves the agent as it was.
  with_engine-IsKept :
      (a : Agent S) (e : S) → IsKept a (record (count_error t ops settings a) { engine = e })
  with_engine-IsKept a e = record {
    current_config = refl;
    checker = refl;
    proxy = refl;
    reload_total = refl;
    reload_errors_total = refl;
  }

  take_up-IsApplied :
      (a : Agent S) (w : Surroundings) (cfg : EngineConfig) (e : S)
      → IsOffered w cfg
      → ops.configured e ≡ some (ops.adapted cfg)
      → IsApplied a (take_up t ops settings a cfg w.probes e) w
  unfolding take_up update_filter update_fallback_upstreams
  take_up-IsApplied a w cfg e o k = record {
    offered = record { loaded = o.loaded; valid = o.valid };
    engine = k;
    policy = ground arith;
    same_proxy = refl;
    targets =
        is_label-check_all t.transports w.probes a.checker (upstream_targets_from_config t cfg);
    reload_total = refl;
    reload_errors_total = refl;
  }

  module _ (a : Agent S) (w : Surroundings) where
    -- The engine refused a configuration that the file offers.
    abbrev Refusal : Type 0
    Refusal =
        (cfg : EngineConfig) × IsOffered w cfg
        × ((apply_config_reload t ops settings cfg a.engine).1 ≢ none)

    rolled-Outcome :
        (r : S × Option E)
        → w.canceled ≡ false
        → Refusal
        → (r.1 ≡ none → ops.configured r.0 ≡ some (ops.adapted a.current_config))
        → Outcome a w (rolled t ops settings (count_error t ops settings a) r)
    rolled-Outcome (e, some err) c o k = (c, (o, with_engine-IsKept a e))
    rolled-Outcome (e, none) c o k = ((c, (o, with_engine-IsKept a e)), k refl)

    finish_reload-Outcome :
        (cfg : EngineConfig) (r : S × Option E)
        → IsOffered w cfg
        → apply_config_reload t ops settings cfg a.engine ≡ r
        → Outcome a w (finish_reload t ops settings a cfg w r)
    unfolding finish_reload
    finish_reload-Outcome cfg (e, none) o h = take_up-IsApplied a w cfg e o (
        ap (λ (r : S × Option E). ops.configured r.0) (sym h)
        ∙ apply_config_reload-configured cfg a.engine (ap (λ (r : S × Option E). r.1) h))
    finish_reload-Outcome cfg (e, some err) o h =
        let refusal : Refusal =
          (cfg, o, λ z. some-ne-none err (sym (ap (λ (r : S × Option E). r.1) h) ∙ z)) in
        if_cases (Outcome a w) w.canceled (λ c. (c, (refusal, with_engine-IsKept a e)))
          λ c. rolled-Outcome _ c refusal (apply_config_reload-configured a.current_config e)

    reload_validated-Outcome :
        (cfg : EngineConfig) (o : Option ConfigError)
        → load_engine_config t w.cpus settings.engine_addr w.file ≡ some cfg
        → validate_engine_config t cfg ≡ o
        → Outcome a w (reload_validated t ops settings a cfg w o)
    unfolding reload_validated
    reload_validated-Outcome cfg (some err) l v =
        ((cfg, l, λ z. some-ne-none err (sym v ∙ z)), refl)
    reload_validated-Outcome cfg none l v =
        finish_reload-Outcome cfg _ (record { loaded = l; valid = v }) refl

    reload_loaded-Outcome :
        (o : Option EngineConfig)
        → load_engine_config t w.cpus settings.engine_addr w.file ≡ o
        → Outcome a w (reload_loaded t ops settings a w o)
    unfolding reload_loaded
    reload_loaded-Outcome none l = (l, refl)
    reload_loaded-Outcome (some cfg) l =
        reload_validated-Outcome cfg (validate_engine_config t cfg) l refl

  -- A reload that reports that the file cannot be read, or that its configuration is not valid, has
  -- found just that, has counted an error and changed nothing else, neither the engine. In every
  -- other case the file offers a valid configuration. If the engine refuses it, the configuration,
  -- the checker and the proxy stay and an error is counted, and after a rollback that succeeds the
  -- engine has the old configuration again. If it is applied, it is the current one, the engine has
  -- it, the proxy filters, refuses and falls back as it says and is as before else, the checker has
  -- its targets, and a reload is counted.
  pub reload_config-Outcome :
      (a : Agent S) (w : Surroundings) → Outcome a w (reload_config t ops settings a w)
  unfolding reload_config
  reload_config-Outcome a w =
      reload_loaded-Outcome a w (load_engine_config t w.cpus settings.engine_addr w.file) refl
