-- ===== src/Agent/Reload/InStep.antt =====
-- What the agent runs with follows its configuration, whatever happens and in whatever order.
use astradns_agent.Common.{
  ℕ, lookup, ◌≡◌, refl, ◌∙◌, subst, some-injective, arith, if_cases, Option, none, some, List, [],
  ◌∷◌,
}
use astradns_agent.Dns.{Msg, DnsLib}
use astradns_agent.Types.{EngineTypes, EngineConfig}
use astradns_agent.Health.{Probes}
use astradns_agent.Health.Passes.{check_all}
use astradns_agent.Health.Gauges.{IsConsistent, check_all-IsConsistent}
use astradns_agent.Health.Updates.{new_checker-IsConsistent, update_upstreams-IsConsistent}
use astradns_agent.Proxy.Filter.{new_domain_filter}
use astradns_agent.Proxy.Server.{
  new_proxy, with_defaults, update_filter, update_fallback_upstreams, stop,
}
use astradns_agent.Proxy.Valid.{IsValid}
use astradns_agent.Proxy.Valid.Made.{new_proxy-IsValid, update_filter-IsValid, stop-IsValid}
use astradns_agent.Proxy.Handler.{World, RemoteAddr, handle_query}
use astradns_agent.Proxy.Handler.Keeps.{handle_query-IsValid}
use astradns_agent.Proxy.Handler.Policies.{policy_of, policy_of-handle_query}
use astradns_agent.Agent.Validate.{ConfigError, validate_engine_config}
use astradns_agent.Agent.Load.{load_engine_config, filter_rcode_of, fallback_upstreams_from_config}
use astradns_agent.Agent.Reload.{
  EngineOps, Surroundings, ReloadStatus, Settings, Agent, started_agent, configured_agent,
  validated_agent, loaded_agent, boot, apply_config_reload, count_error, take_up, rolled,
  finish_reload, reload_validated, reload_loaded, reload_config,
}

module _ {S E : Type 0} (t : EngineTypes) (ops : EngineOps S E) (settings : Settings) where
  -- What happens to an agent that runs: a change of its file, a query, a pass of the checker, and
  -- the end of the proxy.
  pub data Event : Type 0 where
    reloads : Surroundings → Event
    answers : DnsLib → World → Option RemoteAddr → Msg → Event
    probes : Probes → Event
    stops : Event

  unfoldable pub after : Agent S → Event → Agent S
  after a (reloads w) = (reload_config t ops settings a w).0
  after a (answers lib w remote request) = record a {
    proxy = handle_query lib w a.proxy remote request;
  }
  after a (probes w) = record a { checker = check_all t.transports w a.checker }
  after a stops = record a { proxy = stop a.proxy }

  unfoldable pub after_all : Agent S → List Event → Agent S
  after_all a [] = a
  after_all a (e ∷ es) = after_all (after a e) es

  -- The configuration is valid, the proxy filters and falls back as it says, and the proxy and the
  -- checker keep their invariants.
  pub record IsInStep (a : Agent S) : Type 0 where
    pub valid : validate_engine_config t a.current_config ≡ none
    pub policy : policy_of a.proxy ≡ (
      new_domain_filter a.current_config.filter_allow a.current_config.filter_deny,
      filter_rcode_of t a.current_config,
      fallback_upstreams_from_config t a.current_config,
    )
    pub proxy : IsValid a.proxy
    pub checker : IsConsistent a.checker

  take_up-IsInStep :
      (a : Agent S) (cfg : EngineConfig) (w : Probes) (e : S)
      → IsInStep a
      → validate_engine_config t cfg ≡ none
      → IsInStep (take_up t ops settings a cfg w e)
  unfolding take_up update_filter update_fallback_upstreams
  take_up-IsInStep a cfg w e k v = record {
    valid = v;
    policy = ground arith;
    proxy =
        let updated =
          update_filter-IsValid a.proxy cfg.filter_allow cfg.filter_deny (filter_rcode_of t cfg)
            k.proxy in
        record { good = updated.good; queued = updated.queued };
    checker =
        check_all-IsConsistent t.transports w _
          (update_upstreams-IsConsistent t.transports a.checker _ k.checker);
  }

  finish_reload-IsInStep :
      (a : Agent S) (cfg : EngineConfig) (w : Surroundings) (r : S × Option E)
      → IsInStep a
      → validate_engine_config t cfg ≡ none
      → IsInStep (finish_reload t ops settings a cfg w r).0
  unfolding finish_reload
  finish_reload-IsInStep a cfg w (e, none) k v = take_up-IsInStep a cfg w.probes e k v
  finish_reload-IsInStep a cfg w (e, some err) k v =
      if_cases (λ (r : Agent S × ReloadStatus). IsInStep r.0) w.canceled
        (λ _. record { valid = k.valid; policy = k.policy; proxy = k.proxy; checker = k.checker })
        λ _. of_rolled e (apply_config_reload t ops settings a.current_config e)
    where
      of_rolled :
          (s : S) (r : S × Option E)
          → IsInStep (rolled t ops settings (count_error t ops settings a) r).0
      of_rolled s (after, none) = record {
        valid = k.valid;
        policy = k.policy;
        proxy = k.proxy;
        checker = k.checker;
      }
      of_rolled s (after, some other) = record {
        valid = k.valid;
        policy = k.policy;
        proxy = k.proxy;
        checker = k.checker;
      }

  reload_config-IsInStep :
      (a : Agent S) (w : Surroundings) → IsInStep a → IsInStep (reload_config t ops settings a w).0
  unfolding reload_config reload_loaded reload_validated
  reload_config-IsInStep a w k = of_loaded (load_engine_config t w.cpus settings.engine_addr w.file)
    where
      of_validated :
          (cfg : EngineConfig) (o : Option ConfigError)
          → validate_engine_config t cfg ≡ o
          → IsInStep (reload_validated t ops settings a cfg w o).0
      of_validated cfg (some err) v = record {
        valid = k.valid;
        policy = k.policy;
        proxy = k.proxy;
        checker = k.checker;
      }
      of_validated cfg none v = finish_reload-IsInStep a cfg w _ k v

      of_loaded : (o : Option EngineConfig) → IsInStep (reload_loaded t ops settings a w o).0
      of_loaded none = record {
        valid = k.valid;
        policy = k.policy;
        proxy = k.proxy;
        checker = k.checker;
      }
      of_loaded (some cfg) = of_validated cfg (validate_engine_config t cfg) refl

  after-IsInStep : (a : Agent S) (e : Event) → IsInStep a → IsInStep (after a e)
  unfolding after
  after-IsInStep a (reloads w) k = reload_config-IsInStep a w k
  after-IsInStep a (answers lib w remote request) k = record {
    valid = k.valid;
    policy = policy_of-handle_query lib w a.proxy remote request ∙ k.policy;
    proxy = handle_query-IsValid lib w a.proxy remote request k.proxy;
    checker = k.checker;
  }
  after-IsInStep a (probes w) k = record {
    valid = k.valid;
    policy = k.policy;
    proxy = k.proxy;
    checker = check_all-IsConsistent t.transports w a.checker k.checker;
  }
  after-IsInStep a stops k = record {
    valid = k.valid;
    policy = unfold stop in ground (arith, k.policy);
    proxy = stop-IsValid a.proxy k.proxy;
    checker = k.checker;
  }

  after_all-IsInStep : (a : Agent S) (es : List Event) → IsInStep a → IsInStep (after_all a es)
  unfolding after_all
  after_all-IsInStep a [] k = k
  after_all-IsInStep a (e ∷ es) k = after_all-IsInStep (after a e) es (after-IsInStep a e k)

  started_agent-IsInStep :
      (cfg : EngineConfig) (w : Surroundings) (now : ℕ) (r : S × Option E) (a : Agent S)
      → validate_engine_config t cfg ≡ none
      → started_agent t ops settings cfg w now r ≡ some a
      → IsInStep a
  unfolding lookup
  started_agent-IsInStep cfg w now (e, some err) a v h = cc
  started_agent-IsInStep cfg w now (e, none) a v h = subst IsInStep (some-injective h) (record {
    valid = v;
    policy = unfold new_proxy with_defaults in ground arith;
    proxy = new_proxy-IsValid _ now;
    checker =
        check_all-IsConsistent t.transports w.probes _
          (new_checker-IsConsistent t.transports _ _ (λ j. refl));
  })

  boot-IsInStep :
      (w : Surroundings) (now : ℕ) (e : S) (a : Agent S)
      → boot t ops settings w now e ≡ some a
      → IsInStep a
  unfolding boot
  boot-IsInStep w now e a = of_loaded (load_engine_config t w.cpus settings.engine_addr w.file)
    where
      of_configured :
          (cfg : EngineConfig) (r : S × Option E)
          → validate_engine_config t cfg ≡ none
          → configured_agent t ops settings cfg w now r ≡ some a
          → IsInStep a
      of_configured cfg (s, some err) v h = cc
      of_configured cfg (s, none) v h = started_agent-IsInStep cfg w now (ops.start s) a v h

      of_validated :
          (cfg : EngineConfig) (o : Option ConfigError)
          → validate_engine_config t cfg ≡ o
          → validated_agent t ops settings cfg w now e o ≡ some a
          → IsInStep a
      of_validated cfg (some err) v h = cc
      of_validated cfg none v h = of_configured cfg (ops.configure cfg e) v h

      of_loaded :
          (o : Option EngineConfig) → loaded_agent t ops settings w now e o ≡ some a → IsInStep a
      of_loaded none h = cc
      of_loaded (some cfg) h = of_validated cfg (validate_engine_config t cfg) refl h

  -- An agent that has started, after any events in any order, has a valid configuration, its proxy
  -- filters, refuses and falls back as that configuration says, the proxy is valid, and the gauge
  -- of each upstream shows what the checker holds of it.
  pub boot-after_all-IsInStep :
      (w : Surroundings) (now : ℕ) (e : S) (a : Agent S) (es : List Event)
      → boot t ops settings w now e ≡ some a
      → IsInStep (after_all a es)
  boot-after_all-IsInStep w now e a es h = after_all-IsInStep a es (boot-IsInStep w now e a h)
