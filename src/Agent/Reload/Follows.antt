-- ===== src/Agent/Reload/Follows.antt =====
-- The watcher and the reload together: the agent comes to run with what its file holds.
use astradns_agent.Common.{
  ℕ, ◌+◌, ◌≡◌, refl, Bool-cases, inl, inr, leb, Option, none, some, List, [], ◌∷◌, map, arith,
  some-injective,
}
use astradns_agent.Types.{EngineTypes, EngineConfig}
use astradns_agent.Proxy.Filter.{new_domain_filter}
use astradns_agent.Proxy.Server.{update_filter, update_fallback_upstreams}
use astradns_agent.Proxy.Handler.Policies.{policy_of}
use astradns_agent.Watcher.{Occurrence, new_watch, run, settle}
use astradns_agent.Watcher.Changes.{changes, burst_ends, IsOrdered, AllGoOn}
use astradns_agent.Watcher.Bursts.{settle-run-reloads}
use astradns_agent.Agent.Validate.{validate_engine_config}
use astradns_agent.Agent.Load.{load_engine_config, filter_rcode_of, fallback_upstreams_from_config}
use astradns_agent.Agent.Reload.{
  EngineOps, Surroundings, Settings, Agent, apply_config_reload, take_up, finish_reload,
  reload_validated, reload_loaded, reload_config, reload_configs,
}
use astradns_agent.Agent.Reload.Outcomes.{IsConfigured, apply_config_reload-configured}

unfoldable pub last : List ℕ → Option ℕ
last [] = none
last (t ∷ []) = some t
last (t ∷ u ∷ ts) = last (u ∷ ts)

last-cons : (t n : ℕ) (ts : List ℕ) → last ts ≡ some n → last (t ∷ ts) ≡ some n
unfolding last
last-cons t n [] h = cc
last-cons t n (u ∷ ts) h = h

-- The last burst ends with the last change.
last-burst_ends :
    (debounce n : ℕ) (ts : List ℕ) → last ts ≡ some n → last (burst_ends debounce ts) ≡ some n
unfolding last burst_ends
last-burst_ends debounce n [] h = h
last-burst_ends debounce n (t ∷ []) h = h
last-burst_ends debounce n (t ∷ u ∷ ts) h = elim (Bool-cases (leb (t + debounce) u)) [
  | inl e ↦
      rw e (last-cons t n (burst_ends debounce (u ∷ ts)) (last-burst_ends debounce n (u ∷ ts) h))
  | inr e ↦ rw e (last-burst_ends debounce n (u ∷ ts) h)
]

module _ {S E : Type 0} (t : EngineTypes) (ops : EngineOps S E) (settings : Settings) where
  -- The agent after the reloads of the watcher; `files` says what a reload meets at a time.
  unfoldable pub watched : ℕ → (ℕ → Surroundings) → List (ℕ × Occurrence) → Agent S → Agent S
  watched debounce files os a =
      reload_configs t ops settings a (map files (settle (run debounce os new_watch)).reloads)

  -- The configuration is the agent's, the engine's, and that which the proxy follows.
  pub record RunsWith (cfg : EngineConfig) (a : Agent S) : Type 0 where
    pub current_config : a.current_config ≡ cfg
    pub engine : IsConfigured t ops settings a
    pub policy : policy_of a.proxy ≡ (
      new_domain_filter cfg.filter_allow cfg.filter_deny,
      filter_rcode_of t cfg,
      fallback_upstreams_from_config t cfg,
    )

  finish_reload-RunsWith :
      (a : Agent S) (cfg : EngineConfig) (w : Surroundings) (r : S × Option E)
      → r.1 ≡ none
      → ops.configured r.0 ≡ some (ops.adapted cfg)
      → RunsWith cfg (finish_reload t ops settings a cfg w r).0
  unfolding finish_reload take_up update_filter update_fallback_upstreams
  finish_reload-RunsWith a cfg w (e, some err) h c = cc
  finish_reload-RunsWith a cfg w (e, none) h c = record {
    current_config = refl;
    engine = c;
    policy = ground arith;
  }

  reload_config-RunsWith :
      (a : Agent S) (cfg : EngineConfig) (w : Surroundings)
      → load_engine_config t w.cpus settings.engine_addr w.file ≡ some cfg
      → validate_engine_config t cfg ≡ none
      → (apply_config_reload t ops settings cfg a.engine).1 ≡ none
      → RunsWith cfg (reload_config t ops settings a w).0
  unfolding reload_config reload_loaded reload_validated
  reload_config-RunsWith a cfg w l v h =
      rw (l, v)
        (finish_reload-RunsWith a cfg w (apply_config_reload t ops settings cfg a.engine) h
          (apply_config_reload-configured t ops settings cfg a.engine h))

  reload_configs-RunsWith :
      (a : Agent S) (cfg : EngineConfig) (files : ℕ → Surroundings) (n debounce : ℕ) (ts : List ℕ)
      → last ts ≡ some n
      → load_engine_config t
          (files (n + debounce)).cpus
          settings.engine_addr
          (files (n + debounce)).file
        ≡ some cfg
      → validate_engine_config t cfg ≡ none
      → ((e : S) → (apply_config_reload t ops settings cfg e).1 ≡ none)
      → RunsWith cfg (reload_configs t ops settings a (map files (map (λ u. u + debounce) ts)))
  unfolding reload_configs last
  reload_configs-RunsWith a cfg files n debounce [] h l v takes = cc
  reload_configs-RunsWith a cfg files n debounce (u ∷ []) h l v takes =
      let same : u ≡ n = some-injective h in
      rw same (reload_config-RunsWith a cfg (files (n + debounce)) l v (takes a.engine))
  reload_configs-RunsWith a cfg files n debounce (u ∷ x ∷ ts) h l v takes =
      reload_configs-RunsWith (reload_config t ops settings a (files (u + debounce))).0 cfg files n
        debounce (x ∷ ts) h l v takes

  -- If the watcher runs on after its last change, and the file then, `debounce` later, holds a
  -- configuration that is valid and that the engine takes up, the agent comes to run with it,
  -- whatever changes came before and however their reloads ended: it is the configuration of the
  -- agent and of the engine, and the proxy filters and falls back as it says.
  pub watched-RunsWith :
      (debounce : ℕ) (files : ℕ → Surroundings) (os : List (ℕ × Occurrence)) (a : Agent S) (n : ℕ)
      (cfg : EngineConfig)
      → IsOrdered 0 os
      → AllGoOn os
      → last (changes os) ≡ some n
      → load_engine_config t
          (files (n + debounce)).cpus
          settings.engine_addr
          (files (n + debounce)).file
        ≡ some cfg
      → validate_engine_config t cfg ≡ none
      → ((e : S) → (apply_config_reload t ops settings cfg e).1 ≡ none)
      → RunsWith cfg (watched debounce files os a)
  unfolding watched
  watched-RunsWith debounce files os a n cfg k g h l v takes =
      rw (settle-run-reloads debounce os k g) (
        reload_configs-RunsWith a cfg files n debounce (burst_ends debounce (changes os))
          (last-burst_ends debounce n (changes os) h) l v takes)
