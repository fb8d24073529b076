-- ===== src/Agent/Settings/Sound.antt =====
-- What the settings are, whatever the environment.
use astradns_agent.Common.{
  ℕ, ◌≤◌, ◌≡◌, ◌≢◌, refl, Bool, false, not, ◌||◌, Option, none, some, List, [], ◌∷◌, ◌++◌, Text,
  codes, any, All, All-append, arith, text_eq, text_eq_iff, trim_space, to_upper, trim_suffix_dot,
  to_lower, split, ℤ, not_positive, if◌then◌else◌, if_cases,
}
use astradns_agent.Common.Net.{atoi, unsigned}
use astradns_agent.Agent.Names.{is_valid_upstream_address}
use astradns_agent.Agent.Settings.{
  Environment, RuntimeConfig, is_negative, parsed_or, within_uint16, parse_uint16, get_env,
  get_env_positive_float, get_env_positive_int, get_env_non_negative_int, get_env_duration,
  is_zero_type, get_env_dns_query_type, collect_targets, parse_diagnostics_targets,
  load_runtime_config,
}
use astradns_agent.Diagnostics.Sorting.{IsOnce}

abbrev pub IsPositive : ℤ → Type 0
IsPositive z = not_positive z ≡ false

module _ (env : Environment) where
  -- A target that the runner may be given.
  abbrev pub IsTarget : Text → Type 0
  IsTarget s = (text_eq s [] || not (is_valid_upstream_address env.is_ip s)) ≡ false

  -- Addresses that are given, times, rates and sizes above 0, a number of entries that is not
  -- negative, a type of query in range, and targets that are valid, each once.
  pub record IsSound (cfg : RuntimeConfig) : Type 0 where
    pub engine_type : cfg.engine_type ≢ []
    pub listen_addr : cfg.listen_addr ≢ []
    pub engine_addr : cfg.engine_addr ≢ []
    pub proxy_timeout : IsPositive cfg.proxy_timeout
    pub global_rps : IsPositive cfg.proxy_global_rate_limit_rps
    pub global_burst : IsPositive cfg.proxy_global_rate_limit_burst
    pub per_source_rps : IsPositive cfg.proxy_per_source_rate_limit_rps
    pub per_source_burst : IsPositive cfg.proxy_per_source_rate_limit_burst
    pub state_ttl : IsPositive cfg.proxy_per_source_rate_limit_state_ttl
    pub max_src : IsPositive cfg.proxy_per_source_rate_limit_max_src
    pub cache_entries : is_negative cfg.proxy_cache_max_entries ≡ false
    pub cache_ttl : IsPositive cfg.proxy_cache_default_ttl
    pub pool_size : IsPositive cfg.engine_connection_pool_size
    pub some_type : 1 ≤ cfg.health_probe_type
    pub type_range : cfg.health_probe_type ≤ 65535
    pub debounce : IsPositive cfg.config_watch_debounce
    pub recovery : IsPositive cfg.engine_recovery_interval
    pub error_buffer : IsPositive cfg.component_error_buffer
    pub diagnostics_interval : IsPositive cfg.diagnostics_interval
    pub diagnostics_timeout : IsPositive cfg.diagnostics_timeout
    pub targets_once : IsOnce cfg.diagnostics_targets
    pub targets_valid : All IsTarget cfg.diagnostics_targets

  parsed_or-accepted :
      {A : Type 0} (refused : A → Bool) (fallback : A) (o : Option A)
      → refused fallback ≡ false
      → refused (parsed_or refused fallback o) ≡ false
  parsed_or-accepted refused fallback none h = h
  parsed_or-accepted refused fallback (some a) h =
      if_cases (λ x. refused x ≡ false) (refused a) (λ _. h) λ e. e

  accepted_or_default :
      {A : Type 0} (refused : A → Bool) (b : Bool) (fallback : A) (o : Option A)
      → refused fallback ≡ false
      → refused (if b then fallback else parsed_or refused fallback o) ≡ false
  accepted_or_default refused b fallback o h =
      if_cases (λ x. refused x ≡ false) b (λ _. h) λ _. parsed_or-accepted refused fallback o h

  get_env-ne : (key fallback : Text) → fallback ≢ [] → get_env env key fallback ≢ []
  unfolding get_env
  get_env-ne key fallback ne =
      if_cases (λ (s : Text). s ≢ []) (text_eq (env.getenv key) []) (λ _. ne)
        λ given e. ground (arith, given, (text_eq_iff (env.getenv key) []).1 e)

  get_env_positive_float-IsPositive :
      (key : Text) (z : ℤ) → IsPositive z → IsPositive (get_env_positive_float env key z)
  unfolding get_env_positive_float
  get_env_positive_float-IsPositive key z h =
      accepted_or_default not_positive (text_eq (env.getenv key) []) z
        (env.parse_float (env.getenv key)) h

  get_env_positive_int-IsPositive :
      (key : Text) (z : ℤ) → IsPositive z → IsPositive (get_env_positive_int env key z)
  unfolding get_env_positive_int
  get_env_positive_int-IsPositive key z h =
      accepted_or_default not_positive (text_eq (env.getenv key) []) z (atoi (env.getenv key)) h

  get_env_duration-IsPositive :
      (key : Text) (z : ℤ) → IsPositive z → IsPositive (get_env_duration env key z)
  unfolding get_env_duration
  get_env_duration-IsPositive key z h =
      accepted_or_default not_positive (text_eq (env.getenv key) []) z
        (env.parse_duration (env.getenv key)) h

  non_negative_int :
      (key : Text) (z : ℤ)
      → is_negative z ≡ false
      → is_negative (get_env_non_negative_int env key z) ≡ false
  unfolding get_env_non_negative_int
  non_negative_int key z h =
      accepted_or_default is_negative (text_eq (env.getenv key) []) z (atoi (env.getenv key)) h

  -- A type is 1 to 65535.
  abbrev IsType : ℕ → Type 0
  IsType n = (1 ≤ n) × (n ≤ 65535)

  parsed_or-IsType :
      (fallback : ℕ) (o : Option ℕ)
      → IsType fallback
      → ((n : ℕ) → o ≡ some n → n ≤ 65535)
      → IsType (parsed_or (is_zero_type env) fallback o)
  parsed_or-IsType fallback none k h = k
  parsed_or-IsType fallback (some n) k h = ground (arith, k, h n refl)

  parse_uint16-le : (s : Text) (n : ℕ) → parse_uint16 s ≡ some n → n ≤ 65535
  unfolding parse_uint16
  parse_uint16-le s n = of_number (unsigned s)
    where
      of_number : (o : Option ℕ) → within_uint16 o ≡ some n → n ≤ 65535
      of_number none h = cc
      of_number (some m) h = ground (arith, h)

  get_env_dns_query_type-IsType :
      (key : Text) (fallback : ℕ)
      → IsType fallback
      → IsType (get_env_dns_query_type env key fallback)
  unfolding get_env_dns_query_type
  get_env_dns_query_type-IsType key fallback k =
      let value = trim_space (env.getenv key) in
      if_cases IsType (text_eq value []) (λ _. k)
        λ _.
          parsed_or-IsType _ (env.string_to_type (to_upper value))
            (parsed_or-IsType fallback (parse_uint16 value) k (parse_uint16-le value))
            (env.type-le (to_upper value))

  IsOnce-append :
      (xs : List Text) (x : Text) → any (text_eq x) xs ≡ false → IsOnce xs → IsOnce (xs ++ x ∷ [])
  IsOnce-append [] x n k = (refl, tt)
  IsOnce-append (y ∷ xs) x n k = (
    any-append xs y x k.0 (ground (arith, n, text_eq_iff x y, text_eq_iff y x)),
    IsOnce-append xs x (ground (arith, n)) k.1,
  )
    where
      any-append :
          (xs : List Text) (y x : Text)
          → any (text_eq y) xs ≡ false
          → text_eq y x ≡ false
          → any (text_eq y) (xs ++ x ∷ []) ≡ false
      any-append [] y x n e = rw e refl
      any-append (z ∷ xs) y x n e = ground (arith, n, any-append xs y x (ground (arith, n)) e)

  abbrev IsTargets : List Text → Type 0
  IsTargets ts = IsOnce ts × All IsTarget ts

  collect_targets-IsTargets :
      (ts parts : List Text) → IsTargets ts → IsTargets (collect_targets env ts parts)
  unfolding collect_targets
  collect_targets-IsTargets ts [] k = k
  collect_targets-IsTargets ts (part ∷ parts) k =
      let target = trim_suffix_dot (to_lower (trim_space part)) in
      collect_targets-IsTargets
        (if text_eq target [] || not (is_valid_upstream_address env.is_ip target)
          then ts
          else if any (text_eq target) ts
          then ts
          else ts ++ target ∷ [])
        parts
        (if_cases IsTargets (text_eq target [] || not (is_valid_upstream_address env.is_ip target))
          (λ _. k)
          λ valid.
            if_cases IsTargets (any (text_eq target) ts) (λ _. k)
              λ new. (IsOnce-append ts target new k.0, All-append IsTarget ts _ k.1 (valid, tt)))

  -- Whatever the environment holds, the settings that `loadRuntimeConfig` reads have an engine and
  -- its addresses, times, rates, bursts and sizes above 0, a number of cache entries that is not
  -- negative, a type of query from 1 to 65535, and targets that are valid, each once.
  pub load_runtime_config-IsSound : IsSound (load_runtime_config env)
  unfolding load_runtime_config parse_diagnostics_targets
  load_runtime_config-IsSound =
      let targets =
        collect_targets-IsTargets []
          (split (get_env env (codes "ASTRADNS_DIAGNOSTICS_TARGETS") []) b',') (tt, tt) in
      let type =
        get_env_dns_query_type-IsType (codes "ASTRADNS_HEALTH_PROBE_TYPE") 2 (omega arith) in
      record {
        engine_type = get_env-ne _ (codes "unbound") (λ e. cc);
        listen_addr = get_env-ne _ (codes "0.0.0.0:5353") (λ e. cc);
        engine_addr = get_env-ne _ (codes "127.0.0.1:5354") (λ e. cc);
        proxy_timeout = get_env_duration-IsPositive _ _ refl;
        global_rps = get_env_positive_float-IsPositive _ _ refl;
        global_burst = get_env_positive_int-IsPositive _ _ refl;
        per_source_rps = get_env_positive_float-IsPositive _ _ refl;
        per_source_burst = get_env_positive_int-IsPositive _ _ refl;
        state_ttl = get_env_duration-IsPositive _ _ refl;
        max_src = get_env_positive_int-IsPositive _ _ refl;
        cache_entries = non_negative_int _ _ refl;
        cache_ttl = get_env_duration-IsPositive _ _ refl;
        pool_size = get_env_positive_int-IsPositive _ _ refl;
        some_type = type.0;
        type_range = type.1;
        debounce = get_env_duration-IsPositive _ _ refl;
        recovery = get_env_duration-IsPositive _ _ refl;
        error_buffer = get_env_positive_int-IsPositive _ _ refl;
        diagnostics_interval = get_env_duration-IsPositive _ _ refl;
        diagnostics_timeout = get_env_duration-IsPositive _ _ refl;
        targets_once = targets.0;
        targets_valid = targets.1;
      }
