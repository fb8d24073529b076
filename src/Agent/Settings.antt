-- ===== src/Agent/Settings.antt =====
-- cmd/agent/main.go: the settings from the environment. The proofs are in the module below.
--
-- Rates and ratios are in millionths, durations in nanoseconds. The parsers of the standard library
-- other than Atoi and ParseUint, the files and the tables of the dns package are a parameter.
pub mod Sound
use astradns_agent.Common.{
  ℕ, ◌≡◌, ◌≤◌, ◌*◌, ◌^◌, ◌-◌, ◌+◌, zero, suc, Bool, true, false, not, ◌||◌, ◌==◌, leb, Option, none,
  some, List, [], ◌∷◌, ◌++◌, reverse, Text, codes, any, text_eq, to_lower, to_upper, trim_space,
  trim_suffix_dot, split, ℤ, pos, negsuc, pos_part, not_positive, second, minute, if◌then◌else◌,
}
use astradns_agent.Common.Net.{net_split_host_port, join_host_port, atoi, unsigned}
use astradns_agent.Agent.Names.{is_valid_upstream_address}

-- What `os.Stat` finds.
pub data Stat : Type 0 where
  is_dir is_file stat_error : Stat

-- The environment, where `getenv` is empty for a variable that is not set. A parser yields `none`
-- for an error, and `parse_float` also for a value that is not a finite number. The type of a query
-- is a uint16.
pub record Environment : Type 0 where
  pub getenv : Text → Text
  pub parse_float : Text → Option ℤ
  pub parse_duration : Text → Option ℤ
  pub parse_bool : Text → Option Bool
  pub string_to_type : Text → Option ℕ
  pub is_ip : Text → Bool
  pub stat : Text → Stat
  pub dir : Text → Text
  pub ext : Text → Text
  pub join : Text → Text → Text
  pub type-le : (name : Text) (n : ℕ) → string_to_type name ≡ some n → n ≤ 65535

pub record RuntimeConfig : Type 0 where
  pub engine_type : Text
  pub listen_addr : Text
  pub engine_addr : Text
  pub metrics_addr : Text
  pub health_addr : Text
  pub config_source_dir : Text
  pub config_file : Text
  pub engine_config_dir : Text
  pub proxy_timeout : ℤ
  pub proxy_global_rate_limit_rps : ℤ
  pub proxy_global_rate_limit_burst : ℤ
  pub proxy_per_source_rate_limit_rps : ℤ
  pub proxy_per_source_rate_limit_burst : ℤ
  pub proxy_per_source_rate_limit_state_ttl : ℤ
  pub proxy_per_source_rate_limit_max_src : ℤ
  pub proxy_cache_max_entries : ℤ
  pub proxy_cache_default_ttl : ℤ
  pub engine_connection_pool_size : ℤ
  pub health_probe_domain : Text
  pub health_probe_type : ℕ
  pub config_watch_debounce : ℤ
  pub metrics_bearer_token : Text
  pub engine_recovery_interval : ℤ
  pub component_error_buffer : ℤ
  pub tracing_enabled : Bool
  pub tracing_endpoint : Text
  pub tracing_insecure : Bool
  pub tracing_sample_ratio : ℤ
  pub tracing_service_name : Text
  pub diagnostics_enabled : Bool
  pub diagnostics_targets : List Text
  pub diagnostics_interval : ℤ
  pub diagnostics_timeout : ℤ
  pub log_mode : Text
  pub log_sample_rate : ℤ

abbrev pub is_negative : ℤ → Bool
is_negative (pos n) = false
is_negative (negsuc n) = true

-- What is parsed, unless there is an error or it is refused.
abbrev pub parsed_or {ℓ} : {A : Type ℓ} → (A → Bool) → A → Option A → A
parsed_or refused fallback none = fallback
parsed_or refused fallback (some parsed) = if refused parsed then fallback else parsed

abbrev pub accepts_all {ℓ} : {A : Type ℓ} → A → Bool
accepts_all a = false

-- `strconv.ParseUint(value, 10, 16)`
abbrev pub within_uint16 : Option ℕ → Option ℕ
within_uint16 none = none
within_uint16 (some n) = if leb n 65535 then some n else none

unfoldable pub parse_uint16 : Text → Option ℕ
parse_uint16 value = within_uint16 (unsigned value)

module _ (env : Environment) where
  unfoldable pub get_env : Text → Text → Text
  get_env key fallback = let value = env.getenv key in if text_eq value [] then fallback else value

  unfoldable pub get_env_float : Text → ℤ → ℤ
  get_env_float key fallback =
      let value = env.getenv key in
      if text_eq value [] then fallback else parsed_or accepts_all fallback (env.parse_float value)

  unfoldable pub get_env_positive_float : Text → ℤ → ℤ
  get_env_positive_float key fallback =
      let value = env.getenv key in
      if text_eq value [] then fallback else parsed_or not_positive fallback (env.parse_float value)

  unfoldable pub get_env_positive_int : Text → ℤ → ℤ
  get_env_positive_int key fallback =
      let value = env.getenv key in
      if text_eq value [] then fallback else parsed_or not_positive fallback (atoi value)

  unfoldable pub get_env_non_negative_int : Text → ℤ → ℤ
  get_env_non_negative_int key fallback =
      let value = env.getenv key in
      if text_eq value [] then fallback else parsed_or is_negative fallback (atoi value)

  unfoldable pub get_env_bool : Text → Bool → Bool
  get_env_bool key fallback =
      let value = trim_space (env.getenv key) in
      if text_eq value [] then fallback else parsed_or accepts_all fallback (env.parse_bool value)

  unfoldable pub get_env_duration : Text → ℤ → ℤ
  get_env_duration key fallback =
      let value = env.getenv key in
      if text_eq value []
      then fallback
      else parsed_or not_positive fallback (env.parse_duration value)

  abbrev pub is_zero_type : ℕ → Bool
  is_zero_type n = n == 0

  -- By the name of the type, and then by its number.
  unfoldable pub get_env_dns_query_type : Text → ℕ → ℕ
  get_env_dns_query_type key fallback =
      let value = trim_space (env.getenv key) in
      let by_number = parsed_or is_zero_type fallback (parse_uint16 value) in
      if text_eq value []
      then fallback
      else parsed_or is_zero_type by_number (env.string_to_type (to_upper value))

  abbrev pub default_config_file : Text
  default_config_file = codes "config.json"

  -- The directory that is watched, and the file.
  abbrev pub paths_of : Text → Stat → Text × Text
  paths_of path is_dir = (path, env.join path default_config_file)
  paths_of path is_file = (env.dir path, path)
  paths_of path stat_error =
      if text_eq (env.ext path) (codes ".json")
      then (env.dir path, path)
      else (path, env.join path default_config_file)

  unfoldable pub resolve_config_paths : Text → Text × Text
  resolve_config_paths path = paths_of path (env.stat path)

  unfoldable pub collect_targets : List Text → List Text → List Text
  collect_targets targets [] = targets
  collect_targets targets (part ∷ parts) =
      let target = trim_suffix_dot (to_lower (trim_space part)) in
      collect_targets
        (if text_eq target [] || not (is_valid_upstream_address env.is_ip target)
          then targets
          else if any (text_eq target) targets
          then targets
          else targets ++ target ∷ [])
        parts

  unfoldable pub parse_diagnostics_targets : Text → List Text
  parse_diagnostics_targets raw = collect_targets [] (split raw b',')

  unfoldable pub load_runtime_config : RuntimeConfig
  load_runtime_config =
      let paths =
        resolve_config_paths
          (get_env (codes "ASTRADNS_CONFIG_PATH") (codes "/etc/astradns/config/config.json")) in
      record {
        engine_type = get_env (codes "ASTRADNS_ENGINE_TYPE") (codes "unbound");
        listen_addr = get_env (codes "ASTRADNS_LISTEN_ADDR") (codes "0.0.0.0:5353");
        engine_addr = get_env (codes "ASTRADNS_ENGINE_ADDR") (codes "127.0.0.1:5354");
        metrics_addr = get_env (codes "ASTRADNS_METRICS_ADDR") (codes ":9153");
        health_addr = get_env (codes "ASTRADNS_HEALTH_ADDR") (codes ":8080");
        config_source_dir = paths.0;
        config_file = paths.1;
        engine_config_dir =
            get_env (codes "ASTRADNS_ENGINE_CONFIG_DIR") (codes "/var/run/astradns/engine");
        proxy_timeout = get_env_duration (codes "ASTRADNS_PROXY_TIMEOUT") (pos (2 * second));
        proxy_global_rate_limit_rps =
            get_env_positive_float (codes "ASTRADNS_PROXY_RATE_LIMIT_GLOBAL_RPS") (pos 2000000000);
        proxy_global_rate_limit_burst =
            get_env_positive_int (codes "ASTRADNS_PROXY_RATE_LIMIT_GLOBAL_BURST") (pos 4000);
        proxy_per_source_rate_limit_rps =
            get_env_positive_float (codes "ASTRADNS_PROXY_RATE_LIMIT_PER_SOURCE_RPS")
              (pos 200000000);
        proxy_per_source_rate_limit_burst =
            get_env_positive_int (codes "ASTRADNS_PROXY_RATE_LIMIT_PER_SOURCE_BURST") (pos 400);
        proxy_per_source_rate_limit_state_ttl =
            get_env_duration (codes "ASTRADNS_PROXY_RATE_LIMIT_PER_SOURCE_STATE_TTL")
              (pos (5 * minute));
        proxy_per_source_rate_limit_max_src =
            get_env_positive_int (codes "ASTRADNS_PROXY_RATE_LIMIT_PER_SOURCE_MAX_SOURCES")
              (pos 10000);
        proxy_cache_max_entries =
            get_env_non_negative_int (codes "ASTRADNS_PROXY_CACHE_MAX_ENTRIES") (pos 10000);
        proxy_cache_default_ttl =
            get_env_duration (codes "ASTRADNS_PROXY_CACHE_DEFAULT_TTL") (pos (30 * second));
        engine_connection_pool_size =
            get_env_positive_int (codes "ASTRADNS_ENGINE_CONN_POOL_SIZE") (pos 64);
        health_probe_domain = get_env (codes "ASTRADNS_HEALTH_PROBE_DOMAIN") (codes ".");
        health_probe_type = get_env_dns_query_type (codes "ASTRADNS_HEALTH_PROBE_TYPE") 2;
        config_watch_debounce =
            get_env_duration (codes "ASTRADNS_CONFIG_WATCH_DEBOUNCE") (pos second);
        metrics_bearer_token = trim_space (get_env (codes "ASTRADNS_METRICS_BEARER_TOKEN") []);
        engine_recovery_interval =
            get_env_duration (codes "ASTRADNS_ENGINE_RECOVERY_INTERVAL") (pos (5 * second));
        component_error_buffer =
            get_env_positive_int (codes "ASTRADNS_COMPONENT_ERROR_BUFFER") (pos 5);
        tracing_enabled = get_env_bool (codes "ASTRADNS_TRACING_ENABLED") false;
        tracing_endpoint =
            trim_space (get_env (codes "ASTRADNS_TRACING_ENDPOINT") (codes "localhost:4318"));
        tracing_insecure = get_env_bool (codes "ASTRADNS_TRACING_INSECURE") true;
        tracing_sample_ratio = get_env_float (codes "ASTRADNS_TRACING_SAMPLE_RATIO") (pos 100000);
        tracing_service_name =
            trim_space (get_env (codes "ASTRADNS_TRACING_SERVICE_NAME") (codes "astradns-agent"));
        diagnostics_enabled = get_env_bool (codes "ASTRADNS_DIAGNOSTICS_ENABLED") false;
        diagnostics_targets =
            parse_diagnostics_targets (get_env (codes "ASTRADNS_DIAGNOSTICS_TARGETS") []);
        diagnostics_interval =
            get_env_duration (codes "ASTRADNS_DIAGNOSTICS_INTERVAL") (pos minute);
        diagnostics_timeout =
            get_env_duration (codes "ASTRADNS_DIAGNOSTICS_TIMEOUT") (pos (3 * second));
        log_mode = get_env (codes "ASTRADNS_LOG_MODE") (codes "sampled");
        log_sample_rate = get_env_float (codes "ASTRADNS_LOG_SAMPLE_RATE") (pos 100000);
      }

abbrev pub wildcard_or : Text → Text
wildcard_or host =
    if text_eq host []
      || (text_eq host (codes "0.0.0.0")
          || (text_eq host (codes "::") || text_eq host (codes "[::]")))
    then codes "127.0.0.1"
    else host

abbrev pub port_text_or : Text → Option ℤ → Text
port_text_or text none = codes "5353"
port_text_or text (some port) = text

abbrev pub resolver_of : Option (Text × Text) → Text
resolver_of none = codes "127.0.0.1:5353"
resolver_of (some (host, port_text)) =
    join_host_port (wildcard_or host) (port_text_or port_text (atoi port_text))

unfoldable pub diagnostics_resolver_address : Text → Text
diagnostics_resolver_address listen_addr = resolver_of (net_split_host_port listen_addr)
