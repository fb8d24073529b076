-- ===== src/Agent/Load/Normal.antt =====
-- What a configuration is after it has been read.
use astradns_agent.Common.{
  ◌≤◌, ◌≡◌, ◌≢◌, inl, inr, refl, some-injective, true, false, ltb, Option, none, some, List, [],
  ◌∷◌, Text, codes, All, arith, map, text_eq, text_eq_iff, text_eq_refl, ℤ, pos, negsuc, pos_part,
  is_zero, not_positive, to_int32, if◌then◌else◌, Bool-cases,
}
use astradns_agent.Common.Net.{net_split_host_port, atoi}
use astradns_agent.Types.{EngineTypes, Upstream, EngineConfig}
use astradns_agent.Agent.Validate.{is_supported_dnssec_mode, no_upstreams}
use astradns_agent.Agent.Load.{
  FileRead, not_exist, read_error, json_error, parsed, port_or, host_port_or, split_host_port,
  default_engine_config, filled_upstream, filled_config, filled_cache, capped_threads, nonzero_or,
  load_engine_config, resolve_default_worker_threads,
}
use astradns_agent.Agent.Load.Filled.{IsFilled, parse-dns, nonzero_or-nonzero, map-IsFilled}

module _ (t : EngineTypes) where
  -- What reading guarantees, before the validation.
  pub record IsNormal (cfg : EngineConfig) : Type 0 where
    pub listen_addr : cfg.listen_addr ≢ []
    pub some_threads : is_zero cfg.worker_threads ≡ false
    pub few_threads : pos_part cfg.worker_threads ≤ 256
    pub dnssec : is_supported_dnssec_mode t cfg.dnssec_mode ≡ true
    pub some_upstream : cfg.upstreams ≢ []
    pub upstreams : All (IsFilled t) cfg.upstreams
    pub max_entries : is_zero cfg.cache.max_entries ≡ false
    pub positive_ttl_min : is_zero cfg.cache.positive_ttl_min ≡ false
    pub positive_ttl_max : is_zero cfg.cache.positive_ttl_max ≡ false
    pub negative_ttl : is_zero cfg.cache.negative_ttl ≡ false
    pub prefetch_threshold : is_zero cfg.cache.prefetch_threshold ≡ false

  host-ne-nil : (addr h : Text) (p : ℤ) → h ≢ [] → (split_host_port addr h p).0 ≢ []
  unfolding split_host_port
  host-ne-nil addr h p ne = of_split (net_split_host_port addr)
    where
      of_port : (host : Text) (o : Option ℤ) → (port_or h p host o).0 ≢ []
      of_port host none = ne
      of_port host (some port) = elim (Bool-cases (text_eq host [])) [
        | inl e ↦ rw e ne
        | inr e ↦ rw e (λ nil. ground (arith, e, (text_eq_iff host []).1 nil))
      ]

      of_split : (o : Option (Text × Text)) → (host_port_or h p o).0 ≢ []
      of_split none = ne
      of_split (some (host, port_text)) = of_port host (atoi port_text)

  default_threads :
      (cpus : ℤ)
      → (is_zero (resolve_default_worker_threads cpus) ≡ false)
        × (pos_part (resolve_default_worker_threads cpus) ≤ 256)
  unfolding resolve_default_worker_threads
  default_threads cpus = of_auto (to_int32 cpus)
    where
      of_auto :
          (auto : ℤ)
          → (is_zero (
                if not_positive auto
                then pos 2
                else if ltb 256 (pos_part auto)
                then pos 256
                else auto)
              ≡ false)
            × (pos_part (
                  if not_positive auto
                  then pos 2
                  else if ltb 256 (pos_part auto)
                  then pos 256
                  else auto)
                ≤ 256)
      of_auto (pos n) = ground arith
      of_auto (negsuc n) = ground arith

  off-supported : is_supported_dnssec_mode t t.dnssec_mode_off ≡ true
  unfolding is_supported_dnssec_mode
  off-supported = rw (t.off_plain, text_eq_refl t.dnssec_mode_off) (ground arith)

  default_engine_config-IsNormal :
      (cpus : ℤ) (engine_addr : Text) → IsNormal (default_engine_config t cpus engine_addr)
  unfolding default_engine_config
  default_engine_config-IsNormal cpus engine_addr = record {
    listen_addr = host-ne-nil engine_addr (codes "127.0.0.1") (pos 5354) (λ e. cc);
    some_threads = (default_threads cpus).0;
    few_threads = (default_threads cpus).1;
    dnssec = off-supported;
    some_upstream = λ e. cc;
    upstreams = (
      record {
        transport = parse-dns t;
        port = refl;
        plain_unnamed = λ e. refl;
        weight = refl;
        preference = refl;
      },
      tt,
    );
    max_entries = refl;
    positive_ttl_min = refl;
    positive_ttl_max = refl;
    negative_ttl = refl;
    prefetch_threshold = refl;
  }

  threads-capped :
      (z d : ℤ)
      → is_zero d ≡ false
      → (is_zero (capped_threads t (nonzero_or z d)) ≡ false)
        × (pos_part (capped_threads t (nonzero_or z d)) ≤ 256)
  threads-capped z d h = capped (nonzero_or z d) (nonzero_or-nonzero t z d h)
    where
      capped :
          (z : ℤ)
          → is_zero z ≡ false
          → (is_zero (capped_threads t z) ≡ false) × (pos_part (capped_threads t z) ≤ 256)
      capped (pos n) h = ground (arith, h)
      capped (negsuc n) h = ground arith

  map-ne-nil : (us : List Upstream) → us ≢ [] → map (filled_upstream t) us ≢ []
  map-ne-nil [] ne = ne
  map-ne-nil (u ∷ us) ne = λ e. cc

  given-ne-nil : (us ds : List Upstream) → ds ≢ [] → (if no_upstreams us then ds else us) ≢ []
  given-ne-nil [] ds ne = ne
  given-ne-nil (u ∷ us) ds ne = λ e. cc

  filled_config-IsNormal : (d cfg : EngineConfig) → IsNormal d → IsNormal (filled_config t d cfg)
  unfolding filled_config filled_cache
  filled_config-IsNormal d cfg n =
      let threads = threads-capped cfg.worker_threads d.worker_threads n.some_threads in
      record {
        listen_addr = λ e. ground (arith, n.listen_addr, e, text_eq_iff cfg.listen_addr []);
        some_threads = threads.0;
        few_threads = threads.1;
        dnssec = ground (arith, n.dnssec);
        some_upstream = map-ne-nil _ (given-ne-nil cfg.upstreams d.upstreams n.some_upstream);
        upstreams = map-IsFilled t _;
        max_entries = ground (arith, n.max_entries);
        positive_ttl_min = ground (
          arith,
          n.positive_ttl_min,
          nonzero_or-nonzero t cfg.cache.positive_ttl_min d.cache.positive_ttl_min
              n.positive_ttl_min,
        );
        positive_ttl_max = ground (
          arith,
          n.positive_ttl_max,
          nonzero_or-nonzero t cfg.cache.positive_ttl_max d.cache.positive_ttl_max
              n.positive_ttl_max,
        );
        negative_ttl = ground (
          arith,
          n.negative_ttl,
          nonzero_or-nonzero t cfg.cache.negative_ttl d.cache.negative_ttl n.negative_ttl,
        );
        prefetch_threshold = ground (
          arith,
          n.prefetch_threshold,
          nonzero_or-nonzero t cfg.cache.prefetch_threshold d.cache.prefetch_threshold
              n.prefetch_threshold,
        );
      }

  -- Whatever the file holds, a configuration that `loadEngineConfig` returns has an address, 1 to
  -- 256 threads or a negative number of them, a DNSSEC mode that is supported, upstreams, each
  -- with a known transport in its proper spelling, no server name for plain DNS, and a port, a
  -- weight and a preference other than 0, and numbers other than 0 for the cache.
  pub load_engine_config-IsNormal :
      (cpus : ℤ) (engine_addr : Text) (file : FileRead) (cfg : EngineConfig)
      → load_engine_config t cpus engine_addr file ≡ some cfg
      → IsNormal cfg
  unfolding load_engine_config
  load_engine_config-IsNormal cpus engine_addr not_exist cfg h =
      rw (← some-injective h) (default_engine_config-IsNormal cpus engine_addr)
  load_engine_config-IsNormal cpus engine_addr read_error cfg h = cc
  load_engine_config-IsNormal cpus engine_addr json_error cfg h = cc
  load_engine_config-IsNormal cpus engine_addr (parsed given) cfg h = rw (← some-injective h) (
      filled_config-IsNormal (default_engine_config t cpus engine_addr) given
        (default_engine_config-IsNormal cpus engine_addr))
