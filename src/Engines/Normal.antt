-- ===== src/Engines/Normal.antt =====
-- What a configuration is once a driver has normalised it.
use astradns_agent.Common.{
  ℕ, ◌≤◌, ◌≡◌, ◌⊎◌, inl, inr, refl, false, List, [], ◌∷◌, Text, All, arith, map, ltb, not, text_eq,
  text_eq_iff, to_lower, trim_space, ℤ, pos, negsuc, pos_part, is_zero, not_positive, to_int32,
  if◌then◌else◌, if_cases,
}
use astradns_agent.Types.{EngineTypes, Upstream, EngineConfig}
use astradns_agent.Engines.Normalize.{
  normalize_worker_threads, positive_or, default_port_for_transport, normalize_upstream_transport,
  normalize_dnssec_mode, normalized_port, normalized_tls_server_name,
}
use astradns_agent.Engines.Unbound
use astradns_agent.Engines.Bind
use astradns_agent.Engines.Powerdns
use astradns_agent.Engines.Coredns
use astradns_agent.Engines.Drivers.{EngineType, unbound, bind, powerdns, coredns, driver_of}

module _ (t : EngineTypes) where
  abbrev pub IsTransport : Text → Type 0
  IsTransport s = (s ≡ t.transport_dns) ⊎ ((s ≡ t.transport_dot) ⊎ (s ≡ t.transport_doh))

  abbrev pub IsMode : Text → Type 0
  IsMode s = (s ≡ t.dnssec_mode_off) ⊎ ((s ≡ t.dnssec_mode_process) ⊎ (s ≡ t.dnssec_mode_validate))

  -- A transport in its proper spelling, a port other than 0, a weight and a preference above 0, and
  -- no server name for plain DNS.
  pub record IsNormalUpstream (u : Upstream) : Type 0 where
    pub transport : IsTransport u.transport
    pub port : is_zero u.port ≡ false
    pub plain_unnamed : u.transport ≡ t.transport_dns → u.tls_server_name ≡ []
    pub weight : 1 ≤ pos_part u.weight
    pub preference : 1 ≤ pos_part u.preference

  -- With 1 to 256 threads and one of the three modes.
  pub record IsNormalConfig (cfg : EngineConfig) : Type 0 where
    pub some_threads : 1 ≤ pos_part cfg.worker_threads
    pub few_threads : pos_part cfg.worker_threads ≤ 256
    pub dnssec : IsMode cfg.dnssec_mode
    pub upstreams : All IsNormalUpstream cfg.upstreams

  normalize_upstream_transport-IsTransport :
      (s : Text) → IsTransport (normalize_upstream_transport t s)
  unfolding normalize_upstream_transport
  normalize_upstream_transport-IsTransport s =
      if_cases IsTransport (text_eq (to_lower (trim_space s)) t.transport_dot) (λ _. inr (inl refl))
        λ _.
          if_cases IsTransport (text_eq (to_lower (trim_space s)) t.transport_doh)
            (λ _. inr (inr refl)) λ _. inl refl

  normalize_dnssec_mode-IsMode : (s : Text) → IsMode (normalize_dnssec_mode t s)
  unfolding normalize_dnssec_mode
  normalize_dnssec_mode-IsMode s =
      if_cases IsMode (text_eq (to_lower (trim_space s)) t.dnssec_mode_process)
        (λ _. inr (inl refl))
        λ _.
          if_cases IsMode (text_eq (to_lower (trim_space s)) t.dnssec_mode_validate)
            (λ _. inr (inr refl)) λ _. inl refl

  normalized_port-nonzero :
      (port : ℤ) (transport : Text) → is_zero (normalized_port t port transport) ≡ false
  unfolding default_port_for_transport
  normalized_port-nonzero port transport = ground arith

  positive_or-positive : (z : ℤ) (n : ℕ) → 1 ≤ n → 1 ≤ pos_part (positive_or z n)
  positive_or-positive (pos n) d h = ground (arith, h)
  positive_or-positive (negsuc n) d h = h

  worker_threads-bounds :
      (cpus value : ℤ)
      → (1 ≤ pos_part (normalize_worker_threads cpus value))
        × (pos_part (normalize_worker_threads cpus value) ≤ 256)
  unfolding normalize_worker_threads
  worker_threads-bounds cpus value = bounds (to_int32 cpus) value
    where
      bounds :
          (auto value : ℤ)
          → let n = pos_part (
              if ltb 256 (pos_part value)
              then pos 256
              else if not (not_positive value)
              then value
              else if not_positive auto
              then pos 2
              else if ltb 256 (pos_part auto)
              then pos 256
              else auto) in
            (1 ≤ n) × (n ≤ 256)
      bounds (pos m) (pos n) = ground arith
      bounds (negsuc m) (pos n) = ground arith
      bounds (pos m) (negsuc n) = ground arith
      bounds (negsuc m) (negsuc n) = ground arith

  unnamed_if_dns :
      (transport name : Text)
      → transport ≡ t.transport_dns
      → (if text_eq transport t.transport_dns then [] else name) ≡ []
  unnamed_if_dns transport name e = rw ((text_eq_iff transport t.transport_dns).1 e) refl

  abbrev IsNormalizer : (Upstream → Upstream) → Type 0
  IsNormalizer f = (u : Upstream) → IsNormalUpstream (f u)

  -- The drivers differ in the server name only.
  named-IsNormalUpstream :
      (u : Upstream) (name : Text)
      → (normalize_upstream_transport t u.transport ≡ t.transport_dns → name ≡ [])
      → IsNormalUpstream (record {
        address = u.address;
        port = normalized_port t u.port (normalize_upstream_transport t u.transport);
        transport = normalize_upstream_transport t u.transport;
        tls_server_name = name;
        weight = positive_or u.weight 1;
        preference = positive_or u.preference 100;
      })
  named-IsNormalUpstream u name e = record {
    transport = normalize_upstream_transport-IsTransport u.transport;
    port = normalized_port-nonzero u.port _;
    plain_unnamed = e;
    weight = positive_or-positive u.weight 1 (omega arith);
    preference = positive_or-positive u.preference 100 (omega arith);
  }

  map-All :
      (f : Upstream → Upstream)
      → IsNormalizer f
      → (us : List Upstream) → All IsNormalUpstream (map f us)
  map-All f n [] = tt
  map-All f n (u ∷ us) = (n u, map-All f n us)

  normalizes :
      (cpus : ℤ) (cfg : EngineConfig) (f : Upstream → Upstream)
      → IsNormalizer f
      → IsNormalConfig (record cfg {
        worker_threads = normalize_worker_threads cpus cfg.worker_threads;
        dnssec_mode = normalize_dnssec_mode t cfg.dnssec_mode;
        upstreams = map f cfg.upstreams;
      })
  normalizes cpus cfg f n = record {
    some_threads = (worker_threads-bounds cpus cfg.worker_threads).0;
    few_threads = (worker_threads-bounds cpus cfg.worker_threads).1;
    dnssec = normalize_dnssec_mode-IsMode cfg.dnssec_mode;
    upstreams = map-All f n cfg.upstreams;
  }

  -- Whatever a configuration holds, each driver normalises it to 1 to 256 worker threads, one of
  -- the three DNSSEC modes, and upstreams each with one of the three transports, a port other than
  -- 0, a weight and a preference above 0, and no server name for plain DNS.
  pub normalize_config-IsNormalConfig :
      (cpus : ℤ) (e : EngineType) (cfg : EngineConfig)
      → IsNormalConfig ((driver_of t cpus e).normalize_config cfg)
  unfolding driver_of
  normalize_config-IsNormalConfig cpus unbound cfg =
      unfold Unbound.unbound_driver Unbound.normalize_config Unbound.normalize_upstream
        normalized_tls_server_name in
      normalizes cpus cfg _ (λ u. named-IsNormalUpstream u _ (unnamed_if_dns _ _))
  normalize_config-IsNormalConfig cpus bind cfg =
      unfold Bind.bind_driver Bind.normalize_config Bind.normalize_upstream in
      normalizes cpus cfg _ (λ u. named-IsNormalUpstream u _ (unnamed_if_dns _ _))
  normalize_config-IsNormalConfig cpus powerdns cfg =
      unfold Powerdns.powerdns_driver Powerdns.normalize_config Powerdns.normalize_upstream in
      normalizes cpus cfg _ (λ u. named-IsNormalUpstream u _ (unnamed_if_dns _ _))
  normalize_config-IsNormalConfig cpus coredns cfg =
      unfold Coredns.coredns_driver Coredns.normalize_config Coredns.normalize_upstream
        normalized_tls_server_name in
      normalizes cpus cfg _ (λ u. named-IsNormalUpstream u _ (unnamed_if_dns _ _))
