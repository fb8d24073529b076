-- ===== src/Agent/Validate/Accepts.antt =====
-- What an accepted configuration is.
use astradns_agent.Common.{
  ℕ, suc, ◌≤◌, ◌≡◌, ◌≢◌, ◌↔◌, refl, ap, sym, ◌∙◌, Bool, true, false, Option, none, some, List, [],
  ◌∷◌, Text, All, arith, any, text_eq, text_eq_iff, to_lower, trim_space, trim_suffix_dot,
  Bool-cases, inl, inr, ℤ, pos_part,
}
use astradns_agent.Agent.Names.{is_valid_upstream_address, is_dns1123_subdomain}
use astradns_agent.Agent.Validate.{
  ConfigError, out_of_range, reject, reject_blank, parse_upstream_transport, effective_port,
  key_of_upstream, reject_of_transport, reject_upstreams, reject_cache, is_supported_dnssec_mode,
  no_upstreams, validate_engine_config,
}
use astradns_agent.Types.{EngineTypes, Upstream, EngineConfig}

-- A number from 1 to a greatest.
abbrev pub IsWithin : ℤ → ℕ → Type 0
IsWithin value max = (1 ≤ pos_part value) × (pos_part value ≤ max)

reject_iff {ℓ} :
    {E : Type ℓ} (bad : Bool) (e : E) (rest : Option E)
    → (reject bad e rest ≡ none) ↔ ((bad ≡ false) × (rest ≡ none))
unfolding reject
reject_iff true e rest = (λ h. cc, λ h. cc)
reject_iff false e rest = (λ h. (refl, h), λ h. h.1)

out_of_range_iff : (value : ℤ) (max : ℕ) → (out_of_range value max ≡ false) ↔ IsWithin value max
out_of_range_iff value max = ground arith

abbrev pub IsWritten : Text → Type 0
IsWritten pattern = trim_space pattern ≢ []

reject_blank_iff :
    (e : ℕ → ConfigError) (i : ℕ) (patterns : List Text) (rest : Option ConfigError)
    → (reject_blank e i patterns rest ≡ none) ↔ (All IsWritten patterns × (rest ≡ none))
unfolding reject_blank
reject_blank_iff e i [] rest = (λ h. (tt, h), λ h. h.1)
reject_blank_iff e i (p ∷ patterns) rest =
    let first =
      reject_iff (text_eq (trim_space p) []) (e i) (reject_blank e (suc i) patterns rest) in
    let later = reject_blank_iff e (suc i) patterns rest in
    let blank = text_eq_iff (trim_space p) [] in
    (
      λ h. (
        (λ empty. true-ne-false (sym (blank.1 empty) ∙ (first.0 h).0), (later.0 (first.0 h).1).0),
        (later.0 (first.0 h).1).1,
      ),
      λ h. first.1 (
        elim (Bool-cases (text_eq (trim_space p) [])) [
          | inl empty ↦ absurd (h.0.0 (blank.0 empty))
          | inr written ↦ written
        ],
        later.1 (h.0.1, h.1),
      ),
    )
  where
    true-ne-false : true ≢ false
    true-ne-false e = cc

module _ (t : EngineTypes) where
  -- An upstream that the engine can be given.
  pub record IsUsable (u : Upstream) (transport : Text) : Type 0 where
    pub address_trimmed : u.address ≡ trim_space u.address
    pub address_valid : is_valid_upstream_address t.is_ip (trim_space u.address) ≡ true
    pub transport_known : parse_upstream_transport t u.transport ≡ some transport
    pub port : IsWithin (effective_port t u.port transport) 65535
    pub plain_unnamed : transport ≡ t.transport_dns → trim_space u.tls_server_name ≡ []
    pub name_valid :
        trim_space u.tls_server_name ≢ []
        → is_dns1123_subdomain (trim_suffix_dot (to_lower (trim_space u.tls_server_name))) ≡ true
    pub weight : IsWithin u.weight 100
    pub preference : IsWithin u.preference 1000

  -- Each upstream is usable, and its key is none of those before.
  abbrev pub AllUsable : List Text → List Upstream → Type 0
  AllUsable seen [] = Unit
  AllUsable seen (u ∷ upstreams) =
      (transport : Text) × (IsUsable u transport
        × ((any (text_eq (key_of_upstream t u transport)) seen ≡ false)
            × AllUsable (key_of_upstream t u transport ∷ seen) upstreams))

  -- What the round of one upstream tests, where it passes.
  reject_of_transport_passes :
      (i : ℕ) (seen : List Text) (u : Upstream) (o : Option Text)
      (later : Text → Option ConfigError)
      → u.address ≡ trim_space u.address
      → is_valid_upstream_address t.is_ip (trim_space u.address) ≡ true
      → parse_upstream_transport t u.transport ≡ o
      → reject_of_transport t i seen u o later ≡ none
      → (transport : Text) × (IsUsable u transport
          × ((any (text_eq (key_of_upstream t u transport)) seen ≡ false)
              × (later (key_of_upstream t u transport) ≡ none)))
  unfolding reject_of_transport
  reject_of_transport_passes i seen u none later trimmed valid known h = cc
  reject_of_transport_passes i seen u (some transport) later trimmed valid known h =
      let port = (reject_iff _ _ _).0 h in
      let unused = (reject_iff _ _ _).0 port.1 in
      let name = (reject_iff _ _ _).0 unused.1 in
      let weight = (reject_iff _ _ _).0 name.1 in
      let preference = (reject_iff _ _ _).0 weight.1 in
      let new = (reject_iff _ _ _).0 preference.1 in
      (
        transport,
        (
          record {
            address_trimmed = trimmed;
            address_valid = valid;
            transport_known = known;
            port = (out_of_range_iff (effective_port t u.port transport) 65535).0 port.0;
            plain_unnamed = λ e. ground (
              arith,
              unused.0,
              text_eq_iff transport t.transport_dns,
              text_eq_iff (trim_space u.tls_server_name) [],
            );
            name_valid =
                λ ne. ground (arith, name.0, text_eq_iff (trim_space u.tls_server_name) []);
            weight = (out_of_range_iff u.weight 100).0 weight.0;
            preference = (out_of_range_iff u.preference 1000).0 preference.0;
          },
          (new.0, new.1),
        ),
      )

  reject_upstreams_passes :
      (i : ℕ) (seen : List Text) (upstreams : List Upstream) (rest : Option ConfigError)
      → reject_upstreams t i seen upstreams rest ≡ none
      → AllUsable seen upstreams × (rest ≡ none)
  unfolding reject_upstreams
  reject_upstreams_passes i seen [] rest h = (tt, h)
  reject_upstreams_passes i seen (u ∷ upstreams) rest h =
      let spaces = (reject_iff _ _ _).0 h in
      let valid = (reject_iff _ _ _).0 spaces.1 in
      let round =
        reject_of_transport_passes i seen u (parse_upstream_transport t u.transport) _
          (ground (arith, spaces.0, text_eq_iff u.address (trim_space u.address)))
          (ground (arith, valid.0)) refl valid.1 in
      let later =
        reject_upstreams_passes (suc i) (key_of_upstream t u round.0 ∷ seen) upstreams rest
          round.1.1.1 in
      ((round.0, (round.1.0, (round.1.1.0, later.0))), later.1)

  -- A configuration that the engine can be given.
  pub record IsDeployable (cfg : EngineConfig) : Type 0 where
    pub listen_addr : trim_space cfg.listen_addr ≢ []
    pub listen_port : IsWithin cfg.listen_port 65535
    pub worker_threads : IsWithin cfg.worker_threads 256
    pub dnssec : is_supported_dnssec_mode t cfg.dnssec_mode ≡ true
    pub some_upstream : cfg.upstreams ≢ []
    pub upstreams : AllUsable [] cfg.upstreams
    pub max_entries : 1 ≤ pos_part cfg.cache.max_entries
    pub positive_ttl_min : 1 ≤ pos_part cfg.cache.positive_ttl_min
    pub ttl_order : pos_part cfg.cache.positive_ttl_min ≤ pos_part cfg.cache.positive_ttl_max
    pub negative_ttl : 1 ≤ pos_part cfg.cache.negative_ttl
    pub prefetch_threshold : 1 ≤ pos_part cfg.cache.prefetch_threshold
    pub allow : All IsWritten cfg.filter_allow
    pub deny : All IsWritten cfg.filter_deny

  -- A configuration that `validateEngineConfig` accepts can be given to the engine: its numbers are
  -- in range and in order, its patterns are not blank, and it has upstreams, each with a valid
  -- address without spaces around it, a known transport, a port, a server name that fits, a weight
  -- and a preference in range, and with a key of transport, address and port of its own.
  pub validate_engine_config-IsDeployable :
      (cfg : EngineConfig) → validate_engine_config t cfg ≡ none → IsDeployable cfg
  unfolding validate_engine_config reject_cache
  validate_engine_config-IsDeployable cfg h =
      let addr = (reject_iff _ _ _).0 h in
      let port = (reject_iff _ _ _).0 addr.1 in
      let threads = (reject_iff _ _ _).0 port.1 in
      let dnssec = (reject_iff _ _ _).0 threads.1 in
      let more = (reject_iff _ _ _).0 dnssec.1 in
      let ups = reject_upstreams_passes 0 [] cfg.upstreams _ more.1 in
      let entries = (reject_iff _ _ _).0 ups.1 in
      let least = (reject_iff _ _ _).0 entries.1 in
      let most = (reject_iff _ _ _).0 least.1 in
      let negative = (reject_iff _ _ _).0 most.1 in
      let prefetch = (reject_iff _ _ _).0 negative.1 in
      let order = (reject_iff _ _ _).0 prefetch.1 in
      let allow = (reject_blank_iff _ 0 cfg.filter_allow _).0 order.1 in
      let deny = (reject_blank_iff _ 0 cfg.filter_deny _).0 allow.1 in
      record {
        listen_addr = λ e. ground (arith, addr.0, text_eq_iff (trim_space cfg.listen_addr) []);
        listen_port = (out_of_range_iff cfg.listen_port 65535).0 port.0;
        worker_threads = (out_of_range_iff cfg.worker_threads 256).0 threads.0;
        dnssec = ground (arith, dnssec.0);
        some_upstream = λ e. ground (arith, more.0, ap no_upstreams e);
        upstreams = ups.0;
        max_entries = ground (arith, entries.0);
        positive_ttl_min = ground (arith, least.0);
        ttl_order = ground (arith, order.0);
        negative_ttl = ground (arith, negative.0);
        prefetch_threshold = ground (arith, prefetch.0);
        allow = allow.0;
        deny = deny.0;
      }
