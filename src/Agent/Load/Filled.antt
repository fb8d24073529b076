-- ===== src/Agent/Load/Filled.antt =====
-- What an upstream is after it has been read.
use astradns_agent.Common.{
  ◌≡◌, ◌≢◌, inl, inr, refl, sym, false, ◌||◌, Option, some, List, [], ◌∷◌, Text, All, arith, map,
  text_eq, text_eq_iff, text_eq_refl, to_lower, trim_space, ℤ, pos, is_zero, if_cases, Bool-cases,
}
use astradns_agent.Types.{EngineTypes, Upstream}
use astradns_agent.Agent.Validate.{parse_upstream_transport, default_port_for_transport}
use astradns_agent.Agent.Load.{
  transport_or_dns, filled_tls_server_name, filled_upstream, nonzero_or,
}

module _ (t : EngineTypes) where
  -- A transport in the spelling of its constant, a port, a weight and a preference that are not 0,
  -- and no server name for plain DNS.
  pub record IsFilled (u : Upstream) : Type 0 where
    pub transport : parse_upstream_transport t u.transport ≡ some u.transport
    pub port : is_zero u.port ≡ false
    pub plain_unnamed : u.transport ≡ t.transport_dns → u.tls_server_name ≡ []
    pub weight : is_zero u.weight ≡ false
    pub preference : is_zero u.preference ≡ false

  text_eq-ne : (a b : Text) → a ≢ b → text_eq a b ≡ false
  text_eq-ne a b ne = elim (Bool-cases (text_eq a b)) [
    | inl e ↦ absurd (ne ((text_eq_iff a b).0 e))
    | inr e ↦ e
  ]

  pub parse-dns : parse_upstream_transport t t.transport_dns ≡ some t.transport_dns
  unfolding parse_upstream_transport
  parse-dns = rw (t.transports.dns_plain, text_eq_refl t.transport_dns) (ground arith)

  parse-dot : parse_upstream_transport t t.transport_dot ≡ some t.transport_dot
  unfolding parse_upstream_transport
  parse-dot =
      rw
        (
          t.transports.dot_plain,
          text_eq-ne t.transport_dot [] t.transports.dot-ne-nil,
          text_eq-ne t.transport_dot t.transport_dns (λ e. t.transports.dns-ne-dot (sym e)),
          text_eq_refl t.transport_dot,
        )
        refl

  parse-doh : parse_upstream_transport t t.transport_doh ≡ some t.transport_doh
  unfolding parse_upstream_transport
  parse-doh =
      rw
        (
          t.transports.doh_plain,
          text_eq-ne t.transport_doh [] t.transports.doh-ne-nil,
          text_eq-ne t.transport_doh t.transport_dns (λ e. t.transports.dns-ne-doh (sym e)),
          text_eq-ne t.transport_doh t.transport_dot (λ e. t.transports.dot-ne-doh (sym e)),
          text_eq_refl t.transport_doh,
        )
        refl

  parse-again :
      (s : Text)
      → let transport = transport_or_dns t (parse_upstream_transport t s) in
        parse_upstream_transport t transport ≡ some transport
  parse-again s =
      let trimmed = to_lower (trim_space s) in
      let Stays : Option Text → Type 0 =
        λ o. parse_upstream_transport t (transport_or_dns t o) ≡ some (transport_or_dns t o) in
      unfold parse_upstream_transport in
      if_cases Stays (text_eq trimmed [] || text_eq trimmed t.transport_dns) (λ _. parse-dns)
        λ _.
          if_cases Stays (text_eq trimmed t.transport_dot) (λ _. parse-dot)
            λ _. if_cases Stays (text_eq trimmed t.transport_doh) (λ _. parse-doh) λ _. parse-dns

  default_port-nonzero : (s : Text) → is_zero (pos (default_port_for_transport t s)) ≡ false
  unfolding default_port_for_transport
  default_port-nonzero s = ground arith

  pub nonzero_or-nonzero : (z d : ℤ) → is_zero d ≡ false → is_zero (nonzero_or z d) ≡ false
  nonzero_or-nonzero z d h = ground (arith, h)

  pub filled_upstream-IsFilled : (u : Upstream) → IsFilled (filled_upstream t u)
  unfolding filled_upstream
  filled_upstream-IsFilled u = record {
    transport = parse-again u.transport;
    port = nonzero_or-nonzero u.port _ (default_port-nonzero _);
    plain_unnamed = λ e. unfold filled_tls_server_name in rw ((text_eq_iff _ _).1 e) refl;
    weight = nonzero_or-nonzero u.weight (pos 1) refl;
    preference = nonzero_or-nonzero u.preference (pos 100) refl;
  }

  pub map-IsFilled : (us : List Upstream) → All IsFilled (map (filled_upstream t) us)
  map-IsFilled [] = tt
  map-IsFilled (u ∷ us) = (filled_upstream-IsFilled u, map-IsFilled us)
