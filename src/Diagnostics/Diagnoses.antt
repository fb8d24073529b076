-- ===== src/Diagnostics/Diagnoses.antt =====
-- What the diagnosis of a target says of the network.
use astradns_agent.Common.{
  ℕ, ◌≡◌, refl, ap, sym, ◌∙◌, true, false, not, ◌&&◌, ◌||◌, Bool-cases, inl, inr, Option, none,
  some, is_some, List, [], ◌∷◌, ◌++◌, Text, codes, arith, if◌then◌else◌, if_cases,
}
use astradns_agent.Common.Net.{join_host_port}
use astradns_agent.Diagnostics.{
  Diagnosis, healthy, dns_resolution_failed, egress_blocked_or_network, tls_handshake_failed,
  tls_sni_required, provider_block_suspected, Config, Network,
}
use astradns_agent.Diagnostics.Classify.{Outcome, is_nil, is_denial, classify_outcome}
use astradns_agent.Diagnostics.Probe.{
  Resolved, resolve_target, probe_endpoints, https_if, probe_connected, outcome_of, probe_network,
  probe_target,
}

abbrev pub endpoint_of : Text → Text
endpoint_of ip = join_host_port ip (codes "443")

module _ (w : Network) where
  -- The first endpoint of the addresses that is reached.
  unfoldable pub first_reached : List Text → Option Text
  first_reached [] = none
  first_reached (ip ∷ ips) =
      let rest = first_reached ips in
      if is_some (w.dial (endpoint_of ip)) then rest else some (endpoint_of ip)

  -- What a diagnosis means, of the addresses and the error of the resolution.
  abbrev pub Means : Text → List Text → Option Text → Diagnosis → Type 0
  Means target ips err dns_resolution_failed = (is_some err || is_nil ips) ≡ true
  Means target ips err egress_blocked_or_network =
      ((is_some err || is_nil ips) ≡ false) × (first_reached ips ≡ none)
  Means target ips err tls_handshake_failed =
      ((is_some err || is_nil ips) ≡ false)
      × (e : Text) × (first_reached ips ≡ some e)
      × (is_some (w.handshake e target true) ≡ true)
  Means target ips err tls_sni_required =
      ((is_some err || is_nil ips) ≡ false)
      × (e : Text) × (first_reached ips ≡ some e)
      × (w.handshake e target true ≡ none)
      × (is_some (w.handshake e target false) ≡ true)
  Means target ips err provider_block_suspected =
      ((is_some err || is_nil ips) ≡ false)
      × (e : Text) × (first_reached ips ≡ some e)
      × (w.handshake e target true ≡ none)
      × (w.handshake e target false ≡ none)
      × (is_denial (w.https_status target e).0 ≡ true)
  Means target ips err healthy =
      ((is_some err || is_nil ips) ≡ false)
      × (e : Text) × (first_reached ips ≡ some e)
      × (w.handshake e target true ≡ none)
      × (w.handshake e target false ≡ none)
      × (is_denial (w.https_status target e).0 ≡ false)

  -- The loop finds the first endpoint that is reached.
  abbrev Finds : Option Text → Text × Option Text → Type 0
  Finds none r = is_some r.1 ≡ true
  Finds (some e) r = r ≡ (e, none)

  probe_endpoints-Finds :
      (ips errors : List Text) → Finds (first_reached ips) (probe_endpoints w ips errors)
  unfolding first_reached probe_endpoints
  probe_endpoints-Finds [] errors =
      if_cases (λ (r : Text × Option Text). is_some r.1 ≡ true) (is_nil errors) (λ _. refl)
        λ _. refl
  probe_endpoints-Finds (ip ∷ ips) errors =
      of_dial (w.dial (endpoint_of ip)) (probe_endpoints-Finds ips)
    where
      of_dial :
          (o : Option Text)
          → ((errors : List Text) → Finds (first_reached ips) (probe_endpoints w ips errors))
          → Finds (if is_some o then first_reached ips else some (endpoint_of ip)) (elim o [
            | none ↦ (endpoint_of ip, none)
            | some err ↦
                probe_endpoints w ips (errors ++ ((endpoint_of ip ++ (codes ": " ++ err)) ∷ []))
          ])
      of_dial none ih = refl
      of_dial (some err) ih = ih _

  abbrev Says : Text → Resolved → Outcome → Type 0
  Says target r o = Means target r.ips r.err (classify_outcome o).0

  none_of : (o : Option Text) → is_some o ≡ false → o ≡ none
  none_of none h = refl
  none_of (some e) h = cc

  https-known :
      (target e : Text) (o : Option Text)
      → is_some o ≡ false
      → https_if w (not (is_some o)) target e ≡ w.https_status target e
  https-known target e o h = rw h refl

  connected-Says :
      (target : Text) (r : Resolved) (o : Option Text) (reached : Text × Option Text)
      → (is_some r.err || is_nil r.ips) ≡ false
      → first_reached r.ips ≡ o
      → Finds o reached
      → Says target r (probe_connected w target (outcome_of w r) reached).1
  unfolding probe_connected classify_outcome
  connected-Says target r none (e, none) found f k = cc
  connected-Says target r none (e, some err) found f k = rw found (found, f)
  connected-Says target r (some e) reached found f k =
      let P : Diagnosis × Text × List Text → Type 0 = λ d. Means target r.ips r.err d.0 in
      let sni = w.handshake e target true in
      rw k (
        if_cases P (is_some r.err || is_nil r.ips) (λ h. absurd (ground (arith, h, found)))
          λ _.
            if_cases P (is_some sni) (λ h. (found, e, f, h))
              λ named.
                if_cases P (is_some (w.handshake e target false))
                  (λ h. (found, e, f, none_of sni named, h))
                  λ unnamed.
                    if_cases P (is_denial (https_if w (not (is_some sni)) target e).0)
                      (λ h. (
                        found,
                        e,
                        f,
                        none_of sni named,
                        none_of _ unnamed,
                        ap (λ (s : ℕ × Option Text). is_denial s.0)
                              (sym (https-known target e sni named))
                            ∙ h,
                      ))
                      λ h. (
                        found,
                        e,
                        f,
                        none_of sni named,
                        none_of _ unnamed,
                        ap (λ (s : ℕ × Option Text). is_denial s.0)
                              (sym (https-known target e sni named))
                            ∙ h,
                      ))

  probe_network-Says : (target : Text) (r : Resolved) → Says target r (probe_network w target r).1
  unfolding probe_network
  probe_network-Says target r = elim (Bool-cases (is_some r.err || is_nil r.ips)) [
    | inl e ↦ rw (both r.err r.ips e) (unfold classify_outcome in rw e e)
    | inr e ↦ rw (neither r.err r.ips e) (
        connected-Says target r (first_reached r.ips) (probe_endpoints w r.ips []) e refl
          (probe_endpoints-Finds r.ips []))
  ]
    where
      both :
          (err : Option Text) (ips : List Text)
          → (is_some err || is_nil ips) ≡ true
          → (not (is_some err) && not (is_nil ips)) ≡ false
      both err ips e = ground (arith, e)

      neither :
          (err : Option Text) (ips : List Text)
          → (is_some err || is_nil ips) ≡ false
          → (not (is_some err) && not (is_nil ips)) ≡ true
      neither err ips e = ground (arith, e)

  -- The diagnosis of a target says what the network does: the resolution fails or yields no
  -- address; or no endpoint can be reached; or, at the first endpoint that can, the handshake
  -- with the server name fails; or only the one without it; or both succeed and the status of the
  -- response is, or is not, one of a denial.
  pub probe_target-Means :
      (cfg : Config) (target : Text)
      → Means target
          (resolve_target w target).ips
          (resolve_target w target).err
          (probe_target w cfg target).diagnosis
  unfolding probe_target
  probe_target-Means cfg target = probe_network-Says target (resolve_target w target)
