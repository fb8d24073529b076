-- ===== src/Diagnostics/Classify.antt =====
-- pkg/diagnostics/runner.go: what is made of the outcome of a probe.
use astradns_agent.Common.{
  ℕ, Bool, true, false, not, ◌||◌, ◌==◌, ltb, Option, none, some, is_some, List, [], ◌∷◌, ◌++◌,
  Text, codes, trim_space, text_eq, decimal, if◌then◌else◌,
}
use astradns_agent.Diagnostics.{
  Diagnosis, healthy, dns_resolution_failed, egress_blocked_or_network, tls_handshake_failed,
  tls_sni_required, provider_block_suspected,
}

-- `errorText`
unfoldable pub error_text : Option Text → Text
error_text none = []
error_text (some err) = trim_space err

-- `strings.Join(texts, sep)`
unfoldable pub join_with : Text → List Text → Text
join_with sep [] = []
join_with sep (s ∷ []) = s
join_with sep (s ∷ t ∷ ss) = s ++ (sep ++ join_with sep (t ∷ ss))

pub record Outcome : Type 0 where
  pub dns_err : Option Text
  pub dns_rcode : Text
  pub resolved_ips : List Text
  pub tcp_reachable : Bool
  pub tcp_err : Option Text
  pub tls_with_sni_err : Option Text
  pub tls_without_sni_err : Option Text
  pub http_status_code : ℕ
  pub http_err : Option Text

abbrev pub is_nil : List Text → Bool
is_nil [] = true
is_nil (s ∷ ss) = false

abbrev pub when : Bool → Text → List Text
when b s = if b then s ∷ [] else []

unfoldable pub first_evidence : Outcome → List Text
first_evidence o =
    when (not (text_eq o.dns_rcode [])) (codes "dns_rcode=" ++ o.dns_rcode)
    ++ (when (not (is_nil o.resolved_ips))
          (codes "resolved_ips=" ++ join_with (codes ",") o.resolved_ips)
        ++ ((codes "tcp_reachable=" ++ (if o.tcp_reachable then codes "true" else codes "false"))
            ∷ []))

unfoldable pub http_evidence : Outcome → List Text
http_evidence o = when (is_some o.http_err) (codes "https_error=" ++ error_text o.http_err)

abbrev pub is_denial : ℕ → Bool
is_denial status = status == 403 || (status == 429 || status == 451)

-- The diagnosis, the error and the evidence.
unfoldable pub classify_outcome : Outcome → Diagnosis × Text × List Text
classify_outcome o =
    let evidence = first_evidence o in
    let status = codes "https_status=" ++ decimal o.http_status_code in
    if is_some o.dns_err || is_nil o.resolved_ips
    then (dns_resolution_failed, error_text o.dns_err, evidence)
    else if not o.tcp_reachable
    then (
      egress_blocked_or_network,
      error_text o.tcp_err,
      evidence
          ++ when (not (text_eq (error_text o.tcp_err) []))
              (codes "tcp_error=" ++ error_text o.tcp_err),
    )
    else if is_some o.tls_with_sni_err
    then (
      tls_handshake_failed,
      error_text o.tls_with_sni_err,
      evidence ++ ((codes "tls_sni_error=" ++ error_text o.tls_with_sni_err) ∷ []),
    )
    else if is_some o.tls_without_sni_err
    then (
      tls_sni_required,
      [],
      evidence ++ ((codes "tls_without_sni_error=" ++ error_text o.tls_without_sni_err) ∷ []),
    )
    else if is_denial o.http_status_code
    then (provider_block_suspected, [], evidence ++ (status ∷ http_evidence o))
    else (healthy, [], evidence ++ (when (ltb 0 o.http_status_code) status ++ http_evidence o))
