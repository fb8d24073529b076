-- ===== src/Diagnostics/Probe.antt =====
-- pkg/diagnostics/runner.go: the probe of a target, and the passes over the targets.
use astradns_agent.Common.{
  ℕ, Bool, true, false, not, ◌&&◌, ◌==◌, Option, none, some, is_some, List, [], ◌∷◌, ◌++◌, Text,
  codes, any, text_eq, second, Dict, insert, if◌then◌else◌,
}
use astradns_agent.Common.Net.{join_host_port}
use astradns_agent.Diagnostics.{
  Config, Result, Runner, Lookup, failed, answered, Network, text_before, sort_strings,
}
use astradns_agent.Diagnostics.Classify.{Outcome, is_nil, join_with, classify_outcome}

-- The state of the loop over the two types of query.
pub record Found : Type 0 where
  pub ips : List Text
  pub rcode : Text
  pub first_err : Option Text

-- What `resolveTarget` returns: the addresses, the code and the error.
pub record Resolved : Type 0 where
  pub ips : List Text
  pub rcode : Text
  pub err : Option Text

abbrev pub or_first : Option Text → Text → Option Text
or_first none err = some err
or_first (some first) err = some first

-- The set of addresses is the list of its elements, each once.
unfoldable pub add_ips : List Text → List Text → List Text
add_ips [] found = found
add_ips (ip ∷ ips) found = add_ips ips (if any (text_eq ip) found then found else ip ∷ found)

-- The second query, whose code is not read.
unfoldable pub second_lookup : Lookup → Found → Found
second_lookup (failed err) f = record f { first_err = or_first f.first_err err }
second_lookup (answered rcode ips) f =
    if not (rcode == 0) then f else record f { ips = add_ips ips f.ips }

module _ (w : Network) where
  unfoldable pub finish_lookups : Found → Resolved
  finish_lookups f =
      if is_nil f.ips
      then record {
        ips = [];
        rcode = f.rcode;
        err =
            or_first f.first_err (codes "dns query succeeded but no A/AAAA records were returned");
      }
      else record {
        ips = sort_strings f.ips;
        rcode = if text_eq f.rcode [] then w.rcode_name 0 else f.rcode;
        err = none;
      }

  abbrev pub first_lookup : Lookup → Lookup → Resolved
  first_lookup (failed err) second =
      finish_lookups (second_lookup second (record { ips = []; rcode = []; first_err = some err }))
  first_lookup (answered rcode ips) second =
      if not (rcode == 0)
      then record {
        ips = [];
        rcode = w.rcode_name rcode;
        err = some (codes "dns returned rcode " ++ w.rcode_name rcode);
      }
      else finish_lookups (
          second_lookup second
            (record { ips = add_ips ips []; rcode = w.rcode_name rcode; first_err = none }))

  -- The types are A and AAAA.
  unfoldable pub resolve_target : Text → Resolved
  resolve_target target = first_lookup (w.lookup_type target 1) (w.lookup_type target 28)

  -- The first endpoint that is reached, or the error.
  unfoldable pub probe_endpoints : List Text → List Text → Text × Option Text
  probe_endpoints [] errors =
      if is_nil errors
      then ([], some (codes "no resolved ip addresses available for tcp probe"))
      else (
        [],
        some (
            codes "tcp probe failed for all resolved endpoints: " ++ join_with (codes "; ") errors),
      )
  probe_endpoints (ip ∷ ips) errors =
      let endpoint = join_host_port ip (codes "443") in
      elim (w.dial endpoint) [
        | none ↦ (endpoint, none)
        | some err ↦ probe_endpoints ips (errors ++ ((endpoint ++ (codes ": " ++ err)) ∷ []))
      ]

  abbrev pub https_if : Bool → Text → Text → ℕ × Option Text
  https_if with_sni target endpoint = if with_sni then w.https_status target endpoint else (0, none)

  -- What the probes over an endpoint add to the outcome, with the endpoint.
  unfoldable pub probe_connected : Text → Outcome → Text × Option Text → Text × Outcome
  probe_connected target o (endpoint, some err) = ([], record o { tcp_err = some err })
  probe_connected target o (endpoint, none) =
      let with_sni = w.handshake endpoint target true in
      let https = https_if (not (is_some with_sni)) target endpoint in
      (
        endpoint,
        record o {
          tcp_reachable = true;
          tls_with_sni_err = with_sni;
          tls_without_sni_err = w.handshake endpoint target false;
          http_status_code = https.0;
          http_err = https.1;
        },
      )

  abbrev pub outcome_of : Resolved → Outcome
  outcome_of r = record {
    dns_err = r.err;
    dns_rcode = r.rcode;
    resolved_ips = r.ips;
    tcp_reachable = false;
    tcp_err = none;
    tls_with_sni_err = none;
    tls_without_sni_err = none;
    http_status_code = 0;
    http_err = none;
  }

  unfoldable pub probe_network : Text → Resolved → Text × Outcome
  probe_network target r =
      if not (is_some r.err) && not (is_nil r.ips)
      then probe_connected target (outcome_of r) (probe_endpoints r.ips [])
      else ([], outcome_of r)

  unfoldable pub probe_target : Config → Text → Result
  probe_target cfg target =
      let (endpoint, o) = probe_network target (resolve_target target) in
      let (diagnosis, error, evidence) = classify_outcome o in
      record {
        target = target;
        diagnosis = diagnosis;
        resolver = cfg.resolver_addr;
        dns_rcode = o.dns_rcode;
        resolved_ips = o.resolved_ips;
        tested_endpoint = endpoint;
        tcp_reachable = o.tcp_reachable;
        tls_with_sni = o.tcp_reachable && not (is_some o.tls_with_sni_err);
        tls_without_sni = o.tcp_reachable && not (is_some o.tls_without_sni_err);
        https_status_code = o.http_status_code;
        error = error;
        evidence = evidence;
      }

  -- `runOnce`, with whether the context is over before each target.
  unfoldable pub probe_all : Config → (Text → Bool) → List Text → Dict Result → Dict Result
  probe_all cfg over [] results = results
  probe_all cfg over (target ∷ targets) results =
      let rest = probe_all cfg over targets (insert target (probe_target cfg target) results) in
      if over target then results else rest

  unfoldable pub run_once : (Text → Bool) → Runner → Runner
  run_once over r = record r { results = probe_all r.cfg over r.cfg.targets r.results }

  -- `Run`, with one entry for each pass.
  unfoldable pub run_passes : List (Text → Bool) → Runner → Runner
  run_passes [] r = r
  run_passes (over ∷ passes) r = run_passes passes (run_once over r)

  unfoldable pub run : List (Text → Bool) → Runner → Runner
  run passes r = if is_nil r.cfg.targets then r else run_passes passes r

-- `Snapshot`: the results by their targets.
unfoldable pub insert_result : Result → List Result → List Result
insert_result r [] = r ∷ []
insert_result r (s ∷ results) =
    let rest = insert_result r results in
    if text_before r.target s.target then r ∷ s ∷ results else s ∷ rest

unfoldable pub sort_results : Dict Result → List Result
sort_results [] = []
sort_results ((target, r) ∷ results) = insert_result r (sort_results results)

unfoldable pub snapshot : Runner → List Result
snapshot r = sort_results r.results
