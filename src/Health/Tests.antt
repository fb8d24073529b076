-- ===== src/Health/Tests.antt =====
-- The checker with concrete upstreams.
use astradns_agent.Common.{
  ◌≡◌, refl, true, false, none, some, [], ◌∷◌, codes, arith, if◌then◌else◌, lookup, ltb, pos, Text,
  ◌≢◌, text_eq, decimal, digits, to_lower, trim_space,
}
use astradns_agent.Health.{
  UpstreamTarget, Checker, Exchanged, Probes, record_healthy, has_healthy_upstream, is_answer,
  probe_upstream, judged,
}
use astradns_agent.Types.Samples.{transports_example}
use astradns_agent.Health.Labels.{
  is_label, labels_of, update_upstreams, upstream_label, normalize_upstream_transport,
  port_or_default, default_port_for_transport,
}
use astradns_agent.Health.Gauges.{IsConsistent}
use astradns_agent.Health.Threshold.{failures, failures_lem}
use astradns_agent.Health.Targets.{or_unknown, update_upstreams_lem}
use astradns_agent.Health.Removed.{late_answer}
use astradns_agent.Health.Passes.{check_upstream}

abbrev quad : UpstreamTarget
quad = record {
  address = codes "9.9.9.9";
  port = 0;
  transport = codes "DoT";
  tls_server_name = codes "dns.quad9.net";
}

abbrev checker_example : Checker
checker_example = record {
  config = record {
    upstreams = quad ∷ [];
    interval_seconds = pos 10;
    timeout_seconds = pos 2;
    failure_threshold = pos 3;
    probe_domain = codes ".";
    probe_type = 2;
  };
  metrics = some (record {
    upstream_healthy = [];
    upstream_failures_total = [];
    timeout_total = [];
    upstream_latency = [];
  });
  failure_counts = [];
  healthy = [];
}

checker-IsConsistent : IsConsistent checker_example
unfolding lookup
checker-IsConsistent = record { distinct = tt; shown = λ j. refl }

failures_lem_example :
    lookup
      (codes "9.9.9.9:53")
      (failures
        (record_healthy checker_example (codes "9.9.9.9:53") 7)
        (codes "9.9.9.9:53")
        (true ∷ false ∷ [])).healthy
    ≡ some (ltb 2 3)
failures_lem_example =
    failures_lem checker_example (codes "9.9.9.9:53") 7 (true ∷ false ∷ []) (omega arith)

update_upstreams_lem_example :
    lookup
      (codes "dot://9.9.9.9:853")
      (update_upstreams transports_example checker_example (quad ∷ quad ∷ [])).healthy
    ≡ (if is_label transports_example
          (labels_of transports_example (quad ∷ quad ∷ []))
          (codes "dot://9.9.9.9:853")
        then some (or_unknown (lookup (codes "dot://9.9.9.9:853") checker_example.healthy))
        else none)
update_upstreams_lem_example =
    update_upstreams_lem transports_example checker_example (quad ∷ quad ∷ [])
      (codes "dot://9.9.9.9:853") tt

abbrev plain : UpstreamTarget
plain = record {
  address = codes "9.9.9.9";
  port = 53;
  transport = codes "dns";
  tls_server_name = [];
}

abbrev answered_probe : Exchanged
answered_probe = record { response = some 0; rtt = 7; error = none }

abbrev answering_probes : Probes
answering_probes = record {
  exchange = λ network server timeout domain qtype upstream. answered_probe;
  is_ip = λ s. true;
  ended = λ network endpoint. false;
  over = λ u. false;
}

probe-answered :
    (c : Checker) (upstream : Text)
    → is_answer (probe_upstream answering_probes c.config upstream (codes "udp")) ≡ true
unfolding probe_upstream judged
probe-answered c upstream = refl

other_label :
    is_label transports_example
      (labels_of transports_example (quad ∷ []))
      (upstream_label transports_example plain)
    ≡ false
unfolding upstream_label port_or_default normalize_upstream_transport default_port_for_transport
    text_eq decimal digits to_lower trim_space transports_example
    astradns_agent.Common.Net.join_host_port
other_label = refl

not_doh :
    text_eq
      (normalize_upstream_transport transports_example plain.transport)
      transports_example.transport_doh
    ≡ false
unfolding normalize_upstream_transport text_eq to_lower trim_space transports_example
not_doh = refl

not_dot :
    text_eq
      (normalize_upstream_transport transports_example plain.transport)
      transports_example.transport_dot
    ≡ false
unfolding normalize_upstream_transport text_eq to_lower trim_space transports_example
not_dot = refl

late_answer_example :
    (lookup
        (upstream_label transports_example plain)
        (update_upstreams transports_example checker_example (quad ∷ [])).healthy
      ≡ none)
    × (lookup
          (upstream_label transports_example plain)
          (check_upstream transports_example answering_probes
            (update_upstreams transports_example checker_example (quad ∷ []))
            plain).healthy
        ≡ some true)
    × (has_healthy_upstream (
          check_upstream transports_example answering_probes
            (update_upstreams transports_example checker_example (quad ∷ []))
            plain)
        ≡ true)
    × ((j : Text)
        → upstream_label transports_example plain ≢ j
        → lookup j
            (check_upstream transports_example answering_probes
              (update_upstreams transports_example checker_example (quad ∷ []))
              plain).healthy
          ≡ lookup j (update_upstreams transports_example checker_example (quad ∷ [])).healthy)
late_answer_example =
    late_answer transports_example answering_probes checker_example (quad ∷ []) plain tt other_label
      not_doh not_dot
      (probe-answered (update_upstreams transports_example checker_example (quad ∷ [])) _)
