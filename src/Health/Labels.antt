-- ===== src/Health/Labels.antt =====
-- pkg/health/checker.go: the labels of the upstreams, `NewChecker` and `UpdateUpstreams`.
use astradns_agent.Common.{
  ℕ, Bool, false, ◌==◌, Option, is_some, List, [], ◌∷◌, ◌++◌, Text, codes, text_eq, to_lower,
  trim_space, decimal, any, Dict, lookup, insert, retain, ℤ, pos, not_positive, if◌then◌else◌,
}
use astradns_agent.Common.Net.{join_host_port}
use astradns_agent.Health.{set_gauge, UpstreamTarget, CheckerConfig, Metrics, Checker}
use astradns_agent.Types.{Transports}

module _ (t : Transports) where
  unfoldable pub normalize_upstream_transport : Text → Text
  normalize_upstream_transport transport =
      let trimmed = to_lower (trim_space transport) in
      if text_eq trimmed t.transport_dot
      then t.transport_dot
      else if text_eq trimmed t.transport_doh
      then t.transport_doh
      else t.transport_dns

  unfoldable pub default_port_for_transport : Text → ℕ
  default_port_for_transport transport =
      if text_eq transport t.transport_dot
      then 853
      else if text_eq transport t.transport_doh
      then 443
      else 53

  abbrev pub port_or_default : ℕ → Text → ℕ
  port_or_default port transport = if port == 0 then default_port_for_transport transport else port

  unfoldable pub upstream_label : UpstreamTarget → Text
  upstream_label upstream =
      let transport = normalize_upstream_transport upstream.transport in
      let endpoint =
        join_host_port upstream.address (decimal (port_or_default upstream.port transport)) in
      if text_eq transport t.transport_dns then endpoint else transport ++ (codes "://" ++ endpoint)

  -- The loop of `NewChecker`.
  unfoldable pub add_upstreams : List UpstreamTarget → Checker → Checker
  add_upstreams [] c = c
  add_upstreams (upstream ∷ upstreams) c =
      let label = upstream_label upstream in
      add_upstreams upstreams
        (record c { healthy = insert label false c.healthy; metrics = set_gauge label 0 c.metrics })

  abbrev pub int_or : ℤ → ℕ → ℤ
  int_or value default = if not_positive value then pos default else value

  abbrev pub probe_defaults : CheckerConfig → CheckerConfig
  probe_defaults c = record {
    upstreams = c.upstreams;
    interval_seconds = int_or c.interval_seconds 10;
    timeout_seconds = int_or c.timeout_seconds 2;
    failure_threshold = int_or c.failure_threshold 3;
    probe_domain = if text_eq (trim_space c.probe_domain) [] then codes "." else c.probe_domain;
    probe_type = if c.probe_type == 0 then 2 else c.probe_type;
  }

  unfoldable pub new_checker : CheckerConfig → Option Metrics → Checker
  new_checker config collector = add_upstreams config.upstreams (record {
    config = probe_defaults config;
    metrics = collector;
    failure_counts = [];
    healthy = [];
  })

  -- The first loop of `UpdateUpstreams`: `labels` are those met before.
  abbrev pub normalized_target : UpstreamTarget → UpstreamTarget
  normalized_target upstream =
      let transport = normalize_upstream_transport upstream.transport in
      record {
        address = upstream.address;
        port = port_or_default upstream.port transport;
        transport = transport;
        tls_server_name =
            if text_eq transport t.transport_dns then [] else upstream.tls_server_name;
      }

  unfoldable pub normalized_targets : List Text → List UpstreamTarget → List UpstreamTarget
  normalized_targets labels [] = []
  normalized_targets labels (given ∷ upstreams) =
      let upstream = normalized_target given in
      let label = upstream_label upstream in
      let again = normalized_targets labels upstreams in
      let new = normalized_targets (label ∷ labels) upstreams in
      if any (text_eq label) labels then again else upstream ∷ new

  abbrev pub labels_of : List UpstreamTarget → List Text
  labels_of [] = []
  labels_of (upstream ∷ upstreams) = upstream_label upstream ∷ labels_of upstreams

  -- `_, keep := labels[label]`
  abbrev pub is_label : List Text → Text → Bool
  is_label labels label = any (text_eq label) labels

  -- The metrics part of the loop over `c.healthy`.
  unfoldable pub clear_removed : List Text → Dict Bool → Option Metrics → Option Metrics
  clear_removed labels [] m = m
  clear_removed labels ((label, h) ∷ healthy) m =
      clear_removed labels healthy (if is_label labels label then m else set_gauge label 0 m)

  -- The last loop, over the labels of the targets.
  unfoldable pub add_label : Text → Checker → Checker
  add_label label c =
      let counted : Checker =
        if is_some (lookup label c.failure_counts)
        then c
        else record c { failure_counts = insert label 0 c.failure_counts } in
      if is_some (lookup label counted.healthy) then counted else record counted {
        healthy = insert label false counted.healthy;
        metrics = set_gauge label 0 counted.metrics;
      }

  unfoldable pub add_labels : List Text → Checker → Checker
  add_labels [] c = c
  add_labels (label ∷ labels) c = add_labels labels (add_label label c)

  unfoldable pub remove_labels : List Text → Checker → Checker
  remove_labels labels c = record c {
    failure_counts = retain (λ label n. is_label labels label) c.failure_counts;
    healthy = retain (λ label h. is_label labels label) c.healthy;
    metrics = clear_removed labels c.healthy c.metrics;
  }

  abbrev pub set_upstreams : List UpstreamTarget → Checker → Checker
  set_upstreams upstreams c = record c { config = record c.config { upstreams = upstreams } }

  unfoldable pub update_upstreams : Checker → List UpstreamTarget → Checker
  update_upstreams c upstreams =
      let normalized = normalized_targets [] upstreams in
      let labels = labels_of normalized in
      add_labels labels (remove_labels labels (set_upstreams normalized c))
