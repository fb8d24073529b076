-- ===== src/Health.antt =====
-- pkg/health/checker.go: which upstreams answer. `Checker` holds the state that the mutex guards,
-- and the values of the metrics that it sets.
pub mod Labels
pub mod Passes
pub mod Gauges
pub mod Updates
pub mod Threshold
pub mod Targets
pub mod Removed
pub mod Samples
mod Tests
use astradns_agent.Common.{
  or_zero, inc, ℕ, suc, ◌+◌, ◌*◌, ◌≡◌, ◌≢◌, Bool, true, false, not, ◌&&◌, ◌||◌, ◌==◌, ltb, leb,
  Option, none, some, is_some, List, [], ◌∷◌, ◌++◌, Text, codes, text_eq, to_lower, trim_space,
  decimal, any, Dict, lookup, insert, delete, retain, ℤ, pos, pos_part, not_positive, is_zero,
  second, if◌then◌else◌,
}
use astradns_agent.Common.Net.{join_host_port, net_split_host_port}
use astradns_agent.Dns.{rcode_server_failure, rcode_refused}

-- A port is a number that is not negative.
pub record UpstreamTarget : Type 0 where
  pub address : Text
  pub port : ℕ
  pub transport : Text
  pub tls_server_name : Text

pub record CheckerConfig : Type 0 where
  pub upstreams : List UpstreamTarget
  pub interval_seconds : ℤ
  pub timeout_seconds : ℤ
  pub failure_threshold : ℤ
  pub probe_domain : Text
  pub probe_type : ℕ

-- The metrics of the collector that the checker writes: a gauge and two counters for each label,
-- and the latencies observed, in nanoseconds, the last first. The proxy's events are counted in the
-- same collector, by `Metrics.count_all`; here is what the checker alone adds to it.
pub record Metrics : Type 0 where
  pub upstream_healthy : Dict ℕ
  pub upstream_failures_total : Dict ℕ
  pub timeout_total : Dict ℕ
  pub upstream_latency : List (Text × ℕ)

pub record Checker : Type 0 where
  pub config : CheckerConfig
  pub metrics : Option Metrics
  pub failure_counts : Dict ℕ
  pub healthy : Dict Bool

unfoldable pub set_gauge : Text → ℕ → Option Metrics → Option Metrics
set_gauge label value none = none
set_gauge label value (some s) =
    some (record s { upstream_healthy = insert label value s.upstream_healthy })

unfoldable pub count_failure : Text → Bool → Option Metrics → Option Metrics
count_failure label timed_out none = none
count_failure label timed_out (some s) = some (record s {
  upstream_failures_total = inc label s.upstream_failures_total;
  timeout_total = if timed_out then inc label s.timeout_total else s.timeout_total;
})

abbrev pub observe : Text → ℕ → Option Metrics → Option Metrics
observe label latency none = none
observe label latency (some s) =
    some (record s { upstream_latency = (label, latency) ∷ s.upstream_latency })

-- `recordFailure` counts the failure, and from the threshold on marks the upstream unhealthy.
unfoldable pub counted_failure : Checker → Text → Bool → Checker
counted_failure c upstream timed_out = record c {
  failure_counts = inc upstream c.failure_counts;
  metrics = count_failure upstream timed_out c.metrics;
}

unfoldable pub mark_unhealthy : Checker → Text → Checker
mark_unhealthy c upstream = record c {
  healthy = insert upstream false c.healthy;
  metrics = set_gauge upstream 0 c.metrics;
}

unfoldable pub record_failure : Checker → Text → Bool → Checker
record_failure c upstream timed_out =
    let counted = counted_failure c upstream timed_out in
    if leb (pos_part c.config.failure_threshold) (or_zero (lookup upstream counted.failure_counts))
    then mark_unhealthy counted upstream
    else counted

unfoldable pub record_healthy : Checker → Text → ℕ → Checker
record_healthy c upstream latency = record c {
  failure_counts = insert upstream 0 c.failure_counts;
  healthy = insert upstream true c.healthy;
  metrics = observe upstream latency (set_gauge upstream 1 c.metrics);
}

unfoldable pub has_healthy_upstream : Checker → Bool
has_healthy_upstream c = any (λ e. e.1) c.healthy

-- What a client's exchange returns: the code of its response, where there is one; the time it took;
-- and its error, of which only `isTimeoutErr` is asked.
pub record Exchanged : Type 0 where
  pub response : Option ℕ
  pub rtt : ℕ
  pub error : Option Bool

-- `isTimeoutErr`
abbrev pub is_timeout_err : Option Bool → Bool
is_timeout_err none = false
is_timeout_err (some timeout) = timeout

-- `err == nil && response != nil`
abbrev pub is_answer : Exchanged → Bool
is_answer x = not (is_some x.error) && is_some x.response

-- The end of `probeUpstream` and `probeUpstreamTLS`: some codes are errors, which are no timeouts.
unfoldable pub judged : Exchanged → Exchanged
judged x = elim x.error [
  | some e ↦ x
  | none ↦ elim x.response [
    | none ↦ x
    | some rcode ↦
        if rcode == rcode_server_failure || rcode == rcode_refused
        then record x { error = some false }
        else x
  ]
]

-- The `ServerName` of a TLS client: `none` where none is set.
abbrev pub host_name : (Text → Bool) → Option (Text × Text) → Option Text
host_name is_ip none = none
host_name is_ip (some (host, port)) = if is_ip host then none else some host

-- The network of probes: exchanges of the package dns, `netip.ParseAddr`, and whether the context is
-- over when an exchange has ended (`ended`) and when the loop reaches a target (`over`).
pub record Probes : Type 0 where
  pub exchange : Text → Option Text → ℕ → Text → ℕ → Text → Exchanged
  pub is_ip : Text → Bool
  pub ended : Text → Text → Bool
  pub over : UpstreamTarget → Bool

unfoldable pub server_name : (Text → Bool) → Text → Text → Option Text
server_name is_ip upstream tls_server_name =
    if not (text_eq (trim_space tls_server_name) [])
    then some (trim_space tls_server_name)
    else host_name is_ip (net_split_host_port upstream)

unfoldable pub probe_upstream : Probes → CheckerConfig → Text → Text → Exchanged
probe_upstream w c upstream network = judged (
    w.exchange network none (pos_part c.timeout_seconds * second) c.probe_domain c.probe_type
      upstream)

unfoldable pub probe_upstream_tls : Probes → CheckerConfig → Text → Text → Exchanged
probe_upstream_tls w c upstream tls_server_name = judged (
    w.exchange (codes "tcp-tls") (server_name w.is_ip upstream tls_server_name)
      (pos_part c.timeout_seconds * second) c.probe_domain c.probe_type upstream)
