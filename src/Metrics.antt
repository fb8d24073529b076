-- ===== src/Metrics.antt =====
-- pkg/metrics/collector.go: how an event is counted. A counter is a number, a counter with a label a
-- map to numbers; the latencies observed are left out, and so is the registration of the metrics.
--
-- The checker of pkg/health/checker.go writes to two of these counters as well: `Health.Metrics` has
-- the counters that it writes to, and `record_probe_failure` is what its `recordFailure` does to the
-- collector that the two share.
pub mod Totals
mod Tests
use astradns_agent.Common.{
  ℕ, suc, ◌+◌, Bool, true, false, Option, none, some, List, [], ◌∷◌, Text, codes, text_eq, to_upper,
  trim_space, any, Dict, inc, if◌then◌else◌,
}
use astradns_agent.Proxy.Server.{QueryEvent}
use astradns_agent.Health.{Metrics, count_failure}

pub record Collector : Type 0 where
  pub queries_total : ℕ
  pub queries_by_type : Dict ℕ
  pub denied_queries_total : ℕ
  pub stale_cache_serves_total : ℕ
  pub cache_hits_total : ℕ
  pub cache_misses_total : ℕ
  pub upstream_queries_total : Dict ℕ
  pub nx_domain_total : ℕ
  pub servfail_total : ℕ
  pub upstream_failures_total : Dict ℕ
  pub timeout_total : Dict ℕ

abbrev pub known_query_types : List Text
known_query_types =
    codes "A"
    ∷ codes "AAAA"
    ∷ codes "CAA"
    ∷ codes "CNAME"
    ∷ codes "DS"
    ∷ codes "DNSKEY"
    ∷ codes "HTTPS"
    ∷ codes "MX"
    ∷ codes "NAPTR"
    ∷ codes "NS"
    ∷ codes "PTR"
    ∷ codes "RRSIG"
    ∷ codes "SOA"
    ∷ codes "SRV"
    ∷ codes "SVCB"
    ∷ codes "TXT"
    ∷ []

unfoldable pub normalize_query_type_label : Text → Text
normalize_query_type_label query_type =
    let q_type = to_upper (trim_space query_type) in
    if text_eq q_type []
    then codes "UNKNOWN"
    else if any (text_eq q_type) known_query_types
    then q_type
    else codes "OTHER"

abbrev pub bump : Bool → ℕ → ℕ
bump b n = if b then n + 1 else n

abbrev pub label_of_upstream : Text → Text
label_of_upstream upstream = if text_eq upstream [] then codes "unknown" else upstream

-- The part of `ProcessEvent` before the response code.
unfoldable pub count_query : Collector → QueryEvent → Text → Collector
count_query c event upstream = record c {
  queries_total = c.queries_total + 1;
  queries_by_type = inc (normalize_query_type_label event.query_type) c.queries_by_type;
  denied_queries_total = bump event.denied c.denied_queries_total;
  stale_cache_serves_total =
      bump (text_eq upstream (codes "proxy-cache-stale")) c.stale_cache_serves_total;
  cache_hits_total =
      if event.cache_hit_known then bump event.cache_hit c.cache_hits_total else c.cache_hits_total;
  cache_misses_total =
      if event.cache_hit_known
      then (if event.cache_hit then c.cache_misses_total else c.cache_misses_total + 1)
      else c.cache_misses_total;
  upstream_queries_total = inc upstream c.upstream_queries_total;
}

unfoldable pub count_rcode : Collector → Text → Text → Collector
count_rcode c rcode upstream =
    if text_eq rcode (codes "NXDOMAIN")
    then record c { nx_domain_total = c.nx_domain_total + 1 }
    else if text_eq rcode (codes "SERVFAIL")
    then record c {
      servfail_total = c.servfail_total + 1;
      upstream_failures_total = inc upstream c.upstream_failures_total;
    }
    else if text_eq rcode (codes "TIMEOUT")
    then record c {
      timeout_total = inc upstream c.timeout_total;
      upstream_failures_total = inc upstream c.upstream_failures_total;
    }
    else c

unfoldable pub process_event : Collector → QueryEvent → Collector
process_event c event =
    let upstream = label_of_upstream event.upstream in
    count_rcode (count_query c event upstream) (to_upper event.response_code) upstream

-- `Run`, until the channel is closed.
unfoldable pub process_events : Collector → List QueryEvent → Collector
process_events c [] = c
process_events c (event ∷ events) = process_events (process_event c event) events

-- The counters that the checker writes to, and their values written back.
abbrev pub shared_counters : Collector → Metrics
shared_counters c = record {
  upstream_healthy = [];
  upstream_failures_total = c.upstream_failures_total;
  timeout_total = c.timeout_total;
  upstream_latency = [];
}

abbrev pub with_counters : Collector → Option Metrics → Collector
with_counters c none = c
with_counters c (some s) = record c {
  upstream_failures_total = s.upstream_failures_total;
  timeout_total = s.timeout_total;
}

unfoldable pub record_probe_failure : Collector → Text → Bool → Collector
record_probe_failure c upstream timed_out =
    with_counters c (count_failure upstream timed_out (some (shared_counters c)))

-- What is counted, in the order in which it is: an event, or a probe that failed.
pub data Counted : Type 0 where
  by_event : QueryEvent → Counted
  by_probe : Text → Bool → Counted

unfoldable pub count : Collector → Counted → Collector
count c (by_event event) = process_event c event
count c (by_probe upstream timed_out) = record_probe_failure c upstream timed_out

unfoldable pub count_all : Collector → List Counted → Collector
count_all c [] = c
count_all c (x ∷ xs) = count_all (count c x) xs
