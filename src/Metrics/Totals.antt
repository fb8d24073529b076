-- ===== src/Metrics/Totals.antt =====
-- The counters with a label add up to those without.
use astradns_agent.Common.{
  ℕ, Bool, if◌then◌else◌, refl, subst, map, suc, ◌+◌, ◌≤◌, ◌≡◌, List, [], ◌∷◌, Text, arith, total,
  total-inc,
}
use astradns_agent.Proxy.Server.{QueryEvent}
use astradns_agent.Metrics.{
  Collector, normalize_query_type_label, label_of_upstream, count_query, count_rcode, process_event,
  process_events, record_probe_failure, Counted, by_event, by_probe, count, count_all,
}
use astradns_agent.Health.{count_failure}

-- Each query is counted under one type and one upstream, at most once as a hit or a miss; and each
-- failure of an upstream is a SERVFAIL, a timeout, or one of the `errors` of probes in no time out.
pub record IsBalanced (errors : ℕ) (c : Collector) : Type 0 where
  pub by_type : total c.queries_by_type ≡ c.queries_total
  pub by_upstream : total c.upstream_queries_total ≡ c.queries_total
  pub by_cache : c.cache_hits_total + c.cache_misses_total ≤ c.queries_total
  pub by_failure :
      total c.upstream_failures_total ≡ c.servfail_total + total c.timeout_total + errors

count_query-IsBalanced :
    (errors : ℕ) (c : Collector) (event : QueryEvent) (upstream : Text)
    → IsBalanced errors c
    → IsBalanced errors (count_query c event upstream)
unfolding count_query
count_query-IsBalanced errors c event upstream b = record {
  by_type =
      omega (
        arith,
        total-inc (normalize_query_type_label event.query_type) c.queries_by_type,
        b.by_type,
      );
  by_upstream = omega (arith, total-inc upstream c.upstream_queries_total, b.by_upstream);
  by_cache = ground (arith, b.by_cache);
  by_failure = b.by_failure;
}

count_rcode-IsBalanced :
    (errors : ℕ) (c : Collector) (rcode upstream : Text)
    → IsBalanced errors c
    → IsBalanced errors (count_rcode c rcode upstream)
unfolding count_rcode
count_rcode-IsBalanced errors c rcode upstream b =
    let failures = total-inc upstream c.upstream_failures_total in
    let timeouts = total-inc upstream c.timeout_total in
    record {
      by_type = ground (arith, b.by_type);
      by_upstream = ground (arith, b.by_upstream);
      by_cache = ground (arith, b.by_cache);
      by_failure = ground (arith, failures, timeouts, b.by_failure);
    }

queries_total-process_event :
    (c : Collector) (event : QueryEvent)
    → (process_event c event).queries_total ≡ suc c.queries_total
unfolding process_event count_rcode count_query
queries_total-process_event c event = ground arith

process_event-IsBalanced :
    (errors : ℕ) (c : Collector) (event : QueryEvent)
    → IsBalanced errors c
    → IsBalanced errors (process_event c event)
unfolding process_event
process_event-IsBalanced errors c event b =
    let upstream = label_of_upstream event.upstream in
    count_rcode-IsBalanced errors (count_query c event upstream) _ upstream
      (count_query-IsBalanced errors c event upstream b)

-- One if a probe failed otherwise than by a timeout.
abbrev pub error_of : Bool → ℕ
error_of timed_out = if timed_out then 0 else 1

record_probe_failure-IsBalanced :
    (errors : ℕ) (c : Collector) (upstream : Text) (timed_out : Bool)
    → IsBalanced errors c
    → IsBalanced (errors + error_of timed_out) (record_probe_failure c upstream timed_out)
unfolding record_probe_failure count_failure
record_probe_failure-IsBalanced errors c upstream timed_out b =
    let failures = total-inc upstream c.upstream_failures_total in
    let timeouts = total-inc upstream c.timeout_total in
    record {
      by_type = b.by_type;
      by_upstream = b.by_upstream;
      by_cache = b.by_cache;
      by_failure = ground (arith, failures, timeouts, b.by_failure);
    }

-- The events among what is counted, and the probes that failed otherwise than by a timeout.
unfoldable pub events_in : List Counted → ℕ
events_in [] = 0
events_in (by_event event ∷ xs) = events_in xs + 1
events_in (by_probe upstream timed_out ∷ xs) = events_in xs

unfoldable pub errors_in : List Counted → ℕ
errors_in [] = 0
errors_in (by_event event ∷ xs) = errors_in xs
errors_in (by_probe upstream timed_out ∷ xs) = error_of timed_out + errors_in xs

abbrev BalancedBy : Collector → ℕ → Type 0
BalancedBy c n = IsBalanced n c

-- Over any events and failed probes, in whatever order the collector and the checker count them,
-- counters that are balanced stay so: the queries by type and by upstream add up to all queries, the
-- hits and misses are no more than those, and the failures by upstream are the SERVFAILs, the
-- timeouts, and the probes that failed otherwise than by a timeout. Each event counts as one query,
-- and a probe as none.
pub count_all-IsBalanced :
    (errors : ℕ) (c : Collector) (xs : List Counted)
    → IsBalanced errors c
    → IsBalanced (errors + errors_in xs) (count_all c xs)
      × ((count_all c xs).queries_total ≡ c.queries_total + events_in xs)
unfolding count_all count events_in errors_in record_probe_failure count_failure
count_all-IsBalanced errors c [] b = (subst (BalancedBy c) (omega arith) b, omega arith)
count_all-IsBalanced errors c (by_event event ∷ xs) b =
    let rest =
      count_all-IsBalanced errors (process_event c event) xs
        (process_event-IsBalanced errors c event b) in
    (rest.0, omega (arith, rest.1, queries_total-process_event c event))
count_all-IsBalanced errors c (by_probe upstream timed_out ∷ xs) b =
    let next = record_probe_failure c upstream timed_out in
    let rest =
      count_all-IsBalanced (errors + error_of timed_out) next xs
        (record_probe_failure-IsBalanced errors c upstream timed_out b) in
    (subst (BalancedBy (count_all next xs)) (omega arith) rest.0, rest.1)

-- `Run` alone counts its events.
pub process_events-count_all :
    (c : Collector) (events : List QueryEvent)
    → process_events c events ≡ count_all c (map by_event events)
unfolding process_events count_all count
process_events-count_all c [] = refl
process_events-count_all c (event ∷ events) =
    process_events-count_all (process_event c event) events
