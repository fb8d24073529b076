-- ===== src/Metrics/Tests.antt =====
-- The counters after two events and two failed probes.
use astradns_agent.Common.{◌+◌, ◌≡◌, refl, true, false, List, [], ◌∷◌, codes, arith, total}
use astradns_agent.Proxy.Server.{QueryEvent}
use astradns_agent.Metrics.{Collector, Counted, by_event, by_probe, count_all}
use astradns_agent.Metrics.Totals.{IsBalanced, events_in, errors_in, count_all-IsBalanced}

abbrev failed_event : QueryEvent
failed_event = record {
  timestamp = 5;
  source_ip = codes "10.0.0.1";
  domain = codes "a";
  query_type = codes "a";
  response_code = codes "SERVFAIL";
  upstream = [];
  latency = 3;
  cache_hit_known = true;
  cache_hit = false;
  denied = false;
}

abbrev new_counters : Collector
new_counters = record {
  queries_total = 0;
  queries_by_type = [];
  denied_queries_total = 0;
  stale_cache_serves_total = 0;
  cache_hits_total = 0;
  cache_misses_total = 0;
  upstream_queries_total = [];
  nx_domain_total = 0;
  servfail_total = 0;
  upstream_failures_total = [];
  timeout_total = [];
}

new_counters-IsBalanced : IsBalanced 0 new_counters
unfolding total
new_counters-IsBalanced = record {
  by_type = refl;
  by_upstream = refl;
  by_cache = omega arith;
  by_failure = refl;
}

abbrev counted_example : List Counted
counted_example =
    by_event failed_event
    ∷ (by_probe (codes "9.9.9.9:53") false
        ∷ (by_probe (codes "9.9.9.9:53") true ∷ (by_event failed_event ∷ [])))

count_all-IsBalanced_example :
    IsBalanced (0 + errors_in counted_example) (count_all new_counters counted_example)
    × ((count_all new_counters counted_example).queries_total ≡ 0 + events_in counted_example)
count_all-IsBalanced_example =
    count_all-IsBalanced 0 new_counters counted_example new_counters-IsBalanced
