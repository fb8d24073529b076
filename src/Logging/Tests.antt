-- ===== src/Logging/Tests.antt =====
-- The query log of three events.
use astradns_agent.Common.{◌≡◌, refl, true, false, List, [], ◌∷◌, Text, codes, text_eq, pos}
use astradns_agent.Proxy.Server.{QueryEvent}
use astradns_agent.Logging.{log_mode_off, new_query_logger, run}
use astradns_agent.Logging.Errors.{errors, errors-run}

abbrev event_with : Text → QueryEvent
event_with code = record {
  timestamp = 5;
  source_ip = codes "10.0.0.1";
  domain = codes "a";
  query_type = codes "A";
  response_code = code;
  upstream = codes "proxy-cache";
  latency = 3;
  cache_hit_known = true;
  cache_hit = true;
  denied = false;
}

abbrev events_example : List QueryEvent
events_example =
    event_with (codes "NOERROR")
    ∷ event_with (codes "nxdomain")
    ∷ event_with (codes "SERVFAIL")
    ∷ []

sampled-on : text_eq (new_query_logger [] (pos 100000)).mode log_mode_off ≡ false
unfolding new_query_logger text_eq
sampled-on = refl

errors-run_example :
    errors (run (new_query_logger [] (pos 100000)) events_example) ≡ errors events_example
errors-run_example = errors-run (new_query_logger [] (pos 100000)) events_example sampled-on
