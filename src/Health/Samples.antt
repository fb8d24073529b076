-- ===== src/Health/Samples.antt =====
-- A network without answers, for the tests.
use astradns_agent.Common.{true, false, none, some}
use astradns_agent.Health.{Probes}

abbrev pub silence : Probes
silence = record {
  exchange = λ network name timeout domain type endpoint. record {
    response = none;
    rtt = 0;
    error = some true;
  };
  is_ip = λ host. true;
  ended = λ network endpoint. false;
  over = λ upstream. false;
}
