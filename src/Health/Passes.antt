-- ===== src/Health/Passes.antt =====
-- pkg/health/checker.go: a pass over the upstreams.
use astradns_agent.Common.{◌&&◌, List, [], ◌∷◌, Text, codes, text_eq, decimal, if◌then◌else◌}
use astradns_agent.Common.Net.{join_host_port}
use astradns_agent.Health.{
  record_failure, record_healthy, is_timeout_err, is_answer, probe_upstream, probe_upstream_tls,
  UpstreamTarget, Checker, Probes,
}
use astradns_agent.Types.{Transports}
use astradns_agent.Health.Labels.{normalize_upstream_transport, port_or_default, upstream_label}

module _ (t : Transports) where
  -- `checkUpstream` over TLS, and then over UDP and TCP.
  unfoldable pub check_tls : Probes → Checker → Text → Text → Text → Checker
  check_tls w c label endpoint tls_server_name =
      let probe = probe_upstream_tls w c.config endpoint tls_server_name in
      if is_answer probe
      then record_healthy c label probe.rtt
      else if w.ended (codes "tcp-tls") endpoint
      then c
      else record_failure c label (is_timeout_err probe.error)

  unfoldable pub check_plain : Probes → Checker → Text → Text → Checker
  check_plain w c label endpoint =
      let by_udp = probe_upstream w c.config endpoint (codes "udp") in
      let by_tcp = probe_upstream w c.config endpoint (codes "tcp") in
      if is_answer by_udp
      then record_healthy c label by_udp.rtt
      else if w.ended (codes "udp") endpoint
      then c
      else if is_answer by_tcp
      then record_healthy c label by_tcp.rtt
      else if w.ended (codes "tcp") endpoint
      then c
      else record_failure c label (is_timeout_err by_udp.error && is_timeout_err by_tcp.error)

  unfoldable pub check_upstream : Probes → Checker → UpstreamTarget → Checker
  check_upstream w c given =
      let transport = normalize_upstream_transport t given.transport in
      let port = port_or_default t given.port transport in
      let label = upstream_label t (record given { transport = transport; port = port }) in
      let endpoint = join_host_port given.address (decimal port) in
      if text_eq transport t.transport_doh
      then record_healthy c label 0
      else if text_eq transport t.transport_dot
      then check_tls w c label endpoint given.tls_server_name
      else check_plain w c label endpoint

  -- The loop of `checkAll`, over the targets as they were when it began.
  unfoldable pub check_targets : Probes → List UpstreamTarget → Checker → Checker
  check_targets w [] c = c
  check_targets w (upstream ∷ upstreams) c =
      let rest = check_targets w upstreams (check_upstream w c upstream) in
      if w.over upstream then c else rest

  -- `checkAll`, and `CheckNow`.
  unfoldable pub check_all : Probes → Checker → Checker
  check_all w c = check_targets w c.config.upstreams c
