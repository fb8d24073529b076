-- ===== src/Types/Samples.antt =====
-- The constants with concrete texts, for the tests.
use astradns_agent.Common.{
  true, pos, [], ◌∷◌, ◌≢◌, refl, arith, codes, text_eq, to_lower, trim_space,
}
use astradns_agent.Types.{Transports, EngineTypes, Upstream, EngineConfig}

pub dot-ne-doh_sample : codes "dot" ≢ codes "doh"
dot-ne-doh_sample e = ground arith

pub dns-ne-dot_sample : codes "dns" ≢ codes "dot"
dns-ne-dot_sample e = ground arith

pub dns-ne-doh_sample : codes "dns" ≢ codes "doh"
dns-ne-doh_sample e = ground arith

unfoldable pub transports_example : Transports
unfolding to_lower trim_space
transports_example = record {
  transport_dns = codes "dns";
  transport_dot = codes "dot";
  transport_doh = codes "doh";
  dot-ne-doh = dot-ne-doh_sample;
  dns-ne-dot = dns-ne-dot_sample;
  dns-ne-doh = dns-ne-doh_sample;
  dot-ne-nil = λ e. cc;
  doh-ne-nil = λ e. cc;
  dns_plain = refl;
  dot_plain = refl;
  doh_plain = refl;
}

unfoldable pub types_example : EngineTypes
unfolding to_lower trim_space transports_example
types_example = record {
  transports = transports_example;
  dnssec_mode_off = codes "off";
  dnssec_mode_process = codes "process";
  dnssec_mode_validate = codes "validate";
  action_refused = codes "refused";
  action_nxdomain = codes "nxdomain";
  is_ip = λ s. text_eq s (codes "9.9.9.9");
  off_plain = refl;
  off-ne-nil = λ e. cc;
}

abbrev pub plain_example : Upstream
plain_example = record {
  address = codes "9.9.9.9";
  port = pos 0;
  transport = [];
  tls_server_name = [];
  weight = pos 1;
  preference = pos 100;
}

abbrev pub tls_example : Upstream
tls_example = record {
  address = codes "dns.quad9.net";
  port = pos 853;
  transport = codes " DoT";
  tls_server_name = codes "DNS.quad9.net.";
  weight = pos 1;
  preference = pos 100;
}

abbrev pub engine_config_example : EngineConfig
engine_config_example = record {
  listen_addr = codes "127.0.0.1";
  listen_port = pos 5354;
  worker_threads = pos 2;
  dnssec_mode = [];
  upstreams = plain_example ∷ tls_example ∷ [];
  cache = record {
    max_entries = pos 1000;
    positive_ttl_min = pos 60;
    positive_ttl_max = pos 300;
    negative_ttl = pos 30;
    prefetch_enabled = true;
    prefetch_threshold = pos 10;
  };
  filter_allow = [];
  filter_deny = codes "*.ads.com" ∷ [];
  filter_action = [];
}
