-- ===== src/Diagnostics/Tests.antt =====
-- A runner with concrete targets and a network that drops handshakes without a server name.
use astradns_agent.Common.{
  ◌≡◌, true, false, none, some, [], ◌∷◌, Text, codes, any, All, text_eq, pos, if◌then◌else◌,
}
use astradns_agent.Diagnostics.{Config, answered, Network, new_runner}
use astradns_agent.Diagnostics.Probe.{resolve_target, probe_target}
use astradns_agent.Diagnostics.Diagnoses.{Means, probe_target-Means}
use astradns_agent.Diagnostics.Sorting.{IsStrict}
use astradns_agent.Diagnostics.Targets.{is_probed, is_wanted, new_runner-targets}

abbrev network_example : Network
network_example = record {
  lookup_type = λ target type. answered 0 (codes "9.9.9.9" ∷ []);
  dial = λ endpoint. none;
  handshake = λ endpoint target with_sni. if with_sni then none else some (codes "handshake");
  https_status = λ target endpoint. (200, none);
  rcode_name = λ rcode. codes "NOERROR";
  parse_ip = λ s. false;
}

abbrev config_example : Config
config_example = record {
  targets = codes "B.example." ∷ (codes " a.example" ∷ (codes "b.example" ∷ (codes "-" ∷ [])));
  resolver_addr = [];
  interval = pos 0;
  timeout = pos 0;
}

probe_target-Means_example :
    Means network_example
      (codes "a.example")
      (resolve_target network_example (codes "a.example")).ips
      (resolve_target network_example (codes "a.example")).err
      (probe_target network_example config_example (codes "a.example")).diagnosis
probe_target-Means_example = probe_target-Means network_example config_example (codes "a.example")

new_runner-targets_example :
    (IsStrict (new_runner network_example.parse_ip config_example).cfg.targets
      × All
          (λ s. is_probed network_example.parse_ip s ≡ true)
          (new_runner network_example.parse_ip config_example).cfg.targets)
    × ((u : Text)
        → any (text_eq u) (new_runner network_example.parse_ip config_example).cfg.targets
          ≡ is_wanted network_example.parse_ip u config_example.targets)
new_runner-targets_example = new_runner-targets network_example.parse_ip config_example
