-- ===== src/Agent/Validate/Tests.antt =====
-- A configuration with two upstreams, and a label.
use astradns_agent.Common.{
  ◌≡◌, refl, none, text_eq, to_lower, trim_space, trim_suffix_dot, decimal, digits, split,
}
use astradns_agent.Agent.Names.{
  is_valid_upstream_address, looks_like_invalid_ipv4_literal, count_dots, is_dns1123_subdomain,
  is_dns1123_label, label_bytes, is_lower_alpha, is_digit,
}
use astradns_agent.Agent.Validate.{
  reject, reject_blank, parse_upstream_transport, default_port_for_transport, effective_port,
  upstream_key, reject_of_transport, reject_upstreams, reject_cache, reject_action,
  is_supported_dnssec_mode, validate_engine_config,
}
use astradns_agent.Types.Samples.{transports_example, types_example, engine_config_example}
use astradns_agent.Agent.Validate.Accepts.{IsDeployable, validate_engine_config-IsDeployable}

config-accepted : validate_engine_config types_example engine_config_example ≡ none
unfolding validate_engine_config reject reject_blank parse_upstream_transport
    default_port_for_transport effective_port upstream_key reject_of_transport reject_upstreams
    reject_cache reject_action is_supported_dnssec_mode is_valid_upstream_address
    looks_like_invalid_ipv4_literal count_dots is_dns1123_subdomain is_dns1123_label label_bytes
    is_lower_alpha is_digit text_eq to_lower trim_space trim_suffix_dot decimal digits split
    types_example transports_example
config-accepted = refl

validate_engine_config-IsDeployable_example : IsDeployable types_example engine_config_example
validate_engine_config-IsDeployable_example =
    validate_engine_config-IsDeployable types_example engine_config_example config-accepted
