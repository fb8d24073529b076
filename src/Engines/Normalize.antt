-- ===== src/Engines/Normalize.antt =====
-- The functions that config.go of each driver in pkg/engine has a copy of, after
-- pkg/engine/unbound/config.go. `cpus` is `runtime.NumCPU()`.
use astradns_agent.Common.{
  ℕ, not, ◌&&◌, ltb, Text, [], text_eq, to_lower, trim_space, trim_suffix_dot, ℤ, pos, pos_part,
  not_positive, is_zero, to_int32, if◌then◌else◌,
}
use astradns_agent.Types.{EngineTypes}

unfoldable pub normalize_worker_threads : ℤ → ℤ → ℤ
normalize_worker_threads cpus value =
    let auto = to_int32 cpus in
    if ltb 256 (pos_part value)
    then pos 256
    else if not (not_positive value)
    then value
    else if not_positive auto
    then pos 2
    else if ltb 256 (pos_part auto)
    then pos 256
    else auto

-- `value <= 0` gives way to a default.
abbrev pub positive_or : ℤ → ℕ → ℤ
positive_or value default = if not_positive value then pos default else value

module _ (t : EngineTypes) where
  unfoldable pub default_port_for_transport : Text → ℕ
  default_port_for_transport transport =
      if text_eq transport t.transport_dot
      then 853
      else if text_eq transport t.transport_doh
      then 443
      else 53

  unfoldable pub normalize_upstream_transport : Text → Text
  normalize_upstream_transport transport =
      let trimmed = to_lower (trim_space transport) in
      if text_eq trimmed t.transport_dot
      then t.transport_dot
      else if text_eq trimmed t.transport_doh
      then t.transport_doh
      else t.transport_dns

  unfoldable pub normalize_dnssec_mode : Text → Text
  normalize_dnssec_mode mode =
      let trimmed = to_lower (trim_space mode) in
      if text_eq trimmed t.dnssec_mode_process
      then t.dnssec_mode_process
      else if text_eq trimmed t.dnssec_mode_validate
      then t.dnssec_mode_validate
      else t.dnssec_mode_off

  unfoldable pub default_tls_server_name : Text → Text
  default_tls_server_name address =
      let trimmed = trim_suffix_dot (trim_space address) in
      if text_eq trimmed [] then [] else if t.is_ip trimmed then [] else trimmed

  abbrev pub normalized_port : ℤ → Text → ℤ
  normalized_port port transport =
      if is_zero port then pos (default_port_for_transport transport) else port

  -- The three tests on the server name, in the order of the source.
  unfoldable pub normalized_tls_server_name : Text → Text → Text → Text
  normalized_tls_server_name transport address tls_server_name =
      let trimmed = trim_space tls_server_name in
      let named =
        if not (text_eq transport t.transport_dns) && text_eq trimmed []
        then default_tls_server_name address
        else trimmed in
      if text_eq transport t.transport_dns then [] else named
