-- ===== src/Diagnostics.antt =====
-- pkg/diagnostics/runner.go: the periodic probes of targets. The proofs are in the modules below.
--
-- What the network does in a probe is a parameter, the text of an error included. The latencies and
-- the times of the results are left out.
pub mod Classify
pub mod Probe
pub mod Sorting
pub mod Targets
pub mod Diagnoses
pub mod Passes
mod Tests
use astradns_agent.Common.{
  ℕ, ◌*◌, Bool, true, false, not, ◌&&◌, ◌||◌, ◌==◌, ltb, Option, none, some, is_some, List, [], ◌∷◌,
  ◌++◌, Text, codes, all, any, length, split, trim_space, trim_suffix_dot, to_lower, text_eq,
  decimal, ℤ, pos, pos_part, not_positive, minute, second, Dict, insert, if◌then◌else◌,
}
use astradns_agent.Common.Net.{join_host_port}
use astradns_agent.Agent.Names.{is_dns1123_label}

pub data Diagnosis : Type 0 where
  healthy dns_resolution_failed egress_blocked_or_network : Diagnosis
  tls_handshake_failed tls_sni_required provider_block_suspected : Diagnosis

pub record Config : Type 0 where
  pub targets : List Text
  pub resolver_addr : Text
  pub interval : ℤ
  pub timeout : ℤ

-- Without the texts of `Summary`, which each go with one diagnosis.
pub record Result : Type 0 where
  pub target : Text
  pub diagnosis : Diagnosis
  pub resolver : Text
  pub dns_rcode : Text
  pub resolved_ips : List Text
  pub tested_endpoint : Text
  pub tcp_reachable : Bool
  pub tls_with_sni : Bool
  pub tls_without_sni : Bool
  pub https_status_code : ℕ
  pub error : Text
  pub evidence : List Text

pub record Runner : Type 0 where
  pub cfg : Config
  pub results : Dict Result

-- The answer to one query: an error, or a code and the addresses of its records in order.
pub data Lookup : Type 0 where
  failed : Text → Lookup
  answered : ℕ → List Text → Lookup

-- What the network does: `none` is success of a connection or of a handshake, which is with the
-- server name where the flag is true; the last yields a status code, or an error.
pub record Network : Type 0 where
  pub lookup_type : Text → ℕ → Lookup
  pub dial : Text → Option Text
  pub handshake : Text → Text → Bool → Option Text
  pub https_status : Text → Text → ℕ × Option Text
  pub rcode_name : ℕ → Text
  pub parse_ip : Text → Bool

-- `sort.Strings`, by bytes.
unfoldable pub text_before : Text → Text → Bool
text_before [] t = true
text_before (c ∷ s) [] = false
text_before (c ∷ s) (d ∷ t) = let rest = text_before s t in if c == d then rest else ltb c d

unfoldable pub insert_sorted : Text → List Text → List Text
insert_sorted s [] = s ∷ []
insert_sorted s (t ∷ ts) =
    let rest = insert_sorted s ts in if text_before s t then s ∷ t ∷ ts else t ∷ rest

unfoldable pub sort_strings : List Text → List Text
sort_strings [] = []
sort_strings (s ∷ ss) = insert_sorted s (sort_strings ss)

unfoldable pub is_target_hostname : (Text → Bool) → Text → Bool
is_target_hostname parse_ip value =
    if text_eq value []
    then false
    else if parse_ip value
    then true
    else if ltb 253 (length value)
    then false
    else all is_dns1123_label (split value b'.')

unfoldable pub normalized_target : Text → Text
normalized_target target = trim_suffix_dot (to_lower (trim_space target))

-- The loop over the targets, with the normalised ones so far, the last first, as the set of those
-- seen.
unfoldable pub collect_targets : (Text → Bool) → List Text → List Text → List Text
collect_targets parse_ip seen [] = seen
collect_targets parse_ip seen (target ∷ targets) =
    let normalized = normalized_target target in
    collect_targets parse_ip
      (if text_eq normalized [] || not (is_target_hostname parse_ip normalized)
        then seen
        else if any (text_eq normalized) seen
        then seen
        else normalized ∷ seen)
      targets

unfoldable pub new_runner : (Text → Bool) → Config → Runner
new_runner parse_ip cfg = record {
  cfg = record {
    targets = sort_strings (collect_targets parse_ip [] cfg.targets);
    resolver_addr =
        if text_eq (trim_space cfg.resolver_addr) []
        then codes "127.0.0.1:5353"
        else cfg.resolver_addr;
    interval = if not_positive cfg.interval then pos minute else cfg.interval;
    timeout = if not_positive cfg.timeout then pos (3 * second) else cfg.timeout;
  };
  results = [];
}
