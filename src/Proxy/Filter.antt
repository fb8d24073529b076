-- ===== src/Proxy/Filter.antt =====
-- pkg/proxy/domainfilter.go: allow and deny lists of domain patterns. The proofs are in the
-- modules below.
pub mod Matching
pub mod Policy
mod Tests
use astradns_agent.Common.{
  Bool, true, false, not, ◌&&◌, ◌==◌, Option, none, some, List, [], ◌∷◌, Text, codes, text_eq,
  to_lower, trim_space, trim_suffix_dot, has_prefix, has_suffix, drop, ltb, length, if◌then◌else◌,
}

pub record DomainPattern : Type 0 where
  pub wildcard : Bool
  pub suffix : Text

pub record DomainFilter : Type 0 where
  pub allow : List DomainPattern
  pub deny : List DomainPattern

abbrev pub denied_upstream_label : Text
denied_upstream_label = codes "domain-filter"

-- `strings.ToLower(strings.TrimSuffix(strings.TrimSpace(s), "."))`
unfoldable pub normalize_name : Text → Text
normalize_name s = to_lower (trim_suffix_dot (trim_space s))

-- One round of the loop, from the normalized text on: `none` where it goes on to the next at once.
unfoldable pub kept_pattern : Text → Option DomainPattern
kept_pattern p =
    if text_eq p []
    then none
    else if text_eq p (codes "*")
    then some (record { wildcard = true; suffix = [] })
    else if has_prefix p (codes "*.")
    then some (record { wildcard = true; suffix = drop 1 p })
    else some (record { wildcard = false; suffix = p })

unfoldable pub parse_pattern : Text → Option DomainPattern
parse_pattern raw = kept_pattern (normalize_name raw)

unfoldable pub parse_patterns : List Text → List DomainPattern
parse_patterns [] = []
parse_patterns (raw ∷ rest) = elim (parse_pattern raw) [
  | none ↦ parse_patterns rest
  | some p ↦ p ∷ parse_patterns rest
]

-- One round of the loop: does the pattern match the domain?
unfoldable pub matches_pattern : Text → DomainPattern → Bool
matches_pattern domain p =
    if p.wildcard
    then (if text_eq p.suffix []
        then true
        else if has_suffix domain p.suffix
        then true
        else text_eq domain (drop 1 p.suffix))
    else text_eq domain p.suffix

unfoldable pub matches_any : Text → List DomainPattern → Bool
matches_any domain [] = false
matches_any domain (p ∷ patterns) =
    if matches_pattern domain p then true else matches_any domain patterns

unfoldable pub new_domain_filter : List Text → List Text → Option DomainFilter
new_domain_filter allow deny =
    let allow_patterns = parse_patterns allow in
    let deny_patterns = parse_patterns deny in
    if length allow_patterns == 0 && length deny_patterns == 0
    then none
    else some (record { allow = allow_patterns; deny = deny_patterns })

-- `Allowed`; a nil filter lets everything pass.
unfoldable pub allowed : Option DomainFilter → Text → Bool
allowed none domain = true
allowed (some f) domain =
    let normalized = normalize_name domain in
    if text_eq normalized []
    then true
    else if ltb 0 (length f.allow) && not (matches_any normalized f.allow)
    then false
    else if ltb 0 (length f.deny) && matches_any normalized f.deny
    then false
    else true
