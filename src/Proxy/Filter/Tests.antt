-- ===== src/Proxy/Filter/Tests.antt =====
-- The filter at concrete names.
use astradns_agent.Common.{
  ◌≡◌, refl, ◌≢◌, ◌⊎◌, true, false, List, [], ◌∷◌, All, Text, codes, text_eq, to_lower, trim_space,
  trim_suffix_dot, has_prefix, has_suffix,
}
use astradns_agent.Proxy.Filter.{
  normalize_name, kept_pattern, parse_pattern, parse_patterns, matches_pattern, matches_any,
  new_domain_filter, allowed,
}
use astradns_agent.Proxy.Filter.Matching.{Matches, Any}
use astradns_agent.Proxy.Filter.Policy.{IsBlank, allowed_iff}

abbrev allow_example : List Text
allow_example = codes "*.Example.com" ∷ codes " " ∷ []

abbrev deny_example : List Text
deny_example = codes "evil.example.com." ∷ []

abbrev name_example : Text
name_example = codes " www.EXAMPLE.com."

filter_admits : allowed (new_domain_filter allow_example deny_example) name_example ≡ true
unfolding normalize_name kept_pattern parse_pattern parse_patterns matches_pattern matches_any
    new_domain_filter allowed text_eq to_lower trim_space trim_suffix_dot has_prefix has_suffix
filter_admits = refl

filter_refuses :
    allowed (new_domain_filter allow_example deny_example) (codes "evil.example.com") ≡ false
unfolding normalize_name kept_pattern parse_pattern parse_patterns matches_pattern matches_any
    new_domain_filter allowed text_eq to_lower trim_space trim_suffix_dot has_prefix has_suffix
filter_refuses = refl

named_example : normalize_name name_example ≢ []
unfolding normalize_name to_lower trim_space trim_suffix_dot
named_example e = cc

allowed_iff_example :
    (All IsBlank allow_example ⊎ Any (Matches (normalize_name name_example)) allow_example)
    × (¬ Any (Matches (normalize_name name_example)) deny_example)
allowed_iff_example =
    (allowed_iff allow_example deny_example name_example named_example).0 filter_admits
