-- ===== src/Agent/Names.antt =====
-- cmd/agent/main.go: what is a host name. The proofs are in the module below.
pub mod Labels
use astradns_agent.Common.{
  ℕ, suc, ◌+◌, Bool, true, false, not, ◌&&◌, ◌||◌, ◌==◌, ltb, leb, List, [], ◌∷◌, Text, all, length,
  split, trim_space, text_eq, if◌then◌else◌,
}

unfoldable pub is_lower_alpha : ℕ → Bool
is_lower_alpha ch = leb b'a' ch && leb ch b'z'

unfoldable pub is_digit : ℕ → Bool
is_digit ch = leb b'0' ch && leb ch b'9'

abbrev pub is_hyphen : ℕ → Bool
is_hyphen ch = ch == b'-'

abbrev pub is_end : Text → Bool
is_end [] = true
is_end (ch ∷ rest) = false

-- The loop of `isDNS1123Label`; `first` says whether `i` is 0.
unfoldable pub label_bytes : Bool → Text → Bool
label_bytes first [] = true
label_bytes first (ch ∷ rest) =
    let later = label_bytes false rest in
    if not (is_lower_alpha ch) && (not (is_digit ch) && not (is_hyphen ch))
    then false
    else if (first || is_end rest) && is_hyphen ch
    then false
    else later

unfoldable pub is_dns1123_label : Text → Bool
is_dns1123_label label =
    if length label == 0 || ltb 63 (length label) then false else label_bytes true label

unfoldable pub is_dns1123_subdomain : Text → Bool
is_dns1123_subdomain value =
    if length value == 0 || ltb 253 (length value)
    then false
    else all is_dns1123_label (split value b'.')

-- `strings.Count(value, ".")`
unfoldable pub count_dots : Text → ℕ
count_dots [] = 0
count_dots (ch ∷ rest) = if ch == b'.' then suc (count_dots rest) else count_dots rest

unfoldable pub looks_like_invalid_ipv4_literal : Text → Bool
looks_like_invalid_ipv4_literal value =
    if not (count_dots value == 3)
    then false
    else all (λ r. not (not (r == b'.') && (ltb r b'0' || ltb b'9' r))) value

-- `isValidUpstreamAddress`, with the test that `netip.ParseAddr` gives no error.
unfoldable pub is_valid_upstream_address : (Text → Bool) → Text → Bool
is_valid_upstream_address is_ip address =
    let trimmed = trim_space address in
    if text_eq trimmed []
    then false
    else if is_ip trimmed
    then true
    else if looks_like_invalid_ipv4_literal trimmed
    then false
    else is_dns1123_subdomain trimmed
