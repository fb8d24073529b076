-- ===== src/Proxy/Filter/Policy.antt =====
-- The filter's policy: what the lists let pass.
use astradns_agent.Common.{
  ◌≡◌, ◌≢◌, ◌↔◌, ◌⊎◌, inl, inr, refl, Bool, true, false, none, some, List, [], ◌∷◌, All, Text, ◌∙◌,
  text_eq_iff, not, ◌==◌, ◌||◌, ◌&&◌, length, arith, if◌then◌else◌,
}
use astradns_agent.Proxy.Filter.{
  DomainPattern, normalize_name, kept_pattern, parse_pattern, parse_patterns, matches_any,
  new_domain_filter, allowed,
}
use astradns_agent.Proxy.Filter.Matching.{Matches, Any, matches_any_lem}

-- A written pattern that names nothing.
abbrev pub IsBlank : Text → Type 0
IsBlank raw = normalize_name raw ≡ []

parse_pattern-IsBlank : (raw : Text) → (parse_pattern raw ≡ none) ↔ IsBlank raw
unfolding parse_pattern kept_pattern
parse_pattern-IsBlank raw = (
  λ h. ground (arith, text_eq_iff (normalize_name raw) []),
  λ h. ground (arith, text_eq_iff (normalize_name raw) []),
)

parse_patterns-nil : (raws : List Text) → (parse_patterns raws ≡ []) ↔ All IsBlank raws
unfolding parse_patterns
parse_patterns-nil [] = (λ h. tt, λ h. refl)
parse_patterns-nil (raw ∷ rest) = (
  λ h. ground (arith, parse_pattern-IsBlank raw, parse_patterns-nil rest),
  λ h. ground (arith, parse_pattern-IsBlank raw, parse_patterns-nil rest),
)

-- The decision, from the parsed lists.
allowed-parsed :
    (ps ds : List DomainPattern) (domain : Text)
    → normalize_name domain ≢ []
    → allowed (some (record { allow = ps; deny = ds })) domain ≡ (
        (length ps == 0 || matches_any (normalize_name domain) ps)
        && not (matches_any (normalize_name domain) ds))
unfolding allowed matches_any
allowed-parsed [] [] domain ne = ground arith
allowed-parsed (a ∷ ps) [] domain ne = ground (arith, text_eq_iff (normalize_name domain) [])
allowed-parsed [] (d ∷ ds) domain ne = ground (arith, text_eq_iff (normalize_name domain) [])
allowed-parsed (a ∷ ps) (d ∷ ds) domain ne = ground (arith, text_eq_iff (normalize_name domain) [])

-- A nil filter is a filter with no pattern.
allowed-nil :
    (ps ds : List DomainPattern) (domain : Text)
    → allowed
        (if length ps == 0 && length ds == 0 then none else some (record { allow = ps; deny = ds }))
        domain
      ≡ allowed (some (record { allow = ps; deny = ds })) domain
allowed-nil [] [] domain = unfold allowed in ground arith
allowed-nil (p ∷ ps) [] domain = ground arith
allowed-nil [] (d ∷ ds) domain = ground arith
allowed-nil (p ∷ ps) (d ∷ ds) domain = ground arith

policy-bool :
    (x y z : Bool) → (((x || y) && not z) ≡ true) ↔ (((x ≡ true) ⊎ (y ≡ true)) × (z ≡ true → ⊥))
policy-bool true y true = (λ h. cc, λ h. absurd (h.1 refl))
policy-bool true y false = (λ h. (inl refl, λ e. cc), λ h. refl)
policy-bool false true true = (λ h. cc, λ h. absurd (h.1 refl))
policy-bool false true false = (λ h. (inr refl, λ e. cc), λ h. refl)
policy-bool false false z = (λ h. cc, λ h. elim h.0 [ inl e ↦ cc | inr e ↦ cc ])

length-nil : (ps : List DomainPattern) → ((length ps == 0) ≡ true) ↔ (ps ≡ [])
length-nil [] = (λ h. refl, λ h. refl)
length-nil (p ∷ ps) = (λ h. ground arith, λ h. cc)

-- A domain with a name in it passes the filter made of two lists of written patterns exactly when
-- every allow pattern is blank or one matches the domain, and no deny pattern matches it.
pub allowed_iff :
    (allow deny : List Text) (domain : Text)
    → normalize_name domain ≢ []
    → (allowed (new_domain_filter allow deny) domain ≡ true) ↔ (
        (All IsBlank allow ⊎ Any (Matches (normalize_name domain)) allow)
        × (¬ Any (Matches (normalize_name domain)) deny))
unfolding new_domain_filter
allowed_iff allow deny domain ne =
    let decision =
      allowed-nil (parse_patterns allow) (parse_patterns deny) domain
      ∙ allowed-parsed (parse_patterns allow) (parse_patterns deny) domain ne in
    let bools =
      policy-bool (length (parse_patterns allow) == 0)
        (matches_any (normalize_name domain) (parse_patterns allow))
        (matches_any (normalize_name domain) (parse_patterns deny)) in
    let allows = matches_any_lem (normalize_name domain) allow ne in
    let denies = matches_any_lem (normalize_name domain) deny ne in
    let blank = parse_patterns-nil allow in
    let none_kept = length-nil (parse_patterns allow) in
    rw decision (
      λ h. (
        elim (bools.0 h).0 [ inl e ↦ inl (blank.0 (none_kept.0 e)) | inr m ↦ inr (allows.0 m) ],
        λ m. (bools.0 h).1 (denies.1 m),
      ),
      λ h. bools.1 (
        elim h.0 [ inl b ↦ inl (none_kept.1 (blank.1 b)) | inr m ↦ inr (allows.1 m) ],
        λ e. h.1 (denies.0 e),
      ),
    )
