-- ===== src/Proxy/Filter/Matching.antt =====
-- What a domain pattern matches, said without the parsed form, and that the filter decides it.
use astradns_agent.Common.{
  ◌≡◌, ◌≢◌, ◌↔◌, ◌⊎◌, inl, inr, refl, sym, ◌∙◌, true, false, Option, none, some, List, [], ◌∷◌,
  ◌++◌, Text, codes, text_eq, text_eq_iff, text_eq_refl, has_prefix, has_suffix, drop, Bool-cases,
  arith,
}
use astradns_agent.Common.Affix.{has_prefix_iff, has_suffix_iff}
use astradns_agent.Proxy.Filter.{
  DomainPattern, normalize_name, kept_pattern, parse_pattern, parse_patterns, matches_pattern,
  matches_any,
}

-- A written pattern matches a normalized domain.
pub data Matches (d raw : Text) : Type 0 where
  everything : normalize_name raw ≡ codes "*" → Matches d raw
  apex : normalize_name raw ≡ codes "*." ++ d → Matches d raw
  subdomain :
      (front base : Text)
      → normalize_name raw ≡ codes "*." ++ base
      → d ≡ front ++ (codes "." ++ base)
      → Matches d raw
  exact : normalize_name raw ≡ d → d ≢ [] → Matches d raw

abbrev pub Any : (Text → Type 0) → List Text → Type 0
Any P [] = ⊥
Any P (x ∷ xs) = P x ⊎ Any P xs

-- The suffix test, from a text that ends so.
has_suffix-append : (front suffix : Text) → has_suffix (front ++ suffix) suffix ≡ true
has_suffix-append front suffix = (has_suffix_iff (front ++ suffix) suffix).1 (front, refl)

-- The pattern that is kept of a written one, if any is, matches the domain.
abbrev KeptMatches : Text → Option DomainPattern → Type 0
KeptMatches d none = ⊥
KeptMatches d (some p) = matches_pattern d p ≡ true

star_suffix : (d : Text) → has_prefix d (codes "*.") ≡ true → has_suffix d (drop 1 d) ≡ true
star_suffix d h =
    let found : (t : Text) × (d ≡ codes "*." ++ t) = (has_prefix_iff d (codes "*.")).0 h in
    rw found.1 (has_suffix-append (codes "*") (codes "." ++ found.0))

-- A text matches itself as a pattern, also where it begins with `*`.
exact_kept : (d : Text) → d ≢ [] → KeptMatches d (kept_pattern d)
unfolding kept_pattern matches_pattern
exact_kept d ne = ground (arith, text_eq_refl [], text_eq_iff d d, text_eq_iff d [], star_suffix d)

Matches-KeptMatches : (d raw : Text) → Matches d raw → KeptMatches d (parse_pattern raw)
unfolding parse_pattern kept_pattern matches_pattern has_prefix text_eq
Matches-KeptMatches d raw (everything e) = rw e refl
Matches-KeptMatches d raw (apex e) = rw e (ground (arith, text_eq_iff d d))
Matches-KeptMatches d raw (subdomain front base e x) =
    rw (e, x) (ground (arith, has_suffix-append front (codes "." ++ base)))
Matches-KeptMatches d raw (exact e ne) = rw e (exact_kept d ne)

-- The pattern kept of `*.base` matches the subdomains of the base and the base itself.
wildcard-Matches :
    (d raw base : Text)
    → normalize_name raw ≡ codes "*." ++ base
    → matches_pattern d (record { wildcard = true; suffix = codes "." ++ base }) ≡ true
    → Matches d raw
unfolding matches_pattern text_eq
wildcard-Matches d raw base e m = elim (Bool-cases (has_suffix d (codes "." ++ base))) [
  | inl h ↦
      let found : (t : Text) × (d ≡ t ++ (codes "." ++ base)) =
        (has_suffix_iff d (codes "." ++ base)).0 h in
      subdomain found.0 base e found.1
  | inr h ↦ let same : d ≡ base = (text_eq_iff d base).0 (rw h at m) in apex (rw same e)
]

name-eq : (d p : Text) → matches_pattern d (record { wildcard = false; suffix = p }) ≡ true → d ≡ p
unfolding matches_pattern
name-eq d p h = (text_eq_iff d p).0 h

-- A kept pattern matches only what the written one does.
KeptMatches-Matches :
    (d raw p : Text)
    → d ≢ []
    → normalize_name raw ≡ p
    → KeptMatches d (kept_pattern p)
    → Matches d raw
unfolding kept_pattern
KeptMatches-Matches d raw p ne e m = elim (Bool-cases (text_eq p [])) [
  | inl empty ↦ absurd (rw empty at m)
  | inr kept ↦ elim (Bool-cases (text_eq p (codes "*"))) [
    | inl star ↦ everything (e ∙ (text_eq_iff p (codes "*")).0 star)
    | inr plain ↦ elim (Bool-cases (has_prefix p (codes "*."))) [
      | inl wild ↦
          let found : (t : Text) × (p ≡ codes "*." ++ t) = (has_prefix_iff p (codes "*.")).0 wild in
          wildcard-Matches d raw found.0 (e ∙ found.1) (rw (kept, plain, wild, found.1) at m)
      | inr name ↦ exact (e ∙ sym (name-eq d p (rw (kept, plain, name) at m))) ne
    ]
  ]
]

matches_any-step :
    (d : Text) (o : Option DomainPattern) (ps : List DomainPattern)
    → (matches_any d (elim o [ none ↦ ps | some p ↦ p ∷ ps ]) ≡ true)
      ↔ (KeptMatches d o ⊎ (matches_any d ps ≡ true))
matches_any-step d none ps = (λ h. inr h, elim [ inl h ↦ absurd h | inr h ↦ h ])
matches_any-step d (some p) ps = unfold matches_any in (ground arith, ground arith)

-- The parsed patterns match a domain exactly when one of the written patterns does.
pub matches_any_lem :
    (d : Text) (raws : List Text)
    → d ≢ []
    → (matches_any d (parse_patterns raws) ≡ true) ↔ Any (Matches d) raws
unfolding parse_patterns
matches_any_lem d [] ne = unfold matches_any in (λ h. cc, λ h. absurd h)
matches_any_lem d (raw ∷ rest) ne =
    let step = matches_any-step d (parse_pattern raw) (parse_patterns rest) in
    (
      λ h. elim (step.0 h) [
        | inl here ↦
            inl (
              KeptMatches-Matches d raw (normalize_name raw) ne refl (unfold parse_pattern in here))
        | inr there ↦ inr ((matches_any_lem d rest ne).0 there)
      ],
      elim [
        | inl here ↦ step.1 (inl (Matches-KeptMatches d raw here))
        | inr there ↦ step.1 (inr ((matches_any_lem d rest ne).1 there))
      ],
    )
