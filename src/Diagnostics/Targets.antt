-- ===== src/Diagnostics/Targets.antt =====
-- The targets of a new runner.
use astradns_agent.Common.{
  ◌≡◌, Bool, true, false, not, ◌||◌, Bool-cases, inl, inr, List, [], ◌∷◌, Text, any, arith, All,
  text_eq, text_eq_iff, text_eq_refl, ap, ◌∙◌, if◌then◌else◌, if_cases,
}
use astradns_agent.Diagnostics.{
  Config, is_target_hostname, normalized_target, collect_targets, new_runner,
}
use astradns_agent.Diagnostics.Sorting.{
  IsStrict, IsOnce, sort_strings-any, sort_strings-IsStrict, sort_strings-All,
}

module _ (parse_ip : Text → Bool) where
  -- A text that is probed: not empty, and a host name or an address.
  abbrev pub is_probed : Text → Bool
  is_probed s = not (text_eq s [] || not (is_target_hostname parse_ip s))

  abbrev IsCollected : List Text → Type 0
  IsCollected seen = IsOnce seen × All (λ s. is_probed s ≡ true) seen

  abbrev collected : Text → List Text → List Text
  collected s seen =
      if text_eq s [] || not (is_target_hostname parse_ip s)
      then seen
      else if any (text_eq s) seen
      then seen
      else s ∷ seen

  collected-IsCollected :
      (s : Text) (seen : List Text) → IsCollected seen → IsCollected (collected s seen)
  collected-IsCollected s seen k =
      if_cases IsCollected (text_eq s [] || not (is_target_hostname parse_ip s)) (λ _. k)
        λ good.
          if_cases IsCollected (any (text_eq s) seen) (λ _. k)
            λ new. ((new, k.0), (ap not good, k.1))

  collect_targets-IsCollected :
      (seen targets : List Text)
      → IsCollected seen
      → IsCollected (collect_targets parse_ip seen targets)
  unfolding collect_targets
  collect_targets-IsCollected seen [] k = k
  collect_targets-IsCollected seen (s ∷ targets) k =
      collect_targets-IsCollected (collected (normalized_target s) seen) targets
        (collected-IsCollected (normalized_target s) seen k)

  -- Is a text the normal form of a target that is probed?
  unfoldable pub is_wanted : Text → List Text → Bool
  is_wanted u [] = false
  is_wanted u (s ∷ targets) =
      let rest = is_wanted u targets in
      if text_eq u (normalized_target s) then (if is_probed u then true else rest) else rest

  collected-any :
      (u s : Text) (seen : List Text)
      → any (text_eq u) (collected s seen)
        ≡ (if any (text_eq u) seen then true else if text_eq u s then is_probed u else false)
  collected-any u s seen = elim (Bool-cases (text_eq u s)) [
    | inl e ↦ let same = (text_eq_iff u s).0 e in rw (← same) (ground (arith, text_eq_refl u))
    | inr e ↦ ground (arith, e)
  ]

  collect_targets-any :
      (u : Text) (seen targets : List Text)
      → any (text_eq u) (collect_targets parse_ip seen targets)
        ≡ (if any (text_eq u) seen then true else is_wanted u targets)
  unfolding collect_targets is_wanted
  collect_targets-any u seen [] = ground arith
  collect_targets-any u seen (s ∷ targets) = ground (
    arith,
    collect_targets-any u (collected (normalized_target s) seen) targets,
    collected-any u (normalized_target s) seen,
  )

  -- The targets of a new runner are the normal forms of those given that are host names or
  -- addresses, each once, sorted by bytes.
  pub new_runner-targets :
      (cfg : Config)
      → (IsStrict (new_runner parse_ip cfg).cfg.targets
          × All (λ s. is_probed s ≡ true) (new_runner parse_ip cfg).cfg.targets)
        × ((u : Text)
            → any (text_eq u) (new_runner parse_ip cfg).cfg.targets ≡ is_wanted u cfg.targets)
  unfolding new_runner
  new_runner-targets cfg =
      let k = collect_targets-IsCollected [] cfg.targets (tt, tt) in
      (
        (sort_strings-IsStrict _ k.0, sort_strings-All _ _ k.1),
        λ u. sort_strings-any u _ ∙ collect_targets-any u [] cfg.targets,
      )
