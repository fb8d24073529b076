-- ===== src/Diagnostics/Passes.antt =====
-- What a pass over the targets records.
use astradns_agent.Common.{
  ◌≡◌, refl, sym, ◌∙◌, Bool, true, false, Bool-cases, inl, inr, Option, some, List, [], ◌∷◌, Text,
  any, arith, text_eq, text_eq_iff, Dict, lookup, insert, lookup-insert, if◌then◌else◌,
}
use astradns_agent.Diagnostics.{Config, Result, Runner, Network}
use astradns_agent.Diagnostics.Probe.{probe_target, probe_all, run_once}

-- The targets before the first at which the context is over.
unfoldable pub probed : (Text → Bool) → List Text → List Text
probed over [] = []
probed over (s ∷ targets) = let rest = probed over targets in if over s then [] else s ∷ rest

module _ (w : Network) where
  found_later :
      (cfg : Config) (s j : Text) (later : Bool) (old : Option Result)
      → (if later
          then some (probe_target w cfg j)
          else if text_eq s j
          then some (probe_target w cfg s)
          else old)
        ≡ (if (if text_eq j s then true else later) then some (probe_target w cfg j) else old)
  found_later cfg s j later old = elim (Bool-cases (text_eq s j)) [
    | inl e ↦
        let same = (text_eq_iff s j).0 e in
        let back : text_eq j s ≡ true = (text_eq_iff j s).1 (sym same) in
        rw (e, back, same) (ground arith)
    | inr e ↦
        let back : text_eq j s ≡ false = ground (arith, e, text_eq_iff s j, text_eq_iff j s) in
        rw (e, back) refl
  ]

  probe_all-lookup :
      (cfg : Config) (over : Text → Bool) (targets : List Text) (results : Dict Result) (j : Text)
      → lookup j (probe_all w cfg over targets results) ≡ (
          if any (text_eq j) (probed over targets)
          then some (probe_target w cfg j)
          else lookup j results)
  unfolding probe_all probed
  probe_all-lookup cfg over [] results j = refl
  probe_all-lookup cfg over (s ∷ targets) results j = elim (Bool-cases (over s)) [
    | inl e ↦ rw e refl
    | inr e ↦ rw e (
        probe_all-lookup cfg over targets (insert s (probe_target w cfg s) results) j
        ∙ (rw (lookup-insert s j (probe_target w cfg s) results)
            (found_later cfg s j (any (text_eq j) (probed over targets)) (lookup j results))))
  ]

  -- A pass records for each target, up to the first at which the context is over, the result of
  -- its probe, and leaves the results of all others as they were.
  pub run_once-lookup :
      (over : Text → Bool) (r : Runner) (j : Text)
      → lookup j (run_once w over r).results ≡ (
          if any (text_eq j) (probed over r.cfg.targets)
          then some (probe_target w r.cfg j)
          else lookup j r.results)
  unfolding run_once
  run_once-lookup over r j = probe_all-lookup r.cfg over r.cfg.targets r.results j
