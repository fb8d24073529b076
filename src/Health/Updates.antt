-- ===== src/Health/Updates.antt =====
-- The gauges follow the checker through `NewChecker` and `UpdateUpstreams`.
use astradns_agent.Common.{
  or_zero, ℕ, ◌≡◌, refl, ap, sym, ◌∙◌, Bool, true, false, Option, none, some, is_some, List, [],
  ◌∷◌, Text, text_eq, text_eq_iff, arith, if_cases, if◌then◌else◌, Bool-cases, inl, inr, Dict,
  lookup, insert, retain, kept, Distinct, Distinct-insert, Distinct-retain, lookup-insert,
  lookup-retain,
}
use astradns_agent.Health.{UpstreamTarget, CheckerConfig, Metrics, Checker, set_gauge}
use astradns_agent.Types.{Transports}
use astradns_agent.Health.Labels.{
  upstream_label, add_upstreams, new_checker, is_label, clear_removed, add_label, add_labels,
  remove_labels, labels_of, normalized_targets, update_upstreams,
}
use astradns_agent.Health.Gauges.{level, Shows, IsConsistent, set_gauge-Shows}

abbrev gauge : Option Metrics → Text → ℕ
gauge none j = 0
gauge (some s) j = or_zero (lookup j s.upstream_healthy)

Shows-gauge :
    (m : Option Metrics) (h : Dict Bool) → ((j : Text) → gauge m j ≡ level (lookup j h)) → Shows m h
Shows-gauge none h g = tt
Shows-gauge (some s) h g = g

module _ (t : Transports) where
  clear_removed-none : (labels : List Text) (h : Dict Bool) → clear_removed t labels h none ≡ none
  unfolding clear_removed set_gauge
  clear_removed-none labels [] = refl
  clear_removed-none labels ((label, b) ∷ h) = elim (Bool-cases (is_label t labels label)) [
    | inl e ↦ rw e (clear_removed-none labels h)
    | inr e ↦ rw e (clear_removed-none labels h)
  ]

  clear_removed-gauge :
      (labels : List Text) (h : Dict Bool) (s : Metrics) (j : Text)
      → gauge (clear_removed t labels h (some s)) j ≡ (
          if is_label t labels j
          then gauge (some s) j
          else if is_some (lookup j h)
          then 0
          else gauge (some s) j)
  unfolding clear_removed set_gauge lookup
  clear_removed-gauge labels [] s j = ground arith
  clear_removed-gauge labels ((label, b) ∷ h) s j = elim (Bool-cases (is_label t labels label)) [
    | inl e ↦ rw e (clear_removed-gauge labels h s j ∙ still e)
    | inr e ↦ rw e (clear_removed-gauge labels h cleared j ∙ gone e)
  ]
    where
      cleared : Metrics
      cleared = record s { upstream_healthy = insert label 0 s.upstream_healthy }

      still :
          is_label t labels label ≡ true
          → (if is_label t labels j
              then gauge (some s) j
              else if is_some (lookup j h)
              then 0
              else gauge (some s) j)
            ≡ (if is_label t labels j
                then gauge (some s) j
                else if is_some (if text_eq label j then some b else lookup j h)
                then 0
                else gauge (some s) j)
      still e = elim (Bool-cases (text_eq label j)) [
        | inl same ↦
            let known : is_label t labels j ≡ true =
              ap (is_label t labels) (sym ((text_eq_iff label j).0 same)) ∙ e in
            rw known refl
        | inr other ↦ rw other refl
      ]

      gone :
          is_label t labels label ≡ false
          → (if is_label t labels j
              then or_zero (lookup j (insert label 0 s.upstream_healthy))
              else if is_some (lookup j h)
              then 0
              else or_zero (lookup j (insert label 0 s.upstream_healthy)))
            ≡ (if is_label t labels j
                then gauge (some s) j
                else if is_some (if text_eq label j then some b else lookup j h)
                then 0
                else gauge (some s) j)
      gone e = elim (Bool-cases (text_eq label j)) [
        | inl same ↦
            let unknown : is_label t labels j ≡ false =
              ap (is_label t labels) (sym ((text_eq_iff label j).0 same)) ∙ e in
            rw (lookup-insert label j 0 s.upstream_healthy, same, unknown) (ground arith)
        | inr other ↦ rw (lookup-insert label j 0 s.upstream_healthy, other) refl
      ]

  remove_labels-Shows :
      (labels : List Text) (h : Dict Bool) (m : Option Metrics)
      → Distinct h
      → Shows m h
      → Shows (clear_removed t labels h m) (retain (λ label b. is_label t labels label) h)
  remove_labels-Shows labels h none d s = rw (clear_removed-none labels h) tt
  remove_labels-Shows labels h (some m) d s = Shows-gauge _ _ (λ j.
      clear_removed-gauge labels h m j
      ∙ left (is_label t labels j) (lookup j h) (gauge (some m) j) j (s j)
      ∙ ap level (sym (lookup-retain (λ label b. is_label t labels label) j h d)))
    where
      left :
          (b : Bool) (o : Option Bool) (n : ℕ) (j : Text)
          → n ≡ level o
          → (if b then n else if is_some o then 0 else n) ≡ level (kept (λ label c. b) j o)
      left true none n j e = e
      left true (some c) n j e = e
      left false none n j e = e
      left false (some c) n j e = refl

  add_label-IsConsistent :
      (label : Text) (c : Checker) → IsConsistent c → IsConsistent (add_label t label c)
  unfolding add_label
  add_label-IsConsistent label c k =
      let counted : Checker =
        if is_some (lookup label c.failure_counts)
        then c
        else record c { failure_counts = insert label 0 c.failure_counts } in
      let same : IsConsistent counted =
        if_cases IsConsistent (is_some (lookup label c.failure_counts)) (λ _. k)
          λ _. record { distinct = k.distinct; shown = k.shown } in
      if_cases IsConsistent (is_some (lookup label counted.healthy)) (λ _. same)
        λ _. record {
          distinct = Distinct-insert label false counted.healthy same.distinct;
          shown = set_gauge-Shows counted.metrics counted.healthy label false same.shown;
        }

  add_labels-IsConsistent :
      (labels : List Text) (c : Checker) → IsConsistent c → IsConsistent (add_labels t labels c)
  unfolding add_labels
  add_labels-IsConsistent [] c k = k
  add_labels-IsConsistent (label ∷ labels) c k =
      add_labels-IsConsistent labels (add_label t label c) (add_label-IsConsistent label c k)

  -- `UpdateUpstreams` keeps the labels distinct and the gauge of each at 1 exactly when it is
  -- healthy, also those of the labels that it takes away.
  pub update_upstreams-IsConsistent :
      (c : Checker) (upstreams : List UpstreamTarget)
      → IsConsistent c
      → IsConsistent (update_upstreams t c upstreams)
  unfolding update_upstreams remove_labels
  update_upstreams-IsConsistent c upstreams k =
      let labels = labels_of t (normalized_targets t [] upstreams) in
      add_labels-IsConsistent labels _ (record {
        distinct = Distinct-retain (λ label h. is_label t labels label) c.healthy k.distinct;
        shown = remove_labels-Shows labels c.healthy c.metrics k.distinct k.shown;
      })

  add_upstreams-IsConsistent :
      (upstreams : List UpstreamTarget) (c : Checker)
      → IsConsistent c
      → IsConsistent (add_upstreams t upstreams c)
  unfolding add_upstreams
  add_upstreams-IsConsistent [] c k = k
  add_upstreams-IsConsistent (upstream ∷ upstreams) c k =
      add_upstreams-IsConsistent upstreams _ (record {
        distinct = Distinct-insert (upstream_label t upstream) false c.healthy k.distinct;
        shown = set_gauge-Shows c.metrics c.healthy (upstream_label t upstream) false k.shown;
      })

  -- `NewChecker` begins with distinct labels and gauges that agree with them, given no metrics or
  -- metrics whose gauges are all 0 or missing.
  pub new_checker-IsConsistent :
      (config : CheckerConfig) (collector : Option Metrics)
      → Shows collector []
      → IsConsistent (new_checker t config collector)
  unfolding new_checker
  new_checker-IsConsistent config collector s =
      add_upstreams-IsConsistent config.upstreams _ (record { distinct = tt; shown = s })
