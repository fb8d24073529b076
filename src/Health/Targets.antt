-- ===== src/Health/Targets.antt =====
-- What `UpdateUpstreams` makes of the labels.
use astradns_agent.Common.{
  ℕ, ◌≡◌, ◌≢◌, refl, ap, sym, ◌∙◌, Bool, true, false, Option, none, some, List, [], ◌∷◌, Text,
  text_eq, text_eq_iff, text_eq_refl, arith, if_cases, if◌then◌else◌, Bool-cases, inl, inr, lookup,
  kept, Distinct, lookup-insert, lookup-retain, to_lower, trim_space, ◌==◌,
}
use astradns_agent.Health.{UpstreamTarget, Checker}
use astradns_agent.Types.{Transports}
use astradns_agent.Health.Labels.{
  upstream_label, normalize_upstream_transport, default_port_for_transport, port_or_default,
  normalized_target, normalized_targets, is_label, add_label, add_labels, remove_labels, labels_of,
  set_upstreams, update_upstreams,
}

-- The health of a label that is known or new.
abbrev pub or_unknown : Option Bool → Bool
or_unknown none = false
or_unknown (some h) = h

text_eq-ne : (a b : Text) → a ≢ b → text_eq a b ≡ false
text_eq-ne a b ne = elim (Bool-cases (text_eq a b)) [
  | inl e ↦ absurd (ne ((text_eq_iff a b).0 e))
  | inr e ↦ e
]

true-ne-false : true ≢ false
true-ne-false e = cc

module _ (t : Transports) where
  fixed-dot : normalize_upstream_transport t t.transport_dot ≡ t.transport_dot
  unfolding normalize_upstream_transport
  fixed-dot = rw (t.dot_plain, text_eq_refl t.transport_dot) refl

  fixed-doh : normalize_upstream_transport t t.transport_doh ≡ t.transport_doh
  unfolding normalize_upstream_transport
  fixed-doh =
      rw
        (
          t.doh_plain,
          text_eq-ne t.transport_doh t.transport_dot (λ e. t.dot-ne-doh (sym e)),
          text_eq_refl t.transport_doh,
        )
        refl

  fixed-dns : normalize_upstream_transport t t.transport_dns ≡ t.transport_dns
  unfolding normalize_upstream_transport
  fixed-dns =
      rw
        (
          t.dns_plain,
          text_eq-ne t.transport_dns t.transport_dot t.dns-ne-dot,
          text_eq-ne t.transport_dns t.transport_doh t.dns-ne-doh,
        )
        refl

  -- A transport that is normal stays so.
  normalize-again :
      (s : Text)
      → normalize_upstream_transport t (normalize_upstream_transport t s)
        ≡ normalize_upstream_transport t s
  normalize-again s =
      let trimmed = to_lower (trim_space s) in
      unfold normalize_upstream_transport in
      if_cases (λ x. normalize_upstream_transport t x ≡ x) (text_eq trimmed t.transport_dot)
        (λ _. fixed-dot)
        λ _.
          if_cases (λ x. normalize_upstream_transport t x ≡ x) (text_eq trimmed t.transport_doh)
            (λ _. fixed-doh) (λ _. fixed-dns)

  default_port-ne-zero : (s : Text) → (default_port_for_transport t s == 0) ≡ false
  unfolding default_port_for_transport
  default_port-ne-zero s = ground arith

  port-again :
      (n : ℕ) (s : Text) → port_or_default t (port_or_default t n s) s ≡ port_or_default t n s
  port-again n s = ground (arith, default_port-ne-zero s)

  -- A target and what is made of it have one label.
  pub label-normalized :
      (u : UpstreamTarget) → upstream_label t (normalized_target t u) ≡ upstream_label t u
  unfolding upstream_label
  label-normalized u =
      rw
        (
          normalize-again u.transport,
          port-again u.port (normalize_upstream_transport t u.transport),
        )
        refl

  add_label-healthy :
      (label j : Text) (c : Checker)
      → lookup j (add_label t label c).healthy
        ≡ (if text_eq j label then some (or_unknown (lookup j c.healthy)) else lookup j c.healthy)
  unfolding add_label
  add_label-healthy label j c =
      ground
        (arith, lookup-insert label j false c.healthy, text_eq_iff label j, text_eq_iff j label)

  add_labels-healthy :
      (labels : List Text) (j : Text) (c : Checker)
      → lookup j (add_labels t labels c).healthy ≡ (
          if is_label t labels j
          then some (or_unknown (lookup j c.healthy))
          else lookup j c.healthy)
  unfolding add_labels
  add_labels-healthy [] j c = refl
  add_labels-healthy (label ∷ labels) j c =
      ground (arith, add_labels-healthy labels j (add_label t label c), add_label-healthy label j c)

  -- The labels kept by the loop are those given, less those met before.
  pub is_label-normalized :
      (before : List Text) (upstreams : List UpstreamTarget) (j : Text)
      → is_label t before j ≡ false
      → is_label t (labels_of t (normalized_targets t before upstreams)) j
        ≡ is_label t (labels_of t upstreams) j
  unfolding normalized_targets
  is_label-normalized before [] j new = refl
  is_label-normalized before (u ∷ upstreams) j new =
      let label = upstream_label t u in
      rw (label-normalized u) (
        if_cases
          (λ us.
            is_label t (labels_of t us) j
            ≡ (if text_eq j label then true else is_label t (labels_of t upstreams) j))
          (is_label t before label)
          (λ again.
            rw
              (text_eq-ne j label
                (λ e. true-ne-false (sym again ∙ ap (is_label t before) (sym e) ∙ new)))
              (is_label-normalized before upstreams j new))
          λ first. rw (label-normalized u) (elim (Bool-cases (text_eq j label)) [
            | inl e ↦ rw e refl
            | inr e ↦ rw e (is_label-normalized (label ∷ before) upstreams j (rw e new))
          ]))

  remove_labels-healthy :
      (labels : List Text) (j : Text) (c : Checker)
      → Distinct c.healthy
      → lookup j (remove_labels t labels c).healthy
        ≡ (if is_label t labels j then lookup j c.healthy else none)
  unfolding remove_labels
  remove_labels-healthy labels j c d =
      lookup-retain (λ label h. is_label t labels label) j c.healthy d
      ∙ kept-if (is_label t labels j) (lookup j c.healthy)
    where
      kept-if : (b : Bool) (o : Option Bool) → kept (λ label h. b) j o ≡ (if b then o else none)
      kept-if true none = refl
      kept-if true (some h) = refl
      kept-if false none = refl
      kept-if false (some h) = refl

  -- After `UpdateUpstreams`, a label is known exactly when it is that of one of the targets given,
  -- whatever the spelling of their transports and wherever they repeat; a label that was known
  -- before keeps its health, and a new one is unhealthy. This supposes that each label stood once.
  pub update_upstreams_lem :
      (c : Checker) (upstreams : List UpstreamTarget) (j : Text)
      → Distinct c.healthy
      → lookup j (update_upstreams t c upstreams).healthy ≡ (
          if is_label t (labels_of t upstreams) j
          then some (or_unknown (lookup j c.healthy))
          else none)
  unfolding update_upstreams
  update_upstreams_lem c upstreams j d =
      let normalized = normalized_targets t [] upstreams in
      let labels = labels_of t normalized in
      let removed = remove_labels t labels (set_upstreams t normalized c) in
      let before = remove_labels-healthy labels j (set_upstreams t normalized c) d in
      let after = add_labels-healthy labels j removed in
      let same = is_label-normalized [] upstreams j refl in
      rw (← same) (after ∙ merged (is_label t labels j) _ _ before)
    where
      merged :
          (b : Bool) (o p : Option Bool)
          → o ≡ (if b then p else none)
          → (if b then some (or_unknown o) else o) ≡ (if b then some (or_unknown p) else none)
      merged true o p e = ap (λ x. some (or_unknown x)) e
      merged false o p e = e
