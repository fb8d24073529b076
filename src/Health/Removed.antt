-- ===== src/Health/Removed.antt =====
-- What the checker probes, and a probe that ends after its target was taken away.
use astradns_agent.Common.{
  ℕ, ◌≡◌, ◌≢◌, refl, ap, ◌∙◌, Bool, true, false, none, some, List, [], ◌∷◌, Text, text_eq,
  text_eq_iff, arith, if_cases, Dict, lookup, insert, Distinct, lookup-insert, decimal, codes, any,
}
use astradns_agent.Common.Net.{join_host_port}
use astradns_agent.Types.{Transports}
use astradns_agent.Health.{
  UpstreamTarget, Checker, Probes, record_healthy, record_failure, counted_failure, mark_unhealthy,
  has_healthy_upstream, is_answer, probe_upstream,
}
use astradns_agent.Health.Labels.{
  upstream_label, normalize_upstream_transport, port_or_default, normalized_targets, is_label,
  labels_of, add_label, add_labels, remove_labels, set_upstreams, update_upstreams,
}
use astradns_agent.Health.Passes.{check_plain, check_tls, check_upstream, check_targets, check_all}
use astradns_agent.Health.Targets.{label-normalized, is_label-normalized, update_upstreams_lem}

config-record_failure :
    (c : Checker) (label : Text) (timed_out : Bool)
    → (record_failure c label timed_out).config ≡ c.config
unfolding record_failure mark_unhealthy counted_failure
config-record_failure c label timed_out = ground arith

config-record_healthy :
    (c : Checker) (label : Text) (latency : ℕ) → (record_healthy c label latency).config ≡ c.config
unfolding record_healthy
config-record_healthy c label latency = refl

any-lookup : (label : Text) (h : Dict Bool) → lookup label h ≡ some true → any (λ e. e.1) h ≡ true
unfolding lookup
any-lookup label [] e = cc
any-lookup label ((k, b) ∷ h) e = ground (arith, e, any-lookup label h)

module _ (t : Transports) where
  config-check_upstream :
      (w : Probes) (c : Checker) (u : UpstreamTarget) → (check_upstream t w c u).config ≡ c.config
  unfolding check_upstream check_plain check_tls record_healthy
  config-check_upstream w c u = grind (arith, config-record_failure)

  config-check_targets :
      (w : Probes) (us : List UpstreamTarget) (c : Checker)
      → (check_targets t w us c).config ≡ c.config
  unfolding check_targets
  config-check_targets w [] c = refl
  config-check_targets w (u ∷ us) c =
      if_cases (λ (d : Checker). d.config ≡ c.config) (w.over u) (λ _. refl)
        λ _. config-check_targets w us (check_upstream t w c u) ∙ config-check_upstream w c u

  config-add_label : (label : Text) (c : Checker) → (add_label t label c).config ≡ c.config
  unfolding add_label
  config-add_label label c = ground arith

  config-add_labels : (labels : List Text) (c : Checker) → (add_labels t labels c).config ≡ c.config
  unfolding add_labels
  config-add_labels [] c = refl
  config-add_labels (label ∷ labels) c =
      config-add_labels labels (add_label t label c) ∙ config-add_label label c

  -- After `UpdateUpstreams` and a pass, the checker goes over the targets given, in normal form and
  -- without those that repeat.
  pub is_label-check_all :
      (w : Probes) (c : Checker) (us : List UpstreamTarget) (j : Text)
      → is_label t (labels_of t (check_all t w (update_upstreams t c us)).config.upstreams) j
        ≡ is_label t (labels_of t us) j
  unfolding check_all update_upstreams remove_labels
  is_label-check_all w c us j =
      let normalized = normalized_targets t [] us in
      let removed = remove_labels t (labels_of t normalized) (set_upstreams t normalized c) in
      let added = add_labels t (labels_of t normalized) removed in
      ap (λ config. is_label t (labels_of t config.upstreams) j)
        (config-check_targets w added.config.upstreams added
          ∙ config-add_labels (labels_of t normalized) removed)
      ∙ is_label-normalized t [] us j refl

  -- The label that a probe is counted under.
  label-probed :
      (u : UpstreamTarget)
      → upstream_label t (record u {
        transport = normalize_upstream_transport t u.transport;
        port = port_or_default t u.port (normalize_upstream_transport t u.transport);
      })
        ≡ upstream_label t u
  unfolding upstream_label
  label-probed u = label-normalized t u

  -- A pass goes over the targets as they were when it began. If `UpdateUpstreams` takes a target
  -- away, the checker knows it no more; but if a probe of it over UDP is answered after that, the
  -- checker knows it again, as healthy, and so reports a healthy upstream, whatever it holds of the
  -- targets that it has, which stays as it was. This supposes that each label stood once.
  pub late_answer :
      (w : Probes) (c : Checker) (us : List UpstreamTarget) (u : UpstreamTarget)
      → Distinct c.healthy
      → is_label t (labels_of t us) (upstream_label t u) ≡ false
      → text_eq (normalize_upstream_transport t u.transport) t.transport_doh ≡ false
      → text_eq (normalize_upstream_transport t u.transport) t.transport_dot ≡ false
      → is_answer (
          probe_upstream w
            (update_upstreams t c us).config
            (join_host_port u.address
              (decimal (port_or_default t u.port (normalize_upstream_transport t u.transport))))
            (codes "udp"))
        ≡ true
      → (lookup (upstream_label t u) (update_upstreams t c us).healthy ≡ none)
        × (lookup (upstream_label t u) (check_upstream t w (update_upstreams t c us) u).healthy
            ≡ some true)
        × (has_healthy_upstream (check_upstream t w (update_upstreams t c us) u) ≡ true)
        × ((j : Text)
            → upstream_label t u ≢ j
            → lookup j (check_upstream t w (update_upstreams t c us) u).healthy
              ≡ lookup j (update_upstreams t c us).healthy)
  unfolding has_healthy_upstream record_healthy check_upstream check_plain
  late_answer w c us u d removed not_doh not_dot answered =
      let label = upstream_label t u in
      let h = (update_upstreams t c us).healthy in
      let written : lookup label (insert label true h) ≡ some true =
        ground (arith, lookup-insert label label true h, text_eq_iff label label) in
      let gone : lookup label h ≡ none = rw (update_upstreams_lem t c us label d, removed) refl in
      (
        gone,
        rw (not_doh, not_dot, answered) (rw (label-probed u) written),
        rw (not_doh, not_dot, answered)
            (rw (label-probed u) (any-lookup label (insert label true h) written)),
        λ j ne.
            rw (not_doh, not_dot, answered)
              (rw (label-probed u)
                (ground (arith, lookup-insert label j true h, text_eq_iff label j, ne))),
      )
