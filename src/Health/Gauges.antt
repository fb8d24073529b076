-- ===== src/Health/Gauges.antt =====
-- The gauge of each label shows what the checker holds of it.
use astradns_agent.Common.{
  or_zero, ℕ, ◌≡◌, refl, Bool, true, false, Option, none, some, List, [], ◌∷◌, Text, codes, text_eq,
  if_cases, if◌then◌else◌, Bool-cases, inl, inr, Dict, lookup, insert, Distinct, Distinct-insert,
  lookup-insert, leb, pos_part,
}
use astradns_agent.Health.{
  UpstreamTarget, Metrics, Checker, set_gauge, count_failure, observe, counted_failure,
  mark_unhealthy, record_failure, record_healthy, Probes, is_answer, probe_upstream,
  probe_upstream_tls,
}
use astradns_agent.Types.{Transports}
use astradns_agent.Health.Labels.{normalize_upstream_transport}
use astradns_agent.Health.Passes.{check_tls, check_plain, check_upstream, check_targets, check_all}

-- What the gauge of a label shows.
abbrev pub level : Option Bool → ℕ
level none = 0
level (some h) = if h then 1 else 0

abbrev pub Shows : Option Metrics → Dict Bool → Type 0
Shows none h = Unit
Shows (some s) h = (j : Text) → or_zero (lookup j s.upstream_healthy) ≡ level (lookup j h)

-- Each label stands once, and its gauge, where there are metrics, is 1 exactly when it is healthy.
pub record IsConsistent (c : Checker) : Type 0 where
  pub distinct : Distinct c.healthy
  pub shown : Shows c.metrics c.healthy

pub set_gauge-Shows :
    (m : Option Metrics) (h : Dict Bool) (label : Text) (b : Bool)
    → Shows m h
    → Shows (set_gauge label (if b then 1 else 0) m) (insert label b h)
unfolding set_gauge
set_gauge-Shows none h label b s = tt
set_gauge-Shows (some m) h label b s = λ j.
    rw (lookup-insert label j b h, lookup-insert label j (if b then 1 else 0) m.upstream_healthy)
      (elim (Bool-cases (text_eq label j)) [ inl e ↦ rw e refl | inr e ↦ rw e (s j) ])

count_failure-Shows :
    (m : Option Metrics) (h : Dict Bool) (label : Text) (timed_out : Bool)
    → Shows m h
    → Shows (count_failure label timed_out m) h
unfolding count_failure
count_failure-Shows none h label timed_out s = tt
count_failure-Shows (some m) h label timed_out s = s

observe-Shows :
    (m : Option Metrics) (h : Dict Bool) (label : Text) (latency : ℕ)
    → Shows m h
    → Shows (observe label latency m) h
observe-Shows none h label latency s = tt
observe-Shows (some m) h label latency s = s

counted_failure-IsConsistent :
    (c : Checker) (label : Text) (timed_out : Bool)
    → IsConsistent c
    → IsConsistent (counted_failure c label timed_out)
unfolding counted_failure
counted_failure-IsConsistent c label timed_out k = record {
  distinct = k.distinct;
  shown = count_failure-Shows c.metrics c.healthy label timed_out k.shown;
}

mark_unhealthy-IsConsistent :
    (c : Checker) (label : Text) → IsConsistent c → IsConsistent (mark_unhealthy c label)
unfolding mark_unhealthy
mark_unhealthy-IsConsistent c label k = record {
  distinct = Distinct-insert label false c.healthy k.distinct;
  shown = set_gauge-Shows c.metrics c.healthy label false k.shown;
}

record_failure-IsConsistent :
    (c : Checker) (label : Text) (timed_out : Bool)
    → IsConsistent c
    → IsConsistent (record_failure c label timed_out)
unfolding record_failure
record_failure-IsConsistent c label timed_out k =
    let counted = counted_failure-IsConsistent c label timed_out k in
    if_cases IsConsistent
      (leb (pos_part c.config.failure_threshold)
        (or_zero (lookup label (counted_failure c label timed_out).failure_counts)))
      (λ _. mark_unhealthy-IsConsistent (counted_failure c label timed_out) label counted)
      (λ _. counted)

record_healthy-IsConsistent :
    (c : Checker) (label : Text) (latency : ℕ)
    → IsConsistent c
    → IsConsistent (record_healthy c label latency)
unfolding record_healthy
record_healthy-IsConsistent c label latency k = record {
  distinct = Distinct-insert label true c.healthy k.distinct;
  shown =
      observe-Shows (set_gauge label 1 c.metrics) (insert label true c.healthy) label latency
        (set_gauge-Shows c.metrics c.healthy label true k.shown);
}

check_tls-IsConsistent :
    (w : Probes) (c : Checker) (label endpoint name : Text) (t : Transports)
    → IsConsistent c
    → IsConsistent (check_tls t w c label endpoint name)
unfolding check_tls
check_tls-IsConsistent w c label endpoint name t k =
    if_cases IsConsistent (is_answer (probe_upstream_tls w c.config endpoint name))
      (λ _. record_healthy-IsConsistent c label _ k)
      λ _.
        if_cases IsConsistent (w.ended (codes "tcp-tls") endpoint) (λ _. k)
          λ _. record_failure-IsConsistent c label _ k

check_plain-IsConsistent :
    (w : Probes) (c : Checker) (label endpoint : Text) (t : Transports)
    → IsConsistent c
    → IsConsistent (check_plain t w c label endpoint)
unfolding check_plain
check_plain-IsConsistent w c label endpoint t k =
    if_cases IsConsistent (is_answer (probe_upstream w c.config endpoint (codes "udp")))
      (λ _. record_healthy-IsConsistent c label _ k)
      λ _.
        if_cases IsConsistent (w.ended (codes "udp") endpoint) (λ _. k)
          λ _.
            if_cases IsConsistent (is_answer (probe_upstream w c.config endpoint (codes "tcp")))
              (λ _. record_healthy-IsConsistent c label _ k)
              λ _.
                if_cases IsConsistent (w.ended (codes "tcp") endpoint) (λ _. k)
                  λ _. record_failure-IsConsistent c label _ k

check_upstream-IsConsistent :
    (t : Transports) (w : Probes) (c : Checker) (upstream : UpstreamTarget)
    → IsConsistent c
    → IsConsistent (check_upstream t w c upstream)
unfolding check_upstream
check_upstream-IsConsistent t w c upstream k =
    let transport = normalize_upstream_transport t upstream.transport in
    if_cases IsConsistent (text_eq transport t.transport_doh)
      (λ _. record_healthy-IsConsistent c _ 0 k)
      λ _.
        if_cases IsConsistent (text_eq transport t.transport_dot)
          (λ _. check_tls-IsConsistent w c _ _ _ t k) λ _. check_plain-IsConsistent w c _ _ t k

check_targets-IsConsistent :
    (t : Transports) (w : Probes) (upstreams : List UpstreamTarget) (c : Checker)
    → IsConsistent c
    → IsConsistent (check_targets t w upstreams c)
unfolding check_targets
check_targets-IsConsistent t w [] c k = k
check_targets-IsConsistent t w (u ∷ upstreams) c k =
    if_cases IsConsistent (w.over u) (λ _. k)
      λ _.
        check_targets-IsConsistent t w upstreams (check_upstream t w c u)
          (check_upstream-IsConsistent t w c u k)

-- A pass over the upstreams, whatever the probes yield and wherever it is cut off, keeps the
-- labels distinct, and the gauge of each, where there are metrics, at 1 exactly when it is healthy.
pub check_all-IsConsistent :
    (t : Transports) (w : Probes) (c : Checker) → IsConsistent c → IsConsistent (check_all t w c)
unfolding check_all
check_all-IsConsistent t w c k = check_targets-IsConsistent t w c.config.upstreams c k
