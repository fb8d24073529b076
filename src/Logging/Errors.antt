-- ===== src/Logging/Errors.antt =====
-- Errors are logged whatever the sampling.
use astradns_agent.Common.{
  ◌≡◌, refl, ap, ◌∙◌, true, false, List, [], ◌∷◌, text_eq, arith, if◌then◌else◌, Bool-cases, inl,
  inr,
}
use astradns_agent.Proxy.Server.{QueryEvent}
use astradns_agent.Logging.{QueryLogger, log_mode_off, is_error_code, sample, should_log, run}

-- The events with an error code.
pub errors : List QueryEvent → List QueryEvent
errors [] = []
errors (event ∷ events) =
    let later = errors events in if is_error_code event.response_code then event ∷ later else later

sample-mode : (l : QueryLogger) → (sample l).0.mode ≡ l.mode
unfolding sample
sample-mode l = ground arith

should_log-mode : (l : QueryLogger) (event : QueryEvent) → (should_log l event).0.mode ≡ l.mode
unfolding should_log
should_log-mode l event = ground (arith, sample-mode l)

should_log-error :
    (l : QueryLogger) (event : QueryEvent)
    → text_eq l.mode log_mode_off ≡ false
    → is_error_code event.response_code ≡ true
    → (should_log l event).1 ≡ true
unfolding should_log
should_log-error l event live e = rw (live, e) refl

-- In every mode but "off", whatever is sampled, the errors among the logged events are all the
-- errors among the events, in their order.
pub errors-run :
    (l : QueryLogger) (events : List QueryEvent)
    → text_eq l.mode log_mode_off ≡ false
    → errors (run l events) ≡ errors events
unfolding run errors
errors-run l [] live = refl
errors-run l (event ∷ events) live =
    let later =
      errors-run (should_log l event).0 events
        (ap (λ m. text_eq m log_mode_off) (should_log-mode l event) ∙ live) in
    elim (Bool-cases (is_error_code event.response_code)) [
      | inl e ↦ rw (should_log-error l event live e, e, later) refl
      | inr e ↦ elim (Bool-cases (should_log l event).1) [
        | inl logged ↦ rw (logged, e, later) refl
        | inr skipped ↦ rw (skipped, e, later) refl
      ]
    ]
