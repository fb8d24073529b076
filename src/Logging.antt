-- ===== src/Logging.antt =====
-- pkg/logging/logger.go: which events are logged. A sample rate is in millionths; `math.Round`
-- rounds half up here, of numbers that are positive. The JSON writer is left out.
pub mod Errors
mod Tests
use astradns_agent.Common.{
  ℕ, ◌+◌, ◌*◌, ◌/◌, ◌%◌, ◌^◌, Bool, true, false, ◌||◌, ◌==◌, ltb, List, [], ◌∷◌, Text, codes,
  text_eq, to_upper, ℤ, pos, pos_part, not_positive, if◌then◌else◌,
}
use astradns_agent.Proxy.Server.{QueryEvent}

abbrev pub log_mode_full : Text
log_mode_full = codes "full"

abbrev pub log_mode_sampled : Text
log_mode_sampled = codes "sampled"

abbrev pub log_mode_errors_only : Text
log_mode_errors_only = codes "errors-only"

abbrev pub log_mode_off : Text
log_mode_off = codes "off"

abbrev pub million : ℕ
million = 1000000

pub record QueryLogger : Type 0 where
  pub mode : Text
  pub sample_rate : ℕ
  pub sample_counter : ℕ
  pub sample_every : ℕ

abbrev pub clamped : ℤ → ℕ
clamped rate = if ltb million (pos_part rate) then million else pos_part rate

-- `uint64(math.Round(1 / config.SampleRate))`, at least 1.
abbrev pub every : ℕ → ℕ
every rate = let rounded = (2 * million + rate) / (2 * rate) in if rounded == 0 then 1 else rounded

unfoldable pub new_query_logger : Text → ℤ → QueryLogger
new_query_logger given rate =
    let mode = if text_eq given [] then log_mode_sampled else given in
    record {
      mode = mode;
      sample_rate = clamped rate;
      sample_counter = 0;
      sample_every =
          if text_eq mode log_mode_sampled
          then (if clamped rate == 0 then 0 else every (clamped rate))
          else 0;
    }

unfoldable pub is_error_code : Text → Bool
is_error_code response_code =
    let code = to_upper response_code in
    text_eq code (codes "NXDOMAIN") || text_eq code (codes "SERVFAIL")

unfoldable pub sample : QueryLogger → QueryLogger × Bool
sample l =
    let counter = (l.sample_counter + 1) % 2 ^ 64 in
    if l.sample_every == 0
    then (l, false)
    else if l.sample_every == 1
    then (l, true)
    else (record l { sample_counter = counter }, counter % l.sample_every == 0)

unfoldable pub should_log : QueryLogger → QueryEvent → QueryLogger × Bool
should_log l event =
    if text_eq l.mode log_mode_off
    then (l, false)
    else if is_error_code event.response_code
    then (l, true)
    else if text_eq l.mode log_mode_full
    then (l, true)
    else if text_eq l.mode log_mode_errors_only
    then (l, false)
    else if text_eq l.mode log_mode_sampled
    then sample l
    else (l, false)

-- `Run`, until the channel is closed: the events that `logEvent` logs, the first one first.
unfoldable pub run : QueryLogger → List QueryEvent → List QueryEvent
run l [] = []
run l (event ∷ events) =
    let later = run (should_log l event).0 events in
    if (should_log l event).1 then event ∷ later else later
