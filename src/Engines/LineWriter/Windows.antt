-- ===== src/Engines/LineWriter/Windows.antt =====
-- What a window lets through, and that what it holds back is counted.
use astradns_agent.Common.{ℕ, ◌≤◌, refl, List, Text, arith, ℤ}
use astradns_agent.Engines.LineWriter.{LineWriter, emit_all, flush_if_long, new_line_writer}
use astradns_agent.Engines.LineWriter.Log.{lines_since, IsMetered}

module _ (now : ℕ → ℕ) where
  abbrev write_from : List Text → LineWriter → LineWriter
  write_from lines w = flush_if_long now (emit_all now lines w)

  -- A new writer is within its limits, which are at least one line and some time.
  pub new_line_writer-IsMetered :
      (max_lines duration : ℤ)
      → IsMetered (new_line_writer now max_lines duration)
        × ((1 ≤ (new_line_writer now max_lines duration).max_lines_per_window)
            × (1 ≤ (new_line_writer now max_lines duration).window_duration))
  unfolding new_line_writer lines_since
  new_line_writer-IsMetered max_lines duration = (
    record {
      windowed = record {
        lasting = ground arith;
        paced = tt;
        emitted = refl;
        bounded = omega arith;
        full = λ h. absurd (omega (arith, h));
      };
      held = omega arith;
      feedless = tt;
    },
    (ground arith, ground arith),
  )
