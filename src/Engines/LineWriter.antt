-- ===== src/Engines/LineWriter.antt =====
-- pkg/engine/processlog/writer.go: the output of an engine's process, line by line, of which a
-- window of time lets a number through. The proofs are in the modules below.
--
-- Time is given by the number of the reading of the clock. What is logged is a list of records, the
-- last first; `opened` is no record, it marks where in the log a window after the first one opens,
-- with the time.
pub mod Lines
pub mod Windows
pub mod Log
pub mod Steps
use astradns_agent.Common.{
  ℕ, zero, suc, ◌+◌, ◌-◌, ◌*◌, Bool, true, false, ◌==◌, ltb, Option, none, some, List, [], ◌∷◌,
  ◌++◌, reverse, Text, text_eq, length, ℤ, pos, pos_part, not_positive, minute, if◌then◌else◌,
}
use astradns_agent.Common.Net.{cut}

pub data Logged : Type 0 where
  line : Text → Logged
  suppressed : Logged
  summary : ℕ → Logged
  opened : ℕ → Logged

abbrev pub max_buffered_line_bytes : ℕ
max_buffered_line_bytes = 8192

-- `readings` counts the readings of the clock.
pub record LineWriter : Type 0 where
  pub max_lines_per_window : ℕ
  pub window_duration : ℕ
  pub readings : ℕ
  pub buffer : Text
  pub window_start : ℕ
  pub lines_emitted : ℕ
  pub lines_suppressed : ℕ
  pub logged : List Logged

abbrev pub positive_or_default : ℤ → ℕ → ℕ
positive_or_default z default = if not_positive z then default else pos_part z

-- `bytes.TrimRight(s, "\r")`
abbrev pub drop_returns : Text → Text
drop_returns [] = []
drop_returns (c ∷ s) = let rest = drop_returns s in if c == 13 then rest else c ∷ s

unfoldable pub trim_returns : Text → Text
trim_returns s = reverse (drop_returns (reverse s))

abbrev pub under_line : ℕ → List Text × Text → List Text × Text
under_line c ([], rest) = ([], c ∷ rest)
under_line c (s ∷ lines, rest) = ((c ∷ s) ∷ lines, rest)

-- The loop of `Write`: the lines that end in a line feed, and what is left of the buffer.
unfoldable pub split_lines : Text → List Text × Text
split_lines [] = ([], [])
split_lines (c ∷ s) =
    let split = split_lines s in if c == 10 then ([] ∷ split.0, split.1) else under_line c split

module _ (now : ℕ → ℕ) where
  unfoldable pub new_line_writer : ℤ → ℤ → LineWriter
  new_line_writer max_lines_per_window window_duration = record {
    max_lines_per_window = positive_or_default max_lines_per_window 200;
    window_duration = positive_or_default window_duration minute;
    readings = 1;
    buffer = [];
    window_start = now 0;
    lines_emitted = 0;
    lines_suppressed = 0;
    logged = [];
  }

  unfoldable pub rotate_window_if_needed : LineWriter → LineWriter
  rotate_window_if_needed w =
      let time = now w.readings in
      if ltb (time - w.window_start) w.window_duration
      then record w { readings = w.readings + 1 }
      else record w {
        readings = w.readings + 1;
        logged =
            opened time
            ∷ (if ltb 0 w.lines_suppressed
                then summary w.lines_suppressed ∷ w.logged
                else w.logged);
        window_start = time;
        lines_emitted = 0;
        lines_suppressed = 0;
      }

  -- The part of `emitLineLocked` in the window of the line.
  unfoldable pub admit_line : Text → LineWriter → LineWriter
  admit_line s w =
      if ltb w.lines_emitted w.max_lines_per_window
      then record w { lines_emitted = w.lines_emitted + 1; logged = line s ∷ w.logged }
      else record w {
        lines_suppressed = w.lines_suppressed + 1;
        logged = if w.lines_suppressed == 0 then suppressed ∷ w.logged else w.logged;
      }

  unfoldable pub emit_line : Text → LineWriter → LineWriter
  emit_line s w = if text_eq s [] then w else admit_line s (rotate_window_if_needed w)

  unfoldable pub emit_all : List Text → LineWriter → LineWriter
  emit_all [] w = w
  emit_all (s ∷ lines) w = emit_all lines (emit_line (trim_returns s) w)

  abbrev pub flush_if_long : LineWriter → LineWriter
  flush_if_long w =
      if ltb max_buffered_line_bytes (length w.buffer)
      then record (emit_line w.buffer w) { buffer = [] }
      else w

  unfoldable pub write : Text → LineWriter → LineWriter
  write p w =
      let rotated = rotate_window_if_needed w in
      let split = split_lines (rotated.buffer ++ p) in
      flush_if_long (emit_all split.0 (record rotated { buffer = split.1 }))
