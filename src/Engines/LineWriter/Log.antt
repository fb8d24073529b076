-- ===== src/Engines/LineWriter/Log.antt =====
-- What the log of the lines shows: the lines it accounts for and the windows it keeps to.
use astradns_agent.Common.{
  ℕ, suc, ◌+◌, ◌≤◌, ◌<◌, ◌≡◌, ◌⊎◌, ◌++◌, inl, inr, subst, refl, ltb, List, [], ◌∷◌, Text, text_eq,
  length, if◌then◌else◌,
}
use astradns_agent.Engines.LineWriter.{
  Logged, line, suppressed, summary, opened, LineWriter, max_buffered_line_bytes, split_lines,
  trim_returns,
}
use astradns_agent.Engines.LineWriter.Lines.{IsFeedless}

-- The lines that a log accounts for: those in it, and those that its summaries count.
unfoldable pub accounted : List Logged → ℕ
accounted [] = 0
accounted (line s ∷ log) = suc (accounted log)
accounted (suppressed ∷ log) = accounted log
accounted (summary n ∷ log) = n + accounted log
accounted (opened time ∷ log) = accounted log

-- The lines in the log since the last window opened.
unfoldable pub lines_since : List Logged → ℕ
lines_since [] = 0
lines_since (line s ∷ log) = suc (lines_since log)
lines_since (suppressed ∷ log) = lines_since log
lines_since (summary n ∷ log) = lines_since log
lines_since (opened time ∷ log) = 0

-- A log whose last window opened at `start`: in each window there are at most `max` lines, and each
-- window opened no sooner than `duration` after the one before it.
abbrev pub IsPaced : ℕ → ℕ → ℕ → List Logged → Type 0
IsPaced max duration start [] = Unit
IsPaced max duration start (line s ∷ log) =
    (suc (lines_since log) ≤ max) × IsPaced max duration start log
IsPaced max duration start (suppressed ∷ log) = IsPaced max duration start log
IsPaced max duration start (summary n ∷ log) = IsPaced max duration start log
IsPaced max duration start (opened time ∷ log) =
    (time ≡ start) × ((before : ℕ) × (before + duration ≤ start) × IsPaced max duration before log)

-- The text of the lines in the log, the last first.
unfoldable pub texts : List Logged → List Text
texts [] = []
texts (line s ∷ log) = s ∷ texts log
texts (suppressed ∷ log) = texts log
texts (summary n ∷ log) = texts log
texts (opened time ∷ log) = texts log

-- Each of the lines in turn is put before what is there, or left out.
abbrev pub IsShown : List Text → List Text → List Text → Type 0
IsShown before [] after = after ≡ before
IsShown before (s ∷ lines) after = IsShown (s ∷ before) lines after ⊎ IsShown before lines after

pub IsShown-append :
    (xs ys : List Text) (a b c : List Text)
    → IsShown a xs b
    → IsShown b ys c
    → IsShown a (xs ++ ys) c
IsShown-append [] ys a b c h k = subst (λ l. IsShown l ys c) h k
IsShown-append (s ∷ xs) ys a b c (inl h) k = inl (IsShown-append xs ys (s ∷ a) b c h k)
IsShown-append (s ∷ xs) ys a b c (inr h) k = inr (IsShown-append xs ys a b c h k)

-- Of the lines given, in their order, the log shows some, and the others are counted.
pub record IsAccounted (lines : List Text) (w v : LineWriter) : Type 0 where
  pub total :
      accounted v.logged + v.lines_suppressed
      ≡ accounted w.logged + w.lines_suppressed + length lines
  pub shown : IsShown (texts w.logged) lines (texts v.logged)

-- The lines that a text ends and that are not empty, and what follows them if it is too long to wait.
abbrev pub non_empty : Text → List Text
non_empty s = if text_eq s [] then [] else s ∷ []

unfoldable pub written_lines : List Text → List Text
written_lines [] = []
written_lines (s ∷ lines) = non_empty (trim_returns s) ++ written_lines lines

abbrev pub overlong : Text → List Text
overlong s = if ltb max_buffered_line_bytes (length s) then s ∷ [] else []

unfoldable pub lines_of : Text → List Text
lines_of s = let split = split_lines s in written_lines split.0 ++ overlong split.1

pub lines_of_lem :
    (s : Text) → lines_of s ≡ written_lines (split_lines s).0 ++ overlong (split_lines s).1
unfolding lines_of
lines_of_lem s = refl

-- What the writer knows of its window is what the log shows, no window has more lines than it may,
-- and lines are held back only when it is full.
pub record IsWindowed (w : LineWriter) : Type 0 where
  pub lasting : 1 ≤ w.window_duration
  pub paced : IsPaced w.max_lines_per_window w.window_duration w.window_start w.logged
  pub emitted : lines_since w.logged ≡ w.lines_emitted
  pub bounded : w.lines_emitted ≤ w.max_lines_per_window
  pub full : 0 < w.lines_suppressed → w.lines_emitted ≡ w.max_lines_per_window

-- And the buffer is short and has no line feed.
pub record IsMetered (w : LineWriter) : Type 0 where
  pub windowed : IsWindowed w
  pub held : length w.buffer ≤ max_buffered_line_bytes
  pub feedless : IsFeedless w.buffer
