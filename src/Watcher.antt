-- ===== src/Watcher.antt =====
-- pkg/watcher/watcher.go: the reloads that follow the changes of a directory, after a time without
-- changes. The proofs are in the modules below.
--
-- The occurrences are given with the times at which the loop takes them up. One at the very time at
-- which the timer is due comes after it. A reload is given by its time.
pub mod Bursts
pub mod Changes
mod Tests
use astradns_agent.Common.{
  ℕ, ◌+◌, Bool, true, false, ◌||◌, leb, Option, none, some, List, [], ◌∷◌, ◌++◌, ℤ, pos_part,
  not_positive, second, if◌then◌else◌,
}

-- The operations of an event of fsnotify.
pub record FsOp : Type 0 where
  pub create : Bool
  pub write : Bool
  pub rename : Bool
  pub remove : Bool
  pub chmod : Bool

-- What the loop selects, but for the timer.
pub data Occurrence : Type 0 where
  canceled events_closed errors_closed error : Occurrence
  event : FsOp → Occurrence

-- `deadline` is the time at which the timer is due, `reloads` are in order.
pub record Watch : Type 0 where
  pub deadline : Option ℕ
  pub reloads : List ℕ
  pub ended : Bool

-- `New` with `WithDebounce`.
unfoldable pub debounce_of : ℤ → ℕ
debounce_of debounce = if not_positive debounce then second else pos_part debounce

unfoldable pub is_change : FsOp → Bool
is_change op = op.create || (op.write || (op.rename || (op.remove || op.chmod)))

unfoldable pub new_watch : Watch
new_watch = record { deadline = none; reloads = []; ended = false }

abbrev pub fired : ℕ → Watch → Watch
fired due s = record s { deadline = none; reloads = s.reloads ++ due ∷ [] }

abbrev pub fire_by : ℕ → Watch → Option ℕ → Watch
fire_by time s none = s
fire_by time s (some due) = if leb due time then fired due s else s

-- The timer, where it is due by a time.
unfoldable pub fire_due : ℕ → Watch → Watch
fire_due time s = fire_by time s s.deadline

module _ (debounce : ℕ) where
  unfoldable pub take : ℕ → Occurrence → Watch → Watch
  take time canceled s = record s { deadline = none; ended = true }
  take time events_closed s = record s { ended = true }
  take time errors_closed s = record s { ended = true }
  take time error s = s
  take time (event op) s =
      if is_change op then record s { deadline = some (time + debounce) } else s

  -- The loop of `Run`.
  unfoldable pub run : List (ℕ × Occurrence) → Watch → Watch
  run [] s = s
  run ((time, o) ∷ occurrences) s =
      let next = take time o (fire_due time s) in
      let rest = run occurrences next in if next.ended then next else rest

abbrev pub fire_last : Watch → Option ℕ → Watch
fire_last s none = s
fire_last s (some due) = fired due s

-- After the last occurrence the timer is due at its time, if the loop has not ended.
unfoldable pub settle : Watch → Watch
settle s = if s.ended then s else fire_last s s.deadline
