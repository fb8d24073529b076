-- ===== src/Watcher/Tests.antt =====
-- A watcher that takes up two bursts.
use astradns_agent.Common.{ℕ, ◌+◌, ◌≡◌, true, false, [], ◌∷◌, List, arith, map}
use astradns_agent.Watcher.{FsOp, Occurrence, error, event, new_watch, run, settle}
use astradns_agent.Watcher.Changes.{changes, burst_ends}
use astradns_agent.Watcher.Bursts.{settle-run-reloads}

abbrev write_example : FsOp
write_example = record {
  create = false;
  write = true;
  rename = false;
  remove = false;
  chmod = false;
}

abbrev occurrences_example : List (ℕ × Occurrence)
occurrences_example =
    (5, event write_example)
    ∷ ((8, error) ∷ ((9, event write_example) ∷ ((30, event write_example) ∷ [])))

settle-run-reloads_example :
    (settle (run 10 occurrences_example new_watch)).reloads
    ≡ map (λ t. t + 10) (burst_ends 10 (changes occurrences_example))
settle-run-reloads_example =
    settle-run-reloads 10 occurrences_example (omega arith) (tt, (tt, (tt, (tt, tt))))
