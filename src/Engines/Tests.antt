-- ===== src/Engines/Tests.antt =====
-- Drivers with concrete configurations and systems.
use astradns_agent.Common.{ℕ, ◌+◌, ◌≡◌, ◌↔◌, ◌≢◌, [], ◌∷◌, List, codes, pos}
use astradns_agent.Types.Samples.{types_example, engine_config_example}
use astradns_agent.Engines.Coredns
use astradns_agent.Engines.Drivers.{coredns, driver_of}
use astradns_agent.Engines.Process.{
  Host, sent, denied, new_engine, configures, starts, stops, ends, Op, run_all, stop,
}
use astradns_agent.Engines.Samples.{host_example, dir_example}
use astradns_agent.Engines.Status.{unconfigured, status, Moves, outcomes, new_engine-run_all-Moves}
use astradns_agent.Engines.Single.{IsSingle, new_engine-run_all-IsSingle}
use astradns_agent.Engines.LineWriter.{split_lines}
use astradns_agent.Engines.LineWriter.Lines.{joined, IsSplit, split_lines_iff}

abbrev ops_example : List (Op × Host)
ops_example =
    (configures engine_config_example, host_example)
    ∷ (starts, host_example)
    ∷ (ends 0, host_example)
    ∷ (stops, host_example)
    ∷ (starts, host_example)
    ∷ []

new_engine-run_all-Moves_example :
    Moves
      (driver_of types_example (pos 4) coredns)
      (outcomes
        (driver_of types_example (pos 4) coredns)
        dir_example
        ops_example
        (new_engine engine_config_example))
      unconfigured
      (status
        (run_all
          (driver_of types_example (pos 4) coredns)
          dir_example
          ops_example
          (new_engine engine_config_example)).process)
new_engine-run_all-Moves_example =
    new_engine-run_all-Moves (driver_of types_example (pos 4) coredns) dir_example
      engine_config_example ops_example

is-sent : sent ≢ denied
is-sent e = cc

new_engine-run_all-IsSingle_example :
    IsSingle (
      run_all
        (driver_of types_example (pos 4) coredns)
        dir_example
        ops_example
        (new_engine engine_config_example))
    × ((stop host_example (
          run_all
            (driver_of types_example (pos 4) coredns)
            dir_example
            ops_example
            (new_engine engine_config_example))).0.alive
        ≡ [])
new_engine-run_all-IsSingle_example =
    new_engine-run_all-IsSingle (driver_of types_example (pos 4) coredns) dir_example
      engine_config_example ops_example host_example
      (is-sent, (is-sent, (is-sent, (is-sent, (is-sent, tt))))) is-sent

split_lines_iff_example : (split_lines (codes "ab\ncd") ≡ (codes "ab" ∷ [], codes "cd")) ↔ (
    (joined (codes "ab" ∷ [], codes "cd") ≡ codes "ab\ncd") × IsSplit (codes "ab" ∷ [], codes "cd"))
split_lines_iff_example = split_lines_iff (codes "ab\ncd") (codes "ab" ∷ [], codes "cd")

abbrev clock : ℕ → ℕ
clock n = n + 1000
