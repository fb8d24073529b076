-- ===== src/Engines/Status.antt =====
-- What the drivers promise, without the processes: an engine has no configuration, is configured,
-- or runs.
use astradns_agent.Common.{
  ◌≡◌, ◌≢◌, refl, true, false, Bool, Option, none, some, is_some, List, [], ◌∷◌, text_eq,
  text_eq_iff, ℕ, arith, if◌then◌else◌, if_cases,
}
use astradns_agent.Types.{EngineConfig}
use astradns_agent.Engines.{Driver}
use astradns_agent.Engines.Process.{
  Host, Directory, Signal, sent, over, denied, EngineError, Process, Machine, new_engine,
  configures, starts, reloads, stops, ends, Op, run, run_all, configure, written, start, reload,
  stop, stopped, signalled,
}

pub data Status : Type 0 where
  unconfigured : Status
  configured running : EngineConfig → Status

-- What the driver's state means.
unfoldable pub status : Process → Status
status p =
    if is_some p.cmd
    then running p.config
    else if text_eq p.config_path []
    then unconfigured
    else configured p.config

abbrev pub reconfigured : EngineConfig → Status → Status
reconfigured cfg (running old) = running cfg
reconfigured cfg (configured old) = configured cfg
reconfigured cfg unconfigured = configured cfg

abbrev pub halted : Status → Status
halted (running cfg) = configured cfg
halted (configured cfg) = configured cfg
halted unconfigured = unconfigured

-- The moves of each call, without and with an error.
abbrev pub Promise : Driver → Op → Bool → Status → Status → Type 0
Promise d (configures cfg) false a b = b ≡ reconfigured (d.normalize_config cfg) a
Promise d (configures cfg) true a b = b ≡ a
Promise d starts false a b = (cfg : EngineConfig) × (a ≡ configured cfg) × (b ≡ running cfg)
Promise d starts true a b = b ≡ a
Promise d reloads failed a b = b ≡ a
Promise d stops failed a b = b ≡ halted a
Promise d (ends pid) failed a b = b ≡ a

-- Moves one after another.
pub data Moves (d : Driver) : List (Op × Bool) → Status → Status → Type 0 where
  done : (a : Status) → Moves d [] a a
  move :
      (op : Op) (failed : Bool) (rest : List (Op × Bool)) (a b c : Status)
      → Promise d op failed a b
      → Moves d rest b c
      → Moves d ((op, failed) ∷ rest) a c

module _ (d : Driver) (dir : Directory) where
  -- The calls with whether each of them fails.
  unfoldable pub outcomes : List (Op × Host) → Machine → List (Op × Bool)
  outcomes [] m = []
  outcomes ((op, h) ∷ ops) m =
      let result = run d dir op h m in (op, is_some result.1) ∷ outcomes ops result.0

  -- A process has a configuration.
  abbrev IsPlaced : Process → Type 0
  IsPlaced p = is_some p.cmd ≡ true → p.config_path ≢ []

  abbrev IsMove : Op → Machine → Machine × Option EngineError → Type 0
  IsMove op m r =
      IsPlaced r.0.process × Promise d op (is_some r.1) (status m.process) (status r.0.process)

  written-IsMove :
      (h : Host) (cfg : EngineConfig) (m : Machine) (o : Option EngineError)
      → IsPlaced m.process
      → IsMove (configures cfg) m (written d dir h (d.normalize_config cfg) m o)
  unfolding status
  written-IsMove h cfg m (some e) k = (k, refl)
  written-IsMove h cfg m none k =
      if_cases (IsMove (configures cfg) m) h.mkdir_error (λ _. (k, refl))
        λ _.
          if_cases (IsMove (configures cfg) m) h.write_error (λ _. (k, refl))
            λ _. (
              λ _. dir.join-ne-nil d.file_name,
              ground (arith, dir.join-ne-nil d.file_name, text_eq_iff (dir.join d.file_name) []),
            )

  configure-IsMove :
      (h : Host) (cfg : EngineConfig) (m : Machine)
      → IsPlaced m.process
      → IsMove (configures cfg) m (configure d dir h cfg m)
  unfolding configure
  configure-IsMove h cfg m k =
      if_cases (IsMove (configures cfg) m) h.ctx_over (λ _. (k, refl))
        λ _. written-IsMove h cfg m _ k

  start-IsMove : (h : Host) (m : Machine) → IsPlaced m.process → IsMove starts m (start h m)
  unfolding start status
  start-IsMove h m k =
      if_cases (IsMove starts m) (is_some m.process.cmd) (λ _. (k, refl))
        λ idle.
          if_cases (IsMove starts m) (text_eq m.process.config_path []) (λ _. (k, refl))
            λ placed.
              if_cases (IsMove starts m) h.ctx_over (λ _. (k, refl))
                λ _.
                  if_cases (IsMove starts m) h.start_error (λ _. (k, refl))
                    λ _. (
                      λ _ e. ground (arith, placed, (text_eq_iff m.process.config_path []).1 e),
                      (m.process.config, ground (arith, idle, placed), refl),
                    )

  reload-IsMove :
      (h : Host) (m : Machine) → IsPlaced m.process → IsMove reloads m (reload d dir h m)
  unfolding reload
  reload-IsMove h m k =
      if_cases (IsMove reloads m) d.has_control
        (λ _.
          if_cases (IsMove reloads m) h.ctx_over (λ _. (k, refl))
            λ _. if_cases (IsMove reloads m) h.control_error (λ _. (k, refl)) λ _. (k, refl))
        λ _. (k, refl)

  stop-IsMove : (h : Host) (m : Machine) → IsPlaced m.process → IsMove stops m (stop h m)
  unfolding stop status
  stop-IsMove h m k = halts m.process.cmd refl
    where
      idle : Machine
      idle = record m { process = record m.process { cmd = none } }

      halts : (o : Option ℕ) → m.process.cmd ≡ o → IsMove stops m (stopped h m o)
      halts none e = (k, ground (arith, e))
      halts (some pid) e = signals h.signal
        where
          path : m.process.config_path ≢ []
          path = k (ground (arith, e))

          signals : (s : Signal) → IsMove stops m (signalled h pid idle s)
          signals sent =
              unfold signalled in
              (λ i. cc, ground (arith, e, path, text_eq_iff m.process.config_path []))
          signals over =
              unfold signalled in
              (λ i. cc, ground (arith, e, path, text_eq_iff m.process.config_path []))
          signals denied =
              unfold signalled in
              (λ i. cc, ground (arith, e, path, text_eq_iff m.process.config_path []))

  run-IsMove :
      (op : Op) (h : Host) (m : Machine) → IsPlaced m.process → IsMove op m (run d dir op h m)
  unfolding run
  run-IsMove (configures cfg) h m k = configure-IsMove h cfg m k
  run-IsMove starts h m k = start-IsMove h m k
  run-IsMove reloads h m k = reload-IsMove h m k
  run-IsMove stops h m k = stop-IsMove h m k
  run-IsMove (ends pid) h m k = (k, refl)

  run_all-Moves :
      (ops : List (Op × Host)) (m : Machine)
      → IsPlaced m.process
      → Moves d (outcomes ops m) (status m.process) (status (run_all d dir ops m).process)
  unfolding run_all outcomes
  run_all-Moves [] m k = done _
  run_all-Moves ((op, h) ∷ ops) m k =
      let moved = run-IsMove op h m k in
      move op _ _ _ _ _ moved.1 (run_all-Moves ops (run d dir op h m).0 moved.0)

  -- A driver that starts without a configuration refines the three statuses: whatever calls are
  -- made and whatever the system does in them, each call that fails leaves the status as it is, but
  -- for a stop, which always ends at a status that does not run; a start that succeeds goes from
  -- configured to running, and a configuration that succeeds is taken up, normalised, in the status
  -- that there is.
  pub new_engine-run_all-Moves :
      (zero_config : EngineConfig) (ops : List (Op × Host))
      → let m = new_engine zero_config in
        Moves d (outcomes ops m) unconfigured (status (run_all d dir ops m).process)
  unfolding new_engine status text_eq
  new_engine-run_all-Moves zero_config ops = run_all-Moves ops (new_engine zero_config) (λ i. cc)
