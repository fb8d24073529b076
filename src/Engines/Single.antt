-- ===== src/Engines/Single.antt =====
-- How many processes are alive.
use astradns_agent.Common.{
  ℕ, ◌≤◌, ◌≡◌, ◌≢◌, refl, false, Option, none, some, is_some, List, [], ◌∷◌, text_eq, arith, All,
  length, ◌==◌, if_cases,
}
use astradns_agent.Types.{EngineConfig}
use astradns_agent.Engines.{Driver}
use astradns_agent.Engines.Process.{
  Host, Directory, Signal, sent, over, denied, EngineError, Machine, new_engine, configures, starts,
  reloads, stops, ends, Op, run, run_all, configure, written, start, reload, stop, stopped,
  signalled, without,
}

-- At most one process, which the driver knows.
abbrev pub IsOwned : Option ℕ → List ℕ → Type 0
IsOwned o alive = (length alive ≤ 1) × All (λ pid. o ≡ some pid) alive

abbrev pub IsSingle : Machine → Type 0
IsSingle m = IsOwned m.process.cmd m.alive

without-IsOwned : (o : Option ℕ) (pid : ℕ) (ps : List ℕ) → IsOwned o ps → IsOwned o (without pid ps)
unfolding without
without-IsOwned o pid [] k = k
without-IsOwned o pid (p ∷ []) k = if_cases (IsOwned o) (p == pid) (λ _. (omega arith, tt)) λ _. k
without-IsOwned o pid (p ∷ q ∷ ps) k = absurd (omega (arith, k.0))

without-own : (pid : ℕ) (ps : List ℕ) → IsOwned (some pid) ps → without pid ps ≡ []
unfolding without
without-own pid [] k = refl
without-own pid (p ∷ []) k = ground (arith, k.1.0)
without-own pid (p ∷ q ∷ ps) k = absurd (omega (arith, k.0))

none-alive : (ps : List ℕ) → IsOwned none ps → ps ≡ []
none-alive [] k = refl
none-alive (p ∷ ps) k = absurd (ground (arith, k.1.0))

abbrev pub IsTame : Op × Host → Type 0
IsTame (op, h) = h.signal ≢ denied

module _ (d : Driver) (dir : Directory) where
  abbrev Alike : Machine → Machine × Option EngineError → Type 0
  Alike m r = (r.0.process.cmd ≡ m.process.cmd) × (r.0.alive ≡ m.alive)

  configure-Alike :
      (h : Host) (cfg : EngineConfig) (m : Machine) → Alike m (configure d dir h cfg m)
  unfolding configure
  configure-Alike h cfg m = if_cases (Alike m) h.ctx_over (λ _. (refl, refl)) λ _. of_rendered _
    where
      of_rendered :
          (o : Option EngineError) → Alike m (written d dir h (d.normalize_config cfg) m o)
      of_rendered (some e) = (refl, refl)
      of_rendered none =
          if_cases (Alike m) h.mkdir_error (λ _. (refl, refl))
            λ _. if_cases (Alike m) h.write_error (λ _. (refl, refl)) λ _. (refl, refl)

  reload-Alike : (h : Host) (m : Machine) → Alike m (reload d dir h m)
  unfolding reload
  reload-Alike h m =
      if_cases (Alike m) d.has_control
        (λ _.
          if_cases (Alike m) h.ctx_over (λ _. (refl, refl))
            λ _. if_cases (Alike m) h.control_error (λ _. (refl, refl)) λ _. (refl, refl))
        λ _. (refl, refl)

  Alike-IsSingle :
      (m : Machine) (r : Machine × Option EngineError) → IsSingle m → Alike m r → IsSingle r.0
  Alike-IsSingle m r k e = rw (e.0, e.1) k

  abbrev Singly : Machine × Option EngineError → Type 0
  Singly r = IsSingle r.0

  start-IsSingle : (h : Host) (m : Machine) → IsSingle m → IsSingle (start h m).0
  unfolding start
  start-IsSingle h m k =
      if_cases Singly (is_some m.process.cmd) (λ _. k)
        λ idle.
          if_cases Singly (text_eq m.process.config_path []) (λ _. k)
            λ _.
              if_cases Singly h.ctx_over (λ _. k)
                λ _. if_cases Singly h.start_error (λ _. k) λ _. alone m.process.cmd idle k
    where
      alone :
          (o : Option ℕ)
          → is_some o ≡ false
          → IsOwned o m.alive
          → IsOwned (some m.next) (m.next ∷ m.alive)
      alone (some p) idle k = cc
      alone none idle k = rw (none-alive m.alive k) (omega arith, (refl, tt))

  -- After a stop nothing is alive.
  stop-alive : (h : Host) (m : Machine) → IsSingle m → h.signal ≢ denied → (stop h m).0.alive ≡ []
  unfolding stop
  stop-alive h m k tame = halts m.process.cmd k
    where
      idle : Machine
      idle = record m { process = record m.process { cmd = none } }

      signals :
          (pid : ℕ) (s : Signal)
          → s ≢ denied
          → IsOwned (some pid) m.alive
          → (signalled h pid idle s).0.alive ≡ []
      signals pid sent n k = unfold signalled in without-own pid m.alive k
      signals pid over n k = unfold signalled in without-own pid m.alive k
      signals pid denied n k = absurd (n refl)

      halts : (o : Option ℕ) → IsOwned o m.alive → (stopped h m o).0.alive ≡ []
      halts none k = none-alive m.alive k
      halts (some pid) k = signals pid h.signal tame k

  run-IsSingle :
      (op : Op) (h : Host) (m : Machine)
      → h.signal ≢ denied
      → IsSingle m
      → IsSingle (run d dir op h m).0
  unfolding run
  run-IsSingle (configures cfg) h m tame k =
      Alike-IsSingle m (configure d dir h cfg m) k (configure-Alike h cfg m)
  run-IsSingle starts h m tame k = start-IsSingle h m k
  run-IsSingle reloads h m tame k = Alike-IsSingle m (reload d dir h m) k (reload-Alike h m)
  run-IsSingle stops h m tame k = rw (stop-alive h m k tame) (omega arith, tt)
  run-IsSingle (ends pid) h m tame k = without-IsOwned m.process.cmd pid m.alive k

  run_all-IsSingle :
      (ops : List (Op × Host)) (m : Machine)
      → All IsTame ops
      → IsSingle m
      → IsSingle (run_all d dir ops m)
  unfolding run_all
  run_all-IsSingle [] m tame k = k
  run_all-IsSingle ((op, h) ∷ ops) m tame k =
      run_all-IsSingle ops (run d dir op h m).0 tame.1 (run-IsSingle op h m tame.0 k)

  -- Whatever calls are made and whatever else fails in them, and though processes end unseen, as
  -- long as the signal to stop can be sent or the process is over, at most one process is alive,
  -- the driver knows it, and a stop leaves none.
  pub new_engine-run_all-IsSingle :
      (zero_config : EngineConfig) (ops : List (Op × Host)) (h : Host)
      → All IsTame ops
      → h.signal ≢ denied
      → IsSingle (run_all d dir ops (new_engine zero_config))
        × ((stop h (run_all d dir ops (new_engine zero_config))).0.alive ≡ [])
  unfolding new_engine
  new_engine-run_all-IsSingle zero_config ops h tame last =
      let k = run_all-IsSingle ops (new_engine zero_config) tame (omega arith, tt) in
      (k, stop-alive h _ k last)

-- A signal that cannot be sent leaves the process alive and unknown, and the next start adds
-- another to it.
pub start-stop-denied :
    (h again : Host) (m : Machine) (pid : ℕ)
    → m.process.cmd ≡ some pid
    → text_eq m.process.config_path [] ≡ false
    → h.signal ≡ denied
    → again.ctx_over ≡ false
    → again.start_error ≡ false
    → (start again (stop h m).0).0.alive ≡ m.next ∷ m.alive
unfolding start stop signalled
start-stop-denied h again m pid e placed d c s = rw (e, d) (ground (arith, placed, c, s))
