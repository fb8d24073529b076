-- ===== src/Agent/Supervise/Recovery.antt =====
-- What the restarts count, and that a restart of a driver's engine succeeds when nothing is in its
-- way.
use astradns_agent.Common.{
  ℕ, ◌+◌, ◌≡◌, refl, false, Option, none, some, List, [], ◌∷◌, text_eq, arith, if◌then◌else◌,
}
use astradns_agent.Agent.Reload.{EngineOps}
use astradns_agent.Agent.Supervise.{
  Reply, fails, empty, answers, is_engine_responsive, Supervised, count_start, restart, tick, ticks,
}
use astradns_agent.Engines.{Driver}
use astradns_agent.Engines.Process.{
  Host, Directory, Signal, sent, over, denied, Machine, start, stop, stopped, signalled,
}
use astradns_agent.Engines.Ops.{Hosted, engine_ops}

-- How many replies are not answers.
unfoldable pub unresponsive : List Reply → ℕ
unresponsive [] = 0
unresponsive (reply ∷ replies) =
    let rest = unresponsive replies in if is_engine_responsive reply then rest else rest + 1

module _ {S E : Type 0} (ops : EngineOps S E) where
  restart-totals :
      (s : Supervised S)
      → ((restart ops s).recovery_attempts_total ≡ s.recovery_attempts_total + 1)
        × ((restart ops s).recovery_success_total + (restart ops s).recovery_errors_total
            ≡ s.recovery_success_total + s.recovery_errors_total + 1)
  unfolding restart
  restart-totals s = of_start (ops.start (ops.stop s.engine).0)
    where
      attempted : Supervised S
      attempted = record s { recovery_attempts_total = s.recovery_attempts_total + 1 }

      of_start :
          (r : S × Option E)
          → ((count_start ops attempted r).recovery_attempts_total ≡ s.recovery_attempts_total + 1)
            × ((count_start ops attempted r).recovery_success_total
                  + (count_start ops attempted r).recovery_errors_total
                ≡ s.recovery_success_total + s.recovery_errors_total + 1)
      of_start (e, some err) = (refl, omega arith)
      of_start (e, none) = (refl, omega arith)

  -- Each tick without an answer is one attempt to restart the engine, which is counted as a success
  -- or as an error, and the other ticks count nothing.
  pub ticks-totals :
      (replies : List Reply) (s : Supervised S)
      → ((ticks ops replies s).recovery_attempts_total
          ≡ s.recovery_attempts_total + unresponsive replies)
        × ((ticks ops replies s).recovery_success_total
              + (ticks ops replies s).recovery_errors_total
            ≡ s.recovery_success_total + s.recovery_errors_total + unresponsive replies)
  unfolding ticks tick unresponsive is_engine_responsive
  ticks-totals [] s = omega arith
  ticks-totals (answers ∷ replies) s = ticks-totals replies s
  ticks-totals (empty ∷ replies) s =
      omega (arith, ticks-totals replies (restart ops s), restart-totals s)
  ticks-totals (fails ∷ replies) s =
      omega (arith, ticks-totals replies (restart ops s), restart-totals s)

module _ (d : Driver) (dir : Directory) (host : ℕ → Host) where
  start-idle :
      (h : Host) (m : Machine)
      → m.process.cmd ≡ none
      → text_eq m.process.config_path [] ≡ false
      → h.ctx_over ≡ false
      → h.start_error ≡ false
      → ((start h m).1 ≡ none)
        × (((start h m).0.process.cmd ≡ some m.next) × ((start h m).0.alive ≡ m.next ∷ m.alive))
  unfolding start
  start-idle h m idle placed c s = rw (idle, placed, c, s) (refl, (refl, refl))

  stop-idle :
      (h : Host) (m : Machine)
      → ((stop h m).0.process.cmd ≡ none)
        × (((stop h m).0.process.config_path ≡ m.process.config_path)
            × ((stop h m).0.next ≡ m.next))
  unfolding stop
  stop-idle h m = halts m.process.cmd refl
    where
      idle : Machine
      idle = record m { process = record m.process { cmd = none } }

      signals :
          (pid : ℕ) (s : Signal)
          → ((signalled h pid idle s).0.process.cmd ≡ none)
            × (((signalled h pid idle s).0.process.config_path ≡ m.process.config_path)
                × ((signalled h pid idle s).0.next ≡ m.next))
      signals pid sent = unfold signalled in (refl, (refl, refl))
      signals pid over = unfold signalled in (refl, (refl, refl))
      signals pid denied = unfold signalled in (refl, (refl, refl))

      halts :
          (o : Option ℕ)
          → m.process.cmd ≡ o
          → ((stopped h m o).0.process.cmd ≡ none)
            × (((stopped h m o).0.process.config_path ≡ m.process.config_path)
                × ((stopped h m o).0.next ≡ m.next))
      halts none e = (e, (refl, refl))
      halts (some pid) e = signals pid h.signal

  -- If the engine of a driver has a configuration, and the call that starts it is neither canceled
  -- nor in error, then a tick without an answer ends with a new process of the engine, whatever
  -- its state was and however the stop ends, and counts a success.
  pub tick-recovers :
      (reply : Reply) (s : Supervised Hosted)
      → is_engine_responsive reply ≡ false
      → text_eq s.engine.machine.process.config_path [] ≡ false
      → (host (s.engine.calls + 1)).ctx_over ≡ false
      → (host (s.engine.calls + 1)).start_error ≡ false
      → ((tick (engine_ops d dir host) reply s).engine.machine.process.cmd
          ≡ some s.engine.machine.next)
        × ((tick (engine_ops d dir host) reply s).recovery_success_total
            ≡ s.recovery_success_total + 1)
  unfolding tick restart
  tick-recovers reply s silent placed c e =
      let halted = stop (host s.engine.calls) s.engine.machine in
      let idle = stop-idle (host s.engine.calls) s.engine.machine in
      let started =
        start-idle (host (s.engine.calls + 1)) halted.0 idle.0 (rw idle.1.0 placed) c e in
      rw silent (ground (arith, started.0, started.1.0, idle.1.1))
