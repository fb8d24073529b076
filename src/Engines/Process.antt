-- ===== src/Engines/Process.antt =====
-- pkg/engine/unbound/engine.go, whose lifecycle the other drivers share: the configuration that is
-- written and the subprocess that is started, reloaded and stopped.
--
-- A process is a number, and the machine holds those that are alive. What the operating system, the
-- templates and the context do in a call is a parameter.
use astradns_agent.Common.{
  ℕ, ◌+◌, ◌≢◌, Bool, true, false, ◌||◌, ◌==◌, Option, none, some, is_some, List, [], ◌∷◌, Text,
  text_eq, is_zero, if◌then◌else◌,
}
use astradns_agent.Types.{EngineConfig}
use astradns_agent.Engines.{CompatError, Driver}

-- How the signal to stop fares: it is sent, the process is over, or it cannot be sent.
pub data Signal : Type 0 where
  sent over denied : Signal

-- How the wait for a process ends: with exit status 0, with another, with another error, or with
-- the end of the time, when the process is killed. The process has ended in each case.
pub data Exit : Type 0 where
  exits exits_with_status fails times_out : Exit

-- What surrounds one call. `template_error` stands for `ValidateTemplateConfig` and the template.
pub record Host : Type 0 where
  pub ctx_over : Bool
  pub template_error : EngineConfig → Bool
  pub mkdir_error : Bool
  pub write_error : Bool
  pub start_error : Bool
  pub control_error : Bool
  pub signal : Signal
  pub exit : Exit

-- The directory of the configuration, and `filepath.Join` on it.
pub record Directory : Type 0 where
  pub join : Text → Text
  pub join-ne-nil : (file : Text) → join file ≢ []

pub data EngineError : Type 0 where
  canceled template_failed mkdir_failed write_failed already_running not_configured : EngineError
  start_failed control_failed signal_failed wait_failed : EngineError
  incompatible : CompatError → EngineError

pub record Process : Type 0 where
  pub config_path : Text
  pub config : EngineConfig
  pub cmd : Option ℕ

-- The driver's state, the processes that are alive, and the number of the next one.
pub record Machine : Type 0 where
  pub process : Process
  pub alive : List ℕ
  pub next : ℕ

-- `NewUnboundEngine`; `zero_config` is the zero value of the configuration.
unfoldable pub new_engine : EngineConfig → Machine
new_engine zero_config = record {
  process = record { config_path = []; config = zero_config; cmd = none };
  alive = [];
  next = 0;
}

-- `RenderConfig`, of the configuration as it is normalised.
unfoldable pub render_error : Host → EngineConfig → Option CompatError → Option EngineError
render_error h normalized (some e) = some (incompatible e)
render_error h normalized none = if h.template_error normalized then some template_failed else none

unfoldable pub start : Host → Machine → Machine × Option EngineError
start h m =
    if is_some m.process.cmd
    then (m, some already_running)
    else if text_eq m.process.config_path []
    then (m, some not_configured)
    else if h.ctx_over
    then (m, some canceled)
    else if h.start_error
    then (m, some start_failed)
    else (
      record {
        process = record m.process { cmd = some m.next };
        alive = m.next ∷ m.alive;
        next = m.next + 1;
      },
      none,
    )

unfoldable pub without : ℕ → List ℕ → List ℕ
without pid [] = []
without pid (p ∷ ps) = let rest = without pid ps in if p == pid then rest else p ∷ rest

-- `isExpectedExit` of what `waitForExit` returns.
unfoldable pub wait_error : Exit → Option EngineError
wait_error exits = none
wait_error exits_with_status = none
wait_error fails = some wait_failed
wait_error times_out = some wait_failed

unfoldable pub signalled : Host → ℕ → Machine → Signal → Machine × Option EngineError
signalled h pid m sent = (record m { alive = without pid m.alive }, wait_error h.exit)
signalled h pid m over = (record m { alive = without pid m.alive }, wait_error h.exit)
signalled h pid m denied = (m, some signal_failed)

abbrev pub stopped : Host → Machine → Option ℕ → Machine × Option EngineError
stopped h m none = (m, none)
stopped h m (some pid) =
    signalled h pid (record m { process = record m.process { cmd = none } }) h.signal

unfoldable pub stop : Host → Machine → Machine × Option EngineError
stop h m = stopped h m m.process.cmd

-- What the engine answers to a query for the root: an error, no response, or a code.
pub data Answer : Type 0 where
  no_answer empty_answer : Answer
  answered : ℕ → Answer

-- Whether the engine is healthy, and whether there is an error.
unfoldable pub answer_status : Answer → Bool × Bool
answer_status no_answer = (false, true)
answer_status empty_answer = (false, true)
answer_status (answered rcode) = if rcode == 0 then (true, false) else (false, false)

unfoldable pub health_status : Answer → Machine → Bool × Bool
health_status answer m =
    if text_eq m.process.config.listen_addr [] || is_zero m.process.config.listen_port
    then (false, true)
    else answer_status answer

unfoldable pub health_check : Answer → Machine → Bool
health_check answer m = (health_status answer m).0

-- The calls, and the end of a process that the driver does not see.
pub data Op : Type 0 where
  configures : EngineConfig → Op
  starts reloads stops : Op
  ends : ℕ → Op

module _ (d : Driver) (dir : Directory) where
  abbrev pub written :
      Host → EngineConfig → Machine → Option EngineError → Machine × Option EngineError
  written h normalized m (some e) = (m, some e)
  written h normalized m none =
      if h.mkdir_error
      then (m, some mkdir_failed)
      else if h.write_error
      then (m, some write_failed)
      else (
        record m {
          process = record m.process { config = normalized; config_path = dir.join d.file_name };
        },
        none,
      )

  unfoldable pub configure : Host → EngineConfig → Machine → Machine × Option EngineError
  configure h config m =
      let normalized = d.normalize_config config in
      if h.ctx_over
      then (m, some canceled)
      else written h normalized m (render_error h normalized (d.validate_compatibility normalized))

  unfoldable pub reload : Host → Machine → Machine × Option EngineError
  reload h m =
      if d.has_control
      then (if h.ctx_over
          then (m, some canceled)
          else if h.control_error
          then (m, some control_failed)
          else (m, none))
      else (m, none)

  unfoldable pub run : Op → Host → Machine → Machine × Option EngineError
  run (configures config) h m = configure h config m
  run starts h m = start h m
  run reloads h m = reload h m
  run stops h m = stop h m
  run (ends pid) h m = (record m { alive = without pid m.alive }, none)

  unfoldable pub run_all : List (Op × Host) → Machine → Machine
  run_all [] m = m
  run_all ((op, h) ∷ ops) m = run_all ops (run op h m).0
