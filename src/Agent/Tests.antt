-- ===== src/Agent/Tests.antt =====
-- The supervision and the channels of the agent, on concrete values.
use astradns_agent.Common.{
  All2, arith, ◌≢◌, ◌↔◌, ◌⊎◌, trim_space, Option, none, some, ◌++◌, ◌≤◌, ℕ, ◌+◌, ◌≡◌, refl, true,
  false, some, [], ◌∷◌, List, codes, pos, text_eq,
}
use astradns_agent.Types.Samples.{types_example, engine_config_example}
use astradns_agent.Agent.Supervise.{metrics_status, fails, Supervised, is_engine_responsive, tick}
use astradns_agent.Agent.Supervise.Access.{Presents, metrics_status_iff}
use astradns_agent.Agent.Supervise.Recovery.{tick-recovers}
use astradns_agent.Agent.Fan.{Channel, Fan, Turn, takes_event, receives, fan_out}
use astradns_agent.Agent.Fan.Contents.{offered, IsGrown}
use astradns_agent.Agent.Fan.Conserve.{events, IsConserved, fan_out-IsConserved}
use astradns_agent.Agent.Settings.{Environment, is_file, load_runtime_config}
use astradns_agent.Agent.Settings.Sound.{IsSound, load_runtime_config-IsSound}
use astradns_agent.Engines.{Driver}
use astradns_agent.Engines.Drivers.{coredns, driver_of}
use astradns_agent.Engines.Process.{Host}
use astradns_agent.Engines.Ops.{Hosted, engine_ops}
use astradns_agent.Engines.Samples.{host_example, dir_example}

abbrev driver_example : Driver
driver_example = driver_of types_example (pos 4) coredns

abbrev hosts_example : ℕ → Host
hosts_example n = host_example

-- The engine is configured, and its process has ended unseen.
abbrev supervised_example : Supervised Hosted
supervised_example = record {
  engine = record {
    machine = record {
      process = record {
        config_path = codes "/etc/Corefile";
        config = engine_config_example;
        cmd = some 0;
      };
      alive = [];
      next = 1;
    };
    calls = 0;
  };
  recovery_attempts_total = 0;
  recovery_success_total = 0;
  recovery_errors_total = 0;
}

silent : is_engine_responsive fails ≡ false
unfolding is_engine_responsive
silent = refl

placed : text_eq supervised_example.engine.machine.process.config_path [] ≡ false
unfolding text_eq
placed = refl

tick-recovers_example :
    ((tick
        (engine_ops driver_example dir_example hosts_example)
        fails
        supervised_example).engine.machine.process.cmd
      ≡ some 1)
    × ((tick
          (engine_ops driver_example dir_example hosts_example)
          fails
          supervised_example).recovery_success_total
        ≡ 0 + 1)
tick-recovers_example =
    tick-recovers driver_example dir_example hosts_example fails supervised_example silent placed
      refl refl

abbrev channel_example : Channel ℕ
channel_example = record { capacity = 1; queue = []; received = []; closed = false }

abbrev fan_example : Fan ℕ
fan_example = record {
  outs = channel_example ∷ (channel_example ∷ []);
  dropped = 0;
  drop_calls = 0;
}

abbrev turns_example : List (Turn ℕ)
turns_example = takes_event 7 ∷ (receives 1 ∷ (takes_event 8 ∷ []))

fan_out-IsConserved_example :
    All2
      (IsGrown (offered turns_example))
      fan_example.outs
      (fan_out true turns_example fan_example).outs
    × IsConserved true (events turns_example) fan_example (fan_out true turns_example fan_example)
fan_out-IsConserved_example = fan_out-IsConserved true turns_example fan_example

no_type : (n : ℕ) → ◌≡◌ {A = Option ℕ} none (some n) → n ≤ 65535
no_type n e = cc

-- An environment in which nothing is set.
abbrev environment_example : Environment
environment_example = record {
  getenv = λ key. [];
  parse_float = λ s. none;
  parse_duration = λ s. none;
  parse_bool = λ s. none;
  string_to_type = λ s. none;
  is_ip = λ s. false;
  stat = λ path. is_file;
  dir = λ path. codes "/etc/astradns/config";
  ext = λ path. codes ".json";
  join = λ dir file. dir ++ (codes "/" ++ file);
  type-le = λ name n e. no_type n e;
}

load_runtime_config-IsSound_example :
    IsSound environment_example (load_runtime_config environment_example)
load_runtime_config-IsSound_example = load_runtime_config-IsSound environment_example

found : ◌≢◌ {A = ℕ} 200 404
found e = omega (arith, e)

authorized : ◌≢◌ {A = ℕ} 200 401
authorized e = omega (arith, e)

metrics_status_iff_example :
    (metrics_status (codes "s3") 200 (codes "/metrics") (codes "Bearer s3") ≡ 200) ↔ (
      (codes "/metrics" ≡ codes "/metrics")
      × ((trim_space (codes "s3") ≡ []) ⊎ Presents (codes "Bearer s3") (trim_space (codes "s3"))))
metrics_status_iff_example =
    metrics_status_iff (codes "s3") 200 (codes "/metrics") (codes "Bearer s3") found authorized
