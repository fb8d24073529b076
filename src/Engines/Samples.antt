-- ===== src/Engines/Samples.antt =====
-- A system in which nothing fails, for the tests.
use astradns_agent.Common.{◌≢◌, [], false, ◌++◌, Text, codes}
use astradns_agent.Engines.Process.{Host, Directory, sent, exits}

abbrev pub host_example : Host
host_example = record {
  ctx_over = false;
  template_error = λ cfg. false;
  mkdir_error = false;
  write_error = false;
  start_error = false;
  control_error = false;
  signal = sent;
  exit = exits;
}

pub join-ne-nil_sample : (file : Text) → codes "/etc/" ++ file ≢ []
join-ne-nil_sample file e = cc

abbrev pub dir_example : Directory
dir_example = record { join = λ file. codes "/etc/" ++ file; join-ne-nil = join-ne-nil_sample }
