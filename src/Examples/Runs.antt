-- ===== src/Examples/Runs.antt =====
-- A run of an agent that prints three bytes, of which two are kept.
use provehito.Common.{ℕ, text, [], ◌∷◌, true, false, some, ◌≡◌, refl, ◌==◌}
use provehito.Common.Ints.{pos}
use provehito.Failure.Outcome.{ok}
use provehito.Adapter.{Profile}
use provehito.Process.Budget.{to_stdout, to_stderr}
use provehito.Process.Request.{Request, Host}
use provehito.Process.Run.{Command, Session, RunResult, ran, waited, exited, run_request}
use provehito.Process.Supervised.{IsSupervised, run_request-IsSupervised}
use provehito.Workspace.Active.{lease_of, lease_record}
use provehito.Examples.Places.{platform, lease, plain_mode}

abbrev profile : Profile
profile = record {
  id = text "agent";
  executable = text "/bin/agent";
  args = text "run" ∷ [];
  capabilities = text "write" ∷ [];
  family = text "f";
  cost_rank = pos 1;
  env_allowlist = text "PATH" ∷ [];
  version_probe_args = [];
  timeout = pos 10;
  output_limit = pos 2;
}

abbrev host : Host ℕ
host = record {
  platform = platform;
  mode = λ t. some plain_mode;
  is_abs = λ t. true;
  valid_name = λ t. true;
  environ = text "TOKEN=x" ∷ text "PATH=/bin" ∷ [];
  hex_sha256 = λ t. t;
}

abbrev request : Request
request = record {
  workspace = text "/w";
  lease = some lease;
  profile = profile;
  args = text "--now" ∷ [];
}

abbrev session : Command → Session
session c = ran (to_stdout (text "ab") ∷ to_stderr (text "c") ∷ []) (waited exited)

abbrev result : RunResult
result = record {
  exit_code = pos 0;
  stdout = text "ab";
  stderr = [];
  stdout_hash = text "ab";
  stderr_hash = text "c";
  stdout_truncated = false;
  stderr_truncated = true;
  timed_out = false;
  canceled = false;
  signaled = false;
}

runs : run_request host session request ≡ (result, ok tt)
unfolding run_request text ◌==◌ lease_of lease_record
runs = refl

run_request-IsSupervised_example : IsSupervised host session request result
run_request-IsSupervised_example = run_request-IsSupervised host session request result runs
