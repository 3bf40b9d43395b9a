-- ===== src/Examples/Agents.antt =====
-- An agent that runs on an active lane and ends with exit code 0.
use provehito.Common.{text, [], ◌∷◌, false, ◌≡◌, refl, ◌==◌}
use provehito.Common.Ints.{pos}
use provehito.Failure.Outcome.{ok}
use provehito.Lifecycle.{State}
use provehito.Manifest.Model.{Manifest}
use provehito.Adapter.{Profile}
use provehito.Fingerprint.Identity.{Fingerprint}
use provehito.Workspace.Active.{Lease}
use provehito.Process.Run.{RunResult}
use provehito.Command.Agent.{Flags, AgentHost, AgentReport, request_of, run_agent}
use provehito.Command.Recorded.{IsDispatched, IsRecorded, run_agent-IsRecorded}
use provehito.Examples.Lanes.{planned_lane, current, hash_a, hash_c, hash_d}
use provehito.Examples.Places.{lease}

abbrev active_lane : Manifest
active_lane = record planned_lane { state = State.active }

abbrev flags : Flags
flags = record {
  profile_id = text "local";
  executable = text "/bin/agent";
  family = text "f1";
  seat_id = text "s1";
  cost = text "low";
  timeout = text "2s";
  output_limit = pos 4096;
  base = text "main";
  args = [];
  env = [];
  capabilities = text "write" ∷ [];
}

abbrev quiet : RunResult
quiet = record {
  exit_code = pos 0;
  stdout = [];
  stderr = [];
  stdout_hash = hash_a;
  stderr_hash = hash_a;
  stdout_truncated = false;
  stderr_truncated = false;
  timed_out = false;
  canceled = false;
  signaled = false;
}

abbrev host : AgentHost
host = record {
  parse_duration = λ t. ok (pos 2000000000);
  lower = λ t. t;
  detect_abandoned = λ w. ok tt;
  block = ok tt;
  acquire = λ lane w. ok lease;
  freeze = λ w base hash. ok current;
  run = λ request. (quiet, ok tt);
  empty_stream_hash = hash_a;
  probe = λ r out er. text "exit=0";
  add_receipt = λ r. ok hash_a;
}

abbrev report : AgentReport
report = record {
  receipt = hash_a;
  exit_code = pos 0;
  manifest_hash = hash_d;
  candidate_hash = hash_c;
  stdout_hash = hash_a;
  stderr_hash = hash_a;
  stdout_truncated = false;
  stderr_truncated = false;
  seat_id = text "s1";
}

reports : run_agent host active_lane flags ≡ ok report
unfolding run_agent text ◌==◌
reports = refl

run_agent-IsRecorded_example :
    (profile : Profile) × (taken : Lease) × (fp : Fingerprint) × IsDispatched host active_lane flags
      profile
    × (host.acquire active_lane.lane_id active_lane.dispatch.workspace ≡ ok taken)
    × (host.freeze active_lane.dispatch.workspace flags.base active_lane.dispatch_hash ≡ ok fp)
    × IsRecorded host active_lane flags fp (host.run (request_of active_lane taken profile)) report
run_agent-IsRecorded_example = run_agent-IsRecorded host active_lane flags report reports
