-- ===== src/Command/Agent.antt =====
-- `runAgent` of cmd/provehito/commands_run.go, from the loaded lane on. The parts that it calls are an `AgentHost`;
-- what each does is modelled in the module of the part.
use provehito.Common.{
  ℕ, Text, text, Bool, true, false, not, ◌||◌, List, [], ◌∷◌, Option, none, some, is_empty, ◌==◌,
  if◌then◌else◌,
}
use provehito.Common.Ints.{ℤ, pos, int_eq}
use provehito.Failure.{
  Class, new, new_reason, Reason, is, as_classified, class_text, exit_code_for, code_for,
}
use provehito.Failure.Outcome.{Result, Check, ok, err, reject_if, ◌>>=◌, ◌>>◌}
use provehito.Lifecycle.{State}
use provehito.Manifest.Model.{Manifest}
use provehito.Adapter.{Profile, DispatchEnvelope, cost_rank_for, validate_dispatch}
use provehito.Fingerprint.Identity.{Fingerprint, no_fingerprint}
use provehito.Evidence.Receipt.{Receipt, result_success}
use provehito.Workspace.Active.{Lease}
use provehito.Process.Request.{Request}
use provehito.Process.Run.{RunResult}

-- The flags that are used after the loading of the lane.
pub record Flags : Type 0 where
  pub profile_id : Text
  pub executable : Text
  pub family : Text
  pub seat_id : Text
  pub cost : Text
  pub timeout : Text
  pub output_limit : ℤ
  pub base : Text
  pub args : List Text
  pub env : List Text
  pub capabilities : List Text

-- `parseDuration`, `strings.ToLower`, the calls on the lane's store, its leases, Git, the process and the receipts,
-- and the text that `fmt.Sprintf` makes of a result and its hashes.
pub record AgentHost : Type 0 where
  pub parse_duration : Text → Result ℤ
  pub lower : Text → Text
  pub detect_abandoned : Text → Check
  pub block : Check
  pub acquire : Text → Text → Result Lease
  pub freeze : (workspace base manifest_hash : Text) → Result Fingerprint
  pub run : Request → RunResult × Check
  pub empty_stream_hash : Text
  pub probe : RunResult → Text → Text → Text
  pub add_receipt : Receipt → Result Text

-- What `agent run` prints of a run without an error.
pub record AgentReport : Type 0 where
  pub receipt : Text
  pub exit_code : ℤ
  pub manifest_hash : Text
  pub candidate_hash : Text
  pub stdout_hash : Text
  pub stderr_hash : Text
  pub stdout_truncated : Bool
  pub stderr_truncated : Bool
  pub seat_id : Text

-- The class of `errorDetails`.
abbrev error_class : Option (Class × Reason) → Class
error_class none = Class.usage_or_schema
error_class (some (class, _)) = class

-- `exitCode, _ = failure.CodeFor(failure.CandidateOrReview)`
abbrev code_or_zero : Option ℕ → ℤ
code_or_zero none = pos 0
code_or_zero (some n) = pos n

unfoldable pub class_and_code : RunResult → Check → Text × ℤ
unfolding as_classified class_text exit_code_for code_for int_eq
class_and_code r (err e) = (class_text (error_class (as_classified e)), pos (exit_code_for e))
class_and_code r (ok _) =
    if not (int_eq r.exit_code (pos 0))
    then (class_text Class.candidate_or_review, code_or_zero (code_for Class.candidate_or_review))
    else (result_success, pos 0)

abbrev pub hash_or : Text → Text → Text
hash_or empty hash = if is_empty hash then empty else hash

-- The receipt of a run.
unfoldable pub agent_receipt :
    AgentHost → Manifest → Flags → Fingerprint → RunResult × Check → Receipt
unfolding class_and_code
agent_receipt host m flags fp ran =
    let stdout_hash = hash_or host.empty_stream_hash ran.0.stdout_hash in
    let stderr_hash = hash_or host.empty_stream_hash ran.0.stderr_hash in
    record {
      candidate = no_fingerprint;
      schema_version = pos 1;
      method_id = text "agent-run";
      seat_id = flags.seat_id;
      probe = host.probe ran.0 stdout_hash stderr_hash;
      candidate_hash = fp.equivalent_hash;
      manifest_hash = m.dispatch_hash;
      result_class = (class_and_code ran.0 ran.1).0;
      exit_code = (class_and_code ran.0 ran.1).1;
      artifacts = some (
          record { name = text "stdout"; hash = stdout_hash; path = [] }
          ∷ record { name = text "stderr"; hash = stderr_hash; path = [] }
          ∷ []);
      timestamp = [];
      canonical_hash = [];
    }

abbrev pub is_active : State → Bool
is_active State.active = true
is_active _ = false

abbrev pub rank_or_failure : Option ℕ → Result ℕ
rank_or_failure none = err (new Class.usage_or_schema "agent cost class")
rank_or_failure (some rank) = ok rank

abbrev pub profile_of : Flags → ℤ → ℕ → Profile
profile_of flags duration rank = record {
  id = flags.profile_id;
  executable = flags.executable;
  args = flags.args;
  capabilities = flags.capabilities;
  family = flags.family;
  cost_rank = pos rank;
  env_allowlist = flags.env;
  version_probe_args = [];
  timeout = duration;
  output_limit = flags.output_limit;
}

abbrev pub envelope_of : Manifest → DispatchEnvelope
envelope_of m = record {
  adapter = m.dispatch.adapter;
  family = m.dispatch.family;
  max_seconds = m.dispatch.max_seconds;
  max_output_bytes = m.dispatch.max_output_bytes;
  cost_class = m.dispatch.cost_class;
}

abbrev pub request_of : Manifest → Lease → Profile → Request
request_of m lease profile = record {
  workspace = m.dispatch.workspace;
  lease = some lease;
  profile = profile;
  args = [];
}

module _ (host : AgentHost) (m : Manifest) (flags : Flags) where
  -- An abandoned lease blocks the lane; any other error of the detection is left to `Acquire`.
  unfoldable pub unless_abandoned : Check → Check
  unfolding is
  unless_abandoned (ok _) = ok tt
  unless_abandoned (err e) = if is e Class.concurrency then host.block >> err e else ok tt

  -- The tests on the lane and the flags, and the profile.
  unfoldable pub agent_profile : Result Profile
  unfolding cost_rank_for validate_dispatch
  agent_profile = do
    reject_if (not (is_active m.state)) (new Class.policy_or_transition "agent run lifecycle")
    reject_if
        (not (flags.profile_id == m.dispatch.adapter) || not (flags.family == m.dispatch.family))
        (new Class.policy_or_transition "agent profile dispatch mismatch")
    reject_if (not (flags.seat_id == m.dispatch.seat_id))
        (new_reason Class.policy_or_transition "agent writer seat" Reason.writer_seat)
    duration ← host.parse_duration flags.timeout
    rank ← rank_or_failure (cost_rank_for host.lower flags.cost)
    reject_if (is_empty flags.capabilities) (new Class.usage_or_schema "agent capability required")
    validate_dispatch (profile_of flags duration rank) flags.cost (envelope_of m)
    ok (profile_of flags duration rank)

  -- The receipt of a run and the answer of the command.
  unfoldable pub record_run : Fingerprint → RunResult × Check → Result AgentReport
  unfolding agent_receipt int_eq
  record_run fp ran = do
    hash ← host.add_receipt (agent_receipt host m flags fp ran)
    ran.1
    reject_if (not (int_eq ran.0.exit_code (pos 0)))
        (new Class.candidate_or_review "agent process exit")
    ok record {
      receipt = hash;
      exit_code = ran.0.exit_code;
      manifest_hash = m.dispatch_hash;
      candidate_hash = fp.equivalent_hash;
      stdout_hash = hash_or host.empty_stream_hash ran.0.stdout_hash;
      stderr_hash = hash_or host.empty_stream_hash ran.0.stderr_hash;
      stdout_truncated = ran.0.stdout_truncated;
      stderr_truncated = ran.0.stderr_truncated;
      seat_id = flags.seat_id;
    }

  unfoldable pub run_agent : Result AgentReport
  unfolding agent_profile unless_abandoned record_run
  run_agent = do
    profile ← agent_profile
    unless_abandoned (host.detect_abandoned m.dispatch.workspace)
    lease ← host.acquire m.lane_id m.dispatch.workspace
    fp ← host.freeze m.dispatch.workspace flags.base m.dispatch_hash
    record_run fp (host.run (request_of m lease profile))
