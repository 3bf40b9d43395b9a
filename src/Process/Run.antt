-- ===== src/Process/Run.antt =====
-- `Run` of core/process/supervisor.go. What the context and the process do is a `Session`: the select statements
-- and the waiting goroutine are its cases. The duration is left out.
use provehito.Common.{String, Text, Bool, true, false, ◌&&◌, List, [], ◌++◌, Option, none, some}
use provehito.Common.Ints.{ℤ, pos, negsuc, is_negative}
use provehito.Failure.{Error, Class, plain, wrap}
use provehito.Failure.Outcome.{Check, ok, err}
use provehito.Process.Budget.{Streams, Output, start, write_all}
use provehito.Process.Request.{Request, Host, allowlisted_environment, validate_request}

pub record Command : Type 0 where
  pub executable : Text
  pub args : List Text
  pub dir : Text
  pub environment : List Text

-- What `command.Wait` returns: no error, an `ExitError` with its code and whether `Sys` is not nil, or another error.
pub data WaitResult : Type 0 where
  exited : WaitResult
  exit_error : (code : ℤ) → (has_sys : Bool) → WaitResult
  unwaited : Error → WaitResult

-- Which case of the second `select` is taken, with the error of the killing of the process group if there is one.
pub data Ending : Type 0 where
  waited : WaitResult → Ending
  expired : (termination : Option Error) → WaitResult → Ending
  stopped : (cause : Error) → (termination : Option Error) → WaitResult → Ending

pub data Session : Type 0 where
  stopped_before : (cause : Error) → Session
  unstarted : Error → Session
  ran : List Output → Ending → Session

-- The `Result` of a run.
pub record RunResult : Type 0 where
  pub exit_code : ℤ
  pub stdout : Text
  pub stderr : Text
  pub stdout_hash : Text
  pub stderr_hash : Text
  pub stdout_truncated : Bool
  pub stderr_truncated : Bool
  pub timed_out : Bool
  pub canceled : Bool
  pub signaled : Bool

-- `processExitCode`
unfoldable pub process_exit_code : WaitResult → ℤ
process_exit_code exited = pos 0
process_exit_code (exit_error code has_sys) = code
process_exit_code (unwaited e) = negsuc 0

-- `processSignaled`
unfoldable pub process_signaled : WaitResult → Bool
process_signaled (exit_error code has_sys) = has_sys && is_negative code
process_signaled _ = false

abbrev pub tooling : String → Error → Check
tooling op e = err (wrap Class.tooling_or_adapter op e)

module _ {Info : Type 0} (host : Host Info) where
  open host use {environ, hex_sha256}

  -- `Result{}`
  abbrev pub zero_result : RunResult
  zero_result = record {
    exit_code = pos 0;
    stdout = [];
    stderr = [];
    stdout_hash = [];
    stderr_hash = [];
    stdout_truncated = false;
    stderr_truncated = false;
    timed_out = false;
    canceled = false;
    signaled = false;
  }

  -- `EmptyStreamHash`
  unfoldable pub empty_stream_hash : Text
  empty_stream_hash = hex_sha256 []

  -- The result of a process that has not started.
  unfoldable pub unstarted_result : Bool → RunResult
  unfolding empty_stream_hash
  unstarted_result canceled = record zero_result {
    exit_code = negsuc 0;
    stdout_hash = empty_stream_hash;
    stderr_hash = empty_stream_hash;
    canceled = canceled;
  }

  -- The result of a process that has ended; each hash is of all bytes that its writer saw.
  unfoldable pub result_of : Streams → WaitResult → RunResult
  unfolding process_exit_code process_signaled
  result_of s w = record {
    exit_code = process_exit_code w;
    stdout = s.stdout.kept;
    stderr = s.stderr.kept;
    stdout_hash = hex_sha256 s.stdout.hashed;
    stderr_hash = hex_sha256 s.stderr.hashed;
    stdout_truncated = s.stdout.truncated;
    stderr_truncated = s.stderr.truncated;
    timed_out = false;
    canceled = false;
    signaled = process_signaled w;
  }

  -- The error of the ended process, in the order of the tests.
  unfoldable pub ended : Streams → Ending → RunResult × Check
  unfolding result_of
  ended s (expired (some e) w) = (result_of s w, tooling "terminate agent process group" e)
  ended s (stopped cause (some e) w) = (result_of s w, tooling "terminate agent process group" e)
  ended s (stopped cause none w) =
      (record (result_of s w) { canceled = true }, tooling "agent process canceled" cause)
  ended s (expired none w) = (
    record (result_of s w) { timed_out = true },
    tooling "agent process timeout" (plain "context deadline exceeded"),
  )
  ended s (waited (unwaited e)) = (result_of s (unwaited e), tooling "wait for agent process" e)
  ended s (waited exited) = (result_of s exited, ok tt)
  ended s (waited (exit_error code has_sys)) = (result_of s (exit_error code has_sys), ok tt)

  unfoldable pub supervise : (limit : ℤ) → Session → RunResult × Check
  unfolding unstarted_result ended write_all
  supervise limit (stopped_before cause) =
      (unstarted_result true, tooling "agent process canceled" cause)
  supervise limit (unstarted e) = (unstarted_result false, tooling "launch agent process" e)
  supervise limit (ran outputs ending) = ended (write_all (start limit) outputs) ending

  unfoldable pub command_of : Request → Command
  unfolding allowlisted_environment
  command_of request = record {
    executable = request.profile.executable;
    args = request.profile.args ++ request.args;
    dir = request.workspace;
    environment = allowlisted_environment request.profile.env_allowlist environ;
  }

  -- `if err := validateRequest(request); err != nil { return Result{}, err }`
  abbrev pub if_valid : Check → RunResult × Check → RunResult × Check
  if_valid (err e) run = (zero_result, err e)
  if_valid (ok _) run = run

  -- `Run`, where `launch` is the session that the command leads to.
  unfoldable pub run_request : (launch : Command → Session) → Request → RunResult × Check
  unfolding validate_request supervise command_of
  run_request launch request =
      if_valid (validate_request host request)
        (supervise request.profile.output_limit (launch (command_of request)))
