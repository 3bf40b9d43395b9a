-- ===== src/Lib.antt =====
-- Provehito moves a lane of work through a fixed lifecycle: a manifest file records the lane, a candidate
-- is frozen by its Git identities, an agent runs under limits, receipts of checks are stored by their
-- content, an independent reviewer decides, and a readiness rule compares all of it.
--
-- The parts and the files that model them:
-- - core/failure: Failure (the classified errors, `errors.As`, exit codes), Failure/Outcome (a result
--   with an error is a `Result`, and `if err != nil { return err }` a `do` block) and Failure/Fuel (a result of
--   code that runs on fuel, where running out of it is no error of the program).
-- - core/lifecycle: Lifecycle (`Apply`, `ParseEvent` and the order of order.go).
-- - core/canon: Canon/Value (`writeValue`), Canon/Parser (`parseValue`), Canon/Number (`canonicalNumber`) and
--   Canon/Bytes (`Bytes`, `HashJSON`).
-- - core/manifest: Manifest/Model, Normalize, Validate and Hashes (model.go), Store and Write
--   (store.go, its operations over a disk, and its two writes call by call) and Ops (ops.go).
-- - core/evidence: Evidence/Receipt and Bytes (receipt.go), Store (`Add`, `Load` and `Verify` of store.go over
--   `Files`) and Disk (its walks, its private read and its temporary file over the calls of `os`, which make the
--   `Files` of a root). Evidence/Kept says what those calls leave as it is, Parents, Reread and Durable use it.
-- - core/policy: Policy/Readiness (`Evaluate`, `VerifyEvidence` and their rules).
-- - core/fingerprint: Fingerprint/Identity and Status (the record, and the parsers of Git's output) and
--   Provider (`Inspect`, `Freeze` and `ExecRunner.Run`).
-- - core/workspace: Workspace/Paths (paths.go), Lease (`Acquire`, `Release` and `DetectAbandoned` cut at their
--   system calls), Protocol (threads that interleave these calls), Targets (the files of a lease) and Active
--   (`ActiveWorkspace`).
-- - core/adapter: Adapter (profiles and the dispatch envelope).
-- - core/process: Process/Budget (`outputBudget` and `boundedWriter`), Request (`validateRequest` and the
--   environment) and Run (`Run` on what the process and the context do).
-- - internal/releasecheck: Release (the rules on names, the denylist, the order of findings), Content
--   (`scanContent`), Check (the loop over the entries) and Archive (`Check`).
-- - internal/sourceguard: Guard/Syntax (what is read of a Go file), Values (imports and known values), Calls (the rules
--   on a call) and File (`checkFile` and the choice of files).
-- - cmd/provehito: Command/Route (`Run` of run.go), Version (`resolveVersion` of version.go), State (the state root and `runInit` of commands_state.go), Lane
--   (`lane open`, `list`, `validate`, `status` and the transitions), Candidate (`runFreeze`, `runEvidence`,
--   `runReviewOpen`, `runReady`, `runClose`), Doctor (`runDoctor`), Agent (`runAgent` of commands_run.go from the lane on) and Review
--   (`runReviewRecord` of commands_review.go up to the record), each on the values of its flags.
-- Common holds the shared names, Examples the concrete lanes on which the theorems are tried.
--
-- How they interact: the readiness rule reads a manifest and loads receipts by their hashes; the
-- operations on a manifest load it, apply a lifecycle event and write it under the hash that was loaded;
-- manifests and receipts are hashed and stored as canonical JSON. `agent run` takes the lease of the lane's
-- workspace, freezes the candidate, runs the agent under the lease and stores a receipt of the run.
--
-- Conventions: a Go string is its list of bytes, an operation name that is only printed a native
-- string. A pointer or a slice that is tested for nil is an `Option`. The signed 64-bit numbers of
-- `canonicalNumber` wrap around at 2 ^ 63; elsewhere integers are only compared. Values are not shared in
-- the model, so the functions that copy a manifest are the identity. A row of `if test { return failure }`
-- is a list of tests with their errors, in the order of the code.
--
-- Parameters: encoding/json, crypto/sha256, time, path/filepath, go/parser and unicode are records or arguments
-- of functions (`Json`, the `Library` of manifests and of receipts). So are the calls of `os` (`Os`, `Host`), and for
-- the manifest store the lock and the two ways to write (`Disk`). What the theorems assume of them: that
-- `os.SameFile` is symmetric, that `filepath.Dir` shortens a path that it changes, that `filepath.Clean` leaves the
-- root that it made, and what the manual says of which entries a call changes (`IsLawful`, `IsMaking`), each where a
-- theorem says so. The latter take two paths for two entries, which leaves aliases and foreign hard links out. Git is a function from arguments to output, and a process a `Session`. The step relation of
-- Workspace/Protocol holds the promises of `flock`, of `O_EXCL` and of a process's end.
--
-- Bounds: a manifest file is read up to 2 ^ 20 bytes, a canonical number has at most 4096 bytes. The parser
-- of JSON runs on fuel, one more than twice the tokens of the input, since each call of it or of its loops
-- uses one and a token is met by two calls at most (Canon/Fuel). The loops of core/workspace/paths.go run on
-- one more than the length of the path, which `filepath.Dir` shortens in each round (Workspace/Separation). An archive has at most 2 ^ 25 bytes.
--
-- Not modelled: system calls themselves (starting and signalling processes, locks), the parsing of flags, what the commands print (cmd/provehito),
-- the contents of a lease's record on the disk, the JSON text and the commands of internal/releasecheck, the parser of Go
-- and the walk over the source tree (internal/sourceguard), and the clock (core/clock).
pub mod Command
pub mod Common
pub mod Failure
pub mod Lifecycle
pub mod Canon
pub mod Manifest
pub mod Fingerprint
pub mod Evidence
pub mod Policy
pub mod Process
pub mod Adapter
pub mod Release
pub mod Guard
pub mod Workspace
pub mod Examples
