-- ===== src/Command/Doctor.antt =====
-- `runDoctor` of cmd/provehito/commands_state.go: what it checks and the error that it reports, with `doctorSchema` and
-- `doctorState`.
use provehito.Common.{
  Text, text, Bool, true, false, not, List, [], ◌∷◌, is_empty, nat_eq, All, ◌≡◌, ◌↔◌, refl,
  if◌then◌else◌,
}
use provehito.Failure.{wrap, new, integrity, tooling_or_adapter}
use provehito.Failure.Outcome.{Result, Check, ok, err, reject_if, or_else, ◌>>=◌, ◌>>◌}
use provehito.Workspace.Paths.{Presence, exists, absent, broken, validate_separation}
use provehito.Manifest.Store.{load}
use provehito.Evidence.Disk.{FileMode, is_dir, private_dir}
use provehito.Canon.Bytes.{Json, canonical_bytes}
use provehito.Command.State.{usage}
use provehito.Command.Lane.{Lanes, Entry, is_lane_file}

-- What is checked of the machine: whether it runs darwin or linux, `exec.LookPath`, the trimmed output of `git --version`,
-- the paths of the schema, `os.ReadFile`, and whether a decoded object has a value for `$id`.
pub record Machine (World : Type 0) : Type 0 where
  pub supported : Bool
  pub look_git : Check
  pub git_version : Result Text
  pub schema_paths : List Text
  pub read_file : World → Text → Result Text
  pub json : Json
  pub has_id : Text → Bool

-- A file that cannot be read is passed over.
abbrev pub schema_or_next : (Text → Check) → Result Text → Check → Check
schema_or_next check (ok bytes) rest = check bytes
schema_or_next check (err e) rest = rest

-- The error that is kept: the first one.
unfoldable pub first_error : List Check → Check
first_error [] = ok tt
first_error (ok u ∷ cs) = first_error cs
first_error (err e ∷ cs) = err e

abbrev pub git_check : Check → Result Text → Check
git_check (err e) version = err (wrap tooling_or_adapter "git executable" e)
git_check (ok u) (err e) = err (new tooling_or_adapter "git version")
git_check (ok u) (ok version) = reject_if (is_empty version) (new tooling_or_adapter "git version")

module _ {World : Type 0} (machine : Machine World) (lanes : Lanes World) where
  open machine use {supported, look_git, git_version, schema_paths, read_file, json, has_id}
  open lanes use {host, library, disk, read_dir}

  abbrev schema_bytes : Text → Check
  schema_bytes bytes = do
    canonical ← or_else (wrap tooling_or_adapter "schema JSON") (canonical_bytes json bytes)
    reject_if (not (has_id canonical)) (new tooling_or_adapter "schema JSON")

  -- The loop of `doctorSchema`.
  unfoldable pub schema_from : World → List Text → Check
  unfolding canonical_bytes
  schema_from w [] = err (new tooling_or_adapter "schema readable")
  schema_from w (p ∷ ps) = schema_or_next schema_bytes (read_file w p) (schema_from w ps)

  abbrev pub lane_or_next : Bool → Check → Check → Check
  lane_or_next false loaded rest = rest
  lane_or_next true loaded rest = loaded >> rest

  -- The loop of `doctorState`.
  unfoldable pub lanes_load : World → Text → List Entry → Check
  unfolding load
  lanes_load w directory [] = ok tt
  lanes_load w directory (e ∷ es) =
      let path = host.os.join (directory ∷ e.name ∷ []) in
      lane_or_next (is_lane_file e) (load library (disk path) path w >>= λ m. ok tt)
        (lanes_load w directory es)

  abbrev pub state_at : World → Text → Presence FileMode → Check
  state_at w state (absent e) = ok tt
  state_at w state (broken e) = err (wrap integrity "state root inspect" e)
  state_at w state (exists mode) = do
    reject_if (not (is_dir mode)) (new integrity "state root directory")
    reject_if (not (nat_eq mode.perm private_dir)) (new integrity "state root mode")
    entries ←
        or_else (wrap integrity "lanes directory")
          (read_dir w (host.os.join (state ∷ text "lanes" ∷ [])))
    lanes_load w (host.os.join (state ∷ text "lanes" ∷ [])) entries

  -- `doctorState`
  unfoldable pub doctor_state : World → Text → Check
  unfolding lanes_load
  doctor_state w state = state_at w state (host.os.lstat w state)

  -- The checks of `runDoctor`, in their order.
  abbrev pub doctor_checks : World → (state work : Text) → List Check
  doctor_checks w state work =
      reject_if (not supported) (new tooling_or_adapter "unsupported operating system")
      ∷ git_check look_git git_version
      ∷ schema_from w schema_paths
      ∷ (if host.os.is_abs state
          then doctor_state w state
          else err (usage "state root must be an absolute path"))
      ∷ (if is_empty work then ok tt else validate_separation (host.paths w) state work)
      ∷ []

  -- `runDoctor` on its flags.
  unfoldable pub doctor : World → (state work : Text) → Check
  unfolding first_error schema_from doctor_state validate_separation
  doctor w state work = do
    reject_if (is_empty state) (usage "state root is required")
    first_error (doctor_checks w state work)

-- The first error is none exactly if no check fails.
pub first_error-ok_iff : (cs : List Check) → (first_error cs ≡ ok tt) ↔ All (λ c. c ≡ ok tt) cs
unfolding first_error
first_error-ok_iff [] = (λ h. tt, λ h. refl)
first_error-ok_iff (ok u ∷ cs) =
    (λ h. (refl, (first_error-ok_iff cs).0 h), λ h. (first_error-ok_iff cs).1 h.1)
first_error-ok_iff (err e ∷ cs) = (λ h. cc, λ h. h.0)
