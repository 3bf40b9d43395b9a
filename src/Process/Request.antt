-- ===== src/Process/Request.antt =====
-- `validateRequest`, `validateArguments` and `allowlistedEnvironment` of core/process/supervisor.go.
use provehito.Common.{
  Text, Bool, false, not, List, [], ◌∷◌, Option, none, some, is_empty, has_byte, any_of, nat_eq,
  ◌==◌, if◌then◌else◌,
}
use provehito.Failure.{Class, new}
use provehito.Failure.Outcome.{Result, Check, ok, err, reject_if, ◌>>=◌, ◌>>◌}
use provehito.Adapter.{Profile, validate_profile}
use provehito.Workspace.Paths.{canonical_path, same_path}
use provehito.Workspace.Active.{Platform, Lease, Mode, active_workspace}

pub record Request : Type 0 where
  pub workspace : Text
  pub lease : Option Lease
  pub profile : Profile
  pub args : List Text

-- What the supervisor asks of its surroundings besides the process: the files, the tests on profiles, the
-- variables of the environment and the text of a SHA-256 digest.
pub record Host (Info : Type 0) : Type 0 where
  pub platform : Platform Info
  pub mode : Text → Option Mode
  pub is_abs : Text → Bool
  pub valid_name : Text → Bool
  pub environ : List Text
  pub hex_sha256 : Text → Text

-- The key of an entry `key=value`, where there is the sign.
unfoldable pub key_of : Text → Option Text
key_of [] = none
key_of (c ∷ t) =
    if nat_eq c b'=' then some [] else elim (key_of t) [ none ↦ none | some k ↦ some (c ∷ k) ]

abbrev pub is_key : Text → Option Text → Bool
is_key name none = false
is_key name (some k) = name == k

-- `values[name]`, where a later entry of the environment replaces an earlier one.
unfoldable pub entry_of : Text → List Text → Option Text
unfolding key_of
entry_of name [] = none
entry_of name (e ∷ es) = elim (entry_of name es) [
  | some later ↦ some later
  | none ↦ if is_key name (key_of e) then some e else none
]

abbrev pub with_entry : Option Text → List Text → List Text
with_entry none rest = rest
with_entry (some entry) rest = entry ∷ rest

-- `allowlistedEnvironment`
unfoldable pub allowlisted_environment : (names environ : List Text) → List Text
unfolding entry_of
allowlisted_environment [] environ = []
allowlisted_environment (name ∷ names) environ =
    with_entry (entry_of name environ) (allowlisted_environment names environ)

-- `validateArguments`
unfoldable pub validate_agent_arguments : List Text → Check
unfolding any_of has_byte
validate_agent_arguments args =
    reject_if (any_of (has_byte 0) args) (new Class.usage_or_schema "agent arguments")

abbrev pub lease_or_failure : Option Text → Result Text
lease_or_failure none = err (new Class.usage_or_schema "agent workspace lease")
lease_or_failure (some path) =
    if is_empty path then err (new Class.usage_or_schema "agent workspace lease") else ok path

module _ {Info : Type 0} (host : Host Info) where
  open host use {platform, mode, is_abs, valid_name}

  -- `validateRequest`
  unfoldable pub validate_request : Request → Check
  unfolding validate_profile validate_agent_arguments active_workspace canonical_path same_path
  validate_request request = do
    reject_if (is_empty request.workspace) (new Class.usage_or_schema "agent workspace")
    validate_profile is_abs valid_name request.profile
    validate_agent_arguments request.args
    lease_path ← lease_or_failure (active_workspace platform mode request.lease)
    requested ← canonical_path platform.files request.workspace
    leased ← canonical_path platform.files lease_path
    same ← same_path platform.files requested leased
    reject_if (not same) (new Class.integrity "agent workspace lease identity")
