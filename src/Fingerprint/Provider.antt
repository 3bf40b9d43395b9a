-- ===== src/Fingerprint/Provider.antt =====
-- `GitProvider` of core/fingerprint/git.go: `Inspect` and `Freeze` over a runner of Git commands, and
-- `ExecRunner.Run` of core/fingerprint/runner.go, where the process is a parameter.
use provehito.Common.{
  Text, text, Bool, not, ◌||◌, List, [], ◌∷◌, ◌++◌, Option, none, some, is_empty, if◌then◌else◌,
}
use provehito.Failure.{Error, Class, new, wrap, wrapped, plain, is_hash}
use provehito.Failure.Outcome.{Result, Check, ok, err, or_else, reject_if, ◌>>=◌, ◌>>◌}
use provehito.Fingerprint.Identity.{Fingerprint, no_fingerprint}
use provehito.Fingerprint.Status.{parse_status, parse_submodule_status, parse_object_id}

-- `hardenedGitArgs`
unfoldable pub hardened_git_args : List Text → List Text
hardened_git_args args =
    text "--no-optional-locks"
    ∷ text "-c"
    ∷ text "core.fsmonitor=false"
    ∷ text "-c"
    ∷ text "core.untrackedCache=false"
    ∷ args

-- `explicitEnvironment`, where `dir` is the directory of the executable and `separator` the one of path lists.
unfoldable pub explicit_environment : (dir separator : Text) → List Text
explicit_environment dir separator =
    (text "PATH=" ++ dir ++ separator ++ text "/usr/bin" ++ separator ++ text "/bin")
    ∷ text "LC_ALL=C"
    ∷ text "LANG=C"
    ∷ text "TZ=UTC"
    ∷ text "GIT_CONFIG_NOSYSTEM=1"
    ∷ text "GIT_CONFIG_GLOBAL=/dev/null"
    ∷ text "GIT_ATTR_NOSYSTEM=1"
    ∷ text "GIT_OPTIONAL_LOCKS=0"
    ∷ []

pub record ExecRunner : Type 0 where
  pub executable : Text
  pub lookup : Option Error

-- The command that `Run` starts.
pub record Command : Type 0 where
  pub executable : Text
  pub args : List Text
  pub dir : Text
  pub environment : List Text

-- `Run` of a runner that may be nil; `output` starts the process and returns what it prints, `filepath_dir`
-- and `separator` are those of `path/filepath`. The text of the error of a failed process is left out.
unfoldable pub exec_run :
    (filepath_dir : Text → Text)
    → (separator : Text) → (output : Command → Result Text) → Option ExecRunner
    → (dir : Text) → List Text
    → Result Text
unfolding hardened_git_args explicit_environment
exec_run filepath_dir separator output none dir args =
    err (plain "git executable is not configured")
exec_run filepath_dir separator output (some r) dir args = elim (r.lookup) [
  | some e ↦ err (wrapped "locate git" e)
  | none ↦
      if is_empty r.executable
      then err (plain "git executable is not configured")
      else or_else (wrapped "git") (
          output record {
            executable = r.executable;
            args = hardened_git_args args;
            dir = dir;
            environment = explicit_environment (filepath_dir r.executable) separator;
          })
]

-- A `GitProvider` that is not nil; `now` is the clock's time in UTC, truncated to seconds. `hex_sha256` is the text
-- of a digest and `marshal` the JSON text of an object of five texts.
pub record Provider : Type 0 where
  pub runner : Option (Text → List Text → Result Text)
  pub now : Option Text
  pub blank : Text → Bool
  pub hex_sha256 : Text → Text
  pub marshal : (base_commit head_commit head_tree diff_hash manifest_hash : Text) → Text

-- `equivalentHash`
unfoldable pub equivalent_hash_of : Provider → Fingerprint → Text
equivalent_hash_of p f =
    p.hex_sha256 (p.marshal f.base_commit f.head_commit f.head_tree f.diff_hash f.manifest_hash)

abbrev pub status_args : List Text
status_args = text "status" ∷ text "--porcelain=v1" ∷ text "-z" ∷ text "--untracked-files=all" ∷ []

abbrev pub submodule_args : List Text
submodule_args = text "submodule" ∷ text "status" ∷ text "--recursive" ∷ []

abbrev pub rev_args : Text → List Text
rev_args rev = text "rev-parse" ∷ text "--verify" ∷ text "--end-of-options" ∷ rev ∷ []

abbrev pub object_id_or_failure : Option Text → Result Text
object_id_or_failure none = err (new Class.tooling_or_adapter "git resolve object")
object_id_or_failure (some value) = ok value

abbrev pub diff_args : Text → Text → List Text
diff_args base head =
    text "diff"
    ∷ text "--no-ext-diff"
    ∷ text "--no-textconv"
    ∷ text "--binary"
    ∷ text "--full-index"
    ∷ text "--find-renames"
    ∷ (base ++ text ".." ++ head)
    ∷ []

module _ (p : Provider) (git : Text → List Text → Result Text) (workspace : Text) where
  -- `run`, of the provider's runner.
  unfoldable pub run : List Text → Result Text
  run args = or_else (wrap Class.tooling_or_adapter "git command") (git workspace args)

  -- `requireClean`
  unfoldable pub require_clean : Check
  unfolding run parse_status parse_submodule_status
  require_clean = do
    status ← run status_args
    dirty ← or_else (wrap Class.tooling_or_adapter "git status output") (parse_status status)
    reject_if dirty (new Class.workspace_drift "git workspace dirty")
    submodules ← run submodule_args
    present ←
        or_else (wrap Class.tooling_or_adapter "git submodule output")
          (parse_submodule_status p.blank submodules)
    reject_if present (new Class.workspace_drift "git submodule present")

  -- `resolve`
  unfoldable pub resolve : Text → Result Text
  unfolding run parse_object_id
  resolve rev = run (rev_args rev) >>= λ out. object_id_or_failure (parse_object_id out)

  abbrev pub fingerprint_of : Text → Text → Text → Text → Fingerprint
  fingerprint_of base head tree diff = record no_fingerprint {
    base_commit = base;
    head_commit = head;
    head_tree = tree;
    diff_hash = p.hex_sha256 diff;
  }

  -- The part of `Inspect` that asks Git.
  unfoldable pub inspect_candidate : Text → Result Fingerprint
  unfolding require_clean resolve run
  inspect_candidate base = do
    require_clean
    base_commit ← resolve (base ++ text "^{commit}")
    head_commit ← resolve (text "HEAD^{commit}")
    head_tree ← resolve (text "HEAD^{tree}")
    diff ← run (diff_args base_commit head_commit)
    ok (fingerprint_of base_commit head_commit head_tree diff)

module _ (p : Provider) where
  -- `Inspect`
  unfoldable pub inspect : (workspace base : Text) → Result Fingerprint
  unfolding inspect_candidate
  inspect workspace base = elim (p.runner) [
    | none ↦ err (new Class.tooling_or_adapter "git runner")
    | some git ↦ do
      reject_if (is_empty workspace || is_empty base) (new Class.integrity "git inspect arguments")
      inspect_candidate p git workspace base
  ]

  abbrev pub stamp : Fingerprint → Text → Text → Fingerprint
  stamp f manifest_hash now =
      let bound = record f { manifest_hash = manifest_hash; frozen_at = now } in
      record bound { equivalent_hash = equivalent_hash_of p bound }

  -- `Freeze`
  unfoldable pub freeze : (workspace base manifest_hash : Text) → Result Fingerprint
  unfolding is_hash inspect equivalent_hash_of
  freeze workspace base manifest_hash = do
    reject_if (not (is_hash manifest_hash)) (new Class.integrity "freeze manifest hash")
    f ← inspect workspace base
    elim (p.now) [
      | none ↦ err (new Class.tooling_or_adapter "freeze clock")
      | some now ↦ ok (stamp f manifest_hash now)
    ]
