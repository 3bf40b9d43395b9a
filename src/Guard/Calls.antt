-- ===== src/Guard/Calls.antt =====
-- `checkCall` of internal/sourceguard/sourceguard.go and the tables that it reads.
use provehito.Common.{
  ℕ, zero, suc, Text, text, Bool, true, false, not, ◌&&◌, ◌||◌, List, [], ◌∷◌, Option, none, some,
  any_of, has_suffix, contains_text, ◌==◌, if◌then◌else◌,
}
use provehito.Release.{one_of}
use provehito.Guard.Syntax.{Expr, string_literal, ident, selector, CallExpr, Dict}
use provehito.Guard.Values.{SourceValues, lookup, string_value, string_slice_value, cons_some}

-- `Finding`
pub record Finding : Type 0 where
  pub path : Text
  pub line : ℕ
  pub rule : Text

-- `filepath.Base`, `filepath.ToSlash` and `strings.ToLower`.
pub record Names : Type 0 where
  pub base : Text → Text
  pub to_slash : Text → Text
  pub lower : Text → Text

abbrev pub dynamic_exec_allowlist : List Text
dynamic_exec_allowlist =
    text "core/process/supervisor.go"
    ∷ text "core/fingerprint/runner.go"
    ∷ text "cmd/provehito/commands_state.go"
    ∷ []

abbrev pub git_network_mutations : List Text
git_network_mutations =
    text "clone" ∷ text "fetch" ∷ text "ls-remote" ∷ text "pull" ∷ text "push" ∷ []

abbrev pub shell_interpretation_flags : List Text
shell_interpretation_flags = text "-c" ∷ text "/c" ∷ text "-command" ∷ text "/command" ∷ []

abbrev publishing_commands : List Text
publishing_commands =
    text "deploy"
    ∷ text "deployment"
    ∷ text "helm"
    ∷ text "netlify"
    ∷ text "publish"
    ∷ text "release"
    ∷ text "terraform"
    ∷ text "vercel"
    ∷ []

-- `isNetworkCall`
unfoldable pub is_network_call : Text → Bool
is_network_call name = one_of name (
    text "Dial"
    ∷ text "DialIP"
    ∷ text "DialTCP"
    ∷ text "DialTimeout"
    ∷ text "DialUDP"
    ∷ text "Listen"
    ∷ text "ListenPacket"
    ∷ text "ListenTCP"
    ∷ text "ListenUDP"
    ∷ text "ListenUnix"
    ∷ text "ListenUnixgram"
    ∷ [])

-- `isShell`
unfoldable pub is_shell : Text → Bool
is_shell command = one_of command (
    text "bash"
    ∷ text "cmd"
    ∷ text "fish"
    ∷ text "powershell"
    ∷ text "pwsh"
    ∷ text "sh"
    ∷ text "zsh"
    ∷ [])

-- `isLiteralString`
unfoldable pub is_literal_string : Expr → Bool
is_literal_string (string_literal value) = true
is_literal_string _ = false

-- The arguments after the command. Only the last of them may be a slice that `...` spreads.
unfoldable pub argument_values : SourceValues → (ellipsis : Bool) → List Expr → Option (List Text)
unfolding string_value string_slice_value
argument_values values ellipsis [] = some []
argument_values values true (e ∷ []) = string_slice_value values.strings values.slices e
argument_values values false (e ∷ []) = cons_some (string_value values.strings e) (some [])
argument_values values ellipsis (e ∷ d ∷ es) =
    cons_some (string_value values.strings e) (argument_values values ellipsis (d ∷ es))

abbrev with_args : Option Text → Option (List Text) → Option (Text × List Text)
with_args (some command) (some args) = some (command, args)
with_args _ _ = none

-- `commandArguments`, on the arguments from the command on.
unfoldable pub command_arguments :
    SourceValues → (ellipsis : Bool) → List Expr → Option (Text × List Text)
unfolding string_value argument_values
command_arguments values ellipsis [] = none
command_arguments values ellipsis (e ∷ es) =
    with_args (string_value values.strings e) (argument_values values ellipsis es)

abbrev pub from_index : ℕ → List Expr → List Expr
from_index zero es = es
from_index (suc n) [] = []
from_index (suc n) (e ∷ es) = from_index n es

abbrev pub starts_literal : List Expr → Bool
starts_literal [] = false
starts_literal (e ∷ es) = is_literal_string e

module _ (names : Names) where
  open names use {base, to_slash, lower}

  -- `containsAny`
  unfoldable pub contains_any : List Text → List Text → Bool
  unfolding any_of
  contains_any values wanted = any_of (λ value. one_of (lower value) wanted) values

  -- `isCredentialPackage`
  unfoldable pub is_credential_package : Text → Bool
  unfolding contains_text
  is_credential_package path =
      path == text "os/user"
      || path == text "github.com/zalando/go-keyring"
      || path == text "github.com/keybase/go-keychain"
      || contains_text (lower path) (text "/oauth2")
      || contains_text (lower path) (text "/credential")
      || contains_text (lower path) (text "/keyring")

  -- `isPublishingCommand`
  unfoldable pub is_publishing_command : Text → List Text → Bool
  unfolding contains_any
  is_publishing_command command args =
      if one_of command publishing_commands
      then true
      else if command == text "kubectl" || command == text "oc"
      then contains_any args (
          text "apply"
          ∷ text "create"
          ∷ text "delete"
          ∷ text "patch"
          ∷ text "replace"
          ∷ text "rollout"
          ∷ text "set"
          ∷ [])
      else if command == text "npm" || command == text "yarn" || command == text "pnpm"
      then contains_any args (text "publish" ∷ text "release" ∷ [])
      else false

  -- `allowsDynamicExec`
  unfoldable pub allows_dynamic_exec : Text → Bool
  unfolding any_of has_suffix
  allows_dynamic_exec path =
      any_of (λ allowed. to_slash path == allowed || has_suffix (to_slash path) (b'/' ∷ allowed))
        dynamic_exec_allowlist

  module _ (path : Text) where
    abbrev pub found : ℕ → Text → List Finding
    found line rule = record { path = path; line = line; rule = rule } ∷ []

    -- The rules on a command that is known.
    unfoldable pub check_command : ℕ → Text → List Text → List Finding
    unfolding contains_any is_shell is_publishing_command
    check_command line command args =
        let name = lower (base command) in
        if name == text "git" && contains_any args git_network_mutations
        then found line (text "git network mutation")
        else if is_shell name && contains_any args shell_interpretation_flags
        then found line (text "shell interpreter")
        else if is_publishing_command name args
        then found line (text "deployment/publishing command")
        else []

    abbrev pub check_resolved : ℕ → Option (Text × List Text) → Bool → List Finding
    check_resolved line (some (command, args)) true = check_command line command args
    check_resolved line _ _ =
        if allows_dynamic_exec path then [] else found line (text "dynamic exec")

    -- `exec.Command` and `exec.CommandContext`, on the arguments from the command on.
    unfoldable pub check_exec : SourceValues → CallExpr → List Expr → List Finding
    unfolding command_arguments is_literal_string check_command allows_dynamic_exec
    check_exec values call es =
        check_resolved call.line (command_arguments values call.ellipsis es) (starts_literal es)

    -- The rules on the called function, by the import path of its package and its name.
    unfoldable pub check_function : Text → Text → SourceValues → CallExpr → Bool → List Finding
    unfolding is_network_call is_credential_package check_exec
    check_function imported name values call http_import_found =
        if imported == text "net/http"
        then (if http_import_found then [] else found call.line (text "http client"))
        else if imported == text "net" && is_network_call name
        then found call.line (text "socket listener/dialer")
        else if is_credential_package imported
        then found call.line (text "credential API")
        else if imported == text "os" && name == text "StartProcess"
        then found call.line (text "process spawn")
        else if imported == text "syscall" && (name == text "Exec" || name == text "ForkExec")
        then found call.line (text "process spawn")
        else if not (imported == text "os/exec")
            || (not (name == text "Command") && not (name == text "CommandContext"))
        then []
        else check_exec values call
            (from_index (if name == text "CommandContext" then 1 else 0) call.args)

    abbrev pub check_imported : Option Text → Text → SourceValues → CallExpr → Bool → List Finding
    check_imported none name values call http_import_found = []
    check_imported (some imported) name values call http_import_found =
        check_function imported name values call http_import_found

    abbrev pub check_selected : Expr → Dict Text → SourceValues → CallExpr → Bool → List Finding
    check_selected (selector (ident qualifier) name) imports values call http_import_found =
        check_imported (lookup qualifier imports) name values call http_import_found
    check_selected _ imports values call http_import_found = []

    -- `checkCall`
    unfoldable pub check_call : CallExpr → Dict Text → SourceValues → Bool → List Finding
    unfolding lookup check_function
    check_call call imports values http_import_found =
        check_selected call.function imports values call http_import_found
