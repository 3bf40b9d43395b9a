-- ===== src/Guard/Clean.antt =====
-- What the calls of a file satisfy in which `checkFile` (internal/sourceguard/sourceguard.go) finds nothing.
use provehito.Common.{
  ℕ, Text, text, true, false, not, ◌&&◌, ◌||◌, List, [], ◌∷◌, ◌++◌, some, ◌==◌, ◌≡◌, refl, inl, inr,
  Bool-cases, Option-cases, if◌then◌else◌,
}
use provehito.Guard.Syntax.{CallExpr, Expr}
use provehito.Guard.Values.{SourceValues}
use provehito.Guard.Calls.{
  Names, found, git_network_mutations, shell_interpretation_flags, contains_any, is_shell,
  is_publishing_command, is_network_call, is_credential_package, allows_dynamic_exec,
  command_arguments, starts_literal, from_index, check_command, check_exec, check_function,
}

module _ {A : Type 0} where
  pub append-left : (xs ys : List A) → xs ++ ys ≡ [] → xs ≡ []
  append-left [] ys h = refl
  append-left (x ∷ xs) ys h = cc

  pub append-right : (xs ys : List A) → xs ++ ys ≡ [] → ys ≡ []
  append-right [] ys h = h
  append-right (x ∷ xs) ys h = cc

-- The argument of `exec.Command` at which the command stands.
abbrev pub command_index : Text → ℕ
command_index name = if name == text "CommandContext" then 1 else 0

module _ (names : Names) (path : Text) where
  open names use {base, lower}

  -- A finding is never none.
  found-absurd : {C : Type 0} {line : ℕ} {rule : Text} → found names path line rule ≡ [] → C
  found-absurd h = absurd (cc h)

  -- No Git command that uses the network, no shell that is given a script, and no publishing.
  pub record IsQuiet (command : Text) (args : List Text) : Type 0 where
    pub no_mutation :
        (lower (base command) == text "git" && contains_any names args git_network_mutations)
        ≡ false
    pub no_script :
        (is_shell (lower (base command)) && contains_any names args shell_interpretation_flags)
        ≡ false
    pub no_publishing : is_publishing_command names (lower (base command)) args ≡ false

  check_command-IsQuiet :
      (line : ℕ) (command : Text) (args : List Text)
      → check_command names path line command args ≡ []
      → IsQuiet command args
  unfolding check_command
  check_command-IsQuiet line command args h =
      let name = lower (base command) in
      elim (Bool-cases (name == text "git" && contains_any names args git_network_mutations)) [
        | inl p ↦ found-absurd (rw p at h)
        | inr p ↦
            elim (Bool-cases
              (is_shell name && contains_any names args shell_interpretation_flags)) [
                | inl q ↦ found-absurd (rw (p, q) at h)
                | inr q ↦ elim (Bool-cases (is_publishing_command names name args)) [
                  | inl r ↦ found-absurd (rw (p, q, r) at h)
                  | inr r ↦ record { no_mutation = p; no_script = q; no_publishing = r }
                ]
              ]
      ]

  -- The command is a literal, all its arguments are known, and it is quiet.
  pub record IsKnown (values : SourceValues) (call : CallExpr) (es : List Expr) : Type 0 where
    pub command : Text
    pub args : List Text
    pub known : command_arguments values call.ellipsis es ≡ some (command, args)
    pub literal : starts_literal es ≡ true
    pub quiet : IsQuiet command args

  check_exec-resolved :
      (values : SourceValues) (call : CallExpr) (es : List Expr)
      → check_exec names path values call es ≡ []
      → allows_dynamic_exec names path ≡ false
      → IsKnown values call es
  unfolding check_exec
  check_exec-resolved values call es h n =
      elim (Option-cases (command_arguments values call.ellipsis es)) [
        | inl p ↦ found-absurd (rw (p, n) at h)
        | inr ((command, args), p) ↦ elim (Bool-cases (starts_literal es)) [
          | inr q ↦ found-absurd (rw (p, q, n) at h)
          | inl q ↦ record {
            command = command;
            args = args;
            known = p;
            literal = q;
            quiet = check_command-IsQuiet call.line command args (rw (p, q) at h);
          }
        ]
      ]

  -- A call of a function of an imported package within the authority boundary.
  pub record IsHarmless (imported name : Text) (values : SourceValues) (call : CallExpr)
      : Type 0 where
    pub no_http : (imported == text "net/http") ≡ false
    pub no_network : (imported == text "net" && is_network_call name) ≡ false
    pub no_credentials : is_credential_package names imported ≡ false
    pub no_start : (imported == text "os" && name == text "StartProcess") ≡ false
    pub no_fork :
        (imported == text "syscall" && (name == text "Exec" || name == text "ForkExec")) ≡ false
    pub exec :
        (not (imported == text "os/exec")
            || (not (name == text "Command") && not (name == text "CommandContext")))
          ≡ false
        → allows_dynamic_exec names path ≡ false
        → IsKnown values call (from_index (command_index name) call.args)

  pub check_function-IsHarmless :
      (imported name : Text) (values : SourceValues) (call : CallExpr)
      → check_function names path imported name values call false ≡ []
      → IsHarmless imported name values call
  unfolding check_function
  check_function-IsHarmless imported name values call h =
      elim (Bool-cases (imported == text "net/http")) [
        | inl a ↦ found-absurd (rw a at h)
        | inr a ↦ elim (Bool-cases (imported == text "net" && is_network_call name)) [
          | inl b ↦ found-absurd (rw (a, b) at h)
          | inr b ↦ elim (Bool-cases (is_credential_package names imported)) [
            | inl c ↦ found-absurd (rw (a, b, c) at h)
            | inr c ↦ elim (Bool-cases (imported == text "os" && name == text "StartProcess")) [
              | inl d ↦ found-absurd (rw (a, b, c, d) at h)
              | inr d ↦
                  elim (Bool-cases (
                    imported == text "syscall"
                    && (name == text "Exec" || name == text "ForkExec"))) [
                      | inl e ↦ found-absurd (rw (a, b, c, d, e) at h)
                      | inr e ↦ record {
                        no_http = a;
                        no_network = b;
                        no_credentials = c;
                        no_start = d;
                        no_fork = e;
                        exec = λ f n.
                            check_exec-resolved values call
                              (from_index (command_index name) call.args)
                              (rw (a, b, c, d, e, f) at h) n;
                      }
                    ]
            ]
          ]
        ]
      ]
