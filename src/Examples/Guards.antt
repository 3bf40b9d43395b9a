-- ===== src/Examples/Guards.antt =====
-- A file that runs `git status`, and one that imports os/exec without a name.
use provehito.Common.{if◌then◌else◌, text, false, [], ◌∷◌, none, some, All, ◌==◌, ◌≡◌, refl}
use provehito.Guard.Syntax.{CallExpr, string_literal, ident, selector, call_node, SourceFile}
use provehito.Guard.Values.{collect_values, imported_packages}
use provehito.Guard.Calls.{Names}
use provehito.Guard.File.{http_import, check_file}
use provehito.Guard.Boundary.{IsInside, check_file-IsInside, check_file-dotted}

-- The base of the one path that is met is its last part.
abbrev names : Names
names = record {
  base = λ t. if t == text "os/exec" then text "exec" else t;
  to_slash = λ t. t;
  lower = λ t. t;
}

abbrev git_status : CallExpr
git_status = record {
  function = selector (ident (text "exec")) (text "Command");
  args = string_literal (some (text "git")) ∷ string_literal (some (text "status")) ∷ [];
  ellipsis = false;
  line = 7;
}

abbrev file : SourceFile
file = record {
  imports = record { path = some (text "os/exec"); name = none; line = 3 } ∷ [];
  nodes = call_node git_status ∷ [];
}

file_passes : check_file names (text "a.go") file ≡ []
unfolding check_file text ◌==◌
file_passes = refl

check_file-IsInside_example :
    (http_import file.imports ≡ none)
    × All
        (IsInside names
          (text "a.go")
          (imported_packages names.base file.imports)
          (collect_values file.nodes))
        file.nodes
check_file-IsInside_example = check_file-IsInside names (text "a.go") file file_passes

-- `Command("sh", "-c", ...)` after a dot import.
abbrev shell : CallExpr
shell = record {
  function = ident (text "Command");
  args = string_literal (some (text "sh")) ∷ string_literal (some (text "-c")) ∷ [];
  ellipsis = false;
  line = 7;
}

abbrev dotted : SourceFile
dotted = record {
  imports = record { path = some (text "os/exec"); name = some (text "."); line = 3 } ∷ [];
  nodes = call_node shell ∷ [];
}

dotted_local : http_import dotted.imports ≡ none
unfolding http_import text ◌==◌
dotted_local = refl

check_file-dotted_example : check_file names (text "a.go") dotted ≡ []
check_file-dotted_example = check_file-dotted names (text "a.go") dotted (refl, tt) dotted_local
