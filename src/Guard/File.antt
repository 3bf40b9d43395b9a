-- ===== src/Guard/File.antt =====
-- `checkFile` of internal/sourceguard/sourceguard.go, and the callback of `checkDir` on one entry.
use provehito.Common.{
  ℕ, Text, text, Bool, true, false, not, ◌||◌, List, [], ◌∷◌, ◌++◌, Option, none, some, has_suffix,
  ◌==◌, if◌then◌else◌,
}
use provehito.Failure.{wrapped}
use provehito.Failure.Outcome.{Result, ok, or_else, ◌>>=◌}
use provehito.Guard.Syntax.{Node, call_node, ImportSpec, SourceFile, Dict}
use provehito.Guard.Values.{SourceValues, collect_values, imported_packages}
use provehito.Guard.Calls.{Finding, Names, check_call}

abbrev is_http : Option Text → Bool
is_http none = false
is_http (some path) = path == text "net/http"

-- The first import of `net/http`: its line.
unfoldable pub http_import : List ImportSpec → Option ℕ
http_import [] = none
http_import (spec ∷ specs) =
    let rest = http_import specs in if is_http spec.path then some spec.line else rest

abbrev pub http_findings : Text → Option ℕ → List Finding
http_findings path none = []
http_findings path (some line) = record { path = path; line = line; rule = text "http client" } ∷ []

abbrev pub is_found : Option ℕ → Bool
is_found none = false
is_found (some line) = true

module _ (names : Names) (path : Text) where
  unfoldable pub check_node : Dict Text → SourceValues → Bool → Node → List Finding
  unfolding check_call
  check_node imports values http_found (call_node call) =
      check_call names path call imports values http_found
  check_node imports values http_found _ = []

  unfoldable pub check_nodes : Dict Text → SourceValues → Bool → List Node → List Finding
  unfolding check_node
  check_nodes imports values http_found [] = []
  check_nodes imports values http_found (n ∷ ns) =
      check_node imports values http_found n ++ check_nodes imports values http_found ns

  -- `checkFile` of a file that parses.
  unfoldable pub check_file : SourceFile → List Finding
  unfolding imported_packages collect_values http_import check_nodes
  check_file file =
      let http = http_import file.imports in
      http_findings path http
      ++ check_nodes (imported_packages names.base file.imports) (collect_values file.nodes)
          (is_found http) file.nodes

-- What the callback of `checkDir` does with an entry: skip the directory, go on, or check the file.
pub data Visit : Type 0 where
  skip_dir : Visit
  go_on : Visit
  checked : Result (List Finding) → Visit

-- The callback on an entry without a walk error; `parsed` is what `parser.ParseFile` makes of it.
unfoldable pub visit_entry :
    Names → (path name : Text) → (is_dir : Bool) → Result SourceFile → Visit
unfolding has_suffix check_file
visit_entry names path name is_dir parsed =
    if is_dir
    then (if name == text ".git" || name == text "testdata" then skip_dir else go_on)
    else if not (has_suffix name (text ".go")) || has_suffix name (text "_test.go")
    then go_on
    else checked (or_else (wrapped "parse") parsed >>= λ file. ok (check_file names path file))
