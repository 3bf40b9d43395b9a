-- ===== src/Guard/Boundary.antt =====
-- What `checkFile` (internal/sourceguard/sourceguard.go) shows of a file in which it finds nothing, and the
-- imports that it does not see.
use mathlib.Core.Path.{ap₂}
use provehito.Common.{
  ℕ, Text, text, Bool, false, List, [], ◌∷◌, ◌++◌, Option, none, some, All, ◌==◌, ◌≡◌, refl, ◌∙◌,
  ap, subst,
}
use provehito.Guard.Syntax.{
  CallExpr, Expr, string_literal, ident, selector, composite, other_expr, Node, call_node,
  value_spec, assign_stmt, other_node, ImportSpec, SourceFile, Dict,
}
use provehito.Guard.Values.{
  SourceValues, lookup, collect_values, add_spec, add_imports, imported_packages,
}
use provehito.Guard.Calls.{Names, check_imported, check_selected, check_call}
use provehito.Guard.File.{http_import, http_findings, is_found, check_node, check_nodes, check_file}
use provehito.Guard.Clean.{append-left, append-right, IsHarmless, check_function-IsHarmless}

http_findings-none : (path : Text) (http : Option ℕ) → http_findings path http ≡ [] → http ≡ none
http_findings-none path none h = refl
http_findings-none path (some line) h = cc

module _ (names : Names) (path : Text) where
  -- A node that calls no function of an imported package, or a harmless one.
  abbrev pub IsInside : Dict Text → SourceValues → Node → Type 0
  IsInside imports values (call_node call) =
      (qualifier name imported : Text)
      → call.function ≡ selector (ident qualifier) name
      → lookup qualifier imports ≡ some imported
      → IsHarmless names path imported name values call
  IsInside imports values _ = Unit

  check_call-IsInside :
      (imports : Dict Text) (values : SourceValues) (call : CallExpr)
      → check_call names path call imports values false ≡ []
      → IsInside imports values (call_node call)
  unfolding check_call
  check_call-IsInside imports values call h qualifier name imported f l =
      let selected = subst (λ e. check_selected names path e imports values call false ≡ []) f h in
      check_function-IsHarmless names path imported name values call
        (subst (λ o. check_imported names path o name values call false ≡ []) l selected)

  check_node-IsInside :
      (imports : Dict Text) (values : SourceValues) (n : Node)
      → check_node names path imports values false n ≡ []
      → IsInside imports values n
  unfolding check_node
  check_node-IsInside imports values (call_node call) h = check_call-IsInside imports values call h
  check_node-IsInside imports values (value_spec ns es) h = tt
  check_node-IsInside imports values (assign_stmt lhs rhs) h = tt
  check_node-IsInside imports values other_node h = tt

  check_nodes-IsInside :
      (imports : Dict Text) (values : SourceValues) (ns : List Node)
      → check_nodes names path imports values false ns ≡ []
      → All (IsInside imports values) ns
  unfolding check_nodes
  check_nodes-IsInside imports values [] h = tt
  check_nodes-IsInside imports values (n ∷ ns) h = (
    check_node-IsInside imports values n
        (append-left _ (check_nodes names path imports values false ns) h),
    check_nodes-IsInside imports values ns
        (append-right (check_node names path imports values false n) _ h),
  )

  -- A file without findings does not import net/http, and each of its calls `p.f(...)` of an imported package
  -- is inside the boundary: no network, credential or process API, and outside of the allowlisted files
  -- exec.Command has a literal command, known arguments, and is no network Git, shell script or publishing.
  pub check_file-IsInside :
      (file : SourceFile)
      → check_file names path file ≡ []
      → (http_import file.imports ≡ none)
        × All
            (IsInside (imported_packages names.base file.imports) (collect_values file.nodes))
            file.nodes
  unfolding check_file
  check_file-IsInside file h =
      let imports = imported_packages names.base file.imports in
      let values = collect_values file.nodes in
      let http = http_import file.imports in
      let absent = http_findings-none path http (append-left (http_findings path http) _ h) in
      let nodes = append-right (http_findings path http) _ h in
      (
        absent,
        check_nodes-IsInside imports values file.nodes (
            subst (λ o. check_nodes names path imports values (is_found o) file.nodes ≡ []) absent
              nodes),
      )

  -- Every import is a dot import.
  abbrev pub IsDotted : List ImportSpec → Type 0
  IsDotted specs = All (λ (s : ImportSpec). s.name ≡ some (text ".")) specs

  add_spec-dotted :
      (package_path : Option Text) (imports : Dict Text)
      → add_spec names.base package_path (some (text ".")) imports ≡ imports
  unfolding text ◌==◌
  add_spec-dotted none imports = refl
  add_spec-dotted (some p) imports = refl

  add_imports-dotted :
      (specs : List ImportSpec) (imports : Dict Text)
      → IsDotted specs
      → add_imports names.base specs imports ≡ imports
  unfolding add_imports
  add_imports-dotted [] imports h = refl
  add_imports-dotted (s ∷ specs) imports h =
      ap (add_imports names.base specs)
        (ap (λ n. add_spec names.base s.path n imports) h.0 ∙ add_spec-dotted s.path imports)
      ∙ add_imports-dotted specs imports h.1

  check_selected-unimported :
      (e : Expr) (values : SourceValues) (call : CallExpr) (http : Bool)
      → check_selected names path e [] values call http ≡ []
  unfolding lookup
  check_selected-unimported (selector (ident q) name) values call http = refl
  check_selected-unimported (selector (selector e n) name) values call http = refl
  check_selected-unimported (selector (string_literal v) name) values call http = refl
  check_selected-unimported (selector (composite es) name) values call http = refl
  check_selected-unimported (selector other_expr name) values call http = refl
  check_selected-unimported (ident q) values call http = refl
  check_selected-unimported (string_literal v) values call http = refl
  check_selected-unimported (composite es) values call http = refl
  check_selected-unimported other_expr values call http = refl

  check_nodes-unimported :
      (values : SourceValues) (ns : List Node) (http : Bool)
      → check_nodes names path [] values http ns ≡ []
  unfolding check_nodes check_node check_call
  check_nodes-unimported values [] http = refl
  check_nodes-unimported values (call_node call ∷ ns) http =
      ap₂ (λ xs ys. xs ++ ys) (check_selected-unimported call.function values call http)
        (check_nodes-unimported values ns http)
  check_nodes-unimported values (value_spec a b ∷ ns) http = check_nodes-unimported values ns http
  check_nodes-unimported values (assign_stmt a b ∷ ns) http = check_nodes-unimported values ns http
  check_nodes-unimported values (other_node ∷ ns) http = check_nodes-unimported values ns http

  -- In a file all of whose imports are dot imports, of packages other than net/http, nothing is found,
  -- whatever the file calls.
  pub check_file-dotted :
      (file : SourceFile)
      → IsDotted file.imports
      → http_import file.imports ≡ none
      → check_file names path file ≡ []
  unfolding check_file imported_packages
  check_file-dotted file h n =
      let values = collect_values file.nodes in
      ap₂ (λ xs ys. xs ++ ys) (ap (http_findings path) n)
        (ap (λ d. check_nodes names path d values (is_found (http_import file.imports)) file.nodes)
            (add_imports-dotted file.imports [] h)
          ∙ check_nodes-unimported values file.nodes (is_found (http_import file.imports)))
