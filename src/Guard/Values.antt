-- ===== src/Guard/Values.antt =====
-- `stringValue`, `stringSliceValue`, `collectValues` and `importedPackages` of
-- internal/sourceguard/sourceguard.go.
use provehito.Common.{
  ℕ, zero, suc, Text, text, ◌||◌, List, [], ◌∷◌, Option, none, some, ◌==◌, if◌then◌else◌,
}
use provehito.Guard.Syntax.{
  Expr, string_literal, ident, composite, elements, Node, value_spec, assign_stmt, ImportSpec, Dict,
}

unfoldable pub lookup {ℓ} : {A : Type ℓ} → Text → Dict A → Option A
lookup k [] = none
lookup k ((j, a) ∷ d) = let rest = lookup k d in if k == j then some a else rest

-- `sourceValues`
pub record SourceValues : Type 0 where
  pub strings : Dict Text
  pub slices : Dict (List Text)

-- `stringValue`
unfoldable pub string_value : Dict Text → Expr → Option Text
unfolding lookup
string_value known (string_literal value) = value
string_value known (ident name) = lookup name known
string_value known _ = none

abbrev pub cons_some {ℓ} : {A : Type ℓ} → Option A → Option (List A) → Option (List A)
cons_some (some a) (some as_list) = some (a ∷ as_list)
cons_some _ _ = none

unfoldable pub string_values : Dict Text → List Expr → Option (List Text)
unfolding string_value
string_values known [] = some []
string_values known (e ∷ es) = cons_some (string_value known e) (string_values known es)

-- `stringSliceValue`
unfoldable pub string_slice_value : Dict Text → Dict (List Text) → Expr → Option (List Text)
unfolding string_values lookup
string_slice_value known slices (ident name) = lookup name slices
string_slice_value known slices (composite es) = string_values known (elements es)
string_slice_value known slices _ = none

abbrev record_slice : Text → Option (List Text) → SourceValues → SourceValues
record_slice name none values = values
record_slice name (some slice) values = record values { slices = (name, slice) ∷ values.slices }

abbrev record_string : Text → Option Text → SourceValues → SourceValues → SourceValues
record_string name none values otherwise = otherwise
record_string name (some value) values otherwise = record values {
  strings = (name, value) ∷ values.strings;
}

-- `record`
unfoldable pub record_value : Text → Expr → SourceValues → SourceValues
unfolding string_value string_slice_value
record_value name e values =
    record_string name (string_value values.strings e) values
      (record_slice name (string_slice_value values.strings values.slices e) values)

-- The names of a declaration with their values, while there are both.
unfoldable pub record_names : List Text → List Expr → SourceValues → SourceValues
unfolding record_value
record_names (name ∷ names) (e ∷ es) values = record_names names es (record_value name e values)
record_names _ _ values = values

abbrev record_left : Expr → Expr → SourceValues → SourceValues
record_left (ident name) e values = record_value name e values
record_left _ e values = values

unfoldable pub record_assigned : (lhs rhs : List Expr) → SourceValues → SourceValues
unfolding record_value
record_assigned (l ∷ lhs) (e ∷ rhs) values = record_assigned lhs rhs (record_left l e values)
record_assigned _ _ values = values

abbrev record_node : Node → SourceValues → SourceValues
record_node (value_spec names es) values = record_names names es values
record_node (assign_stmt lhs rhs) values = record_assigned lhs rhs values
record_node _ values = values

-- One pass over the nodes.
unfoldable pub record_nodes : List Node → SourceValues → SourceValues
unfolding record_names record_assigned
record_nodes [] values = values
record_nodes (n ∷ ns) values = record_nodes ns (record_node n values)

unfoldable pub passes : ℕ → List Node → SourceValues → SourceValues
unfolding record_nodes
passes zero ns values = values
passes (suc n) ns values = passes n ns (record_nodes ns values)

-- `collectValues`
unfoldable pub collect_values : List Node → SourceValues
unfolding passes
collect_values ns = passes 3 ns record { strings = []; slices = [] }

-- The local name of an import, where `base` is `filepath.Base`.
abbrev pub local_name : (Text → Text) → Text → Option Text → Text
local_name base path none = base path
local_name base path (some name) = name

abbrev add_import : Text → Text → Dict Text → Dict Text
add_import name path imports =
    if name == text "_" || name == text "." then imports else (name, path) ∷ imports

abbrev pub add_spec : (Text → Text) → Option Text → Option Text → Dict Text → Dict Text
add_spec base none name imports = imports
add_spec base (some path) name imports = add_import (local_name base path name) path imports

-- The loop of `importedPackages`: from local names to paths.
unfoldable pub add_imports : (Text → Text) → List ImportSpec → Dict Text → Dict Text
add_imports base [] imports = imports
add_imports base (spec ∷ specs) imports =
    add_imports base specs (add_spec base spec.path spec.name imports)

unfoldable pub imported_packages : (Text → Text) → List ImportSpec → Dict Text
unfolding add_imports
imported_packages base specs = add_imports base specs []
