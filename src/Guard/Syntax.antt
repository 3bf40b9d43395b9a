-- ===== src/Guard/Syntax.antt =====
-- What internal/sourceguard/sourceguard.go reads of a parsed file: the part of `go/ast` that it tests.
use provehito.Common.{ℕ, Text, Bool, List, [], ◌∷◌, Option}

-- An expression: a string literal with its value where `strconv.Unquote` finds one, a name, `x.sel`, a composite
-- literal with its elements, or anything else.
mutual
  pub data Expr : Type 0 where
    string_literal : Option Text → Expr
    ident : Text → Expr
    selector : Expr → Text → Expr
    composite : Exprs → Expr
    other_expr : Expr

  pub data Exprs : Type 0 where
    none_left : Exprs
    next_expr : Expr → Exprs → Exprs

abbrev pub elements : Exprs → List Expr
elements none_left = []
elements (next_expr e es) = e ∷ elements es

-- `ellipsis` is `Ellipsis.IsValid()`, and `line` the line of the position.
pub record CallExpr : Type 0 where
  pub function : Expr
  pub args : List Expr
  pub ellipsis : Bool
  pub line : ℕ

-- The nodes that `ast.Inspect` visits.
pub data Node : Type 0 where
  call_node : CallExpr → Node
  value_spec : (names : List Text) → (values : List Expr) → Node
  assign_stmt : (lhs rhs : List Expr) → Node
  other_node : Node

-- The path is unquoted, where that succeeds.
pub record ImportSpec : Type 0 where
  pub path : Option Text
  pub name : Option Text
  pub line : ℕ

-- A parsed file: its imports, and its nodes in the order of `ast.Inspect`.
pub record SourceFile : Type 0 where
  pub imports : List ImportSpec
  pub nodes : List Node

-- A `map[string]A`; a later entry stands first.
abbrev pub Dict {ℓ} : Type ℓ → Type ℓ
Dict A = List (Text × A)
