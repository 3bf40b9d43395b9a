-- ===== src/Command/Route.antt =====
-- `Run` of cmd/provehito/run.go: which command the arguments call, and `globalCommand`, `jsonRequested`.
use provehito.Common.{
  String, Text, text, Bool, true, false, ◌||◌, List, [], ◌∷◌, is_empty, ◌==◌, if◌then◌else◌,
}

-- A command of `Run` that takes the arguments after its words; `lane` takes its operation, as `evidence` and `review` do.
pub data Command : Type 0 where
  init doctor agent_run freeze ready close : Command
  lane evidence review : (operation : Text) → Command

-- What `Run` calls: the help or the version with `jsonRequested`, a command, or the result of a usage error.
pub data Route : Type 0 where
  help version : (json : Bool) → Route
  command : Command → List Text → Route
  refused : (name : Text) (json : Bool) (op : String) → Route

-- `jsonRequested`
unfoldable pub json_requested : List Text → Bool
json_requested [] = false
json_requested (a ∷ rest) = if a == text "--json" then true else json_requested rest

-- `globalCommand`
unfoldable pub global_command : List Text → Text
global_command [] = []
global_command (a ∷ rest) =
    let later = global_command rest in if a == text "--json" then later else a

-- The cases of the last switch of `Run` for commands with an operation.
abbrev pub lane_route : List Text → Route
lane_route [] = refused (text "lane") false "lane operation required"
lane_route (operation ∷ rest) = command (lane operation) rest

abbrev pub agent_route : List Text → Route
agent_route [] = refused (text "agent") false "agent run required"
agent_route (operation ∷ rest) =
    if operation == text "run"
    then command agent_run rest
    else refused (text "agent") (json_requested (operation ∷ rest)) "agent run required"

abbrev pub evidence_route : List Text → Route
evidence_route [] = refused (text "evidence") false "evidence add or verify required"
evidence_route (operation ∷ rest) =
    if operation == text "add" || operation == text "verify"
    then command (evidence operation) rest
    else refused (text "evidence") (json_requested (operation ∷ rest))
        "evidence add or verify required"

abbrev pub review_route : List Text → Route
review_route [] = refused (text "review") false "review open or record required"
review_route (operation ∷ rest) =
    if operation == text "open" || operation == text "record"
    then command (review operation) rest
    else refused (text "review") (json_requested (operation ∷ rest))
        "review open or record required"

-- The last switch of `Run`.
unfoldable pub route_command : Text → List Text → Route
unfolding json_requested
route_command name rest =
    if name == text "init"
    then command init rest
    else if name == text "doctor"
    then command doctor rest
    else if name == text "lane"
    then lane_route rest
    else if name == text "agent"
    then agent_route rest
    else if name == text "freeze"
    then command freeze rest
    else if name == text "evidence"
    then evidence_route rest
    else if name == text "review"
    then review_route rest
    else if name == text "ready"
    then command ready rest
    else if name == text "close"
    then command close rest
    else refused name (json_requested rest) "unknown command"

abbrev pub first_route : List Text → Route
first_route [] = refused [] false "missing command"
first_route (name ∷ rest) = route_command name rest

-- `Run`
unfoldable pub run : List Text → Route
unfolding global_command json_requested route_command
run args =
    let g = global_command args in
    if is_empty g
    then refused [] (json_requested args) "missing command"
    else if g == text "help" || g == text "--help" || g == text "-h"
    then help (json_requested args)
    else if g == text "version" || g == text "--version"
    then version (json_requested args)
    else first_route args
