-- ===== src/Command/Words.antt =====
-- How `Run` of cmd/provehito/run.go reads the words of a command line.
use provehito.Common.{
  String, Text, text, Bool, true, false, ◌||◌, List, [], ◌∷◌, ◌++◌, is_empty, ◌==◌, eq_iff, ◌≡◌,
  ◌≢◌, ◌⊎◌, inl, inr, refl, sym, ◌∙◌, ap, subst, if◌then◌else◌,
}
use provehito.Command.Route.{
  Command, Route, command, refused, init, doctor, agent_run, freeze, ready, close, lane, evidence,
  review, json_requested, global_command, lane_route, agent_route, evidence_route, review_route,
  route_command, first_route, run,
}

-- The words that call a command.
abbrev pub words : Command → List Text
words init = text "init" ∷ []
words doctor = text "doctor" ∷ []
words agent_run = text "agent" ∷ text "run" ∷ []
words freeze = text "freeze" ∷ []
words ready = text "ready" ∷ []
words close = text "close" ∷ []
words (lane operation) = text "lane" ∷ operation ∷ []
words (evidence operation) = text "evidence" ∷ operation ∷ []
words (review operation) = text "review" ∷ operation ∷ []

-- A route to a command only from the words of the command and its arguments.
abbrev IsWorded : List Text → Route → Type 0
IsWorded args r = (c : Command) (rest : List Text) → r ≡ command c rest → args ≡ words c ++ rest

command-injective :
    {c d : Command} {a b : List Text} → command c a ≡ command d b → (c ≡ d) × (a ≡ b)
command-injective h = (cc, cc)

command-IsWorded :
    (args : List Text) (c : Command) (rest : List Text)
    → args ≡ words c ++ rest
    → IsWorded args (command c rest)
command-IsWorded args c rest e d other h =
    let (same, equal) = command-injective h in
    e ∙ ap (λ x. words x ++ rest) same ∙ ap (λ x. words d ++ x) equal

refused-IsWorded :
    (args : List Text) (name : Text) (json : Bool) (op : String)
    → IsWorded args (refused name json op)
refused-IsWorded args name json op c rest h = cc

if-IsWorded :
    (args : List Text) (b : Bool) (r s : Route)
    → (b ≡ true → IsWorded args r)
    → IsWorded args s
    → IsWorded args (if b then r else s)
if-IsWorded args true r s h k = h refl
if-IsWorded args false r s h k = k

word-IsWorded :
    (args : List Text) (name word : Text) (r s : Route)
    → (name ≡ word → IsWorded args r)
    → IsWorded args s
    → IsWorded args (if name == word then r else s)
word-IsWorded args name word r s h k =
    if-IsWorded args (name == word) r s (λ e. h ((eq_iff name word).0 e)) k

lane_route-IsWorded : (rest : List Text) → IsWorded (text "lane" ∷ rest) (lane_route rest)
lane_route-IsWorded [] = refused-IsWorded _ (text "lane") false "lane operation required"
lane_route-IsWorded (op ∷ rest) = command-IsWorded _ (lane op) rest refl

agent_route-IsWorded : (rest : List Text) → IsWorded (text "agent" ∷ rest) (agent_route rest)
agent_route-IsWorded [] = refused-IsWorded _ (text "agent") false "agent run required"
agent_route-IsWorded (op ∷ rest) =
    word-IsWorded (text "agent" ∷ op ∷ rest) op (text "run") _ _
      (λ e.
        command-IsWorded (text "agent" ∷ op ∷ rest) agent_run rest
          (ap (λ x. text "agent" ∷ x ∷ rest) e))
      (refused-IsWorded _ (text "agent") (json_requested (op ∷ rest)) "agent run required")

evidence_route-IsWorded :
    (rest : List Text) → IsWorded (text "evidence" ∷ rest) (evidence_route rest)
evidence_route-IsWorded [] =
    refused-IsWorded _ (text "evidence") false "evidence add or verify required"
evidence_route-IsWorded (op ∷ rest) =
    if-IsWorded (text "evidence" ∷ op ∷ rest) (op == text "add" || op == text "verify") _ _
      (λ e. command-IsWorded _ (evidence op) rest refl)
      (refused-IsWorded _ (text "evidence") (json_requested (op ∷ rest))
        "evidence add or verify required")

review_route-IsWorded : (rest : List Text) → IsWorded (text "review" ∷ rest) (review_route rest)
review_route-IsWorded [] = refused-IsWorded _ (text "review") false "review open or record required"
review_route-IsWorded (op ∷ rest) =
    if-IsWorded (text "review" ∷ op ∷ rest) (op == text "open" || op == text "record") _ _
      (λ e. command-IsWorded _ (review op) rest refl)
      (refused-IsWorded _ (text "review") (json_requested (op ∷ rest))
        "review open or record required")

plain-IsWorded :
    (name word : Text) (c : Command) (rest : List Text)
    → words c ≡ word ∷ []
    → name ≡ word
    → IsWorded (name ∷ rest) (command c rest)
plain-IsWorded name word c rest w e =
    command-IsWorded (name ∷ rest) c rest (ap (λ x. x ∷ rest) e ∙ ap (λ x. x ++ rest) (sym w))

headed :
    (name word : Text) (rest : List Text) (r : Route)
    → IsWorded (word ∷ rest) r
    → name ≡ word
    → IsWorded (name ∷ rest) r
headed name word rest r h e = subst (λ x. IsWorded (x ∷ rest) r) (sym e) h

route_command-IsWorded :
    (name : Text) (rest : List Text) → IsWorded (name ∷ rest) (route_command name rest)
unfolding route_command
route_command-IsWorded name rest =
    let args = name ∷ rest in
    word-IsWorded args name (text "init") _ _ (plain-IsWorded name (text "init") init rest refl) (
      word-IsWorded args name (text "doctor") _ _
        (plain-IsWorded name (text "doctor") doctor rest refl)
        (word-IsWorded args name (text "lane") _ _
          (headed name (text "lane") rest (lane_route rest) (lane_route-IsWorded rest))
          (word-IsWorded args name (text "agent") _ _
            (headed name (text "agent") rest (agent_route rest) (agent_route-IsWorded rest))
            (word-IsWorded args name (text "freeze") _ _
              (plain-IsWorded name (text "freeze") freeze rest refl)
              (word-IsWorded args name (text "evidence") _ _
                (headed name (text "evidence") rest (evidence_route rest)
                  (evidence_route-IsWorded rest))
                (word-IsWorded args name (text "review") _ _
                  (headed name (text "review") rest (review_route rest)
                    (review_route-IsWorded rest))
                  (word-IsWorded args name (text "ready") _ _
                    (plain-IsWorded name (text "ready") ready rest refl)
                    (word-IsWorded args name (text "close") _ _
                      (plain-IsWorded name (text "close") close rest refl)
                      (refused-IsWorded args name (json_requested rest) "unknown command")))))))))

first_route-IsWorded : (args : List Text) → IsWorded args (first_route args)
first_route-IsWorded [] = refused-IsWorded [] [] false "missing command"
first_route-IsWorded (name ∷ rest) = route_command-IsWorded name rest

-- Where `Run` calls a command, the line is the words of the command and the arguments that are passed on.
pub run-words :
    (args : List Text) (c : Command) (rest : List Text)
    → run args ≡ command c rest
    → args ≡ words c ++ rest
unfolding run
run-words args c rest h =
    let g = global_command args in
    if-IsWorded args (is_empty g) _ _
      (λ e. refused-IsWorded args [] (json_requested args) "missing command")
      (if-IsWorded args (g == text "help" || g == text "--help" || g == text "-h") _ _
        (λ e d other k. cc)
        (if-IsWorded args (g == text "version" || g == text "--version") _ _ (λ e d other k. cc)
          (first_route-IsWorded args)))
      c rest h

false-of : (b : Bool) → (b ≡ true → ⊥) → b ≡ false
false-of true h = absurd (h refl)
false-of false h = refl

empty-is : (t : Text) → is_empty t ≡ true → t ≡ []
empty-is [] h = refl
empty-is (c ∷ t) h = cc

last_of_four :
    (a b c : Bool) (p q r s : Route)
    → a ≡ false
    → b ≡ false
    → c ≡ false
    → (if a then p else if b then q else if c then r else s) ≡ s
last_of_four a b c p q r s i j k = rw (i, j, k) refl

-- The help or the version.
abbrev pub IsGlobal : Text → Type 0
IsGlobal g =
    ((g == text "help" || g == text "--help" || g == text "-h") ≡ true)
    ⊎ ((g == text "version" || g == text "--version") ≡ true)

-- A first `--json` before a command other than the help and the version is refused as an unknown command.
pub run-json_first :
    (args : List Text)
    → global_command args ≢ []
    → (IsGlobal (global_command args) → ⊥)
    → run (text "--json" ∷ args) ≡ refused (text "--json") (json_requested args) "unknown command"
unfolding run global_command json_requested route_command text ◌==◌
run-json_first args given n =
    let g = global_command args in
    last_of_four (is_empty g) (g == text "help" || g == text "--help" || g == text "-h")
      (g == text "version" || g == text "--version") _ _ _ _
      (false-of _ (λ e. given (empty-is g e))) (false-of _ (λ e. n (inl e)))
      (false-of _ (λ e. n (inr e)))
