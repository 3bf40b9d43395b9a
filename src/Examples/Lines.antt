-- ===== src/Examples/Lines.antt =====
-- Command lines.
use provehito.Common.{Text, text, List, [], ◌∷◌, ◌++◌, ◌==◌, ◌≡◌, ◌≢◌, refl, inl, inr}
use provehito.Command.Route.{command, refused, evidence, run, global_command, json_requested}
use provehito.Command.Words.{words, run-words, run-json_first, IsGlobal}

abbrev add_line : List Text
add_line = text "evidence" ∷ text "add" ∷ text "--json" ∷ []

add_runs : run add_line ≡ command (evidence (text "add")) (text "--json" ∷ [])
unfolding run text ◌==◌
add_runs = refl

run-words_example : add_line ≡ words (evidence (text "add")) ++ (text "--json" ∷ [])
run-words_example = run-words add_line (evidence (text "add")) (text "--json" ∷ []) add_runs

abbrev doctor_line : List Text
doctor_line = text "doctor" ∷ []

doctor_given : global_command doctor_line ≢ []
unfolding global_command text ◌==◌
doctor_given p = cc

doctor_local : IsGlobal (global_command doctor_line) → ⊥
unfolding global_command text ◌==◌
doctor_local (inl p) = cc
doctor_local (inr p) = cc

run-json_first_example :
    run (text "--json" ∷ doctor_line)
    ≡ refused (text "--json") (json_requested doctor_line) "unknown command"
run-json_first_example = run-json_first doctor_line doctor_given doctor_local
