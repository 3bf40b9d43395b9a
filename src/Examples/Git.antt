-- ===== src/Examples/Git.antt =====
-- A Git that knows one commit and prints no diff.
use provehito.Common.{
  Text, text, List, [], ◌∷◌, ◌++◌, some, ◌≡◌, refl, is_empty, ◌==◌, if◌then◌else◌,
}
use provehito.Failure.Outcome.{Result, ok}
use provehito.Fingerprint.Identity.{Fingerprint}
use provehito.Fingerprint.Provider.{Provider, freeze}
use provehito.Fingerprint.Frozen.{IsFrozen, freeze-IsFrozen}
use provehito.Fingerprint.Again.{at_time, freeze-IsSameCandidate}
use provehito.Policy.Candidate.{IsSameCandidate}
use provehito.Examples.Lanes.{hash_a}

abbrev commit : Text
commit = text "0123456789012345678901234567890123456789"

-- By the first argument.
abbrev answer : List Text → Result Text
answer [] = ok []
answer (a ∷ _) = if a == text "rev-parse" then ok (commit ++ (b'\n' ∷ [])) else ok []

abbrev provider : Provider
provider = record {
  runner = some (λ workspace args. answer args);
  now = some (text "t");
  blank = is_empty;
  hex_sha256 = λ t. t;
  marshal = λ b h t d m. m;
}

abbrev frozen_at : Text → Fingerprint
frozen_at t = record {
  base_commit = commit;
  head_commit = commit;
  head_tree = commit;
  diff_hash = [];
  manifest_hash = hash_a;
  frozen_at = t;
  equivalent_hash = hash_a;
}

frozen : freeze provider (text "/w") (text "main") hash_a ≡ ok (frozen_at (text "t"))
unfolding freeze text ◌==◌
frozen = refl

frozen_later :
    freeze (at_time (text "u") provider) (text "/w") (text "main") hash_a
    ≡ ok (frozen_at (text "u"))
unfolding freeze text ◌==◌
frozen_later = refl

freeze-IsFrozen_example : IsFrozen provider (text "/w") (text "main") hash_a (frozen_at (text "t"))
freeze-IsFrozen_example =
    freeze-IsFrozen provider (text "/w") (text "main") hash_a (frozen_at (text "t")) frozen

freeze-IsSameCandidate_example : IsSameCandidate (frozen_at (text "t")) (frozen_at (text "u"))
freeze-IsSameCandidate_example =
    freeze-IsSameCandidate provider (text "/w") (text "main") hash_a (text "u")
      (frozen_at (text "t")) (frozen_at (text "u")) frozen frozen_later
