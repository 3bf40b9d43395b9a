-- ===== src/Failure.antt =====
-- The typed failures that every part returns (core/failure/failure.go): classes, reasons, the error
-- chain of Go's `errors.As`, exit codes and the shape of a content hash.
pub mod Outcome
pub mod Fuel
pub mod Codes
use provehito.Common.{
  ℕ, String, Text, text, Bool, true, false, Option, none, some, ◌&&◌, ◌||◌, length, all_of, within,
  nat_eq, ◌==◌, if◌then◌else◌,
}

-- `Class` is a string type; `other` is any text that is none of the declared constants.
pub data Class : Type 0 where
  usage_or_schema policy_or_transition workspace_drift tooling_or_adapter : Class
  candidate_or_review integrity concurrency : Class
  other : Text → Class

pub data Reason : Type 0 where
  no_reason reviewer_family reviewer_seat writer_seat : Reason

-- Go's `error`: nil, an error of the standard library, one that `fmt.Errorf` wraps by `%w`, or an
-- `*Error` with its operation, reason and cause.
pub data Error : Type 0 where
  nil : Error
  plain : String → Error
  wrapped : String → Error → Error
  classified : Class → String → Reason → Error → Error

-- `New`, `Wrap` and `NewReason`.
abbrev pub new : Class → String → Error
new c op = classified c op no_reason nil

abbrev pub wrap : Class → String → Error → Error
wrap c op err = classified c op no_reason err

abbrev pub new_reason : Class → String → Reason → Error
new_reason c op r = classified c op r nil

-- `Unwrap`
unfoldable unwrap : Error → Error
unwrap nil = nil
unwrap (plain s) = nil
unwrap (wrapped s e) = e
unwrap (classified c op r e) = e

-- What `errors.As(err, &classified)` finds: the first `*Error` of the chain.
unfoldable pub as_classified : Error → Option (Class × Reason)
as_classified nil = none
as_classified (plain s) = none
as_classified (wrapped s e) = as_classified e
as_classified (classified c op r e) = some (c, r)

-- `ReasonFor`
unfoldable reason_for : Error → Reason
unfolding as_classified
reason_for e = elim (as_classified e) [ none ↦ no_reason | some (c, r) ↦ r ]

-- `==` on classes.
unfoldable pub class_eq : Class → Class → Bool
class_eq usage_or_schema usage_or_schema = true
class_eq policy_or_transition policy_or_transition = true
class_eq workspace_drift workspace_drift = true
class_eq tooling_or_adapter tooling_or_adapter = true
class_eq candidate_or_review candidate_or_review = true
class_eq integrity integrity = true
class_eq concurrency concurrency = true
class_eq (other s) (other t) = s == t
class_eq _ _ = false

abbrev pub found_is : Option (Class × Reason) → Class → Bool
found_is none class = false
found_is (some (c, r)) class = class_eq c class

-- `Is`
unfoldable pub is : Error → Class → Bool
unfolding as_classified
is e class = found_is (as_classified e) class

-- `CodeFor`: `none` for a class that is not known.
unfoldable pub code_for : Class → Option ℕ
code_for usage_or_schema = some 10
code_for policy_or_transition = some 20
code_for workspace_drift = some 30
code_for tooling_or_adapter = some 40
code_for candidate_or_review = some 50
code_for integrity = some 60
code_for concurrency = some 70
code_for (other t) = none

abbrev known_code : Option ℕ → ℕ
known_code none = 1
known_code (some code) = code

abbrev pub classified_code : Option (Class × Reason) → ℕ
classified_code none = 1
classified_code (some (c, r)) = known_code (code_for c)

-- `ExitCodeFor`
unfoldable pub exit_code_for : Error → ℕ
unfolding as_classified code_for
exit_code_for nil = 0
exit_code_for e = classified_code (as_classified e)

-- The text of a class, and the conversion `Class(value)` of any text.
unfoldable pub class_text : Class → Text
class_text usage_or_schema = text "USAGE_OR_SCHEMA"
class_text policy_or_transition = text "POLICY_OR_TRANSITION"
class_text workspace_drift = text "WORKSPACE_DRIFT"
class_text tooling_or_adapter = text "TOOLING_OR_ADAPTER"
class_text candidate_or_review = text "CANDIDATE_OR_REVIEW"
class_text integrity = text "INTEGRITY"
class_text concurrency = text "CONCURRENCY"
class_text (other t) = t

unfoldable pub class_of : Text → Class
class_of t =
    if t == text "USAGE_OR_SCHEMA"
    then usage_or_schema
    else if t == text "POLICY_OR_TRANSITION"
    then policy_or_transition
    else if t == text "WORKSPACE_DRIFT"
    then workspace_drift
    else if t == text "TOOLING_OR_ADAPTER"
    then tooling_or_adapter
    else if t == text "CANDIDATE_OR_REVIEW"
    then candidate_or_review
    else if t == text "INTEGRITY"
    then integrity
    else if t == text "CONCURRENCY"
    then concurrency
    else other t

-- The test of one character in `IsHash`. A hash is ASCII, so its characters are its bytes.
unfoldable pub is_hex_digit : ℕ → Bool
is_hex_digit c = within b'0' b'9' c || within b'a' b'f' c

-- `IsHash`
unfoldable pub is_hash : Text → Bool
unfolding is_hex_digit all_of
is_hash value = nat_eq (length value) 64 && all_of is_hex_digit value
