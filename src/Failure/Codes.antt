-- ===== src/Failure/Codes.antt =====
-- Exit codes: which errors exit with which code, and how far a code identifies its class.
use provehito.Common.{ℕ, Text, text, ◌≡◌, ◌↔◌, Option, none, some, true, eq_iff, arith}
use provehito.Failure.{
  Class, Reason, Error, nil, plain, wrapped, classified, other, as_classified, code_for,
  exit_code_for, class_text, class_of, classified_code, found_is, class_eq, is,
}

-- Two known classes never share an exit code: a class is known by its code.
code_for_injective : (c d : Class) (n : ℕ) → code_for c ≡ some n → code_for d ≡ some n → c ≡ d
unfolding code_for
code_for_injective c d n h k = ground arith

-- The process exits with 0 exactly when the error is nil.
pub exit_code_for-eq-zero : (e : Error) → (exit_code_for e ≡ 0) ↔ (e ≡ nil)
unfolding exit_code_for code_for
exit_code_for-eq-zero nil = ground arith
exit_code_for-eq-zero e = ground arith

class_eq_iff : (c d : Class) → (class_eq c d ≡ true) ↔ (c ≡ d)
unfolding class_eq
class_eq_iff (other s) (other t) = ground (arith, eq_iff s t)
class_eq_iff _ _ = ground arith

found_code :
    (o : Option (Class × Reason)) (c : Class) (n : ℕ)
    → code_for c ≡ some n
    → (classified_code o ≡ n) ↔ (found_is o c ≡ true)
unfolding code_for
found_code none c n h = ground arith
found_code (some (d, r)) c n h = ground (arith, class_eq_iff d c)

-- For a known class, `ExitCodeFor` answers that class's code exactly for the errors that `Is`
-- reports to be of the class, however deep the classified failure is wrapped.
pub exit_code_for-is :
    (e : Error) (c : Class) (n : ℕ) → code_for c ≡ some n → (exit_code_for e ≡ n) ↔ (is e c ≡ true)
unfolding exit_code_for is
exit_code_for-is nil c n h = unfold code_for in ground arith
exit_code_for-is (plain s) c n h = found_code none c n h
exit_code_for-is (wrapped s e) c n h = found_code (as_classified e) c n h
exit_code_for-is (classified d op r e) c n h = found_code (some (d, r)) c n h

-- `string(Class(value))` is the value that was converted: no class text is lost.
class_text-class_of : (t : Text) → class_text (class_of t) ≡ t
unfolding class_text class_of
class_text-class_of t = ground (
  arith,
  eq_iff t (text "USAGE_OR_SCHEMA"),
  eq_iff t (text "POLICY_OR_TRANSITION"),
  eq_iff t (text "WORKSPACE_DRIFT"),
  eq_iff t (text "TOOLING_OR_ADAPTER"),
  eq_iff t (text "CANDIDATE_OR_REVIEW"),
  eq_iff t (text "INTEGRITY"),
  eq_iff t (text "CONCURRENCY"),
)
