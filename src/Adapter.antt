-- ===== src/Adapter.antt =====
-- Launch profiles and their dispatch envelope (core/adapter/profile.go). Texts and limits are the
-- profile's; a duration is its number of nanoseconds.
pub mod Envelope
use provehito.Common.{
  suc, ℕ, zero, Text, text, String, Bool, true, false, not, ◌&&◌, ◌||◌, ◌/◌, ◌%◌, List, [], ◌∷◌,
  Option, none, some, is_empty, any_of, all_of, has_byte, ltb, nat_eq, within, ◌==◌, if◌then◌else◌,
}
use provehito.Common.Ints.{ℤ, pos, negsuc, is_negative, is_positive, int_eq, int_le}
use provehito.Failure.{Error, new, usage_or_schema, policy_or_transition}
use provehito.Failure.Outcome.{Result, Check, ok, err, ◌>>=◌, ◌>>◌, reject_if, guards}

pub record Profile : Type 0 where
  pub id : Text
  pub executable : Text
  pub args : List Text
  pub capabilities : List Text
  pub family : Text
  pub cost_rank : ℤ
  pub env_allowlist : List Text
  pub version_probe_args : List Text
  pub timeout : ℤ
  pub output_limit : ℤ

-- `CostRankFor`, where `lower` is `strings.ToLower`: `none` where the class is not declared.
unfoldable pub cost_rank_for : (Text → Text) → Text → Option ℕ
cost_rank_for lower class =
    let c = lower class in
    if c == text "economy" || c == text "cheap" || c == text "low"
    then some 0
    else if c == text "standard" || c == text "medium"
    then some 1
    else if c == text "premium" || c == text "high"
    then some 2
    else none

pub record DispatchEnvelope : Type 0 where
  pub adapter : Text
  pub family : Text
  pub max_seconds : ℤ
  pub max_output_bytes : ℤ
  pub cost_class : Text

abbrev pub second : ℕ
second = 1000000000

-- Go's `/` and `%` truncate towards zero: the quotient of -(n + 1) is -((n + 1) / d).
abbrev negated : ℕ → ℤ
negated zero = pos 0
negated (suc n) = negsuc n

abbrev whole_seconds : ℤ → ℤ
whole_seconds (pos n) = pos (n / second)
whole_seconds (negsuc n) = negated (suc n / second)

-- `fractional > 0`
abbrev has_fraction : ℤ → Bool
has_fraction (pos n) = ltb 0 (n % second)
has_fraction (negsuc n) = false

-- The limits of the envelope are not positive, or the profile exceeds them.
unfoldable pub exceeds_limits : Profile → DispatchEnvelope → Bool
unfolding int_le int_eq
exceeds_limits p e =
    not (is_positive e.max_seconds)
    || not (int_le (whole_seconds p.timeout) e.max_seconds)
    || (int_eq (whole_seconds p.timeout) e.max_seconds && has_fraction p.timeout)
    || not (is_positive e.max_output_bytes)
    || not (int_le p.output_limit e.max_output_bytes)

-- `ValidateDispatch`
unfoldable pub dispatch_guards : Profile → Text → DispatchEnvelope → List (Bool × Error)
unfolding exceeds_limits
dispatch_guards p declared_class e =
    (
      not (p.id == e.adapter) || not (p.family == e.family),
      new policy_or_transition "agent profile dispatch mismatch",
    )
    ∷ (exceeds_limits p e, new policy_or_transition "agent profile exceeds dispatch limits")
    ∷ (not (declared_class == e.cost_class), new policy_or_transition "agent cost class mismatch")
    ∷ []

unfoldable pub validate_dispatch : Profile → Text → DispatchEnvelope → Check
unfolding guards dispatch_guards
validate_dispatch p declared_class e = guards (dispatch_guards p declared_class e)

-- The loop over the capabilities, with those seen.
unfoldable validate_capabilities : List Text → List Text → Check
unfolding has_byte any_of
validate_capabilities seen [] = ok tt
validate_capabilities seen (c ∷ cs) = do
  reject_if (is_empty c || has_byte 0 c) (new usage_or_schema "adapter capability")
  reject_if (any_of (λ s. c == s) seen) (new usage_or_schema "duplicate adapter capability")
  validate_capabilities (c ∷ seen) cs

-- `validateRouting`
unfoldable pub validate_routing : Profile → Bool → Check
unfolding validate_capabilities has_byte
validate_routing p require_family = do
  reject_if (is_empty p.id || has_byte 0 p.id) (new usage_or_schema "adapter profile id")
  reject_if (is_negative p.cost_rank) (new usage_or_schema "adapter cost rank")
  reject_if (require_family && (is_empty p.family || has_byte 0 p.family))
      (new usage_or_schema "adapter family")
  reject_if (is_empty p.capabilities) (new usage_or_schema "adapter capabilities")
  validate_capabilities [] p.capabilities

-- `validateArguments`
unfoldable validate_arguments : List Text → String → Check
unfolding any_of has_byte
validate_arguments args op = reject_if (any_of (has_byte 0) args) (new usage_or_schema op)

-- `validEnvironmentName`, where the name is its Unicode characters and `is_letter` and `is_digit` are
-- those of the package unicode.
abbrev valid_rest : (ℕ → Bool) → (ℕ → Bool) → List ℕ → Bool
valid_rest is_letter is_digit [] = true
valid_rest is_letter is_digit (r ∷ rs) =
    (nat_eq r b'_' || is_letter r || is_digit r) && valid_rest is_letter is_digit rs

unfoldable valid_environment_name : (ℕ → Bool) → (ℕ → Bool) → List ℕ → Bool
valid_environment_name is_letter is_digit [] = true
valid_environment_name is_letter is_digit (r ∷ rs) =
    (nat_eq r b'_' || is_letter r) && valid_rest is_letter is_digit rs

-- `Validate`, where `is_abs` is `filepath.IsAbs` and `valid_name` is `validEnvironmentName` on the
-- characters of a text.
module _ (is_abs : Text → Bool) (valid_name : Text → Bool) where
  -- `validateEnvironment`, with the names seen.
  unfoldable validate_environment : List Text → List Text → Check
  unfolding has_byte any_of
  validate_environment seen [] = ok tt
  validate_environment seen (n ∷ ns) = do
    reject_if (is_empty n || has_byte b'=' n || not (valid_name n))
        (new usage_or_schema "adapter environment allowlist")
    reject_if (any_of (λ s. n == s) seen)
        (new usage_or_schema "duplicate adapter environment allowlist")
    validate_environment (n ∷ seen) ns

  unfoldable pub validate_profile : Profile → Check
  unfolding validate_routing validate_arguments validate_environment has_byte
  validate_profile p = do
    validate_routing p true
    reject_if (is_empty p.executable || not (is_abs p.executable) || has_byte 0 p.executable)
        (new usage_or_schema "adapter executable")
    reject_if (not (is_positive p.timeout)) (new usage_or_schema "adapter timeout")
    reject_if (not (is_positive p.output_limit)) (new usage_or_schema "adapter output limit")
    validate_arguments p.args "adapter arguments"
    validate_arguments p.version_probe_args "adapter version probe arguments"
    validate_environment [] p.env_allowlist
