-- ===== src/Manifest/Validate.antt =====
-- `validate`, `decode` and `ValidateUpdate` of core/manifest/model.go.
use provehito.Common.{
  String, Text, text, Bool, true, false, not, ◌&&◌, ◌||◌, List, [], ◌∷◌, Option, none, some,
  is_empty, any_of, ◌==◌,
}
use provehito.Common.Ints.{pos, int_eq, is_negative}
use provehito.Common.Equality.{deep_equal}
use provehito.Failure.{Error, new, wrap, usage_or_schema, integrity, policy_or_transition, is_hash}
use provehito.Failure.Outcome.{guards, Result, Check, ok, err, ◌>>=◌, ◌>>◌, reject_if, or_else}
use provehito.Lifecycle.{
  State, is_blocked, known_state, blockable_from, at_or_after_active, at_or_after_frozen,
  at_or_after_reviewed,
}
use provehito.Canon.Bytes.{canonical_bytes}
use provehito.Manifest.Model.{
  Dispatch, FreezeRecord, ReviewRecord, EvidenceReference, FailureRecord, Manifest, lane_snapshot,
  Dispatch-discrete, freeze-discrete, review-discrete,
}
use provehito.Manifest.Hashes.{valid_hash_set, is_failure_class}
use provehito.Manifest.Normalize.{Library, is_canonical_timestamp, dispatch_hash, normalize}

abbrev pub is_nil {ℓ} : {A : Type ℓ} → Option A → Bool
is_nil none = true
is_nil (some a) = false

-- `state == ""`
abbrev pub is_unset : State → Bool
is_unset (State.other []) = true
is_unset _ = false

-- The first test of `validate`.
unfoldable missing_required : Manifest → Bool
unfolding int_eq
missing_required m =
    not (int_eq m.schema_version (pos 1))
    || is_empty m.lane_id
    || is_empty m.dispatch.workspace
    || is_empty m.dispatch.source_control
    || is_empty m.dispatch.writer
    || is_empty m.dispatch.adapter
    || is_empty m.dispatch.family
    || is_empty m.dispatch.seat_id
    || is_empty m.dispatch.cost_class
    || is_empty m.dispatch.review_policy
    || is_nil m.dispatch.allowed_paths
    || is_nil m.dispatch.forbidden_paths
    || is_nil m.dispatch.non_goals
    || is_nil m.dispatch.required_checks
    || is_unset m.state
    || is_empty m.created_at
    || is_empty m.updated_at
    || not m.external_actions_human_only

unfoldable pub bad_state : Manifest → Bool
unfolding known_state blockable_from
bad_state m =
    not (known_state m.state)
    || (is_blocked m.state && not (blockable_from m.blocked_from))
    || (not (is_blocked m.state) && not (is_unset m.blocked_from))

unfoldable bad_limits : Dispatch → Bool
bad_limits d =
    is_negative d.max_seconds || is_negative d.max_output_bytes || is_negative d.max_memory_bytes

unfoldable missing_freeze_fields : FreezeRecord → Bool
missing_freeze_fields f =
    is_empty f.base
    || is_empty f.head
    || is_empty f.candidate
    || is_empty f.tree
    || is_empty f.diff
    || is_empty f.at

unfoldable pub missing_review_fields : ReviewRecord → Bool
unfolding valid_hash_set
missing_review_fields r =
    is_empty r.reviewer
    || is_empty r.family
    || is_empty r.seat_id
    || is_empty r.verdict
    || is_empty r.fingerprint
    || is_empty r.at
    || not (valid_hash_set r.evidence_hashes)

-- `m.Freeze == nil || m.Review.Fingerprint != m.Freeze.Candidate`
unfoldable pub unbound : ReviewRecord → Option FreezeRecord → Bool
unbound r none = true
unbound r (some f) = not (r.fingerprint == f.candidate)

unfoldable pub is_verdict : Text → Bool
is_verdict v = v == text "PASS" || v == text "FAIL"

unfoldable bad_reference : EvidenceReference → Bool
unfolding is_hash
bad_reference e = is_empty e.name || not (is_hash e.hash)

abbrev schema_error : String → Error
schema_error op = new usage_or_schema op

module _ (lib : Library) where
  -- The dispatch hash cannot be computed, is empty, or is another.
  abbrev wrong_hash : Text → Result Text → Bool
  wrong_hash hash (err e) = true
  wrong_hash hash (ok want) = is_empty hash || not (hash == want)

  unfoldable pub validate_freeze : Option FreezeRecord → Check
  unfolding guards missing_freeze_fields is_canonical_timestamp
  validate_freeze none = ok tt
  validate_freeze (some f) = guards (
      (missing_freeze_fields f, schema_error "manifest freeze required")
      ∷ (not (is_canonical_timestamp lib f.at), schema_error "manifest freeze timestamp")
      ∷ [])

  unfoldable pub validate_review : Option FreezeRecord → Option ReviewRecord → Check
  unfolding guards missing_review_fields is_verdict unbound is_canonical_timestamp
  validate_review freeze none = ok tt
  validate_review freeze (some r) = guards (
      (missing_review_fields r, schema_error "manifest review required")
      ∷ (
        not (is_verdict r.verdict) || not (is_canonical_timestamp lib r.at) || unbound r freeze,
        schema_error "manifest review binding",
      )
      ∷ [])

  unfoldable bad_failure : FailureRecord → Bool
  unfolding is_failure_class is_canonical_timestamp
  bad_failure r =
      not (is_failure_class r.class)
      || is_empty r.op
      || is_empty r.error
      || not (is_canonical_timestamp lib r.at)

  -- The tests of `validate` before those on the freeze and the review, and those after them.
  unfoldable pub field_guards : Manifest → List (Bool × Error)
  unfolding missing_required bad_state bad_limits is_canonical_timestamp dispatch_hash
  field_guards m =
      (missing_required m, schema_error "manifest required fields")
      ∷ (
        not (is_canonical_timestamp lib m.created_at)
            || not (is_canonical_timestamp lib m.updated_at),
        schema_error "manifest timestamps",
      )
      ∷ (bad_state m, schema_error "manifest lifecycle state")
      ∷ (bad_limits m.dispatch, schema_error "manifest resource limits")
      ∷ (
        wrong_hash m.dispatch_hash (dispatch_hash lib m.dispatch),
        schema_error "manifest dispatch hash",
      )
      ∷ []

  unfoldable pub record_guards : Manifest → List (Bool × Error)
  unfolding bad_reference bad_failure any_of
  record_guards m =
      (
        at_or_after_reviewed (lane_snapshot m) && is_nil m.review,
        schema_error "manifest review required",
      )
      ∷ (any_of bad_reference m.evidence, schema_error "manifest evidence reference")
      ∷ (any_of bad_failure m.failures, schema_error "manifest failure record")
      ∷ []

  -- `validate`
  unfoldable pub validate : Manifest → Check
  unfolding field_guards validate_freeze validate_review record_guards guards
  validate m = do
    guards (field_guards m)
    validate_freeze m.freeze
    reject_if (at_or_after_frozen (lane_snapshot m) && is_nil m.freeze)
        (schema_error "manifest freeze required")
    validate_review m.freeze m.review
    guards (record_guards m)

  -- `decode`: only canonical bytes of a valid manifest are read.
  unfoldable pub decode : Text → Result (Manifest × Text)
  unfolding validate normalize canonical_bytes
  decode bytes = do
    canonical ← or_else (wrap integrity "manifest canonicalize") (canonical_bytes lib.json bytes)
    reject_if (not (canonical == bytes)) (new integrity "manifest non-canonical bytes")
    m ← or_else (wrap integrity "manifest decode") (lib.decode_strict canonical)
    reject_if (lib.has_trailing canonical) (new integrity "manifest trailing data")
    (normalized, normalized_bytes, hash) ←
        or_else (wrap integrity "manifest normalize") (normalize lib m)
    reject_if (not (normalized_bytes == bytes)) (new integrity "manifest noncanonical model bytes")
    or_else (wrap integrity "manifest validate") (validate normalized)
    ok (normalized, hash)

unfoldable pub identity_changed : Manifest → Manifest → Bool
unfolding int_eq
identity_changed m n =
    not (int_eq m.schema_version n.schema_version) || not (m.lane_id == n.lane_id)

-- The lane is active or later, before or after the update.
abbrev pub is_dispatched : Manifest → Manifest → Bool
is_dispatched m n = at_or_after_active (lane_snapshot m) || at_or_after_active (lane_snapshot n)

-- The comparisons of `ValidateUpdate`; `reflect.DeepEqual` is equality of the records. It tells evidence hashes that are nil
-- from an empty list, which here are one; `Validate` refuses a review record with either.
unfoldable pub immutability_guards : Manifest → Manifest → List (Bool × Error)
unfolding deep_equal identity_changed
immutability_guards m n =
    (identity_changed m n, new policy_or_transition "manifest immutable identity")
    ∷ (
      not (m.created_at == n.created_at),
      new policy_or_transition "manifest created timestamp immutable",
    )
    ∷ (
      is_dispatched m n && not (deep_equal Dispatch-discrete m.dispatch n.dispatch),
      new policy_or_transition "manifest dispatch immutable",
    )
    ∷ (
      is_dispatched m n && not (m.dispatch_hash == n.dispatch_hash),
      new policy_or_transition "manifest dispatch hash immutable",
    )
    ∷ (
      at_or_after_frozen (lane_snapshot m) && not (deep_equal freeze-discrete m.freeze n.freeze),
      new policy_or_transition "manifest freeze immutable",
    )
    ∷ (
      at_or_after_reviewed (lane_snapshot m) && not (deep_equal review-discrete m.review n.review),
      new policy_or_transition "manifest review immutable",
    )
    ∷ []

module _ (lib : Library) where
  -- `ValidateUpdate`
  unfoldable pub validate_update : Text → Manifest → Manifest → Check
  unfolding normalize immutability_guards guards
  validate_update expected before after = do
    reject_if (is_empty expected) (new integrity "manifest missing prior hash")
    r ← or_else (wrap integrity "manifest prior hash") (normalize lib before)
    reject_if (not (r.2 == expected)) (new integrity "manifest prior hash mismatch")
    guards (immutability_guards before after)
