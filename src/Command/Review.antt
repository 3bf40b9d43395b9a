-- ===== src/Command/Review.antt =====
-- `runReviewRecord` of cmd/provehito/commands_review.go, from the loaded lane to the record that is passed to
-- `RecordReview`.
use provehito.Common.{Text, text, not, ◌||◌, Option, some, is_empty, ◌==◌, if◌then◌else◌}
use provehito.Common.Sorting.{sort, text_le}
use provehito.Failure.{Class, Reason, no_reason, new}
use provehito.Failure.Outcome.{Result, Check, ok, err, reject_if, ◌>>=◌, ◌>>◌}
use provehito.Lifecycle.{State}
use provehito.Manifest.Model.{Manifest, FreezeRecord, ReviewRecord}
use provehito.Fingerprint.Identity.{Fingerprint}
use provehito.Policy.Readiness.{
  Loader, independence_reason, independence_failure, drifted, verify_evidence,
}

pub record ReviewFlags : Type 0 where
  pub reviewer : Text
  pub family : Text
  pub seat_id : Text
  pub verdict : Text
  pub fingerprint : Text
  pub base : Text

-- Freezing by Git, the loader of receipts, `strings.ToLower` and the time.
pub record ReviewHost : Type 0 where
  pub freeze : (workspace base manifest_hash : Text) → Result Fingerprint
  pub loader : Loader
  pub lower : Text → Text
  pub now : Text

-- `parseVerdict`
unfoldable pub parse_verdict : (Text → Text) → Text → Result Text
parse_verdict lower value =
    let v = lower value in
    if v == text "pass" || v == text "approve" || v == text "approved"
    then ok (text "PASS")
    else if v == text "fail" || v == text "reject" || v == text "rejected"
    then ok (text "FAIL")
    else err (new Class.policy_or_transition "review explicit verdict")

-- `frozenBase` of a record that is not nil.
unfoldable pub frozen_base : FreezeRecord → Text → Text
frozen_base f override = if is_empty override then f.base else override

abbrev pub reject_reason : Reason → Check
reject_reason no_reason = ok tt
reject_reason r = err (independence_failure "review reviewer family" "review reviewer seat" r)

abbrev pub chosen : Text → Text → Text
chosen given candidate = if is_empty given then candidate else given

module _ (host : ReviewHost) (m : Manifest) (flags : ReviewFlags) where
  unfoldable pub review_frozen : FreezeRecord → Result ReviewRecord
  unfolding independence_reason frozen_base drifted verify_evidence parse_verdict sort text_le
  review_frozen f = do
    reject_if (is_empty flags.reviewer || is_empty flags.family || is_empty flags.seat_id)
        (new Class.usage_or_schema "reviewer, family, and seat id required")
    reject_reason
        (independence_reason m.dispatch.family m.dispatch.seat_id flags.family flags.seat_id)
    fp ← host.freeze m.dispatch.workspace (frozen_base f flags.base) m.dispatch_hash
    reject_if (drifted m fp) (new Class.candidate_or_review "review candidate drift")
    reject_if (not (chosen flags.fingerprint f.candidate == f.candidate))
        (new Class.candidate_or_review "review fingerprint")
    hashes ← verify_evidence m (some host.loader)
    verdict ← parse_verdict host.lower flags.verdict
    ok record {
      reviewer = flags.reviewer;
      family = flags.family;
      seat_id = flags.seat_id;
      verdict = verdict;
      fingerprint = chosen flags.fingerprint f.candidate;
      evidence_hashes = sort text_le hashes;
      at = host.now;
    }

  abbrev pub review_at : State → Option FreezeRecord → Result ReviewRecord
  review_at State.frozen (some f) = review_frozen f
  review_at _ _ = err (new Class.policy_or_transition "review record lifecycle")

  unfoldable pub review_record : Result ReviewRecord
  unfolding review_frozen
  review_record = review_at m.state m.freeze
