-- ===== src/Command/Reviewed.antt =====
-- What the record of a review holds that `runReviewRecord` (cmd/provehito/commands_review.go) makes.
use mathlib.Core.List.{Perm}
use provehito.Common.{
  Text, text, not, ◌||◌, List, Option, none, some, is_empty, ◌==◌, eq_iff, ◌≡◌, ◌⊎◌, refl, sym,
  subst, inl, inr, Bool-cases, not-false,
}
use provehito.Common.Sorting.{text_le, sort-perm}
use provehito.Failure.{Reason, no_reason, reviewer_family, reviewer_seat, writer_seat}
use provehito.Failure.Outcome.{
  ok, ok-injective, not-ok-err, reject_if, reject_if-ok, >>=-eq-ok, >>-eq-ok,
}
use provehito.Lifecycle.{State}
use provehito.Manifest.Model.{Manifest, FreezeRecord, ReviewRecord}
use provehito.Fingerprint.Identity.{Fingerprint}
use provehito.Policy.Readiness.{independence_reason, drifted, verify_evidence, frozen_fingerprint}
use provehito.Policy.Candidate.{IsSameCandidate, drifted_iff, IsOther, independence_reason_iff}
use provehito.Command.Review.{
  ReviewFlags, ReviewHost, parse_verdict, frozen_base, reject_reason, chosen, review_frozen,
  review_at, review_record,
}

reject_reason-ok : (r : Reason) → reject_reason r ≡ ok tt → r ≡ no_reason
reject_reason-ok no_reason h = refl
reject_reason-ok reviewer_family h = cc
reject_reason-ok reviewer_seat h = cc
reject_reason-ok writer_seat h = cc

abbrev pub IsVerdict : Text → Type 0
IsVerdict v = (v ≡ text "PASS") ⊎ (v ≡ text "FAIL")

parse_verdict-IsVerdict :
    (lower : Text → Text) (value v : Text) → parse_verdict lower value ≡ ok v → IsVerdict v
unfolding parse_verdict
parse_verdict-IsVerdict lower value v h =
    let u = lower value in
    elim (Bool-cases (u == text "pass" || u == text "approve" || u == text "approved")) [
      | inl p ↦ inl (sym (ok-injective (rw p at h)))
      | inr p ↦ elim (Bool-cases (u == text "fail" || u == text "reject" || u == text "rejected")) [
        | inl q ↦ inr (sym (ok-injective (rw (p, q) at h)))
        | inr q ↦ absurd (not-ok-err (sym (rw (p, q) at h)))
      ]
    ]

module _ (host : ReviewHost) (m : Manifest) (flags : ReviewFlags) where
  -- A review of the frozen candidate by another family and seat, on the verified evidence.
  pub record IsBound (r : ReviewRecord) : Type 0 where
    pub frozen : m.state ≡ State.frozen
    pub record_of : FreezeRecord
    pub freeze : m.freeze ≡ some record_of
    pub family : IsOther m.dispatch.family r.family
    pub seat : IsOther m.dispatch.seat_id r.seat_id
    pub current : Fingerprint
    pub refrozen :
        host.freeze m.dispatch.workspace (frozen_base record_of flags.base) m.dispatch_hash
        ≡ ok current
    pub unchanged : IsSameCandidate (frozen_fingerprint m) current
    pub fingerprint : r.fingerprint ≡ record_of.candidate
    pub hashes : List Text
    pub verified : verify_evidence m (some host.loader) ≡ ok hashes
    pub evidence : Perm r.evidence_hashes hashes
    pub verdict : IsVerdict r.verdict

  review_frozen-IsBound :
      (f : FreezeRecord) (r : ReviewRecord)
      → m.state ≡ State.frozen
      → m.freeze ≡ some f
      → review_frozen host m flags f ≡ ok r
      → IsBound r
  unfolding review_frozen
  review_frozen-IsBound f r frozen freeze h =
      let reason =
        independence_reason m.dispatch.family m.dispatch.seat_id flags.family flags.seat_id in
      let (r1, h1) =
        >>-eq-ok
          (reject_if (is_empty flags.reviewer || is_empty flags.family || is_empty flags.seat_id) _)
          _ h in
      let (r2, h2) = >>-eq-ok (reject_reason reason) _ h1 in
      let (fp, refrozen, h3) =
        >>=-eq-ok (host.freeze m.dispatch.workspace (frozen_base f flags.base) m.dispatch_hash) _
          h2 in
      let (r3, h4) = >>-eq-ok (reject_if (drifted m fp) _) _ h3 in
      let (r4, h5) =
        >>-eq-ok (reject_if (not (chosen flags.fingerprint f.candidate == f.candidate)) _) _ h4 in
      let (hashes, verified, h6) = >>=-eq-ok (verify_evidence m (some host.loader)) _ h5 in
      let (verdict, parsed, h7) = >>=-eq-ok (parse_verdict host.lower flags.verdict) _ h6 in
      let same = reject_if-ok (not (chosen flags.fingerprint f.candidate == f.candidate)) _ r4 in
      let (family, seat) =
        (independence_reason_iff m.dispatch.family m.dispatch.seat_id flags.family flags.seat_id).0
          (reject_reason-ok reason r2) in
      subst IsBound (ok-injective h7) record {
        frozen = frozen;
        record_of = f;
        freeze = freeze;
        family = family;
        seat = seat;
        current = fp;
        refrozen = refrozen;
        unchanged = (drifted_iff m fp).0 (reject_if-ok (drifted m fp) _ r3);
        fingerprint =
            (eq_iff (chosen flags.fingerprint f.candidate) f.candidate).0
              (not-false (chosen flags.fingerprint f.candidate == f.candidate) same);
        hashes = hashes;
        verified = verified;
        evidence = sort-perm text_le hashes;
        verdict = parse_verdict-IsVerdict host.lower flags.verdict verdict parsed;
      }

  review_at-IsBound :
      (state : State) (freeze : Option FreezeRecord) (r : ReviewRecord)
      → m.state ≡ state
      → m.freeze ≡ freeze
      → review_at host m flags state freeze ≡ ok r
      → IsBound r
  review_at-IsBound State.frozen (some x) r s f h = review_frozen-IsBound x r s f h
  review_at-IsBound State.frozen none r s f h = absurd (not-ok-err (sym h))
  review_at-IsBound State.planned freeze r s f h = absurd (not-ok-err (sym h))
  review_at-IsBound State.active freeze r s f h = absurd (not-ok-err (sym h))
  review_at-IsBound State.reviewed freeze r s f h = absurd (not-ok-err (sym h))
  review_at-IsBound State.ready freeze r s f h = absurd (not-ok-err (sym h))
  review_at-IsBound State.closed freeze r s f h = absurd (not-ok-err (sym h))
  review_at-IsBound State.blocked freeze r s f h = absurd (not-ok-err (sym h))
  review_at-IsBound State.abandoned freeze r s f h = absurd (not-ok-err (sym h))
  review_at-IsBound State.incident freeze r s f h = absurd (not-ok-err (sym h))
  review_at-IsBound (State.other t) freeze r s f h = absurd (not-ok-err (sym h))

  -- Where `review record` makes a record, the lane is frozen, the reviewer's family and seat are given and differ
  -- from the writer's, Git freezes the same candidate again, the record names the frozen candidate, its
  -- hashes are those of the verified evidence, up to order, and its verdict is PASS or FAIL.
  pub review_record-IsBound : (r : ReviewRecord) → review_record host m flags ≡ ok r → IsBound r
  unfolding review_record
  review_record-IsBound r h = review_at-IsBound m.state m.freeze r refl refl h
