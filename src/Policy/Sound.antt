-- ===== src/Policy/Sound.antt =====
-- What holds of a lane that `Evaluate` of core/policy/readiness.go reports as ready.
use mathlib.Core.List.{Perm}
use provehito.Common.{
  subst, Text, text, true, false, not, List, Option, none, some, eq_iff, ◌≡◌, refl, sym, ◌∙◌, ap,
  not-false,
}
use provehito.Common.Sorting.{sort, text_le}
use provehito.Failure.{Reason, no_reason}
use provehito.Failure.Outcome.{
  not-ok-err, ok, reject_if, >>=-eq-ok, >>-eq-ok, reject_if-ok, ok-injective, guards, guards_iff,
}
use provehito.Lifecycle.{State}
use provehito.Fingerprint.Identity.{Fingerprint}
use provehito.Manifest.Model.{Manifest, FreezeRecord, ReviewRecord}
use provehito.Policy.Readiness.{
  frozen_by, Loader, ReadyRecord, is_reason, is_reviewed, ready_guards, lifecycle_error, evaluate,
  verify_evidence, independence_reason, frozen_fingerprint, evaluate_with,
}
use provehito.Policy.Candidate.{IsSameCandidate, drifted_iff, IsOther, independence_reason_iff}
use provehito.Policy.EvidenceSet.{evidence_equal_iff}
use provehito.Policy.Verified.{IsVerified, verify_evidence-IsVerified}

-- The lane is reviewed with a passing verdict of an independent reviewer on the frozen candidate,
-- which the workspace still is, and the reviewed evidence is the verified evidence.
pub record IsReady (m : Manifest) (current : Fingerprint) (load : Loader) (result : ReadyRecord)
    : Type 0 where
  pub freeze : FreezeRecord
  pub review : ReviewRecord
  pub verified : List Text
  pub reviewed : m.state ≡ State.reviewed
  pub frozen : m.freeze ≡ some freeze
  pub recorded : m.review ≡ some review
  pub passed : review.verdict ≡ text "PASS"
  pub bound : review.fingerprint ≡ freeze.candidate
  pub other_family : IsOther m.dispatch.family review.family
  pub other_seat : IsOther m.dispatch.seat_id review.seat_id
  pub unchanged : IsSameCandidate (frozen_fingerprint m) current
  pub evidence : IsVerified m freeze load verified
  pub agreed : Perm verified review.evidence_hashes
  pub hashes : result.evidence_hashes ≡ sort text_le review.evidence_hashes
  pub candidate : result.candidate_equivalent_hash ≡ freeze.candidate

is_reviewed-eq : (s : State) → is_reviewed s ≡ true → s ≡ State.reviewed
is_reviewed-eq State.reviewed h = refl
is_reviewed-eq _ h = absurd cc

is_reason-eq : (r : Reason) → is_reason r ≡ false → r ≡ no_reason
is_reason-eq no_reason h = refl
is_reason-eq _ h = absurd cc

some-injective : {A : Type 0} {a b : A} → some a ≡ some b → a ≡ b
some-injective h = cc

frozen_candidate :
    (m : Manifest) (f : FreezeRecord)
    → m.freeze ≡ some f
    → (frozen_fingerprint m).equivalent_hash ≡ f.candidate
unfolding frozen_fingerprint
frozen_candidate m f h = ap (λ x. (frozen_by m.dispatch_hash x).equivalent_hash) h

module _ (m : Manifest) (current : Fingerprint) (load : Loader) where
  IsReady-ok :
      (f : FreezeRecord) (r : ReviewRecord) (verified : List Text) (result : ReadyRecord)
      → is_reviewed m.state ≡ true
      → m.freeze ≡ some f
      → m.review ≡ some r
      → verify_evidence m (some load) ≡ ok verified
      → guards (ready_guards m current f r verified) ≡ ok tt
      → result.evidence_hashes ≡ sort text_le r.evidence_hashes
      → result.candidate_equivalent_hash ≡ current.equivalent_hash
      → IsReady m current load result
  unfolding ready_guards
  IsReady-ok f r verified result s mf mr v g eh ec =
      let (_, (d, (i, (_, (_, (b, (_, (e, (p, _))))))))) =
        (guards_iff (ready_guards m current f r verified)).0 g in
      let (other_family, other_seat) =
        (independence_reason_iff m.dispatch.family m.dispatch.seat_id r.family r.seat_id).0 (
          is_reason-eq (independence_reason m.dispatch.family m.dispatch.seat_id r.family r.seat_id)
            i) in
      let same = (drifted_iff m current).0 d in
      let (f2, mf2, iv) = verify_evidence-IsVerified m load v in
      record {
        freeze = f;
        review = r;
        verified = verified;
        reviewed = is_reviewed-eq m.state s;
        frozen = mf;
        recorded = mr;
        passed = (eq_iff r.verdict (text "PASS")).0 (not-false _ p);
        bound = (eq_iff r.fingerprint f.candidate).0 (not-false _ b);
        other_family = other_family;
        other_seat = other_seat;
        unchanged = same;
        evidence = subst (λ x. IsVerified m x load verified) (some-injective (sym mf2 ∙ mf)) iv;
        agreed = ((evidence_equal_iff verified r.evidence_hashes).0 (not-false _ e)).2;
        hashes = eh;
        candidate = ec ∙ sym same.equivalent ∙ frozen_candidate m f mf;
      }

  evaluate_with-ok :
      (freeze : Option FreezeRecord) (review : Option ReviewRecord) {result : ReadyRecord}
      → freeze ≡ m.freeze
      → review ≡ m.review
      → evaluate_with m current (some load) freeze review ≡ ok result
      → IsReady m current load result
  unfolding evaluate_with
  evaluate_with-ok none review mf mr h = absurd (not-ok-err (sym h))
  evaluate_with-ok (some f) none mf mr h = absurd (not-ok-err (sym h))
  evaluate_with-ok (some f) (some r) mf mr h =
      let (s, h1) = >>-eq-ok (reject_if (not (is_reviewed m.state)) lifecycle_error) _ h in
      let (verified, v, h2) = >>=-eq-ok (verify_evidence m (some load)) _ h1 in
      let (g, h3) = >>-eq-ok (guards (ready_guards m current f r verified)) _ h2 in
      let e = ok-injective h3 in
      IsReady-ok f r verified _ (not-false _ (reject_if-ok _ _ s)) (sym mf) (sym mr) v g
        (sym (ap (λ (x : ReadyRecord). x.evidence_hashes) e))
        (sym (ap (λ (x : ReadyRecord). x.candidate_equivalent_hash) e))

  -- A lane for which `Evaluate` succeeds is ready: reviewed and frozen, passed by a reviewer of another
  -- family and seat, on the candidate that the workspace still is, with receipts for all required
  -- checks that bind to it, which are the reviewed evidence.
  pub evaluate-IsReady :
      {result : ReadyRecord}
      → evaluate m current (some load) ≡ ok result
      → IsReady m current load result
  unfolding evaluate
  evaluate-IsReady h = evaluate_with-ok m.freeze m.review refl refl h
