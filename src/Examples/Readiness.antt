-- ===== src/Examples/Readiness.antt =====
-- The readiness of a reviewed lane.
use mathlib.Core.List.{Perm}
use provehito.Common.{text, [], ◌∷◌, true, some, ◌≡◌, refl, ◌↔◌, if◌then◌else◌, ◌==◌}
use provehito.Failure.{plain}
use provehito.Failure.Outcome.{ok, err}
use provehito.Manifest.Hashes.{IsHashSet}
use provehito.Policy.Readiness.{Loader, ReadyRecord, evaluate, verify_evidence, evidence_equal}
use provehito.Policy.Sound.{IsReady, evaluate-IsReady}
use provehito.Policy.Verified.{IsVerified, verify_evidence-IsVerified}
use provehito.Policy.EvidenceSet.{evidence_equal_iff}
use provehito.Manifest.Model.{FreezeRecord}
use provehito.Examples.Lanes.{hash_a, hash_b, hash_c, hash_d, reviewed_lane, current, receipt}

abbrev pub loader : Loader
loader ref =
    if ref.hash == hash_a
    then ok (receipt (text "unit") hash_a)
    else if ref.hash == hash_b
    then ok (receipt (text "lint") hash_b)
    else err (plain "absent")

abbrev pub ready_record : ReadyRecord
ready_record = record {
  candidate_equivalent_hash = hash_c;
  manifest_hash = hash_d;
  evidence_hashes = hash_a ∷ hash_b ∷ [];
  banner = text "READY is not authorization";
}

lane_evaluates : evaluate reviewed_lane current (some loader) ≡ ok ready_record
unfolding evaluate text ◌==◌
lane_evaluates = refl

evaluate-IsReady_example : IsReady reviewed_lane current loader ready_record
evaluate-IsReady_example = evaluate-IsReady reviewed_lane current loader lane_evaluates

lane_verifies : verify_evidence reviewed_lane (some loader) ≡ ok (hash_a ∷ hash_b ∷ [])
unfolding verify_evidence text ◌==◌
lane_verifies = refl

verify_evidence-IsVerified_example :
    (f : FreezeRecord) × (reviewed_lane.freeze ≡ some f)
    × IsVerified reviewed_lane f loader (hash_a ∷ hash_b ∷ [])
verify_evidence-IsVerified_example = verify_evidence-IsVerified reviewed_lane loader lane_verifies

evidence_equal_iff_example :
    (evidence_equal (hash_a ∷ hash_b ∷ []) (hash_b ∷ hash_a ∷ []) ≡ true) ↔ (
      IsHashSet (hash_a ∷ hash_b ∷ [])
      × IsHashSet (hash_b ∷ hash_a ∷ [])
      × Perm (hash_a ∷ hash_b ∷ []) (hash_b ∷ hash_a ∷ []))
evidence_equal_iff_example = evidence_equal_iff (hash_a ∷ hash_b ∷ []) (hash_b ∷ hash_a ∷ [])
