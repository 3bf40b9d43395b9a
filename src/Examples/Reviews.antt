-- ===== src/Examples/Reviews.antt =====
-- A review of the frozen lane.
use provehito.Common.{◌∷◌, text, [], none, ◌≡◌, refl, ◌==◌}
use provehito.Failure.Outcome.{ok}
use provehito.Lifecycle.{State}
use provehito.Manifest.Model.{Manifest, ReviewRecord}
use provehito.Command.Review.{ReviewFlags, ReviewHost, review_record}
use provehito.Command.Reviewed.{IsBound, review_record-IsBound}
use provehito.Examples.Lanes.{reviewed_lane, review, current, now, hash_a, hash_b}
use provehito.Examples.Readiness.{loader}

abbrev frozen_lane : Manifest
frozen_lane = record reviewed_lane { state = State.frozen; review = none }

abbrev flags : ReviewFlags
flags = record {
  reviewer = text "eve";
  family = text "f2";
  seat_id = text "s2";
  verdict = text "pass";
  fingerprint = [];
  base = [];
}

abbrev host : ReviewHost
host = record { freeze = λ w base hash. ok current; loader = loader; lower = λ t. t; now = now }

abbrev made : ReviewRecord
made = record review { evidence_hashes = hash_a ∷ hash_b ∷ [] }

makes : review_record host frozen_lane flags ≡ ok made
unfolding review_record text ◌==◌
makes = refl

review_record-IsBound_example : IsBound host frozen_lane flags made
review_record-IsBound_example = review_record-IsBound host frozen_lane flags made makes
