-- ===== src/Policy/Readiness.antt =====
-- `Readiness.Evaluate` of core/policy/readiness.go and the rules it uses. The evidence loader is a
-- function; a nil loader is `none`.
use provehito.Common.{
  Text, text, String, Bool, true, false, not, ◌&&◌, ◌||◌, List, [], ◌∷◌, Option, none, some,
  is_empty, any_of, nat_eq, length, ◌==◌, if◌then◌else◌,
}
use provehito.Common.Ints.{pos, int_eq}
use provehito.Common.Sorting.{sort, text_le}
use provehito.Failure.{
  Error, Reason, no_reason, reviewer_family, reviewer_seat, new, new_reason, usage_or_schema,
  policy_or_transition, candidate_or_review, is_hash,
}
use provehito.Failure.Outcome.{Result, ok, err, ◌>>=◌, ◌>>◌, reject_if, guards}
use provehito.Lifecycle.{State}
use provehito.Fingerprint.Identity.{Fingerprint, no_fingerprint}
use provehito.Manifest.Model.{Manifest, FreezeRecord, ReviewRecord, EvidenceReference}
use provehito.Manifest.Hashes.{valid_hash_set}
use provehito.Evidence.Receipt.{Receipt, Reference, result_success}

abbrev pub Loader : Type 0
Loader = Reference → Result Receipt

pub record ReadyRecord : Type 0 where
  pub candidate_equivalent_hash : Text
  pub manifest_hash : Text
  pub evidence_hashes : List Text
  pub banner : Text

-- `IndependenceReason`
unfoldable pub independence_reason : Text → Text → Text → Text → Reason
independence_reason writer_family writer_seat_id family seat_id =
    if is_empty writer_family || is_empty family || writer_family == family
    then reviewer_family
    else if is_empty writer_seat_id || is_empty seat_id || writer_seat_id == seat_id
    then reviewer_seat
    else no_reason

-- `IndependenceFailure` with the prefix of its caller, which the operation's name starts with.
abbrev pub independence_failure : String → String → Reason → Error
independence_failure family_op seat_op reviewer_family =
    new_reason policy_or_transition family_op reviewer_family
independence_failure family_op seat_op r = new_reason policy_or_transition seat_op r

abbrev pub is_reason : Reason → Bool
is_reason no_reason = false
is_reason _ = true

abbrev pub frozen_by : Text → Option FreezeRecord → Fingerprint
frozen_by hash none = no_fingerprint
frozen_by hash (some f) = record {
  base_commit = f.base;
  head_commit = f.head;
  head_tree = f.tree;
  diff_hash = f.diff;
  manifest_hash = hash;
  frozen_at = [];
  equivalent_hash = f.candidate;
}

-- `FrozenFingerprint`
unfoldable pub frozen_fingerprint : Manifest → Fingerprint
frozen_fingerprint m = frozen_by m.dispatch_hash m.freeze

-- `sameCandidate`
unfoldable pub same_candidate : Fingerprint → Fingerprint → Bool
same_candidate a b =
    a.equivalent_hash == b.equivalent_hash
    && a.manifest_hash == b.manifest_hash
    && a.base_commit == b.base_commit
    && a.head_commit == b.head_commit
    && a.head_tree == b.head_tree
    && a.diff_hash == b.diff_hash

-- `Drifted`
unfoldable pub drifted : Manifest → Fingerprint → Bool
unfolding frozen_fingerprint same_candidate
drifted m current = not (same_candidate (frozen_fingerprint m) current)

-- Position by position, for lists of the same length.
abbrev pub same_texts : List Text → List Text → Bool
same_texts [] [] = true
same_texts (x ∷ xs) (y ∷ ys) = let rest = same_texts xs ys in if not (x == y) then false else rest
same_texts _ _ = false

-- `evidenceEqual`
unfoldable pub evidence_equal : List Text → List Text → Bool
unfolding valid_hash_set sort text_le
evidence_equal left right =
    if not (valid_hash_set left)
      || not (valid_hash_set right)
      || not (nat_eq (length left) (length right))
    then false
    else same_texts (sort text_le left) (sort text_le right)

-- The map `required`: each name with whether a receipt was seen for it.
unfoldable pub has_name : Text → List (Text × Bool) → Bool
has_name name [] = false
has_name name ((n, b) ∷ rest) = name == n || has_name name rest

-- `required[name] = true` where the name is there.
unfoldable pub mark : Text → List (Text × Bool) → List (Text × Bool)
mark name [] = []
mark name ((n, b) ∷ rest) =
    let marked = mark name rest in if name == n then (n, true) ∷ rest else (n, b) ∷ marked

unfoldable pub all_present : List (Text × Bool) → Bool
all_present [] = true
all_present ((n, b) ∷ rest) = b && all_present rest

abbrev required_evidence : Error
required_evidence = new candidate_or_review "required evidence"

-- The loop that fills `required` from the names of the dispatch.
unfoldable pub require_names : List (Text × Bool) → List Text → Result (List (Text × Bool))
unfolding has_name
require_names required [] = ok required
require_names required (name ∷ names) = do
  reject_if (is_empty name) required_evidence
  reject_if (has_name name required) (new candidate_or_review "duplicate required evidence")
  require_names ((name, false) ∷ required) names

-- The receipt does not bind to this lane.
unfoldable pub unbound_receipt : Manifest → FreezeRecord → EvidenceReference → Receipt → Bool
unfolding int_eq
unbound_receipt m f ref r =
    not (r.method_id == ref.name)
    || not (r.candidate_hash == f.candidate)
    || not (r.manifest_hash == m.dispatch_hash)
    || not (r.result_class == result_success)
    || not (int_eq r.exit_code (pos 0))

module _ (m : Manifest) (freeze : FreezeRecord) (load : Loader) where
  -- The loop over the evidence; the names seen, the map, and the hashes of the rest.
  unfoldable pub collect :
      List Text
      → List (Text × Bool)
      → List EvidenceReference
      → Result (List Text × List (Text × Bool))
  unfolding any_of mark unbound_receipt
  collect seen required [] = ok ([], required)
  collect seen required (ref ∷ refs) = do
    reject_if (any_of (λ n. ref.name == n) seen) (new candidate_or_review "duplicate evidence name")
    receipt ← load (record { name = []; hash = ref.hash; path = [] })
    reject_if (unbound_receipt m freeze ref receipt) (new candidate_or_review "evidence binding")
    (hashes, marked) ← collect (ref.name ∷ seen) (mark ref.name required) refs
    ok (ref.hash ∷ hashes, marked)

abbrev pub check_names : Manifest → List Text
check_names m = elim (m.dispatch.required_checks) [ none ↦ [] | some names ↦ names ]

unfoldable pub verify_with : Manifest → Option Loader → Option FreezeRecord → Result (List Text)
unfolding require_names collect valid_hash_set all_present
verify_with m loader none = err required_evidence
verify_with m none (some freeze) = do
  reject_if (is_empty (check_names m)) required_evidence
  required ← require_names [] (check_names m)
  err (new usage_or_schema "readiness evidence loader")
verify_with m (some load) (some freeze) = do
  reject_if (is_empty (check_names m)) required_evidence
  required ← require_names [] (check_names m)
  (hashes, marked) ← collect m freeze load [] required m.evidence
  reject_if (not (valid_hash_set hashes)) (new candidate_or_review "review evidence")
  reject_if (not (all_present marked)) (new candidate_or_review "required evidence missing")
  ok hashes

-- `VerifyEvidence`
unfoldable pub verify_evidence : Manifest → Option Loader → Result (List Text)
unfolding verify_with
verify_evidence m loader = verify_with m loader m.freeze

-- The tests of `validateReviewBinding` on the two records, but the last of its first `if`.
unfoldable bad_binding : Manifest → FreezeRecord → ReviewRecord → Bool
unfolding is_hash
bad_binding m f r =
    is_empty r.reviewer
    || is_empty r.family
    || is_empty r.seat_id
    || (not (r.verdict == text "PASS") && not (r.verdict == text "FAIL"))
    || is_empty r.fingerprint
    || not (is_hash r.fingerprint)
    || not (is_hash f.candidate)
    || not (is_hash m.dispatch_hash)

abbrev pub is_reviewed : State → Bool
is_reviewed State.reviewed = true
is_reviewed _ = false

-- The guards of `Evaluate` after the evidence has been verified, in its order.
unfoldable pub ready_guards :
    Manifest → Fingerprint → FreezeRecord → ReviewRecord → List Text → List (Bool × Error)
unfolding valid_hash_set drifted independence_reason bad_binding evidence_equal
ready_guards m current f r verified =
    let reason = independence_reason m.dispatch.family m.dispatch.seat_id r.family r.seat_id in
    (not (valid_hash_set r.evidence_hashes), new candidate_or_review "ready evidence")
    ∷ (drifted m current, new candidate_or_review "ready candidate drift")
    ∷ (
      is_reason reason,
      independence_failure "readiness reviewer family" "readiness reviewer seat" reason,
    )
    ∷ (is_empty r.verdict, new policy_or_transition "readiness explicit verdict")
    ∷ (bad_binding m f r, new candidate_or_review "review binding")
    ∷ (not (r.fingerprint == f.candidate), new candidate_or_review "review binding")
    ∷ (not (valid_hash_set r.evidence_hashes), new candidate_or_review "review evidence binding")
    ∷ (
      not (evidence_equal verified r.evidence_hashes),
      new candidate_or_review "readiness evidence",
    )
    ∷ (not (r.verdict == text "PASS"), new candidate_or_review "readiness verdict")
    ∷ []

abbrev pub lifecycle_error : Error
lifecycle_error = new policy_or_transition "readiness lifecycle"

unfoldable pub evaluate_with :
    Manifest
    → Fingerprint
    → Option Loader
    → Option FreezeRecord
    → Option ReviewRecord
    → Result ReadyRecord
unfolding verify_evidence ready_guards guards sort text_le
evaluate_with m current loader (some f) (some r) = do
  reject_if (not (is_reviewed m.state)) lifecycle_error
  verified ← verify_evidence m loader
  guards (ready_guards m current f r verified)
  ok record {
    candidate_equivalent_hash = current.equivalent_hash;
    manifest_hash = m.dispatch_hash;
    evidence_hashes = sort text_le r.evidence_hashes;
    banner = text "READY is not authorization";
  }
evaluate_with m current loader _ _ = err lifecycle_error

-- `Evaluate`
unfoldable pub evaluate : Manifest → Fingerprint → Option Loader → Result ReadyRecord
unfolding evaluate_with
evaluate m current loader = evaluate_with m current loader m.freeze m.review
