-- ===== src/Policy/Verified.antt =====
-- What `VerifyEvidence` of core/policy/readiness.go has checked when it succeeds.
use provehito.Common.{
  not-false, inr, inl, Bool-cases, subst, Text, Bool, true, false, not, ◌||◌, List, [], ◌∷◌, Option,
  none, some, is_empty, any_of, ◌==◌, ◌≡◌, ◌≢◌, refl, sym, ◌∙◌, ap, arith, All, map,
}
use provehito.Failure.{new, candidate_or_review}
use provehito.Failure.Outcome.{
  not-ok-err, ok, reject_if, >>=-eq-ok, >>-eq-ok, reject_if-ok, ok-injective,
}
use provehito.Manifest.Model.{Manifest, FreezeRecord, EvidenceReference}
use provehito.Manifest.Hashes.{valid_hash_set, IsHashSet, valid_hash_set_iff}
use provehito.Evidence.Receipt.{Receipt}
use provehito.Policy.Readiness.{
  verify_with, Loader, has_name, mark, all_present, require_names, unbound_receipt, collect,
  check_names, verify_evidence,
}

-- A name of the map is marked, or one of the names is it.
abbrev IsMarked : List EvidenceReference → Text × Bool → Type 0
IsMarked refs (n, b) = (b || any_of (λ (r : EvidenceReference). r.name == n) refs) ≡ true

all_present-IsMarked :
    (required : List (Text × Bool)) → all_present required ≡ true → All (IsMarked []) required
unfolding all_present any_of
all_present-IsMarked [] h = tt
all_present-IsMarked ((n, true) ∷ rest) h = (refl, all_present-IsMarked rest h)
all_present-IsMarked ((n, false) ∷ rest) h = cc

module _ (ref : EvidenceReference) (refs : List EvidenceReference) where
  mark-one : (n : Text) (b : Bool) → IsMarked refs (n, b) → IsMarked (ref ∷ refs) (n, b)
  unfolding any_of
  mark-one n true h = refl
  mark-one n false h = ground arith

  mark-same : (n : Text) (b : Bool) → (ref.name == n) ≡ true → IsMarked (ref ∷ refs) (n, b)
  unfolding any_of
  mark-same n true p = refl
  mark-same n false p = rw p refl

  mark-rest :
      (required : List (Text × Bool))
      → All (IsMarked refs) required
      → All (IsMarked (ref ∷ refs)) required
  mark-rest [] h = tt
  mark-rest ((n, b) ∷ rest) h = (mark-one n b h.0, mark-rest rest h.1)

  mark-IsMarked :
      (required : List (Text × Bool))
      → All (IsMarked refs) (mark ref.name required)
      → All (IsMarked (ref ∷ refs)) required
  unfolding mark
  mark-IsMarked [] h = tt
  mark-IsMarked ((n, b) ∷ rest) h = elim (Bool-cases (ref.name == n)) [
    | inl p ↦ (mark-same n b p, mark-rest rest (rw p at h).1)
    | inr p ↦ let (a, c) = rw p at h in (mark-one n b a, mark-IsMarked rest c)
  ]

-- The required names that are still to be seen are among the evidence.
require_names-All :
    (P : Text × Bool → Type 0) (required : List (Text × Bool)) (names : List Text)
    {out : List (Text × Bool)}
    → require_names required names ≡ ok out
    → All P out
    → All P required × All (λ n. P (n, false)) names
unfolding require_names
require_names-All P required [] h a = (subst (All P) (sym (ok-injective h)) a, tt)
require_names-All P required (n ∷ names) h a =
    let (e, h1) =
      >>-eq-ok (reject_if (is_empty n) (new candidate_or_review "required evidence")) _ h in
    let (d, h2) =
      >>-eq-ok
        (reject_if (has_name n required) (new candidate_or_review "duplicate required evidence")) _
        h1 in
    let (b, c) = require_names-All P ((n, false) ∷ required) names h2 a in (b.1, (b.0, c))

-- The receipt that the loader returns for the reference binds to this lane.
pub record IsBound (m : Manifest) (f : FreezeRecord) (load : Loader) (ref : EvidenceReference)
    : Type 0 where
  pub receipt : Receipt
  pub loaded : load (record { name = []; hash = ref.hash; path = [] }) ≡ ok receipt
  pub bound : unbound_receipt m f ref receipt ≡ false

abbrev pub hash_of : EvidenceReference → Text
hash_of r = r.hash

module _ (m : Manifest) (f : FreezeRecord) (load : Loader) where
  collect-ok :
      (seen : List Text) (required : List (Text × Bool)) (refs : List EvidenceReference)
      {hashes : List Text} {marked : List (Text × Bool)}
      → collect m f load seen required refs ≡ ok (hashes, marked)
      → (hashes ≡ map hash_of refs)
        × All (IsBound m f load) refs
        × (all_present marked ≡ true → All (IsMarked refs) required)
  unfolding collect
  collect-ok seen required [] h =
      let e = ok-injective h in
      (
        sym (ap (λ x. x.0) e),
        tt,
        λ p.
            all_present-IsMarked required
              (subst (λ x. all_present x ≡ true) (sym (ap (λ x. x.1) e)) p),
      )
  collect-ok seen required (ref ∷ refs) h =
      let (a, h1) =
        >>-eq-ok
          (reject_if (any_of (λ n. ref.name == n) seen)
            (new candidate_or_review "duplicate evidence name"))
          _ h in
      let (receipt, l, h2) =
        >>=-eq-ok (load (record { name = []; hash = ref.hash; path = [] })) _ h1 in
      let (b, h3) =
        >>-eq-ok
          (reject_if (unbound_receipt m f ref receipt) (new candidate_or_review "evidence binding"))
          _ h2 in
      let (r, c, h4) =
        >>=-eq-ok (collect m f load (ref.name ∷ seen) (mark ref.name required) refs) _ h3 in
      let (hashes, bound, marked) = collect-ok (ref.name ∷ seen) (mark ref.name required) refs c in
      let e = ok-injective h4 in
      (
        sym (ap (λ x. x.0) e) ∙ ap (◌∷◌ ref.hash) hashes,
        (record { receipt = receipt; loaded = l; bound = reject_if-ok _ _ b }, bound),
        λ p.
            mark-IsMarked ref refs required
              (marked (subst (λ x. all_present x ≡ true) (sym (ap (λ x. x.1) e)) p)),
      )

-- Every reference has a receipt that binds to this lane, every required check is among them, and
-- the hashes are theirs.
pub record IsVerified (m : Manifest) (f : FreezeRecord) (load : Loader) (hashes : List Text)
    : Type 0 where
  pub checks : check_names m ≢ []
  pub bound : All (IsBound m f load) m.evidence
  pub required :
      All (λ n. any_of (λ (r : EvidenceReference). r.name == n) m.evidence ≡ true) (check_names m)
  pub hashes_of : hashes ≡ map hash_of m.evidence
  pub set : IsHashSet hashes

not_empty : {A : Type 0} (l : List A) → is_empty l ≡ false → l ≢ []
not_empty [] h = λ e. cc
not_empty (x ∷ l) h = λ e. cc

verify_with-ok :
    (m : Manifest) (load : Loader) (freeze : Option FreezeRecord) {hashes : List Text}
    → verify_with m (some load) freeze ≡ ok hashes
    → (f : FreezeRecord) × (freeze ≡ some f) × IsVerified m f load hashes
unfolding verify_with
verify_with-ok m load none h = absurd (not-ok-err (sym h))
verify_with-ok m load (some f) h =
    let (e, h1) =
      >>-eq-ok (reject_if (is_empty (check_names m)) (new candidate_or_review "required evidence"))
        _ h in
    let (required, r, h2) = >>=-eq-ok (require_names [] (check_names m)) _ h1 in
    let (c, q, h3) = >>=-eq-ok (collect m f load [] required m.evidence) _ h2 in
    let (v, h4) =
      >>-eq-ok (reject_if (not (valid_hash_set c.0)) (new candidate_or_review "review evidence")) _
        h3 in
    let (p, h5) =
      >>-eq-ok
        (reject_if (not (all_present c.1)) (new candidate_or_review "required evidence missing")) _
        h4 in
    let (hashes_of, bound, marked) = collect-ok m f load [] required m.evidence q in
    let same = ok-injective h5 in
    (
      f,
      refl,
      record {
        checks = not_empty (check_names m) (reject_if-ok _ _ e);
        bound = bound;
        required =
            (require_names-All (IsMarked m.evidence) [] (check_names m) r
              (marked (not-false _ (reject_if-ok _ _ p)))).1;
        hashes_of = sym same ∙ hashes_of;
        set = subst IsHashSet same ((valid_hash_set_iff c.0).0 (not-false _ (reject_if-ok _ _ v)));
      },
    )

-- When `VerifyEvidence` succeeds, the candidate is frozen, checks are required, each of them has a
-- reference, each reference has a receipt that binds to this lane, and the hashes are a set.
pub verify_evidence-IsVerified :
    (m : Manifest) (load : Loader) {hashes : List Text}
    → verify_evidence m (some load) ≡ ok hashes
    → (f : FreezeRecord) × (m.freeze ≡ some f) × IsVerified m f load hashes
unfolding verify_evidence
verify_evidence-IsVerified m load h = verify_with-ok m load m.freeze h
