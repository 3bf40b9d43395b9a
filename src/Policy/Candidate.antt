-- ===== src/Policy/Candidate.antt =====
-- The rules of core/policy/readiness.go on two candidates and on two identities.
use provehito.Common.{
  inr, inl, Bool-cases, Text, Bool, true, false, ◌&&◌, ◌||◌, [], ◌∷◌, is_empty, ◌==◌, eq_iff, ◌≡◌,
  ◌≢◌, ◌↔◌, refl, arith,
}
use provehito.Failure.{no_reason}
use provehito.Fingerprint.Identity.{Fingerprint}
use provehito.Manifest.Model.{Manifest}
use provehito.Policy.Readiness.{independence_reason, same_candidate, frozen_fingerprint, drifted}

-- All but the time of the freeze agrees.
pub record IsSameCandidate (a b : Fingerprint) : Type 0 where
  pub equivalent : a.equivalent_hash ≡ b.equivalent_hash
  pub manifest : a.manifest_hash ≡ b.manifest_hash
  pub base : a.base_commit ≡ b.base_commit
  pub head : a.head_commit ≡ b.head_commit
  pub tree : a.head_tree ≡ b.head_tree
  pub diff : a.diff_hash ≡ b.diff_hash

all_true :
    (b c d e f g : Bool)
    → ((b && c && d && e && f && g) ≡ true)
      ↔ ((b ≡ true) × (c ≡ true) × (d ≡ true) × (e ≡ true) × (f ≡ true) × (g ≡ true))
all_true true true true true true g = (λ h. (refl, refl, refl, refl, refl, h), λ h. h.5)
all_true true true true true false g = (λ h. cc, λ h. absurd (cc (h.4)))
all_true true true true false f g = (λ h. cc, λ h. absurd (cc (h.3)))
all_true true true false e f g = (λ h. cc, λ h. absurd (cc (h.2)))
all_true true false d e f g = (λ h. cc, λ h. absurd (cc (h.1)))
all_true false c d e f g = (λ h. cc, λ h. absurd (cc (h.0)))

same_candidate_iff : (a b : Fingerprint) → (same_candidate a b ≡ true) ↔ IsSameCandidate a b
unfolding same_candidate
same_candidate_iff a b =
    let all =
      all_true (a.equivalent_hash == b.equivalent_hash) (a.manifest_hash == b.manifest_hash)
        (a.base_commit == b.base_commit) (a.head_commit == b.head_commit)
        (a.head_tree == b.head_tree) (a.diff_hash == b.diff_hash) in
    (
      λ h.
          let (e, m, c, d, t, f) = all.0 h in
          record {
            equivalent = (eq_iff a.equivalent_hash b.equivalent_hash).0 e;
            manifest = (eq_iff a.manifest_hash b.manifest_hash).0 m;
            base = (eq_iff a.base_commit b.base_commit).0 c;
            head = (eq_iff a.head_commit b.head_commit).0 d;
            tree = (eq_iff a.head_tree b.head_tree).0 t;
            diff = (eq_iff a.diff_hash b.diff_hash).0 f;
          },
      λ s. all.1 (
        (eq_iff a.equivalent_hash b.equivalent_hash).1 s.equivalent,
        (eq_iff a.manifest_hash b.manifest_hash).1 s.manifest,
        (eq_iff a.base_commit b.base_commit).1 s.base,
        (eq_iff a.head_commit b.head_commit).1 s.head,
        (eq_iff a.head_tree b.head_tree).1 s.tree,
        (eq_iff a.diff_hash b.diff_hash).1 s.diff,
      ),
    )

-- A workspace has not drifted exactly when its fingerprint agrees with the frozen candidate in all
-- but the time.
pub drifted_iff :
    (m : Manifest) (current : Fingerprint)
    → (drifted m current ≡ false) ↔ IsSameCandidate (frozen_fingerprint m) current
unfolding drifted
drifted_iff m current =
    let e = same_candidate_iff (frozen_fingerprint m) current in
    (λ h. e.0 (ground (arith)), λ s. rw (e.1 s) refl)

-- The identity of a writer or of a reviewer: two texts that are given and differ.
abbrev pub IsOther : Text → Text → Type 0
IsOther a b = (a ≢ []) × (b ≢ []) × (a ≢ b)

IsOther-iff : (a b : Text) → ((is_empty a || is_empty b || a == b) ≡ false) ↔ IsOther a b
IsOther-iff [] b = (λ h. cc, λ h. absurd (h.0 refl))
IsOther-iff (x ∷ a) [] = (λ h. cc, λ h. absurd (h.1 refl))
IsOther-iff (x ∷ a) (y ∷ b) =
    let e = eq_iff (x ∷ a) (y ∷ b) in
    (λ h. ((λ p. cc), (λ p. cc), λ p. cc (h, e.1 p)), λ (_, _, n). ground (arith, e))

-- A reviewer is independent exactly when both families are given and differ, and so are both seats.
pub independence_reason_iff :
    (writer_family writer_seat_id family seat_id : Text)
    → (independence_reason writer_family writer_seat_id family seat_id ≡ no_reason)
      ↔ (IsOther writer_family family × IsOther writer_seat_id seat_id)
unfolding independence_reason
independence_reason_iff writer_family writer_seat_id family seat_id =
    let f = IsOther-iff writer_family family in
    let s = IsOther-iff writer_seat_id seat_id in
    elim (Bool-cases (is_empty writer_family || is_empty family || writer_family == family)) [
      | inl p ↦ (λ h. absurd (cc (rw p at h)), λ (a, b). absurd (cc (p, f.1 a)))
      | inr p ↦
          elim (Bool-cases
            (is_empty writer_seat_id || is_empty seat_id || writer_seat_id == seat_id)) [
              | inl q ↦ (λ h. absurd (cc (rw (p, q) at h)), λ (a, b). absurd (cc (q, s.1 b)))
              | inr q ↦ (λ h. (f.0 p, s.0 q), λ h. rw (p, q) refl)
            ]
    ]
