-- ===== src/Manifest/Sound.antt =====
-- What `validate` of core/manifest/model.go guarantees of a stored manifest.
use provehito.Common.{
  subst, or_right, ◌∷◌, Bool, true, false, not, ◌&&◌, ◌||◌, [], Option, none, some, eq_iff, ◌≡◌,
  refl, arith, not-false,
}
use provehito.Failure.{new, usage_or_schema}
use provehito.Failure.Outcome.{ok, reject_if, >>-eq-ok, reject_if-ok, guards, guards_iff}
use provehito.Lifecycle.{known_state, blockable_from, at_or_after_frozen, at_or_after_reviewed}
use provehito.Lifecycle.Order.{IsStored}
use provehito.Manifest.Model.{Manifest, FreezeRecord, ReviewRecord, lane_snapshot}
use provehito.Manifest.Normalize.{is_canonical_timestamp, Library}
use provehito.Manifest.Validate.{
  is_verdict, missing_review_fields, validate, field_guards, record_guards, validate_freeze,
  validate_review, bad_state, is_nil, unbound,
}

bad_state-IsStored : (m : Manifest) → bad_state m ≡ false → IsStored (lane_snapshot m)
unfolding bad_state known_state blockable_from
bad_state-IsStored m h = ground arith

-- The lane's lifecycle fields are well formed, from frozen on there is a freeze record, and from
-- reviewed on a review that is bound to the frozen candidate.
pub record IsSound (m : Manifest) : Type 0 where
  pub stored : IsStored (lane_snapshot m)
  pub frozen :
      at_or_after_frozen (lane_snapshot m) ≡ true → (f : FreezeRecord) × (m.freeze ≡ some f)
  pub reviewed :
      at_or_after_reviewed (lane_snapshot m) ≡ true
      → (f : FreezeRecord) × (r : ReviewRecord) × (m.freeze ≡ some f)
        × (m.review ≡ some r)
        × (r.fingerprint ≡ f.candidate)

present :
    {A : Type 0} (b : Bool) (o : Option A)
    → (b && is_nil o) ≡ false
    → b ≡ true
    → (a : A) × (o ≡ some a)
present true none h k = absurd (ground arith)
present true (some a) h k = (a, refl)
present false o h k = absurd (ground arith)

some_eq : {A : Type 0} {a b : A} → some a ≡ some b → a ≡ b
some_eq h = cc

unbound-bound :
    (r : ReviewRecord) (freeze : Option FreezeRecord)
    → unbound r freeze ≡ false
    → (f : FreezeRecord) × (freeze ≡ some f) × (r.fingerprint ≡ f.candidate)
unfolding unbound
unbound-bound r none h = absurd (ground arith)
unbound-bound r (some f) h = (f, refl, (eq_iff r.fingerprint f.candidate).0 (not-false _ h))

module _ (lib : Library) where
  validate_review-unbound :
      (freeze : Option FreezeRecord) (review : Option ReviewRecord) (r : ReviewRecord)
      → review ≡ some r
      → validate_review lib freeze review ≡ ok tt
      → unbound r freeze ≡ false
  unfolding validate_review
  validate_review-unbound freeze none r e h = absurd (cc)
  validate_review-unbound freeze (some s) r e h =
      let (_, (b, _)) =
        (guards_iff (
            (missing_review_fields s, new usage_or_schema "manifest review required")
            ∷ (
              not (is_verdict s.verdict)
                  || not (is_canonical_timestamp lib s.at)
                  || unbound s freeze,
              new usage_or_schema "manifest review binding",
            )
            ∷ [])).0
          h in
      let c =
        or_right (not (is_verdict s.verdict) || not (is_canonical_timestamp lib s.at))
          {c = unbound s freeze} b in
      subst (λ x. unbound x freeze ≡ false) (some_eq e) c

  -- A manifest that `validate` accepts has well-formed lifecycle fields, a freeze record from frozen
  -- on, and from reviewed on a review whose fingerprint is the frozen candidate.
  pub validate-IsSound : (m : Manifest) → validate lib m ≡ ok tt → IsSound m
  unfolding validate field_guards record_guards
  validate-IsSound m h =
      let (fields, h1) = >>-eq-ok (guards (field_guards lib m)) _ h in
      let (_, h2) = >>-eq-ok (validate_freeze lib m.freeze) _ h1 in
      let (freeze, h3) =
        >>-eq-ok
          (reject_if (at_or_after_frozen (lane_snapshot m) && is_nil m.freeze)
            (new usage_or_schema "manifest freeze required"))
          _ h2 in
      let (review, h4) = >>-eq-ok (validate_review lib m.freeze m.review) _ h3 in
      let (_, (_, (state, _))) = (guards_iff (field_guards lib m)).0 fields in
      let (required, _) = (guards_iff (record_guards lib m)).0 h4 in
      record {
        stored = bad_state-IsStored m state;
        frozen = λ a.
            present (at_or_after_frozen (lane_snapshot m)) m.freeze (reject_if-ok _ _ freeze) a;
        reviewed = λ a.
            let (r, e) = present (at_or_after_reviewed (lane_snapshot m)) m.review required a in
            let (f, d, same) =
              unbound-bound r m.freeze (validate_review-unbound m.freeze m.review r e review) in
            (f, r, d, e, same);
      }
