-- ===== src/Manifest/Update.antt =====
-- What `ValidateUpdate` lets through: the immutability boundaries of a lane.
use provehito.Common.{
  List, ◌∷◌, ◌↔◌, [], Text, Bool, true, false, ◌≡◌, ◌≢◌, ◌⊎◌, inl, inr, refl, arith, eq_iff, ◌==◌,
  not, ◌&&◌, ◌||◌, is_empty,
}
use provehito.Common.Ints.{int_eq_iff}
use provehito.Common.Equality.{deep_equal, deep_equal_iff}
use provehito.Failure.{Error}
use provehito.Failure.Outcome.{
  AllPass, guards, guards_iff, guard_iff, ok, ◌>>◌, reject_if, Result-cases,
}
use provehito.Lifecycle.{at_or_after_active, at_or_after_frozen, at_or_after_reviewed}
use provehito.Manifest.Model.{
  Manifest, lane_snapshot, Dispatch-discrete, freeze-discrete, review-discrete,
}
use provehito.Manifest.Normalize.{Library, normalize}
use provehito.Manifest.Validate.{
  identity_changed, is_dispatched, immutability_guards, validate_update,
}

-- Nothing that has been committed to is changed.
pub record IsImmutable (before after : Manifest) : Type 0 where
  pub schema : before.schema_version ≡ after.schema_version
  pub lane : before.lane_id ≡ after.lane_id
  pub created : before.created_at ≡ after.created_at
  pub dispatched :
      (at_or_after_active (lane_snapshot before) ≡ true)
        ⊎ (at_or_after_active (lane_snapshot after) ≡ true)
      → (before.dispatch ≡ after.dispatch) × (before.dispatch_hash ≡ after.dispatch_hash)
  pub frozen : at_or_after_frozen (lane_snapshot before) ≡ true → before.freeze ≡ after.freeze
  pub reviewed : at_or_after_reviewed (lane_snapshot before) ≡ true → before.review ≡ after.review

-- A guard that is skipped, or finds its fields equal.
skipped :
    {A : Type 0} (b c : Bool) (x y : A)
    → (c ≡ true) ↔ (x ≡ y)
    → ((b && not c) ≡ false) ↔ (b ≡ true → x ≡ y)
skipped true true x y e = (λ h _. e.0 refl, λ h. refl)
skipped true false x y e = (λ h. cc, λ h. absurd (cc (e.1 (h refl))))
skipped false c x y e = (λ h k. cc, λ h. refl)

differs_false : {A : Type 0} (c : Bool) (x y : A) → (c ≡ true) ↔ (x ≡ y) → (not c ≡ false) ↔ (x ≡ y)
differs_false true x y e = (λ h. e.0 refl, λ h. refl)
differs_false false x y e = (λ h. cc, λ h. absurd (cc (e.1 h)))

either_true : (b c : Bool) → ((b || c) ≡ true) ↔ ((b ≡ true) ⊎ (c ≡ true))
either_true true c = (λ h. inl refl, λ h. refl)
either_true false c = (λ h. inr h, λ h. ground arith)

module _ (m n : Manifest) where
  same_identity :
      (identity_changed m n ≡ false)
      ↔ ((m.schema_version ≡ n.schema_version) × (m.lane_id ≡ n.lane_id))
  unfolding identity_changed
  same_identity =
      let v = int_eq_iff m.schema_version n.schema_version in
      let l = eq_iff m.lane_id n.lane_id in (λ h. ground (arith, v, l), λ h. ground (arith, v, l))

  -- The lane is active or later, before or after the update.
  abbrev IsDispatched : Type 0
  IsDispatched =
      (at_or_after_active (lane_snapshot m) ≡ true) ⊎ (at_or_after_active (lane_snapshot n) ≡ true)

  dispatch_rule :
      {A : Type 0} (c : Bool) (x y : A)
      → (c ≡ true) ↔ (x ≡ y)
      → ((is_dispatched m n && not c) ≡ false) ↔ (IsDispatched → x ≡ y)
  dispatch_rule c x y e =
      let rule = skipped (is_dispatched m n) c x y e in
      let active =
        either_true (at_or_after_active (lane_snapshot m)) (at_or_after_active (lane_snapshot n)) in
      (λ h d. rule.0 h (active.1 d), λ h. rule.1 (λ d. h (active.0 d)))

  -- The guards of an update pass exactly when it changes nothing immutable.
  IsImmutable-iff : AllPass (immutability_guards m n) ↔ IsImmutable m n
  unfolding immutability_guards
  IsImmutable-iff =
      let created =
        differs_false (m.created_at == n.created_at) m.created_at n.created_at
          (eq_iff m.created_at n.created_at) in
      let dispatch =
        dispatch_rule (deep_equal Dispatch-discrete m.dispatch n.dispatch) m.dispatch n.dispatch
          (deep_equal_iff Dispatch-discrete m.dispatch n.dispatch) in
      let hash =
        dispatch_rule (m.dispatch_hash == n.dispatch_hash) m.dispatch_hash n.dispatch_hash
          (eq_iff m.dispatch_hash n.dispatch_hash) in
      let freeze =
        skipped (at_or_after_frozen (lane_snapshot m))
          (deep_equal freeze-discrete m.freeze n.freeze) m.freeze n.freeze
          (deep_equal_iff freeze-discrete m.freeze n.freeze) in
      let review =
        skipped (at_or_after_reviewed (lane_snapshot m))
          (deep_equal review-discrete m.review n.review) m.review n.review
          (deep_equal_iff review-discrete m.review n.review) in
      (
        λ (s, (c, (d, (h, (f, (r, _)))))). record {
          schema = (same_identity.0 s).0;
          lane = (same_identity.0 s).1;
          created = created.0 c;
          dispatched = λ a. (dispatch.0 d a, hash.0 h a);
          frozen = freeze.0 f;
          reviewed = review.0 r;
        },
        λ i. (
          same_identity.1 (i.schema, i.lane),
          (
            created.1 i.created,
            (
              dispatch.1 (λ a. (i.dispatched a).0),
              (hash.1 (λ a. (i.dispatched a).1), (freeze.1 i.frozen, (review.1 i.reviewed, tt))),
            ),
          ),
        ),
      )

-- The manifest has the canonical hash, and the hash is not empty.
pub record HasHash (lib : Library) (m : Manifest) (hash : Text) : Type 0 where
  pub nonempty : hash ≢ []
  pub normal : Manifest
  pub bytes : Text
  pub is_hash_of : normalize lib m ≡ ok (normal, bytes, hash)

is_empty_iff : (t : Text) → (is_empty t ≡ false) ↔ (t ≢ [])
is_empty_iff [] = (λ h. cc, λ h. absurd (h refl))
is_empty_iff (c ∷ t) = (λ h e. cc, λ h. refl)

hash_guards :
    (expected hash : Text) (d e : Error) (gs : List (Bool × Error))
    → ((reject_if (is_empty expected) d >> (reject_if (not (hash == expected)) e >> guards gs))
        ≡ ok tt)
      ↔ ((expected ≢ []) × (hash ≡ expected) × AllPass gs)
hash_guards expected hash d e gs =
    let outer =
      guard_iff (is_empty expected) d (reject_if (not (hash == expected)) e >> guards gs) in
    let inner = guard_iff (not (hash == expected)) e (guards gs) in
    let same = differs_false (hash == expected) hash expected (eq_iff hash expected) in
    (
      λ h.
          let (a, rest) = outer.0 h in
          let (b, last) = inner.0 rest in
          ((is_empty_iff expected).0 a, same.0 b, (guards_iff gs).0 last),
      λ (a, b, c). outer.1 ((is_empty_iff expected).1 a, inner.1 (same.1 b, (guards_iff gs).1 c)),
    )

-- An update is let through exactly when the expected hash is that of the manifest before, and the
-- update changes nothing immutable: identity and creation time ever, the dispatch and its hash
-- once the lane is active before or after, the freeze once frozen, the review once reviewed.
pub validate_update_iff :
    (lib : Library) (expected : Text) (before after : Manifest)
    → (validate_update lib expected before after ≡ ok tt)
      ↔ (HasHash lib before expected × IsImmutable before after)
unfolding validate_update
validate_update_iff lib expected before after = (forth, back)
  where
    forth :
        validate_update lib expected before after ≡ ok tt
        → HasHash lib before expected × IsImmutable before after
    forth h = elim (Result-cases (normalize lib before)) [
      | inr (e, p) ↦ absurd (ground (arith, p))
      | inl ((normal, bytes, hash), p) ↦
          let (a, b, c) =
            (hash_guards expected hash _ _ (immutability_guards before after)).0
              (rw (p, validate_update) at h) in
          (
            record { nonempty = a; normal = normal; bytes = bytes; is_hash_of = rw (← b) p },
            (IsImmutable-iff before after).0 c,
          )
    ]

    back :
        HasHash lib before expected × IsImmutable before after
        → validate_update lib expected before after ≡ ok tt
    back (h, i) =
        rw (h.is_hash_of, validate_update)
          ((hash_guards expected expected _ _ (immutability_guards before after)).1
            (h.nonempty, refl, (IsImmutable-iff before after).1 i))
