-- ===== src/Manifest/Hashes.antt =====
-- `validHashSet`, which core/manifest/model.go and core/policy/readiness.go spell alike, and
-- `isFailureClass`.
use provehito.Common.{
  Text, Bool, true, false, not, List, [], ◌∷◌, ◌≡◌, ◌≢◌, ◌↔◌, refl, sym, inl, inr, All, any_of,
  is_empty, ◌==◌, eq_iff, Bool-cases, if◌then◌else◌,
}
use provehito.Failure.{is_hash, Class, class_of}

unfoldable new_hashes : List Text → List Text → Bool
unfolding is_hash any_of
new_hashes seen [] = true
new_hashes seen (v ∷ vs) =
    let rest = new_hashes (v ∷ seen) vs in
    if not (is_hash v) then false else if any_of (λ s. v == s) seen then false else rest

-- `validHashSet`
unfoldable pub valid_hash_set : List Text → Bool
unfolding new_hashes
valid_hash_set values = if is_empty values then false else new_hashes [] values

-- `isFailureClass`
unfoldable pub is_failure_class : Text → Bool
unfolding class_of
is_failure_class value = elim (class_of value) [ Class.other t ↦ false | _ ↦ true ]

-- All values are hashes, and none stands twice.
abbrev pub AreDistinct : List Text → Type 0
AreDistinct [] = Unit
AreDistinct (v ∷ vs) = All (λ w. w ≢ v) vs × AreDistinct vs

pub record IsHashSet (vs : List Text) : Type 0 where
  pub nonempty : vs ≢ []
  pub hashes : All (λ v. is_hash v ≡ true) vs
  pub distinct : AreDistinct vs

-- The values are new against those seen.
abbrev Avoids : List Text → List Text → Type 0
Avoids seen vs = All (λ v. All (λ s. s ≢ v) seen) vs

Avoids-cons :
    (v : Text) (seen vs : List Text) → Avoids (v ∷ seen) vs ↔ (All (λ w. w ≢ v) vs × Avoids seen vs)
Avoids-cons v seen [] = (λ h. (tt, tt), λ h. tt)
Avoids-cons v seen (w ∷ vs) =
    let ih = Avoids-cons v seen vs in
    (
      λ h. let (a, b) = ih.0 h.1 in (((λ e. h.0.0 (sym e)), a), (h.0.1, b)),
      λ (a, b). (((λ e. a.0 (sym e)), b.0), ih.1 (a.1, b.1)),
    )

any_seen :
    (v : Text) (seen : List Text) → (any_of (λ s. v == s) seen ≡ false) ↔ All (λ s. s ≢ v) seen
unfolding any_of
any_seen v [] = (λ h. tt, λ h. refl)
any_seen v (s ∷ seen) = elim (Bool-cases (v == s)) [
  | inl p ↦ (λ h. absurd (cc (rw p at h)), λ h. absurd (h.0 (sym ((eq_iff v s).0 p))))
  | inr p ↦ (
    λ h. ((λ e. cc (p, (eq_iff v s).1 (sym e))), (any_seen v seen).0 (rw p at h)),
    λ h. rw p ((any_seen v seen).1 h.1),
  )
]

new_hashes_iff :
    (seen vs : List Text)
    → (new_hashes seen vs ≡ true)
      ↔ (All (λ v. is_hash v ≡ true) vs × AreDistinct vs × Avoids seen vs)
unfolding new_hashes
new_hashes_iff seen [] = (λ h. (tt, tt, tt), λ h. refl)
new_hashes_iff seen (v ∷ vs) =
    let ih = new_hashes_iff (v ∷ seen) vs in
    let av = Avoids-cons v seen vs in
    elim (Bool-cases (is_hash v)) [
      | inr p ↦ (λ h. absurd (cc (rw p at h)), λ (a, b, c). absurd (cc (p, a.0)))
      | inl p ↦ elim (Bool-cases (any_of (λ s. v == s) seen)) [
        | inl q ↦ (
          λ h. absurd (cc (rw (p, q) at h)),
          λ (a, b, c). absurd (cc (q, (any_seen v seen).1 c.0)),
        )
        | inr q ↦ (
          λ h.
              let (a, b, c) = ih.0 (rw (p, q) at h) in
              let (d, e) = av.0 c in ((p, a), (d, b), ((any_seen v seen).0 q, e)),
          λ (a, b, c). rw (p, q) (ih.1 (a.1, b.1, av.1 (b.0, c.1))),
        )
      ]
    ]

Avoids-nothing : (vs : List Text) → Avoids [] vs
Avoids-nothing [] = tt
Avoids-nothing (v ∷ vs) = (tt, Avoids-nothing vs)

-- `validHashSet` accepts exactly the nonempty lists of hashes with no hash twice.
pub valid_hash_set_iff : (vs : List Text) → (valid_hash_set vs ≡ true) ↔ IsHashSet vs
unfolding valid_hash_set
valid_hash_set_iff [] = (λ h. absurd (cc), λ h. absurd (h.nonempty refl))
valid_hash_set_iff (v ∷ vs) =
    let eqv = new_hashes_iff [] (v ∷ vs) in
    (
      λ h. let (a, b, c) = eqv.0 h in record { nonempty = λ e. cc; hashes = a; distinct = b },
      λ h. eqv.1 (h.hashes, h.distinct, Avoids-nothing (v ∷ vs)),
    )
