-- ===== src/Command/Typed.antt =====
-- What `evidenceResult` of cmd/provehito/commands_evidence.go makes of the flags of a result.
use provehito.Common.{
  inr, eq_iff, inl, Bool-cases, true, ◌⊎◌, text, ◌&&◌, if◌then◌else◌, ◌∷◌, ◌↔◌, [], Text, false,
  not, ◌||◌, ◌==◌, ◌≡◌, ◌≢◌, refl, sym, ◌∙◌, ap,
}
use provehito.Common.Ints.{int_eq, ℤ, pos, is_negative}
use provehito.Failure.{Class, class_text}
use provehito.Failure.Outcome.{not-ok-err, ok, reject_if, ok-injective, >>=-eq-ok, >>-eq-ok}
use provehito.Evidence.Receipt.{result_success}
use provehito.Command.State.{usage}
use provehito.Command.Candidate.{named_result, default_code, evidence_result}

-- A class that is given is taken, and so is a code that is given and is not negative.
pub evidence_result-given :
    (lowered class named : Text) (code known : ℤ)
    → evidence_result lowered class code ≡ ok (named, known)
    → class ≢ []
    → (named ≡ class) × (is_negative code ≡ false → known ≡ code)
unfolding evidence_result
evidence_result-given lowered [] named code known h n = absurd (n refl)
evidence_result-given lowered (c ∷ cs) named code known h n =
    let (k, chosen, h1) =
      >>=-eq-ok (if is_negative code then default_code (c ∷ cs) else ok code) _ h in
    let (r, h2) =
      >>-eq-ok
        (reject_if (not ((c ∷ cs) == result_success) && int_eq k (pos 0))
          (usage "evidence result exit code"))
        _ h1 in
    let e = ok-injective h2 in
    (
      sym (ap (λ (x : Text × ℤ). x.0) e),
      λ given. sym (ap (λ (x : Text × ℤ). x.1) e) ∙ sym (ok-injective (rw given at chosen)),
    )

-- What the words of a result stand for.
pub IsNamed : (word named : Text) → ℤ → Type 0
IsNamed word named known =
    (((word ≡ text "pass") ⊎ (word ≡ text "success") ⊎ (word ≡ text "ok"))
      × (named ≡ result_success)
      × (known ≡ pos 0))
    ⊎ (((word ≡ text "fail") ⊎ (word ≡ text "failed"))
        × (named ≡ class_text Class.candidate_or_review)
        × (known ≡ pos 50))

named_result-IsNamed :
    (word named : Text) (known : ℤ)
    → named_result word ≡ ok (named, known)
    → IsNamed word named known
unfolding named_result IsNamed
named_result-IsNamed word named known h =
    elim (Bool-cases (word == text "pass" || word == text "success" || word == text "ok")) [
      | inl p ↦
          let e = ok-injective (rw p at h) in
          inl (any_word p, sym (ap (λ (x : Text × ℤ). x.0) e), sym (ap (λ (x : Text × ℤ). x.1) e))
      | inr p ↦ elim (Bool-cases (word == text "fail" || word == text "failed")) [
        | inl q ↦
            let e = ok-injective (rw (p, q) at h) in
            inr (
              either_word q,
              sym (ap (λ (x : Text × ℤ). x.0) e),
              sym (ap (λ (x : Text × ℤ). x.1) e),
            )
        | inr q ↦ absurd (not-ok-err (sym (rw (p, q) at h)))
      ]
    ]
  where
    either_word : {a b : Text} → (word == a || word == b) ≡ true → (word ≡ a) ⊎ (word ≡ b)
    either_word {a} {b} h = elim (Bool-cases (word == a)) [
      | inl p ↦ inl ((eq_iff word a).0 p)
      | inr p ↦ inr ((eq_iff word b).0 (rw p at h))
    ]

    any_word :
        {a b c : Text}
        → (word == a || word == b || word == c) ≡ true
        → (word ≡ a) ⊎ (word ≡ b) ⊎ (word ≡ c)
    any_word {a} h = elim (Bool-cases (word == a)) [
      | inl p ↦ inl ((eq_iff word a).0 p)
      | inr p ↦ inr (either_word (rw p at h))
    ]

-- Where no class is given, the word of the result decides both.
pub evidence_result-unnamed :
    (lowered class named : Text) (code known : ℤ)
    → evidence_result lowered class code ≡ ok (named, known)
    → class ≡ []
    → IsNamed lowered named known
unfolding evidence_result IsNamed
evidence_result-unnamed lowered (c ∷ cs) named code known h n = cc
evidence_result-unnamed lowered [] named code known h n =
    let ((name, given), a, h1) = >>=-eq-ok (named_result lowered) _ h in
    let (k, b, h2) = >>=-eq-ok (if is_negative given then default_code name else ok given) _ h1 in
    let (r, h3) =
      >>-eq-ok
        (reject_if (not (name == result_success) && int_eq k (pos 0))
          (usage "evidence result exit code"))
        _ h2 in
    let e = ok-injective h3 in
    let same_name : name ≡ named = ap (λ (x : Text × ℤ). x.0) e in
    let same_code : k ≡ known = ap (λ (x : Text × ℤ). x.1) e in
    elim (named_result-IsNamed lowered name given a) [
      | inl (w, n, z) ↦ inl (w, sym same_name ∙ n, sym same_code ∙ sym (ok-injective (rw z at b)))
      | inr (w, n, z) ↦ inr (w, sym same_name ∙ n, sym same_code ∙ sym (ok-injective (rw z at b)))
    ]

-- What class and code the flags of `evidence add` come to: those that are given, else those of the word, and 0 exactly for a
-- success.
pub record IsTyped (lowered class named : Text) (code known : ℤ) : Type 0 where
  pub typed : evidence_result lowered class code ≡ ok (named, known)
  pub given : class ≢ [] → (named ≡ class) × (is_negative code ≡ false → known ≡ code)
  pub unnamed : class ≡ [] → IsNamed lowered named known
  pub in_range : is_negative known ≡ false
  pub fits : (known ≡ pos 0) ↔ (named ≡ result_success)
