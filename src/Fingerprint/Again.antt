-- ===== src/Fingerprint/Again.antt =====
-- A second `Freeze` (core/fingerprint/git.go) at another time, on the same answers of Git.
use provehito.Common.{Text, not, some, ◌≡◌, refl, sym, ◌∙◌, subst, inl, inr, Option-cases}
use provehito.Failure.{is_hash}
use provehito.Failure.Outcome.{ok, ok-injective, not-ok-err, reject_if, >>=-eq-ok, >>-eq-ok}
use provehito.Fingerprint.Identity.{Fingerprint}
use provehito.Fingerprint.Provider.{
  Provider, equivalent_hash_of, require_clean, resolve, run, inspect_candidate, inspect, stamp,
  freeze,
}
use provehito.Policy.Candidate.{IsSameCandidate}

abbrev pub at_time : Text → Provider → Provider
at_time later p = record p { now = some later }

module _ (p : Provider) (workspace base manifest_hash : Text) where
  inspect-at_time :
      (later : Text) → inspect (at_time later p) workspace base ≡ inspect p workspace base
  unfolding inspect inspect_candidate require_clean resolve run
  inspect-at_time later = refl

  stamp-IsSameCandidate :
      (i : Fingerprint) (later now : Text)
      → IsSameCandidate
          (stamp p i manifest_hash now)
          (stamp (at_time later p) i manifest_hash later)
  unfolding equivalent_hash_of
  stamp-IsSameCandidate i later now = record {
    equivalent = refl;
    manifest = refl;
    base = refl;
    head = refl;
    tree = refl;
    diff = refl;
  }

  freeze-stamp :
      (q : Provider) (f : Fingerprint)
      → freeze q workspace base manifest_hash ≡ ok f
      → (i : Fingerprint) × (now : Text) × (q.now ≡ some now)
        × (inspect q workspace base ≡ ok i)
        × (f ≡ stamp q i manifest_hash now)
  unfolding freeze
  freeze-stamp q f h =
      let (valid, h1) = >>-eq-ok (reject_if (not (is_hash manifest_hash)) _) _ h in
      let (i, inspected, h2) = >>=-eq-ok (inspect q workspace base) _ h1 in
      elim (Option-cases q.now) [
        | inl n ↦ absurd (not-ok-err (sym (rw n at h2)))
        | inr (now, e) ↦ (i, now, e, inspected, sym (ok-injective (rw e at h2)))
      ]

  -- Two freezes of one workspace, base and manifest hash on the same answers of Git, at whatever times,
  -- return fingerprints of the same candidate.
  pub freeze-IsSameCandidate :
      (later : Text) (f g : Fingerprint)
      → freeze p workspace base manifest_hash ≡ ok f
      → freeze (at_time later p) workspace base manifest_hash ≡ ok g
      → IsSameCandidate f g
  freeze-IsSameCandidate later f g h k =
      let (i, now, _, hi, hf) = freeze-stamp p f h in
      let (j, late, at, kj, kg) = freeze-stamp (at_time later p) g k in
      let same : i ≡ j = ok-injective (sym hi ∙ sym (inspect-at_time later) ∙ kj) in
      let time : later ≡ late = cc in
      subst (λ x. IsSameCandidate x g) (sym hf)
        (subst (IsSameCandidate (stamp p i manifest_hash now)) (sym kg) (
          subst
            (λ t.
              IsSameCandidate (stamp p i manifest_hash now)
                (stamp (at_time later p) j manifest_hash t))
            time
            (subst
              (λ x.
                IsSameCandidate (stamp p i manifest_hash now)
                  (stamp (at_time later p) x manifest_hash later))
              same (stamp-IsSameCandidate i later now))))
