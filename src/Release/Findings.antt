-- ===== src/Release/Findings.antt =====
-- The report of internal/releasecheck/releasecheck.go does not depend on the order of discovery.
use mathlib.Core.List.{Perm}
use mathlib.Core.List.Perm
use provehito.Common.{
  ◌∙◌, ◌⊎◌, true, false, List, ◌==◌, eq_iff, ◌≡◌, ◌≢◌, refl, sym, inl, inr, Bool-cases, ap,
}
use provehito.Common.Sorting.{
  sort, text_le, text_le-total, text_le_trans, text_le_antisymm, text_le_refl, sort-perm,
  sort-IsSorted, IsSorted-eq_of_perm,
}
use provehito.Release.{Finding, finding_le, sort_findings}

module _ (a b : Finding) where
  finding_le-same : a.rule ≡ b.rule → finding_le a b ≡ text_le a.path b.path
  unfolding finding_le
  finding_le-same e = rw ((eq_iff a.rule b.rule).1 e) refl

  finding_le-other : a.rule ≢ b.rule → finding_le a b ≡ text_le a.rule b.rule
  unfolding finding_le
  finding_le-other n = elim (Bool-cases (a.rule == b.rule)) [
    | inl p ↦ absurd (n ((eq_iff a.rule b.rule).0 p))
    | inr p ↦ rw p refl
  ]

  rule-cases : (a.rule ≡ b.rule) ⊎ (a.rule ≢ b.rule)
  rule-cases = elim (Bool-cases (a.rule == b.rule)) [
    | inl p ↦ inl ((eq_iff a.rule b.rule).0 p)
    | inr p ↦ inr (λ e. cc (p, (eq_iff a.rule b.rule).1 e))
  ]

finding_le-total : (a b : Finding) → finding_le a b ≡ false → finding_le b a ≡ true
finding_le-total a b h = elim (rule-cases a b) [
  | inl e ↦
      finding_le-same b a (sym e) ∙ text_le-total a.path b.path (sym (finding_le-same a b e) ∙ h)
  | inr n ↦
      finding_le-other b a (λ e. n (sym e))
      ∙ text_le-total a.rule b.rule (sym (finding_le-other a b n) ∙ h)
]

finding_le_refl : (a : Finding) → finding_le a a ≡ true
finding_le_refl a = finding_le-same a a refl ∙ text_le_refl a.path

finding_le_antisymm : (a b : Finding) → finding_le a b ≡ true → finding_le b a ≡ true → a ≡ b
finding_le_antisymm a b h k = elim (rule-cases a b) [
  | inl e ↦
      let same : a.path ≡ b.path =
        text_le_antisymm a.path b.path (sym (finding_le-same a b e) ∙ h)
          (sym (finding_le-same b a (sym e)) ∙ k) in
      cc
  | inr n ↦ absurd (
      n (
        text_le_antisymm a.rule b.rule (sym (finding_le-other a b n) ∙ h)
          (sym (finding_le-other b a (λ e. n (sym e))) ∙ k)))
]

finding_le_trans :
    (a b c : Finding) → finding_le a b ≡ true → finding_le b c ≡ true → finding_le a c ≡ true
finding_le_trans a b c h k = elim (rule-cases a b) [
  | inl e ↦ elim (rule-cases b c) [
    | inl d ↦
        finding_le-same a c (e ∙ d)
        ∙ text_le_trans a.path b.path c.path (sym (finding_le-same a b e) ∙ h)
            (sym (finding_le-same b c d) ∙ k)
    | inr n ↦
        finding_le-other a c (λ p. n (sym e ∙ p))
        ∙ ap (λ r. text_le r c.rule) e
        ∙ sym (finding_le-other b c n)
        ∙ k
  ]
  | inr m ↦
      let first = sym (finding_le-other a b m) ∙ h in
      elim (rule-cases b c) [
        | inl d ↦
            finding_le-other a c (λ p. m (p ∙ sym d)) ∙ ap (λ r. text_le a.rule r) (sym d) ∙ first
        | inr n ↦
            let second = sym (finding_le-other b c n) ∙ k in
            finding_le-other a c (λ p.
              m (text_le_antisymm a.rule b.rule first (ap (λ r. text_le b.rule r) p ∙ second)))
            ∙ text_le_trans a.rule b.rule c.rule first second
      ]
]

-- The report is the same for the same findings, in whatever order they were made.
pub sort_findings-eq_of_perm : (l r : List Finding) → Perm l r → sort_findings l ≡ sort_findings r
unfolding sort_findings
sort_findings-eq_of_perm l r p =
    IsSorted-eq_of_perm finding_le finding_le_refl (sort finding_le l) (sort finding_le r)
      (λ a b _ _ h k. finding_le_antisymm a b h k)
      (sort-IsSorted finding_le finding_le-total finding_le_trans l)
      (sort-IsSorted finding_le finding_le-total finding_le_trans r)
      (Perm.trans (sort-perm finding_le l) (Perm.trans p (Perm.symm (sort-perm finding_le r))))
