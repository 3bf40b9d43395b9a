-- ===== src/Policy/EvidenceSet.antt =====
-- `evidenceEqual` of core/policy/readiness.go: the comparison of two sets of hashes.
use mathlib.Core.List.{Perm, Permᴰ}
use mathlib.Core.Logic.{∥∥₁_elim}
use native.Mathlib.Decide.{ℕ_discrete}
use mathlib.Core.List.Perm
use provehito.Common.{
  ◌∙◌, suc, ap, sym, subst, ℕ, Text, true, List, [], ◌∷◌, nat_eq, length, ◌==◌, eq_iff, ◌≡◌, ◌↔◌,
  refl, arith, inl, inr, Bool-cases,
}
use provehito.Common.Sorting.{
  sort, text_le, sort-perm, sort-IsSorted, IsSorted-eq_of_perm, text_le_refl, text_le-total,
  text_le_trans, text_le_antisymm,
}
use provehito.Manifest.Hashes.{valid_hash_set, IsHashSet, valid_hash_set_iff}
use provehito.Policy.Readiness.{evidence_equal, same_texts}

same_texts_iff : (xs ys : List Text) → (same_texts xs ys ≡ true) ↔ (xs ≡ ys)
same_texts_iff [] [] = (λ h. refl, λ h. refl)
same_texts_iff [] (y ∷ ys) = (λ h. cc, λ h. cc)
same_texts_iff (x ∷ xs) [] = (λ h. cc, λ h. cc)
same_texts_iff (x ∷ xs) (y ∷ ys) =
    let ih = same_texts_iff xs ys in
    let e = eq_iff x y in
    elim (Bool-cases (x == y)) [
      | inl p ↦ (λ h. let q = ih.0 (rw p at h) in let r = e.0 p in cc, λ h. rw p (ih.1 cc))
      | inr p ↦ (λ h. absurd (cc (rw p at h)), λ h. let r : x ≡ y = cc in absurd (cc (p, e.1 r)))
    ]

length-permutation : {l r : List Text} → Permᴰ l r → length l ≡ length r
length-permutation Permᴰ.nil = refl
length-permutation (Permᴰ.cons e p) = ap suc (length-permutation p)
length-permutation (Permᴰ.swap e f) = refl
length-permutation (Permᴰ.trans p q) = length-permutation p ∙ length-permutation q

ℕ_set : IsSet ℕ
ℕ_set = hlevel ℕ_discrete

length-perm : {l r : List Text} → Perm l r → length l ≡ length r
length-perm {l} {r} p = ∥∥₁_elim p (ℕ_set (length l) (length r)) length-permutation

sorted_eq_iff : (l r : List Text) → (sort text_le l ≡ sort text_le r) ↔ Perm l r
sorted_eq_iff l r = (
  λ h.
      Perm.trans (Perm.symm (sort-perm text_le l))
        (subst (λ s. Perm s r) (sym h) (sort-perm text_le r)),
  λ p.
      IsSorted-eq_of_perm text_le text_le_refl (sort text_le l) (sort text_le r)
        (λ a b _ _ h k. text_le_antisymm a b h k)
        (sort-IsSorted text_le text_le-total text_le_trans l)
        (sort-IsSorted text_le text_le-total text_le_trans r)
        (Perm.trans (sort-perm text_le l) (Perm.trans p (Perm.symm (sort-perm text_le r)))),
)

-- Two lists of hashes are equal evidence exactly when both are sets of hashes and one rearranges the
-- other.
pub evidence_equal_iff :
    (left right : List Text)
    → (evidence_equal left right ≡ true) ↔ (IsHashSet left × IsHashSet right × Perm left right)
unfolding evidence_equal
evidence_equal_iff left right =
    let l = valid_hash_set_iff left in
    let r = valid_hash_set_iff right in
    let same = same_texts_iff (sort text_le left) (sort text_le right) in
    let sorted = sorted_eq_iff left right in
    elim (Bool-cases (valid_hash_set left)) [
      | inr p ↦ (λ h. absurd (cc (rw p at h)), λ (a, b, c). absurd (cc (p, l.1 a)))
      | inl p ↦ elim (Bool-cases (valid_hash_set right)) [
        | inr q ↦ (λ h. absurd (cc (rw (p, q) at h)), λ (a, b, c). absurd (cc (q, r.1 b)))
        | inl q ↦ elim (Bool-cases (nat_eq (length left) (length right))) [
          | inr n ↦ (
            λ h. absurd (cc (rw (p, q, n) at h)),
            λ (a, b, c). absurd (let e = length-perm c in ground arith),
          )
          | inl n ↦ (
            λ h. (l.0 p, r.0 q, sorted.0 (same.0 (rw (p, q, n) at h))),
            λ (a, b, c). rw (p, q, n) (same.1 (sorted.1 c)),
          )
        ]
      ]
    ]
