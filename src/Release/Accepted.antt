-- ===== src/Release/Accepted.antt =====
-- What a structural `PASS` of `Check` (internal/releasecheck/releasecheck.go) says of the archive.
use mathlib.Core.List.{Perm}
use mathlib.Core.List.Perm
use provehito.Common.{
  ◌≤◌, Text, text, true, false, List, [], ◌∷◌, ◌++◌, any_of, All, ◌==◌, eq_iff, ◌≡◌, ◌≢◌, refl, sym,
  ◌∙◌, ap, subst, inl, inr, arith, Bool-cases, or_right,
}
use provehito.Common.Sorting.{sort, text_le, any_of-sort, sort-perm}
use provehito.Failure.{wrapped}
use provehito.Failure.Outcome.{ok-injective, or_else, Result, ok, or_else-ok, >>=-eq-ok}
use provehito.Release.{Finding, finding_le, sort_findings}
use provehito.Release.Check.{Entry, Archive, max_total_size, check_entries, start}
use provehito.Release.Archive.{
  Options, Receipt, status_pass, status_fail, equal_string_slices, compare_expected, receipt_of,
  structural_of, denylist_of, check_archive,
}
use provehito.Release.Rules.{is_structural, IsClean, IsClean-append_left, any_of-append}
use provehito.Release.Passed.{IsAccepted, IsFresh, total_size, members_of, check_entries-IsPassed}

equal_string_slices-eq : (xs ys : List Text) → equal_string_slices xs ys ≡ true → xs ≡ ys
unfolding equal_string_slices
equal_string_slices-eq [] [] h = refl
equal_string_slices-eq [] (y ∷ ys) h = cc
equal_string_slices-eq (x ∷ xs) [] h = cc
equal_string_slices-eq (x ∷ xs) (y ∷ ys) h = elim (Bool-cases (x == y)) [
  | inl p ↦ let head = (eq_iff x y).0 p in let tail = equal_string_slices-eq xs ys (rw p at h) in cc
  | inr p ↦ cc (rw p at h)
]

compare_expected-perm :
    (expected members : List Text)
    → expected ≢ []
    → IsClean (compare_expected expected members)
    → Perm members expected
unfolding compare_expected any_of
compare_expected-perm [] members n h = absurd (n refl)
compare_expected-perm (x ∷ xs) members n h =
    elim (Bool-cases (equal_string_slices (sort text_le members) (sort text_le (x ∷ xs)))) [
      | inl p ↦
          let same = equal_string_slices-eq (sort text_le members) (sort text_le (x ∷ xs)) p in
          Perm.trans (Perm.symm (sort-perm text_le members))
            (subst (λ l. Perm l (x ∷ xs)) (sym same) (sort-perm text_le (x ∷ xs)))
      | inr p ↦ let fails : true ≡ false = unfold text ◌==◌ in rw p at h in absurd (cc fails)
    ]

fail_not_pass : status_fail ≢ status_pass
unfolding text ◌==◌
fail_not_pass e =
    let distinct : (status_fail == status_pass) ≡ false = refl in
    cc (distinct, (eq_iff status_fail status_pass).1 e)

structural_of-pass :
    (findings : List Finding) → structural_of findings ≡ status_pass → IsClean findings
structural_of-pass findings h = elim (Bool-cases (any_of is_structural findings)) [
  | inl p ↦ let fails : status_fail ≡ status_pass = rw p at h in absurd (fail_not_pass fails)
  | inr p ↦ p
]

-- What a structural pass says of the entries of an archive.
pub record IsSafeArchive (archive : Archive) (denylist expected : List Text) (entries : List Entry)
    : Type 0 where
  pub accepted : All (IsAccepted archive denylist) entries
  pub distinct : IsFresh [] entries
  pub within : total_size entries ≤ max_total_size
  pub complete : expected ≢ [] → Perm (members_of entries) expected

module _ (archive : Archive) (trim : Text → Text) where
  receipt_of-pass :
      (denylist : List Text) (entries : List Entry) (opts : Options)
      → (receipt_of opts (check_entries archive denylist start entries)).structural_status
        ≡ status_pass
      → IsSafeArchive archive denylist opts.expected_files entries
  unfolding receipt_of sort_findings
  receipt_of-pass denylist entries opts h =
      let s = check_entries archive denylist start entries in
      let compared = compare_expected opts.expected_files s.members in
      let all : IsClean (s.findings ++ compared) =
        sym (any_of-sort finding_le is_structural (s.findings ++ compared))
        ∙ structural_of-pass _ h in
      let p =
        check_entries-IsPassed archive denylist start entries (omega arith)
          (IsClean-append_left s.findings compared all) in
      record {
        accepted = p.accepted;
        distinct = p.fresh;
        within = let w = p.within in omega (arith, w);
        complete = λ n.
            subst (λ m. Perm m opts.expected_files) p.members
              (compare_expected-perm opts.expected_files s.members n (
                or_right (any_of is_structural s.findings)
                  (sym (any_of-append is_structural s.findings compared) ∙ all)));
      }

  -- Where `Check` returns a receipt with structural status `PASS`, the data were a zip archive; every entry
  -- of it has an acceptable name, kind and size under the required prefix; no name stands twice; the
  -- sizes add up to at most the limit, without wrapping; and the members are, up to order, the
  -- expected files where any are expected.
  pub check_archive-IsSafeArchive :
      (zip : Result (List Entry)) (file : Result Text) (opts : Options) (r : Receipt)
      → check_archive archive trim zip file opts ≡ ok r
      → r.structural_status ≡ status_pass
      → (entries : List Entry) × (denylist : List Text) × (zip ≡ ok entries)
        × IsSafeArchive archive denylist opts.expected_files entries
  unfolding check_archive
  check_archive-IsSafeArchive zip file opts r h p =
      let (entries, opened, h1) = >>=-eq-ok (or_else (wrapped "zip open") zip) _ h in
      let (denylist, loaded, h2) =
        >>=-eq-ok (denylist_of archive trim opts.denylist_path file) _ h1 in
      (
        entries,
        denylist,
        or_else-ok (wrapped "zip open") zip opened,
        receipt_of-pass denylist entries opts (ap (λ r. r.structural_status) (ok-injective h2) ∙ p),
      )
