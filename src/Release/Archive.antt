-- ===== src/Release/Archive.antt =====
-- `Check` and `loadDenylist` of internal/releasecheck/releasecheck.go.
use provehito.Common.{
  ℕ, Text, text, Bool, true, false, not, ◌&&◌, ◌||◌, List, [], ◌∷◌, ◌++◌, is_empty, any_of,
  has_prefix, length, ◌==◌, if◌then◌else◌,
}
use provehito.Common.Sorting.{sort, text_le}
use provehito.Failure.{wrapped}
use provehito.Failure.Outcome.{Result, ok, ◌>>=◌, or_else}
use provehito.Fingerprint.Status.{split}
use provehito.Release.{Finding, sort_findings}
use provehito.Release.Check.{Entry, Archive, Scan, check_entries, start}

pub record Options : Type 0 where
  pub expected_files : List Text
  pub denylist_path : Text

-- The `Result` of a check; its schema and checker versions are constants.
pub record Receipt : Type 0 where
  pub structural_status : Text
  pub private_status : Text
  pub findings : List Finding
  pub tracked_count : ℕ
  pub member_count : ℕ

abbrev pub status_pass : Text
status_pass = text "PASS"

abbrev pub status_fail : Text
status_fail = text "FAIL"

abbrev pub status_skipped : Text
status_skipped = text "SKIPPED"

-- `equalStringSlices`
unfoldable pub equal_string_slices : List Text → List Text → Bool
equal_string_slices [] [] = true
equal_string_slices (a ∷ rest) (b ∷ bs) = a == b && equal_string_slices rest bs
equal_string_slices _ _ = false

-- `loadDenylist` on the bytes of the file, where `trim` is `strings.TrimSpace`.
unfoldable pub needles : (Text → Text) → List Text → List Text
unfolding has_prefix
needles trim [] = []
needles trim (line ∷ lines) =
    let rest = needles trim lines in
    let l = trim line in if is_empty l || has_prefix l (text "#") then rest else l ∷ rest

unfoldable pub load_denylist : (Text → Text) → Result Text → Result (List Text)
unfolding needles split
load_denylist trim file = do
  bytes ← or_else (wrapped "denylist unreadable") file
  ok (needles trim (split 0x0a bytes))

-- The finding where the members are not the expected files.
unfoldable pub compare_expected : List Text → List Text → List Finding
unfolding sort text_le equal_string_slices
compare_expected expected members =
    if is_empty expected
    then []
    else if equal_string_slices (sort text_le members) (sort text_le expected)
    then []
    else record { rule = text "expected-list-mismatch"; path = [] } ∷ []

abbrev pub is_private : Finding → Bool
is_private f = f.rule == text "private-denylist"

abbrev pub structural_of : List Finding → Text
structural_of findings =
    if any_of (λ f. not (is_private f)) findings then status_fail else status_pass

abbrev pub private_of : Text → List Finding → Text
private_of denylist_path findings =
    if is_empty denylist_path
    then status_skipped
    else if any_of is_private findings
    then status_fail
    else status_pass

-- The receipt of the scanned members.
unfoldable pub receipt_of : Options → Scan → Receipt
unfolding compare_expected sort_findings any_of
receipt_of opts s =
    let findings = sort_findings (s.findings ++ compare_expected opts.expected_files s.members) in
    record {
      structural_status = structural_of findings;
      private_status = private_of opts.denylist_path findings;
      findings = findings;
      tracked_count = length opts.expected_files;
      member_count = length s.members;
    }

module _ (archive : Archive) (trim : Text → Text) where
  abbrev pub denylist_of : Text → Result Text → Result (List Text)
  denylist_of path file =
      if is_empty path then ok [] else or_else (wrapped "denylist") (load_denylist trim file)

  -- `Check`, where `zip` is what `zip.NewReader` makes of the data and `file` the bytes of the denylist.
  unfoldable pub check_archive : Result (List Entry) → Result Text → Options → Result Receipt
  unfolding load_denylist check_entries receipt_of
  check_archive zip file opts = do
    entries ← or_else (wrapped "zip open") zip
    denylist ← denylist_of opts.denylist_path file
    ok (receipt_of opts (check_entries archive denylist start entries))
