-- ===== src/Examples/Archives.antt =====
-- A release archive of one small file.
use provehito.Common.{◌==◌, List, Text, text, [], ◌∷◌, true, false, some, ◌≡◌, refl}
use provehito.Failure.Outcome.{ok}
use provehito.Release.Check.{Entry, Archive}
use provehito.Release.Archive.{Options, Receipt, status_pass, check_archive}
use provehito.Release.Accepted.{IsSafeArchive, check_archive-IsSafeArchive}

abbrev archive : Archive
archive = record {
  names = record { lower = λ t. t; ext = λ t. []; base = λ t. t };
  is_abs = λ t. false;
  runes = λ t. t;
  encode = λ c. c ∷ [];
  ratio_exceeds = λ a b. false;
  patterns = record {
    absolute_path = λ t. false;
    emails = λ t. [];
    credential = λ t. false;
    url_credential = λ t. false;
    url_hosts = λ t. [];
  };
}

abbrev member : Entry
member = record {
  name = text "provehito/go.mod";
  flags = 0;
  symlink = false;
  regular = true;
  uncompressed = 3;
  compressed = 3;
  content = some (text "abc");
}

abbrev options : Options
options = record { expected_files = text "go.mod" ∷ []; denylist_path = [] }

abbrev receipt : Receipt
receipt = record {
  structural_status = status_pass;
  private_status = text "SKIPPED";
  findings = [];
  tracked_count = 1;
  member_count = 1;
}

receipt_ok : check_archive archive (λ t. t) (ok (member ∷ [])) (ok []) options ≡ ok receipt
unfolding check_archive text ◌==◌
receipt_ok = refl

check_archive-IsSafeArchive_example :
    (entries : List Entry) × (denylist : List Text) × (ok (member ∷ []) ≡ ok entries)
    × IsSafeArchive archive denylist options.expected_files entries
check_archive-IsSafeArchive_example =
    check_archive-IsSafeArchive archive (λ t. t) (ok (member ∷ [])) (ok []) options receipt
      receipt_ok refl
