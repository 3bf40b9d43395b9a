-- ===== src/Fingerprint/Identity.antt =====
-- The `Fingerprint` of core/fingerprint/git.go. The time of the freeze is the UTC RFC3339 text that
-- the commands print of it.
use provehito.Common.{Text, []}

pub record Fingerprint : Type 0 where
  pub base_commit : Text
  pub head_commit : Text
  pub head_tree : Text
  pub diff_hash : Text
  pub manifest_hash : Text
  pub frozen_at : Text
  pub equivalent_hash : Text

abbrev pub no_fingerprint : Fingerprint
no_fingerprint = record {
  base_commit = [];
  head_commit = [];
  head_tree = [];
  diff_hash = [];
  manifest_hash = [];
  frozen_at = [];
  equivalent_hash = [];
}
