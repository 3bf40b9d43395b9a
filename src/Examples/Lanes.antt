-- ===== src/Examples/Lanes.antt =====
-- A lane, its candidate and its evidence, as the examples use them.
use provehito.Common.{Text, text, List, [], ◌∷◌, true, Option, none, some}
use provehito.Common.Ints.{pos}
use provehito.Lifecycle.{State, planned, blocked, no_state}
use provehito.Fingerprint.Identity.{Fingerprint, no_fingerprint}
use provehito.Manifest.Model.{Dispatch, FreezeRecord, ReviewRecord, EvidenceReference, Manifest}
use provehito.Evidence.Receipt.{Receipt, result_success}

abbrev pub hash_a : Text
hash_a = text "aaaaaaaaaaaaaaaaaaaaaaaaaaaaaaaaaaaaaaaaaaaaaaaaaaaaaaaaaaaaaaaa"

abbrev pub hash_b : Text
hash_b = text "bbbbbbbbbbbbbbbbbbbbbbbbbbbbbbbbbbbbbbbbbbbbbbbbbbbbbbbbbbbbbbbb"

abbrev pub hash_c : Text
hash_c = text "cccccccccccccccccccccccccccccccccccccccccccccccccccccccccccccccc"

abbrev pub hash_d : Text
hash_d = text "dddddddddddddddddddddddddddddddddddddddddddddddddddddddddddddddd"

abbrev pub now : Text
now = text "2026-01-02T03:04:05Z"

abbrev pub dispatch : Dispatch
dispatch = record {
  workspace = text "/w";
  source_control = text "git";
  writer = text "ada";
  adapter = text "local";
  family = text "f1";
  seat_id = text "s1";
  cost_class = text "low";
  allowed_paths = some [];
  forbidden_paths = some [];
  non_goals = some [];
  required_checks = some (text "unit" ∷ text "lint" ∷ []);
  review_policy = text "independent";
  max_seconds = pos 60;
  max_output_bytes = pos 4096;
  max_memory_bytes = pos 0;
}

abbrev pub freeze : FreezeRecord
freeze = record {
  base = text "b";
  head = text "h";
  candidate = hash_c;
  tree = text "t";
  diff = text "d";
  at = now;
}

abbrev pub review : ReviewRecord
review = record {
  reviewer = text "eve";
  family = text "f2";
  seat_id = text "s2";
  verdict = text "PASS";
  fingerprint = hash_c;
  evidence_hashes = hash_b ∷ hash_a ∷ [];
  at = now;
}

-- The manifest of the lane at a state.
abbrev pub lane :
    State → Option FreezeRecord → Option ReviewRecord → List EvidenceReference → Manifest
lane s f r e = record {
  schema_version = pos 1;
  lane_id = text "lane";
  state = s;
  blocked_from = no_state;
  dispatch = dispatch;
  dispatch_hash = hash_d;
  freeze = f;
  review = r;
  evidence = e;
  failures = [];
  created_at = now;
  updated_at = now;
  external_actions_human_only = true;
}

abbrev pub references : List EvidenceReference
references =
    record { name = text "unit"; hash = hash_a } ∷ record { name = text "lint"; hash = hash_b } ∷ []

abbrev pub reviewed_lane : Manifest
reviewed_lane = lane State.reviewed (some freeze) (some review) references

abbrev pub planned_lane : Manifest
planned_lane = lane planned none none []

abbrev pub blocked_lane : Manifest
blocked_lane = record (lane blocked none none []) { blocked_from = planned }

abbrev pub current : Fingerprint
current = record {
  base_commit = text "b";
  head_commit = text "h";
  head_tree = text "t";
  diff_hash = text "d";
  manifest_hash = hash_d;
  frozen_at = now;
  equivalent_hash = hash_c;
}

abbrev pub receipt : Text → Text → Receipt
receipt method hash = record {
  candidate = no_fingerprint;
  schema_version = pos 1;
  method_id = method;
  seat_id = [];
  probe = text "probe";
  candidate_hash = hash_c;
  manifest_hash = hash_d;
  result_class = result_success;
  exit_code = pos 0;
  artifacts = none;
  timestamp = now;
  canonical_hash = hash;
}
