-- ===== src/Examples/Tools.antt =====
-- The commands on a lane, on a disk whose state is the bytes of the lane's manifest.
use native.Mathlib.Decide.{ℕ_discrete}
use provehito.Common.{
  Text, text, true, false, List, [], ◌∷◌, ◌++◌, some, none, ◌==◌, ◌≡◌, refl, if◌then◌else◌,
}
use provehito.Common.Ints.{negsuc}
use provehito.Failure.{plain}
use provehito.Failure.Outcome.{ok, err}
use provehito.Lifecycle.{State, at_or_after_frozen, at_or_after_reviewed, at_or_after_active}
use provehito.Lifecycle.Side.{IsSide}
use provehito.Workspace.Paths.{exists}
use provehito.Manifest.Model.{
  Dispatch-discrete, freeze-discrete, review-discrete, Manifest, EvidenceReference, lane_snapshot,
}
use provehito.Manifest.Normalize.{Library}
use provehito.Manifest.Store.{load}
use provehito.Evidence.Disk.{Os, already}
use provehito.Evidence.Receipt.{Receipt, Payload}
use provehito.Evidence.Store.{Files, fresh}
use provehito.Command.State.{Host, lane_path}
use provehito.Command.Lane.{Lanes, lane_transition}
use provehito.Command.Opened.{lane_transition-IsSide}
use provehito.Command.Candidate.{Tools, evidence_add, ready}
use provehito.Command.Decided.{IsMadeReady, ready-IsMadeReady}
use provehito.Command.Receipted.{IsReceipted, evidence_add-IsReceipted}
use provehito.Examples.Lanes.{
  lane, freeze, review, references, hash_a, hash_b, blocked_lane, reviewed_lane, current, receipt,
  now,
}
use provehito.Examples.Storage.{json, library, disk}
use provehito.Examples.Disks.{dir_mode}
use provehito.Examples.Commands.{paths}
use provehito.Examples.Readiness.{ready_record}

abbrev last_part : List Text → Text
last_part [] = []
last_part (p ∷ []) = p
last_part (p ∷ q ∷ ps) = last_part (q ∷ ps)

abbrev os : Os Text
os = record {
  is_abs = λ p. true;
  clean = λ p. p;
  join = last_part;
  dir = λ p. text "/s";
  base = λ p. p;
  rel = λ p q. ok q;
  lstat = λ w p. exists dir_mode;
  mkdir = λ w p. already;
  chmod = λ w p n. ok w;
  open_file = λ w p. err (plain "no such file");
  create_temp = λ w d pattern. err (plain "read only");
  write_file = λ w t bytes. err (plain "read only");
  sync_file = λ w t. ok tt;
  close_file = λ w t. ok tt;
  link = λ w t p. already;
  remove = λ w t. err (plain "read only");
  sync_dir = λ w p. ok tt;
}

abbrev host : Host Text
host = record {
  os = os;
  paths = λ w. paths;
  mkdir_all = λ w p n. ok w;
  file_exists = plain "file exists";
}

abbrev lanes_with : Library → Lanes Text
lanes_with lib = record {
  host = host;
  library = lib;
  disk = λ path. disk;
  read_dir = λ w p. ok [];
  sort_rows = λ rows. rows;
  now = now;
}

lane_moves :
    lane_transition
      (lanes_with library)
      (text "false")
      (text "block")
      (text "/s")
      (text "lane")
      hash_b
    ≡ ok (text "true", blocked_lane, hash_a)
unfolding lane_transition text ◌==◌ at_or_after_frozen at_or_after_reviewed at_or_after_active
lane_moves = refl

lane_transition-IsSide_example :
    (path : Text) × (before : Manifest) × (lane_path host (text "false") (text "/s") (text "lane")
      ≡ ok path)
    × (load library disk path (text "false") ≡ ok (before, hash_b))
    × IsSide (lane_snapshot before) (lane_snapshot blocked_lane)
lane_transition-IsSide_example =
    lane_transition-IsSide (lanes_with library) (text "false") (text "true") (text "block")
      (text "/s") (text "lane") hash_b hash_a blocked_lane lane_moves

abbrev frozen_lane : List EvidenceReference → Manifest
frozen_lane e = lane State.frozen (some freeze) none e

abbrev evidence_text : List EvidenceReference → Text
evidence_text [] = text "false"
evidence_text (e ∷ es) = text "true"

abbrev frozen_library : Library
frozen_library = record library {
  marshal = λ m. ok (evidence_text m.evidence);
  decode_strict = λ t.
      if t == text "true"
      then ok (frozen_lane (record { name = text "unit"; hash = hash_a } ∷ []))
      else ok (frozen_lane []);
}

abbrev receipt_text : Text → Text
receipt_text method = if method == text "unit" then text "true" else text "false"

-- The bytes `true` and `false` are two receipts.
abbrev receipt_library : provehito.Evidence.Bytes.Library
receipt_library = record {
  json = json;
  marshal_payload = λ (p : Payload). ok (receipt_text p.method_id);
  marshal_receipt = λ (r : Receipt). ok (receipt_text r.method_id);
  decode_strict = λ t.
      if t == text "true"
      then ok (receipt (text "unit") hash_a)
      else ok (receipt (text "lint") hash_b);
  has_trailing = λ t. false;
  parse_time = λ t. some (true, t);
}

abbrev files : Files Text
files = record {
  root_path = λ w. ok (text "/s");
  join = last_part;
  dir = λ p. text "/s";
  check_parents = λ w p. ok tt;
  ensure_parents = λ w p. ok w;
  read_private = λ w p. if p == hash_a ++ text ".json" then ok (text "true") else ok (text "false");
  create_file = λ w p bytes. fresh (ok w);
}

abbrev tools_with : Library → Tools Text
tools_with lib = record {
  lanes = lanes_with lib;
  freeze = λ w work base manifest. ok current;
  receipts = receipt_library;
  files = λ root. files;
  abs = λ t. ok t;
  clean = λ t. t;
  lower = λ t. t;
  print_time = λ t. t;
}

receipt_added :
    evidence_add
      (tools_with frozen_library)
      (text "false")
      (text "/s")
      (text "lane")
      (text "unit")
      []
      (text "pass")
      []
      (negsuc 0)
    ≡ ok (text "true", hash_a, hash_a)
unfolding evidence_add Dispatch-discrete freeze-discrete review-discrete ℕ_discrete text ◌==◌
    at_or_after_frozen at_or_after_reviewed at_or_after_active
receipt_added = refl

evidence_add-IsReceipted_example :
    IsReceipted
      (tools_with frozen_library)
      (text "false")
      (text "true")
      (text "/s")
      (text "lane")
      (text "unit")
      []
      (text "pass")
      []
      (negsuc 0)
      hash_a
      hash_a
evidence_add-IsReceipted_example =
    evidence_add-IsReceipted (tools_with frozen_library) (text "false") (text "true") (text "/s")
      (text "lane") (text "unit") [] (text "pass") [] (negsuc 0) hash_a hash_a receipt_added

abbrev reviewed_text : State → Text
reviewed_text State.ready = text "true"
reviewed_text _ = text "false"

abbrev ready_library : Library
ready_library = record library {
  marshal = λ m. ok (reviewed_text m.state);
  decode_strict = λ t.
      if t == text "true"
      then ok (lane State.ready (some freeze) (some review) references)
      else ok reviewed_lane;
}

lane_ready :
    ready (tools_with ready_library) (text "false") (text "/s") (text "lane") []
    ≡ ok (text "true", ready_record, hash_a)
unfolding ready Dispatch-discrete freeze-discrete review-discrete ℕ_discrete text ◌==◌
    at_or_after_frozen at_or_after_reviewed at_or_after_active
lane_ready = refl

ready-IsMadeReady_example :
    IsMadeReady
      (tools_with ready_library)
      (text "false")
      (text "true")
      (text "/s")
      (text "lane")
      []
      ready_record
      hash_a
ready-IsMadeReady_example =
    ready-IsMadeReady (tools_with ready_library) (text "false") (text "true") (text "/s")
      (text "lane") [] ready_record hash_a lane_ready
