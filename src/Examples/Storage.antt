-- ===== src/Examples/Storage.antt =====
-- A store with one manifest file, whose bytes are the state of the disk.
use provehito.Common.{Text, text, [], ◌∷◌, true, false, some, ◌≡◌, ◌↔◌, refl, if◌then◌else◌, ◌==◌}
use provehito.Common.Ints.{pos}
use provehito.Failure.{plain}
use provehito.Failure.Outcome.{Result, ok}
use provehito.Lifecycle.{at_or_after_frozen, at_or_after_reviewed, at_or_after_active, State, block}
use provehito.Canon.Bytes.{Json}
use provehito.Canon.Value.{bool_token, null_token}
use provehito.Manifest.Model.{Manifest}
use provehito.Manifest.Normalize.{Library}
use provehito.Manifest.Validate.{validate, validate_update}
use provehito.Manifest.Update.{HasHash, IsImmutable, validate_update_iff}
use provehito.Manifest.Store.{Disk, FileInfo, update, read_manifest_file}
use provehito.Manifest.Ops.{apply_event, required_hash}
use provehito.Manifest.Sound.{IsSound, validate-IsSound}
use provehito.Manifest.Swap.{IsSwap, update-IsSwap, IsApplied, apply_event-IsApplied}
use provehito.Examples.Lanes.{
  reviewed_lane, hash_a, hash_b, hash_d, planned_lane, blocked_lane, now,
}

-- A library that knows three texts: `null`, a planned lane and a blocked one.
abbrev pub json : Json
json = record {
  tokens = λ t.
      if t == text "true"
      then bool_token true ∷ []
      else if t == text "false"
      then bool_token false ∷ []
      else null_token ∷ [];
  quote = λ t. t;
  sha256 = λ t. if t == text "true" then hash_a else if t == text "false" then hash_b else hash_d;
}

abbrev marshal : Manifest → Result Text
marshal m = elim (m.state) [ State.planned ↦ ok (text "false") | _ ↦ ok (text "true") ]

abbrev pub library : Library
library = record {
  json = json;
  marshal_dispatch = λ d. ok (text "null");
  marshal = marshal;
  decode_strict = λ t. if t == text "true" then ok blocked_lane else ok planned_lane;
  has_trailing = λ t. false;
  reformat = λ t. some t;
  reformat_nano = λ t. some t;
}

abbrev info : FileInfo
info = record { symlink = false; regular = true; perm = 384; size = pos 5; identity = 7 }

abbrev pub disk : Disk Text
disk = record {
  lock = λ w. ok tt;
  lstat = λ w. some (ok info);
  not_exist = plain "file does not exist";
  open_file = λ w. ok record { stat = ok info; content = ok w };
  write_exclusive = λ w bytes. ok bytes;
  write_atomic = λ w bytes. ok bytes;
}

lane_blocks :
    apply_event library disk (text "m") (text "false") now (required_hash hash_b) block (λ m. m)
    ≡ ok (text "true", blocked_lane, hash_a)
unfolding apply_event text ◌==◌ at_or_after_frozen at_or_after_reviewed at_or_after_active
lane_blocks = refl

apply_event-IsApplied_example :
    IsApplied library disk
      (text "m")
      (text "false")
      now
      (required_hash hash_b)
      block
      (λ m. m)
      (text "true")
      blocked_lane
      hash_a
apply_event-IsApplied_example =
    apply_event-IsApplied library disk (text "m") (text "false") now (required_hash hash_b) block
      (λ m. m) lane_blocks

lane_updates :
    update library disk (text "m") (text "false") now hash_b blocked_lane ≡ ok (text "true", hash_a)
unfolding update text ◌==◌ at_or_after_frozen at_or_after_reviewed at_or_after_active
lane_updates = refl

update-IsSwap_example :
    IsSwap library disk (text "m") (text "false") now hash_b blocked_lane (text "true") hash_a
update-IsSwap_example =
    update-IsSwap library disk (text "m") (text "false") now hash_b blocked_lane lane_updates

file_reads : read_manifest_file disk (text "false") ≡ ok (text "false")
unfolding read_manifest_file text ◌==◌
file_reads = refl

validate_update_iff_example :
    (validate_update library hash_b planned_lane blocked_lane ≡ ok tt)
    ↔ (HasHash library planned_lane hash_b × IsImmutable planned_lane blocked_lane)
validate_update_iff_example = validate_update_iff library hash_b planned_lane blocked_lane

abbrev stored_lane : Manifest
stored_lane = reviewed_lane

lane_validates : validate library stored_lane ≡ ok tt
unfolding validate at_or_after_frozen at_or_after_reviewed text ◌==◌
lane_validates = refl

validate-IsSound_example : IsSound stored_lane
validate-IsSound_example = validate-IsSound library stored_lane lane_validates
