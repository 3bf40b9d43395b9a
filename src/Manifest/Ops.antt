-- ===== src/Manifest/Ops.antt =====
-- The compare-and-swap operations of core/manifest/ops.go.
use provehito.Common.{
  Text, Bool, true, false, not, ◌&&◌, [], ◌∷◌, ◌++◌, some, is_empty, ◌==◌, String,
}
use provehito.Failure.{new, integrity}
use provehito.Failure.Outcome.{Result, Check, ok, ◌>>=◌, ◌>>◌, reject_if}
use provehito.Lifecycle.{Event, Snapshot, apply}
use provehito.Manifest.Model.{
  Manifest, FreezeRecord, ReviewRecord, EvidenceReference, lane_snapshot,
}
use provehito.Manifest.Normalize.{Library}
use provehito.Manifest.Store.{Disk, load, update}

-- `ExpectedHash`; `stale` is the operation of its diagnostic, `op` and its suffix.
pub record ExpectedHash : Type 0 where
  pub value : Text
  pub required : Bool
  pub stale : String

-- `OptionalHash` and `RequiredHash`
abbrev pub optional_hash : Text → String → ExpectedHash
optional_hash value stale = record { value = value; required = false; stale = stale }

abbrev pub required_hash : Text → ExpectedHash
required_hash value = record {
  value = value;
  required = true;
  stale = "manifest prior hash mismatch";
}

abbrev pub any_hash : ExpectedHash
any_hash = optional_hash [] " manifest prior hash mismatch"

-- `check`
unfoldable pub check : ExpectedHash → Text → Check
check e hash = do
  reject_if (e.required && is_empty e.value) (new integrity "expected prior hash required")
  reject_if (not (is_empty e.value) && not (e.value == hash)) (new integrity e.stale)

abbrev pub moved_to : Manifest → Snapshot → Manifest
moved_to m s = record m { state = s.state; blocked_from = s.blocked_from }

abbrev pub with_freeze : FreezeRecord → Manifest → Manifest
with_freeze r m = record m { freeze = some r }

abbrev with_review : ReviewRecord → Manifest → Manifest
with_review r m = record m { review = some r }

abbrev pub with_evidence : EvidenceReference → Manifest → Manifest
with_evidence r m = record m { evidence = m.evidence ++ (r ∷ []) }

module _ {World : Type 0} (lib : Library) (disk : Disk World) (path : Text) (w : World)
    (now : Text) where
  -- `Apply`: the disk after it, the manifest and its hash. A nil mutation is the identity.
  unfoldable pub apply_event :
      ExpectedHash → Event → (Manifest → Manifest) → Result (World × Manifest × Text)
  unfolding load check apply update
  apply_event expected event mutate = do
    loaded ← load lib disk path w
    check expected loaded.1
    snapshot ← apply (lane_snapshot loaded.0) event
    written ← update lib disk path w now loaded.1 (mutate (moved_to loaded.0 snapshot))
    ok (written.0, mutate (moved_to loaded.0 snapshot), written.1)

  -- `Mutate`
  unfoldable pub mutate_fields :
      ExpectedHash → (Manifest → Manifest) → Result (World × Manifest × Text)
  unfolding load check update
  mutate_fields expected mutate = do
    loaded ← load lib disk path w
    check expected loaded.1
    written ← update lib disk path w now loaded.1 (mutate loaded.0)
    ok (written.0, mutate loaded.0, written.1)

  -- `RecordFreeze`, `RecordReview` and `AddEvidence`
  unfoldable pub record_freeze : ExpectedHash → FreezeRecord → Result (World × Manifest × Text)
  unfolding apply_event
  record_freeze expected r = apply_event expected Event.freeze (with_freeze r)

  unfoldable pub record_review : ReviewRecord → Result (World × Manifest × Text)
  unfolding apply_event
  record_review r = apply_event any_hash Event.record_review (with_review r)

  unfoldable pub add_evidence : EvidenceReference → Result (World × Manifest × Text)
  unfolding mutate_fields
  add_evidence r = mutate_fields any_hash (with_evidence r)
