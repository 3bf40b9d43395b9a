-- ===== src/Command/Candidate.antt =====
-- The commands on a lane's candidate: `runFreeze` (commands_freeze.go), `runEvidence` (commands_evidence.go),
-- `runReviewOpen`, `runReady` and `runClose` (commands_review.go) of cmd/provehito, on their flags.
use provehito.Common.{
  ℕ, Text, text, Bool, true, false, not, ◌&&◌, ◌||◌, List, [], ◌++◌, is_empty, map, any_of, Option,
  none, some, ◌==◌, if◌then◌else◌,
}
use provehito.Common.Ints.{ℤ, pos, int_eq, is_negative}
use provehito.Failure.{
  Error, Class, new, class_text, code_for, policy_or_transition, integrity, candidate_or_review,
}
use provehito.Failure.Outcome.{Result, Check, ok, err, ◌>>=◌, ◌>>◌, reject_if}
use provehito.Lifecycle.{State, Event}
use provehito.Manifest.Model.{Manifest, FreezeRecord, ReviewRecord, EvidenceReference}
use provehito.Manifest.Ops.{optional_hash, any_hash, apply_event, record_freeze, add_evidence}
use provehito.Fingerprint.Identity.{Fingerprint, no_fingerprint}
use provehito.Evidence.Receipt.{Receipt, result_success}
use provehito.Evidence.Store.{Files, add, load, verify}
use provehito.Policy.Readiness.{ReadyRecord, drifted, evaluate}
use provehito.Command.State.{usage}
use provehito.Command.Lane.{Lanes, lane_read}
use provehito.Command.Review.{frozen_base}

-- The lanes, Git, the files and the library of the evidence store at a root, `filepath.Abs` and `Clean`,
-- `strings.ToLower` and the printing of a time.
pub record Tools (World : Type 0) : Type 0 where
  pub lanes : Lanes World
  pub freeze : World → (workspace base manifest_hash : Text) → Result Fingerprint
  pub receipts : provehito.Evidence.Bytes.Library
  pub files : Text → Files World
  pub abs : Text → Result Text
  pub clean : Text → Text
  pub lower : Text → Text
  pub print_time : Text → Text

abbrev pub is_frozen : State → Bool
is_frozen State.frozen = true
is_frozen _ = false

abbrev pub is_active : State → Bool
is_active State.active = true
is_active _ = false

abbrev pub is_ready : State → Bool
is_ready State.ready = true
is_ready _ = false

abbrev pub code_or_zero : Option ℕ → ℤ
code_or_zero none = pos 0
code_or_zero (some n) = pos n

-- The class and the code that `evidenceResult` reads from the text of a result.
unfoldable pub named_result : Text → Result (Text × ℤ)
unfolding class_text
named_result t =
    if t == text "pass" || t == text "success" || t == text "ok"
    then ok (result_success, pos 0)
    else if t == text "fail" || t == text "failed"
    then ok (class_text Class.candidate_or_review, pos 50)
    else err (usage "evidence result required")

-- The code that stands for one that was not given.
unfoldable pub default_code : Text → Result ℤ
unfolding class_text code_for
default_code class =
    if class == result_success
    then ok (pos 0)
    else if class == class_text Class.candidate_or_review
    then ok (code_or_zero (code_for Class.candidate_or_review))
    else if class == class_text Class.tooling_or_adapter
    then ok (code_or_zero (code_for Class.tooling_or_adapter))
    else err (usage "evidence exit code required")

-- `evidenceResult`, on `strings.ToLower(result)`.
unfoldable pub evidence_result : (lowered class : Text) → ℤ → Result (Text × ℤ)
unfolding named_result default_code int_eq
evidence_result lowered class code = do
  (named, given) ← if is_empty class then named_result lowered else ok (class, code)
  known ← if is_negative given then default_code named else ok given
  reject_if (not (named == result_success) && int_eq known (pos 0))
      (usage "evidence result exit code")
  ok (named, known)

abbrev pub frozen_record : Option FreezeRecord → Error → Result FreezeRecord
frozen_record none e = err e
frozen_record (some f) e = ok f

abbrev pub has_review : Option ReviewRecord → Bool
has_review none = false
has_review (some r) = true

abbrev pub is_reviewed : State → Bool
is_reviewed State.reviewed = true
is_reviewed _ = false

-- `hashList`
abbrev pub hash_list : Manifest → List Text
hash_list m = map (λ (e : EvidenceReference). e.hash) m.evidence

-- The receipt of `evidence add`.
abbrev pub manual_receipt : (method probe : Text) → Manifest → FreezeRecord → Text × ℤ → Receipt
manual_receipt method probe m f result = record {
  candidate = no_fingerprint;
  schema_version = pos 1;
  method_id = method;
  seat_id = [];
  probe = if is_empty probe then text "manual evidence: " ++ method else probe;
  candidate_hash = f.candidate;
  manifest_hash = m.dispatch_hash;
  result_class = result.0;
  exit_code = result.1;
  artifacts = none;
  timestamp = [];
  canonical_hash = [];
}

-- The record of `freeze`.
abbrev pub record_of : (Text → Text) → Fingerprint → FreezeRecord
record_of print_time fp = record {
  base = fp.base_commit;
  head = fp.head_commit;
  candidate = fp.equivalent_hash;
  tree = fp.head_tree;
  diff = fp.diff_hash;
  at = print_time fp.frozen_at;
}

abbrev pub absolute : (Text → Text) → Text → Result Text → Text
absolute clean root (ok a) = clean a
absolute clean root (err e) = root

module _ {World : Type 0} (tools : Tools World) where
  open tools use {lanes, freeze, receipts, files, abs, clean, lower, print_time}

  -- The root that `NewStore` of core/evidence/store.go keeps.
  unfoldable pub new_store : Text → Text
  new_store root = if is_empty root then root else absolute clean root (abs root)

  -- `runFreeze`
  unfoldable pub freeze_lane :
      World → (state lane expected base : Text) → Result (World × Manifest × Text)
  unfolding lane_read record_freeze
  freeze_lane w state lane expected base = do
    reject_if (is_empty state || is_empty lane) (usage "freeze lane required")
    (path, m, hash) ← lane_read lanes w state lane
    reject_if (not (is_active m.state)) (new policy_or_transition "freeze lifecycle")
    fp ← freeze w m.dispatch.workspace base m.dispatch_hash
    record_freeze lanes.library (lanes.disk path) path w lanes.now
        (optional_hash expected "freeze manifest prior hash mismatch") (record_of print_time fp)

  -- `runEvidence` for `evidence add`: the disk after it, the receipt's hash and the manifest's.
  unfoldable pub evidence_add :
      World → (state lane method probe result class : Text) → ℤ → Result (World × Text × Text)
  unfolding lane_read evidence_result add add_evidence new_store
  evidence_add w state lane method probe result class code = do
    reject_if (is_empty state || is_empty lane || is_empty method)
        (usage "evidence method and lane required")
    (path, m, hash) ← lane_read lanes w state lane
    reject_if (not (is_frozen m.state)) (new policy_or_transition "evidence add lifecycle")
    f ← frozen_record m.freeze (new integrity "evidence add freeze")
    typed ← evidence_result (lower result) class code
    reject_if (any_of (λ (e : EvidenceReference). e.name == method) m.evidence)
        (new policy_or_transition "duplicate evidence")
    (stored, ref) ←
        add receipts (files (new_store state)) (new_store state) w lanes.now
          (manual_receipt method probe m f typed)
    reject_if (any_of (λ (e : EvidenceReference). e.hash == ref.hash) m.evidence)
        (new policy_or_transition "duplicate evidence")
    (after, changed, new_hash) ←
        add_evidence lanes.library (lanes.disk path) path stored lanes.now
          (record { name = method; hash = ref.hash })
    ok (after, ref.hash, new_hash)

  -- `runEvidenceVerify`
  unfoldable pub evidence_verify : World → (state ref : Text) → Check
  unfolding verify new_store
  evidence_verify w state ref = do
    reject_if (is_empty state || is_empty ref) (usage "evidence reference required")
    verify receipts (files (new_store state)) w (record { name = []; hash = ref; path = [] })

  -- `runReviewOpen`: the candidate, the dispatch and the evidence that are reported.
  unfoldable pub review_open : World → (state lane base : Text) → Result (Text × Text × List Text)
  unfolding lane_read frozen_base drifted
  review_open w state lane base = do
    (path, m, hash) ← lane_read lanes w state lane
    reject_if (not (is_frozen m.state)) (new policy_or_transition "review open lifecycle")
    f ← frozen_record m.freeze (new policy_or_transition "review open lifecycle")
    fp ← freeze w m.dispatch.workspace (frozen_base f base) m.dispatch_hash
    reject_if (drifted m fp) (new candidate_or_review "review open candidate drift")
    ok (f.candidate, m.dispatch_hash, hash_list m)

  -- `runReady`: the disk after it, what is reported, and the manifest's hash.
  unfoldable pub ready : World → (state lane base : Text) → Result (World × ReadyRecord × Text)
  unfolding lane_read frozen_base evaluate apply_event new_store load
  ready w state lane base = do
    (path, m, hash) ← lane_read lanes w state lane
    reject_if (not (is_reviewed m.state)) (new policy_or_transition "ready lifecycle")
    f ← frozen_record m.freeze (new policy_or_transition "ready lifecycle")
    reject_if (not (has_review m.review)) (new policy_or_transition "ready lifecycle")
    fp ← freeze w m.dispatch.workspace (frozen_base f base) m.dispatch_hash
    report ← evaluate m fp (some (load receipts (files (new_store state)) w))
    (after, changed, new_hash) ←
        apply_event lanes.library (lanes.disk path) path w lanes.now any_hash Event.mark_ready
          (λ x. x)
    ok (after, report, new_hash)

  -- `runClose`
  unfoldable pub close_lane :
      World → (state lane expected : Text) → Result (World × Manifest × Text)
  unfolding lane_read apply_event
  close_lane w state lane expected = do
    (path, m, hash) ← lane_read lanes w state lane
    reject_if (not (is_ready m.state)) (new policy_or_transition "close lifecycle")
    apply_event lanes.library (lanes.disk path) path w lanes.now
        (optional_hash expected "close manifest prior hash mismatch") Event.close (λ x. x)
