-- ===== src/Command/Receipted.antt =====
-- What `evidence add` of cmd/provehito/commands_evidence.go did when it succeeds.
use provehito.Common.{
  ◌++◌, text, if◌then◌else◌, none, ◌∷◌, ◌↔◌, [], Text, false, not, ◌||◌, is_empty, some, any_of,
  ◌==◌, ◌≡◌, ◌≢◌, refl, sym, ◌∙◌, ap, subst, not-false,
}
use provehito.Common.Ints.{ℤ, pos}
use provehito.Failure.{wrap, usage_or_schema, new, policy_or_transition, integrity}
use provehito.Failure.Outcome.{
  or_else-ok, or_else, ok, reject_if, ok-injective, reject_if-ok, >>=-eq-ok, >>-eq-ok,
}
use provehito.Lifecycle.{State}
use provehito.Manifest.Model.{Manifest, FreezeRecord, EvidenceReference}
use provehito.Manifest.Ops.{any_hash, check, mutate_fields, add_evidence, with_evidence}
use provehito.Manifest.Swap.{IsSwap, update-IsSwap}
use provehito.Manifest.Store.{load, update}
use provehito.Evidence.Receipt.{Reference, Receipt, result_success, validate_input}
use provehito.Evidence.Bytes.{Library, sealed_receipt}
use provehito.Evidence.Store.{add, Files}
use provehito.Evidence.Address.{validate_input-success}
use provehito.Command.State.{usage}
use provehito.Command.Lane.{lane_read}
use provehito.Command.Candidate.{
  Tools, is_frozen, evidence_result, frozen_record, manual_receipt, new_store, evidence_add,
}
use provehito.Command.Typed.{IsTyped, evidence_result-given, evidence_result-unnamed}
use provehito.Command.Decided.{is_frozen-is, frozen_record-ok, evidence_result-bounded}

-- A receipt that the store has added has exit code zero exactly when its class is SUCCESS.
add-success :
    {World : Type 0} (lib : Library) (fs : Files World) (root : Text) (w : World) (now : Text)
    (input : Receipt) {x : World × Reference}
    → add lib fs root w now input ≡ ok x
    → (input.exit_code ≡ pos 0) ↔ (input.result_class ≡ result_success)
unfolding add sealed_receipt
add-success lib fs root w now input h =
    let (r, h1) =
      >>-eq-ok (reject_if (is_empty root) (new usage_or_schema "evidence store root")) _ h in
    let (s, sealed, h2) = >>=-eq-ok (sealed_receipt lib now input) _ h1 in
    let (v, h3) =
      >>-eq-ok (or_else (wrap usage_or_schema "evidence receipt") (validate_input input)) _
        sealed in
    validate_input-success input (or_else-ok _ _ v)

-- What the receipt of `evidence add` says: the method, the probe, the lane and its frozen candidate, the class and the code of the
-- result, with no seat and no artifacts.
pub record IsManual (method probe named : Text) (known : ℤ) (m : Manifest) (f : FreezeRecord)
    (r : Receipt) : Type 0 where
  pub by_method : r.method_id ≡ method
  pub told : probe ≢ [] → r.probe ≡ probe
  pub untold : probe ≡ [] → r.probe ≡ text "manual evidence: " ++ method
  pub of_lane : r.manifest_hash ≡ m.dispatch_hash
  pub of_candidate : r.candidate_hash ≡ f.candidate
  pub class : r.result_class ≡ named
  pub code : r.exit_code ≡ known
  pub no_seat : r.seat_id ≡ []
  pub no_artifacts : r.artifacts ≡ none

probe-told :
    (method probe : Text)
    → probe ≢ []
    → (if is_empty probe then text "manual evidence: " ++ method else probe) ≡ probe
probe-told method [] n = absurd (n refl)
probe-told method (c ∷ cs) n = refl

manual_receipt-IsManual :
    (method probe named : Text) (known : ℤ) (m : Manifest) (f : FreezeRecord)
    → IsManual method probe named known m f (manual_receipt method probe m f (named, known))
manual_receipt-IsManual method probe named known m f = record {
  by_method = refl;
  told = probe-told method probe;
  untold = λ e. rw e refl;
  of_lane = refl;
  of_candidate = refl;
  class = refl;
  code = refl;
  no_seat = refl;
  no_artifacts = refl;
}

module _ {World : Type 0} (tools : Tools World) where
  open tools use {lanes, receipts, files, lower}

  -- The lane was frozen with no receipt of the method, the stored receipt is of the lane, the frozen candidate and the
  -- method, with the class and the code that the flags give, and the manifest on the disk gained the reference to it and nothing else.
  pub record IsReceipted (w v : World) (state lane method probe result class : Text) (code : ℤ)
      (receipt hash : Text) : Type 0 where
    pub path : Text
    pub before : Manifest
    pub prior : Text
    pub frozen : FreezeRecord
    pub named : Text
    pub known : ℤ
    pub stored : World
    pub reference : Reference
    pub current : Manifest
    pub expected : Text
    pub loaded : lane_read lanes w state lane ≡ ok (path, before, prior)
    pub is_frozen_lane : before.state ≡ State.frozen
    pub freeze_is : before.freeze ≡ some frozen
    pub typed : IsTyped (lower result) class named code known
    pub new_method : any_of (λ (e : EvidenceReference). e.name == method) before.evidence ≡ false
    pub new_receipt : any_of (λ (e : EvidenceReference). e.hash == receipt) before.evidence ≡ false
    pub input : Receipt
    pub said : IsManual method probe named known before frozen input
    pub added :
        add receipts (files (new_store tools state)) (new_store tools state) w lanes.now input
        ≡ ok (stored, reference)
    pub reported : reference.hash ≡ receipt
    pub reloaded : load lanes.library (lanes.disk path) path stored ≡ ok (current, expected)
    pub swapped :
        IsSwap lanes.library
          (lanes.disk path)
          path
          stored
          lanes.now
          expected
          (with_evidence (record { name = method; hash = receipt }) current)
          v
          hash

  add_evidence-IsSwap :
      (path : Text) (w v : World) (r : EvidenceReference) (m : Manifest) (hash : Text)
      → add_evidence lanes.library (lanes.disk path) path w lanes.now r ≡ ok (v, m, hash)
      → (current : Manifest) × (expected : Text) × (load lanes.library (lanes.disk path) path w
          ≡ ok (current, expected))
        × IsSwap lanes.library
            (lanes.disk path)
            path
            w
            lanes.now
            expected
            (with_evidence r current)
            v
            hash
  unfolding add_evidence mutate_fields
  add_evidence-IsSwap path w v r m hash h =
      let ((current, expected), l, h1) =
        >>=-eq-ok (load lanes.library (lanes.disk path) path w) _ h in
      let (c, h2) = >>-eq-ok (check any_hash expected) _ h1 in
      let ((after, got), u, h3) =
        >>=-eq-ok
          (update lanes.library (lanes.disk path) path w lanes.now expected
            (with_evidence r current))
          _ h2 in
      let e = ok-injective h3 in
      (
        current,
        expected,
        l,
        update-IsSwap lanes.library (lanes.disk path) path w lanes.now expected
            (with_evidence r current) (u ∙ ap (λ (x : World × Manifest × Text). ok (x.0, x.2)) e),
      )

  -- A successful `evidence add` was on a frozen lane without a receipt of the method, stored a receipt of the lane's
  -- dispatch hash, its frozen candidate, the method and the probe, with the class and the code that the flags give, or
  -- else the word of the result (a code that is not negative, and 0 exactly for SUCCESS), and swapped in the manifest
  -- then on the disk with the reference to it.
  pub evidence_add-IsReceipted :
      (w v : World) (state lane method probe result class : Text) (code : ℤ) (receipt hash : Text)
      → evidence_add tools w state lane method probe result class code ≡ ok (v, receipt, hash)
      → IsReceipted w v state lane method probe result class code receipt hash
  unfolding evidence_add
  evidence_add-IsReceipted w v state lane method probe result class code receipt hash h =
      let (g, h1) =
        >>-eq-ok
          (reject_if (is_empty state || is_empty lane || is_empty method)
            (usage "evidence method and lane required"))
          _ h in
      let ((path, m, prior), loaded, h2) = >>=-eq-ok (lane_read lanes w state lane) _ h1 in
      let (r, h3) =
        >>-eq-ok
          (reject_if (not (is_frozen m.state)) (new policy_or_transition "evidence add lifecycle"))
          _ h2 in
      let (f, fz, h4) =
        >>=-eq-ok (frozen_record m.freeze (new integrity "evidence add freeze")) _ h3 in
      let ((named, known), t, h5) = >>=-eq-ok (evidence_result (lower result) class code) _ h4 in
      let (d, h6) =
        >>-eq-ok
          (reject_if (any_of (λ (e : EvidenceReference). e.name == method) m.evidence)
            (new policy_or_transition "duplicate evidence"))
          _ h5 in
      let ((stored, ref), a, h7) =
        >>=-eq-ok
          (add receipts (files (new_store tools state)) (new_store tools state) w lanes.now
            (manual_receipt method probe m f (named, known)))
          _ h6 in
      let (d2, h8) =
        >>-eq-ok
          (reject_if (any_of (λ (e : EvidenceReference). e.hash == ref.hash) m.evidence)
            (new policy_or_transition "duplicate evidence"))
          _ h7 in
      let ((after, changed, new_hash), b, h9) =
        >>=-eq-ok
          (add_evidence lanes.library (lanes.disk path) path stored lanes.now
            (record { name = method; hash = ref.hash }))
          _ h8 in
      let e = ok-injective h9 in
      let same : ref.hash ≡ receipt = ap (λ (x : World × Text × Text). x.1) e in
      let (current, expected, l, s) =
        add_evidence-IsSwap path stored v (record { name = method; hash = ref.hash }) changed hash
          (b ∙ ap (λ (x : World × Text × Text). ok (x.0, changed, x.2)) e) in
      record {
        path = path;
        before = m;
        prior = prior;
        frozen = f;
        named = named;
        known = known;
        stored = stored;
        reference = ref;
        current = current;
        expected = expected;
        loaded = loaded;
        is_frozen_lane = is_frozen-is m.state (not-false _ (reject_if-ok _ _ r));
        freeze_is = frozen_record-ok m.freeze _ f fz;
        typed = record {
          typed = t;
          given = evidence_result-given (lower result) class named code known t;
          unnamed = evidence_result-unnamed (lower result) class named code known t;
          in_range = (evidence_result-bounded (lower result) class named code known t).0;
          fits =
              add-success receipts (files (new_store tools state)) (new_store tools state) w
                lanes.now (manual_receipt method probe m f (named, known)) a;
        };
        new_method = reject_if-ok _ _ d;
        new_receipt =
            ap (λ x. any_of (λ (e : EvidenceReference). e.hash == x) m.evidence) (sym same)
            ∙ reject_if-ok _ _ d2;
        input = manual_receipt method probe m f (named, known);
        said = manual_receipt-IsManual method probe named known m f;
        added = a;
        reported = same;
        reloaded = l;
        swapped =
            subst
              (λ x.
                IsSwap lanes.library (lanes.disk path) path stored lanes.now expected
                  (with_evidence (record { name = method; hash = x }) current) v hash)
              same s;
      }
