-- ===== src/Command/Decided.antt =====
-- What `freeze`, `evidence add` and `ready` of cmd/provehito did when they succeed.
use native.Mathlib.Omega.{arith}
use provehito.Common.{
  Text, Bool, true, false, not, ◌&&◌, ◌||◌, is_empty, Option, none, some, ◌==◌, eq_iff, ◌≡◌, ◌≢◌,
  refl, sym, ◌∙◌, ap, subst, not-false, if◌then◌else◌,
}
use provehito.Common.Ints.{ℤ, pos, int_eq, int_eq_iff, is_negative}
use provehito.Failure.{Error, Class, new, class_text, code_for, policy_or_transition}
use provehito.Failure.Outcome.{ok, err, reject_if, ok-injective, reject_if-ok, >>=-eq-ok, >>-eq-ok}
use provehito.Lifecycle.{State, Event}
use provehito.Manifest.Model.{Manifest, FreezeRecord}
use provehito.Manifest.Ops.{optional_hash, any_hash, apply_event, record_freeze, with_freeze}
use provehito.Manifest.Swap.{IsApplied, apply_event-IsApplied}
use provehito.Fingerprint.Identity.{Fingerprint}
use provehito.Evidence.Receipt.{result_success}
use provehito.Evidence.Store.{load}
use provehito.Policy.Readiness.{ReadyRecord, evaluate}
use provehito.Policy.Sound.{IsReady, evaluate-IsReady}
use provehito.Command.State.{usage}
use provehito.Command.Lane.{lane_read}
use provehito.Command.Review.{frozen_base}
use provehito.Command.Candidate.{
  Tools, is_frozen, is_active, is_reviewed, has_review, named_result, default_code, evidence_result,
  frozen_record, record_of, new_store, freeze_lane, ready,
}

is_active-is : (s : State) → is_active s ≡ true → s ≡ State.active
is_active-is s h = ground arith

pub is_frozen-is : (s : State) → is_frozen s ≡ true → s ≡ State.frozen
is_frozen-is s h = ground arith

is_reviewed-is : (s : State) → is_reviewed s ≡ true → s ≡ State.reviewed
is_reviewed-is s h = ground arith

pub frozen_record-ok :
    (o : Option FreezeRecord) (e : Error) (f : FreezeRecord) → frozen_record o e ≡ ok f → o ≡ some f
frozen_record-ok none e f h = cc
frozen_record-ok (some g) e f h = ap some (ok-injective h)

-- The code of a result that is accepted is not negative, and a class other than success has a code other than zero.
default_code-known : (class : Text) (n : ℤ) → default_code class ≡ ok n → is_negative n ≡ false
unfolding default_code code_for
default_code-known class n h =
    one_of (class == result_success) (class == class_text Class.candidate_or_review)
      (class == class_text Class.tooling_or_adapter) n h
  where
    one_of :
        (a b c : Bool) (n : ℤ)
        → (if a
            then ok (pos 0)
            else if b
            then ok (pos 50)
            else if c
            then ok (pos 40)
            else err (usage "evidence exit code required"))
          ≡ ok n
        → is_negative n ≡ false
    one_of a b c n h = ground arith

given_or_default :
    (named : Text) (given known : ℤ) (b : Bool)
    → is_negative given ≡ b
    → (if b then default_code named else ok given) ≡ ok known
    → is_negative known ≡ false
given_or_default named given known true i h = default_code-known named known h
given_or_default named given known false i h = subst (λ n. is_negative n ≡ false) (ok-injective h) i

-- The code of a result that `evidence add` accepts is not negative, and it is 0 only for a success.
pub evidence_result-bounded :
    (lowered class named : Text) (code known : ℤ)
    → evidence_result lowered class code ≡ ok (named, known)
    → (is_negative known ≡ false) × (named ≢ result_success → known ≢ pos 0)
unfolding evidence_result
evidence_result-bounded lowered class named code known h =
    let ((name, given), a, h1) =
      >>=-eq-ok (if is_empty class then named_result lowered else ok (class, code)) _ h in
    let (n, b, h2) = >>=-eq-ok (if is_negative given then default_code name else ok given) _ h1 in
    let (r, h3) =
      >>-eq-ok
        (reject_if (not (name == result_success) && int_eq n (pos 0))
          (usage "evidence result exit code"))
        _ h2 in
    let e = ok-injective h3 in
    let within = given_or_default name given n (is_negative given) refl b in
    let nonzero : name ≢ result_success → n ≢ pos 0 = λ x y. x (
      first (name == result_success) (int_eq n (pos 0)) name (eq_iff name result_success).0
        (reject_if-ok _ _ r) ((int_eq_iff n (pos 0)).1 y)) in
    (
      subst (λ k. is_negative k ≡ false) (ap (λ (x : Text × ℤ). x.1) e) within,
      λ x y.
          nonzero (λ z. x (sym (ap (λ (q : Text × ℤ). q.0) e) ∙ z))
            (ap (λ (q : Text × ℤ). q.1) e ∙ y),
    )
  where
    first :
        (a b : Bool) (t : Text)
        → (a ≡ true → t ≡ result_success)
        → (not a && b) ≡ false
        → b ≡ true
        → t ≡ result_success
    first true b t k h i = k refl
    first false true t k h i = cc
    first false false t k h i = cc

module _ {World : Type 0} (tools : Tools World) where
  open tools use {lanes, freeze, receipts, files, print_time}

  -- What a lane that was made ready had: it was reviewed and frozen, and the rule accepted the manifest that was loaded,
  -- the present candidate and the receipts on the disk.
  pub record IsMadeReady (w v : World) (state lane base : Text) (report : ReadyRecord) (hash : Text)
      : Type 0 where
    pub path : Text
    pub before : Manifest
    pub prior : Text
    pub changed : Manifest
    pub frozen : FreezeRecord
    pub current : Fingerprint
    pub loaded : lane_read lanes w state lane ≡ ok (path, before, prior)
    pub reviewed : before.state ≡ State.reviewed
    pub freeze_is : before.freeze ≡ some frozen
    pub candidate :
        freeze w before.dispatch.workspace (frozen_base frozen base) before.dispatch_hash
        ≡ ok current
    pub accepted : IsReady before current (load receipts (files (new_store tools state)) w) report
    pub applied :
        IsApplied lanes.library
          (lanes.disk path)
          path
          w
          lanes.now
          any_hash
          Event.mark_ready
          (λ x. x)
          v
          changed
          hash

  -- A lane that `ready` marked was reviewed and frozen; the rule accepted the loaded manifest with the candidate that Git
  -- reported and the receipts on the disk; and `Apply` swapped in the manifest after `mark-ready`.
  pub ready-IsMadeReady :
      (w v : World) (state lane base : Text) (report : ReadyRecord) (hash : Text)
      → ready tools w state lane base ≡ ok (v, report, hash)
      → IsMadeReady w v state lane base report hash
  unfolding ready
  ready-IsMadeReady w v state lane base report hash h =
      let ((path, m, prior), loaded, h1) = >>=-eq-ok (lane_read lanes w state lane) _ h in
      let (r, h2) =
        >>-eq-ok
          (reject_if (not (is_reviewed m.state)) (new policy_or_transition "ready lifecycle")) _
          h1 in
      let (f, fz, h3) =
        >>=-eq-ok (frozen_record m.freeze (new policy_or_transition "ready lifecycle")) _ h2 in
      let (rv, h4) =
        >>-eq-ok
          (reject_if (not (has_review m.review)) (new policy_or_transition "ready lifecycle")) _
          h3 in
      let (fp, c, h5) =
        >>=-eq-ok (freeze w m.dispatch.workspace (frozen_base f base) m.dispatch_hash) _ h4 in
      let (rep, ev, h6) =
        >>=-eq-ok (evaluate m fp (some (load receipts (files (new_store tools state)) w))) _ h5 in
      let ((after, changed, new_hash), a, h7) =
        >>=-eq-ok
          (apply_event lanes.library (lanes.disk path) path w lanes.now any_hash Event.mark_ready
            (λ x. x))
          _ h6 in
      let e = ok-injective h7 in
      let a2 = a ∙ ap (λ (x : World × ReadyRecord × Text). ok (x.0, changed, x.2)) e in
      record {
        path = path;
        before = m;
        prior = prior;
        changed = changed;
        frozen = f;
        current = fp;
        loaded = loaded;
        reviewed = is_reviewed-is m.state (not-false _ (reject_if-ok _ _ r));
        freeze_is = frozen_record-ok m.freeze _ f fz;
        candidate = c;
        accepted =
            evaluate-IsReady m fp (load receipts (files (new_store tools state)) w)
              (ev ∙ ap (λ (x : World × ReadyRecord × Text). ok x.1) e);
        applied =
            apply_event-IsApplied lanes.library (lanes.disk path) path w lanes.now any_hash
              Event.mark_ready (λ x. x) a2;
      }

  -- What a lane that was frozen had: it was active, and its record is the candidate that Git reported.
  pub record IsFrozenLane (w v : World) (state lane expected base : Text) (m : Manifest)
      (hash : Text) : Type 0 where
    pub path : Text
    pub before : Manifest
    pub prior : Text
    pub candidate : Fingerprint
    pub loaded : lane_read lanes w state lane ≡ ok (path, before, prior)
    pub active : before.state ≡ State.active
    pub reported : freeze w before.dispatch.workspace base before.dispatch_hash ≡ ok candidate
    pub applied :
        IsApplied lanes.library
          (lanes.disk path)
          path
          w
          lanes.now
          (optional_hash expected "freeze manifest prior hash mismatch")
          Event.freeze
          (with_freeze (record_of print_time candidate))
          v
          m
          hash

  -- A lane that `freeze` froze was active, and `Apply` swapped in the manifest with the candidate that Git reported.
  pub freeze_lane-IsFrozenLane :
      (w v : World) (state lane expected base : Text) (m : Manifest) (hash : Text)
      → freeze_lane tools w state lane expected base ≡ ok (v, m, hash)
      → IsFrozenLane w v state lane expected base m hash
  unfolding freeze_lane record_freeze
  freeze_lane-IsFrozenLane w v state lane expected base m hash h =
      let (g, h1) =
        >>-eq-ok (reject_if (is_empty state || is_empty lane) (usage "freeze lane required")) _ h in
      let ((path, before, prior), loaded, h2) = >>=-eq-ok (lane_read lanes w state lane) _ h1 in
      let (r, h3) =
        >>-eq-ok
          (reject_if (not (is_active before.state)) (new policy_or_transition "freeze lifecycle")) _
          h2 in
      let (fp, c, h4) =
        >>=-eq-ok (freeze w before.dispatch.workspace base before.dispatch_hash) _ h3 in
      record {
        path = path;
        before = before;
        prior = prior;
        candidate = fp;
        loaded = loaded;
        active = is_active-is before.state (not-false _ (reject_if-ok _ _ r));
        reported = c;
        applied =
            apply_event-IsApplied lanes.library (lanes.disk path) path w lanes.now
              (optional_hash expected "freeze manifest prior hash mismatch") Event.freeze
              (with_freeze (record_of print_time fp)) h4;
      }
