-- ===== src/Command/Opened.antt =====
-- What the commands of `runLane` (cmd/provehito/commands_state.go) checked when they succeed.
use native.Mathlib.Omega.{arith}
use provehito.Common.{
  ◌==◌, Text, text, Bool, true, false, not, ◌||◌, List, [], ◌∷◌, is_empty, any_of, All, ◌≡◌, ◌≢◌,
  inl, inr, refl, sym, ◌∙◌, ap, subst, not-false, if◌then◌else◌,
}
use provehito.Common.Ints.{is_negative}
use provehito.Failure.{new, integrity}
use provehito.Failure.Outcome.{ok, reject_if, ok-injective, reject_if-ok, >>=-eq-ok, >>-eq-ok}
use provehito.Lifecycle.{State, Event, apply, parse_event, find_event, event_text}
use provehito.Lifecycle.Side.{IsSide, IsSideEvent, apply-IsSide}
use provehito.Manifest.Model.{Manifest, lane_snapshot}
use provehito.Manifest.Store.{create, load}
use provehito.Manifest.Ops.{required_hash}
use provehito.Manifest.Swap.{apply_event-IsApplied}
use provehito.Workspace.Paths.{validate_separation}
use provehito.Command.State.{usage, is_lane_id, require_workspace, lane_path}
use provehito.Command.Lane.{
  is_incomplete, ListFlag, OpenFlags, complete_lists, complete_dispatch, opened_lane,
  operation_event, event_or_none, Lanes, lane_open, lane_transition,
}

abbrev event_of : Text → Event
event_of op = event_or_none (parse_event (operation_event op))

event_of_either :
    (op : Text) (a b c : Bool)
    → IsSideEvent (
        event_or_none (
          parse_event (
            if a
            then text "block"
            else if b
            then text "resume"
            else if c
            then text "abandon"
            else text "incident")))
unfolding parse_event find_event event_text text ◌==◌
event_of_either op true b c = inl refl
event_of_either op false true c = inr (inl refl)
event_of_either op false false true = inr (inr (inl refl))
event_of_either op false false false = inr (inr (inr refl))

event_of-IsSide : (op : Text) → IsSideEvent (event_of op)
unfolding operation_event
event_of-IsSide op =
    event_of_either op (op == text "block") (op == text "resume") (op == text "abandon")

-- The texts of a dispatch.
abbrev pub texts_of : OpenFlags → List Text
texts_of f =
    f.workspace ∷ f.source_control ∷ f.writer ∷ f.adapter ∷ f.family ∷ f.seat_id ∷ f.cost_class
    ∷ f.review_policy ∷ []

nonempty : (t : Text) → is_empty t ≡ false → t ≢ []
nonempty t h p = let e : true ≡ false = sym (ap is_empty p) ∙ h in cc

is_incomplete-given :
    (f : OpenFlags)
    → is_incomplete f ≡ false
    → All (λ t. is_empty t ≡ false) (texts_of f)
      × All (λ n. is_negative n ≡ false) (f.max_seconds ∷ f.max_output ∷ f.max_memory ∷ [])
is_incomplete-given f h =
    all_false (is_lane_id f.id) (is_empty f.workspace) (is_empty f.source_control)
      (is_empty f.writer) (is_empty f.adapter) (is_empty f.family) (is_empty f.seat_id)
      (is_empty f.cost_class) (is_empty f.review_policy) (is_negative f.max_seconds)
      (is_negative f.max_output) (is_negative f.max_memory) h
  where
    all_false :
        (a b c d e f g h i j k l : Bool)
        → (not a || b || c || d || e || f || g || h || i || j || k || l) ≡ false
        → All (λ x. x ≡ false) (b ∷ c ∷ d ∷ e ∷ f ∷ g ∷ h ∷ i ∷ [])
          × All (λ x. x ≡ false) (j ∷ k ∷ l ∷ [])
    all_false a b c d e f g h i j k l p = (
      (
        ground arith,
        (
          ground arith,
          (
            ground arith,
            (ground arith, (ground arith, (ground arith, (ground arith, (ground arith, tt))))),
          ),
        ),
      ),
      (ground arith, (ground arith, (ground arith, tt))),
    )

nonempty_each : (ts : List Text) → All (λ t. is_empty t ≡ false) ts → All (λ t. t ≢ []) ts
nonempty_each [] h = tt
nonempty_each (t ∷ ts) h = (nonempty t h.0, nonempty_each ts h.1)

module _ {World : Type 0} (lanes : Lanes World) where
  open lanes use {host, library, disk, read_dir, sort_rows, now}

  -- A transition command of `lane` that succeeds found the lane under the hash that the caller gave, and only blocked
  -- it, gave it up or brought it back to where it was blocked.
  pub lane_transition-IsSide :
      (w v : World) (operation state id expected hash : Text) (m : Manifest)
      → lane_transition lanes w operation state id expected ≡ ok (v, m, hash)
      → (path : Text) × (before : Manifest) × (lane_path host w state id ≡ ok path)
        × (load library (disk path) path w ≡ ok (before, expected))
        × IsSide (lane_snapshot before) (lane_snapshot m)
  unfolding lane_transition
  lane_transition-IsSide w v operation state id expected hash m h =
      let (given, h1) =
        >>-eq-ok (reject_if (is_empty expected) (new integrity "expected prior hash required")) _
          h in
      let (path, p, h2) = >>=-eq-ok (lane_path host w state id) _ h1 in
      let a =
        apply_event-IsApplied library (disk path) path w now (required_hash expected)
          (event_of operation) (λ x. x) h2 in
      (
        path,
        a.before,
        p,
        a.loaded ∙ ap (λ x. ok (a.before, x)) (sym (a.matched (a.needed refl))),
        subst (λ x. IsSide (lane_snapshot a.before) (lane_snapshot x)) (sym a.result)
            (apply-IsSide (lane_snapshot a.before) a.snapshot (event_of operation)
              (event_of-IsSide operation) a.allowed),
      )

  -- What a lane that was opened had: a slug, a dispatch without an empty value, and its own place.
  pub record IsOpened (w v : World) (f : OpenFlags) (path hash : Text) : Type 0 where
    pub named : is_lane_id f.id ≡ true
    pub texts : All (λ t. t ≢ []) (texts_of f)
    pub limits : All (λ n. is_negative n ≡ false) (f.max_seconds ∷ f.max_output ∷ f.max_memory ∷ [])
    pub lists :
        All
          (λ (l : ListFlag). (l.set ≡ true) × (any_of is_empty l.values ≡ false))
          (f.allowed ∷ f.forbidden ∷ f.non_goals ∷ f.required ∷ [])
    pub placed : lane_path host w f.state f.id ≡ ok path
    pub apart : validate_separation (host.paths w) f.state f.workspace ≡ ok tt
    pub created : create library (disk path) path w now (opened_lane f State.active) ≡ ok (v, hash)

  complete_lists-set :
      (fs : List ListFlag)
      → complete_lists fs ≡ ok tt
      → All (λ (l : ListFlag). (l.set ≡ true) × (any_of is_empty l.values ≡ false)) fs
  unfolding complete_lists
  complete_lists-set [] h = tt
  complete_lists-set (f ∷ fs) h =
      let (a, h1) =
        >>-eq-ok (reject_if (not f.set) (usage "lane open requires complete dispatch")) _ h in
      let (b, h2) =
        >>-eq-ok
          (reject_if (any_of is_empty f.values)
            (usage "lane open requires nonempty dispatch values"))
          _ h1 in
      ((not-false f.set (reject_if-ok _ _ a), reject_if-ok _ _ b), complete_lists-set fs h2)

  -- A lane that `lane open` created is active, and had a slug, a complete dispatch and a workspace apart from the state root.
  pub lane_open-IsOpened :
      (w v : World) (f : OpenFlags) (path hash : Text)
      → lane_open lanes w f ≡ ok (v, path, hash)
      → IsOpened w v f path hash
  unfolding lane_open complete_dispatch apply
  lane_open-IsOpened w v f path hash h =
      let (slug, h1) =
        >>-eq-ok (reject_if (not (is_lane_id f.id)) (usage "lane id must be a lowercase slug")) _
          h in
      let (complete, h2) = >>-eq-ok (complete_dispatch f) _ h1 in
      let (there, h3) = >>-eq-ok (require_workspace host w f.workspace) _ h2 in
      let (p, placed, h4) = >>=-eq-ok (lane_path host w f.state f.id) _ h3 in
      let (apart, h5) = >>-eq-ok (validate_separation (host.paths w) f.state f.workspace) _ h4 in
      let ((after, got), created, h6) =
        >>=-eq-ok (create library (disk p) p w now (opened_lane f State.active)) _ h5 in
      let e = ok-injective h6 in
      let (whole, listed) =
        >>-eq-ok (reject_if (is_incomplete f) (usage "lane open requires complete dispatch")) _
          complete in
      let (given, within) = is_incomplete-given f (reject_if-ok _ _ whole) in
      let same : p ≡ path = ap (λ (x : World × Text × Text). x.1) e in
      record {
        named = not-false _ (reject_if-ok _ _ slug);
        texts = nonempty_each (texts_of f) given;
        limits = within;
        lists = complete_lists-set (f.allowed ∷ f.forbidden ∷ f.non_goals ∷ f.required ∷ []) listed;
        placed = placed ∙ ap ok same;
        apart = apart;
        created =
            subst (λ x. create library (disk x) x w now (opened_lane f State.active) ≡ ok (v, hash))
              same (created ∙ ap (λ (x : World × Text × Text). ok (x.0, x.2)) e);
      }
