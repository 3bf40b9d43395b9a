-- ===== src/Command/Lane.antt =====
-- `runLane` of cmd/provehito/commands_state.go on its flags: `lane open`, `list`, `validate`, `status` and the
-- transitions.
use provehito.Common.{
  ◌-◌, leb, length, drop, Text, text, Bool, true, false, not, ◌&&◌, ◌||◌, List, [], ◌∷◌, is_empty,
  Option, none, some, any_of, ◌==◌, if◌then◌else◌,
}
use provehito.Common.Ints.{ℤ, pos, is_negative}
use provehito.Failure.{wrap, new, integrity}
use provehito.Failure.Outcome.{Result, Check, ok, err, ◌>>=◌, ◌>>◌, reject_if, or_else}
use provehito.Lifecycle.{State, no_state, Event, apply, at_state, parse_event}
use provehito.Manifest.Model.{Manifest}
use provehito.Manifest.Normalize.{Library}
use provehito.Manifest.Store.{Disk, create, load}
use provehito.Manifest.Ops.{apply_event, required_hash}
use provehito.Workspace.Paths.{validate_separation}
use provehito.Command.State.{Host, usage, is_lane_id, require_workspace, lane_path, lanes_path}

-- `listFlag`
pub record ListFlag : Type 0 where
  pub values : List Text
  pub set : Bool

-- The flags of `lane open`.
pub record OpenFlags : Type 0 where
  pub state : Text
  pub id : Text
  pub workspace : Text
  pub source_control : Text
  pub writer : Text
  pub adapter : Text
  pub family : Text
  pub seat_id : Text
  pub cost_class : Text
  pub review_policy : Text
  pub max_seconds : ℤ
  pub max_output : ℤ
  pub max_memory : ℤ
  pub allowed : ListFlag
  pub forbidden : ListFlag
  pub non_goals : ListFlag
  pub required : ListFlag

-- The loop of `completeDispatch`.
unfoldable pub complete_lists : List ListFlag → Check
complete_lists [] = ok tt
complete_lists (f ∷ fs) = do
  reject_if (not f.set) (usage "lane open requires complete dispatch")
  reject_if (any_of is_empty f.values) (usage "lane open requires nonempty dispatch values")
  complete_lists fs

-- The first test of `completeDispatch`.
abbrev pub is_incomplete : OpenFlags → Bool
is_incomplete f =
    not (is_lane_id f.id)
    || is_empty f.workspace
    || is_empty f.source_control
    || is_empty f.writer
    || is_empty f.adapter
    || is_empty f.family
    || is_empty f.seat_id
    || is_empty f.cost_class
    || is_empty f.review_policy
    || is_negative f.max_seconds
    || is_negative f.max_output
    || is_negative f.max_memory

-- `completeDispatch`
unfoldable pub complete_dispatch : OpenFlags → Check
unfolding complete_lists
complete_dispatch f = do
  reject_if (is_incomplete f) (usage "lane open requires complete dispatch")
  complete_lists (f.allowed ∷ f.forbidden ∷ f.non_goals ∷ f.required ∷ [])

-- A slice that nothing was appended to is nil.
abbrev pub slice_of : List Text → Option (List Text)
slice_of [] = none
slice_of (x ∷ xs) = some (x ∷ xs)

-- The manifest of `runLaneOpen` in a state.
abbrev pub opened_lane : OpenFlags → State → Manifest
opened_lane f s = record {
  schema_version = pos 1;
  lane_id = f.id;
  state = s;
  blocked_from = no_state;
  dispatch = record {
    workspace = f.workspace;
    source_control = f.source_control;
    writer = f.writer;
    adapter = f.adapter;
    family = f.family;
    seat_id = f.seat_id;
    cost_class = f.cost_class;
    allowed_paths = slice_of f.allowed.values;
    forbidden_paths = slice_of f.forbidden.values;
    non_goals = slice_of f.non_goals.values;
    required_checks = slice_of f.required.values;
    review_policy = f.review_policy;
    max_seconds = f.max_seconds;
    max_output_bytes = f.max_output;
    max_memory_bytes = f.max_memory;
  };
  dispatch_hash = [];
  freeze = none;
  review = none;
  evidence = [];
  failures = [];
  created_at = [];
  updated_at = [];
  external_actions_human_only = true;
}

-- An entry of `os.ReadDir`.
pub record Entry : Type 0 where
  pub name : Text
  pub directory : Bool

pub record LaneSummary : Type 0 where
  pub lane_id : Text
  pub state : State
  pub updated_at : Text
  pub blocked_from : State

abbrev pub summary : Manifest → LaneSummary
summary m = record {
  lane_id = m.lane_id;
  state = m.state;
  updated_at = m.updated_at;
  blocked_from = m.blocked_from;
}

-- `strings.HasSuffix`
abbrev pub has_suffix : Text → Text → Bool
has_suffix s t = leb (length t) (length s) && drop (length s - length t) s == t

abbrev pub is_lane_file : Entry → Bool
is_lane_file e = not e.directory && has_suffix e.name (text ".json")

-- `operationEvent`
unfoldable pub operation_event : Text → Text
operation_event op =
    if op == text "block"
    then text "block"
    else if op == text "resume"
    then text "resume"
    else if op == text "abandon"
    then text "abandon"
    else text "incident"

-- An event that did not parse is the empty one.
abbrev pub event_or_none : Result Event → Event
event_or_none (ok e) = e
event_or_none (err e) = Event.other []

-- The manifests of core/manifest/store.go by their paths, `os.ReadDir`, `sort.Slice` on rows, and the time.
pub record Lanes (World : Type 0) : Type 0 where
  pub host : Host World
  pub library : Library
  pub disk : Text → Disk World
  pub read_dir : World → Text → Result (List Entry)
  pub sort_rows : List LaneSummary → List LaneSummary
  pub now : Text

module _ {World : Type 0} (lanes : Lanes World) where
  open lanes use {host, library, disk, read_dir, sort_rows, now}

  -- `runLaneOpen`: the disk after it, the path and the hash that are reported.
  unfoldable pub lane_open : World → OpenFlags → Result (World × Text × Text)
  unfolding complete_dispatch require_workspace lane_path validate_separation apply create
  lane_open w f = do
    reject_if (not (is_lane_id f.id)) (usage "lane id must be a lowercase slug")
    complete_dispatch f
    require_workspace host w f.workspace
    path ← lane_path host w f.state f.id
    validate_separation (host.paths w) f.state f.workspace
    snapshot ← apply (at_state State.planned) Event.activate
    (after, hash) ← create library (disk path) path w now (opened_lane f snapshot.state)
    ok (after, path, hash)

  -- `loadLane` and `runLaneRead`
  unfoldable pub lane_read : World → (state id : Text) → Result (Text × Manifest × Text)
  unfolding lane_path load
  lane_read w state id = do
    path ← lane_path host w state id
    loaded ← load library (disk path) path w
    ok (path, loaded.0, loaded.1)

  abbrev pub rows_after :
      Bool → Result (Manifest × Text) → Result (List LaneSummary) → Result (List LaneSummary)
  rows_after false loaded rest = rest
  rows_after true loaded rest = loaded >>= λ m. rest >>= λ rows. ok (summary m.0 ∷ rows)

  -- The loop of `runLaneList`.
  unfoldable pub lane_rows : World → Text → List Entry → Result (List LaneSummary)
  unfolding load
  lane_rows w directory [] = ok []
  lane_rows w directory (e ∷ es) =
      let path = host.os.join (directory ∷ e.name ∷ []) in
      rows_after (is_lane_file e) (load library (disk path) path w) (lane_rows w directory es)

  -- `runLaneList`
  unfoldable pub lane_list : World → Text → Result (List LaneSummary)
  unfolding lanes_path lane_rows
  lane_list w state = do
    directory ← lanes_path host w state
    entries ← or_else (wrap integrity "lanes directory read") (read_dir w directory)
    rows ← lane_rows w directory entries
    ok (sort_rows rows)

  -- `runLaneTransition`
  unfoldable pub lane_transition :
      World → Text → (state id expected : Text) → Result (World × Manifest × Text)
  unfolding lane_path parse_event operation_event apply_event
  lane_transition w operation state id expected = do
    reject_if (is_empty expected) (new integrity "expected prior hash required")
    path ← lane_path host w state id
    apply_event library (disk path) path w now (required_hash expected)
        (event_or_none (parse_event (operation_event operation))) (λ m. m)
