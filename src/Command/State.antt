-- ===== src/Command/State.antt =====
-- The state root of cmd/provehito/commands_state.go: `requireStateRoot`, `lanePath`, `lanesPath`,
-- `requireWorkspace` and `runInit`.
use provehito.Common.{
  ℕ, leb, nat_eq, String, Text, text, Bool, true, false, not, ◌&&◌, ◌||◌, [], ◌∷◌, ◌++◌, is_empty,
  if◌then◌else◌,
}
use provehito.Failure.{Error, wrap, new, usage_or_schema, integrity}
use provehito.Failure.Outcome.{Result, Check, ok, err, ◌>>=◌, ◌>>◌, reject_if, or_else}
use provehito.Workspace.Paths.{Presence, exists, absent, broken, validate_separation}
use provehito.Evidence.Disk.{Os, FileMode, Made, made, already, unmade, is_dir, private_dir}

-- What the commands take from the system, on the state `World` of the disk: the calls of `os`, those of
-- core/workspace/paths.go, `os.MkdirAll` and the error that `os.Mkdir` returns for a name that exists.
pub record Host (World : Type 0) : Type 0 where
  pub os : Os World
  pub paths : World → provehito.Workspace.Paths.Files FileMode
  pub mkdir_all : World → Text → ℕ → Result World
  pub file_exists : Error

abbrev pub usage : String → Error
usage op = new usage_or_schema op

-- `laneIDPattern`: what has been read of the words between dashes.
pub data Reading : Type 0 where
  word_start in_word refused : Reading

abbrev pub is_word_byte : ℕ → Bool
is_word_byte c = (leb b'a' c && leb c b'z') || (leb b'0' c && leb c b'9')

unfoldable pub read_byte : Reading → ℕ → Reading
read_byte refused c = refused
read_byte word_start c = if is_word_byte c then in_word else refused
read_byte in_word c =
    if is_word_byte c then in_word else if nat_eq c b'-' then word_start else refused

unfoldable pub matches_from : Reading → Text → Bool
unfolding read_byte
matches_from in_word [] = true
matches_from word_start [] = false
matches_from refused [] = false
matches_from r (c ∷ cs) = matches_from (read_byte r c) cs

abbrev pub is_lane_id : Text → Bool
is_lane_id id = matches_from word_start id

abbrev pub state_root_at : Presence FileMode → Check
state_root_at (absent e) = err (new integrity "state root missing")
state_root_at (broken e) = err (wrap integrity "state root inspect" e)
state_root_at (exists mode) = do
  reject_if (not (is_dir mode)) (new integrity "state root is not a directory")
  reject_if (not (nat_eq mode.perm private_dir)) (new integrity "state root mode")

abbrev pub lanes_at : Presence FileMode → Check
lanes_at (absent e) = err (wrap integrity "lanes directory inspect" e)
lanes_at (broken e) = err (wrap integrity "lanes directory inspect" e)
lanes_at (exists mode) = do
  reject_if (not (is_dir mode)) (new integrity "lanes directory")
  reject_if (not (nat_eq mode.perm private_dir)) (new integrity "lanes directory mode")

abbrev pub workspace_at : Presence FileMode → Check
workspace_at (absent e) = err (usage "workspace must exist")
workspace_at (broken e) = err (wrap integrity "workspace inspect" e)
workspace_at (exists mode) = reject_if (not mode.directory) (usage "workspace must be a directory")

-- The first look of `runInit` at the state root, and at one of its directories: whether it exists.
abbrev pub root_before : Presence FileMode → Check
root_before (exists mode) =
    reject_if (not (is_dir mode)) (new integrity "state root is not a directory")
root_before (absent e) = ok tt
root_before (broken e) = err (wrap integrity "state root inspect" e)

abbrev pub child_before : Presence FileMode → Result Bool
child_before (absent e) = ok false
child_before (broken e) = err (wrap integrity "state directory inspect" e)
child_before (exists mode) = do
  reject_if (not (is_dir mode)) (new integrity "state directory is not a directory")
  ok true

module _ {World : Type 0} (host : Host World) where
  open host use {os, paths, mkdir_all, file_exists}

  -- `requireStateRoot`
  unfoldable pub require_state_root : World → Text → Check
  require_state_root w path = do
    reject_if (is_empty path || not (os.is_abs path)) (usage "state root must be an absolute path")
    state_root_at (os.lstat w path)

  -- `lanesPath`
  unfoldable pub lanes_path : World → Text → Result Text
  unfolding require_state_root
  lanes_path w state = do
    require_state_root w state
    lanes_at (os.lstat w (os.join (state ∷ text "lanes" ∷ [])))
    ok (os.join (state ∷ text "lanes" ∷ []))

  -- `lanePath`
  unfoldable pub lane_path : World → Text → Text → Result Text
  unfolding require_state_root lanes_path matches_from
  lane_path w state id = do
    reject_if (not (is_lane_id id)) (usage "lane id must be a lowercase slug")
    require_state_root w state
    lanes ← lanes_path w state
    ok (os.join (lanes ∷ (id ++ text ".json") ∷ []))

  -- `requireWorkspace`
  unfoldable pub require_workspace : World → Text → Check
  require_workspace w path = do
    reject_if (is_empty path) (usage "workspace is required")
    workspace_at ((paths w).stat path)

  -- `os.Mkdir` where a name that exists is an error too.
  abbrev pub new_directory : Made World → Result World
  new_directory (made after) = ok after
  new_directory already = err file_exists
  new_directory (unmade e) = err e

  -- One of the two directories of the state root.
  unfoldable pub init_child : World → Text → Bool → Result World
  init_child w path present = do
    after ←
        if present
        then ok w
        else or_else (wrap integrity "state directory create") (new_directory (os.mkdir w path))
    or_else (wrap integrity "state directory create") (os.chmod after path private_dir)

  -- `runInit` on its flags.
  unfoldable pub init : World → (state workspace : Text) → Result World
  unfolding require_workspace validate_separation init_child
  init w state work = do
    reject_if (is_empty state || not (os.is_abs state))
        (usage "state root must be an absolute path")
    reject_if (is_empty work) (usage "workspace is required")
    require_workspace w work
    validate_separation (paths w) state work
    root_before (os.lstat w state)
    lanes_present ← child_before (os.lstat w (os.join (state ∷ text "lanes" ∷ [])))
    evidence_present ← child_before (os.lstat w (os.join (state ∷ text "evidence" ∷ [])))
    created ← or_else (wrap integrity "state root create") (mkdir_all w state private_dir)
    private ← or_else (wrap integrity "state root mode") (os.chmod created state private_dir)
    with_lanes ← init_child private (os.join (state ∷ text "lanes" ∷ [])) lanes_present
    init_child with_lanes (os.join (state ∷ text "evidence" ∷ [])) evidence_present
