-- ===== src/Workspace/Paths.antt =====
-- core/workspace/paths.go: canonical paths, identity of files, containment and separation. The functions of
-- `path/filepath` and `os` are parameters.
use provehito.Common.{
  ℕ, zero, suc, Text, text, Bool, true, false, not, ◌&&◌, List, [], ◌∷◌, is_empty, has_prefix,
  length, ◌==◌, if◌then◌else◌,
}
use provehito.Failure.{Error, Class, new, wrap, plain}
use provehito.Failure.Fuel.{Fueled, unfinished, failed, returned, result}
use provehito.Failure.Outcome.{Result, Check, ok, err, or_else, reject_if, ◌>>=◌, ◌>>◌}

-- What a file system call says of a path: it is there, `os.IsNotExist` holds of the error, or another error.
pub data Presence {ℓ} (Info : Type ℓ) : Type ℓ where
  exists : Info → Presence Info
  absent : Error → Presence Info
  broken : Error → Presence Info

pub record Files (Info : Type 0) : Type 0 where
  pub abs : Text → Result Text
  pub clean : Text → Text
  pub join : Text → Text → Text
  pub dir : Text → Text
  pub base : Text → Text
  pub rel : Text → Text → Result Text
  pub is_abs : Text → Bool
  pub lstat : Text → Presence Info
  pub stat : Text → Presence Info
  pub eval_symlinks : Text → Result Text
  pub same_file : Info → Info → Bool

abbrev pub not_separate : Error
not_separate = new Class.integrity "workspace state separation"

module _ {Info : Type 0} (files : Files Info) where
  open files use {abs, clean, join, dir, base, rel, is_abs, lstat, stat, eval_symlinks, same_file}

  -- One round of the loop of `resolveExistingPrefix`, where `rest` is what the later rounds return. The path
  -- in the text of the last error is left out.
  unfoldable pub prefix_at :
      Presence Info
      → (current : Text) → (suffix : List Text) → Fueled (Text × List Text)
      → Fueled (Text × List Text)
  prefix_at (exists info) current suffix rest =
      returned (eval_symlinks current >>= λ resolved. ok (resolved, suffix))
  prefix_at (broken e) current suffix rest = failed e
  prefix_at (absent e) current suffix rest =
      if dir current == current then failed (plain "no existing path prefix") else rest

  -- The loop of `resolveExistingPrefix`; the last missing component stands first in the list.
  unfoldable pub resolve_prefix :
      (fuel : ℕ) → (current : Text) → (suffix : List Text) → Fueled (Text × List Text)
  unfolding prefix_at
  resolve_prefix zero current suffix = unfinished
  resolve_prefix (suc fuel) current suffix =
      prefix_at (lstat current) current suffix
        (resolve_prefix fuel (dir current) (base current ∷ suffix))

  -- The fuel is more than the length of the path.
  unfoldable pub resolve_existing_prefix : Text → Result (Text × List Text)
  unfolding resolve_prefix
  resolve_existing_prefix path = result (resolve_prefix (suc (length (clean path))) (clean path) [])

  abbrev join_all : Text → List Text → Text
  join_all resolved [] = resolved
  join_all resolved (s ∷ suffix) = join_all (join resolved s) suffix

  -- `CanonicalPath`
  unfoldable pub canonical_path : Text → Result Text
  unfolding resolve_existing_prefix
  canonical_path path =
      if is_empty path then err (new Class.usage_or_schema "workspace path") else (do
        full ← or_else (wrap Class.integrity "workspace absolute path") (abs path)
        found ←
            or_else (wrap Class.integrity "workspace canonical path")
              (resolve_existing_prefix (clean full))
        ok (clean (join_all found.0 found.1)))

  -- The end of `SamePath`, on what `os.Stat` says of the two paths.
  abbrev pub same_object : Presence Info → Presence Info → Result Bool
  same_object (absent e) b = ok false
  same_object (broken e) b = err (wrap Class.integrity "workspace path stat" e)
  same_object (exists i) (absent e) = ok false
  same_object (exists i) (broken e) = err (wrap Class.integrity "workspace path stat" e)
  same_object (exists i) (exists j) = ok (same_file i j)

  -- `SamePath`
  unfoldable pub same_path : Text → Text → Result Bool
  unfolding canonical_path
  same_path a b = do
    ca ← canonical_path a
    cb ← canonical_path b
    if clean ca == clean cb then ok true else same_object (stat ca) (stat cb)

  -- One round at the directory `next`, where `rest` is what the later rounds return.
  unfoldable pub walk_at : Presence Info → (parent next : Text) → Result Bool → Result Bool
  unfolding same_path
  walk_at (absent e) parent next rest = rest
  walk_at (broken e) parent next rest = err (wrap Class.integrity "workspace path stat" e)
  walk_at (exists info) parent next rest =
      same_path next parent >>= λ same. if same then ok true else rest

  -- The loop of `pathContains` over the directories above `current`.
  unfoldable pub walk_up : (fuel : ℕ) → (parent current : Text) → Result Bool
  unfolding walk_at
  walk_up zero parent current = err (plain "fuel")
  walk_up (suc fuel) parent current =
      let next = dir current in
      let rest = walk_up fuel parent next in
      if next == current then ok false else walk_at (lstat next) parent next rest

  -- `rel` leads down, by its text.
  unfoldable pub leads_down : Text → Bool
  unfolding has_prefix
  leads_down r =
      not (r == text ".")
      && not (r == text "..")
      && not (has_prefix r (text "../"))
      && not (is_abs r)

  unfoldable pub contains_by : Text → Text → Text → Result Bool
  unfolding leads_down walk_up
  contains_by parent child r =
      if leads_down r then ok true else walk_up (suc (length (clean child))) parent (clean child)

  -- `pathContains`
  unfoldable pub path_contains : Text → Text → Result Bool
  unfolding same_path contains_by
  path_contains parent child = do
    same ← same_path parent child
    if same then ok false else rel parent child >>= contains_by parent child

  -- `ValidateSeparation`
  unfoldable pub validate_separation : Text → Text → Check
  unfolding canonical_path same_path path_contains
  validate_separation state_root workspace_path = do
    state ← canonical_path state_root
    work ← canonical_path workspace_path
    same ← same_path state work
    reject_if same not_separate
    contains ← path_contains state work
    reject_if contains not_separate
    contained ← path_contains work state
    reject_if contained not_separate

  -- `ResolveContained`
  unfoldable pub resolve_contained : Text → Text → Result Text
  unfolding canonical_path same_path path_contains
  resolve_contained root candidate = do
    canonical_root ← canonical_path root
    reject_if (is_empty candidate) (new Class.usage_or_schema "workspace contained path")
    resolved ←
        canonical_path (if is_abs candidate then candidate else join canonical_root candidate)
    same ← same_path canonical_root resolved
    contains ← (if same then ok true else path_contains canonical_root resolved)
    if contains then ok resolved else err (new Class.integrity "workspace containment")
