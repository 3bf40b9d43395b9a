-- ===== src/Evidence/Store.antt =====
-- `Add`, `Load` and `Verify` of core/evidence/store.go, with the paths they use.
use provehito.Common.{
  Text, text, not, ◌&&◌, List, [], ◌∷◌, ◌++◌, is_empty, take, ◌==◌, if◌then◌else◌,
}
use provehito.Failure.{Error, wrap, new, usage_or_schema, integrity, is_hash, is}
use provehito.Failure.Outcome.{Result, Check, ok, ◌>>=◌, ◌>>◌, reject_if, or_else}
use provehito.Evidence.Receipt.{Reference, Receipt}
use provehito.Evidence.Bytes.{Library, decode_receipt, sealed_receipt}

-- What comes of linking the bytes to a name: a new file or an error, or a name that exists, with the
-- disk while the temporary file is there and after its removal.
pub data Created (World : Type 0) : Type 0 where
  fresh : Result World → Created World
  taken : (during after : World) → Created World

-- What the store takes from `path/filepath` and the file system, where a check reads or changes
-- directories: the root that `rootPath` accepts, `filepath.Join` and `filepath.Dir`, the walks over
-- the parents (`checkParents`, `ensureParents`), the bytes of a private file, and the creation of a
-- file under a new name. `Disk` implements it.
pub record Files (World : Type 0) : Type 0 where
  pub root_path : World → Result Text
  pub join : List Text → Text
  pub dir : Text → Text
  pub check_parents : World → Text → Check
  pub ensure_parents : World → Text → Result World
  pub read_private : World → Text → Result Text
  pub create_file : World → Text → Text → Created World

-- The error of `pathFor` as `validateReference` passes it on.
unfoldable pub path_error : Error → Error
unfolding is
path_error e = if is e usage_or_schema then wrap integrity "evidence reference path" e else e

module _ {World : Type 0} (lib : Library) (files : Files World) where
  open files use {root_path, join, dir, check_parents, ensure_parents, read_private, create_file}

  -- `pathFor`
  unfoldable pub path_for : World → Text → Result Text
  unfolding is_hash
  path_for w hash = do
    reject_if (not (is_hash hash)) (new usage_or_schema "evidence hash")
    root ← root_path w
    ok (join (root ∷ text "evidence" ∷ text "sha256" ∷ take 2 hash ∷ (hash ++ text ".json") ∷ []))

  -- `validateReference`
  unfoldable pub validate_reference : World → Reference → Result Text
  unfolding is_hash path_error path_for
  validate_reference w ref = do
    reject_if (not (is_hash ref.hash)) (new integrity "evidence reference hash")
    path ← or_else path_error (path_for w ref.hash)
    reject_if (not (is_empty ref.path) && not (ref.path == path))
        (new integrity "evidence reference path")
    check_parents w (dir path)
    ok path

  -- `Load`
  unfoldable pub load : World → Reference → Result Receipt
  unfolding validate_reference decode_receipt
  load w ref = do
    path ← validate_reference w ref
    bytes ← or_else (wrap integrity "evidence load") (read_private w path)
    r ← decode_receipt lib bytes
    reject_if (not (r.canonical_hash == ref.hash)) (new integrity "evidence reference hash")
    ok r

  -- `Verify`
  unfoldable pub verify : World → Reference → Check
  unfolding load
  verify w ref = do r ← load w ref; ok tt

  -- `compareExisting`
  unfoldable pub compare_existing : World → Text → Text → Check
  compare_existing w path want = do
    got ← or_else (wrap integrity "evidence existing path") (read_private w path)
    reject_if (not (got == want)) (new integrity "evidence content collision")

  -- `install`: a path is never overwritten, and equal bytes may be added again.
  abbrev pub installed : Text → Text → Created World → Result World
  installed path bytes (taken during after) = do compare_existing during path bytes; ok after
  installed path bytes (fresh r) = r

  unfoldable pub install : World → Text → Text → Result World
  unfolding compare_existing
  install w path bytes = installed path bytes (create_file w path bytes)

  -- `Add` at the time `now`; `root` is the store's `Root`.
  unfoldable pub add : Text → World → Text → Receipt → Result (World × Reference)
  unfolding sealed_receipt path_for install
  add root w now input = do
    reject_if (is_empty root) (new usage_or_schema "evidence store root")
    (stored, bytes) ← sealed_receipt lib now input
    path ← path_for w stored.canonical_hash
    prepared ← ensure_parents w (dir path)
    after ← install prepared path bytes
    ok (after, record { name = []; hash = stored.canonical_hash; path = path })
