-- ===== src/Evidence/Disk.antt =====
-- The directories and files of core/evidence/store.go: `rootPath`, `ensureParents`, `ensurePrivateDir`,
-- `checkParents`, `readPrivateFile` and the temporary file of `install`, over the calls of `os` and
-- `path/filepath`.
use provehito.Common.{
  String, ◌*◌, ◌^◌, ℕ, suc, Text, text, Bool, false, not, ◌&&◌, ◌||◌, List, [], ◌∷◌, ◌++◌, is_empty,
  has_prefix, length, take, nat_eq, ltb, ◌==◌, if◌then◌else◌,
}
use provehito.Common.Ints.{ℤ, pos, int_le, is_negative}
use provehito.Failure.{Error, plain, wrap, new, usage_or_schema, integrity}
use provehito.Failure.Outcome.{Result, Check, ok, err, ◌>>=◌, ◌>>◌, reject_if, or_else}
use provehito.Fingerprint.Status.{split}
use provehito.Workspace.Paths.{Presence, exists, absent, broken}
use provehito.Evidence.Store.{Files, Created, fresh, taken}

-- What `Mode` says of an entry.
pub record FileMode : Type 0 where
  pub symlink : Bool
  pub directory : Bool
  pub regular : Bool
  pub perm : ℕ

pub record Opened : Type 0 where
  pub mode : FileMode
  pub size : ℤ
  pub content : Result Text

-- A call that creates a name: done, `os.ErrExist`, or another error.
pub data Made (World : Type 0) : Type 0 where
  made : World → Made World
  already : Made World
  unmade : Error → Made World

pub record Os (World : Type 0) : Type 0 where
  pub is_abs : Text → Bool
  pub clean : Text → Text
  pub join : List Text → Text
  pub dir : Text → Text
  pub base : Text → Text
  pub rel : Text → Text → Result Text
  pub lstat : World → Text → Presence FileMode
  pub mkdir : World → Text → Made World
  pub chmod : World → Text → ℕ → Result World
  pub open_file : World → Text → Result Opened
  pub create_temp : World → (directory pattern : Text) → Result (World × Text)
  pub write_file : World → Text → Text → Result World
  pub sync_file : World → Text → Check
  pub close_file : World → Text → Check
  pub link : World → (old new_name : Text) → Made World
  pub remove : World → Text → Result World
  pub sync_dir : World → Text → Check

abbrev pub private_dir : ℕ
private_dir = 448

abbrev pub private_file : ℕ
private_file = 384

abbrev pub max_receipt_bytes : ℕ
max_receipt_bytes = 1 * 2 ^ 20

abbrev pub is_dir : FileMode → Bool
is_dir mode = not mode.symlink && mode.directory

abbrev pub is_private : FileMode → Bool
is_private mode = not mode.symlink && mode.regular && nat_eq mode.perm private_file

-- The parts of a relative path, but for empty ones and `.`.
unfoldable pub named_parts : List Text → List Text
named_parts [] = []
named_parts (p ∷ ps) =
    let rest = named_parts ps in if is_empty p || p == text "." then rest else p ∷ rest

abbrev escapes : Text → Bool
escapes rel = rel == text ".." || has_prefix rel (text "../")

abbrev pub is_dir_at : Presence FileMode → Bool
is_dir_at (exists mode) = is_dir mode
is_dir_at _ = false

abbrev pub contained : Result Text → Result Text
contained (err e) = err (new integrity "evidence path containment")
contained (ok r) = if escapes r then err (new integrity "evidence path containment") else ok r

abbrev pub is_private_dir : FileMode → Bool
is_private_dir mode = is_dir mode && nat_eq mode.perm private_dir

-- The test of `checkParents` on one directory.
unfoldable pub check_dir_at : String → String → Presence FileMode → Check
check_dir_at stat_op op (exists mode) = reject_if (not (is_private_dir mode)) (new integrity op)
check_dir_at stat_op op (absent e) = err (wrap integrity stat_op e)
check_dir_at stat_op op (broken e) = err (wrap integrity stat_op e)

abbrev pub stat_or_error : Presence FileMode → Result FileMode
stat_or_error (exists mode) = ok mode
stat_or_error (absent e) = err e
stat_or_error (broken e) = err e

module _ {World : Type 0} (os : Os World) where
  open os use {
    is_abs, clean, join, dir, base, rel, lstat, mkdir, chmod, open_file, create_temp, write_file,
    sync_file, close_file, link, remove, sync_dir,
  }

  abbrev pub root_at : Text → Presence FileMode → Result Text
  root_at root (exists mode) =
      if is_dir mode then ok (clean root) else err (new integrity "evidence root identity")
  root_at root (absent e) = ok (clean root)
  root_at root (broken e) = err (wrap integrity "evidence root stat" e)

  -- `rootPath`
  unfoldable pub root_path : Text → World → Result Text
  root_path root w = do
    reject_if (is_empty root || not (is_abs root)) (new usage_or_schema "evidence absolute root")
    root_at root (lstat w root)

  abbrev pub after_mkdir : World → Made World → Result World
  after_mkdir w (made after) = ok after
  after_mkdir w already = ok w
  after_mkdir w (unmade e) = err e

  -- The end of `ensurePrivateDir`, and of its second `os.Lstat`.
  abbrev pub privatize : Text → World → Presence FileMode → Result World
  privatize path w (exists mode) =
      if is_dir mode then chmod w path private_dir else err (plain "not a private directory")
  privatize path w (absent e) = err e
  privatize path w (broken e) = err e

  abbrev pub ensure_at : Text → World → Presence FileMode → Result World
  ensure_at path w (absent e) =
      after_mkdir w (mkdir w path) >>= λ after. privatize path after (lstat after path)
  ensure_at path w (exists mode) = privatize path w (exists mode)
  ensure_at path w (broken e) = err e

  -- `ensurePrivateDir`
  unfoldable pub ensure_private_dir : World → Text → Result World
  ensure_private_dir w path = ensure_at path w (lstat w path)

  -- One round of the loop of `ensureParents`.
  unfoldable pub ensure_part : World → Text → Presence FileMode → Result World
  ensure_part w path (exists mode) = do
    reject_if (not (is_dir mode)) (new integrity "evidence directory identity")
    or_else (wrap integrity "evidence directory mode") (chmod w path private_dir)
  ensure_part w path (broken e) = err (wrap integrity "evidence directory stat" e)
  ensure_part w path (absent e) = do
    after ← or_else (wrap integrity "evidence directory create") (after_mkdir w (mkdir w path))
    reject_if (not (is_dir_at (lstat after path))) (new integrity "evidence directory race")
    or_else (wrap integrity "evidence directory mode") (chmod after path private_dir)

  unfoldable pub ensure_parts : World → Text → List Text → Result World
  unfolding ensure_part
  ensure_parts w current [] = ok w
  ensure_parts w current (part ∷ parts) = do
    after ← ensure_part w (join (current ∷ part ∷ [])) (lstat w (join (current ∷ part ∷ [])))
    ensure_parts after (join (current ∷ part ∷ [])) parts

  -- `ensureParents`
  unfoldable pub ensure_parents : Text → World → Text → Result World
  unfolding root_path ensure_private_dir ensure_parts split named_parts
  ensure_parents store_root w parent = do
    root ← root_path store_root w
    prepared ← or_else (wrap integrity "evidence root") (ensure_private_dir w root)
    relative ← contained (rel root parent)
    ensure_parts prepared root (named_parts (split b'/' relative))

  unfoldable pub check_parts : World → Text → List Text → Check
  unfolding check_dir_at
  check_parts w current [] = ok tt
  check_parts w current (part ∷ parts) = do
    check_dir_at "evidence parent stat" "evidence parent identity"
        (lstat w (join (current ∷ part ∷ [])))
    check_parts w (join (current ∷ part ∷ [])) parts

  -- `checkParents`
  unfoldable pub check_parents : Text → World → Text → Check
  unfolding root_path check_dir_at check_parts split named_parts
  check_parents store_root w parent = do
    root ← root_path store_root w
    relative ← contained (rel root parent)
    check_dir_at "evidence root stat" "evidence root identity" (lstat w root)
    check_parts w root (named_parts (split b'/' relative))

  -- `readPrivateFile`
  unfoldable pub read_private_file : World → Text → Result Text
  unfolding int_le
  read_private_file w path = do
    mode ← stat_or_error (lstat w path)
    reject_if (not (is_private mode)) (plain "evidence file identity or mode")
    file ← open_file w path
    reject_if
        (not file.mode.regular
          || not (nat_eq file.mode.perm private_file)
          || is_negative file.size
          || not (int_le file.size (pos max_receipt_bytes)))
        (plain "evidence file size or identity")
    content ← file.content
    reject_if (ltb max_receipt_bytes (length (take (suc max_receipt_bytes) content)))
        (plain "evidence file size exceeds maximum")
    ok (take (suc max_receipt_bytes) content)

  -- `install` up to the link: the temporary file with its bytes.
  unfoldable pub write_temporary : World → Text → Text → Result (World × Text)
  write_temporary w path bytes = do
    (opened, name) ←
        or_else (wrap integrity "evidence temporary create")
          (create_temp w (dir path) (text "." ++ base path ++ text ".tmp-*"))
    private ← or_else (wrap integrity "evidence temporary mode") (chmod opened name private_file)
    written ← or_else (wrap integrity "evidence temporary write") (write_file private name bytes)
    or_else (wrap integrity "evidence temporary sync") (sync_file written name)
    or_else (wrap integrity "evidence temporary close") (close_file written name)
    ok (written, name)

  abbrev pub removed : World → Result World → World
  removed w (ok after) = after
  removed w (err e) = w

  -- The deferred removal of the temporary file ignores an error.
  abbrev pub linked : World → Text → Text → Made World → Created World
  linked w path name (made after) = fresh (do
    cleaned ← or_else (wrap integrity "evidence temporary cleanup") (remove after name)
    or_else (wrap integrity "evidence directory sync") (sync_dir cleaned (dir path))
    ok cleaned)
  linked w path name already = taken w (removed w (remove w name))
  linked w path name (unmade e) = fresh (err (wrap integrity "evidence install" e))

  abbrev pub link_temporary : Text → Result (World × Text) → Created World
  link_temporary path (err e) = fresh (err e)
  link_temporary path (ok (w, name)) = linked w path name (link w name path)

  -- The creation of a file by `install`.
  unfoldable pub create_linked : World → Text → Text → Created World
  unfolding write_temporary
  create_linked w path bytes = link_temporary path (write_temporary w path bytes)

  -- The store's files at its `Root`.
  abbrev pub store_files : Text → Files World
  store_files store_root = record {
    root_path = root_path store_root;
    join = join;
    dir = dir;
    check_parents = check_parents store_root;
    ensure_parents = ensure_parents store_root;
    read_private = read_private_file;
    create_file = create_linked;
  }
