-- ===== src/Manifest/Store.antt =====
-- `Store` of core/manifest/store.go: `Create`, `Load` and `Update`, with `rejectExistingFinalEntry`
-- and `readManifestFile`.
use provehito.Common.{
  ◌*◌, ℕ, suc, Text, Bool, not, ◌||◌, ◌^◌, Option, none, some, is_empty, length, take, nat_eq, ltb,
  ◌==◌,
}
use provehito.Common.Ints.{ℤ, pos, int_le, is_negative}
use provehito.Failure.{Error, plain, new, wrap, usage_or_schema, integrity}
use provehito.Failure.Outcome.{Result, Check, ok, err, ◌>>=◌, ◌>>◌, reject_if, or_else}
use provehito.Manifest.Model.{Manifest}
use provehito.Manifest.Normalize.{Library, normalize}
use provehito.Manifest.Validate.{validate, decode, validate_update}

abbrev pub max_manifest_bytes : ℕ
max_manifest_bytes = 1 * 2 ^ 20

-- The `os.FileInfo` of an entry, as far as it is tested; `identity` is what `os.SameFile` compares.
pub record FileInfo : Type 0 where
  pub symlink : Bool
  pub regular : Bool
  pub perm : ℕ
  pub size : ℤ
  pub identity : ℕ

-- An open file: its `Stat`, and its bytes or the error of reading them.
pub record OpenFile : Type 0 where
  pub stat : Result FileInfo
  pub content : Result Text

-- What the store takes from the operating system for its one path, on the state `World` of the
-- disk: the lock, `os.Lstat` (`none` where nothing exists), opening without following links, and
-- the two ways to write (an entry that must not exist, a replacement by rename).
pub record Disk (World : Type 0) : Type 0 where
  pub lock : World → Check
  pub lstat : World → Option (Result FileInfo)
  pub not_exist : Error
  pub open_file : World → Result OpenFile
  pub write_exclusive : World → Text → Result World
  pub write_atomic : World → Text → Result World

module _ {World : Type 0} (disk : Disk World) where
  open disk use {lstat, not_exist, open_file}

  abbrev existing : Option (Result FileInfo) → Check
  existing none = ok tt
  existing (some (err e)) = err (wrap integrity "manifest create stat" e)
  existing (some (ok info)) = do
    reject_if info.symlink (new integrity "manifest path identity")
    reject_if (not info.regular) (new integrity "manifest path identity")
    err (new integrity "manifest already exists")

  -- `rejectExistingFinalEntry`
  unfoldable reject_existing_final_entry : World → Check
  reject_existing_final_entry w = existing (lstat w)

  abbrev pub entry : Option (Result FileInfo) → Result FileInfo
  entry none = err not_exist
  entry (some r) = r

  -- `readManifestFile`; 0600 is 384.
  unfoldable pub read_manifest_file : World → Result Text
  unfolding int_le
  read_manifest_file w = do
    info ← entry (lstat w)
    reject_if (info.symlink || not info.regular || not (nat_eq info.perm 384))
        (plain "manifest file identity or mode")
    file ← open_file w
    opened ← file.stat
    reject_if (not (nat_eq info.identity opened.identity)) (plain "manifest file identity")
    reject_if
        (not opened.regular
          || not (nat_eq opened.perm 384)
          || is_negative opened.size
          || not (int_le opened.size (pos max_manifest_bytes)))
        (plain "manifest file size or identity")
    content ← file.content
    reject_if (ltb max_manifest_bytes (length (take (suc max_manifest_bytes) content)))
        (plain "manifest file size exceeds maximum")
    ok (take (suc max_manifest_bytes) content)

module _ {World : Type 0} (lib : Library) (disk : Disk World) (path : Text) where
  open disk use {lock, write_exclusive, write_atomic}

  abbrev no_path : Error
  no_path = new usage_or_schema "manifest store path"

  -- `Create` at the time `now`: the hash that it returns.
  unfoldable pub create : World → Text → Manifest → Result (World × Text)
  unfolding reject_existing_final_entry normalize validate
  create w now m = do
    reject_if (is_empty path) no_path
    or_else (wrap integrity "manifest create lock") (lock w)
    reject_existing_final_entry disk w
    (normalized, bytes, hash) ←
        or_else (wrap usage_or_schema "manifest create")
          (normalize lib (record m { created_at = now; updated_at = now }))
    validate lib normalized
    after ← write_exclusive w bytes
    ok (after, hash)

  -- `Load`
  unfoldable pub load : World → Result (Manifest × Text)
  unfolding read_manifest_file decode
  load w = do
    reject_if (is_empty path) no_path
    bytes ← or_else (wrap integrity "manifest load") (read_manifest_file disk w)
    decode lib bytes

  -- The manifest that `Update` normalizes.
  abbrev pub stamped : Manifest → Text → Manifest → Manifest
  stamped current now m = record m { created_at = current.created_at; updated_at = now }

  -- `Update` at the time `now`.
  unfoldable pub update : World → Text → Text → Manifest → Result (World × Text)
  unfolding load normalize validate_update validate
  update w now expected m = do
    reject_if (is_empty expected) (new integrity "manifest update missing prior hash")
    or_else (wrap integrity "manifest update lock") (lock w)
    current ← load w
    reject_if (not (current.1 == expected)) (new integrity "manifest update stale prior hash")
    written ←
        or_else (wrap usage_or_schema "manifest update") (normalize lib (stamped current.0 now m))
    validate_update lib current.1 current.0 written.0
    validate lib written.0
    after ← write_atomic w written.1
    ok (after, written.2)
