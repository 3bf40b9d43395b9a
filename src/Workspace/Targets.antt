-- ===== src/Workspace/Targets.antt =====
-- What `Acquire` and `DetectAbandoned` (core/workspace/lease.go) check before their first call on the lock, and the lock
-- and the record that they choose.
use native.Mathlib.Omega.{arith}
use provehito.Common.{Text, text, false, ◌||◌, ◌++◌, ◌≡◌, refl, ap, is_empty}
use provehito.Failure.{Class, new}
use provehito.Failure.Outcome.{
  Result, >>=-after, ok, ok-injective, reject_if-ok, reject_if, ◌>>=◌, ◌>>◌, >>=-eq-ok, >>-eq-ok,
}
use provehito.Workspace.Paths.{canonical_path, validate_separation}
use provehito.Workspace.Active.{ObjectId, Target, Platform, stat_workspace_object}

module _ {Info : Type 0} (platform : Platform Info) where
  open platform use {files, decimal, hex_sha256}

  -- `workspaceKeyFromObjectID`
  unfoldable pub workspace_key_from_object_id : ObjectId → Text
  workspace_key_from_object_id id = hex_sha256 (decimal id.device ++ text ":" ++ decimal id.inode)

  -- `workspaceKey`
  unfoldable pub workspace_key : Text → Result Text
  unfolding canonical_path stat_workspace_object workspace_key_from_object_id
  workspace_key workspace_path = do
    canonical ← canonical_path files workspace_path
    id ← stat_workspace_object platform canonical
    ok (workspace_key_from_object_id id)

  abbrev target : Text → Text → Target
  target root key = record {
    lock_path = files.join root (key ++ text ".lock");
    lease_path = files.join root (key ++ text ".lease");
  }

  -- `Acquire` of a manager that is not nil, up to the opening of the lock.
  unfoldable pub acquire_target :
      (root lane workspace_path : Text) → Result (Target × (Text × ObjectId))
  unfolding validate_separation canonical_path stat_workspace_object workspace_key_from_object_id
  acquire_target root lane workspace_path = do
    reject_if (is_empty root || is_empty lane || is_empty workspace_path)
        (new Class.usage_or_schema "workspace lease arguments")
    validate_separation files root workspace_path
    identity ← canonical_path files workspace_path
    id ← stat_workspace_object platform identity
    canonical_root ← canonical_path files root
    ok (target canonical_root (workspace_key_from_object_id id), (identity, id))

  -- `DetectAbandoned`, up to the look at the record.
  unfoldable pub detect_target : (root workspace_path : Text) → Result Target
  unfolding validate_separation canonical_path workspace_key
  detect_target root workspace_path = do
    reject_if (is_empty root || is_empty workspace_path)
        (new Class.usage_or_schema "workspace abandoned lease arguments")
    validate_separation files root workspace_path
    canonical_root ← canonical_path files root
    key ← workspace_key workspace_path
    ok (target canonical_root key)

  -- The lock and record that `Acquire` would use are those that `DetectAbandoned` looks at.
  pub detect_target-acquire_target :
      (root lane workspace_path : Text) (t : Target) (x : Text × ObjectId)
      → acquire_target root lane workspace_path ≡ ok (t, x)
      → detect_target root workspace_path ≡ ok t
  unfolding acquire_target detect_target workspace_key stat_workspace_object
  detect_target-acquire_target root lane workspace_path t x h =
      let (given, h1) =
        >>-eq-ok (reject_if (is_empty root || is_empty lane || is_empty workspace_path) _) _ h in
      let (apart, h2) = >>-eq-ok (validate_separation files root workspace_path) _ h1 in
      let (identity, hi, h3) = >>=-eq-ok (canonical_path files workspace_path) _ h2 in
      let (id, ho, h4) = >>=-eq-ok (stat_workspace_object platform identity) _ h3 in
      let (canonical_root, hr, h5) = >>=-eq-ok (canonical_path files root) _ h4 in
      let none_empty =
        reject_if-ok (is_empty root || is_empty lane || is_empty workspace_path) _ given in
      let both : (is_empty root || is_empty workspace_path) ≡ false = ground (arith, none_empty) in
      let same : target canonical_root (workspace_key_from_object_id id) ≡ t =
        ap (λ r. r.0) (ok-injective h5) in
      let with_key : Text → Result Target = λ key. ok (target canonical_root key) in
      let with_root : Text → Result Target =
        λ r. workspace_key workspace_path >>= λ key. ok (target r key) in
      let keyed : workspace_key workspace_path ≡ ok (workspace_key_from_object_id id) =
        >>=-after
          (λ canonical.
            stat_workspace_object platform canonical >>= λ i. ok (workspace_key_from_object_id i))
          hi (>>=-after (λ i. ok (workspace_key_from_object_id i)) ho refl) in
      let rooted = >>=-after with_root hr (>>=-after with_key keyed (ap ok same)) in
      let separated = >>=-after (λ _. canonical_path files root >>= with_root) apart rooted in
      >>=-after
        (λ _.
          validate_separation files root workspace_path
          >> (canonical_path files root >>= with_root))
        (ap (λ b. reject_if b (new Class.usage_or_schema "workspace abandoned lease arguments"))
          both)
        separated
