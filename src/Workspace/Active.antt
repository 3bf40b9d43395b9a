-- ===== src/Workspace/Active.antt =====
-- The lease of core/workspace/lease.go, the object that it is for, and `ActiveWorkspace`.
use native.Mathlib.Omega.{arith}
use provehito.Common.{
  ◌∷◌, [], Option-cases, ◌≢◌, nat_eq_iff, sym, inr, inl, Bool-cases, true, ◌↔◌, ℕ, Text, Bool,
  false, not, ◌&&◌, ◌||◌, Option, none, some, ◌≡◌, refl, ap, is_empty, nat_eq, if◌then◌else◌,
}
use provehito.Failure.{Class, new, wrap}
use provehito.Failure.Outcome.{Result, ok, err}
use provehito.Workspace.Paths.{Files, Presence, exists, absent, broken}

-- `workspaceObjectID`
pub record ObjectId : Type 0 where
  pub device : ℕ
  pub inode : ℕ

-- Where the lock and the record of a workspace lie, and the object they stand for.
pub record Target : Type 0 where
  pub lock_path : Text
  pub lease_path : Text

-- `leaseRecord`, with the times as RFC3339 texts.
pub record LeaseRecord : Type 0 where
  pub lane_id : Text
  pub pid : ℕ
  pub process_start_time : Text
  pub workspace_identity : Text
  pub workspace_dev : ℕ
  pub workspace_ino : ℕ
  pub acquired_at : Text

-- A `Lease` that is not nil; of its manager and its lock, whether they are there.
pub record Lease : Type 0 where
  pub lane_id : Text
  pub pid : ℕ
  pub process_start_time : Text
  pub acquired_at : Text
  pub released : Bool
  pub has_manager : Bool
  pub has_lock : Bool
  pub lock_path : Text
  pub lease_path : Text
  pub identity : Text
  pub object : ObjectId

-- What `os.Lstat` says of the mode.
pub record Mode : Type 0 where
  pub symlink : Bool
  pub regular : Bool

-- `object_of` reads a `Stat_t` out of the information on a file, where there is one; `decimal` is `%d`, and
-- `hex_sha256` the text of a digest.
pub record Platform (Info : Type 0) : Type 0 where
  pub files : Files Info
  pub object_of : Info → Option ObjectId
  pub decimal : ℕ → Text
  pub hex_sha256 : Text → Text

-- The record that `Acquire` writes, and the lease that it returns after the writing.
unfoldable pub lease_record :
    (lane : Text) → (pid : ℕ) → (start acquired identity : Text) → ObjectId → LeaseRecord
lease_record lane pid start acquired identity id = record {
  lane_id = lane;
  pid = pid;
  process_start_time = start;
  workspace_identity = identity;
  workspace_dev = id.device;
  workspace_ino = id.inode;
  acquired_at = acquired;
}

unfoldable pub lease_of : Target → LeaseRecord → Lease
lease_of t r = record {
  lane_id = r.lane_id;
  pid = r.pid;
  process_start_time = r.process_start_time;
  acquired_at = r.acquired_at;
  released = false;
  has_manager = true;
  has_lock = true;
  lock_path = t.lock_path;
  lease_path = t.lease_path;
  identity = r.workspace_identity;
  object = record { device = r.workspace_dev; inode = r.workspace_ino };
}

module _ {Info : Type 0} (platform : Platform Info) where
  open platform use {files, object_of, decimal, hex_sha256}

  unfoldable pub object_in : Option ObjectId → Result ObjectId
  object_in (some id) = ok id
  object_in none = err (new Class.integrity "workspace identity stat")

  unfoldable pub object_at : Presence Info → Result ObjectId
  unfolding object_in
  object_at (exists info) = object_in (object_of info)
  object_at (absent e) = err (wrap Class.integrity "workspace identity stat" e)
  object_at (broken e) = err (wrap Class.integrity "workspace identity stat" e)

  -- `statWorkspaceObject`
  unfoldable pub stat_workspace_object : Text → Result ObjectId
  unfolding object_at
  stat_workspace_object canonical = object_at (files.stat canonical)

  abbrev pub plain_file : Option Mode → Bool
  plain_file none = false
  plain_file (some mode) = not mode.symlink && mode.regular

  abbrev pub same_id : ObjectId → Result ObjectId → Bool
  same_id id (err e) = false
  same_id id (ok current) = nat_eq current.device id.device && nat_eq current.inode id.inode

  abbrev pub unusable : Lease → Bool
  unusable l =
      l.released
      || not l.has_manager
      || not l.has_lock
      || is_empty l.lock_path
      || is_empty l.lease_path
      || is_empty l.identity

  -- `ActiveWorkspace`, where `mode` is `os.Lstat`.
  unfoldable pub active_workspace : (Text → Option Mode) → Option Lease → Option Text
  unfolding stat_workspace_object
  active_workspace mode none = none
  active_workspace mode (some l) =
      if unusable l
      then none
      else if not (plain_file (mode l.lock_path))
      then none
      else if not (plain_file (mode l.lease_path))
      then none
      else if not (same_id l.object (stat_workspace_object l.identity))
      then none
      else some l.identity

  -- A lock or a record that is in place: a regular file, and no symbolic link.
  abbrev pub IsPlain : (Text → Option Mode) → Text → Type 0
  IsPlain mode path = (m : Mode) × (mode path ≡ some m) × (m.symlink ≡ false) × (m.regular ≡ true)

  -- What an active lease has: it is not released, has its parts, its lock and record are plain files, and the
  -- workspace is the object that it was acquired for.
  pub record IsActive (mode : Text → Option Mode) (l : Lease) : Type 0 where
    pub held : l.released ≡ false
    pub managed : l.has_manager ≡ true
    pub locking : l.has_lock ≡ true
    pub lock_named : l.lock_path ≢ []
    pub record_named : l.lease_path ≢ []
    pub workspace_named : l.identity ≢ []
    pub locked : IsPlain mode l.lock_path
    pub recorded : IsPlain mode l.lease_path
    pub unmoved : stat_workspace_object l.identity ≡ ok l.object

  is_empty-named : (t : Text) → is_empty t ≡ false → t ≢ []
  is_empty-named t h e = cc (rw e at h)

  named-is_empty : (t : Text) → t ≢ [] → is_empty t ≡ false
  named-is_empty [] h = absurd (h refl)
  named-is_empty (c ∷ t) h = refl

  plain_file-IsPlain :
      (mode : Text → Option Mode) (path : Text) → plain_file (mode path) ≡ true → IsPlain mode path
  plain_file-IsPlain mode path h = elim (Option-cases (mode path)) [
    | inl e ↦ absurd (cc (rw e at h))
    | inr (m, e) ↦
        let plain : (not m.symlink && m.regular) ≡ true = rw e at h in
        (m, e, ground (arith, plain), ground (arith, plain))
  ]

  IsPlain-plain_file :
      (mode : Text → Option Mode) (path : Text) → IsPlain mode path → plain_file (mode path) ≡ true
  IsPlain-plain_file mode path (m, e, s, r) = rw (e, s, r) refl

  same_id-eq : (id : ObjectId) (r : Result ObjectId) → same_id id r ≡ true → r ≡ ok id
  same_id-eq id (err e) h = cc
  same_id-eq id (ok current) h =
      let device : nat_eq current.device id.device ≡ true = ground (arith, h) in
      let inode : nat_eq current.inode id.inode ≡ true = ground (arith, h) in
      let same_device = (nat_eq_iff current.device id.device).0 device in
      let same_inode = (nat_eq_iff current.inode id.inode).0 inode in
      let same : current ≡ id = λ i. record { device = same_device i; inode = same_inode i } in
      ap ok same

  same_id_refl : (id : ObjectId) → same_id id (ok id) ≡ true
  same_id_refl id =
      rw ((nat_eq_iff id.device id.device).1 refl) (rw ((nat_eq_iff id.inode id.inode).1 refl) refl)

  unusable-parts :
      (l : Lease)
      → unusable l ≡ false
      → (l.released ≡ false)
        × (l.has_manager ≡ true)
        × (l.has_lock ≡ true)
        × (is_empty l.lock_path ≡ false)
        × (is_empty l.lease_path ≡ false)
        × (is_empty l.identity ≡ false)
  unusable-parts l h = ground (arith, h)

  IsActive-unusable : (mode : Text → Option Mode) (l : Lease) → IsActive mode l → unusable l ≡ false
  IsActive-unusable mode l a =
      rw
        (
          a.held,
          a.managed,
          a.locking,
          named-is_empty l.lock_path a.lock_named,
          named-is_empty l.lease_path a.record_named,
          named-is_empty l.identity a.workspace_named,
        )
        refl

  IsActive-of :
      (mode : Text → Option Mode) (l : Lease)
      → unusable l ≡ false
      → plain_file (mode l.lock_path) ≡ true
      → plain_file (mode l.lease_path) ≡ true
      → same_id l.object (stat_workspace_object l.identity) ≡ true
      → IsActive mode l
  IsActive-of mode l p q d u =
      let (held, managed, locking, lock, recorded, workspace) = unusable-parts l p in
      record {
        held = held;
        managed = managed;
        locking = locking;
        lock_named = is_empty-named l.lock_path lock;
        record_named = is_empty-named l.lease_path recorded;
        workspace_named = is_empty-named l.identity workspace;
        locked = plain_file-IsPlain mode l.lock_path q;
        recorded = plain_file-IsPlain mode l.lease_path d;
        unmoved = same_id-eq l.object (stat_workspace_object l.identity) u;
      }

  -- `ActiveWorkspace` returns a path exactly for a lease that is not released, has a manager and a lock, names its
  -- lock, record and workspace, of which the lock and the record are regular files and no symbolic links, and the
  -- workspace is still the object that the lease was acquired for; the path is the lease's workspace.
  pub active_workspace_iff :
      (mode : Text → Option Mode) (l : Lease) (w : Text)
      → (active_workspace mode (some l) ≡ some w) ↔ (IsActive mode l × (w ≡ l.identity))
  unfolding active_workspace
  active_workspace_iff mode l w = (
    λ h. elim (Bool-cases (unusable l)) [
      | inl p ↦ absurd (let c : none ≡ some w = rw p at h in cc c)
      | inr p ↦ elim (Bool-cases (plain_file (mode l.lock_path))) [
        | inr q ↦ absurd (let c : none ≡ some w = rw (p, q) at h in cc c)
        | inl q ↦ elim (Bool-cases (plain_file (mode l.lease_path))) [
          | inr d ↦ absurd (let c : none ≡ some w = rw (p, q, d) at h in cc c)
          | inl d ↦ elim (Bool-cases (same_id l.object (stat_workspace_object l.identity))) [
            | inr u ↦ absurd (let c : none ≡ some w = rw (p, q, d, u) at h in cc c)
            | inl u ↦
                let e : some l.identity ≡ some w = rw (p, q, d, u) at h in
                (IsActive-of mode l p q d u, cc)
          ]
        ]
      ]
    ],
    λ (a, e).
        rw
          (
            IsActive-unusable mode l a,
            IsPlain-plain_file mode l.lock_path a.locked,
            IsPlain-plain_file mode l.lease_path a.recorded,
            ap (same_id l.object) a.unmoved,
            same_id_refl l.object,
          )
          (ap some (sym e)),
  )
