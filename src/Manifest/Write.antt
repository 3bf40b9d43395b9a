-- ===== src/Manifest/Write.antt =====
-- `writeExclusive` and `writeAtomic` of core/manifest/store.go: the disks that they pass through, call by call.
use provehito.Common.{
  String, Text, text, Bool, ◌||◌, List, [], ◌∷◌, ◌++◌, any_of, has_prefix, ◌==◌, if◌then◌else◌,
}
use provehito.Failure.{Error, wrap, new, usage_or_schema, integrity}
use provehito.Failure.Outcome.{Result, Check, ok, err}

-- What `os.Link` reports: done, `os.ErrExist`, or another error.
pub data Linking : Type 0 where
  link_done link_exists : Linking
  link_failed : Error → Linking

-- The calls of `os` that the two functions make. Each gives the disk after it, also where it fails; `look` is what is at
-- a path, and `contains_separator` is a test of `strings.Contains`.
pub record Calls (World Entry : Type 0) : Type 0 where
  pub look : World → Text → Entry
  pub dir : Text → Text
  pub base : Text → Text
  pub contains_separator : Text → Bool
  pub read_dir : World → Text → Result (List Text)
  pub create_temp : World → (directory pattern : Text) → World × Result Text
  pub chmod : World → Text → World × Check
  pub write : World → Text → Text → World × Check
  pub sync : World → Text → World × Check
  pub close : World → Text → World × Check
  pub link : World → Text → Text → World × Linking
  pub rename : World → Text → Text → World × Check
  pub remove : World → Text → World × Check
  pub open_dir : World → Text → Check
  pub sync_dir : World → Text → Check
  pub close_dir : World → Text → Check

-- The disks after the calls of a function, in their order, and its result.
pub record Passage (World : Type 0) : Type 0 where
  pub states : List World
  pub result : Check

abbrev pub stopped : {World : Type 0} → Error → Passage World
stopped e = record { states = []; result = err e }

abbrev pub visited : {World : Type 0} → World → Passage World → Passage World
visited w p = record { states = w ∷ p.states; result = p.result }

module _ {World Entry : Type 0} (calls : Calls World Entry) where
  open calls use {
    dir, base, contains_separator, read_dir, create_temp, chmod, write, sync, close, link, rename,
    remove, open_dir, sync_dir, close_dir,
  }

  -- The deferred function, where the temporary file is to be removed and where it is not: the errors of its calls are
  -- ignored.
  abbrev pub cleaned : World → Text → Error → Passage World
  cleaned w t e = visited (close w t).0 (visited (remove (close w t).0 t).0 (stopped e))

  abbrev pub closed_only : World → Text → Check → Passage World
  closed_only w t result = visited (close w t).0 (record { states = []; result = result })

  -- A call on the temporary file, with the operation of its error.
  abbrev pub call : String → Text → World × Check → (World → Passage World) → Passage World
  call op t (v, ok _) next = visited v (next v)
  call op t (v, err e) next = visited v (cleaned v t (wrap integrity op e))

  abbrev directory_closed : Check → Check
  directory_closed (ok _) = ok tt
  directory_closed (err e) = err (wrap integrity "manifest directory close" e)

  abbrev directory_synced : Check → Check → Check
  directory_synced (ok _) closed = directory_closed closed
  directory_synced (err e) closed = err (wrap integrity "manifest directory sync" e)

  abbrev directory_opened : Check → Check → Check → Check
  directory_opened (ok _) synced closed = directory_synced synced closed
  directory_opened (err e) synced closed = err (wrap integrity "manifest directory open" e)

  -- The end of both functions: the directory is synced.
  abbrev pub synced : World → Text → Check
  synced w path =
      directory_opened (open_dir w (dir path)) (sync_dir w (dir path)) (close_dir w (dir path))

  -- The removal after the link. Where it fails, the deferred function tries it again.
  abbrev pub unlinked_at : Text → Text → World × Check → Passage World
  unlinked_at path t (v, ok _) = visited v (closed_only v t (synced v path))
  unlinked_at path t (v, err e) =
      visited v (cleaned v t (wrap integrity "manifest temporary cleanup" e))

  -- After `os.Link`.
  abbrev pub after_link : Text → Text → World × Linking → Passage World
  after_link path t (v, link_done) = visited v (unlinked_at path t (remove v t))
  after_link path t (v, link_exists) =
      visited v (cleaned v t (new integrity "manifest already exists"))
  after_link path t (v, link_failed e) =
      visited v (cleaned v t (wrap integrity "manifest exclusive install" e))

  -- After `os.Rename`.
  abbrev pub after_rename : Text → Text → World × Check → Passage World
  after_rename path t (v, ok _) = visited v (closed_only v t (synced v path))
  after_rename path t (v, err e) =
      visited v (cleaned v t (wrap integrity "manifest atomic rename" e))

  -- The temporary file gets the bytes, and `install` goes on with it.
  unfoldable pub fill :
      (install : World → Text → Passage World) → (bytes : Text) → World → Text → Passage World
  fill install bytes w t = call "manifest temporary chmod" t (chmod w t) (λ a.
      call "manifest temporary write" t (write a t bytes) (λ b.
        call "manifest temporary sync" t (sync b t)
          (λ c. call "manifest temporary close" t (close c t) (λ d. install d t))))

  abbrev pub created_at :
      (World → Text → Passage World) → Text → World × Result Text → Passage World
  created_at install bytes (v, ok t) = visited v (fill install bytes v t)
  created_at install bytes (v, err e) =
      visited v (stopped (wrap integrity "manifest temporary create" e))

  abbrev pub bad_base : Text → Bool
  bad_base b = b == text "." || b == text ".." || contains_separator b

  abbrev pub scanned :
      (World → Text → Passage World)
      → World
      → (path bytes : Text) → Result (List Text)
      → Passage World
  scanned install w path bytes (err e) = stopped (wrap integrity "manifest residue scan" e)
  scanned install w path bytes (ok names) =
      if any_of (λ name. has_prefix name (text "." ++ base path ++ text ".tmp-")) names
      then stopped (new integrity "manifest temporary residue")
      else created_at install bytes
          (create_temp w (dir path) (text "." ++ base path ++ text ".tmp-*"))

  -- What `writeExclusive` and `writeAtomic` share.
  unfoldable pub write_with :
      (World → Text → Passage World) → World → (path bytes : Text) → Passage World
  unfolding fill has_prefix
  write_with install w path bytes =
      if bad_base (base path)
      then stopped (new usage_or_schema "manifest path")
      else scanned install w path bytes (read_dir w (dir path))

  -- `writeExclusive`
  unfoldable pub write_exclusive : World → (path bytes : Text) → Passage World
  unfolding write_with
  write_exclusive w path bytes = write_with (λ v t. after_link path t (link v t path)) w path bytes

  -- `writeAtomic`
  unfoldable pub write_atomic : World → (path bytes : Text) → Passage World
  unfolding write_with
  write_atomic w path bytes = write_with (λ v t. after_rename path t (rename v t path)) w path bytes
