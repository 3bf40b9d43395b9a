-- ===== src/Evidence/Durable.antt =====
-- `Load` of core/evidence/store.go after a later `Add`.
use provehito.Evidence.Receipt.{Receipt, Reference}
use provehito.Evidence.Store.{
  Files, installed, compare_existing, install, add, load, validate_reference, path_for, path_error,
}
use provehito.Evidence.Bytes.{Library, sealed_receipt}
use provehito.Common.{◌==◌, ◌&&◌, is_empty, ◌++◌, Text, text, not, ◌≡◌, refl, ap, subst}
use provehito.Failure.{is_hash, usage_or_schema, new, wrap, integrity}
use provehito.Failure.Outcome.{
  Result, ok, err, or_else, or_else-ok, ok-injective, reject_if, >>=-eq-ok, >>-eq-ok, >>=-after,
  >>-after,
}
use provehito.Evidence.Disk.{
  ensure_parents, create_linked, link_temporary, linked, store_files, removed, write_temporary, Os,
  FileMode, Made, made, already, unmade, private_file, read_private_file, root_path, check_parents,
}
use provehito.Evidence.Kept.{
  IsKept-hide, IsKept-trans, IsKept-refl, IsSame-IsKept, IsKept-unhide, IsLawful, IsKept, Is,
  Nowhere,
}
use provehito.Evidence.Parents.{ensure_parents-check_parents}
use provehito.Evidence.Reread.{check_parents-kept, read_private_file-kept}

module _ {World : Type 0} (os : Os World) where
  open os use {
    sync_dir, dir, base, create_temp, chmod, write_file, sync_file, close_file, remove, link, clean,
  }

  module _ (lawful : IsLawful os) where
    -- The bytes are in a temporary file, and every other entry is as it was.
    abbrev pub IsAside : World → World → Text → Type 0
    IsAside w v t = ((m : FileMode) → Is os w t m → ⊥) × IsKept os (λ q. q ≡ t) w v

    write_temporary-IsAside :
        (w v : World) (path bytes t : Text)
        → write_temporary os w path bytes ≡ ok (v, t)
        → IsAside w v t
    unfolding write_temporary
    write_temporary-IsAside w v path bytes t h =
        let pattern = text "." ++ base path ++ text ".tmp-*" in
        let ((a, name), created, h1) =
          >>=-eq-ok
            (or_else (wrap integrity "evidence temporary create")
              (create_temp w (dir path) pattern))
            _ h in
        let (b, private, h2) =
          >>=-eq-ok (or_else (wrap integrity "evidence temporary mode") (chmod a name private_file))
            _ h1 in
        let (c, written, h3) =
          >>=-eq-ok (or_else (wrap integrity "evidence temporary write") (write_file b name bytes))
            _ h2 in
        let (synced, h4) =
          >>-eq-ok (or_else (wrap integrity "evidence temporary sync") (sync_file c name)) _ h3 in
        let (closed, h5) =
          >>-eq-ok (or_else (wrap integrity "evidence temporary close") (close_file c name)) _ h4 in
        let temp = or_else-ok _ _ created in
        let (m, i, plain_file) = lawful.temp_made w a (dir path) pattern name temp in
        let first =
          IsSame-IsKept os (λ q. q ≡ name) w a
            (λ q n. lawful.temp_other w a (dir path) pattern name q temp n) in
        let second =
          IsSame-IsKept os (λ q. q ≡ name) a b
            (λ q n.
              lawful.chmod_other a b name q private_file m (or_else-ok _ _ private) i plain_file
                n) in
        let third =
          IsSame-IsKept os (λ q. q ≡ name) b c
            (λ q n. lawful.write_other b c name bytes q (or_else-ok _ _ written) n) in
        let kept =
          IsKept-trans os (λ q. q ≡ name) w a c first
            (IsKept-trans os (λ q. q ≡ name) a b c second third) in
        subst (λ (x : World × Text). IsAside w x.0 x.1) (ok-injective h5)
          (λ k j. lawful.temp_new w a (dir path) pattern name k temp j, kept)

    removed-IsKept :
        (w : World) (t : Text) (r : Result World)
        → remove w t ≡ r
        → IsKept os (λ q. q ≡ t) w (removed os w r)
    removed-IsKept w t (ok v) h =
        IsSame-IsKept os (λ q. q ≡ t) w v (λ q n. lawful.remove_other w v t q h n)
    removed-IsKept w t (err e) h = IsKept-refl os (λ q. q ≡ t) w

    link-IsKept : (w v : World) (t p : Text) → link w t p ≡ made v → IsKept os Nowhere w v
    link-IsKept w v t p h =
        IsKept-unhide os p w v (λ m i. lawful.link_new w v t p m h i)
          (IsSame-IsKept os (λ q. q ≡ p) w v (λ q n. lawful.link_other w v t p q h n))

    -- The store at `Root`, which is clean.
    module _ (lib : Library) (root : Text) (clean_root : clean root ≡ root) where
      abbrev pub files : Files World
      files = store_files os root

      linked-IsKept :
          (w x v : World) (path bytes t : Text) (l : Made World)
          → IsAside w x t
          → link x t path ≡ l
          → installed lib files path bytes (linked os x path t l) ≡ ok v
          → IsKept os Nowhere w v
      linked-IsKept w x v path bytes t (unmade e) (new, aside) i h = cc
      linked-IsKept w x v path bytes t already (new, aside) i h =
          let (same, done) = >>-eq-ok (compare_existing lib files x path bytes) _ h in
          let gone = removed-IsKept x t (remove x t) refl in
          IsKept-unhide os t w v new (
            subst (IsKept os (λ q. q ≡ t) w) (ok-injective done)
              (IsKept-trans os (λ q. q ≡ t) w x _ aside gone))
      linked-IsKept w x v path bytes t (made y) (new, aside) i h =
          let (z, r, h1) =
            >>=-eq-ok (or_else (wrap integrity "evidence temporary cleanup") (remove y t)) _ h in
          let (synced, done) =
            >>-eq-ok (or_else (wrap integrity "evidence directory sync") (sync_dir z (dir path))) _
              h1 in
          let there = IsKept-hide os t x y (link-IsKept x y t path i) in
          let gone =
            IsSame-IsKept os (λ q. q ≡ t) y z
              (λ q n. lawful.remove_other y z t q (or_else-ok _ _ r) n) in
          subst (IsKept os Nowhere w) (ok-injective done) (
            IsKept-unhide os t w z new (
              IsKept-trans os (λ q. q ≡ t) w x z aside
                (IsKept-trans os (λ q. q ≡ t) x y z there gone)))

      install_from :
          (w v : World) (path bytes : Text) (r : Result (World × Text))
          → write_temporary os w path bytes ≡ r
          → installed lib files path bytes (link_temporary os path r) ≡ ok v
          → IsKept os Nowhere w v
      install_from w v path bytes (err e) i h = cc
      install_from w v path bytes (ok (x, t)) i h =
          linked-IsKept w x v path bytes t (link x t path)
            (write_temporary-IsAside w x path bytes t i) refl h

      -- `Add` loses no entry of the disk.
      add-IsKept :
          (w v : World) (now : Text) (input : Receipt) (ref : Reference)
          → add lib files root w now input ≡ ok (v, ref)
          → IsKept os Nowhere w v
      unfolding add install create_linked
      add-IsKept w v now input ref h =
          let (a, h1) =
            >>-eq-ok (reject_if (is_empty root) (new usage_or_schema "evidence store root")) _ h in
          let ((stored, bytes), b, h2) = >>=-eq-ok (sealed_receipt lib now input) _ h1 in
          let (path, c, h3) = >>=-eq-ok (path_for lib files w stored.canonical_hash) _ h2 in
          let (x, d, h4) = >>=-eq-ok (ensure_parents os root w (dir path)) _ h3 in
          let (y, e, h5) = >>=-eq-ok (install lib files x path bytes) _ h4 in
          let parents =
            (ensure_parents-check_parents os lawful root (dir path) w x clean_root d).0 in
          let last = install_from x y path bytes (write_temporary os x path bytes) refl e in
          subst (IsKept os Nowhere w) (ap (λ (p : World × Reference). p.0) (ok-injective h5))
            (IsKept-trans os Nowhere w x y parents last)

      -- The path of a reference that validates is the same on a later disk.
      validate_reference-kept :
          (w v : World) (ref : Reference) (path : Text)
          → IsKept os Nowhere w v
          → validate_reference lib files w ref ≡ ok path
          → validate_reference lib files v ref ≡ ok path
      unfolding validate_reference path_for
      validate_reference-kept w v ref path kept h =
          let (a, h1) =
            >>-eq-ok (reject_if (not (is_hash ref.hash)) (new integrity "evidence reference hash"))
              _ h in
          let (p, b, h2) = >>=-eq-ok (or_else path_error (path_for lib files w ref.hash)) _ h1 in
          let (c, h3) =
            >>-eq-ok
              (reject_if (not (is_empty ref.path) && not (ref.path == p))
                (new integrity "evidence reference path"))
              _ h2 in
          let (d, h4) = >>-eq-ok (check_parents os root w (dir p)) _ h3 in
          let (checks, roots) = check_parents-kept os root (dir p) w v clean_root kept d in
          let (e, g) =
            >>-eq-ok (reject_if (not (is_hash ref.hash)) (new usage_or_schema "evidence hash")) _
              (or_else-ok _ _ b) in
          let (r, rooted, g1) = >>=-eq-ok (root_path os root w) _ g in
          let found = >>-after _ e (>>=-after _ (roots r rooted) g1) in
          >>-after _ a
            (>>=-after _ (ap (or_else path_error) found) (>>-after _ c (>>-after _ checks h4)))

      -- Where the calls keep to the manual and the store's root is clean: a receipt that loads is loaded again, the
      -- same, after any successful `Add`.
      pub load-add :
          (w v : World) (now : Text) (input r : Receipt) (added ref : Reference)
          → load lib files w ref ≡ ok r
          → add lib files root w now input ≡ ok (v, added)
          → load lib files v ref ≡ ok r
      unfolding load
      load-add w v now input r added ref loaded a =
          let kept = add-IsKept w v now input added a in
          let (path, valid, h1) = >>=-eq-ok (validate_reference lib files w ref) _ loaded in
          let (bytes, read, h2) =
            >>=-eq-ok (or_else (wrap integrity "evidence load") (read_private_file os w path)) _
              h1 in
          let again = read_private_file-kept os lawful w v path bytes kept (or_else-ok _ _ read) in
          >>=-after _ (validate_reference-kept w v ref path kept valid)
            (>>=-after _ (ap (or_else (wrap integrity "evidence load")) again) h2)
