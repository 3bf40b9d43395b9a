-- ===== src/Evidence/Reread.antt =====
-- The directories and the file that `Load` of core/evidence/store.go reads, on a later disk.
use native.Mathlib.Omega.{arith}
use provehito.Common.{Text, true, false, not, List, [], ◌∷◌, ◌≡◌, sym, ◌∙◌, ap, not-false}
use provehito.Failure.{plain}
use provehito.Failure.Outcome.{
  ok, ok-injective, reject_if, reject_if-ok, >>=-eq-ok, >>-eq-ok, >>=-after, >>-after,
}
use provehito.Fingerprint.Status.{split}
use provehito.Workspace.Paths.{Presence, exists, absent, broken}
use provehito.Evidence.Disk.{
  Os, FileMode, is_dir, is_private, stat_or_error, read_private_file, contained, named_parts,
  root_path, check_dir_at, check_parts, check_parents,
}
use provehito.Evidence.Kept.{IsLawful, IsKept, Nowhere}
use provehito.Evidence.Parents.{IsPrivateDir-kept, check_dir_at_iff, root_path-later}

module _ {World : Type 0} (os : Os World) where
  open os use {clean, join, rel, lstat}

  check_parts-kept :
      (w v : World) (current : Text) (parts : List Text)
      → IsKept os Nowhere w v
      → check_parts os w current parts ≡ ok tt
      → check_parts os v current parts ≡ ok tt
  unfolding check_parts
  check_parts-kept w v current [] kept h = h
  check_parts-kept w v current (part ∷ parts) kept h =
      let p = join (current ∷ part ∷ []) in
      let both = check_dir_at_iff "evidence parent stat" "evidence parent identity" in
      let (here, later) =
        >>-eq-ok (check_dir_at "evidence parent stat" "evidence parent identity" (lstat w p)) _ h in
      let private = IsPrivateDir-kept os w v p kept ((both (lstat w p)).0 here) in
      >>-after (check_parts os v p parts) ((both (lstat v p)).1 private)
        (check_parts-kept w v p parts kept later)

  -- A check that passed passes again, with the same root.
  pub check_parents-kept :
      (root parent : Text) (w v : World)
      → clean root ≡ root
      → IsKept os Nowhere w v
      → check_parents os root w parent ≡ ok tt
      → (check_parents os root v parent ≡ ok tt)
        × ((r : Text) → root_path os root w ≡ ok r → root_path os root v ≡ ok r)
  unfolding check_parents
  check_parents-kept root parent w v c kept h =
      let (r, rooted, h1) = >>=-eq-ok (root_path os root w) _ h in
      let (relative, inside, h2) = >>=-eq-ok (contained (rel r parent)) _ h1 in
      let (here, parts) =
        >>-eq-ok (check_dir_at "evidence root stat" "evidence root identity" (lstat w r)) _ h2 in
      let both = check_dir_at_iff "evidence root stat" "evidence root identity" in
      let private = IsPrivateDir-kept os w v r kept ((both (lstat w r)).0 here) in
      let again = root_path-later os root r w v c rooted private in
      (
        >>=-after _ again (
            >>=-after _ inside (
              >>-after (check_parts os v r (named_parts (split b'/' relative)))
                ((both (lstat v r)).1 private)
                (check_parts-kept w v r (named_parts (split b'/' relative)) kept parts))),
        λ s e. again ∙ sym rooted ∙ e,
      )

  stat_or_error-ok : (p : Presence FileMode) (m : FileMode) → stat_or_error p ≡ ok m → p ≡ exists m
  stat_or_error-ok (exists k) m h = ap exists (ok-injective h)
  stat_or_error-ok (absent e) m h = cc
  stat_or_error-ok (broken e) m h = cc

  is_private-regular : (m : FileMode) → is_private m ≡ true → m.regular ≡ true
  is_private-regular m h = ground arith

  not_directory : (m : FileMode) → m.directory ≡ false → is_dir m ≡ false
  not_directory m h = ground arith

  module _ (lawful : IsLawful os) where
    -- A file that was read is the same, and is read again.
    pub read_private_file-kept :
        (w v : World) (path bytes : Text)
        → IsKept os Nowhere w v
        → read_private_file os w path ≡ ok bytes
        → read_private_file os v path ≡ ok bytes
    unfolding read_private_file
    read_private_file-kept w v path bytes kept h =
        let (m, i, rest) = >>=-eq-ok (stat_or_error (lstat w path)) _ h in
        let there = stat_or_error-ok (lstat w path) m i in
        let (p, opened) =
          >>-eq-ok (reject_if (not (is_private m)) (plain "evidence file identity or mode")) _
            rest in
        let regular = is_private-regular m (not-false (is_private m) (reject_if-ok _ _ p)) in
        let (mode, content) =
          kept.files path m (λ e. e) there
            (not_directory m (lawful.regular_only w path m there regular)) in
        rw (mode, content) h
