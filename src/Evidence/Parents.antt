-- ===== src/Evidence/Parents.antt =====
-- The directories that `ensureParents` of core/evidence/store.go leaves, as `checkParents` sees them.
use native.Mathlib.Omega.{arith}
use provehito.Common.{
  ◌||◌, is_empty, if◌then◌else◌, ◌↔◌, String, Text, Bool, true, false, not, List, [], ◌∷◌, nat_eq,
  ◌≡◌, refl, sym, ◌∙◌, ap, subst, not-false,
}
use provehito.Failure.{usage_or_schema, plain, new, wrap, integrity}
use provehito.Failure.Outcome.{
  >>=-after, >>-after, ok, err, or_else, or_else-ok, ok-injective, reject_if, reject_if-ok,
  >>=-eq-ok, >>-eq-ok,
}
use provehito.Fingerprint.Status.{split}
use provehito.Workspace.Paths.{Presence, exists, absent, broken}
use provehito.Evidence.Disk.{
  root_at, named_parts, contained, ensure_private_dir, check_parents, ensure_parents, privatize,
  root_path, ensure_at, Os, FileMode, Made, made, already, unmade, private_dir, is_dir,
  is_private_dir, is_dir_at, after_mkdir, ensure_part, ensure_parts, check_dir_at, check_parts,
}
use provehito.Evidence.Kept.{
  exists-injective, IsKept-refl, IsKept-trans, mkdir-IsKept, chmod-IsKept, IsLawful, IsKept, Is,
  Nowhere,
}

is_dir_at-exists :
    (p : Presence FileMode)
    → is_dir_at p ≡ true
    → (m : FileMode) × (p ≡ exists m) × (is_dir m ≡ true)
is_dir_at-exists (exists m) h = (m, refl, h)
is_dir_at-exists (absent e) h = cc
is_dir_at-exists (broken e) h = cc

pub is_private_dir_both :
    (m : FileMode)
    → (is_private_dir m ≡ true) ↔ ((is_dir m ≡ true) × (nat_eq m.perm private_dir ≡ true))
is_private_dir_both m = ground arith

-- A directory passes exactly if it is private.
pub check_dir_at_iff :
    (stat_op op : String) (p : Presence FileMode)
    → (check_dir_at stat_op op p ≡ ok tt)
      ↔ ((m : FileMode) × (p ≡ exists m) × (is_private_dir m ≡ true))
unfolding check_dir_at
check_dir_at_iff stat_op op (exists m) = (
  λ h. (m, refl, not-false (is_private_dir m) (reject_if-ok _ _ h)),
  λ (k, e, h).
      subst (λ x. reject_if (not x) (new integrity op) ≡ ok tt)
        (sym h ∙ ap is_private_dir (exists-injective (sym e))) refl,
)
check_dir_at_iff stat_op op (absent e) = (λ h. cc, λ (k, e, h). cc)
check_dir_at_iff stat_op op (broken e) = (λ h. cc, λ (k, e, h). cc)

module _ {World : Type 0} (os : Os World) where
  open os use {is_abs, clean, rel, join, lstat, mkdir, chmod}

  -- A directory with the store's mode.
  abbrev pub IsPrivateDir : World → Text → Type 0
  IsPrivateDir w p = (m : FileMode) × Is os w p m × (is_private_dir m ≡ true)

  pub IsPrivateDir-kept :
      (w v : World) (p : Text) → IsKept os Nowhere w v → IsPrivateDir w p → IsPrivateDir v p
  IsPrivateDir-kept w v p kept (m, i, h) =
      let both = (is_private_dir_both m).0 h in
      let k = kept.dirs p m (λ e. e) i both.0 in
      (k.mode, k.there, (is_private_dir_both k.mode).1 (k.directory, k.private both.1))

  root_at_if :
      (root r : Text) (m : FileMode) (b : Bool)
      → is_dir m ≡ b
      → (if b then ok (clean root) else err (new integrity "evidence root identity")) ≡ ok r
      → r ≡ clean root
  root_at_if root r m true d h = sym (ok-injective h)
  root_at_if root r m false d h = cc

  root_at-clean :
      (root r : Text) (p : Presence FileMode) → root_at os root p ≡ ok r → r ≡ clean root
  root_at-clean root r (exists m) h = root_at_if root r m (is_dir m) refl h
  root_at-clean root r (absent e) h = sym (ok-injective h)
  root_at-clean root r (broken e) h = cc

  pub root_path-clean : (root r : Text) (w : World) → root_path os root w ≡ ok r → r ≡ clean root
  unfolding root_path
  root_path-clean root r w h =
      root_at-clean root r (lstat w root)
        (>>-eq-ok
          (reject_if (is_empty root || not (is_abs root))
            (new usage_or_schema "evidence absolute root"))
          _ h).1

  root_at-private :
      (root : Text) (p : Presence FileMode) (m : FileMode)
      → p ≡ exists m
      → is_dir m ≡ true
      → root_at os root p ≡ ok (clean root)
  root_at-private root p m e d =
      ap (root_at os root) e
      ∙ ap (λ b. if b then ok (clean root) else err (new integrity "evidence root identity")) d

  -- The root is the same as long as a private directory stands there.
  pub root_path-later :
      (root r : Text) (w v : World)
      → clean root ≡ root
      → root_path os root w ≡ ok r
      → IsPrivateDir v r
      → root_path os root v ≡ ok r
  unfolding root_path
  root_path-later root r w v c h private =
      let at_clean = root_path-clean root r w h in
      let passed =
        (>>-eq-ok
          (reject_if (is_empty root || not (is_abs root))
            (new usage_or_schema "evidence absolute root"))
          _ h).0 in
      let (m, i, d) = subst (IsPrivateDir v) (at_clean ∙ c) private in
      >>-after (root_at os root (lstat v root)) passed (
        root_at-private root (lstat v root) m i ((is_private_dir_both m).0 d).0
        ∙ ap ok (sym at_clean))

  module _ (lawful : IsLawful os) where
    abbrev pub IsEnsured : World → World → Text → Type 0
    IsEnsured w v p = IsKept os Nowhere w v × IsPrivateDir v p

    pub make_private :
        (w v : World) (p : Text) (m : FileMode)
        → Is os w p m
        → is_dir m ≡ true
        → chmod w p private_dir ≡ ok v
        → IsEnsured w v p
    make_private w v p m i d h =
        let made_so = chmod-IsKept os lawful w v p m i d h in
        (
          made_so.0,
          (
            record m { perm = private_dir },
            made_so.1,
            (is_private_dir_both (record m { perm = private_dir })).1 (d, refl),
          ),
        )

    after_mkdir-IsKept :
        (w v : World) (p : Text) (m : Made World)
        → mkdir w p ≡ m
        → after_mkdir os w m ≡ ok v
        → IsKept os Nowhere w v
    after_mkdir-IsKept w v p (made x) i h =
        mkdir-IsKept os lawful w v p (i ∙ ap made (ok-injective h))
    after_mkdir-IsKept w v p already i h =
        subst (IsKept os Nowhere w) (ok-injective h) (IsKept-refl os Nowhere w)
    after_mkdir-IsKept w v p (unmade e) i h = cc

    ensure_part-IsEnsured :
        (w v : World) (p : Text) (at : Presence FileMode)
        → lstat w p ≡ at
        → ensure_part os w p at ≡ ok v
        → IsEnsured w v p
    unfolding ensure_part
    ensure_part-IsEnsured w v p (exists m) i h =
        let (d, c) =
          >>-eq-ok (reject_if (not (is_dir m)) (new integrity "evidence directory identity")) _ h in
        make_private w v p m i (not-false (is_dir m) (reject_if-ok _ _ d)) (or_else-ok _ _ c)
    ensure_part-IsEnsured w v p (broken e) i h = cc
    ensure_part-IsEnsured w v p (absent e) i h =
        let (x, a, rest) =
          >>=-eq-ok
            (or_else (wrap integrity "evidence directory create") (after_mkdir os w (mkdir w p))) _
            h in
        let (d, c) =
          >>-eq-ok
            (reject_if (not (is_dir_at (lstat x p))) (new integrity "evidence directory race")) _
            rest in
        let (m, j, k) = is_dir_at-exists (lstat x p) (not-false _ (reject_if-ok _ _ d)) in
        let (kept, private) = make_private x v p m j k (or_else-ok _ _ c) in
        (
          IsKept-trans os Nowhere w x v
              (after_mkdir-IsKept w x p (mkdir w p) refl (or_else-ok _ _ a)) kept,
          private,
        )

    privatize_if :
        (w v : World) (p : Text) (m : FileMode) (b : Bool)
        → is_dir m ≡ b
        → Is os w p m
        → (if b then chmod w p private_dir else err (plain "not a private directory")) ≡ ok v
        → IsEnsured w v p
    privatize_if w v p m true d i h = make_private w v p m i d h
    privatize_if w v p m false d i h = cc

    privatize-IsEnsured :
        (w v : World) (p : Text) (at : Presence FileMode)
        → lstat w p ≡ at
        → privatize os p w at ≡ ok v
        → IsEnsured w v p
    privatize-IsEnsured w v p (exists m) i h = privatize_if w v p m (is_dir m) refl i h
    privatize-IsEnsured w v p (absent e) i h = cc
    privatize-IsEnsured w v p (broken e) i h = cc

    ensure_at-IsEnsured :
        (w v : World) (p : Text) (at : Presence FileMode)
        → lstat w p ≡ at
        → ensure_at os p w at ≡ ok v
        → IsEnsured w v p
    ensure_at-IsEnsured w v p (exists m) i h = privatize-IsEnsured w v p (exists m) i h
    ensure_at-IsEnsured w v p (broken e) i h = cc
    ensure_at-IsEnsured w v p (absent e) i h =
        let (x, a, rest) = >>=-eq-ok (after_mkdir os w (mkdir w p)) _ h in
        let (kept, private) = privatize-IsEnsured x v p (lstat x p) refl rest in
        (IsKept-trans os Nowhere w x v (after_mkdir-IsKept w x p (mkdir w p) refl a) kept, private)

    -- The directories are there and private after the loop, and none is lost.
    ensure_parts-check :
        (w v : World) (current : Text) (parts : List Text)
        → ensure_parts os w current parts ≡ ok v
        → IsKept os Nowhere w v × (check_parts os v current parts ≡ ok tt)
    unfolding ensure_parts check_parts
    ensure_parts-check w v current [] h =
        (subst (IsKept os Nowhere w) (ok-injective h) (IsKept-refl os Nowhere w), refl)
    ensure_parts-check w v current (part ∷ parts) h =
        let p = join (current ∷ part ∷ []) in
        let (x, a, rest) = >>=-eq-ok (ensure_part os w p (lstat w p)) _ h in
        let (kept, private) = ensure_part-IsEnsured w x p (lstat w p) refl a in
        let (later, checked) = ensure_parts-check x v p parts rest in
        let passes =
          (check_dir_at_iff "evidence parent stat" "evidence parent identity" (lstat v p)).1
            (IsPrivateDir-kept x v p later private) in
        (
          IsKept-trans os Nowhere w x v kept later,
          >>-after (check_parts os v p parts) passes checked,
        )

    -- Once `ensureParents` returns, `checkParents` passes, and nothing that was there is lost.
    pub ensure_parents-check_parents :
        (root parent : Text) (w v : World)
        → clean root ≡ root
        → ensure_parents os root w parent ≡ ok v
        → IsKept os Nowhere w v × (check_parents os root v parent ≡ ok tt)
    unfolding ensure_parents check_parents ensure_private_dir
    ensure_parents-check_parents root parent w v c h =
        let (r, rooted, h1) = >>=-eq-ok (root_path os root w) _ h in
        let (x, made_root, h2) =
          >>=-eq-ok (or_else (wrap integrity "evidence root") (ensure_private_dir os w r)) _ h1 in
        let (relative, inside, h3) = >>=-eq-ok (contained (rel r parent)) _ h2 in
        let (kept, private) =
          ensure_at-IsEnsured w x r (lstat w r) refl (or_else-ok _ _ made_root) in
        let (later, checked) = ensure_parts-check x v r (named_parts (split b'/' relative)) h3 in
        (
          IsKept-trans os Nowhere w x v kept later,
          >>=-after _ (root_path-later root r w v c rooted (IsPrivateDir-kept x v r later private))
              (>>=-after _ inside (
                >>-after (check_parts os v r (named_parts (split b'/' relative)))
                  ((check_dir_at_iff "evidence root stat" "evidence root identity" (lstat v r)).1
                    (IsPrivateDir-kept x v r later private))
                  checked)),
        )
