-- ===== src/Workspace/Separation.antt =====
-- What `ValidateSeparation` and `pathContains` (core/workspace/paths.go) establish, and that the loops end.
use provehito.Common.{
  ℕ, zero, suc, ◌<◌, Text, Bool, true, false, length, ◌==◌, eq_iff, ◌≡◌, sym, ◌∙◌, ap, subst, inl,
  inr, Bool-cases, if◌then◌else◌,
}
use provehito.Failure.Outcome.{
  Result, ok, reject_if, reject_if-ok, >>=-eq-ok, >>-eq-ok, ok-injective, ◌>>=◌,
}
use provehito.Workspace.Paths.{
  walk_at, Files, Presence, exists, absent, broken, same_object, canonical_path, same_path, walk_up,
  contains_by, leads_down, path_contains, not_separate, validate_separation,
}

module _ {Info : Type 0} (files : Files Info) where
  open files use {rel, clean, dir, base, lstat, stat, same_file, eval_symlinks}

  -- `filepath.Dir` shortens a path that it changes.
  abbrev pub Shortens : Type 0
  Shortens = (p : Text) → (dir p == p) ≡ false → length (dir p) < length p

  -- The directories above a path.
  pub data Ancestor : Text → Text → Type 0 where
    parent_of : (p : Text) → (dir p == p) ≡ false → Ancestor p (dir p)
    above : (p a : Text) → (dir p == p) ≡ false → Ancestor (dir p) a → Ancestor p a

  -- The first round has found nothing, and the rest has not either.
  walk_at-none :
      (found : Presence Info) (parent next : Text) (rest : Result Bool)
      → walk_at files found parent next rest ≡ ok false
      → (rest ≡ ok false)
        × ((info : Info) → found ≡ exists info → same_path files next parent ≡ ok false)
  unfolding walk_at
  walk_at-none (absent e) parent next rest h = (h, λ info e. cc)
  walk_at-none (broken e) parent next rest h = cc
  walk_at-none (exists i) parent next rest h =
      let (same, found, chosen) = >>=-eq-ok (same_path files next parent) _ h in
      elim (Bool-cases same) [
        | inl p ↦ absurd (let c : ok true ≡ ok false = rw p at chosen in cc c)
        | inr p ↦ (rw p at chosen, λ info e. found ∙ ap ok p)
      ]

  walk_up-step :
      (n : ℕ) (parent current : Text)
      → walk_up files (suc n) parent current ≡ ok false
      → (dir current == current) ≡ false
      → walk_at files
          (lstat (dir current))
          parent
          (dir current)
          (walk_up files n parent (dir current))
        ≡ ok false
  unfolding walk_up
  walk_up-step n parent current h e = rw e at h

  -- The loop that returns false has compared every existing directory above.
  walk_up-none :
      (n : ℕ) (parent current a : Text) (info : Info)
      → walk_up files n parent current ≡ ok false
      → Ancestor current a
      → lstat a ≡ exists info
      → same_path files a parent ≡ ok false
  unfolding walk_up
  walk_up-none zero parent current a info h up there = cc
  walk_up-none (suc n) parent current _ info h (parent_of _ e) there =
      (walk_at-none (lstat (dir current)) parent (dir current) _
          (walk_up-step n parent current h e)).1
        info there
  walk_up-none (suc n) parent current a info h (above _ _ e up) there =
      walk_up-none n parent (dir current) a info
        (walk_at-none (lstat (dir current)) parent (dir current) _
          (walk_up-step n parent current h e)).0
        up there

  -- `os.SameFile` does not depend on the order of its arguments.
  abbrev pub IsSymmetric : Type 0
  IsSymmetric = (i j : Info) → same_file i j ≡ same_file j i

  ==-sym : (a b : Text) → (a == b) ≡ false → (b == a) ≡ false
  ==-sym a b n = elim (Bool-cases (b == a)) [
    | inl p ↦ cc (n, (eq_iff a b).1 (sym ((eq_iff b a).0 p)))
    | inr p ↦ p
  ]

  same_object-swap :
      (x y : Presence Info) (b : Bool)
      → IsSymmetric
      → same_object files x y ≡ ok false
      → same_object files y x ≡ ok b
      → b ≡ false
  same_object-swap (exists i) (exists j) b s h k = cc (h, k, s i j)
  same_object-swap (exists i) (absent e) b s h k = cc
  same_object-swap (exists i) (broken e) b s h k = cc
  same_object-swap (absent e) (exists j) b s h k = cc
  same_object-swap (absent e) (absent d) b s h k = cc
  same_object-swap (absent e) (broken d) b s h k = cc
  same_object-swap (broken e) y b s h k = cc

  abbrev compare_canonical : Text → Text → Result Bool
  compare_canonical ca cb =
      if clean ca == clean cb then ok true else same_object files (stat ca) (stat cb)

  compare_canonical-swap :
      (ca cb : Text) (b : Bool)
      → IsSymmetric
      → compare_canonical ca cb ≡ ok false
      → compare_canonical cb ca ≡ ok b
      → b ≡ false
  compare_canonical-swap ca cb b s h k = elim (Bool-cases (clean ca == clean cb)) [
    | inl p ↦ absurd (let c : ok true ≡ ok false = rw p at h in cc c)
    | inr p ↦
        let q : (clean cb == clean ca) ≡ false = ==-sym (clean ca) (clean cb) p in
        same_object-swap (stat ca) (stat cb) b s (rw p at h) (rw q at k)
  ]

  same_path-swap :
      (a b : Text) (r : Bool)
      → IsSymmetric
      → same_path files a b ≡ ok false
      → same_path files b a ≡ ok r
      → r ≡ false
  unfolding same_path
  same_path-swap a b r s h k =
      let (ca, ha, h1) = >>=-eq-ok (canonical_path files a) _ h in
      let (cb, hb, h2) = >>=-eq-ok (canonical_path files b) _ h1 in
      let (cb', kb, k1) = >>=-eq-ok (canonical_path files b) _ k in
      let (ca', ka, k2) = >>=-eq-ok (canonical_path files a) _ k1 in
      compare_canonical-swap ca cb r s h2 (
        subst (λ x. compare_canonical x ca ≡ ok r) (ok-injective (sym kb ∙ hb))
          (subst (λ x. compare_canonical cb' x ≡ ok r) (ok-injective (sym ka ∙ ha)) k2))

  -- No directory above `child` that exists is `parent`.
  abbrev pub IsOutside : Text → Text → Type 0
  IsOutside parent child =
      (a : Text) (info : Info)
      → Ancestor (clean child) a
      → lstat a ≡ exists info
      → same_path files a parent ≡ ok false

  contains_by-none :
      (parent child r : Text) → contains_by files parent child r ≡ ok false → IsOutside parent child
  unfolding contains_by
  contains_by-none parent child r h a info up there = elim (Bool-cases (leads_down files r)) [
    | inl p ↦ absurd (let c : ok true ≡ ok false = rw p at h in cc c)
    | inr p ↦
        walk_up-none (suc (length (clean child))) parent (clean child) a info (rw p at h) up there
  ]

  path_contains-none :
      (parent child : Text) (b : Bool)
      → path_contains files parent child ≡ ok b
      → b ≡ false
      → ((r : Bool) → same_path files parent child ≡ ok r → r ≡ false)
      → IsOutside parent child
  unfolding path_contains
  path_contains-none parent child b h f n =
      let (same, found, h1) = >>=-eq-ok (same_path files parent child) _ h in
      let h2 : (rel parent child >>= contains_by files parent child) ≡ ok b =
        rw (n same found) at h1 in
      let (r, related, h3) = >>=-eq-ok (rel parent child) _ h2 in
      contains_by-none parent child r (h3 ∙ ap ok f)

  -- Two paths to different files, neither of which lies above the other.
  pub record IsSeparated (s w : Text) : Type 0 where
    pub apart : same_path files s w ≡ ok false
    pub outside : IsOutside s w
    pub around : IsOutside w s

  -- Where `ValidateSeparation` returns no error, both paths have a canonical form, the two are not the same
  -- file, and no existing directory above one of them is the other, if `os.SameFile` is symmetric.
  pub validate_separation-IsSeparated :
      (state_root workspace_path : Text)
      → IsSymmetric
      → validate_separation files state_root workspace_path ≡ ok tt
      → (s : Text) × (w : Text) × (canonical_path files state_root ≡ ok s)
        × (canonical_path files workspace_path ≡ ok w)
        × IsSeparated s w
  unfolding validate_separation
  validate_separation-IsSeparated state_root workspace_path sy h =
      let (s, hs, h1) = >>=-eq-ok (canonical_path files state_root) _ h in
      let (w, hw, h2) = >>=-eq-ok (canonical_path files workspace_path) _ h1 in
      let (same, hm, h3) = >>=-eq-ok (same_path files s w) _ h2 in
      let (r1, h4) = >>-eq-ok (reject_if same not_separate) _ h3 in
      let (below, hb, h5) = >>=-eq-ok (path_contains files s w) _ h4 in
      let (r2, h6) = >>-eq-ok (reject_if below not_separate) _ h5 in
      let (over, ho, h7) = >>=-eq-ok (path_contains files w s) _ h6 in
      let apart : same_path files s w ≡ ok false = hm ∙ ap ok (reject_if-ok same not_separate r1) in
      (
        s,
        w,
        hs,
        hw,
        record {
          apart = apart;
          outside =
              path_contains-none s w below hb (reject_if-ok below not_separate r2)
                (λ r e. ok-injective (sym e ∙ apart));
          around =
              path_contains-none w s over ho (reject_if-ok over not_separate h7)
                (λ r e. same_path-swap s w r sy apart e);
        },
      )
