-- ===== src/Command/Initialised.antt =====
-- What `runInit` of cmd/provehito/commands_state.go leaves, as the commands on lanes check it.
use provehito.Common.{
  inr, ◌⊎◌, inl, ℕ, nat_eq, Text, text, Bool, true, false, not, ◌||◌, [], ◌∷◌, is_empty, ◌≡◌, refl,
  ◌∙◌, ap, not-false,
}
use provehito.Failure.{Error, wrap, new, integrity}
use provehito.Failure.Outcome.{
  ok, ◌>>◌, reject_if, or_else, or_else-ok, ok-injective, reject_if-ok, >>=-eq-ok, >>-eq-ok,
  >>-after,
}
use provehito.Workspace.Paths.{Presence, exists, absent, broken, validate_separation}
use provehito.Evidence.Disk.{
  FileMode, Made, made, already, unmade, is_dir, is_private_dir, private_dir,
}
use provehito.Evidence.Kept.{IsLawful, IsKept, Is, Nowhere, IsKept-trans, mkdir-IsKept}
use provehito.Evidence.Parents.{
  IsPrivateDir, IsPrivateDir-kept, IsEnsured, make_private, is_private_dir_both,
}
use provehito.Command.State.{
  Host, root_before, child_before, require_workspace, init_child, init, new_directory,
  state_root_at, lanes_at, require_state_root, lanes_path, usage,
}

root_before-cases :
    (p : Presence FileMode)
    → root_before p ≡ ok tt
    → ((m : FileMode) × (p ≡ exists m) × (is_dir m ≡ true)) ⊎ ((e : Error) × (p ≡ absent e))
root_before-cases (exists m) h = inl (m, refl, not-false (is_dir m) (reject_if-ok _ _ h))
root_before-cases (absent e) h = inr (e, refl)
root_before-cases (broken e) h = cc

child_before-dir :
    (p : Presence FileMode)
    → child_before p ≡ ok true
    → (m : FileMode) × (p ≡ exists m) × (is_dir m ≡ true)
child_before-dir (exists m) h = (
  m,
  refl,
  not-false (is_dir m) (
      reject_if-ok _ _
        (>>-eq-ok (reject_if (not (is_dir m)) (new integrity "state directory is not a directory"))
          _ h).0),
)
child_before-dir (absent e) h = cc
child_before-dir (broken e) h = cc

pass :
    (e f : Error) (m : FileMode)
    → is_private_dir m ≡ true
    → (reject_if (not (is_dir m)) e >> reject_if (not (nat_eq m.perm private_dir)) f) ≡ ok tt
pass e f m h =
    let (d, p) = (is_private_dir_both m).0 h in
    ap (λ b. reject_if (not b) e >> reject_if (not (nat_eq m.perm private_dir)) f) d
    ∙ ap (λ b. reject_if (not b) f) p

module _ {World : Type 0} (host : Host World) where
  open host use {os, mkdir_all}

  -- What the manual says of `os.Mkdir` and `os.MkdirAll`, beside `IsLawful`: they make directories and lose nothing.
  pub record IsMaking : Type 0 where
    pub mkdir_made :
        (w v : World) (p : Text)
        → os.mkdir w p ≡ made v
        → (m : FileMode) × Is os v p m × (is_dir m ≡ true)
    pub mkdir_all_made :
        (w v : World) (p : Text) (n : ℕ) (e : Error)
        → mkdir_all w p n ≡ ok v
        → os.lstat w p ≡ absent e
        → (m : FileMode) × Is os v p m × (is_dir m ≡ true)
    pub mkdir_all_kept :
        (w v : World) (p : Text) (n : ℕ) → mkdir_all w p n ≡ ok v → IsKept os Nowhere w v

  pub require_state_root-private :
      (w : World) (path : Text)
      → reject_if
          (is_empty path || not (os.is_abs path))
          (usage "state root must be an absolute path")
        ≡ ok tt
      → IsPrivateDir os w path
      → require_state_root host w path ≡ ok tt
  unfolding require_state_root
  require_state_root-private w path h (m, i, p) = >>-after _ h (
      ap state_root_at i
      ∙ pass (new integrity "state root is not a directory") (new integrity "state root mode") m p)

  module _ (lawful : IsLawful os) (making : IsMaking) where
    made_directory :
        (w v : World) (p : Text) (m : Made World)
        → os.mkdir w p ≡ m
        → new_directory host m ≡ ok v
        → IsKept os Nowhere w v × ((k : FileMode) × Is os v p k × (is_dir k ≡ true))
    made_directory w v p (made x) i h =
        let e = i ∙ ap made (ok-injective h) in
        (mkdir-IsKept os lawful w v p e, making.mkdir_made w v p e)
    made_directory w v p already i h = cc
    made_directory w v p (unmade e) i h = cc

    init_child-IsEnsured :
        (w v : World) (p : Text) (present : Bool)
        → (present ≡ true → (m : FileMode) × Is os w p m × (is_dir m ≡ true))
        → init_child host w p present ≡ ok v
        → IsEnsured os lawful w v p
    unfolding init_child
    init_child-IsEnsured w v p true there h =
        let (m, i, d) = there refl in
        make_private os lawful w v p m i d
          (or_else-ok (wrap integrity "state directory create") (os.chmod w p private_dir) h)
    init_child-IsEnsured w v p false there h =
        let (x, a, c) =
          >>=-eq-ok
            (or_else (wrap integrity "state directory create") (new_directory host (os.mkdir w p)))
            _ h in
        let (kept, (m, i, d)) = made_directory w x p (os.mkdir w p) refl (or_else-ok _ _ a) in
        let (later, private) = make_private os lawful x v p m i d (or_else-ok _ _ c) in
        (IsKept-trans os Nowhere w x v kept later, private)

    init_root :
        (w v : World) (p : Text)
        → root_before (os.lstat w p) ≡ ok tt
        → mkdir_all w p private_dir ≡ ok v
        → (m : FileMode) × Is os v p m × (is_dir m ≡ true)
    init_root w v p before h = elim (root_before-cases (os.lstat w p) before) [
      | inl (m, i, d) ↦
          let k = (making.mkdir_all_kept w v p private_dir h).dirs p m (λ e. e) i d in
          (k.mode, k.there, k.directory)
      | inr (e, i) ↦ making.mkdir_all_made w v p private_dir e h i
    ]

    child_at :
        (w v : World) (p : Text) (b : Bool)
        → IsKept os Nowhere w v
        → child_before (os.lstat w p) ≡ ok b
        → b ≡ true
        → (m : FileMode) × Is os v p m × (is_dir m ≡ true)
    child_at w v p b kept h t =
        let (m, i, d) = child_before-dir (os.lstat w p) (h ∙ ap ok t) in
        let k = kept.dirs p m (λ e. e) i d in (k.mode, k.there, k.directory)

    -- Where the calls keep to the manual: after a successful `init`, `lanesPath` finds the lanes of the state root, the
    -- directory for the evidence is private, and every file and directory that was on the disk is kept.
    pub init-lanes_path :
        (w v : World) (state work : Text)
        → init host w state work ≡ ok v
        → (lanes_path host v state ≡ ok (os.join (state ∷ text "lanes" ∷ [])))
          × IsPrivateDir os v (os.join (state ∷ text "evidence" ∷ []))
          × IsKept os Nowhere w v
    unfolding init lanes_path
    init-lanes_path w v state work h =
        let lanes = os.join (state ∷ text "lanes" ∷ []) in
        let evidence = os.join (state ∷ text "evidence" ∷ []) in
        let (absolute, h1) =
          >>-eq-ok
            (reject_if (is_empty state || not (os.is_abs state))
              (usage "state root must be an absolute path"))
            _ h in
        let (given, h2) =
          >>-eq-ok (reject_if (is_empty work) (usage "workspace is required")) _ h1 in
        let (there, h3) = >>-eq-ok (require_workspace host w work) _ h2 in
        let (apart, h4) = >>-eq-ok (validate_separation (host.paths w) state work) _ h3 in
        let (before, h5) = >>-eq-ok (root_before (os.lstat w state)) _ h4 in
        let (l, has_lanes, h6) = >>=-eq-ok (child_before (os.lstat w lanes)) _ h5 in
        let (e, has_evidence, h7) = >>=-eq-ok (child_before (os.lstat w evidence)) _ h6 in
        let (a, root_made, h8) =
          >>=-eq-ok (or_else (wrap integrity "state root create") (mkdir_all w state private_dir)) _
            h7 in
        let (b, root_mode, h9) =
          >>=-eq-ok (or_else (wrap integrity "state root mode") (os.chmod a state private_dir)) _
            h8 in
        let (c, lanes_made, h10) = >>=-eq-ok (init_child host b lanes l) _ h9 in
        let all_made = or_else-ok _ _ root_made in
        let first = making.mkdir_all_kept w a state private_dir all_made in
        let (m, i, d) = init_root w a state before all_made in
        let (second, root_private) =
          make_private os lawful a b state m i d (or_else-ok _ _ root_mode) in
        let up_to = IsKept-trans os Nowhere w a b first second in
        let (third, lanes_private) =
          init_child-IsEnsured b c lanes l (child_at w b lanes l up_to has_lanes) lanes_made in
        let up_to_lanes = IsKept-trans os Nowhere w b c up_to third in
        let (fourth, evidence_private) =
          init_child-IsEnsured c v evidence e (child_at w c evidence e up_to_lanes has_evidence)
            h10 in
        let root_later =
          IsPrivateDir-kept os b v state (IsKept-trans os Nowhere b c v third fourth)
            root_private in
        let (k, j, p) = IsPrivateDir-kept os c v lanes fourth lanes_private in
        (
          >>-after _ (require_state_root-private v state absolute root_later) (
              >>-after (ok lanes)
                (ap lanes_at j
                  ∙ pass (new integrity "lanes directory") (new integrity "lanes directory mode") k
                      p)
                refl),
          evidence_private,
          IsKept-trans os Nowhere w c v up_to_lanes fourth,
        )
