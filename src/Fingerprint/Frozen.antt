-- ===== src/Fingerprint/Frozen.antt =====
-- What `Freeze` of core/fingerprint/git.go has asked Git and what the frozen fingerprint holds.
use native.Mathlib.Omega.{arith}
use provehito.Common.{
  ◌≢◌, ℕ, Text, text, Bool, true, false, not, ◌&&◌, ◌||◌, List, [], ◌∷◌, ◌++◌, Option, none, some,
  is_empty, has_byte, nat_eq, ◌≡◌, refl, sym, ◌∙◌, ap, subst, inl, inr, Bool-cases, Option-cases,
  not-false,
}
use provehito.Failure.{Class, wrap, is_hash}
use provehito.Failure.Outcome.{
  Check, Result, ok, err, or_else, or_else-ok, ok-injective, not-ok-err, reject_if, reject_if-ok,
  >>=-eq-ok, >>-eq-ok, ◌>>◌,
}
use provehito.Fingerprint.Identity.{Fingerprint}
use provehito.Fingerprint.Status.{
  submodules_of, submodule_lines, last_byte, put_back, parse_status, parse_submodule_status,
  parse_object_id, object_id_of, is_object_id,
}
use provehito.Fingerprint.Clean.{parse_status-clean_iff, last_byte-none}
use provehito.Fingerprint.Provider.{
  Provider, run, status_args, submodule_args, rev_args, diff_args, object_id_or_failure,
  require_clean, resolve, inspect_candidate, inspect, stamp, freeze,
}

abbrev rejoin : Text × ℕ → Text
rejoin r = r.0 ++ (r.1 ∷ [])

some-injective : {A : Type 0} {a b : A} → some a ≡ some b → a ≡ b
some-injective h = cc

-- The last byte and what stands before it.
last_byte-some : (t : Text) (r : Text × ℕ) → last_byte t ≡ some r → t ≡ rejoin r
unfolding last_byte
last_byte-some [] r h = cc
last_byte-some (c ∷ []) r h = ap rejoin (some-injective h)
last_byte-some (c ∷ d ∷ t) r h = elim (Option-cases (last_byte (d ∷ t))) [
  | inl n ↦ absurd (let e : none ≡ some r = rw n at h in cc e)
  | inr ((u, l), e) ↦
      let same : some (c ∷ u, l) ≡ some r = sym (ap (put_back c) e) ∙ h in
      ap (λ x. c ∷ x) (last_byte-some (d ∷ t) (u, l) e) ∙ ap rejoin (some-injective same)
]

abbrev line_of : Text → Text
line_of value = value ++ (b'\n' ∷ [])

object_id_of-line :
    (r : Option (Text × ℕ)) (value : Text)
    → object_id_of r ≡ some value
    → (r ≡ some (value, b'\n')) × (is_object_id value ≡ true)
object_id_of-line none value h = cc
object_id_of-line (some (v, l)) value h =
    elim (Bool-cases (nat_eq l b'\n' && not (has_byte b'\n' v) && is_object_id v)) [
      | inl p ↦
          let e : v ≡ value = some-injective (rw p at h) in
          let ends : l ≡ b'\n' = ground (arith, p) in
          let id : is_object_id v ≡ true = ground (arith, p) in
          (cc (e, ends), subst (λ t. is_object_id t ≡ true) e id)
      | inr p ↦ absurd (let c : none ≡ some value = rw p at h in cc c)
    ]

-- What Git has answered to a revision: one line, an object id.
abbrev pub IsAnswer : Result Text → Text → Type 0
IsAnswer answer value = (answer ≡ ok (value ++ (b'\n' ∷ []))) × (is_object_id value ≡ true)

parse_object_id-line :
    (out value : Text)
    → parse_object_id out ≡ some value
    → (out ≡ line_of value) × (is_object_id value ≡ true)
unfolding parse_object_id
parse_object_id-line out value h =
    let (last, id) = object_id_of-line (last_byte out) value h in
    (last_byte-some out (value, b'\n') last, id)

object_id_or_failure-ok :
    (o : Option Text) {value : Text} → object_id_or_failure o ≡ ok value → o ≡ some value
object_id_or_failure-ok none h = cc
object_id_or_failure-ok (some v) h = cc

then-true : (m : Check) → (m >> ok true) ≢ ok false
then-true (ok a) h = cc
then-true (err e) h = cc

submodules_of-clean :
    (blank : Text → Bool) (r : Option (Text × ℕ)) → submodules_of blank r ≡ ok false → r ≡ none
unfolding submodules_of
submodules_of-clean blank none h = refl
submodules_of-clean blank (some (body, last)) h =
    absurd (then-true (submodule_lines blank body last) h)

submodules-clean :
    (blank : Text → Bool) (bytes : Text)
    → parse_submodule_status blank bytes ≡ ok false
    → bytes ≡ []
unfolding parse_submodule_status
submodules-clean blank bytes h =
    last_byte-none bytes (submodules_of-clean blank (last_byte bytes) h)

module _ (p : Provider) (git : Text → List Text → Result Text) (workspace : Text) where
  run-ok :
      (args : List Text) {out : Text}
      → run p git workspace args ≡ ok out
      → git workspace args ≡ ok out
  unfolding run
  run-ok args h = or_else-ok (wrap Class.tooling_or_adapter "git command") (git workspace args) h

  resolve-IsAnswer :
      (rev value : Text)
      → resolve p git workspace rev ≡ ok value
      → IsAnswer (git workspace (rev_args rev)) value
  unfolding resolve
  resolve-IsAnswer rev value h =
      let (out, asked, h1) = >>=-eq-ok (run p git workspace (rev_args rev)) _ h in
      let (line, id) =
        parse_object_id-line out value (object_id_or_failure-ok (parse_object_id out) h1) in
      (run-ok (rev_args rev) asked ∙ ap ok line, id)

  -- Git has printed nothing for the status and for the submodules.
  require_clean-silent :
      require_clean p git workspace ≡ ok tt
      → (git workspace status_args ≡ ok []) × (git workspace submodule_args ≡ ok [])
  unfolding require_clean
  require_clean-silent h =
      let (status, asked, h1) = >>=-eq-ok (run p git workspace status_args) _ h in
      let (dirty, parsed, h2) = >>=-eq-ok (or_else _ (parse_status status)) _ h1 in
      let (r1, h3) = >>-eq-ok (reject_if dirty _) _ h2 in
      let (submodules, asked2, h4) = >>=-eq-ok (run p git workspace submodule_args) _ h3 in
      let (present, parsed2, h5) =
        >>=-eq-ok (or_else _ (parse_submodule_status p.blank submodules)) _ h4 in
      let quiet =
        (parse_status-clean_iff status).0
          (or_else-ok _ (parse_status status) parsed ∙ ap ok (reject_if-ok dirty _ r1)) in
      let quiet2 = submodules-clean p.blank submodules (
        or_else-ok _ (parse_submodule_status p.blank submodules) parsed2
        ∙ ap ok (reject_if-ok present _ h5)) in
      (run-ok status_args asked ∙ ap ok quiet, run-ok submodule_args asked2 ∙ ap ok quiet2)

  -- What `Inspect` has asked, and what it makes of the answers.
  pub record IsInspected (base : Text) (f : Fingerprint) : Type 0 where
    pub clean : git workspace status_args ≡ ok []
    pub plain : git workspace submodule_args ≡ ok []
    pub based : IsAnswer (git workspace (rev_args (base ++ text "^{commit}"))) f.base_commit
    pub headed : IsAnswer (git workspace (rev_args (text "HEAD^{commit}"))) f.head_commit
    pub treed : IsAnswer (git workspace (rev_args (text "HEAD^{tree}"))) f.head_tree
    pub compared :
        (diff : Text) × (git workspace (diff_args f.base_commit f.head_commit) ≡ ok diff)
        × (f.diff_hash ≡ p.hex_sha256 diff)

  inspect_candidate-IsInspected :
      (base : Text) (f : Fingerprint)
      → inspect_candidate p git workspace base ≡ ok f
      → IsInspected base f
  unfolding inspect_candidate
  inspect_candidate-IsInspected base f h =
      let (clean, h1) = >>-eq-ok (require_clean p git workspace) _ h in
      let (quiet, quiet2) = require_clean-silent clean in
      let (base_commit, b, h2) =
        >>=-eq-ok (resolve p git workspace (base ++ text "^{commit}")) _ h1 in
      let (head_commit, c, h3) = >>=-eq-ok (resolve p git workspace (text "HEAD^{commit}")) _ h2 in
      let (head_tree, t, h4) = >>=-eq-ok (resolve p git workspace (text "HEAD^{tree}")) _ h3 in
      let (diff, d, h5) =
        >>=-eq-ok (run p git workspace (diff_args base_commit head_commit)) _ h4 in
      subst (IsInspected base) (ok-injective h5) record {
        clean = quiet;
        plain = quiet2;
        based = resolve-IsAnswer (base ++ text "^{commit}") base_commit b;
        headed = resolve-IsAnswer (text "HEAD^{commit}") head_commit c;
        treed = resolve-IsAnswer (text "HEAD^{tree}") head_tree t;
        compared = (diff, run-ok (diff_args base_commit head_commit) d, refl);
      }

module _ (p : Provider) (workspace base manifest_hash : Text) where
  -- The frozen fingerprint: the inspected one, stamped.
  pub record IsFrozen (f : Fingerprint) : Type 0 where
    pub hash : is_hash manifest_hash ≡ true
    pub git : Text → List Text → Result Text
    pub runner : p.runner ≡ some git
    pub inspected : Fingerprint
    pub candidate : IsInspected p git workspace base inspected
    pub now : Text
    pub clock : p.now ≡ some now
    pub stamped : f ≡ stamp p inspected manifest_hash now

  inspect-IsInspected :
      (f : Fingerprint)
      → inspect p workspace base ≡ ok f
      → (git : Text → List Text → Result Text) × (p.runner ≡ some git)
        × IsInspected p git workspace base f
  unfolding inspect
  inspect-IsInspected f h = elim (Option-cases p.runner) [
    | inl n ↦ absurd (not-ok-err (sym (rw n at h)))
    | inr (git, e) ↦
        let (given, h1) =
          >>-eq-ok (reject_if (is_empty workspace || is_empty base) _) _ (rw e at h) in
        (git, e, inspect_candidate-IsInspected p git workspace base f h1)
  ]

  -- Where `Freeze` returns a fingerprint, the manifest hash is a hash, Git has printed nothing for the status
  -- and the submodules, each object of the fingerprint is an object id that Git has printed as one line
  -- for its revision, the diff hash is that of Git's diff between the two commits, and the rest is stamped on.
  pub freeze-IsFrozen :
      (f : Fingerprint) → freeze p workspace base manifest_hash ≡ ok f → IsFrozen f
  unfolding freeze
  freeze-IsFrozen f h =
      let (valid, h1) = >>-eq-ok (reject_if (not (is_hash manifest_hash)) _) _ h in
      let (inspected, i, h2) = >>=-eq-ok (inspect p workspace base) _ h1 in
      let (git, runner, candidate) = inspect-IsInspected inspected i in
      elim (Option-cases p.now) [
        | inl n ↦ absurd (not-ok-err (sym (rw n at h2)))
        | inr (now, e) ↦ record {
          hash =
              not-false (is_hash manifest_hash)
                (reject_if-ok (not (is_hash manifest_hash)) _ valid);
          git = git;
          runner = runner;
          inspected = inspected;
          candidate = candidate;
          now = now;
          clock = e;
          stamped = sym (ok-injective (rw e at h2));
        }
      ]
