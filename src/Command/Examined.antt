-- ===== src/Command/Examined.antt =====
-- What `doctor` of cmd/provehito/commands_state.go accepts, the other commands accept too.
use provehito.Common.{
  Text, Bool, true, false, not, ◌||◌, is_empty, nat_eq, ◌≡◌, refl, sym, ◌∙◌, ap, if◌then◌else◌,
}
use provehito.Failure.{new, integrity}
use provehito.Failure.Outcome.{ok, err, reject_if, reject_if-ok, >>-eq-ok, >>-after}
use provehito.Workspace.Paths.{exists}
use provehito.Evidence.Disk.{FileMode, is_dir, private_dir}
use provehito.Command.State.{usage, state_root_at, require_state_root}
use provehito.Command.Lane.{Lanes}
use provehito.Command.Doctor.{
  Machine, state_at, doctor_state, doctor_checks, doctor, first_error-ok_iff,
}

module _ {World : Type 0} (machine : Machine World) (lanes : Lanes World) where
  open lanes use {host}

  state_at-root :
      (w : World) (state : Text) (m : FileMode)
      → state_at machine lanes w state (exists m) ≡ ok tt
      → state_root_at (exists m) ≡ ok tt
  state_at-root w state m h =
      let (d, h1) =
        >>-eq-ok (reject_if (not (is_dir m)) (new integrity "state root directory")) _ h in
      let (p, h2) =
        >>-eq-ok (reject_if (not (nat_eq m.perm private_dir)) (new integrity "state root mode")) _
          h1 in
      >>-after (reject_if (not (nat_eq m.perm private_dir)) (new integrity "state root mode"))
        (ap (λ b. reject_if b (new integrity "state root is not a directory")) (reject_if-ok _ _ d))
        p

  absolute_state :
      (w : World) (state : Text) (b : Bool)
      → (if b
          then doctor_state machine lanes w state
          else err (usage "state root must be an absolute path"))
        ≡ ok tt
      → (b ≡ true) × (doctor_state machine lanes w state ≡ ok tt)
  absolute_state w state true h = (refl, h)
  absolute_state w state false h = cc

  -- A state root that is there and passes `doctor` passes `requireStateRoot`.
  doctor-require_state_root :
      (w : World) (state work : Text) (m : FileMode)
      → doctor machine lanes w state work ≡ ok tt
      → host.os.lstat w state ≡ exists m
      → require_state_root host w state ≡ ok tt
  unfolding doctor require_state_root doctor_state
  doctor-require_state_root w state work m h i =
      let (given, h1) =
        >>-eq-ok (reject_if (is_empty state) (usage "state root is required")) _ h in
      let (system, (git, (schema, (present, rest)))) =
        (first_error-ok_iff (doctor_checks machine lanes w state work)).0 h1 in
      let (absolute, checked) = absolute_state w state (host.os.is_abs state) present in
      >>-after (state_root_at (host.os.lstat w state))
        (ap
            (λ b.
              reject_if (b || not (host.os.is_abs state))
                (usage "state root must be an absolute path"))
            (reject_if-ok _ _ given)
          ∙ ap (λ b. reject_if (not b) (usage "state root must be an absolute path")) absolute)
        (ap state_root_at i
          ∙ state_at-root w state m (ap (state_at machine lanes w state) (sym i) ∙ checked))
