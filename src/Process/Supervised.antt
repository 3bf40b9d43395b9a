-- ===== src/Process/Supervised.antt =====
-- What a run without an error (`Run` of core/process/supervisor.go) has done.
use native.Mathlib.Omega.{arith}
use provehito.Common.{
  length, ◌+◌, ◌≤◌, has_byte, ℕ, Text, Bool, true, not, ◌||◌, List, Option, none, some, All,
  is_empty, ◌≡◌, refl, sym, ◌∙◌, ap, subst, inl, inr, Bool-cases, not-false,
}
use provehito.Common.Ints.{ℤ, pos, negsuc, is_positive}
use provehito.Failure.Outcome.{
  ok, err, Result-cases, ok-injective, not-ok-err, reject_if, reject_if-ok, >>=-eq-ok, >>-eq-ok,
}
use provehito.Workspace.Paths.{canonical_path, same_path}
use provehito.Workspace.Active.{active_workspace}
use provehito.Adapter.{Profile, validate_profile, validate_routing}
use provehito.Process.Budget.{Output, start, write_all}
use provehito.Process.Bounded.{write_all-IsWithin}
use provehito.Process.Environment.{IsAllowed, allowlisted_environment-IsAllowed}
use provehito.Process.Request.{
  Request, Host, lease_or_failure, validate_agent_arguments, validate_request,
}
use provehito.Process.Run.{
  if_valid, zero_result, Command, WaitResult, exited, exit_error, unwaited, Ending, waited, expired,
  stopped, Session, stopped_before, unstarted, ran, RunResult, ended, supervise, command_of,
  result_of, run_request,
}

validate_profile-limit :
    (is_abs valid_name : Text → Bool) (p : Profile)
    → validate_profile is_abs valid_name p ≡ ok tt
    → is_positive p.output_limit ≡ true
unfolding validate_profile
validate_profile-limit is_abs valid_name p h =
    let (r1, h1) = >>-eq-ok (validate_routing p true) _ h in
    let (r2, h2) =
      >>-eq-ok
        (reject_if (is_empty p.executable || not (is_abs p.executable) || has_byte 0 p.executable)
          _)
        _ h1 in
    let (r3, h3) = >>-eq-ok (reject_if (not (is_positive p.timeout)) _) _ h2 in
    let (r4, h4) = >>-eq-ok (reject_if (not (is_positive p.output_limit)) _) _ h3 in
    not-false (is_positive p.output_limit) (reject_if-ok (not (is_positive p.output_limit)) _ r4)

positive_pos : (n : ℤ) → is_positive n ≡ true → (m : ℕ) × (n ≡ pos m)
positive_pos (pos m) h = (m, refl)
positive_pos (negsuc m) h = cc

lease_or_failure-ok : (o : Option Text) (path : Text) → lease_or_failure o ≡ ok path → o ≡ some path
lease_or_failure-ok none path h = cc
lease_or_failure-ok (some t) path h = elim (Bool-cases (is_empty t)) [
  | inl p ↦ absurd (not-ok-err (sym (rw p at h)))
  | inr p ↦ let e : ok t ≡ ok path = rw p at h in ap some (ok-injective e)
]

module _ {Info : Type 0} (host : Host Info) where
  open host use {platform, mode, is_abs, valid_name, environ}

  -- An active lease for the workspace of the request, and a valid profile.
  pub record IsLeased (request : Request) : Type 0 where
    pub profile : validate_profile is_abs valid_name request.profile ≡ ok tt
    pub lease_path : Text
    pub active : active_workspace platform mode request.lease ≡ some lease_path
    pub requested : Text
    pub leased : Text
    pub canonical : canonical_path platform.files request.workspace ≡ ok requested
    pub canonical_lease : canonical_path platform.files lease_path ≡ ok leased
    pub same : same_path platform.files requested leased ≡ ok true

  validate_request-IsLeased :
      (request : Request) → validate_request host request ≡ ok tt → IsLeased request
  unfolding validate_request
  validate_request-IsLeased request h =
      let (r1, h1) = >>-eq-ok (reject_if (is_empty request.workspace) _) _ h in
      let (r2, h2) = >>-eq-ok (validate_profile is_abs valid_name request.profile) _ h1 in
      let (r3, h3) = >>-eq-ok (validate_agent_arguments request.args) _ h2 in
      let (lease_path, l, h4) =
        >>=-eq-ok (lease_or_failure (active_workspace platform mode request.lease)) _ h3 in
      let (requested, c, h5) = >>=-eq-ok (canonical_path platform.files request.workspace) _ h4 in
      let (leased, d, h6) = >>=-eq-ok (canonical_path platform.files lease_path) _ h5 in
      let (same, s, h7) = >>=-eq-ok (same_path platform.files requested leased) _ h6 in
      record {
        profile = r2;
        lease_path = lease_path;
        active = lease_or_failure-ok (active_workspace platform mode request.lease) lease_path l;
        requested = requested;
        leased = leased;
        canonical = c;
        canonical_lease = d;
        same = s ∙ ap ok (not-false same (reject_if-ok (not same) _ h7));
      }

  -- A process that has ended by itself.
  pub record IsEnded (session : Session) (limit : ℤ) (r : RunResult) : Type 0 where
    pub outputs : List Output
    pub how : WaitResult
    pub session_ran : session ≡ ran outputs (waited how)
    pub result : r ≡ result_of host (write_all (start limit) outputs) how

  ended-IsEnded :
      (limit : ℤ) (outputs : List Output) (ending : Ending) (r : RunResult)
      → ended host (write_all (start limit) outputs) ending ≡ (r, ok tt)
      → IsEnded (ran outputs ending) limit r
  unfolding ended
  ended-IsEnded limit outputs (expired (some e) w) r h = absurd (not-ok-err (sym (ap (λ x. x.1) h)))
  ended-IsEnded limit outputs (stopped cause (some e) w) r h =
      absurd (not-ok-err (sym (ap (λ x. x.1) h)))
  ended-IsEnded limit outputs (stopped cause none w) r h =
      absurd (not-ok-err (sym (ap (λ x. x.1) h)))
  ended-IsEnded limit outputs (expired none w) r h = absurd (not-ok-err (sym (ap (λ x. x.1) h)))
  ended-IsEnded limit outputs (waited (unwaited e)) r h =
      absurd (not-ok-err (sym (ap (λ x. x.1) h)))
  ended-IsEnded limit outputs (waited exited) r h = record {
    outputs = outputs;
    how = exited;
    session_ran = refl;
    result = sym (ap (λ x. x.0) h);
  }
  ended-IsEnded limit outputs (waited (exit_error code has_sys)) r h = record {
    outputs = outputs;
    how = exit_error code has_sys;
    session_ran = refl;
    result = sym (ap (λ x. x.0) h);
  }

  supervise-IsEnded :
      (limit : ℤ) (session : Session) (r : RunResult)
      → supervise host limit session ≡ (r, ok tt)
      → IsEnded session limit r
  unfolding supervise
  supervise-IsEnded limit (stopped_before cause) r h = absurd (not-ok-err (sym (ap (λ x. x.1) h)))
  supervise-IsEnded limit (unstarted e) r h = absurd (not-ok-err (sym (ap (λ x. x.1) h)))
  supervise-IsEnded limit (ran outputs ending) r h = ended-IsEnded limit outputs ending r h

  -- What is known of a run without an error.
  pub record IsSupervised (launch : Command → Session) (request : Request) (r : RunResult)
      : Type 0 where
    pub leased : IsLeased request
    pub ended : IsEnded (launch (command_of host request)) request.profile.output_limit r
    pub limit : ℕ
    pub limited : request.profile.output_limit ≡ pos limit
    pub bounded : length r.stdout + length r.stderr ≤ limit
    pub environment :
        All (IsAllowed request.profile.env_allowlist environ) (command_of host request).environment

  result_of-bounded :
      (n : ℤ) (limit : ℕ) (session : Session) (r : RunResult)
      → n ≡ pos limit
      → IsEnded session n r
      → length r.stdout + length r.stderr ≤ limit
  unfolding result_of
  result_of-bounded n limit session r e d =
      let s = write_all (start (pos limit)) d.outputs in
      let within = write_all-IsWithin limit d.outputs in
      let same : r ≡ result_of host s d.how =
        d.result ∙ ap (λ m. result_of host (write_all (start m) d.outputs) d.how) e in
      let spent = within.spent in
      let small : length s.stdout.kept + length s.stderr.kept ≤ limit = omega (arith, spent) in
      subst (λ x. length x.stdout + length x.stderr ≤ limit) (sym same) small

  -- Where `Run` returns no error, the request carried a valid profile and an active lease for its own workspace;
  -- the process was launched with only allowed variables of the environment and ended by itself, before its
  -- timeout and without cancellation; and what is kept of its two streams is together at most the profile's limit.
  pub run_request-IsSupervised :
      (launch : Command → Session) (request : Request) (r : RunResult)
      → run_request host launch request ≡ (r, ok tt)
      → IsSupervised launch request r
  unfolding run_request command_of
  run_request-IsSupervised launch request r h =
      let run = supervise host request.profile.output_limit (launch (command_of host request)) in
      elim (Result-cases (validate_request host request)) [
        | inr (e, p) ↦
            let refused : (zero_result host, err e) ≡ (r, ok tt) =
              subst (λ c. if_valid host c run ≡ (r, ok tt)) p h in
            absurd (not-ok-err (sym (ap (λ x. x.1) refused)))
        | inl (_, p) ↦
            let leased = validate_request-IsLeased request p in
            let ended =
              supervise-IsEnded request.profile.output_limit (launch (command_of host request)) r
                (subst (λ c. if_valid host c run ≡ (r, ok tt)) p h) in
            let (limit, limited) =
              positive_pos request.profile.output_limit
                (validate_profile-limit is_abs valid_name request.profile leased.profile) in
            record {
              leased = leased;
              ended = ended;
              limit = limit;
              limited = limited;
              bounded =
                  result_of-bounded request.profile.output_limit limit
                    (launch (command_of host request)) r limited ended;
              environment = allowlisted_environment-IsAllowed request.profile.env_allowlist environ;
            }
      ]
