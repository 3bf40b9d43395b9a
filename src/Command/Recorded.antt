-- ===== src/Command/Recorded.antt =====
-- What `runAgent` (cmd/provehito/commands_run.go) has done where it reports success.
use native.Mathlib.Omega.{arith}
use provehito.Common.{
  ◌≢◌, ◌∷◌, [], some, text, Text, true, false, not, ◌||◌, is_empty, ◌==◌, eq_iff, ◌≡◌, refl, sym,
  ◌∙◌, ap, subst, not-false, or_left, or_right,
}
use provehito.Common.Ints.{ℤ, pos, int_eq, int_eq_iff}
use provehito.Failure.Outcome.{
  Check, ok, ok-injective, reject_if, reject_if-ok, >>=-eq-ok, >>-eq-ok,
}
use provehito.Lifecycle.{State}
use provehito.Manifest.Model.{Manifest}
use provehito.Adapter.{Profile, validate_dispatch, cost_rank_for}
use provehito.Fingerprint.Identity.{Fingerprint}
use provehito.Evidence.Receipt.{Receipt, result_success}
use provehito.Workspace.Active.{Lease}
use provehito.Process.Run.{RunResult}
use provehito.Command.Agent.{
  hash_or, Flags, AgentHost, AgentReport, is_active, rank_or_failure, profile_of, envelope_of,
  request_of, class_and_code, agent_receipt, unless_abandoned, agent_profile, record_run, run_agent,
}

is_active-eq : (s : State) → is_active s ≡ true → s ≡ State.active
is_active-eq s h = ground arith

eq_of_not : (a b : Text) → not (a == b) ≡ false → a ≡ b
eq_of_not a b h = (eq_iff a b).0 (not-false (a == b) h)

module _ (host : AgentHost) (m : Manifest) (flags : Flags) where
  -- The lane is active, the flags are those of its dispatch, and the profile is let through.
  pub record IsDispatched (profile : Profile) : Type 0 where
    pub active : m.state ≡ State.active
    pub adapter : flags.profile_id ≡ m.dispatch.adapter
    pub family : flags.family ≡ m.dispatch.family
    pub seat : flags.seat_id ≡ m.dispatch.seat_id
    pub within : validate_dispatch profile flags.cost (envelope_of m) ≡ ok tt

  agent_profile-IsDispatched :
      (profile : Profile) → agent_profile host m flags ≡ ok profile → IsDispatched profile
  unfolding agent_profile
  agent_profile-IsDispatched profile h =
      let (r1, h1) = >>-eq-ok (reject_if (not (is_active m.state)) _) _ h in
      let (r2, h2) =
        >>-eq-ok
          (reject_if
            (not (flags.profile_id == m.dispatch.adapter)
              || not (flags.family == m.dispatch.family))
            _)
          _ h1 in
      let (r3, h3) = >>-eq-ok (reject_if (not (flags.seat_id == m.dispatch.seat_id)) _) _ h2 in
      let (duration, d, h4) = >>=-eq-ok (host.parse_duration flags.timeout) _ h3 in
      let (rank, k, h5) = >>=-eq-ok (rank_or_failure (cost_rank_for host.lower flags.cost)) _ h4 in
      let (r4, h6) = >>-eq-ok (reject_if (is_empty flags.capabilities) _) _ h5 in
      let (v, h7) =
        >>-eq-ok (validate_dispatch (profile_of flags duration rank) flags.cost (envelope_of m)) _
          h6 in
      let other = not (flags.family == m.dispatch.family) in
      let both = reject_if-ok (not (flags.profile_id == m.dispatch.adapter) || other) _ r2 in
      record {
        active =
            is_active-eq m.state
              (not-false (is_active m.state) (reject_if-ok (not (is_active m.state)) _ r1));
        adapter =
            eq_of_not flags.profile_id m.dispatch.adapter
              (or_left (not (flags.profile_id == m.dispatch.adapter)) other both);
        family =
            eq_of_not flags.family m.dispatch.family
              (or_right (not (flags.profile_id == m.dispatch.adapter)) both);
        seat =
            eq_of_not flags.seat_id m.dispatch.seat_id
              (reject_if-ok (not (flags.seat_id == m.dispatch.seat_id)) _ r3);
        within =
            subst (λ p. validate_dispatch p flags.cost (envelope_of m) ≡ ok tt) (ok-injective h7) v;
      }

  -- What the receipt of a successful run says: of which lane, candidate, method, seat and probe it is, and that the run
  -- was a success; its two artifacts are the outputs, under the hashes that are reported.
  pub record IsSuccess (fp : Fingerprint) (ran : RunResult) (report : AgentReport)
      (receipt : Receipt) : Type 0 where
    pub of_candidate : receipt.candidate_hash ≡ fp.equivalent_hash
    pub of_lane : receipt.manifest_hash ≡ m.dispatch_hash
    pub by_method : receipt.method_id ≡ text "agent-run"
    pub by_seat : receipt.seat_id ≡ flags.seat_id
    pub told : receipt.probe ≡ host.probe ran report.stdout_hash report.stderr_hash
    pub class : receipt.result_class ≡ result_success
    pub code : receipt.exit_code ≡ pos 0
    pub outputs :
        receipt.artifacts
        ≡ some (
            record { name = text "stdout"; hash = report.stdout_hash; path = [] }
            ∷ record { name = text "stderr"; hash = report.stderr_hash; path = [] }
            ∷ [])

  -- The hash that is reported for an output: its own, or that of the empty text where the run has none.
  abbrev pub IsShown : (hash shown : Text) → Type 0
  IsShown hash shown = (hash ≢ [] → shown ≡ hash) × (hash ≡ [] → shown ≡ host.empty_stream_hash)

  -- The run has succeeded with exit code 0, a receipt that says so of the frozen candidate and the lane is stored
  -- under the reported hash, and the report is of the same candidate, lane, code and seat.
  pub record IsRecorded (fp : Fingerprint) (ran : RunResult × Check) (report : AgentReport)
      : Type 0 where
    pub clean : ran.1 ≡ ok tt
    pub zero_exit : ran.0.exit_code ≡ pos 0
    pub receipt : Receipt
    pub stored : host.add_receipt receipt ≡ ok report.receipt
    pub success : IsSuccess fp ran.0 report receipt
    pub candidate : report.candidate_hash ≡ fp.equivalent_hash
    pub lane : report.manifest_hash ≡ m.dispatch_hash
    pub code : report.exit_code ≡ pos 0
    pub seat : report.seat_id ≡ flags.seat_id
    pub stdout : IsShown ran.0.stdout_hash report.stdout_hash
    pub stderr : IsShown ran.0.stderr_hash report.stderr_hash

  hash_or-IsShown : (hash : Text) → IsShown hash (hash_or host.empty_stream_hash hash)
  hash_or-IsShown [] = (λ n. absurd (n refl), λ e. refl)
  hash_or-IsShown (c ∷ cs) = (λ n. refl, λ e. cc)

  class_and_code-success :
      (r : RunResult) (c : Check)
      → c ≡ ok tt
      → r.exit_code ≡ pos 0
      → class_and_code r c ≡ (result_success, pos 0)
  unfolding class_and_code int_eq
  class_and_code-success r c e z = rw (e, z) refl

  agent_receipt-IsSuccess :
      (fp : Fingerprint) (ran : RunResult × Check) (report : AgentReport)
      → ran.1 ≡ ok tt
      → ran.0.exit_code ≡ pos 0
      → hash_or host.empty_stream_hash ran.0.stdout_hash ≡ report.stdout_hash
      → hash_or host.empty_stream_hash ran.0.stderr_hash ≡ report.stderr_hash
      → IsSuccess fp ran.0 report (agent_receipt host m flags fp ran)
  unfolding agent_receipt
  agent_receipt-IsSuccess fp ran report clean zero out errors =
      let typed = class_and_code-success ran.0 ran.1 clean zero in
      record {
        of_candidate = refl;
        of_lane = refl;
        by_method = refl;
        by_seat = refl;
        told = rw (out, errors) refl;
        class = ap (λ (x : Text × ℤ). x.0) typed;
        code = ap (λ (x : Text × ℤ). x.1) typed;
        outputs = rw (out, errors) refl;
      }

  record_run-IsRecorded :
      (fp : Fingerprint) (ran : RunResult × Check) (report : AgentReport)
      → record_run host m flags fp ran ≡ ok report
      → IsRecorded fp ran report
  unfolding record_run
  record_run-IsRecorded fp ran report h =
      let (hash, stored, h1) =
        >>=-eq-ok (host.add_receipt (agent_receipt host m flags fp ran)) _ h in
      let (clean, h2) = >>-eq-ok ran.1 _ h1 in
      let (r, h3) = >>-eq-ok (reject_if (not (int_eq ran.0.exit_code (pos 0))) _) _ h2 in
      let same = ok-injective h3 in
      let zero = (int_eq_iff ran.0.exit_code (pos 0)).0 (
        not-false (int_eq ran.0.exit_code (pos 0))
          (reject_if-ok (not (int_eq ran.0.exit_code (pos 0))) _ r)) in
      record {
        clean = clean;
        zero_exit = zero;
        receipt = agent_receipt host m flags fp ran;
        stored = stored ∙ ap (λ x. ok x.receipt) same;
        success =
            agent_receipt-IsSuccess fp ran report clean zero (ap (λ x. x.stdout_hash) same)
              (ap (λ x. x.stderr_hash) same);
        candidate = sym (ap (λ x. x.candidate_hash) same);
        lane = sym (ap (λ x. x.manifest_hash) same);
        code = sym (ap (λ x. x.exit_code) same) ∙ zero;
        seat = sym (ap (λ x. x.seat_id) same);
        stdout =
            subst (IsShown ran.0.stdout_hash) (ap (λ x. x.stdout_hash) same)
              (hash_or-IsShown ran.0.stdout_hash);
        stderr =
            subst (IsShown ran.0.stderr_hash) (ap (λ x. x.stderr_hash) same)
              (hash_or-IsShown ran.0.stderr_hash);
      }

  -- Where `agent run` reports success, the lane was active and the flags were those of its dispatch, the profile
  -- was let through its envelope, the lease of the lane's workspace was acquired and the candidate frozen
  -- for the lane's dispatch hash, the agent ran under that lease without an error and with exit code 0, and the
  -- receipt stored under the reported hash names that candidate and the lane's dispatch hash, the method
  -- agent-run, the seat of the flags, the probe of the run, result SUCCESS, exit code 0, and the outputs under the
  -- reported hashes, which are those of the run.
  pub run_agent-IsRecorded :
      (report : AgentReport)
      → run_agent host m flags ≡ ok report
      → (profile : Profile) × (lease : Lease) × (fp : Fingerprint) × IsDispatched profile
        × (host.acquire m.lane_id m.dispatch.workspace ≡ ok lease)
        × (host.freeze m.dispatch.workspace flags.base m.dispatch_hash ≡ ok fp)
        × IsRecorded fp (host.run (request_of m lease profile)) report
  unfolding run_agent
  run_agent-IsRecorded report h =
      let (profile, p, h1) = >>=-eq-ok (agent_profile host m flags) _ h in
      let (quiet, h2) =
        >>-eq-ok (unless_abandoned host m flags (host.detect_abandoned m.dispatch.workspace)) _
          h1 in
      let (lease, l, h3) = >>=-eq-ok (host.acquire m.lane_id m.dispatch.workspace) _ h2 in
      let (fp, f, h4) =
        >>=-eq-ok (host.freeze m.dispatch.workspace flags.base m.dispatch_hash) _ h3 in
      (
        profile,
        lease,
        fp,
        agent_profile-IsDispatched profile p,
        l,
        f,
        record_run-IsRecorded fp (host.run (request_of m lease profile)) report h4,
      )
