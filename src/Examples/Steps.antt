-- ===== src/Examples/Steps.antt =====
-- Steps of a lane, of a run's output and of a launch.
use provehito.Common.{text, List, [], ◌∷◌, ◌++◌, ◌≡◌, ◌≤◌, ◌<◌, ◌*◌, ◌↔◌, ◌⊎◌, refl, arith}
use provehito.Common.Ints.{pos}
use provehito.Failure.Outcome.{ok}
use provehito.Lifecycle.{
  Event, Snapshot, at_state, planned, active, frozen, blocked, activate, freeze, block, resume,
  apply, parse_event, event_text, known_state,
}
use provehito.Lifecycle.Order.{IsStored, IsExit, effective}
use provehito.Lifecycle.Transitions.{IsDeclared, parse_event_iff}
use provehito.Lifecycle.Traces.{run, run-IsStored, run-forward, forward, forward_order, remaining}
use provehito.Process.Budget.{write_all, start, to_stdout, to_stderr}
use provehito.Process.Bounded.{IsWithin, write_all-IsWithin}
use provehito.Adapter.{Profile, DispatchEnvelope, validate_dispatch, second}
use provehito.Adapter.Envelope.{validate_dispatch_iff}

abbrev blocked_active : Snapshot
blocked_active = record { state = blocked; blocked_from = active }

active_IsStored : IsStored (at_state active)
unfolding known_state
active_IsStored = ground arith

active_blocks : apply (at_state active) block ≡ ok blocked_active
unfolding apply
active_blocks = refl

active_freezes : apply (at_state active) freeze ≡ ok (at_state frozen)
unfolding apply
active_freezes = refl

parse_event_iff_example :
    (parse_event (text "freeze") ≡ ok freeze)
    ↔ (IsDeclared freeze × (event_text freeze ≡ text "freeze"))
parse_event_iff_example = parse_event_iff (text "freeze") freeze

abbrev events : List Event
events = activate ∷ block ∷ resume ∷ freeze ∷ []

lane_runs : run (at_state planned) events ≡ ok (at_state frozen)
unfolding run
lane_runs = refl

run-forward_example :
    IsExit frozen ⊎ (forward_order ≡ forward events ++ remaining (effective (at_state frozen)))
run-forward_example = run-forward (at_state frozen) events lane_runs

abbrev later_events : List Event
later_events = block ∷ resume ∷ freeze ∷ []

active_runs : run (at_state active) later_events ≡ ok (at_state frozen)
unfolding run
active_runs = refl

run-IsStored_example : IsStored (at_state frozen)
run-IsStored_example =
    run-IsStored (at_state active) (at_state frozen) later_events active_IsStored active_runs

write_all-IsWithin_example :
    IsWithin 5 (write_all (start (pos 5)) (to_stdout (text "abc") ∷ to_stderr (text "defg") ∷ []))
write_all-IsWithin_example =
    write_all-IsWithin 5 (to_stdout (text "abc") ∷ to_stderr (text "defg") ∷ [])

abbrev profile : Profile
profile = record {
  id = text "local";
  executable = text "/bin/agent";
  args = [];
  capabilities = text "write" ∷ [];
  family = text "f1";
  cost_rank = pos 0;
  env_allowlist = [];
  version_probe_args = [];
  timeout = pos 1500000000;
  output_limit = pos 4096;
}

abbrev envelope : DispatchEnvelope
envelope = record {
  adapter = text "local";
  family = text "f1";
  max_seconds = pos 2;
  max_output_bytes = pos 4096;
  cost_class = text "low";
}

validate_dispatch_iff_example : (validate_dispatch profile (text "low") envelope ≡ ok tt) ↔ (
    (text "local" ≡ text "local")
    × (text "f1" ≡ text "f1")
    × ((0 < 2) × (1500000000 ≤ 2 * second) × (0 < 4096) × (4096 ≤ 4096))
    × (text "low" ≡ text "low"))
validate_dispatch_iff_example =
    validate_dispatch_iff 1500000000 2 4096 4096 (text "low") profile envelope refl refl refl refl
