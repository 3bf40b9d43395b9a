-- ===== src/Examples/Leases.antt =====
-- Two threads and the lease of one workspace.
use native.Mathlib.Omega.{arith}
use provehito.Common.{ℕ, none, some, ◌≡◌, ◌≢◌}
use provehito.Failure.Outcome.{ok, err}
use provehito.Workspace.Lease.{holding, detect_look, finished, abandoned}
use provehito.Workspace.Protocol.{fresh, System, both, stays, detects}
use provehito.Workspace.Exclusion.{holding-one}
use provehito.Workspace.Abandoned.{ended, abandoned-blocks}
use provehito.Workspace.Runs.{Leads, turn, enters, acquire-holding, detect-false_alarm}

abbrev first : ℕ
first = 1

abbrev second : ℕ
second = 2

one_not_two : first ≢ second
one_not_two = omega arith

two_not_one : second ≢ first
two_not_one = omega arith

-- Thread 1 holds the lease, and thread 2 begins to look for an abandoned one.
abbrev watched : Leads fresh second first detect_look holding (both (some first) (some first))
watched = enters two_not_one detect_look detects (turn (acquire-holding first second one_not_two))

abbrev held : System
held = watched.last

holding-one_example :
    (first ≡ first) × (held.world.holder ≡ some first) × (held.world.lease ≡ some first)
holding-one_example = holding-one held first first watched.run watched.there watched.there

abandoned-blocks_example :
    ((ended first held).world.lease ≡ some first) × ((ended first held).stage second ≢ holding)
abandoned-blocks_example =
    abandoned-blocks first second held (ended first held) watched.run watched.there stays

detect-false_alarm_example :
    Leads held second first (finished (err abandoned)) (finished (ok tt)) (both none none)
detect-false_alarm_example =
    detect-false_alarm first second held one_not_two watched.run watched.there watched.here
