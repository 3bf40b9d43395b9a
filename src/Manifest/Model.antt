-- ===== src/Manifest/Model.antt =====
-- The records of core/manifest/model.go. A pointer that may be nil is an `Option`, and so is a
-- slice that the program tests for nil.
use native.Mathlib.Decide.{ℕ_discrete}
use provehito.Common.{Text, Bool, List, Option}
use provehito.Common.Ints.{ℤ}
use provehito.Lifecycle.{State, Snapshot}

pub record Dispatch : Type 0 where
  pub workspace : Text
  pub source_control : Text
  pub writer : Text
  pub adapter : Text
  pub family : Text
  pub seat_id : Text
  pub cost_class : Text
  pub allowed_paths : Option (List Text)
  pub forbidden_paths : Option (List Text)
  pub non_goals : Option (List Text)
  pub required_checks : Option (List Text)
  pub review_policy : Text
  pub max_seconds : ℤ
  pub max_output_bytes : ℤ
  pub max_memory_bytes : ℤ

pub record FreezeRecord : Type 0 where
  pub base : Text
  pub head : Text
  pub candidate : Text
  pub tree : Text
  pub diff : Text
  pub at : Text

pub record ReviewRecord : Type 0 where
  pub reviewer : Text
  pub family : Text
  pub seat_id : Text
  pub verdict : Text
  pub fingerprint : Text
  pub evidence_hashes : List Text
  pub at : Text

pub record EvidenceReference : Type 0 where
  pub name : Text
  pub hash : Text

pub record FailureRecord : Type 0 where
  pub class : Text
  pub op : Text
  pub at : Text
  pub error : Text

pub record Manifest : Type 0 where
  pub schema_version : ℤ
  pub lane_id : Text
  pub state : State
  pub blocked_from : State
  pub dispatch : Dispatch
  pub dispatch_hash : Text
  pub freeze : Option FreezeRecord
  pub review : Option ReviewRecord
  pub evidence : List EvidenceReference
  pub failures : List FailureRecord
  pub created_at : Text
  pub updated_at : Text
  pub external_actions_human_only : Bool

unfoldable pub Dispatch-discrete : Discrete Dispatch
Dispatch-discrete = hlevel ℕ_discrete

unfoldable pub freeze-discrete : Discrete (Option FreezeRecord)
freeze-discrete = hlevel ℕ_discrete

unfoldable pub review-discrete : Discrete (Option ReviewRecord)
review-discrete = hlevel ℕ_discrete

-- `laneSnapshot`
abbrev pub lane_snapshot : Manifest → Snapshot
lane_snapshot m = record { state = m.state; blocked_from = m.blocked_from }
