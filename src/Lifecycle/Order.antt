-- ===== src/Lifecycle/Order.antt =====
-- The order predicates of core/lifecycle/order.go against the events of transition.go.
use provehito.Common.{ℕ, ◌+◌, true, Option, none, some, ◌≡◌, ◌≢◌, ◌⊎◌, arith, if◌then◌else◌}
use provehito.Failure.Outcome.{ok}
use provehito.Lifecycle.{
  State, blocked, abandoned, incident, Event, block, resume, Snapshot, is_blocked, rank, apply,
  known_state, blockable_from, no_state,
}

-- The state whose position a snapshot has: a blocked one has its predecessor's.
abbrev pub effective : Snapshot → State
effective s = if is_blocked s.state then s.blocked_from else s.state

-- Abandoned and incident.
abbrev pub IsExit : State → Type 0
IsExit s = (s ≡ abandoned) ⊎ (s ≡ incident)

-- How far an event moves the position.
abbrev pub stride : Event → ℕ
stride block = 0
stride resume = 0
stride _ = 1

abbrev pub advance : Option ℕ → ℕ → Option ℕ
advance none n = none
advance (some p) n = some (p + n)

-- A snapshot that the program stores: its state is known, and a predecessor is recorded exactly
-- while it is blocked.
pub record IsStored (s : Snapshot) : Type 0 where
  pub known : known_state s.state ≡ true
  pub while_blocked : s.state ≡ blocked → blockable_from s.blocked_from ≡ true
  pub unset : s.state ≢ blocked → s.blocked_from ≡ no_state

-- An accepted event leads to an exit, or moves the position forward: by one for the five forward
-- events, by none for block and resume. No event moves a lane back.
pub apply-rank :
    (s t : Snapshot) (e : Event)
    → IsStored s
    → apply s e ≡ ok t
    → IsExit t.state
      ⊎ ((rank (effective s) ≢ none)
          × (rank (effective t) ≡ advance (rank (effective s)) (stride e)))
unfolding apply rank known_state blockable_from
apply-rank s t e w h = ground arith

-- A stored snapshot stays stored under every accepted event.
pub apply-IsStored : (s t : Snapshot) (e : Event) → IsStored s → apply s e ≡ ok t → IsStored t
unfolding apply known_state blockable_from
apply-IsStored s t e w h = ground arith
