-- ===== src/Lifecycle.antt =====
-- The lane state machine (core/lifecycle/state.go, order.go and transition.go).
pub mod Order
pub mod Transitions
pub mod Traces
pub mod Side
use provehito.Common.{
  ℕ, String, Text, text, Bool, true, false, Option, none, some, ◌&&◌, ◌||◌, List, [], ◌∷◌, leb,
  ◌==◌, if◌then◌else◌,
}
use provehito.Failure.{new, policy_or_transition}
use provehito.Failure.Outcome.{Result, ok, err}

-- `State` is a string type: the declared constants, and any other text. The zero value `""` is
-- `other []`.
pub data State : Type 0 where
  planned active frozen reviewed ready closed blocked abandoned incident : State
  other : Text → State

abbrev pub no_state : State
no_state = other []

-- `Event` is a string type with nine declared constants; `other` is any other text.
pub data Event : Type 0 where
  activate freeze record_review mark_ready close block resume abandon incident_event : Event
  other : Text → Event

-- `BlockedFrom` is set only while the state is `blocked`.
pub record Snapshot : Type 0 where
  pub state : State
  pub blocked_from : State

abbrev pub at_state : State → Snapshot
at_state s = record { state = s; blocked_from = no_state }

-- `==` with `Blocked` and with `Closed`.
abbrev pub is_blocked : State → Bool
is_blocked blocked = true
is_blocked _ = false

abbrev is_closed : State → Bool
is_closed closed = true
is_closed _ = false

-- `rank`: `none` for a state with no position.
unfoldable pub rank : State → Option ℕ
rank planned = some 0
rank active = some 1
rank frozen = some 2
rank reviewed = some 3
rank ready = some 4
rank closed = some 5
rank _ = none

abbrev position_at_least : Option ℕ → Option ℕ → Bool
position_at_least none floor = false
position_at_least (some p) none = leb 0 p
position_at_least (some p) (some f) = leb f p

-- `atOrAfter`: a blocked snapshot counts as its recorded predecessor.
unfoldable at_or_after : Snapshot → State → Bool
unfolding rank
at_or_after s floor =
    position_at_least (rank (if is_blocked s.state then s.blocked_from else s.state)) (rank floor)

unfoldable pub at_or_after_active : Snapshot → Bool
unfolding at_or_after
at_or_after_active s = at_or_after s active

unfoldable pub at_or_after_frozen : Snapshot → Bool
unfolding at_or_after
at_or_after_frozen s = at_or_after s frozen

unfoldable pub at_or_after_reviewed : Snapshot → Bool
unfolding at_or_after
at_or_after_reviewed s = at_or_after s reviewed

abbrev is_exit : State → Bool
is_exit blocked = true
is_exit abandoned = true
is_exit incident = true
is_exit _ = false

abbrev is_ranked : Option ℕ → Bool
is_ranked none = false
is_ranked (some p) = true

-- `KnownState`
unfoldable pub known_state : State → Bool
unfolding rank
known_state s = is_ranked (rank s) || is_exit s

-- `BlockableFrom`
unfoldable pub blockable_from : State → Bool
unfolding rank
blockable_from s = is_ranked (rank s) && (if is_closed s then false else true)

-- `blocked(from)`
abbrev blocked_at : State → Snapshot
blocked_at from = record { state = blocked; blocked_from = from }

rejected : Result Snapshot
rejected = err (new policy_or_transition "lifecycle apply")

-- The switch of `Apply` on the state and the event.
transition : State → State → Event → Result Snapshot
unfolding blockable_from rejected
transition planned from activate = ok (at_state active)
transition active from freeze = ok (at_state frozen)
transition frozen from record_review = ok (at_state reviewed)
transition reviewed from mark_ready = ok (at_state ready)
transition ready from close = ok (at_state closed)
transition planned from block = ok (blocked_at planned)
transition active from block = ok (blocked_at active)
transition frozen from block = ok (blocked_at frozen)
transition reviewed from block = ok (blocked_at reviewed)
transition ready from block = ok (blocked_at ready)
transition planned from abandon = ok (at_state abandoned)
transition active from abandon = ok (at_state abandoned)
transition frozen from abandon = ok (at_state abandoned)
transition reviewed from abandon = ok (at_state abandoned)
transition ready from abandon = ok (at_state abandoned)
transition blocked from abandon = ok (at_state abandoned)
transition planned from incident_event = ok (at_state incident)
transition active from incident_event = ok (at_state incident)
transition frozen from incident_event = ok (at_state incident)
transition reviewed from incident_event = ok (at_state incident)
transition ready from incident_event = ok (at_state incident)
transition blocked from incident_event = ok (at_state incident)
transition blocked from resume = if blockable_from from then ok (at_state from) else rejected
transition _ _ _ = rejected

-- `Apply`
unfoldable pub apply : Snapshot → Event → Result Snapshot
unfolding transition
apply s e = transition s.state s.blocked_from e

-- The text of an event, `allEvents` and `ParseEvent`.
unfoldable pub event_text : Event → Text
event_text activate = text "activate"
event_text freeze = text "freeze"
event_text record_review = text "record-review"
event_text mark_ready = text "mark-ready"
event_text close = text "close"
event_text block = text "block"
event_text resume = text "resume"
event_text abandon = text "abandon"
event_text incident_event = text "incident"
event_text (other t) = t

abbrev pub all_events : List Event
all_events =
    activate ∷ freeze ∷ record_review ∷ mark_ready ∷ close ∷ block ∷ resume ∷ abandon
    ∷ incident_event ∷ []

unfoldable pub find_event : Text → List Event → Result Event
unfolding event_text
find_event token [] = err (new policy_or_transition "lifecycle parse event")
find_event token (allowed ∷ rest) =
    if token == event_text allowed then ok allowed else find_event token rest

unfoldable pub parse_event : Text → Result Event
unfolding find_event
parse_event token = find_event token all_events
