-- ===== src/Lifecycle/Transitions.antt =====
-- `Apply` and `ParseEvent` on every branch.
use provehito.Common.{
  refl, inr, subst, inl, Bool-cases, [], All, eq_iff, ◌==◌, ◌∷◌, text, List, Text, ◌≡◌, ◌↔◌, ◌⊎◌,
  arith,
}
use provehito.Failure.{new, policy_or_transition}
use provehito.Failure.Outcome.{ok-injective, ok, err}
use provehito.Lifecycle.{
  activate, all_events, event_text, find_event, parse_event, State, closed, abandoned, incident,
  Event, block, resume, abandon, Snapshot, apply, blockable_from, known_state, rejected,
}
use provehito.Lifecycle.Order.{IsStored}

abbrev pub IsTerminal : State → Type 0
IsTerminal s = (s ≡ closed) ⊎ (s ≡ abandoned) ⊎ (s ≡ incident)

-- A stored snapshot rejects every event exactly when its state is closed, abandoned or incident:
-- the terminal states take no event, and any other state can be abandoned.
pub apply-IsTerminal :
    (s : Snapshot)
    → IsStored s
    → IsTerminal s.state
      ↔ ((e : Event) → apply s e ≡ err (new policy_or_transition "lifecycle apply"))
unfolding apply rejected known_state
apply-IsTerminal s w = (λ h e. ground arith, λ h. ground (arith, h abandon, w.known))

-- Whatever can be blocked comes back by resume as it was.
pub resume-block : (s t : Snapshot) → IsStored s → apply s block ≡ ok t → apply t resume ≡ ok s
unfolding apply blockable_from
resume-block s t w h = ground arith

find_event-text :
    (token : Text) (es : List Event) (e : Event) → find_event token es ≡ ok e → event_text e ≡ token
unfolding find_event
find_event-text token [] e h = cc
find_event-text token (a ∷ es) e h =
    ground (arith, eq_iff token (event_text a), find_event-text token es e)

-- A declared event, as opposed to any other text.
abbrev pub IsDeclared : Event → Type 0
IsDeclared (Event.other t) = ⊥
IsDeclared _ = Unit

find_event-IsDeclared :
    (token : Text) (es : List Event) (e : Event)
    → All IsDeclared es
    → find_event token es ≡ ok e
    → IsDeclared e
unfolding find_event
find_event-IsDeclared token [] e d h = cc
find_event-IsDeclared token (a ∷ es) e d h = elim (Bool-cases (token == event_text a)) [
  | inl p ↦ subst IsDeclared (ok-injective (rw p at h)) d.0
  | inr p ↦ find_event-IsDeclared token es e d.1 (rw p at h)
]

parse_event_text : (e : Event) → IsDeclared e → parse_event (event_text e) ≡ ok e
unfolding parse_event event_text text ◌==◌
parse_event_text (Event.other t) d = absurd d
parse_event_text activate d = refl
parse_event_text _ d = refl

-- A token is parsed to an event exactly when the event is one of the nine declared ones and the
-- token is its text, byte for byte: no other spelling, case or surrounding text is accepted.
pub parse_event_iff :
    (token : Text) (e : Event)
    → (parse_event token ≡ ok e) ↔ (IsDeclared e × (event_text e ≡ token))
unfolding parse_event
parse_event_iff token e = (
  λ h. (
    find_event-IsDeclared token all_events e (omega arith) h,
    find_event-text token all_events e h,
  ),
  λ (d, p). rw (← p) (parse_event_text e d),
)
