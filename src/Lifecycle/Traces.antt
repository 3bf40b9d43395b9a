-- ===== src/Lifecycle/Traces.antt =====
-- Sequences of accepted events from a lane's first state.
use provehito.Common.{
  inl, ap, inr, ◌∙◌, ◌++◌, List, [], ◌∷◌, Bool, true, false, ◌≡◌, ◌⊎◌, arith, if◌then◌else◌,
}
use provehito.Failure.Outcome.{err, Result, ok, ◌>>=◌, >>=-eq-ok}
use provehito.Lifecycle.{
  at_state, State, planned, active, frozen, reviewed, ready, Event, activate, freeze, record_review,
  mark_ready, close, block, resume, Snapshot, rank, apply, known_state, blockable_from,
}
use provehito.Lifecycle.Order.{IsStored, IsExit, effective, apply-IsStored}

-- A lane's life: `Apply` for one event after another, each accepted.
unfoldable pub run : Snapshot → List Event → Result Snapshot
unfolding apply
run s [] = ok s
run s (e ∷ es) = do t ← apply s e; run t es

-- A stored snapshot stays stored under every sequence of accepted events.
pub run-IsStored : (s t : Snapshot) (es : List Event) → IsStored s → run s es ≡ ok t → IsStored t
unfolding run
run-IsStored s t [] w h = ground arith
run-IsStored s t (e ∷ es) w h =
    let (u, step, later) = >>=-eq-ok (apply s e) (λ u. run u es) h in
    run-IsStored u t es (apply-IsStored s u e w step) later

-- The events that move a lane forward; block and resume are left out.
abbrev is_forward : Event → Bool
is_forward block = false
is_forward resume = false
is_forward _ = true

abbrev pub forward : List Event → List Event
forward [] = []
forward (e ∷ es) = if is_forward e then e ∷ forward es else forward es

abbrev pub forward_order : List Event
forward_order = activate ∷ freeze ∷ record_review ∷ mark_ready ∷ close ∷ []

-- The events that lead from a position to the end of the order.
abbrev pub remaining : State → List Event
remaining planned = forward_order
remaining active = freeze ∷ record_review ∷ mark_ready ∷ close ∷ []
remaining frozen = record_review ∷ mark_ready ∷ close ∷ []
remaining reviewed = mark_ready ∷ close ∷ []
remaining ready = close ∷ []
remaining _ = []

step-remaining :
    (s t : Snapshot) (e : Event)
    → IsStored s
    → apply s e ≡ ok t
    → IsExit t.state
      ⊎ (remaining (effective s)
          ≡ (if is_forward e then e ∷ remaining (effective t) else remaining (effective t)))
unfolding apply known_state blockable_from rank
step-remaining s t e w h = ground arith

exit-step : (s t : Snapshot) (e : Event) → IsExit s.state → apply s e ≡ ok t → ⊥
unfolding apply
exit-step s t e x h = ground arith

run-IsExit : (s t : Snapshot) (es : List Event) → IsExit s.state → run s es ≡ ok t → IsExit t.state
unfolding run
run-IsExit s t [] x h = ground arith
run-IsExit s t (e ∷ es) x h =
    let (u, step, later) = >>=-eq-ok (apply s e) (λ u. run u es) h in
    absurd (exit-step s u e x step)

remaining_of : Result Snapshot → List Event
remaining_of (ok s) = remaining (effective s)
remaining_of (err e) = []

prepend :
    (b : Bool) (e : Event) (xs us ts fs : List Event)
    → xs ≡ (if b then e ∷ us else us)
    → us ≡ fs ++ ts
    → xs ≡ (if b then e ∷ fs else fs) ++ ts
prepend true e xs us ts fs p q = p ∙ ap (◌∷◌ e) q
prepend false e xs us ts fs p q = p ∙ q

run-remaining :
    (s t : Snapshot) (es : List Event)
    → IsStored s
    → run s es ≡ ok t
    → IsExit t.state ⊎ (remaining (effective s) ≡ forward es ++ remaining (effective t))
unfolding run remaining_of
run-remaining s t [] w h = inr (ap (λ (x : Result Snapshot). remaining_of x) h)
run-remaining s t (e ∷ es) w h =
    let (u, step, later) = >>=-eq-ok (apply s e) (λ u. run u es) h in
    elim (step-remaining s u e w step) [
      | inl x ↦ inl (run-IsExit u t es x later)
      | inr p ↦ elim (run-remaining u t es (apply-IsStored s u e w step) later) [
        | inl x ↦ inl x
        | inr q ↦ inr (prepend (is_forward e) e _ _ _ (forward es) p q)
      ]
    ]

planned-IsStored : IsStored (at_state planned)
unfolding known_state
planned-IsStored = ground arith

-- A lane that has not been abandoned or closed by an incident stands where its forward events have
-- brought it, and these are an initial part of activate, freeze, record-review, mark-ready, close,
-- in that order: no step is skipped, repeated or undone, however often it is blocked and resumed.
pub run-forward :
    (t : Snapshot) (es : List Event)
    → run (at_state planned) es ≡ ok t
    → IsExit t.state ⊎ (forward_order ≡ forward es ++ remaining (effective t))
run-forward t es h = run-remaining (at_state planned) t es planned-IsStored h
