-- ===== src/Lifecycle/Side.antt =====
-- The events that leave the order of core/lifecycle/order.go and the one that comes back to it.
use native.Mathlib.Omega.{arith}
use provehito.Common.{subst, ◌≡◌, ◌⊎◌, inl, inr}
use provehito.Failure.Outcome.{ok}
use provehito.Lifecycle.{
  Event, Snapshot, blocked, abandoned, incident, block, resume, abandon, incident_event, apply,
  rejected,
}

-- A snapshot after another is blocked from its state, given up, or back where it was blocked.
abbrev pub IsSide : Snapshot → Snapshot → Type 0
IsSide s t =
    ((t.state ≡ blocked) × (t.blocked_from ≡ s.state))
    ⊎ (t.state ≡ abandoned)
    ⊎ (t.state ≡ incident)
    ⊎ ((s.state ≡ blocked) × (t.state ≡ s.blocked_from))

abbrev pub IsSideEvent : Event → Type 0
IsSideEvent e = (e ≡ block) ⊎ (e ≡ resume) ⊎ (e ≡ abandon) ⊎ (e ≡ incident_event)

block-IsSide :
    (s t : Snapshot) → apply s block ≡ ok t → (t.state ≡ blocked) × (t.blocked_from ≡ s.state)
unfolding apply rejected
block-IsSide s t h = (ground arith, ground arith)

resume-IsSide :
    (s t : Snapshot) → apply s resume ≡ ok t → (s.state ≡ blocked) × (t.state ≡ s.blocked_from)
unfolding apply rejected
resume-IsSide s t h = (ground arith, ground arith)

abandon-IsSide : (s t : Snapshot) → apply s abandon ≡ ok t → t.state ≡ abandoned
unfolding apply rejected
abandon-IsSide s t h = ground arith

incident-IsSide : (s t : Snapshot) → apply s incident_event ≡ ok t → t.state ≡ incident
unfolding apply rejected
incident-IsSide s t h = ground arith

-- A side event never moves a lane on in the order.
pub apply-IsSide : (s t : Snapshot) (e : Event) → IsSideEvent e → apply s e ≡ ok t → IsSide s t
apply-IsSide s t e (inl p) h = inl (block-IsSide s t (subst (λ x. apply s x ≡ ok t) p h))
apply-IsSide s t e (inr (inl p)) h =
    inr (inr (inr (resume-IsSide s t (subst (λ x. apply s x ≡ ok t) p h))))
apply-IsSide s t e (inr (inr (inl p))) h =
    inr (inl (abandon-IsSide s t (subst (λ x. apply s x ≡ ok t) p h)))
apply-IsSide s t e (inr (inr (inr p))) h =
    inr (inr (inl (incident-IsSide s t (subst (λ x. apply s x ≡ ok t) p h))))
