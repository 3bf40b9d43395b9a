-- ===== src/Adapter/Envelope.antt =====
-- `ValidateDispatch` of core/adapter/profile.go against the limits it enforces, in nanoseconds.
use provehito.Common.{
  not-false, ◌<◌, ℕ, ◌≤◌, ◌*◌, ◌/◌, ◌%◌, Text, false, not, ◌&&◌, ◌||◌, ltb, nat_eq, leb, ◌==◌,
  eq_iff, ◌≡◌, ◌↔◌, refl, arith,
}
use provehito.Common.Ints.{pos, int_le, int_eq}
use provehito.Failure.Outcome.{ok, guards_iff}
use provehito.Adapter.{
  dispatch_guards, Profile, DispatchEnvelope, second, exceeds_limits, validate_dispatch,
}

-- The timeout is longer than the seconds allowed.
timeout_iff :
    (n s : ℕ)
    → ((not (leb (n / second) s) || (nat_eq (n / second) s && ltb 0 (n % second))) ≡ false)
      ↔ (n ≤ s * second)
timeout_iff n s = (λ h. ground arith, λ h. ground arith)

numbers_iff :
    (n s o b : ℕ)
    → ((not (ltb 0 s)
          || not (leb (n / second) s)
          || (nat_eq (n / second) s && ltb 0 (n % second))
          || not (ltb 0 b)
          || not (leb o b))
        ≡ false)
      ↔ ((0 < s) × (n ≤ s * second) × (0 < b) × (o ≤ b))
numbers_iff n s o b = (λ h. ground arith, λ h. ground arith)

limits_iff :
    (n s o b : ℕ) (p : Profile) (e : DispatchEnvelope)
    → p.timeout ≡ pos n
    → e.max_seconds ≡ pos s
    → p.output_limit ≡ pos o
    → e.max_output_bytes ≡ pos b
    → (exceeds_limits p e ≡ false) ↔ ((0 < s) × (n ≤ s * second) × (0 < b) × (o ≤ b))
unfolding exceeds_limits int_le int_eq
limits_iff n s o b p e tn es po eb = rw (tn, es, po, eb) (numbers_iff n s o b)

both_equal : (a b c d : Text) → ((not (a == b) || not (c == d)) ≡ false) ↔ ((a ≡ b) × (c ≡ d))
both_equal a b c d =
    let l = eq_iff a b in
    let r = eq_iff c d in (λ h. ground (arith, l, r), λ h. ground (arith, l, r))

dispatch_iff :
    (class : Text) (p : Profile) (e : DispatchEnvelope)
    → (validate_dispatch p class e ≡ ok tt) ↔ (
        (p.id ≡ e.adapter)
        × (p.family ≡ e.family)
        × (exceeds_limits p e ≡ false)
        × (class ≡ e.cost_class))
unfolding validate_dispatch dispatch_guards
dispatch_iff class p e =
    let g = guards_iff (dispatch_guards p class e) in
    let ids = both_equal p.id e.adapter p.family e.family in
    let cost = eq_iff class e.cost_class in
    (
      λ h.
          let (a, (b, (c, _))) = g.0 h in
          ((ids.0 a).0, (ids.0 a).1, b, cost.0 (not-false (class == e.cost_class) c)),
      λ (i, f, l, c). g.1 (ids.1 (i, f), (l, (rw (cost.1 c) refl, tt))),
    )

-- A profile with a timeout of n nanoseconds and an output limit of o bytes fits an envelope of s
-- seconds and b bytes exactly when adapter, family and cost class agree, n is at most s seconds, o is at
-- most b, and both limits are positive: rounding to whole seconds loses nothing.
pub validate_dispatch_iff :
    (n s o b : ℕ) (class : Text) (p : Profile) (e : DispatchEnvelope)
    → p.timeout ≡ pos n
    → e.max_seconds ≡ pos s
    → p.output_limit ≡ pos o
    → e.max_output_bytes ≡ pos b
    → (validate_dispatch p class e ≡ ok tt) ↔ (
        (p.id ≡ e.adapter)
        × (p.family ≡ e.family)
        × ((0 < s) × (n ≤ s * second) × (0 < b) × (o ≤ b))
        × (class ≡ e.cost_class))
validate_dispatch_iff n s o b class p e tn es po eb =
    let l = limits_iff n s o b p e tn es po eb in
    let d = dispatch_iff class p e in
    (λ h. let (i, f, x, c) = d.0 h in (i, f, l.0 x, c), λ (i, f, x, c). d.1 (i, f, l.1 x, c))
