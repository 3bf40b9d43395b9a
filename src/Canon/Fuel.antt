-- ===== src/Canon/Fuel.antt =====
-- The parser of core/canon/json.go ends: fuel of more than twice the tokens is enough.
use provehito.Common.{
  ℕ, zero, suc, ◌+◌, ◌<◌, Text, List, [], ◌∷◌, ◌≡◌, refl, ap, arith, inl, inr, Bool-cases, length,
  any_of, ◌==◌,
}
use provehito.Failure.Fuel.{Fueled, unfinished, failed, done, ◌>>=◌, Ends, >>=-Ends}
use provehito.Canon.Value.{Token, bad, open_object, open_array, string_token}
use provehito.Canon.Parser.{
  as_object, as_array, more, next, key_of, refuse_duplicate, parse_value, parse_fields, parse_items,
}
use provehito.Canon.Consumed.{next-shorter, parse-Consumes}

-- Two amounts of fuel that are both enough give the same result.
record Agree (f g : ℕ) : Type 0 where
  value :
      (ts : List Token)
      → length ts + length ts < f
      → length ts + length ts < g
      → parse_value f ts ≡ parse_value g ts
  fields :
      (seen : List Text) (ts : List Token)
      → length ts + length ts < f
      → length ts + length ts < g
      → parse_fields f seen ts ≡ parse_fields g seen ts
  items :
      (ts : List Token)
      → suc (length ts + length ts) < f
      → suc (length ts + length ts) < g
      → parse_items f ts ≡ parse_items g ts

-- Equal results with continuations that agree on what the result is.
bind-agree :
    {A B : Type 0} (m n : Fueled A) (k l : A → Fueled B)
    → m ≡ n
    → ((a : A) → m ≡ done a → k a ≡ l a)
    → (m >>= k) ≡ (n >>= l)
bind-agree unfinished n k l p h = rw (← p) refl
bind-agree (failed e) n k l p h = rw (← p) refl
bind-agree (done a) n k l p h = rw (← p) (h a refl)

module _ (f g : ℕ) (ih : Agree f g) where
  Agree-value :
      (ts : List Token)
      → length ts + length ts < suc f
      → length ts + length ts < suc g
      → parse_value (suc f) ts ≡ parse_value (suc g) ts
  unfolding parse_value
  Agree-value [] p q = refl
  Agree-value (open_object ∷ ts) p q =
      ap (λ m. m >>= λ r. done (as_object r))
        (ih.fields [] ts (omega (arith, p)) (omega (arith, q)))
  Agree-value (open_array ∷ ts) p q =
      ap (λ m. m >>= λ r. done (as_array r)) (ih.items ts (omega (arith, p)) (omega (arith, q)))
  Agree-value (t ∷ ts) p q = refl

  Agree-fields :
      (seen : List Text) (ts : List Token)
      → length ts + length ts < suc f
      → length ts + length ts < suc g
      → parse_fields (suc f) seen ts ≡ parse_fields (suc g) seen ts
  unfolding parse_value
  Agree-fields seen ts p q = elim (Bool-cases (more ts)) [
    | inr e ↦ rw (e, parse_fields) refl
    | inl e ↦
        rw (e, parse_fields)
          (bind-agree (next ts) (next ts) _ _ refl (λ t n.
            bind-agree (key_of t.0) (key_of t.0) _ _ refl (λ key _.
              bind-agree (refuse_duplicate key seen) (refuse_duplicate key seen) _ _ refl (λ u _.
                let a = next-shorter ts n in
                bind-agree (parse_value f t.1) (parse_value g t.1) _ _
                  (ih.value t.1 (omega (arith, a, p)) (omega (arith, a, q)))
                  (λ v w.
                    let b = (parse-Consumes f).value t.1 v w in
                    bind-agree (parse_fields f (key ∷ seen) v.1) (parse_fields g (key ∷ seen) v.1) _
                      _
                      (ih.fields (key ∷ seen) v.1 (omega (arith, a, b, p)) (omega (arith, a, b, q)))
                      (λ rest _. refl))))))
  ]

  Agree-items :
      (ts : List Token)
      → suc (length ts + length ts) < suc f
      → suc (length ts + length ts) < suc g
      → parse_items (suc f) ts ≡ parse_items (suc g) ts
  unfolding parse_value
  Agree-items ts p q = elim (Bool-cases (more ts)) [
    | inr e ↦ rw (e, parse_items) refl
    | inl e ↦
        rw (e, parse_items)
          (bind-agree (parse_value f ts) (parse_value g ts) _ _
            (ih.value ts (omega (arith, p)) (omega (arith, q)))
            (λ v w.
              let b = (parse-Consumes f).value ts v w in
              bind-agree (parse_items f v.1) (parse_items g v.1) _ _
                (ih.items v.1 (omega (arith, b, p)) (omega (arith, b, q))) (λ rest _. refl)))
  ]

fuel-Agree : (f g : ℕ) → Agree f g
fuel-Agree zero g = record {
  value = λ ts p q. absurd (omega (arith, p));
  fields = λ seen ts p q. absurd (omega (arith, p));
  items = λ ts p q. absurd (omega (arith, p));
}
fuel-Agree (suc f) zero = record {
  value = λ ts p q. absurd (omega (arith, q));
  fields = λ seen ts p q. absurd (omega (arith, q));
  items = λ ts p q. absurd (omega (arith, q));
}
fuel-Agree (suc f) (suc g) =
    let ih = fuel-Agree f g in
    record { value = Agree-value f g ih; fields = Agree-fields f g ih; items = Agree-items f g ih }

-- An amount of fuel that is enough ends in a value or an error of the program.
record Finishes (f : ℕ) : Type 0 where
  value : (ts : List Token) → length ts + length ts < f → Ends (parse_value f ts)
  fields :
      (seen : List Text) (ts : List Token)
      → length ts + length ts < f
      → Ends (parse_fields f seen ts)
  items : (ts : List Token) → suc (length ts + length ts) < f → Ends (parse_items f ts)

next-Ends : (ts : List Token) → Ends (next ts)
next-Ends [] = tt
next-Ends (bad e ∷ ts) = tt
next-Ends (open_object ∷ ts) = tt
next-Ends (t ∷ ts) = tt

key_of-Ends : (t : Token) → Ends (key_of t)
key_of-Ends (string_token k) = tt
key_of-Ends t = tt

refuse_duplicate-Ends : (k : Text) (seen : List Text) → Ends (refuse_duplicate k seen)
refuse_duplicate-Ends k seen = elim (Bool-cases (any_of (λ s. k == s) seen)) [
  | inl p ↦ rw p tt
  | inr p ↦ rw p tt
]

module _ (f : ℕ) (ih : Finishes f) where
  Finishes-value : (ts : List Token) → length ts + length ts < suc f → Ends (parse_value (suc f) ts)
  unfolding parse_value
  Finishes-value [] p = tt
  Finishes-value (open_object ∷ ts) p =
      >>=-Ends (parse_fields f [] ts) _ (ih.fields [] ts (omega (arith, p))) (λ r _. tt)
  Finishes-value (open_array ∷ ts) p =
      >>=-Ends (parse_items f ts) _ (ih.items ts (omega (arith, p))) (λ r _. tt)
  Finishes-value (t ∷ ts) p = tt

  Finishes-fields :
      (seen : List Text) (ts : List Token)
      → length ts + length ts < suc f
      → Ends (parse_fields (suc f) seen ts)
  unfolding parse_value
  Finishes-fields seen ts p = elim (Bool-cases (more ts)) [
    | inr e ↦ rw (e, parse_fields) (>>=-Ends (next ts) _ (next-Ends ts) (λ r _. tt))
    | inl e ↦
        rw (e, parse_fields)
          (>>=-Ends (next ts) _ (next-Ends ts) (λ t n.
            >>=-Ends (key_of t.0) _ (key_of-Ends t.0) (λ key _.
              >>=-Ends (refuse_duplicate key seen) _ (refuse_duplicate-Ends key seen) (λ u _.
                let a = next-shorter ts n in
                >>=-Ends (parse_value f t.1) _ (ih.value t.1 (omega (arith, a, p))) (λ v w.
                  let b = (parse-Consumes f).value t.1 v w in
                  >>=-Ends (parse_fields f (key ∷ seen) v.1) _
                    (ih.fields (key ∷ seen) v.1 (omega (arith, a, b, p))) (λ rest _. tt))))))
  ]

  Finishes-items :
      (ts : List Token) → suc (length ts + length ts) < suc f → Ends (parse_items (suc f) ts)
  unfolding parse_value
  Finishes-items ts p = elim (Bool-cases (more ts)) [
    | inr e ↦ rw (e, parse_items) (>>=-Ends (next ts) _ (next-Ends ts) (λ r _. tt))
    | inl e ↦
        rw (e, parse_items)
          (>>=-Ends (parse_value f ts) _ (ih.value ts (omega (arith, p))) (λ v w.
            let b = (parse-Consumes f).value ts v w in
            >>=-Ends (parse_items f v.1) _ (ih.items v.1 (omega (arith, b, p))) (λ rest _. tt)))
  ]

fuel-Finishes : (f : ℕ) → Finishes f
fuel-Finishes zero = record {
  value = λ ts p. absurd (omega (arith, p));
  fields = λ seen ts p. absurd (omega (arith, p));
  items = λ ts p. absurd (omega (arith, p));
}
fuel-Finishes (suc f) =
    let ih = fuel-Finishes f in
    record {
      value = Finishes-value f ih;
      fields = Finishes-fields f ih;
      items = Finishes-items f ih;
    }

-- On fuel of more than twice the number of tokens the parser ends, with a value and the rest or with an error of
-- the program, and any more fuel gives the same.
pub parse_value-fuel :
    (f : ℕ) (ts : List Token)
    → length ts + length ts < f
    → Ends (parse_value f ts) × (parse_value f ts ≡ parse_value (suc (length ts + length ts)) ts)
parse_value-fuel f ts p = (
  (fuel-Finishes f).value ts p,
  (fuel-Agree f (suc (length ts + length ts))).value ts p (omega arith),
)
