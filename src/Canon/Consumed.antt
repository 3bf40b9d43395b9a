-- ===== src/Canon/Consumed.antt =====
-- The parser of core/canon/json.go consumes tokens.
use provehito.Common.{
  ℕ, zero, suc, ◌<◌, Text, List, [], ◌∷◌, ◌≡◌, ap, subst, arith, inl, inr, Bool-cases, length,
}
use provehito.Failure.Fuel.{done, ◌>>=◌, >>=-eq-done, done-injective}
use provehito.Canon.Value.{
  Token, bad, open_object, close_object, open_array, close_array, null_token, bool_token,
  string_token, number_token, Value, Fields, Items, end, nil,
}
use provehito.Canon.Parser.{
  as_object, as_array, more, next, key_of, refuse_duplicate, closing, parse_value, parse_fields,
  parse_items,
}

pub next-shorter :
    (ts : List Token) {r : Token × List Token} → next ts ≡ done r → length r.1 < length ts
next-shorter [] h = cc
next-shorter (bad e ∷ ts) h = cc
next-shorter (open_object ∷ ts) h =
    subst (λ x. length x < suc (length ts)) (ap (λ x. x.1) (done-injective h)) (omega arith)
next-shorter (t ∷ ts) h =
    subst (λ x. length x < suc (length ts)) (ap (λ x. x.1) (done-injective h)) (omega arith)

-- What is left after a value, an object's fields or an array's items is shorter.
pub record Consumes (f : ℕ) : Type 0 where
  pub value :
      (ts : List Token) (r : Value × List Token)
      → parse_value f ts ≡ done r
      → length r.1 < length ts
  pub fields :
      (seen : List Text) (ts : List Token) (r : Fields × List Token)
      → parse_fields f seen ts ≡ done r
      → length r.1 < length ts
  pub items :
      (ts : List Token) (r : Items × List Token)
      → parse_items f ts ≡ done r
      → length r.1 < length ts

shorter_end :
    {A : Type 0} (ts : List Token) (a : A) (r : A × List Token)
    → (do t ← next ts; done (a, closing t)) ≡ done r
    → length r.1 < length ts
shorter_end ts a r h =
    let (t, n, e) = >>=-eq-done (next ts) (λ t. done (a, closing t)) h in
    subst (λ x. length x < length ts) (ap (λ x. x.1) (done-injective e)) (next-shorter ts n)

Consumes-fields :
    (f : ℕ)
    → Consumes f
    → (seen : List Text) (ts : List Token) (r : Fields × List Token)
    → parse_fields (suc f) seen ts ≡ done r
    → length r.1 < length ts
unfolding parse_value
Consumes-fields f ih seen ts r h = elim (Bool-cases (more ts)) [
  | inr e ↦ shorter_end ts end r (rw (e, parse_fields) at h)
  | inl e ↦
      let (t, p, h1) = >>=-eq-done (next ts) _ (rw (e, parse_fields) at h) in
      let (key, k, h2) = >>=-eq-done (key_of t.0) _ h1 in
      let (u, d, h3) = >>=-eq-done (refuse_duplicate key seen) _ h2 in
      let (v, q, h4) = >>=-eq-done (parse_value f t.1) _ h3 in
      let (rest, s, h5) = >>=-eq-done (parse_fields f (key ∷ seen) v.1) _ h4 in
      let a = next-shorter ts p in
      let b = ih.value t.1 v q in
      let c = ih.fields (key ∷ seen) v.1 rest s in
      subst (λ x. length x < length ts) (ap (λ x. x.1) (done-injective h5)) (omega (arith, a, b, c))
]

Consumes-items :
    (f : ℕ)
    → Consumes f
    → (ts : List Token) (r : Items × List Token) → parse_items (suc f) ts ≡ done r
    → length r.1 < length ts
unfolding parse_value
Consumes-items f ih ts r h = elim (Bool-cases (more ts)) [
  | inr e ↦ shorter_end ts nil r (rw (e, parse_items) at h)
  | inl e ↦
      let (v, q, h1) = >>=-eq-done (parse_value f ts) _ (rw (e, parse_items) at h) in
      let (rest, s, h2) = >>=-eq-done (parse_items f v.1) _ h1 in
      let b = ih.value ts v q in
      let c = ih.items v.1 rest s in
      subst (λ x. length x < length ts) (ap (λ x. x.1) (done-injective h2)) (omega (arith, b, c))
]

Consumes-value :
    (f : ℕ)
    → Consumes f
    → (ts : List Token) (r : Value × List Token) → parse_value (suc f) ts ≡ done r
    → length r.1 < length ts
unfolding parse_value
Consumes-value f ih [] r h = cc
Consumes-value f ih (open_object ∷ ts) r h =
    let (a, p, e) = >>=-eq-done (parse_fields f [] ts) (λ x. done (as_object x)) h in
    let c = ih.fields [] ts a p in
    subst (λ x. length x < suc (length ts)) (ap (λ x. x.1) (done-injective e)) (omega (arith, c))
Consumes-value f ih (open_array ∷ ts) r h =
    let (a, p, e) = >>=-eq-done (parse_items f ts) (λ x. done (as_array x)) h in
    let c = ih.items ts a p in
    subst (λ x. length x < suc (length ts)) (ap (λ x. x.1) (done-injective e)) (omega (arith, c))
Consumes-value f ih (close_object ∷ ts) r h = cc
Consumes-value f ih (close_array ∷ ts) r h = cc
Consumes-value f ih (bad e ∷ ts) r h = cc
Consumes-value f ih (null_token ∷ ts) r h =
    subst (λ x. length x < suc (length ts)) (ap (λ x. x.1) (done-injective h)) (omega arith)
Consumes-value f ih (bool_token b ∷ ts) r h =
    subst (λ x. length x < suc (length ts)) (ap (λ x. x.1) (done-injective h)) (omega arith)
Consumes-value f ih (string_token t ∷ ts) r h =
    subst (λ x. length x < suc (length ts)) (ap (λ x. x.1) (done-injective h)) (omega arith)
Consumes-value f ih (number_token t ∷ ts) r h =
    subst (λ x. length x < suc (length ts)) (ap (λ x. x.1) (done-injective h)) (omega arith)

pub parse-Consumes : (f : ℕ) → Consumes f
unfolding parse_value
parse-Consumes zero = record {
  value = λ ts r h. cc;
  fields = λ seen ts r h. cc;
  items = λ ts r h. cc;
}
parse-Consumes (suc f) =
    let ih = parse-Consumes f in
    record {
      value = Consumes-value f ih;
      fields = Consumes-fields f ih;
      items = Consumes-items f ih;
    }
