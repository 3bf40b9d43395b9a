-- ===== src/Fingerprint/Clean.antt =====
-- When `parseStatus` of core/fingerprint/git.go reports a clean workspace.
use provehito.Common.{
  ℕ, Text, Bool, true, false, List, [], ◌∷◌, Option, none, some, is_empty, nat_eq, ◌≡◌, ◌↔◌, refl,
  sym, inl, inr, Bool-cases,
}
use provehito.Failure.Outcome.{ok, ok-injective, not-ok-err}
use provehito.Fingerprint.Status.{
  split, last_byte, put_back, malformed_record, is_move, status_records, status_of, parse_status,
  push,
}

-- Once dirty, the records leave it so.
status_records-dirty : (rs : List Text) {b : Bool} → status_records true rs ≡ ok b → b ≡ true
unfolding status_records
status_records-dirty [] h = cc
status_records-dirty (r ∷ []) h = elim (Bool-cases (malformed_record r)) [
  | inl p ↦ absurd (not-ok-err (sym (rw p at h)))
  | inr p ↦ elim (Bool-cases (is_move r)) [
    | inl q ↦ absurd (not-ok-err (sym (rw (p, q) at h)))
    | inr q ↦ sym (ok-injective (rw (p, q) at h))
  ]
]
status_records-dirty (r ∷ s ∷ rs) h = elim (Bool-cases (malformed_record r)) [
  | inl p ↦ absurd (not-ok-err (sym (rw p at h)))
  | inr p ↦ elim (Bool-cases (is_move r)) [
    | inr q ↦ status_records-dirty (s ∷ rs) (rw (p, q) at h)
    | inl q ↦ elim (Bool-cases (is_empty s)) [
      | inl z ↦ absurd (not-ok-err (sym (rw (p, q, z) at h)))
      | inr z ↦ status_records-dirty rs (rw (p, q, z) at h)
    ]
  ]
]

-- The first record makes it dirty.
status_records-first :
    (dirty : Bool) (r : Text) (rs : List Text) {b : Bool}
    → status_records dirty (r ∷ rs) ≡ ok b
    → b ≡ true
unfolding status_records
status_records-first dirty r [] h = status_records-dirty (r ∷ []) h
status_records-first dirty r (s ∷ rs) h = status_records-dirty (r ∷ s ∷ rs) h

split-records :
    (sep : ℕ) (t : Text) {b : Bool} → status_records false (split sep t) ≡ ok b → b ≡ true
unfolding split
split-records sep [] h = status_records-first false [] [] h
split-records sep (c ∷ t) h = elim (Bool-cases (nat_eq c sep)) [
  | inl p ↦ status_records-first false [] (split sep t) (rw p at h)
  | inr p ↦ pushed c (split sep t) (rw p at h)
]
  where
    pushed :
        (c : ℕ) (ps : List Text) {b : Bool} → status_records false (push c ps) ≡ ok b → b ≡ true
    pushed c [] h = status_records-first false (c ∷ []) [] h
    pushed c (p ∷ ps) h = status_records-first false (c ∷ p) ps h

put_back-some : (c : ℕ) (r : Option (Text × ℕ)) → put_back c r ≡ none → r ≡ none
put_back-some c none h = refl
put_back-some c (some (u, l)) h = cc

pub last_byte-none : (t : Text) → last_byte t ≡ none → t ≡ []
unfolding last_byte
last_byte-none [] h = refl
last_byte-none (c ∷ []) h = cc
last_byte-none (c ∷ d ∷ t) h =
    let e = last_byte-none (d ∷ t) (put_back-some c (last_byte (d ∷ t)) h) in cc

status_of-clean : (r : Option (Text × ℕ)) → status_of r ≡ ok false → r ≡ none
unfolding status_of
status_of-clean none h = refl
status_of-clean (some (body, last)) h = elim (Bool-cases (nat_eq last 0)) [
  | inl p ↦ let e : false ≡ true = split-records 0 body (rw p at h) in absurd (cc)
  | inr p ↦ absurd (not-ok-err (sym (rw p at h)))
]

-- A workspace is reported as clean exactly when Git prints nothing.
pub parse_status-clean_iff : (bytes : Text) → (parse_status bytes ≡ ok false) ↔ (bytes ≡ [])
unfolding parse_status status_of last_byte
parse_status-clean_iff bytes =
    (λ h. last_byte-none bytes (status_of-clean (last_byte bytes) h), λ h. rw h refl)
