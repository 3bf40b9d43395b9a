-- ===== src/Process/Environment.antt =====
-- The variables that `allowlistedEnvironment` (core/process/supervisor.go) lets through.
use mathlib.Core.List.{Mem, mem-cons_self, mem-cons_of_mem}
use provehito.Common.{
  Text, List, [], ◌∷◌, Option, none, some, All, ◌==◌, eq_iff, ◌≡◌, refl, sym, ◌∙◌, ap, subst, inl,
  inr, Bool-cases, Option-cases, if◌then◌else◌,
}
use provehito.Process.Request.{with_entry, is_key, key_of, entry_of, allowlisted_environment}

-- An entry of the surrounding environment under one of the names.
pub record IsAllowed (names environ : List Text) (entry : Text) : Type 0 where
  pub name : Text
  pub listed : Mem name names
  pub keyed : key_of entry ≡ some name
  pub given : Mem entry environ

is_key-keyed :
    (name e entry : Text) (k : Option Text)
    → (if is_key name k then some e else none) ≡ some entry
    → (k ≡ some name) × (e ≡ entry)
is_key-keyed name e entry none h = cc
is_key-keyed name e entry (some k) h = elim (Bool-cases (name == k)) [
  | inl p ↦ let same : some e ≡ some entry = rw p at h in (ap some (sym ((eq_iff name k).0 p)), cc)
  | inr p ↦ absurd (let c : none ≡ some entry = rw p at h in cc c)
]

entry_of-keyed :
    (name : Text) (environ : List Text) (entry : Text)
    → entry_of name environ ≡ some entry
    → (key_of entry ≡ some name) × Mem entry environ
unfolding entry_of
entry_of-keyed name [] entry h = cc
entry_of-keyed name (e ∷ es) entry h = elim (Option-cases (entry_of name es)) [
  | inr (later, p) ↦
      let same : some later ≡ some entry = rw p at h in
      let (keyed, given) = entry_of-keyed name es entry (p ∙ same) in
      (keyed, mem-cons_of_mem e given)
  | inl p ↦
      let (keyed, same) = is_key-keyed name e entry (key_of e) (rw p at h) in
      (subst (λ x. key_of x ≡ some name) same keyed, subst (λ x. Mem x (e ∷ es)) same mem-cons_self)
]

IsAllowed-cons :
    (name : Text) (names environ : List Text) (e : Text)
    → IsAllowed names environ e
    → IsAllowed (name ∷ names) environ e
IsAllowed-cons name names environ e a = record {
  name = a.name;
  listed = mem-cons_of_mem name a.listed;
  keyed = a.keyed;
  given = a.given;
}

All-IsAllowed-cons :
    (name : Text) (names environ es : List Text)
    → All (IsAllowed names environ) es
    → All (IsAllowed (name ∷ names) environ) es
All-IsAllowed-cons name names environ [] h = tt
All-IsAllowed-cons name names environ (e ∷ es) h =
    (IsAllowed-cons name names environ e h.0, All-IsAllowed-cons name names environ es h.1)

with_entry-IsAllowed :
    (name : Text) (names environ : List Text) (o : Option Text) (es : List Text)
    → ((entry : Text) → o ≡ some entry → (key_of entry ≡ some name) × Mem entry environ)
    → All (IsAllowed names environ) es
    → All (IsAllowed (name ∷ names) environ) (with_entry o es)
with_entry-IsAllowed name names environ none es found h = All-IsAllowed-cons name names environ es h
with_entry-IsAllowed name names environ (some e) es found h =
    let (keyed, given) = found e refl in
    (
      record { name = name; listed = mem-cons_self; keyed = keyed; given = given },
      All-IsAllowed-cons name names environ es h,
    )

pub allowlisted_environment-IsAllowed :
    (names environ : List Text)
    → All (IsAllowed names environ) (allowlisted_environment names environ)
unfolding allowlisted_environment
allowlisted_environment-IsAllowed [] environ = tt
allowlisted_environment-IsAllowed (name ∷ names) environ =
    with_entry-IsAllowed name names environ (entry_of name environ)
      (allowlisted_environment names environ) (entry_of-keyed name environ)
      (allowlisted_environment-IsAllowed names environ)
