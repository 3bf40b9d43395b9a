-- ===== src/Failure/Outcome.antt =====
-- A Go function that returns `(value, error)`, or an `error` alone, returns a `Result`; a chain of
-- `if err != nil { return err }` is a `do` block.
use provehito.Common.{◌∙◌, ap, [], ◌∷◌, List, ◌↔◌, Bool, true, false, ◌≡◌, refl, ◌⊎◌, inl, inr}
use provehito.Failure.{Error}

pub data Result {ℓ} (Value : Type ℓ) : Type ℓ where
  err : Error → Result Value
  ok : Value → Result Value

-- A function whose only result is its `error`.
abbrev pub Check : Type 0
Check = Result (Unit {0})

-- `if b { return failure }`
abbrev pub reject_if : Bool → Error → Check
reject_if true e = err e
reject_if false e = ok tt

-- `return …, failure.Wrap(class, op, err)`
abbrev pub or_else {ℓ} : {A : Type ℓ} → (Error → Error) → Result A → Result A
or_else f (ok a) = ok a
or_else f (err e) = err (f e)

infixl 5 ◌>>=◌
abbrev pub ◌>>=◌ {ℓ κ} : {X : Type ℓ} {Y : Type κ} → Result X → (X → Result Y) → Result Y
err failed >>= next = err failed
ok value >>= next = next value

infixl 5 ◌>>◌
abbrev pub ◌>>◌ {ℓ} : {Y : Type ℓ} → Check → Result Y → Result Y
first >> second = first >>= λ _. second

pub >>=-eq-ok {ℓ κ} :
    {X : Type ℓ} {Y : Type κ} (m : Result X) (next : X → Result Y) {y : Y}
    → (m >>= next) ≡ ok y
    → (x : X) × (m ≡ ok x) × (next x ≡ ok y)
>>=-eq-ok (err failed) next done = cc
>>=-eq-ok (ok value) next done = (value, refl, done)

-- The rest of a `do` block after a value.
pub >>=-after {ℓ κ} :
    {X : Type ℓ} {Y : Type κ} {m : Result X} (next : X → Result Y) {x : X} {r : Result Y}
    → m ≡ ok x
    → next x ≡ r
    → (m >>= next) ≡ r
>>=-after next e h = ap (λ v. v >>= next) e ∙ h

pub >>-after {ℓ} :
    {B : Type ℓ} {m : Check} (k : Result B) {r : Result B} → m ≡ ok tt → k ≡ r → (m >> k) ≡ r
>>-after k e h = ap (λ x. x >> k) e ∙ h

pub >>-eq-ok {ℓ} :
    {B : Type ℓ} (m : Check) (k : Result B) {b : B} → (m >> k) ≡ ok b → (m ≡ ok tt) × (k ≡ ok b)
>>-eq-ok (ok a) k h = (refl, h)
>>-eq-ok (err e) k h = cc

pub reject_if-ok : (b : Bool) (e : Error) → reject_if b e ≡ ok tt → b ≡ false
reject_if-ok true e h = cc
reject_if-ok false e h = refl

pub or_else-ok {ℓ} :
    {A : Type ℓ} (f : Error → Error) (m : Result A) {a : A} → or_else f m ≡ ok a → m ≡ ok a
or_else-ok f (ok a) h = h
or_else-ok f (err e) h = cc

pub Result-cases {ℓ} :
    {A : Type ℓ} (m : Result A) → ((a : A) × (m ≡ ok a)) ⊎ ((e : Error) × (m ≡ err e))
Result-cases (ok a) = inl (a, refl)
Result-cases (err e) = inr (e, refl)

pub ok-injective {ℓ} : {A : Type ℓ} {a b : A} → ok a ≡ ok b → a ≡ b
ok-injective h = cc

pub not-ok-err {ℓ} : {A : Type ℓ} {a : A} {e : Error} → ok a ≡ err e → ⊥
not-ok-err h = cc

-- A guard passes exactly when its test is false and what follows succeeds.
pub guard_iff {ℓ} :
    {A : Type ℓ} (b : Bool) (e : Error) (k : Result A) {a : A}
    → ((reject_if b e >> k) ≡ ok a) ↔ ((b ≡ false) × (k ≡ ok a))
guard_iff true e k = (λ h. cc, λ h. cc)
guard_iff false e k = (λ h. (refl, h), λ h. h.1)

last_guard_iff : (b : Bool) (e : Error) → (reject_if b e ≡ ok tt) ↔ (b ≡ false)
last_guard_iff true e = (λ h. cc, λ h. cc)
last_guard_iff false e = (λ h. refl, λ h. refl)

-- A wrapped result succeeds exactly when the result does.
or_else_iff {ℓ} :
    {A : Type ℓ} (f : Error → Error) (m : Result A) {a : A} → (or_else f m ≡ ok a) ↔ (m ≡ ok a)
or_else_iff f (ok a) = (λ h. h, λ h. h)
or_else_iff f (err e) = (λ h. cc, λ h. cc)

-- A row of `if test { return failure }`, in the order of the source.
unfoldable pub guards : List (Bool × Error) → Check
guards [] = ok tt
guards ((b, e) ∷ gs) = reject_if b e >> guards gs

abbrev pub AllPass : List (Bool × Error) → Type 0
AllPass [] = Unit
AllPass ((b, e) ∷ gs) = (b ≡ false) × AllPass gs

pub guards_iff : (gs : List (Bool × Error)) → (guards gs ≡ ok tt) ↔ AllPass gs
unfolding guards
guards_iff [] = (λ h. tt, λ h. refl)
guards_iff ((true, e) ∷ gs) = (λ h. cc, λ h. cc)
guards_iff ((false, e) ∷ gs) = let ih = guards_iff gs in (λ h. (refl, ih.0 h), λ h. ih.1 h.1)

-- Two checks in a row.
then_iff : (m k : Check) → ((m >> k) ≡ ok tt) ↔ ((m ≡ ok tt) × (k ≡ ok tt))
then_iff (ok tt) k = (λ h. (refl, h), λ h. h.1)
then_iff (err e) k = (λ h. cc, λ h. cc)
