-- ===== src/Failure/Fuel.antt =====
-- A Go function that returns `(value, error)` where the model runs on fuel: what the function returns, or that the
-- fuel has run out, which is no error of the program.
use provehito.Common.{◌≡◌, ◌⊎◌, inl, inr, refl}
use provehito.Failure.{Error, plain}
use provehito.Failure.Outcome.{Result, ok, err}

pub data Fueled {ℓ} (Value : Type ℓ) : Type ℓ where
  unfinished : Fueled Value
  failed : Error → Fueled Value
  done : Value → Fueled Value

infixl 5 ◌>>=◌
abbrev pub ◌>>=◌ {ℓ κ} : {X : Type ℓ} {Y : Type κ} → Fueled X → (X → Fueled Y) → Fueled Y
unfinished >>= next = unfinished
failed e >>= next = failed e
done value >>= next = next value

-- A call that needs no fuel.
abbrev pub returned {ℓ} : {A : Type ℓ} → Result A → Fueled A
returned (ok a) = done a
returned (err e) = failed e

-- What the function returns, where the fuel was enough.
abbrev pub result {ℓ} : {A : Type ℓ} → Fueled A → Result A
result (done a) = ok a
result (failed e) = err e
result unfinished = err (plain "out of fuel")

-- The function has returned a value or an error.
abbrev pub Ends {ℓ} : {A : Type ℓ} → Fueled A → Type 0
Ends unfinished = ⊥
Ends (failed e) = Unit
Ends (done a) = Unit

pub >>=-eq-done {ℓ κ} :
    {X : Type ℓ} {Y : Type κ} (m : Fueled X) (next : X → Fueled Y) {y : Y}
    → (m >>= next) ≡ done y
    → (x : X) × (m ≡ done x) × (next x ≡ done y)
>>=-eq-done unfinished next h = cc
>>=-eq-done (failed e) next h = cc
>>=-eq-done (done value) next h = (value, refl, h)

pub done-injective {ℓ} : {A : Type ℓ} {a b : A} → done a ≡ done b → a ≡ b
done-injective h = cc

pub Fueled-cases {ℓ} :
    {A : Type ℓ} (m : Fueled A)
    → ((a : A) × (m ≡ done a)) ⊎ ((e : Error) × (m ≡ failed e)) ⊎ (m ≡ unfinished)
Fueled-cases (done a) = inl (a, refl)
Fueled-cases (failed e) = inr (inl (e, refl))
Fueled-cases unfinished = inr (inr refl)

-- A chain ends where its first part does, and the rest does on its value.
pub >>=-Ends {ℓ κ} :
    {X : Type ℓ} {Y : Type κ} (m : Fueled X) (next : X → Fueled Y)
    → Ends m
    → ((x : X) → m ≡ done x → Ends (next x))
    → Ends (m >>= next)
>>=-Ends unfinished next h k = h
>>=-Ends (failed e) next h k = tt
>>=-Ends (done x) next h k = k x refl

pub returned-Ends {ℓ} : {A : Type ℓ} (r : Result A) → Ends (returned r)
returned-Ends (ok a) = tt
returned-Ends (err e) = tt
