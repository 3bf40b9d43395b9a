-- ===== src/Common/Equality.antt =====
-- `reflect.DeepEqual` on a type whose equality is decidable.
use mathlib.Core.Path.{◌≡◌, refl}
use mathlib.Core.Logic.{◌↔◌}
use mathlib.Core.Bool.{Bool, true, false}

abbrev is_yes {ℓ} : {A : Type ℓ} → Dec A → Bool
is_yes (yes p) = true
is_yes (no p) = false

is_yes_iff {ℓ} : {A : Type ℓ} (d : Dec A) → (is_yes d ≡ true) ↔ A
is_yes_iff (yes p) = (λ h. p, λ q. refl)
is_yes_iff (no p) = (λ h. cc, λ q. absurd (p q))

module _ {ℓ} {A : Type ℓ} (dec : Discrete A) where
  unfoldable pub deep_equal : A → A → Bool
  deep_equal a b = is_yes (dec a b)

  pub deep_equal_iff : (a b : A) → (deep_equal a b ≡ true) ↔ (a ≡ b)
  unfolding deep_equal
  deep_equal_iff a b = is_yes_iff (dec a b)
