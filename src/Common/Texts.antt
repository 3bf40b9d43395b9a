-- ===== src/Common/Texts.antt =====
-- Texts as lists of bytes, with the operations of Go's `strings` that the program uses.
use Prim.Native.Nat.{ℕ}
use Prim.Native.Char.{code}
use Prim.Native.String.{String}
use mathlib.Core.Path.{◌≡◌, refl, subst}
use mathlib.Core.Logic.{◌↔◌}
use mathlib.Core.Bool.{Bool, true, false, ◌&&◌, ◌||◌}
use mathlib.Core.List.{List, [], ◌∷◌}
use native.Mathlib.Omega.{arith}
use provehito.Common.Lists.{length, drop}
use provehito.Common.Tests.{leb, nat_eq, if◌then◌else◌}

abbrev pub Text : Type 0
Text = List ℕ

abbrev codes : String → Text
codes String.[] = []
codes (String.◌∷◌ c s) = code c ∷ codes s

-- An ASCII literal of the program as its bytes.
unfoldable pub text : String → Text
text s = codes s

infix 50 ◌==◌
unfoldable pub ◌==◌ : Text → Text → Bool
[] == [] = true
(x ∷ xs) == (y ∷ ys) = nat_eq x y && (xs == ys)
_ == _ = false

-- `s == ""`
abbrev pub is_empty {ℓ} : {A : Type ℓ} → List A → Bool
is_empty [] = true
is_empty (_ ∷ _) = false

eq_forth : (s t : Text) → (s == t) ≡ true → s ≡ t
unfolding ◌==◌
eq_forth [] [] h = refl
eq_forth [] (y ∷ t) h = cc
eq_forth (x ∷ s) [] h = cc
eq_forth (x ∷ s) (y ∷ t) h = ground (arith, eq_forth s t)

==-refl : (s : Text) → (s == s) ≡ true
unfolding ◌==◌
==-refl [] = refl
==-refl (x ∷ s) = ground (arith, ==-refl s)

pub eq_iff : (s t : Text) → ((s == t) ≡ true) ↔ (s ≡ t)
eq_iff s t = (eq_forth s t, λ e. subst (λ u. (s == u) ≡ true) e (==-refl s))

-- `strings.HasPrefix`
unfoldable pub has_prefix : Text → Text → Bool
has_prefix s [] = true
has_prefix [] (_ ∷ _) = false
has_prefix (x ∷ s) (p ∷ ps) = nat_eq x p && has_prefix s ps

-- `strings.HasSuffix`
unfoldable pub has_suffix : Text → Text → Bool
unfolding ◌==◌
has_suffix [] t = is_empty t
has_suffix (x ∷ s) t = ((x ∷ s) == t) || has_suffix s t

-- `strings.TrimPrefix`
unfoldable pub trim_prefix : Text → Text → Text
unfolding has_prefix
trim_prefix s p = if has_prefix s p then drop (length p) s else s

-- `strings.Contains`
unfoldable pub contains_text : Text → Text → Bool
unfolding has_prefix
contains_text [] t = is_empty t
contains_text (x ∷ s) t = has_prefix (x ∷ s) t || contains_text s t

-- `strings.IndexByte(s, b) >= 0`
unfoldable pub has_byte : ℕ → Text → Bool
has_byte b [] = false
has_byte b (x ∷ s) = nat_eq x b || has_byte b s

abbrev pub within : ℕ → ℕ → ℕ → Bool
within lo hi c = leb lo c && leb c hi
