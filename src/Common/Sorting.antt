-- ===== src/Common/Sorting.antt =====
-- `sort.Strings` and `sort.Slice` as insertion by a Boolean order, and why a list has one sorted
-- rearrangement.
use Prim.Native.Nat.{compare, Ordering}
use mathlib.Core.Path.{◌≡◌, refl, ap, ap₂, ◌∙◌}
use mathlib.Core.Logic.{inl, inr}
use mathlib.Core.Logic.Or
use mathlib.Core.Bool.{Bool, true, false, ◌||◌}
use mathlib.Core.List.{
  List, [], ◌∷◌, Mem, Perm, mem-cons, mem-cons_self, mem-cons_of_mem, not-mem-nil,
}
use mathlib.Core.List.Perm
use native.Mathlib.Omega.{arith}
use provehito.Common.Lists.{any_of}
use provehito.Common.Tests.{if◌then◌else◌, Bool-cases}
use provehito.Common.Texts.{Text}

-- Go compares strings byte by byte; a proper prefix is smaller.
unfoldable pub text_le : Text → Text → Bool
text_le [] t = true
text_le (x ∷ s) [] = false
text_le (x ∷ s) (y ∷ t) =
    let rest = text_le s t in
    elim (compare x y) [ Ordering.lt ↦ true | Ordering.eq ↦ rest | Ordering.gt ↦ false ]

pub text_le-total : (s t : Text) → text_le s t ≡ false → text_le t s ≡ true
unfolding text_le
text_le-total [] t h = cc
text_le-total (x ∷ s) [] h = refl
text_le-total (x ∷ s) (y ∷ t) h = ground (arith, text_le-total s t)

pub text_le_trans : (s t u : Text) → text_le s t ≡ true → text_le t u ≡ true → text_le s u ≡ true
unfolding text_le
text_le_trans [] t u h k = refl
text_le_trans (x ∷ s) [] u h k = cc
text_le_trans (x ∷ s) (y ∷ t) [] h k = cc
text_le_trans (x ∷ s) (y ∷ t) (z ∷ u) h k = ground (arith, text_le_trans s t u)

pub text_le_antisymm : (s t : Text) → text_le s t ≡ true → text_le t s ≡ true → s ≡ t
unfolding text_le
text_le_antisymm [] [] h k = refl
text_le_antisymm [] (y ∷ t) h k = cc
text_le_antisymm (x ∷ s) [] h k = cc
text_le_antisymm (x ∷ s) (y ∷ t) h k = ground (arith, text_le_antisymm s t)

pub text_le_refl : (s : Text) → text_le s s ≡ true
unfolding text_le
text_le_refl [] = refl
text_le_refl (x ∷ s) = ground (arith, text_le_refl s)

Bool-set : IsSet Bool
Bool-set = hlevel

bool_prop : {b : Bool} → IsProp (b ≡ true)
bool_prop {b} = Bool-set b true

module _ {ℓ} {A : Type ℓ} (le : A → A → Bool) where
  insert : A → List A → List A
  insert x [] = x ∷ []
  insert x (y ∷ ys) = if le x y then x ∷ y ∷ ys else y ∷ insert x ys

  unfoldable pub sort : List A → List A
  unfolding insert
  sort [] = []
  sort (x ∷ xs) = insert x (sort xs)

  any_of-insert : (p : A → Bool) (x : A) (l : List A) → any_of p (insert x l) ≡ (p x || any_of p l)
  unfolding insert any_of
  any_of-insert p x [] = refl
  any_of-insert p x (y ∷ ys) = ground (arith, any_of-insert p x ys)

  -- Sorting neither adds nor loses a member.
  pub any_of-sort : (p : A → Bool) (l : List A) → any_of p (sort l) ≡ any_of p l
  unfolding sort any_of
  any_of-sort p [] = refl
  any_of-sort p (x ∷ xs) = any_of-insert p x (sort xs) ∙ ap (λ b. p x || b) (any_of-sort p xs)

  abbrev Precedes : A → List A → Type ℓ
  Precedes a l = (x : A) → Mem x l → le a x ≡ true

  abbrev pub IsSorted : List A → Type ℓ
  IsSorted [] = Unit
  IsSorted (x ∷ xs) = Precedes x xs × IsSorted xs

  insert-perm : (x : A) (l : List A) → Perm (insert x l) (x ∷ l)
  unfolding insert
  insert-perm x [] = Perm.refl (x ∷ [])
  insert-perm x (y ∷ ys) = elim (Bool-cases (le x y)) [
    | inl h ↦ rw h (Perm.refl (x ∷ y ∷ ys))
    | inr h ↦ rw h (Perm.trans (Perm.cons y (insert-perm x ys)) (Perm.swap x y ys))
  ]

  -- Sorting rearranges.
  pub sort-perm : (l : List A) → Perm (sort l) l
  unfolding sort
  sort-perm [] = Perm.refl []
  sort-perm (x ∷ xs) = Perm.trans (insert-perm x (sort xs)) (Perm.cons x (sort-perm xs))

  Precedes-cons : {a b : A} {l : List A} → le a b ≡ true → Precedes a l → Precedes a (b ∷ l)
  Precedes-cons {a} p h x m = Or.elim bool_prop (mem-cons.0 m) (λ e. rw e p) (h x)

  Precedes-perm : {a : A} {l r : List A} → Perm l r → Precedes a r → Precedes a l
  Precedes-perm moved below y member = below y ((Perm.mem_iff moved).0 member)

module _ {ℓ} {A : Type ℓ} (le : A → A → Bool) (total : (a b : A) → le a b ≡ false → le b a ≡ true)
    (trans : (a b c : A) → le a b ≡ true → le b c ≡ true → le a c ≡ true) where
  insert-IsSorted : (x : A) (l : List A) → IsSorted le l → IsSorted le (insert le x l)
  unfolding insert
  insert-IsSorted x [] s = ((λ y m. absurd (not-mem-nil m)), tt)
  insert-IsSorted x (y ∷ ys) s = elim (Bool-cases (le x y)) [
    | inl h ↦ rw h (Precedes-cons le h (λ z m. trans x y z h (s.0 z m)), (s.0, s.1))
    | inr h ↦ rw h (
      Precedes-perm le (insert-perm le x ys) (Precedes-cons le (total x y h) s.0),
      insert-IsSorted x ys s.1,
    )
  ]

  pub sort-IsSorted : (l : List A) → IsSorted le (sort le l)
  unfolding sort
  sort-IsSorted [] = tt
  sort-IsSorted (x ∷ xs) = insert-IsSorted x (sort le xs) (sort-IsSorted xs)

-- Two sorted rearrangements of a list agree, where the order tells its members apart.
module _ {ℓ} {A : Type ℓ} (le : A → A → Bool) (le-refl : (a : A) → le a a ≡ true) where
  first_le : (a b : A) (l r : List A) → IsSorted le (a ∷ l) → Perm (b ∷ r) (a ∷ l) → le a b ≡ true
  first_le a b l r s p = Precedes-perm le p (Precedes-cons le (le-refl a) s.0) b mem-cons_self

  pub IsSorted-eq_of_perm :
      (l r : List A)
      → ((a b : A) → Mem a l → Mem b l → le a b ≡ true → le b a ≡ true → a ≡ b)
      → IsSorted le l
      → IsSorted le r
      → Perm l r
      → l ≡ r
  IsSorted-eq_of_perm [] r anti _ _ p = Perm.nil-eq p
  IsSorted-eq_of_perm (a ∷ l) [] anti _ _ p = Perm.eq-nil p
  IsSorted-eq_of_perm (a ∷ l) (b ∷ r) anti left right p =
      let same : a ≡ b =
        anti a b mem-cons_self ((Perm.mem_iff p).1 mem-cons_self)
          (first_le a b l r left (Perm.symm p)) (first_le b a r l right p) in
      let rest = Perm.cons_inv (Perm.trans p (Perm.symm (Perm.cons' same Perm.rfl))) in
      ap₂ ◌∷◌ same (
        IsSorted-eq_of_perm l r
          (λ x y mx my. anti x y (mem-cons_of_mem a mx) (mem-cons_of_mem a my)) left.1 right.1 rest)
