-- ===== src/Canon/Keys.antt =====
-- Object keys: the parser lets no key stand twice, and the writer forgets the order of the input.
use Prim.Native.String.{String}
use mathlib.Core.List.{Mem, Perm, mem-cons, not-mem-nil}
use mathlib.Core.List.Perm
use mathlib.Core.Logic.Or
use mathlib.Core.HLevel.{¬_prop}
use native.Mathlib.Decide.{ℕ_discrete}
use text.Mathlib.Text.{◌==◌ as string_eq}
use text.Mathlib.TextEquality.{eq_iff as string_eq_iff, IsScalar-prop}
use provehito.Common.{
  ◌++◌, ℕ, zero, suc, Text, List, [], ◌∷◌, map, All, ◌≡◌, ◌≢◌, inl, inr, refl, sym, ap, subst,
  any_of, ◌==◌, eq_iff, Bool-cases, ◌∙◌,
}
use provehito.Common.Sorting.{
  IsSorted, sort, text_le-total, text_le_trans, text_le_antisymm, text_le_refl, sort-perm,
  sort-IsSorted, IsSorted-eq_of_perm,
}
use provehito.Failure.Outcome.{ok, ◌>>=◌}
use provehito.Failure.Fuel.{done, ◌>>=◌ as and_then, >>=-eq-done, done-injective, Fueled-cases}
use provehito.Canon.Value.{
  join, entry, sequence, Token, Value, object, Fields, end, field, Part, part_le, write_object,
  write_value, write_fields,
}
use provehito.Canon.Parser.{
  parse_value, parse_fields, more, next, key_of, refuse_duplicate, add_field, closing,
}

String-discrete : Discrete String
String-discrete s t = elim (Bool-cases (string_eq s t)) [
  | inl h ↦ yes ((string_eq_iff s t).0 h)
  | inr h ↦ no (λ e. cc ((string_eq_iff s t).1 e))
]

Part-set : IsSet Part
Part-set = hlevel (ℕ_discrete, IsScalar-prop)

-- The fields of an object as a list.
abbrev pub fields_list : Fields → List (Text × Value)
fields_list end = []
fields_list (field k v fs) = (k, v) ∷ fields_list fs

-- No key stands twice.
abbrev pub HasDistinctKeys {ℓ} : {A : Type ℓ} → List (Text × A) → Type 0
HasDistinctKeys [] = Unit
HasDistinctKeys ((k, a) ∷ l) = All (λ p. p.0 ≢ k) l × HasDistinctKeys l

All-mem {ℓ κ} :
    {A : Type ℓ} (P : A → Type κ) (prop : (a : A) → IsProp (P a)) (l : List A) (a : A)
    → All P l
    → Mem a l
    → P a
All-mem P prop [] a h m = absurd (not-mem-nil m)
All-mem P prop (x ∷ l) a h m =
    Or.elim (prop a) (mem-cons.0 m) (λ e. subst P (sym e) h.0) (All-mem P prop l a h.1)

-- Where keys are distinct, a member is known by its key.
same_key : (l : List Part) (p q : Part) → HasDistinctKeys l → Mem p l → Mem q l → p.0 ≡ q.0 → p ≡ q
same_key [] p q d mp mq e = absurd (not-mem-nil mp)
same_key ((k, r) ∷ l) p q d mp mq e =
    Or.elim (Part-set p q) (mem-cons.0 mp)
      (λ hp.
        Or.elim (Part-set p q) (mem-cons.0 mq) (λ hq. hp ∙ sym hq)
          (λ lq. absurd (fresh q lq (sym e ∙ ap (λ (x : Part). x.0) hp))))
      (λ lp.
        Or.elim (Part-set p q) (mem-cons.0 mq)
          (λ hq. absurd (fresh p lp (e ∙ ap (λ (x : Part). x.0) hq)))
          (λ lq. same_key l p q d.1 lp lq e))
  where
    fresh : (x : Part) → Mem x l → x.0 ≢ k
    fresh x m = All-mem (λ (y : Part). y.0 ≢ k) (λ y. ¬_prop) l x d.0 m

-- Sorting by key forgets the order, where keys are distinct.
sort-parts : (l r : List Part) → HasDistinctKeys l → Perm l r → sort part_le l ≡ sort part_le r
sort-parts l r d p =
    IsSorted-eq_of_perm part_le (λ a. text_le_refl a.0) (sort part_le l) (sort part_le r)
      (λ a b ma mb ab ba.
        same_key l a b d ((Perm.mem_iff (sort-perm part_le l)).0 ma)
          ((Perm.mem_iff (sort-perm part_le l)).0 mb) (text_le_antisymm a.0 b.0 ab ba))
      (sorted l) (sorted r)
      (Perm.trans (sort-perm part_le l) (Perm.trans p (Perm.symm (sort-perm part_le r))))
  where
    sorted : (x : List Part) → IsSorted part_le (sort part_le x)
    sorted =
        sort-IsSorted part_le (λ a b. text_le-total a.0 b.0) (λ a b c. text_le_trans a.0 b.0 c.0)

module _ (quote : Text → Text) where
  written : Text × Value → Part
  written (k, v) = (k, write_value quote v)

  write_fields-map : (fs : Fields) → write_fields quote fs ≡ map written (fields_list fs)
  unfolding write_value written
  write_fields-map end = refl
  write_fields-map (field k v fs) = ap (◌∷◌ (k, write_value quote v)) (write_fields-map fs)

  write_fields-HasDistinctKeys :
      (fs : Fields) → HasDistinctKeys (fields_list fs) → HasDistinctKeys (write_fields quote fs)
  unfolding write_value
  write_fields-HasDistinctKeys end d = tt
  write_fields-HasDistinctKeys (field k v fs) d =
      (absent fs d.0, write_fields-HasDistinctKeys fs d.1)
    where
      absent :
          (gs : Fields)
          → All (λ p. p.0 ≢ k) (fields_list gs)
          → All (λ (p : Part). p.0 ≢ k) (write_fields quote gs)
      absent end h = tt
      absent (field j w gs) h = (h.0, absent gs h.1)

  -- Two objects with the same fields in another order are written alike, or fail alike: the
  -- canonical text of an object does not depend on the order of its keys in the input.
  pub write_value-object_perm :
      (fs gs : Fields)
      → HasDistinctKeys (fields_list fs)
      → Perm (fields_list fs) (fields_list gs)
      → write_value quote (object fs) ≡ write_value quote (object gs)
  unfolding write_value write_object
  write_value-object_perm fs gs d p =
      ap
        (λ (l : List Part). (do
          es ← sequence (map (entry quote) l)
          ok (b'{' ∷ join es ++ b'}' ∷ [])))
        (sort-parts (write_fields quote fs) (write_fields quote gs)
          (write_fields-HasDistinctKeys fs d)
          (rw (write_fields-map fs, write_fields-map gs) (Perm.map written p)))

refuse_duplicate-ok :
    (k : Text) (seen : List Text) → refuse_duplicate k seen ≡ done tt → All (λ s. s ≢ k) seen
unfolding any_of
refuse_duplicate-ok k [] h = tt
refuse_duplicate-ok k (s ∷ seen) h = elim (Bool-cases (k == s)) [
  | inl p ↦ absurd (cc (rw p at h))
  | inr p ↦ ((λ e. cc (p, (eq_iff k s).1 (sym e))), refuse_duplicate-ok k seen (rw p at h))
]

-- Every key of the fields is new against the keys seen.
abbrev pub AreNew : List Text → Fields → Type 0
AreNew seen fs = All (λ (p : Text × Value). All (λ s. s ≢ p.0) seen) (fields_list fs)

AreNew-head :
    (k : Text) (seen : List Text) (fs : Fields)
    → AreNew (k ∷ seen) fs
    → All (λ p. p.0 ≢ k) (fields_list fs)
AreNew-head k seen end h = tt
AreNew-head k seen (field j v fs) h = ((λ e. h.0.0 (sym e)), AreNew-head k seen fs h.1)

AreNew-tail : (k : Text) (seen : List Text) (fs : Fields) → AreNew (k ∷ seen) fs → AreNew seen fs
AreNew-tail k seen end h = tt
AreNew-tail k seen (field j v fs) h = (h.0.1, AreNew-tail k seen fs h.1)

-- One round of the loop, from the value on.
fields_step :
    (f : ℕ) (seen : List Text) (key : Text) (ts rest : List Token) (fs : Fields)
    → All (λ s. s ≢ key) seen
    → ((later rest' : List Token) (gs : Fields)
        → parse_fields f (key ∷ seen) later ≡ done (gs, rest')
        → HasDistinctKeys (fields_list gs) × AreNew (key ∷ seen) gs)
    → and_then
        (parse_value f ts)
        (λ v. and_then (parse_fields f (key ∷ seen) v.1) (λ r. done (add_field key v.0 r)))
      ≡ done (fs, rest)
    → HasDistinctKeys (fields_list fs) × AreNew seen fs
fields_step f seen key ts rest fs new ih h = elim (Fueled-cases (parse_value f ts)) [
  | inr (inl (x, p)) ↦ absurd (cc (rw p at h))
  | inr (inr p) ↦ absurd (cc (rw p at h))
  | inl ((v, later), p) ↦ elim (Fueled-cases (parse_fields f (key ∷ seen) later)) [
    | inr (inl (x, q)) ↦ absurd (cc (rw (p, q) at h))
    | inr (inr q) ↦ absurd (cc (rw (p, q) at h))
    | inl ((gs, rest'), q) ↦
        let (distinct, fresh) = ih later rest' gs q in
        rw (← ap (λ (x : Fields × List Token). x.0) (done-injective (rw (p, q) at h)))
          ((AreNew-head key seen gs fresh, distinct), (new, AreNew-tail key seen gs fresh))
  ]
]

-- The parser refuses a key that it has seen: the fields that it returns have distinct keys.
pub parse_fields-HasDistinctKeys :
    (f : ℕ) (seen : List Text) (ts rest : List Token) (fs : Fields)
    → parse_fields f seen ts ≡ done (fs, rest)
    → HasDistinctKeys (fields_list fs) × AreNew seen fs
unfolding parse_value
parse_fields-HasDistinctKeys zero seen ts rest fs h = cc
parse_fields-HasDistinctKeys (suc f) seen ts rest fs h = elim (Bool-cases (more ts)) [
  | inr e ↦
      let (r, p1, h1) =
        >>=-eq-done (next ts) (λ r. done (end, closing r)) (rw (e, parse_fields) at h) in
      rw (← ap (λ (x : Fields × List Token). x.0) (done-injective h1)) (tt, tt)
  | inl e ↦ elim (Fueled-cases (next ts)) [
    | inr (inl (x, p1)) ↦ absurd (cc (rw (e, parse_fields, p1) at h))
    | inr (inr p1) ↦ absurd (cc (rw (e, parse_fields, p1) at h))
    | inl ((t, after), p1) ↦ elim (Fueled-cases (key_of t)) [
      | inr (inl (x, p2)) ↦ absurd (cc (rw (e, parse_fields, p1, p2) at h))
      | inr (inr p2) ↦ absurd (cc (rw (e, parse_fields, p1, p2) at h))
      | inl (key, p2) ↦ elim (Fueled-cases (refuse_duplicate key seen)) [
        | inr (inl (x, p3)) ↦ absurd (cc (rw (e, parse_fields, p1, p2, p3) at h))
        | inr (inr p3) ↦ absurd (cc (rw (e, parse_fields, p1, p2, p3) at h))
        | inl (u, p3) ↦
            fields_step f seen key after rest fs (refuse_duplicate-ok key seen p3)
              (parse_fields-HasDistinctKeys f (key ∷ seen)) (rw (e, parse_fields, p1, p2, p3) at h)
      ]
    ]
  ]
]
