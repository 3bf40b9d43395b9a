-- ===== src/Release/Rules.antt =====
-- The rules of `Check` (internal/releasecheck/releasecheck.go) other than the denylist's, and the findings
-- without them.
use provehito.Common.{
  Text, text, Bool, true, false, not, ◌||◌, List, [], ◌∷◌, ◌++◌, is_empty, any_of, trim_prefix, All,
  ◌==◌, ◌≡◌, refl, sym, ◌∙◌, inl, inr, arith, Bool-cases, or_right, or_left,
}
use provehito.Release.{
  first_of, segment_rules, split, base_rules, Finding, Names, required_prefix, segment_rule,
  first_rule, base_rule, forbidden_rule,
}
use provehito.Release.Archive.{is_private}
use provehito.Release.Check.{name_rules, Entry, Archive, Scan, name_rule, report}

pub any_of-append :
    {A : Type 0} (p : A → Bool) (xs ys : List A)
    → any_of p (xs ++ ys) ≡ (any_of p xs || any_of p ys)
unfolding any_of
any_of-append p [] ys = refl
any_of-append p (x ∷ xs) ys = ground (arith, any_of-append p xs ys)

abbrev pub is_structural : Finding → Bool
is_structural f = not (is_private f)

-- No finding but those of the private denylist.
abbrev pub IsClean : List Finding → Type 0
IsClean findings = any_of is_structural findings ≡ false

pub IsClean-append_left : (xs ys : List Finding) → IsClean (xs ++ ys) → IsClean xs
IsClean-append_left xs ys h =
    or_left (any_of is_structural xs) (any_of is_structural ys)
      (sym (any_of-append is_structural xs ys) ∙ h)

-- A rule that is not the denylist's.
abbrev pub IsStructural : Text → Type 0
IsStructural rule = (rule == text "private-denylist") ≡ false

abbrev AllStructural : List (Bool × Text) → Type 0
AllStructural rows = All (λ (r : Bool × Text). IsStructural r.1) rows

first_of-IsStructural :
    (rows : List (Bool × Text)) → AllStructural rows → IsStructural (first_of rows)
unfolding first_of text ◌==◌
first_of-IsStructural [] h = refl
first_of-IsStructural ((true, rule) ∷ rows) h = h.0
first_of-IsStructural ((false, rule) ∷ rows) h = first_of-IsStructural rows h.1

segment_rule-IsStructural : (names : Names) (seg : Text) → IsStructural (segment_rule names seg)
unfolding segment_rule segment_rules text ◌==◌
segment_rule-IsStructural names seg =
    first_of-IsStructural (segment_rules names seg) (refl, (refl, (refl, (refl, (refl, tt)))))

base_rule-IsStructural :
    (names : Names) (name : Text) (segments : List Text)
    → IsStructural (base_rule names name segments)
unfolding base_rule base_rules text ◌==◌
base_rule-IsStructural names name segments =
    first_of-IsStructural (base_rules names name segments) (refl, (refl, (refl, (refl, tt))))

first_rule-IsStructural :
    (names : Names) (segments : List Text) → IsStructural (first_rule names segments)
unfolding first_rule text ◌==◌
first_rule-IsStructural names [] = refl
first_rule-IsStructural names (seg ∷ segs) = elim (Bool-cases (is_empty (segment_rule names seg))) [
  | inl p ↦ rw p (first_rule-IsStructural names segs)
  | inr p ↦ rw p (segment_rule-IsStructural names seg)
]

pub forbidden_rule-IsStructural :
    (names : Names) (name : Text) → IsStructural (forbidden_rule names name)
unfolding forbidden_rule
forbidden_rule-IsStructural names name =
    let segments = split b'/' (trim_prefix name required_prefix) in
    elim (Bool-cases (is_empty (first_rule names segments))) [
      | inl p ↦
          rw p
            (base_rule-IsStructural names (names.base (trim_prefix name required_prefix)) segments)
      | inr p ↦ rw p (first_rule-IsStructural names segments)
    ]

module _ (archive : Archive) (denylist : List Text) where
  pub name_rule-IsStructural : (e : Entry) → IsStructural (name_rule archive denylist e)
  unfolding name_rule name_rules text ◌==◌
  name_rule-IsStructural e =
      first_of-IsStructural (name_rules archive denylist e)
        (refl, (refl, (refl, (refl, (refl, (refl, tt))))))

  -- A structural report is never clean.
  pub report-IsClean :
      {A : Type 0} (s : Scan) (rule : Text) (e : Entry)
      → IsStructural rule
      → IsClean (report archive denylist s rule e).findings
      → A
  unfolding any_of
  report-IsClean s rule e p h =
      let f = (rw (any_of-append is_structural s.findings _) at h) in
      absurd (let last = or_right (any_of is_structural s.findings) f in ground (arith, p, last))
