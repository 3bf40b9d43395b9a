-- ===== src/Release/Passed.antt =====
-- What an archive satisfies on which the loop of `Check` (internal/releasecheck/releasecheck.go) has
-- found no structural violation.
use mathlib.Core.List.{append-nil, append_assoc}
use provehito.Release.Rules.{
  IsClean, report-IsClean, forbidden_rule-IsStructural, name_rule-IsStructural,
}
use provehito.Release.Member.{IsGrown, member_of, take_member-IsGrown}
use provehito.Common.{
  ℕ, ◌+◌, ◌≤◌, Text, text, true, false, not, List, [], ◌∷◌, ◌++◌, is_empty, any_of, has_prefix, ltb,
  All, ◌==◌, ◌≡◌, refl, sym, ◌∙◌, ap, subst, inl, inr, arith, Bool-cases,
}
use provehito.Release.{required_prefix, forbidden_rule}
use provehito.Release.Check.{
  Entry, Archive, Scan, max_file_size, max_total_size, name_rule, admit, check_entry, check_entries,
  collides, add64, sub64,
}

-- With the total below its limit, the unsigned difference is the rest, and the sum does not wrap.
fits_total :
    (total size : ℕ)
    → total ≤ max_total_size
    → ltb (sub64 max_total_size total) size ≡ false
    → (total + size ≤ max_total_size) × (add64 total size ≡ total + size)
fits_total total size t h = (ground arith, ground arith)

fits_file : (size : ℕ) → ltb max_file_size size ≡ false → size ≤ max_file_size
fits_file size h = ground arith

empty_rule : (rule : Text) → not (is_empty rule) ≡ false → rule ≡ []
empty_rule [] h = refl
empty_rule (c ∷ r) h = cc

abbrev pub total_size : List Entry → ℕ
total_size [] = 0
total_size (e ∷ es) = e.uncompressed + total_size es

abbrev pub members_of : List Entry → List Text
members_of [] = []
members_of (e ∷ es) = member_of e ++ members_of es

-- Names that are new, one after the other, against those seen.
abbrev pub IsFresh : List Text → List Entry → Type 0
IsFresh seen [] = Unit
IsFresh seen (e ∷ es) = (any_of (λ n. e.name == n) seen ≡ false) × IsFresh (e.name ∷ seen) es

module _ (archive : Archive) (denylist : List Text) where
  -- What an entry without a violation satisfies.
  pub record IsAccepted (e : Entry) : Type 0 where
    pub named : name_rule archive denylist e ≡ []
    pub allowed : forbidden_rule archive.names e.name ≡ []
    pub prefixed : has_prefix e.name required_prefix ≡ true
    pub small : e.uncompressed ≤ max_file_size

  -- What `admit` has found of an entry, and the limit that it keeps.
  record IsAdmitted (s t : Scan) (e : Entry) : Type 0 where
    pub grown : IsGrown s t s.seen (s.members ++ member_of e) (add64 s.total e.uncompressed)
    pub allowed : forbidden_rule archive.names e.name ≡ []
    pub prefixed : has_prefix e.name required_prefix ≡ true
    pub small : e.uncompressed ≤ max_file_size
    pub room : ltb (sub64 max_total_size s.total) e.uncompressed ≡ false

  admit-IsAdmitted :
      (s : Scan) (e : Entry)
      → IsClean (admit archive denylist s e).findings
      → IsAdmitted s (admit archive denylist s e) e
  unfolding admit
  admit-IsAdmitted s e h =
      elim (Bool-cases (not (is_empty (forbidden_rule archive.names e.name)))) [
        | inl p ↦
            report-IsClean archive denylist s (forbidden_rule archive.names e.name) e
              (forbidden_rule-IsStructural archive.names e.name) (rw p at h)
        | inr p ↦ elim (Bool-cases (ltb max_file_size e.uncompressed)) [
          | inl q ↦
              report-IsClean archive denylist s (text "file-size-limit") e
                (unfold text ◌==◌ in refl) (rw (p, q) at h)
          | inr q ↦ elim (Bool-cases (ltb (sub64 max_total_size s.total) e.uncompressed)) [
            | inl d ↦
                report-IsClean archive denylist s (text "total-size-limit") e
                  (unfold text ◌==◌ in refl) (rw (p, q, d) at h)
            | inr d ↦
                let (grown, prefixed) =
                  take_member-IsGrown archive denylist
                    (record s { total = add64 s.total e.uncompressed }) e (rw (p, q, d) at h) in
                record {
                  grown = record {
                    clean = grown.clean;
                    seen = rw (p, q, d) grown.seen;
                    members = rw (p, q, d) grown.members;
                    total = rw (p, q, d) grown.total;
                  };
                  allowed = empty_rule (forbidden_rule archive.names e.name) p;
                  prefixed = prefixed;
                  small = fits_file e.uncompressed q;
                  room = d;
                }
          ]
        ]
      ]

  -- What one round of the loop has found.
  record IsChecked (s t : Scan) (e : Entry) : Type 0 where
    pub grown :
        IsGrown s t (e.name ∷ s.seen) (s.members ++ member_of e) (add64 s.total e.uncompressed)
    pub accepted : IsAccepted e
    pub fresh : any_of (λ n. e.name == n) s.seen ≡ false
    pub room : ltb (sub64 max_total_size s.total) e.uncompressed ≡ false

  check_entry-IsChecked :
      (s : Scan) (e : Entry)
      → IsClean (check_entry archive denylist s e).findings
      → IsChecked s (check_entry archive denylist s e) e
  unfolding check_entry
  check_entry-IsChecked s e h = elim (Bool-cases (not (is_empty (name_rule archive denylist e)))) [
    | inl p ↦
        report-IsClean archive denylist s (name_rule archive denylist e) e
          (name_rule-IsStructural archive denylist e) (rw p at h)
    | inr p ↦ elim (Bool-cases (any_of (λ n. e.name == n) s.seen)) [
      | inl q ↦
          report-IsClean archive denylist s (text "duplicate-name") e (unfold text ◌==◌ in refl)
            (rw (p, q) at h)
      | inr q ↦ elim (Bool-cases (collides (archive.names.lower e.name) e.name s.fold_seen)) [
        | inl d ↦
            report-IsClean archive denylist (record s { seen = e.name ∷ s.seen })
              (text "case-fold-collision") e (unfold text ◌==◌ in refl) (rw (p, q, d) at h)
        | inr d ↦
            let next = record s {
              seen = e.name ∷ s.seen;
              fold_seen = (archive.names.lower e.name, e.name) ∷ s.fold_seen;
            } in
            let a = admit-IsAdmitted next e (rw (p, q, d) at h) in
            record {
              grown = record {
                clean = a.grown.clean;
                seen = rw (p, q, d) a.grown.seen;
                members = rw (p, q, d) a.grown.members;
                total = rw (p, q, d) a.grown.total;
              };
              accepted = record {
                named = empty_rule (name_rule archive denylist e) p;
                allowed = a.allowed;
                prefixed = a.prefixed;
                small = a.small;
              };
              fresh = q;
              room = a.room;
            }
      ]
    ]
  ]

  -- The whole loop.
  pub record IsPassed (s : Scan) (entries : List Entry) (t : Scan) : Type 0 where
    pub clean : IsClean s.findings
    pub accepted : All IsAccepted entries
    pub fresh : IsFresh s.seen entries
    pub members : t.members ≡ s.members ++ members_of entries
    pub within : s.total + total_size entries ≤ max_total_size

  check_entries-IsClean :
      (s : Scan) (entries : List Entry)
      → IsClean (check_entries archive denylist s entries).findings
      → IsClean s.findings
  unfolding check_entries
  check_entries-IsClean s [] h = h
  check_entries-IsClean s (e ∷ es) h =
      (check_entry-IsChecked s e
        (check_entries-IsClean (check_entry archive denylist s e) es h)).grown.clean

  -- One more entry before those that have passed.
  IsPassed-cons :
      (s t : Scan) (e : Entry) (es : List Entry) (last : Scan)
      → s.total ≤ max_total_size
      → IsChecked s t e
      → IsPassed t es last
      → IsPassed s (e ∷ es) last
  IsPassed-cons s t e es last small c rest =
      let (fits, sum) = fits_total s.total e.uncompressed small c.room in
      record {
        clean = c.grown.clean;
        accepted = (c.accepted, rest.accepted);
        fresh = (c.fresh, subst (λ n. IsFresh n es) c.grown.seen rest.fresh);
        members =
            rest.members
            ∙ ap (λ m. m ++ members_of es) c.grown.members
            ∙ append_assoc s.members (member_of e) (members_of es);
        within =
            let w =
              subst (λ n. n + total_size es ≤ max_total_size) (c.grown.total ∙ sum) rest.within in
            omega (arith, w);
      }

  pub check_entries-IsPassed :
      (s : Scan) (entries : List Entry)
      → s.total ≤ max_total_size
      → IsClean (check_entries archive denylist s entries).findings
      → IsPassed s entries (check_entries archive denylist s entries)
  unfolding check_entries
  check_entries-IsPassed s [] t h = record {
    clean = h;
    accepted = tt;
    fresh = tt;
    members = sym (append-nil s.members);
    within = omega (arith, t);
  }
  check_entries-IsPassed s (e ∷ es) t h =
      let next = check_entry archive denylist s e in
      let c = check_entry-IsChecked s e (check_entries-IsClean next es h) in
      let (fits, sum) = fits_total s.total e.uncompressed t c.room in
      IsPassed-cons s next e es (check_entries archive denylist next es) t c (
        check_entries-IsPassed next es
          (subst (λ n. n ≤ max_total_size) (sym (c.grown.total ∙ sum)) fits) h)
