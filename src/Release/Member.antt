-- ===== src/Release/Member.antt =====
-- What an archive's member leaves behind in the loop of `Check` (internal/releasecheck/releasecheck.go) where
-- it breaks no rule.
use mathlib.Core.List.{append-nil}
use provehito.Release.Rules.{IsClean, IsClean-append_left, report-IsClean}
use provehito.Common.{
  ℕ, Text, text, true, not, ◌&&◌, ◌||◌, List, [], ◌∷◌, ◌++◌, is_empty, has_prefix, has_suffix,
  trim_prefix, ltb, ◌==◌, ◌≡◌, refl, sym, ap, subst, inl, inr, Bool-cases, Option-cases,
  if◌then◌else◌,
}
use provehito.Release.Content.{scan_content}
use provehito.Release.{required_prefix}
use provehito.Release.Check.{place_member, Entry, Archive, Scan, report, scan_member, take_member}

-- The names of the members that an entry adds.
abbrev pub placed : Text → List Text
placed rel = if is_empty rel || has_suffix rel (text "/") then [] else rel ∷ []

abbrev pub member_of : Entry → List Text
member_of e = placed (trim_prefix e.name required_prefix)

-- A clean scan after an entry was clean before it, and has remembered and counted the entry.
pub record IsGrown (s t : Scan) (names_seen rels : List Text) (size : ℕ) : Type 0 where
  pub clean : IsClean s.findings
  pub seen : t.seen ≡ names_seen
  pub members : t.members ≡ rels
  pub total : t.total ≡ size

module _ (archive : Archive) (denylist : List Text) where
  scan_member-IsGrown :
      (s : Scan) (e : Entry) (rel : Text)
      → IsClean (scan_member archive denylist s e rel).findings
      → IsGrown s (scan_member archive denylist s e rel) s.seen s.members s.total
  unfolding scan_member
  scan_member-IsGrown s e rel h = elim (Option-cases e.content) [
    | inl p ↦
        report-IsClean archive denylist s (text "read-error") e (unfold text ◌==◌ in refl)
          (rw p at h)
    | inr (c, p) ↦
        let content = scan_content archive.names archive.patterns rel c in
        record {
          clean =
              IsClean-append_left s.findings content
                (IsClean-append_left (s.findings ++ content) _ (rw p at h));
          seen = rw p refl;
          members = rw p refl;
          total = rw p refl;
        }
  ]

  place_member-IsGrown :
      (s : Scan) (e : Entry) (rel : Text)
      → IsClean (place_member archive denylist s e rel).findings
      → IsGrown s (place_member archive denylist s e rel) s.seen (s.members ++ placed rel) s.total
  unfolding place_member
  place_member-IsGrown s e rel h = elim (Bool-cases (is_empty rel || has_suffix rel (text "/"))) [
    | inl d ↦ record {
      clean = rw d at h;
      seen = rw d refl;
      members = rw d (sym (append-nil s.members));
      total = rw d refl;
    }
    | inr d ↦
        let grown =
          scan_member-IsGrown (record s { members = s.members ++ (rel ∷ []) }) e rel (rw d at h) in
        record {
          clean = grown.clean;
          seen = rw d grown.seen;
          members = rw d grown.members;
          total = rw d grown.total;
        }
  ]

  pub take_member-IsGrown :
      (s : Scan) (e : Entry)
      → IsClean (take_member archive denylist s e).findings
      → IsGrown s (take_member archive denylist s e) s.seen (s.members ++ member_of e) s.total
        × (has_prefix e.name required_prefix ≡ true)
  unfolding take_member
  take_member-IsGrown s e h =
      elim (Bool-cases (ltb 0 e.compressed && archive.ratio_exceeds e.uncompressed e.compressed)) [
        | inl p ↦
            report-IsClean archive denylist s (text "compression-ratio") e
              (unfold text ◌==◌ in refl) (rw p at h)
        | inr p ↦ elim (Bool-cases (has_prefix e.name required_prefix)) [
          | inr q ↦
              report-IsClean archive denylist s (text "missing-prefix") e (unfold text ◌==◌ in refl)
                (rw (p, q) at h)
          | inl q ↦
              let place = place_member archive denylist s e (trim_prefix e.name required_prefix) in
              let same : take_member archive denylist s e ≡ place = rw p (
                ap
                  (λ b.
                    if not b then report archive denylist s (text "missing-prefix") e else place)
                  q) in
              (
                subst (λ t. IsGrown s t s.seen (s.members ++ member_of e) s.total) (sym same)
                    (place_member-IsGrown s e (trim_prefix e.name required_prefix)
                      (subst (λ t. IsClean t.findings) same h)),
                q,
              )
        ]
      ]
