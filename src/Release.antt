-- ===== src/Release.antt =====
-- The rules of the release archive checker (internal/releasecheck/releasecheck.go) on names and
-- contents, and the order of its findings.
pub mod Findings
pub mod Content
pub mod Check
pub mod Archive
pub mod Rules
pub mod Member
pub mod Passed
pub mod Accepted
use provehito.Common.{
  ℕ, Text, text, Bool, true, false, not, ◌&&◌, ◌||◌, List, [], ◌∷◌, is_empty, any_of, has_prefix,
  has_suffix, trim_prefix, contains_text, ltb, nat_eq, ◌==◌, if◌then◌else◌,
}
use provehito.Common.Sorting.{sort, text_le}
use provehito.Fingerprint.Status.{split}

pub record Finding : Type 0 where
  pub rule : Text
  pub path : Text

abbrev pub required_prefix : Text
required_prefix = text "provehito/"

-- `hasControlName`: control characters are single bytes in UTF-8.
unfoldable pub has_control_name : Text → Bool
unfolding any_of
has_control_name name = any_of (λ c. ltb c 0x20 || nat_eq c 0x7f) name

-- `containsTraversal`
unfoldable pub contains_traversal : Text → Bool
unfolding split any_of
contains_traversal name = any_of (λ segment. segment == text "..") (split b'/' name)

abbrev pub one_of : Text → List Text → Bool
one_of t [] = false
one_of t (u ∷ us) = t == u || one_of t us

-- A row of `if test { return rule }`: the rule of the first test that holds, or the empty text.
unfoldable pub first_of : List (Bool × Text) → Text
first_of [] = []
first_of ((b, rule) ∷ rows) = if b then rule else first_of rows

-- What the rules take from `strings` and `path`: `strings.ToLower`, `path.Ext` and `path.Base`.
pub record Names : Type 0 where
  pub lower : Text → Text
  pub ext : Text → Text
  pub base : Text → Text

module _ (names : Names) where
  open names use {lower, ext, base}

  -- `isForbiddenSegment`
  unfoldable pub is_forbidden_segment : Text → Bool
  unfolding has_suffix has_prefix
  is_forbidden_segment seg =
      one_of seg (
        text ".idea"
        ∷ text ".vscode"
        ∷ text ".cache"
        ∷ text "__pycache__"
        ∷ text "node_modules"
        ∷ text "dist"
        ∷ text "build"
        ∷ text "bin"
        ∷ text "target"
        ∷ text "htmlcov"
        ∷ text ".pytest_cache"
        ∷ text "test-results"
        ∷ text "coverage"
        ∷ text "vendor"
        ∷ [])
      || has_suffix (lower seg) (text ".swp")
      || has_suffix (lower seg) (text "~")
      || has_prefix (lower seg) (text ".#")
      || one_of (ext (lower seg)) (
          text ".coverprofile"
          ∷ text ".prof"
          ∷ text ".pprof"
          ∷ text ".out"
          ∷ text ".test"
          ∷ text ".bak"
          ∷ text ".orig"
          ∷ [])
      || lower seg == text "coverage.out"
      || lower seg == text "profile.out"

  -- `isGitObjectShape`, with the segment before.
  unfoldable pub is_git_object_shape : Text → List Text → Bool
  is_git_object_shape before [] = false
  is_git_object_shape before (seg ∷ segs) =
      (one_of seg (text "objects" ∷ text "refs" ∷ text "logs" ∷ []) && before == text ".git")
      || is_git_object_shape seg segs

  -- The rule that a segment breaks, or the empty text.
  unfoldable pub segment_rules : Text → List (Bool × Text)
  unfolding has_prefix has_suffix is_forbidden_segment
  segment_rules seg =
      (
        seg == text ".git" || seg == text ".superpowers" || seg == text "__MACOSX",
        text "forbidden-segment",
      )
      ∷ (seg == text ".DS_Store", text "forbidden-name")
      ∷ (has_prefix seg (text ".env"), text "forbidden-name")
      ∷ (has_suffix seg (text ".bundle"), text "forbidden-name")
      ∷ (is_forbidden_segment seg, text "forbidden-segment")
      ∷ []

  unfoldable pub segment_rule : Text → Text
  unfolding segment_rules first_of
  segment_rule seg = first_of (segment_rules seg)

  unfoldable pub first_rule : List Text → Text
  unfolding segment_rule
  first_rule [] = []
  first_rule (seg ∷ segs) =
      let rest = first_rule segs in if is_empty (segment_rule seg) then rest else segment_rule seg

  -- The tests of `forbiddenRule` after its loop.
  unfoldable pub base_rules : Text → List Text → List (Bool × Text)
  unfolding has_prefix has_suffix is_git_object_shape
  base_rules name segments =
      (name == text ".DS_Store", text "forbidden-name")
      ∷ (has_suffix name (text ".bundle"), text "forbidden-name")
      ∷ (has_prefix name (text ".env"), text "forbidden-name")
      ∷ (is_git_object_shape [] segments, text "forbidden-segment")
      ∷ []

  unfoldable pub base_rule : Text → List Text → Text
  unfolding base_rules first_of
  base_rule name segments = first_of (base_rules name segments)

  -- `forbiddenRule`
  unfoldable pub forbidden_rule : Text → Text
  unfolding split first_rule base_rule trim_prefix
  forbidden_rule name =
      let rel = trim_prefix name required_prefix in
      let segments = split b'/' rel in
      if is_empty (first_rule segments) then base_rule (base rel) segments else first_rule segments

-- `scanDenylist`
unfoldable pub scan_denylist : Text → Text → List Text → List Finding
unfolding contains_text
scan_denylist rel content [] = []
scan_denylist rel content (needle ∷ needles) =
    let rest = scan_denylist rel content needles in
    if is_empty needle
    then rest
    else if contains_text content needle
    then record { rule = text "private-denylist"; path = rel } ∷ []
    else rest

-- The order of `sortFindings`: by rule, then by path.
unfoldable pub finding_le : Finding → Finding → Bool
unfolding text_le
finding_le a b = if not (a.rule == b.rule) then text_le a.rule b.rule else text_le a.path b.path

-- `sortFindings`
unfoldable pub sort_findings : List Finding → List Finding
unfolding sort finding_le
sort_findings findings = sort finding_le findings
