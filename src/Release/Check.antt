-- ===== src/Release/Check.antt =====
-- The loop of `Check` of internal/releasecheck/releasecheck.go over the members of an archive.
use provehito.Common.{
  ℕ, ◌+◌, ◌-◌, ◌*◌, ◌%◌, ◌^◌, Text, text, Bool, false, not, ◌&&◌, ◌||◌, List, [], ◌∷◌, ◌++◌, Option,
  none, some, is_empty, any_of, has_prefix, has_suffix, has_byte, trim_prefix, nat_eq, ltb, ◌==◌,
  if◌then◌else◌,
}
use provehito.Release.{
  first_of, Finding, Names, required_prefix, has_control_name, contains_traversal, forbidden_rule,
  scan_denylist,
}
use provehito.Release.Content.{Patterns, scan_content}

abbrev pub max_file_size : ℕ
max_file_size = 32 * 1024 * 1024

abbrev pub max_total_size : ℕ
max_total_size = 32 * 1024 * 1024

-- A `zip.File`: its name and flags, what `Mode` says, its two sizes (below 2 ^ 64), and its content if it
-- can be read.
pub record Entry : Type 0 where
  pub name : Text
  pub flags : ℕ
  pub symlink : Bool
  pub regular : Bool
  pub uncompressed : ℕ
  pub compressed : ℕ
  pub content : Option Text

-- What the loop takes from `path`, from `unicode/utf8` (the characters of a text, and the bytes of
-- one) and from float64: whether the quotient of two sizes exceeds `maxCompressRatio`.
pub record Archive : Type 0 where
  pub names : Names
  pub is_abs : Text → Bool
  pub runes : Text → List ℕ
  pub encode : ℕ → Text
  pub ratio_exceeds : ℕ → ℕ → Bool
  pub patterns : Patterns

-- The variables of the loop; a map from names to names is the list of its pairs.
pub record Scan : Type 0 where
  pub findings : List Finding
  pub members : List Text
  pub total : ℕ
  pub seen : List Text
  pub fold_seen : List (Text × Text)

-- uint64 arithmetic.
abbrev pub sub64 : ℕ → ℕ → ℕ
sub64 a b = (a + 2 ^ 64 - b) % 2 ^ 64

abbrev pub add64 : ℕ → ℕ → ℕ
add64 a b = (a + b) % 2 ^ 64

-- `prev, ok := foldSeen[fold]; ok && prev != name`
unfoldable pub collides : Text → Text → List (Text × Text) → Bool
collides fold name [] = false
collides fold name ((f, prev) ∷ rest) =
    if fold == f then not (prev == name) else collides fold name rest

module _ (archive : Archive) (denylist : List Text) where
  open archive use {names, is_abs, runes, encode, ratio_exceeds, patterns}

  -- `sanitizePath`
  unfoldable pub sanitize : List ℕ → Text
  sanitize [] = []
  sanitize (r ∷ rs) = (if ltb r 0x20 || nat_eq r 0x7f then b'?' ∷ [] else encode r) ++ sanitize rs

  abbrev pub report : Scan → Text → Entry → Scan
  report s rule e = record s {
    findings = s.findings ++ (record { rule = rule; path = sanitize (runes e.name) } ∷ []);
  }

  -- The tests on the entry alone, before the loop remembers its name: the rule broken, or none.
  unfoldable pub name_rules : Entry → List (Bool × Text)
  unfolding has_byte has_prefix has_suffix has_control_name contains_traversal
  name_rules e =
      (has_byte 0x5c e.name, text "backslash-path")
      ∷ (has_prefix e.name (text "/") || is_abs e.name, text "absolute-path")
      ∷ (has_control_name e.name, text "control-name")
      ∷ (contains_traversal e.name, text "path-traversal")
      ∷ (nat_eq (e.flags % 2) 1, text "encrypted-entry")
      ∷ (
        e.symlink || (not e.regular && not (has_suffix e.name (text "/"))),
        text "non-regular-entry",
      )
      ∷ []

  unfoldable pub name_rule : Entry → Text
  unfolding name_rules first_of
  name_rule e = first_of (name_rules e)

  -- The content of a member.
  unfoldable pub scan_member : Scan → Entry → Text → Scan
  unfolding scan_content scan_denylist
  scan_member s e rel = elim (e.content) [
    | none ↦ report s (text "read-error") e
    | some content ↦ record s {
      findings =
          s.findings
          ++ scan_content names patterns rel content
          ++ (if is_empty denylist then [] else scan_denylist rel content denylist);
    }
  ]

  -- From the relative name on.
  unfoldable pub place_member : Scan → Entry → Text → Scan
  unfolding has_suffix scan_member
  place_member s e rel =
      if is_empty rel || has_suffix rel (text "/")
      then s
      else scan_member (record s { members = s.members ++ (rel ∷ []) }) e rel

  -- From the compression ratio on.
  unfoldable pub take_member : Scan → Entry → Scan
  unfolding has_prefix trim_prefix place_member
  take_member s e =
      if ltb 0 e.compressed && ratio_exceeds e.uncompressed e.compressed
      then report s (text "compression-ratio") e
      else if not (has_prefix e.name required_prefix)
      then report s (text "missing-prefix") e
      else place_member s e (trim_prefix e.name required_prefix)

  -- From the forbidden names on.
  unfoldable pub admit : Scan → Entry → Scan
  unfolding forbidden_rule take_member
  admit s e =
      if not (is_empty (forbidden_rule names e.name))
      then report s (forbidden_rule names e.name) e
      else if ltb max_file_size e.uncompressed
      then report s (text "file-size-limit") e
      else if ltb (sub64 max_total_size s.total) e.uncompressed
      then report s (text "total-size-limit") e
      else take_member (record s { total = add64 s.total e.uncompressed }) e

  -- One round of the loop.
  unfoldable pub check_entry : Scan → Entry → Scan
  unfolding name_rule any_of collides admit
  check_entry s e =
      let fold = names.lower e.name in
      let named = record s { seen = e.name ∷ s.seen } in
      if not (is_empty (name_rule e))
      then report s (name_rule e) e
      else if any_of (λ n. e.name == n) s.seen
      then report s (text "duplicate-name") e
      else if collides fold e.name s.fold_seen
      then report named (text "case-fold-collision") e
      else admit (record named { fold_seen = (fold, e.name) ∷ s.fold_seen }) e

  unfoldable pub check_entries : Scan → List Entry → Scan
  unfolding check_entry
  check_entries s [] = s
  check_entries s (e ∷ es) = check_entries (check_entry s e) es

abbrev pub start : Scan
start = record { findings = []; members = []; total = 0; seen = []; fold_seen = [] }
