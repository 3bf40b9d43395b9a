-- ===== src/Release/Content.antt =====
-- `scanContent`, `extractHost` and `isAllowlistedHost` of internal/releasecheck/releasecheck.go.
use provehito.Common.{
  ℕ, Text, text, Bool, true, false, not, ◌&&◌, ◌||◌, List, [], ◌∷◌, ◌++◌, Option, none, some,
  is_empty, has_suffix, has_byte, trim_prefix, nat_eq, ◌==◌, if◌then◌else◌,
}
use provehito.Release.{Finding, Names, one_of}

-- What the scan takes from `regexp`: whether a pattern matches, and all its matches in order.
pub record Patterns : Type 0 where
  pub absolute_path : Text → Bool
  pub emails : Text → List Text
  pub credential : Text → Bool
  pub url_credential : Text → Bool
  pub url_hosts : Text → List Text

-- The part before the first byte `b`, or all of it.
unfoldable pub before_byte : ℕ → Text → Text
before_byte b [] = []
before_byte b (c ∷ t) = let rest = before_byte b t in if nat_eq c b then [] else c ∷ rest

-- The part after the last byte `b`, if there is one.
unfoldable pub after_last : ℕ → Text → Option Text
after_last b [] = none
after_last b (c ∷ t) = elim (after_last b t) [
  | some u ↦ some u
  | none ↦ if nat_eq c b then some t else none
]

abbrev is_quote : ℕ → Bool
is_quote c = nat_eq c 0x22 || nat_eq c 0x27

-- `strings.Trim(host, "\"'")`: from the left, and from the right.
unfoldable pub trim_left_quotes : Text → Text
trim_left_quotes [] = []
trim_left_quotes (c ∷ t) = let rest = trim_left_quotes t in if is_quote c then rest else c ∷ t

abbrev keep_unless_bare : ℕ → Text → Text
keep_unless_bare c [] = if is_quote c then [] else c ∷ []
keep_unless_bare c (d ∷ t) = c ∷ d ∷ t

unfoldable pub trim_right_quotes : Text → Text
trim_right_quotes [] = []
trim_right_quotes (c ∷ t) = keep_unless_bare c (trim_right_quotes t)

module _ (names : Names) where
  open names use {lower, ext}

  -- `binaryAssetExt`
  unfoldable pub binary_asset_ext : Text → Bool
  binary_asset_ext rel =
      one_of (lower (ext rel))
        (text ".gif" ∷ text ".png" ∷ text ".jpg" ∷ text ".jpeg" ∷ text ".webp" ∷ [])

  -- `extractHost`
  unfoldable pub extract_host : Text → Text
  unfolding trim_prefix before_byte trim_left_quotes trim_right_quotes
  extract_host raw =
      let rest = trim_prefix (trim_prefix raw (text "https://")) (text "http://") in
      lower (trim_right_quotes (trim_left_quotes (before_byte b':' (before_byte b'/' rest))))

  abbrev under_any : Text → List Text → Bool
  under_any host [] = false
  under_any host (a ∷ rest) = host == a || has_suffix host (b'.' ∷ a) || under_any host rest

  -- `isAllowlistedHost`
  unfoldable pub is_allowlisted_host : Text → Bool
  unfolding has_suffix
  is_allowlisted_host host = under_any (lower host) (
      text "example.com"
      ∷ text "example.org"
      ∷ text "example.net"
      ∷ text "localhost"
      ∷ text "127.0.0.1"
      ∷ text "json-schema.org"
      ∷ text "apache.org"
      ∷ [])

  abbrev example_domain : Option Text → Bool
  example_domain none = true
  example_domain (some domain) =
      one_of (lower domain)
        (text "example.com" ∷ text "example.org" ∷ text "example.net" ∷ text "example.invalid" ∷ [])

  -- The loop over the addresses stops at the first that is no example.
  unfoldable pub foreign_email : List Text → Bool
  unfolding after_last
  foreign_email [] = false
  foreign_email (m ∷ ms) = not (example_domain (after_last b'@' m)) || foreign_email ms

  -- The loop over the URLs stops at the first host that is not allowed.
  unfoldable pub foreign_host : List Text → Bool
  unfolding extract_host is_allowlisted_host
  foreign_host [] = false
  foreign_host (m ∷ ms) =
      (not (is_empty (extract_host m)) && not (is_allowlisted_host (extract_host m)))
      || foreign_host ms

  abbrev found : Bool → Text → Text → List Finding
  found true rule rel = record { rule = rule; path = rel } ∷ []
  found false rule rel = []

  -- `scanContent`
  unfoldable pub scan_content : Patterns → Text → Text → List Finding
  unfolding binary_asset_ext has_byte foreign_email foreign_host
  scan_content patterns rel content =
      if binary_asset_ext rel
      then []
      else found (has_byte 0 content) (text "nul-content") rel
        ++ found (patterns.absolute_path content) (text "absolute-path-content") rel
        ++ found (foreign_email (patterns.emails content)) (text "non-example-email") rel
        ++ found (patterns.credential content) (text "credential-pattern") rel
        ++ found (patterns.url_credential content) (text "url-credential") rel
        ++ found (foreign_host (patterns.url_hosts content)) (text "non-allowlisted-host") rel
