-- ===== src/Command/Version.antt =====
-- `resolveVersion` of cmd/provehito/version.go.
use provehito.Common.{
  ◌∙◌, ℕ, Text, text, Bool, true, false, not, ◌&&◌, List, [], ◌∷◌, drop, has_prefix, is_empty,
  Option, none, some, ◌==◌, ◌≡◌, refl, if◌then◌else◌,
}

pub record VersionInfo : Type 0 where
  pub version : Text
  pub commit : Text
  pub date : Text

-- A setting of the build.
pub record Setting : Type 0 where
  pub key : Text
  pub value : Text

-- What `debug.ReadBuildInfo` gives: the version of the main module and the settings.
pub record BuildInfo : Type 0 where
  pub main_version : Text
  pub settings : List Setting

-- `firstNonEmpty`
unfoldable pub first_non_empty : List Text → Text
first_non_empty [] = []
first_non_empty (v ∷ vs) = let rest = first_non_empty vs in if is_empty v then rest else v

-- `strings.TrimPrefix` of `v`.
abbrev pub trim_v : Text → Text
trim_v t = if has_prefix t (text "v") then drop 1 t else t

abbrev pub module_version : Text → Text → VersionInfo → VersionInfo
module_version version main info =
    if is_empty version && not (is_empty main) && not (main == text "(devel)")
    then record info { version = trim_v main }
    else info

-- One round of the loop over the settings; `commit` and `date` are those of the link.
abbrev pub with_setting : (commit date : Text) → Setting → VersionInfo → VersionInfo
with_setting commit date s info =
    if s.key == text "vcs.revision"
    then (if is_empty commit && not (is_empty s.value)
        then record info { commit = s.value }
        else info)
    else if s.key == text "vcs.time"
    then (if is_empty date && not (is_empty s.value) then record info { date = s.value } else info)
    else info

unfoldable pub with_settings : (commit date : Text) → List Setting → VersionInfo → VersionInfo
with_settings commit date [] info = info
with_settings commit date (s ∷ ss) info =
    with_settings commit date ss (with_setting commit date s info)

abbrev pub from_build : (version commit date : Text) → Option BuildInfo → VersionInfo → VersionInfo
from_build version commit date none info = info
from_build version commit date (some b) info =
    let named = module_version version b.main_version info in
    if not (is_empty commit) && not (is_empty date)
    then named
    else with_settings commit date b.settings named

-- `resolveVersion`, on the values set at the link.
unfoldable pub resolve_version : (version commit date : Text) → Option BuildInfo → VersionInfo
unfolding first_non_empty with_settings has_prefix
resolve_version version commit date build = from_build version commit date build record {
  version = first_non_empty (version ∷ text "dev" ∷ []);
  commit = first_non_empty (commit ∷ text "unknown" ∷ []);
  date = first_non_empty (date ∷ text "unknown" ∷ []);
}

with_settings-commit :
    (c : ℕ) (commit date : Text) (ss : List Setting) (info : VersionInfo)
    → (with_settings (c ∷ commit) date ss info).commit ≡ info.commit
unfolding with_settings
with_settings-commit c commit date [] info = refl
with_settings-commit c commit date (s ∷ ss) info =
    with_settings-commit c commit date ss (with_setting (c ∷ commit) date s info)
    ∙ kept (s.key == text "vcs.revision") (s.key == text "vcs.time")
        (is_empty date && not (is_empty s.value))
  where
    kept :
        (a b d : Bool)
        → (if a
            then info
            else if b
            then (if d then record info { date = s.value } else info)
            else info).commit
          ≡ info.commit
    kept true b d = refl
    kept false true true = refl
    kept false true false = refl
    kept false false d = refl

if-commit :
    {x : Text} (b : Bool) (p q : VersionInfo)
    → p.commit ≡ x
    → q.commit ≡ x
    → (if b then p else q).commit ≡ x
if-commit true p q h k = h
if-commit false p q h k = k

-- A commit that was set at the link is reported, whatever the build says.
resolve_version-commit :
    (c : ℕ) (version commit date : Text) (build : Option BuildInfo)
    → (resolve_version version (c ∷ commit) date build).commit ≡ c ∷ commit
unfolding resolve_version first_non_empty
resolve_version-commit c version commit date none = refl
resolve_version-commit c version commit date (some b) =
    let info : VersionInfo = record {
      version = first_non_empty (version ∷ text "dev" ∷ []);
      commit = c ∷ commit;
      date = first_non_empty (date ∷ text "unknown" ∷ []);
    } in
    let named = module_version version b.main_version info in
    let same : named.commit ≡ c ∷ commit =
      if-commit
        (is_empty version
          && not (is_empty b.main_version)
          && not (b.main_version == text "(devel)"))
        (record info { version = trim_v b.main_version }) info refl refl in
    if-commit (not (is_empty date)) named (with_settings (c ∷ commit) date b.settings named) same
      (with_settings-commit c commit date b.settings named ∙ same)
