-- ===== src/Manifest/Normalize.antt =====
-- `normalize` and `decode` of core/manifest/model.go. Values are not shared here, so the copies
-- that `cloneManifest` makes are the manifest itself.
use provehito.Common.{
  Text, String, Bool, false, not, List, [], ◌∷◌, Option, none, some, is_empty, ◌==◌, if◌then◌else◌,
}
use provehito.Failure.{plain, wrapped, new, usage_or_schema}
use provehito.Failure.Outcome.{Result, ok, err, ◌>>=◌, or_else}
use provehito.Canon.Bytes.{Json, canonical_bytes, hash_json}
use provehito.Manifest.Model.{Dispatch, FreezeRecord, ReviewRecord, FailureRecord, Manifest}

-- What the program takes from `encoding/json` and `time` for manifests: the two marshalled forms,
-- the strict decoder, whether more than the end follows the decoded value, and parsing a timestamp
-- by a layout and printing it as UTC RFC3339 seconds.
pub record Library : Type 0 where
  pub json : Json
  pub marshal_dispatch : Dispatch → Result Text
  pub marshal : Manifest → Result Text
  pub decode_strict : Text → Result Manifest
  pub has_trailing : Text → Bool
  pub reformat : Text → Option Text
  pub reformat_nano : Text → Option Text

-- `isCanonicalTimestamp`
abbrev is_fixed : Text → Option Text → Bool
is_fixed value none = false
is_fixed value (some t) = t == value

abbrev or_parse_error : Option Text → Result Text
or_parse_error none = err (plain "parsing time")
or_parse_error (some t) = ok t

module _ (lib : Library) where
  open lib use {
    json, marshal_dispatch, marshal, decode_strict, has_trailing, reformat, reformat_nano,
  }

  unfoldable pub is_canonical_timestamp : Text → Bool
  is_canonical_timestamp value = is_fixed value (reformat value)

  -- `normalizeTimestamp`, with the name that the caller puts before its error.
  unfoldable normalize_timestamp : String → Text → Result Text
  normalize_timestamp field value = or_else (wrapped field) (or_parse_error (reformat_nano value))

  unfoldable normalize_freeze : Option FreezeRecord → Result (Option FreezeRecord)
  unfolding normalize_timestamp
  normalize_freeze none = ok none
  normalize_freeze (some f) = do
    t ← normalize_timestamp "freeze.at" f.at
    ok (some (record f { at = t }))

  unfoldable normalize_review : Option ReviewRecord → Result (Option ReviewRecord)
  unfolding normalize_timestamp
  normalize_review none = ok none
  normalize_review (some r) = do
    t ← normalize_timestamp "review.at" r.at
    ok (some (record r { at = t }))

  unfoldable normalize_failures : List FailureRecord → Result (List FailureRecord)
  unfolding normalize_timestamp
  normalize_failures [] = ok []
  normalize_failures (r ∷ rs) = do
    t ← normalize_timestamp "failures.at" r.at
    rest ← normalize_failures rs
    ok (record r { at = t } ∷ rest)

  -- `normalizeDeclaredTimestamps`
  unfoldable normalize_declared_timestamps : Manifest → Result Manifest
  unfolding normalize_freeze normalize_review normalize_failures
  normalize_declared_timestamps m = do
    created ← normalize_timestamp "created_at" m.created_at
    updated ← normalize_timestamp "updated_at" m.updated_at
    freeze ← normalize_freeze m.freeze
    review ← normalize_review m.review
    failures ← normalize_failures m.failures
    ok (record m {
      created_at = created;
      updated_at = updated;
      freeze = freeze;
      review = review;
      failures = failures;
    })

  -- `dispatchHash`
  unfoldable pub dispatch_hash : Dispatch → Result Text
  unfolding hash_json
  dispatch_hash d = do b ← marshal_dispatch d; hash_json json b

  -- The dispatch hash is filled in, or has to be the right one.
  unfoldable bind_dispatch : Manifest → Text → Result Manifest
  bind_dispatch m hash =
      if is_empty m.dispatch_hash
      then ok (record m { dispatch_hash = hash })
      else if not (m.dispatch_hash == hash)
      then err (new usage_or_schema "manifest dispatch hash mismatch")
      else ok m

  -- `normalize`: the manifest, its canonical bytes and their hash.
  unfoldable pub normalize : Manifest → Result (Manifest × Text × Text)
  unfolding normalize_declared_timestamps dispatch_hash bind_dispatch canonical_bytes hash_json
  normalize m = do
    timed ← normalize_declared_timestamps m
    wanted ← dispatch_hash timed.dispatch
    bound ← bind_dispatch timed wanted
    b ← marshal bound
    canonical ← canonical_bytes json b
    normalized ← decode_strict canonical
    hash ← hash_json json canonical
    ok (normalized, canonical, hash)
