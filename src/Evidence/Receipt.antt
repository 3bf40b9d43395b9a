-- ===== src/Evidence/Receipt.antt =====
-- `Receipt` and `validateInput` of core/evidence/receipt.go.
use provehito.Common.{
  ℕ, Text, text, Bool, true, false, not, ◌&&◌, ◌||◌, List, [], ◌∷◌, Option, none, some, length,
  is_empty, any_of, ltb, nat_eq, map, ◌==◌, if◌then◌else◌,
}
use provehito.Common.Ints.{ℤ, pos, int_eq}
use provehito.Failure.{Error, plain, is_hash, class_of, code_for}
use provehito.Failure.Outcome.{Check, guards}
use provehito.Fingerprint.Identity.{Fingerprint, no_fingerprint}

pub record Reference : Type 0 where
  pub name : Text
  pub hash : Text
  pub path : Text

pub record Receipt : Type 0 where
  pub candidate : Fingerprint
  pub schema_version : ℤ
  pub method_id : Text
  pub seat_id : Text
  pub probe : Text
  pub candidate_hash : Text
  pub manifest_hash : Text
  pub result_class : Text
  pub exit_code : ℤ
  pub artifacts : Option (List Reference)
  pub timestamp : Text
  pub canonical_hash : Text

pub record Payload : Type 0 where
  pub schema_version : ℤ
  pub method_id : Text
  pub seat_id : Text
  pub probe : Text
  pub candidate_hash : Text
  pub manifest_hash : Text
  pub result_class : Text
  pub exit_code : ℤ
  pub artifacts : Option (List Reference)
  pub timestamp : Text

abbrev max_method_id : ℕ
max_method_id = 128

abbrev max_probe_id : ℕ
max_probe_id = 256

abbrev max_artifact : ℕ
max_artifact = 32

abbrev max_name : ℕ
max_name = 256

abbrev pub result_success : Text
result_success = text "SUCCESS"

abbrev without_path : Reference → Reference
without_path r = record r { path = [] }

-- `cloneReferences`: the copies carry no path.
abbrev pub clone_references : Option (List Reference) → Option (List Reference)
clone_references none = none
clone_references (some refs) = some (map without_path refs)

-- `payload`
unfoldable pub payload : Receipt → Payload
payload r = record {
  schema_version = r.schema_version;
  method_id = r.method_id;
  seat_id = r.seat_id;
  probe = r.probe;
  candidate_hash = r.candidate_hash;
  manifest_hash = r.manifest_hash;
  result_class = r.result_class;
  exit_code = r.exit_code;
  artifacts = clone_references r.artifacts;
  timestamp = r.timestamp;
}

-- `hasControl`: control characters are single bytes in UTF-8.
unfoldable has_control : Text → Bool
unfolding any_of
has_control value = any_of (λ c. ltb c 0x20 || nat_eq c 0x7f) value

abbrev or_default : Text → Text → Text
or_default value default = if is_empty value then default else value

-- `normalizeIdentity`
unfoldable pub normalize_identity : Receipt → Receipt
normalize_identity r = record r {
  candidate_hash = or_default r.candidate_hash r.candidate.equivalent_hash;
  manifest_hash = or_default r.manifest_hash r.candidate.manifest_hash;
}

-- `cloneReceipt`
unfoldable pub clone_receipt : Receipt → Receipt
unfolding normalize_identity
clone_receipt r =
    let n = normalize_identity r in
    record n { artifacts = clone_references n.artifacts; candidate = no_fingerprint }

-- A candidate that names an identity has to agree with the hashes.
unfoldable mismatched : Receipt → Bool
mismatched r =
    (not (is_empty r.candidate.equivalent_hash) || not (is_empty r.candidate.manifest_hash))
    && (not (r.candidate_hash == r.candidate.equivalent_hash)
        || not (r.manifest_hash == r.candidate.manifest_hash))

unfoldable missing_fields : Receipt → Bool
unfolding int_eq has_control is_hash
missing_fields r =
    not (int_eq r.schema_version (pos 1))
    || is_empty r.method_id
    || ltb max_method_id (length r.method_id)
    || has_control r.method_id
    || is_empty r.probe
    || ltb max_probe_id (length r.probe)
    || has_control r.probe
    || not (is_hash r.candidate_hash)
    || not (is_hash r.manifest_hash)

unfoldable bad_seat : Text → Bool
unfolding has_control
bad_seat seat = ltb max_method_id (length seat) || has_control seat

-- More artifacts than allowed, or a slice that is empty and not nil.
abbrev bad_presence : Option (List Reference) → Bool
bad_presence none = false
bad_presence (some refs) = ltb max_artifact (length refs) || is_empty refs

unfoldable bad_artifact : Reference → Bool
unfolding has_control is_hash
bad_artifact a =
    not (is_empty a.path)
    || is_empty a.name
    || ltb max_name (length a.name)
    || has_control a.name
    || not (is_hash a.hash)

abbrev artifact_list : Option (List Reference) → List Reference
artifact_list none = []
artifact_list (some refs) = refs

abbrev pub wrong_code : Option ℕ → ℤ → Bool
wrong_code none code = true
wrong_code (some expected) code = not (int_eq code (pos expected))

-- `SUCCESS` goes with exit code zero, and each class of failures with its own.
unfoldable pub bad_result : Text → ℤ → Bool
unfolding int_eq class_of code_for
bad_result class code =
    if class == result_success
    then not (int_eq code (pos 0))
    else wrong_code (code_for (class_of class)) code

-- `validateInput`
unfoldable pub input_guards : Receipt → List (Bool × Error)
unfolding mismatched missing_fields bad_seat bad_artifact bad_result any_of
input_guards r =
    (mismatched r, plain "receipt candidate identity mismatch")
    ∷ (missing_fields r, plain "receipt required fields")
    ∷ (bad_seat r.seat_id, plain "receipt seat id")
    ∷ (bad_presence r.artifacts, plain "receipt artifact presence")
    ∷ (any_of bad_artifact (artifact_list r.artifacts), plain "receipt artifact reference")
    ∷ (bad_result r.result_class r.exit_code, plain "receipt result class and exit code")
    ∷ []

unfoldable pub validate_input : Receipt → Check
unfolding normalize_identity input_guards guards
validate_input r = guards (input_guards (normalize_identity r))
